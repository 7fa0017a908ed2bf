-- ===== src/Server/Callbacks/Signals.antt =====
-- The table of signal events.
use vs_http_server.Prelude.{
  ℕ, ◌≡◌, refl, ap, ◌∙◌, Bool, true, false, Option, none, some, List, [], ◌∷◌, arith, if◌then◌else◌,
  ℤ, eq_ℤ, eq_ℤ_refl, eq_ℤ_eq, Bool-cases, inl, inr,
}
use vs_http_server.Server.Callbacks.{
  SignalEvents, set_signal, delete_signal_event, add_signal_event,
}

abbrev pub listed : Option ℕ → List ℕ
listed none = []
listed (some ev) = ev ∷ []

delete_signal_event_lem :
    (sig sig2 : ℤ) (m : SignalEvents)
    → let r = delete_signal_event sig m in
      (r.1 ≡ listed (m sig)) × (r.2 sig2 ≡ (if eq_ℤ sig2 sig then none else m sig2))
unfolding delete_signal_event
delete_signal_event_lem sig sig2 m = by_event (m sig) refl
  where
    by_event :
        (ev : Option ℕ)
        → m sig ≡ ev
        → let r : Bool × List ℕ × SignalEvents = elim ev [
          | none ↦ (false, [], m)
          | some e ↦ (true, e ∷ [], set_signal sig none m)
        ] in
          (r.1 ≡ listed ev) × (r.2 sig2 ≡ (if eq_ℤ sig2 sig then none else m sig2))
    by_event none e = (
      refl,
      elim (Bool-cases (eq_ℤ sig2 sig)) [
        | inl same ↦ rw same (ap m (eq_ℤ_eq sig2 sig same) ∙ e)
        | inr apart ↦ rw apart refl
      ],
    )
    by_event (some ev) e = (refl, refl)

-- A call whose event is added deletes the event that the signal had, if any, and no other; then the
-- signal has the new event, and the other signals have theirs.
pub add_signal_event-Adds :
    (sig : ℤ) (ev : ℕ) (m : SignalEvents) (sig2 : ℤ)
    → let r = add_signal_event sig (some ev) true m in
      (r.0 ≡ true)
      × (r.1 ≡ listed (m sig))
      × (r.2 sig2 ≡ (if eq_ℤ sig2 sig then some ev else m sig2))
unfolding add_signal_event
add_signal_event-Adds sig ev m sig2 =
    let (deleted, rest) = delete_signal_event_lem sig sig2 m in
    (
      refl,
      deleted,
      elim (Bool-cases (eq_ℤ sig2 sig)) [
        | inl same ↦ rw same refl
        | inr apart ↦ rw apart (rest ∙ rw apart refl)
      ],
    )

delete_signal_event-found :
    (sig : ℤ) (ev : ℕ) (m : SignalEvents)
    → m sig ≡ some ev
    → delete_signal_event sig m ≡ (true, ev ∷ [], set_signal sig none m)
delete_signal_event-found sig ev m e =
    unfold delete_signal_event in rw (delete_signal_event, e) refl

-- `DeleteSignalEvent` behind `AddSignalEvent` finds the event that was added, deletes it alone, and
-- leaves the signal without one and the other signals as they were before.
pub delete_signal_event-add_signal_event :
    (sig : ℤ) (ev : ℕ) (m : SignalEvents) (sig2 : ℤ)
    → let r = delete_signal_event sig (add_signal_event sig (some ev) true m).2 in
      (r.0 ≡ true) × (r.1 ≡ ev ∷ []) × (r.2 sig2 ≡ (if eq_ℤ sig2 sig then none else m sig2))
delete_signal_event-add_signal_event sig ev m sig2 =
    let (_, _, own) = add_signal_event-Adds sig ev m sig in
    let (_, _, rest) = add_signal_event-Adds sig ev m sig2 in
    let found = own ∙ ap (λ b. if b then some ev else m sig) (eq_ℤ_refl sig) in
    rw (delete_signal_event-found sig ev (add_signal_event sig (some ev) true m).2 found)
      (refl, refl, ground (arith, rest))
