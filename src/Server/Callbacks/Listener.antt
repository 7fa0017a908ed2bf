-- ===== src/Server/Callbacks/Listener.antt =====
-- The round robin of `ListenerEventCb`.
use vs_http_server.Prelude.{
  ℕ, zero, suc, ◌+◌, ◌-◌, ◌%◌, ◌<◌, ◌≤◌, ◌≡◌, refl, ap, ap₂, ◌∙◌, none, some, List, [], ◌∷◌, ◌++◌,
  arith, length, take, drop, ◌==◌, ==_ne, if◌then◌else◌, get_elem?, Outcome, ret, fault, ◌>>=◌, ◌⊎◌,
  inl, inr, Bool, true, false, ltb, ltb→lt, ltb→le, Bool-cases,
}
use native.Mathlib.Nat.{mod-eq-sub-mod}
use vs_http_server.Server.Callbacks.{choose_thread}

get_elem?-none : (i : ℕ) (xs : List ℕ) → length xs ≤ i → get_elem? xs i ≡ none
get_elem?-none i [] h = refl
get_elem?-none zero (x ∷ xs) h = elim h [ ]
get_elem?-none (suc i) (x ∷ xs) h = get_elem?-none i xs (omega arith)

get_elem?-drop :
    (i : ℕ) (xs : List ℕ)
    → i < length xs
    → (x : ℕ) × (get_elem? xs i ≡ some x) × (drop i xs ≡ x ∷ drop (suc i) xs)
get_elem?-drop i [] h = elim h [ ]
get_elem?-drop zero (x ∷ xs) h = (x, refl, refl)
get_elem?-drop (suc i) (x ∷ xs) h = get_elem?-drop i xs (omega arith)

choose_thread_lem :
    (idle : List ℕ) (i : ℕ)
    → i < length idle
    → (x : ℕ) × (choose_thread idle i ≡ ret (x, (i + 1) % length idle))
      × (drop i idle ≡ x ∷ drop (suc i) idle)
unfolding choose_thread
choose_thread_lem idle i h =
    let (x, e, d) = get_elem?-drop i idle h in
    (x, rw (==_ne (length idle) 0 (omega arith), e) refl, d)

-- Where the count is past the idle list, an empty one included, the callback makes a bad access; else
-- the socket goes to the thread at the count, and the next count is in the list.
pub choose_thread-Chooses :
    (idle : List ℕ) (i : ℕ)
    → (length idle ≤ i) × (choose_thread idle i ≡ fault)
      ⊎ ((x : ℕ) × (next : ℕ) × (choose_thread idle i ≡ ret (x, next))
          × (get_elem? idle i ≡ some x)
          × (next < length idle))
unfolding choose_thread
choose_thread-Chooses idle i = elim (Bool-cases (ltb i (length idle))) [
  | inl lt ↦
      let (x, e, d) = get_elem?-drop i idle (ltb→lt i (length idle) lt) in
      inr (
        x,
        (i + 1) % length idle,
        rw (==_ne (length idle) 0 (omega (arith, ltb→lt i (length idle) lt)), e) refl,
        e,
        ground (arith, ltb→lt i (length idle) lt),
      )
  | inr ge ↦
      let past = ltb→le i (length idle) ge in
      inl (past, rw (get_elem?-none i idle past) (if_same (length idle == 0)))
]
  where
    if_same : (b : Bool) → ◌≡◌ {A = Outcome (ℕ × ℕ)} (if b then fault else fault) fault
    if_same true = refl
    if_same false = refl

-- The threads that get the next `rounds` sockets, and the count behind them, as long as the idle list
-- stays.
unfoldable pub choose_threads : ℕ → List ℕ → ℕ → Outcome (List ℕ × ℕ)
unfolding choose_thread
choose_threads zero idle i = ret ([], i)
choose_threads (suc rounds) idle i = do
  (t, next) ← choose_thread idle i
  (ts, last) ← choose_threads rounds idle next
  ret (t ∷ ts, last)

-- Up to the end of the list the sockets go to its threads in order.
choose_threads_below :
    (rounds : ℕ) (idle : List ℕ) (i : ℕ)
    → i < length idle
    → i + rounds ≤ length idle
    → choose_threads rounds idle i ≡ ret (take rounds (drop i idle), (i + rounds) % length idle)
unfolding choose_threads
choose_threads_below zero idle i lt le =
    ap (λ j. ret ([], j)) (let e : i ≡ (i + 0) % length idle = grind arith in e)
choose_threads_below (suc zero) idle i lt le =
    let (x, e, d) = choose_thread_lem idle i lt in rw (e, d) refl
choose_threads_below (suc (suc rounds)) idle i lt le =
    let (x, e, d) = choose_thread_lem idle i lt in
    let next : (i + 1) % length idle ≡ suc i = grind arith in
    let last : (suc i + suc rounds) % length idle ≡ (i + suc (suc rounds)) % length idle =
      ap (λ n. n % length idle) (omega arith) in
    rw
      (e, next, choose_threads_below (suc rounds) idle (suc i) (omega arith) (omega arith), d, last)
      refl

drop-all : (n : ℕ) (xs : List ℕ) → length xs ≤ n → drop n xs ≡ []
drop-all zero [] h = refl
drop-all zero (x ∷ xs) h = elim h [ ]
drop-all (suc n) [] h = refl
drop-all (suc n) (x ∷ xs) h = drop-all n xs (omega arith)

mod_around : (n r : ℕ) → 0 < n → (n + r) % n ≡ r % n
mod_around n r h = mod-eq-sub-mod (omega arith) ∙ ap (λ k. k % n) (omega arith)

-- Past the end of the list they go on at its front.
choose_threads_around :
    (rounds : ℕ) (idle : List ℕ) (i : ℕ)
    → i < length idle
    → length idle ≤ i + rounds
    → rounds ≤ length idle
    → choose_threads rounds idle i
      ≡ ret (drop i idle ++ take (i + rounds - length idle) idle, (i + rounds) % length idle)
unfolding choose_threads
choose_threads_around zero idle i lt ge le = absurd (let no : ⊥ = omega arith in no)
choose_threads_around (suc rounds) idle i lt ge le = elim (Bool-cases (ltb (suc i) (length idle))) [
  | inl more ↦
      let (x, e, d) = choose_thread_lem idle i lt in
      let next : (i + 1) % length idle ≡ suc i = grind (arith, ltb→lt (suc i) (length idle) more) in
      let sum : suc i + rounds ≡ i + suc rounds = omega arith in
      rw
        (
          e,
          next,
          choose_threads_around rounds idle (suc i) (ltb→lt (suc i) (length idle) more)
              (omega arith) (omega arith),
          d,
          sum,
        )
        refl
  | inr end ↦
      let (x, e, d) = choose_thread_lem idle i lt in
      let whole : suc i ≡ length idle = omega (arith, ltb→le (suc i) (length idle) end) in
      let next : (i + 1) % length idle ≡ 0 = grind arith in
      let left : i + suc rounds - length idle ≡ rounds = omega arith in
      let last : (i + suc rounds) % length idle ≡ rounds % length idle =
        ap (λ n. n % length idle) (let e : i + suc rounds ≡ length idle + rounds = omega arith in e)
        ∙ mod_around (length idle) rounds (omega arith) in
      let from : 0 + rounds ≡ rounds = omega arith in
      rw
        (
          e,
          next,
          choose_threads_below rounds idle 0 (omega arith) (omega arith),
          d,
          drop-all (suc i) idle (omega arith),
          left,
          last,
          from,
        )
        refl
]

-- Where the count stands in the idle list, and while that list stays, as many sockets as there are
-- idle threads go to each of them once, in the order of the list, from the count on and around; the
-- count is then what it was.
pub choose_threads-all :
    (idle : List ℕ) (i : ℕ)
    → i < length idle
    → choose_threads (length idle) idle i ≡ ret (drop i idle ++ take i idle, i)
choose_threads-all idle i lt =
    let left : i + length idle - length idle ≡ i = omega arith in
    let last : (i + length idle) % length idle ≡ i = grind arith in
    choose_threads_around (length idle) idle i lt (omega arith) (omega arith)
    ∙ ap₂ (λ n k. ret (drop i idle ++ take n idle, k)) left last
