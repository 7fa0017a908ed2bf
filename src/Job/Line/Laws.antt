-- ===== src/Job/Line/Laws.antt =====
-- What `parse_line` does to the buffer.
use vs_http_server.Prelude.{
  ℕ, zero, suc, [], ◌∷◌, ◌+◌, ◌-◌, ◌<◌, ◌≤◌, ◌≡◌, refl, ◌∙◌, arith, true, length, set, drop, ◌==◌,
  Outcome, ret, ◌>>=◌, Returns-if, Returns-map, ltb, Returns, ◌≢◌, get_elem?_lt, length-set,
}
use vs_http_server.CString.{Bytes}
use vs_http_server.CString.Laws.{has_nul, has_nul-set}
use vs_http_server.Job.State.{
  Job, LineStatus, line_ok, line_bad, line_open, load, store, IsBuffered,
}
use vs_http_server.Job.Line.{line_at_return, line_at_newline, scan_line, parse_line}

pub load_lt : (buf : Bytes) (i : ℕ) → i < length buf → (c : ℕ) × (load buf i ≡ ret c)
unfolding load
load_lt buf i h = let (c, e) = get_elem?_lt buf i h in (c, rw e)

pub store_lt : (buf : Bytes) (i v : ℕ) → i < length buf → store buf i v ≡ ret (set buf i v)
unfolding store
store_lt buf i v h = ground arith

module _ (P : LineStatus × Job → Type 0) where
  pub Returns-load :
      (buf : Bytes) (i : ℕ) (f : ℕ → Outcome (LineStatus × Job))
      → i < length buf
      → ((c : ℕ) → load buf i ≡ ret c → Returns P (f c))
      → Returns P (load buf i >>= f)
  Returns-load buf i f h k = let (c, e) = load_lt buf i h in rw e (k c e)

  pub Returns-store :
      (buf : Bytes) (i v : ℕ) (f : Bytes → Outcome (LineStatus × Job))
      → i < length buf
      → Returns P (f (set buf i v))
      → Returns P (store buf i v >>= f)
  Returns-store buf i v f h k = rw (store_lt buf i v h) k

-- A NUL written at or behind an offset ends the string there.
pub has_nul-drop-set :
    (buf : Bytes) (q i : ℕ) → q ≤ i → i < length buf → has_nul (drop q (set buf i 0)) ≡ true
has_nul-drop-set [] q i h l = elim l [ ]
has_nul-drop-set (c ∷ buf) zero i h l = has_nul-set i (c ∷ buf) l
has_nul-drop-set (c ∷ buf) (suc q) zero h l = elim h [ ]
has_nul-drop-set (c ∷ buf) (suc q) (suc i) h l =
    has_nul-drop-set buf q i (omega arith) (omega arith)

-- A store of a NUL ends no string later.
pub has_nul-drop_store :
    (buf : Bytes) (u i : ℕ) → has_nul (drop u buf) ≡ true → has_nul (drop u (set buf i 0)) ≡ true
has_nul-drop_store [] u i h = h
has_nul-drop_store (c ∷ buf) (suc u) zero h = h
has_nul-drop_store (c ∷ buf) (suc u) (suc i) h = has_nul-drop_store buf u i h
has_nul-drop_store (c ∷ buf) zero zero h = refl
has_nul-drop_store (c ∷ buf) zero (suc i) h = ground (arith, has_nul-drop_store buf zero i)

-- A call leaves all but the buffer and `m_checked_idx`, goes on by a byte at least where it
-- finds a line, and then the line is a string that ends in the buffer.
pub record LineRead (j : Job) (s : LineStatus) (k : Job) : Type 0 where
  pub frame : k ≡ record j { read_buf = k.read_buf; checked_idx = k.checked_idx }
  pub size : length k.read_buf ≡ length j.read_buf
  pub checked_le : k.checked_idx ≤ j.read_idx
  pub checked_ge : j.checked_idx ≤ k.checked_idx
  pub advances : s ≡ line_ok → j.checked_idx < k.checked_idx
  pub line_ends : s ≡ line_ok → has_nul (drop j.start_line k.read_buf) ≡ true
  pub keeps_nul : (u : ℕ) → has_nul (drop u j.read_buf) ≡ true → has_nul (drop u k.read_buf) ≡ true
  pub unchanged : s ≢ line_ok → k.read_buf ≡ j.read_buf

abbrev pub Reads : Job → LineStatus × Job → Type 0
Reads j r = LineRead j r.0 r.1

stays-LineRead :
    (j : Job) (s : LineStatus) → s ≢ line_ok → j.checked_idx ≤ j.read_idx → LineRead j s j
stays-LineRead j s ne h = record {
  frame = refl;
  size = refl;
  checked_le = h;
  checked_ge = omega arith;
  advances = λ e. absurd (ne e);
  line_ends = λ e. absurd (ne e);
  keeps_nul = λ u e. e;
  unchanged = λ _. refl;
}

-- Two stores end the line, and the index goes on.
cut-LineRead :
    (j : Job) (a b c : ℕ)
    → IsBuffered j
    → j.start_line ≤ b
    → b < j.read_idx
    → j.checked_idx < c
    → c ≤ j.read_idx
    → LineRead j line_ok (record j { read_buf = set (set j.read_buf a 0) b 0; checked_idx = c })
cut-LineRead j a b c v hs hb hc hr = record {
  frame = refl;
  size = length-set (set j.read_buf a 0) b 0 ∙ length-set j.read_buf a 0;
  checked_le = hr;
  checked_ge = omega arith;
  advances = λ _. hc;
  line_ends = λ _.
      has_nul-drop-set (set j.read_buf a 0) j.start_line b hs
        (omega (arith, length-set {0} j.read_buf a 0));
  keeps_nul =
      λ u e. has_nul-drop_store (set j.read_buf a 0) u b (has_nul-drop_store j.read_buf u a e);
  unchanged = λ ne. absurd (ne refl);
}

-- The two stores of a line's end, in bounds.
cut_runs :
    (j : Job) (a c : ℕ)
    → IsBuffered j
    → j.start_line ≤ a + 1
    → a + 1 < j.read_idx
    → j.checked_idx < c
    → c ≤ j.read_idx
    → Returns (Reads j) (do
      once ← store j.read_buf a 0
      twice ← store once (a + 1) 0
      ret (line_ok, record j { read_buf = twice; checked_idx = c }))
cut_runs j a c v hs hb hc hr = Returns-store (Reads j) j.read_buf a 0 _ (omega arith) (
    Returns-store (Reads j) (set j.read_buf a 0) (a + 1) 0 _
      (omega (arith, length-set {0} j.read_buf a 0)) (cut-LineRead j a (a + 1) c v hs hb hc hr))

line_at_return-LineRead :
    (j : Job) → IsBuffered j → j.checked_idx < j.read_idx → Returns (Reads j) (line_at_return j)
unfolding line_at_return
line_at_return-LineRead j v h =
    Returns-if (Reads j) (j.checked_idx + 1 == j.read_idx) _ _
      (λ e. stays-LineRead j line_open (λ x. cc) v.checked_le)
      λ e.
        let inside : j.checked_idx + 1 < j.read_idx = ground arith in
        Returns-load (Reads j) j.read_buf (j.checked_idx + 1) _ (omega arith) λ c _.
          Returns-if (Reads j) (c == b'\n') _ _
            (λ f. cut_runs j j.checked_idx _ v (omega arith) inside (omega arith) (omega arith))
            λ f. stays-LineRead j line_bad (λ x. cc) v.checked_le

line_at_newline-LineRead :
    (j : Job) → IsBuffered j → j.checked_idx < j.read_idx → Returns (Reads j) (line_at_newline j)
unfolding line_at_newline
line_at_newline-LineRead j v h =
    Returns-if (Reads j) (ltb 1 j.checked_idx) _ _
      (λ e.
        let back : j.checked_idx - 1 + 1 ≡ j.checked_idx = ground arith in
        Returns-load (Reads j) j.read_buf (j.checked_idx - 1) _ (omega arith) λ c _.
          Returns-if (Reads j) (c == b'\r') _ _
            (λ f. rw back at (
              cut_runs j (j.checked_idx - 1) (j.checked_idx + 1) v (omega arith) (omega arith)
                (omega arith) (omega arith)))
            λ f. stays-LineRead j line_bad (λ x. cc) v.checked_le)
      λ e. stays-LineRead j line_bad (λ x. cc) v.checked_le

-- A round of the loop that goes on, and what the later rounds do.
skip-LineRead :
    (j : Job) (r : LineStatus × Job)
    → j.checked_idx < j.read_idx
    → Reads (record j { checked_idx = j.checked_idx + 1 }) r
    → Reads j r
skip-LineRead j (s, k) h w = record {
  frame = w.frame;
  size = w.size;
  checked_le = w.checked_le;
  checked_ge = omega (arith, w.checked_ge);
  advances = λ e. omega (arith, w.advances e);
  line_ends = w.line_ends;
  keeps_nul = w.keeps_nul;
  unchanged = w.unchanged;
}

scan_line-LineRead :
    (rounds : ℕ) (j : Job)
    → IsBuffered j
    → j.checked_idx + rounds ≤ j.read_idx
    → Returns (Reads j) (scan_line rounds j)
unfolding scan_line
scan_line-LineRead zero j v h = stays-LineRead j line_open (λ x. cc) v.checked_le
scan_line-LineRead (suc rounds) j v h =
    Returns-load (Reads j) j.read_buf j.checked_idx _ (omega arith) λ c _.
      Returns-if (Reads j) (c == b'\r') _ _ (λ _. line_at_return-LineRead j v (omega arith))
        λ _.
          Returns-if (Reads j) (c == b'\n') _ _ (λ _. line_at_newline-LineRead j v (omega arith))
            λ _.
              Returns-map _ _ (scan_line rounds (record j { checked_idx = j.checked_idx + 1 }))
                (λ r w. skip-LineRead j r (omega arith) w)
                (scan_line-LineRead rounds (record j { checked_idx = j.checked_idx + 1 })
                  (record {
                    size = v.size;
                    read_le = v.read_le;
                    checked_le = omega arith;
                    start_le = omega arith;
                  })
                  (omega arith))

-- On a connection in a well-formed state `parse_line` makes no access outside the buffer and ends;
-- its result is as `LineRead` says.
pub parse_line-LineRead : (j : Job) → IsBuffered j → Returns (Reads j) (parse_line j)
unfolding parse_line
parse_line-LineRead j v = scan_line-LineRead (j.read_idx - j.checked_idx) j v (omega arith)
