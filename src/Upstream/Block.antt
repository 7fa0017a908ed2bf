-- ===== src/Upstream/Block.antt =====
-- The memory of a header.
use mathlib.Core.List.{append_assoc}
use vs_http_server.Prelude.{
  ℕ, suc, ◌+◌, ◌<◌, ◌≤◌, ◌≡◌, refl, ap, sym, ◌∙◌, [], ◌∷◌, ◌++◌, arith, length, take, le→leb, ◌==◌,
  length-append, length-write_at, write_at-append, if◌then◌else◌, write_at, length-take, Returns,
  Returns->>=, Returns-map, Bool-cases, inl, inr, ret, ==_iff,
}
use vs_http_server.CString.{Bytes}
use vs_http_server.Upstream.Writes.{
  split_at, write_over, write_behind, write_front, write_all, take_front, uncons, write_nul,
  take_cut, length-parts,
}
use vs_http_server.Upstream.{Line, Nginx, store_at, small_letters, fill_block, block_size}

-- What stands in the block before the name in small letters: the name, a NUL, the value, and a byte
-- that is never set; then a NUL is stored at the length of the value.
abbrev pub body : Bytes → Bytes → ℕ → Bytes
body name value r = write_at (name ++ (0 ∷ (value ++ (r ∷ [])))) (length value) (0 ∷ [])

store_at-fits :
    (mem : Bytes) (i : ℕ) (vs : Bytes)
    → i + length vs ≤ length mem
    → store_at mem i vs ≡ ret (write_at mem i vs)
unfolding store_at
store_at-fits mem i vs h = rw (le→leb (i + length vs) (length mem) h) refl

-- The parts of a block of memory of the size that is asked for.
record Parts (n v : ℕ) (mem : Bytes) : Type 0 where
  before : Bytes
  middle : ℕ
  inside : Bytes
  spare : ℕ
  rest : Bytes
  whole : mem ≡ before ++ (middle ∷ (inside ++ (spare ∷ rest)))
  before_size : length before ≡ n
  inside_size : length inside ≡ v
  rest_size : length rest ≡ n

parts : (n v : ℕ) (mem : Bytes) → length mem ≡ suc n + suc v + n → Parts n v mem
parts n v mem size =
    let (before, r1, w1, s1, t1) = split_at n (suc (v + suc n)) mem (omega arith) in
    let (middle, r2, w2, t2) = uncons (v + suc n) r1 t1 in
    let (inside, r3, w3, s3, t3) = split_at v (suc n) r2 t2 in
    let (spare, rest, w4, t4) = uncons n r3 t3 in
    record {
      before = before;
      middle = middle;
      inside = inside;
      spare = spare;
      rest = rest;
      whole = w1 ∙ ap (λ x. before ++ x) (w2 ∙ ap (◌∷◌ middle) (w3 ∙ ap (λ x. inside ++ x) w4));
      before_size = s1;
      inside_size = s3;
      rest_size = t4;
    }

-- The name in small letters: as the parser has it, or of the name as it then stands in the block.
abbrev pub letters : Nginx → Line → ℕ → Bytes
letters g l r =
    if length l.name == l.lowcase_index
    then take (length l.name) l.lowcase_header
    else g.strlow (take (length l.name) (body l.name l.value r))

body_size : (l : Line) (r : ℕ) → length l.name ≤ length (body l.name l.value r)
body_size l r = omega (
  arith,
  length-write_at (l.name ++ (0 ∷ (l.value ++ (r ∷ [])))) (length l.value) (0 ∷ []),
  length-append {0} l.name (0 ∷ (l.value ++ (r ∷ []))),
)

small_letters_lem :
    (g : Nginx) (l : Line) (r : ℕ) (t : Bytes)
    → l.lowcase_index ≤ length l.lowcase_header
    → small_letters g l (body l.name l.value r ++ t) ≡ ret (letters g l r)
unfolding small_letters
small_letters_lem g l r t h = elim (Bool-cases (length l.name == l.lowcase_index)) [
  | inl e ↦
      rw
        (
          e,
          le→leb (length l.name) (length l.lowcase_header)
              (omega (arith, (==_iff (length l.name) l.lowcase_index).0 e)),
        )
        refl
  | inr e ↦ rw e (
      ap (λ x. ret (g.strlow x))
        (take_front (length l.name) (body l.name l.value r) t (body_size l r)))
]

length-letters :
    (g : Nginx) (l : Line) (r : ℕ)
    → ((xs : Bytes) → length (g.strlow xs) ≡ length xs)
    → l.lowcase_index ≤ length l.lowcase_header
    → length (letters g l r) ≡ length l.name
length-letters g l r same h = elim (Bool-cases (length l.name == l.lowcase_index)) [
  | inl e ↦ rw e (
      length-take (length l.name) l.lowcase_header
      ∙ ground (arith, (==_iff (length l.name) l.lowcase_index).0 e))
  | inr e ↦ rw e (
      same (take (length l.name) (body l.name l.value r))
      ∙ length-take (length l.name) (body l.name l.value r)
      ∙ ground (arith, body_size l r))
]

store_at-Returns :
    (mem m : Bytes) (i : ℕ) (vs w : Bytes)
    → mem ≡ m
    → i + length vs ≤ length m
    → write_at m i vs ≡ w
    → Returns (λ x. x ≡ w) (store_at mem i vs)
store_at-Returns mem m i vs w e fits done = rw (e, store_at-fits m i vs fits) done

-- On memory of the size that is asked for, all copies stay in it. It then holds `body`, with some byte
-- behind the value, and the name in small letters.
pub fill_block-body :
    (g : Nginx) (l : Line) (mem : Bytes)
    → length mem ≡ block_size l
    → ((xs : Bytes) → length (g.strlow xs) ≡ length xs)
    → l.lowcase_index ≤ length l.lowcase_header
    → (r : ℕ) × Returns (λ b. b ≡ body l.name l.value r ++ letters g l r) (fill_block g l mem)
unfolding fill_block
fill_block-body g l mem size same h =
    let p = parts (length l.name) (length l.value) mem size in
    let r = p.spare in
    let t = p.rest in
    let tail : Bytes = p.inside ++ (r ∷ t) in
    let plain : Bytes = l.name ++ (0 ∷ (l.value ++ (r ∷ []))) in
    let cut = body l.name l.value r in
    let low = letters g l r in
    let n = p.before_size in
    let v = p.inside_size in
    let k = p.rest_size in
    let whole = length-append {0} l.name (0 ∷ (l.value ++ (r ∷ []))) in
    let inner = length-append {0} l.value (r ∷ []) in
    let kept = length-write_at plain (length l.value) (0 ∷ []) in
    let assoc : l.name ++ (0 ∷ (l.value ++ (r ∷ t))) ≡ plain ++ t =
      ap (λ x. l.name ++ (0 ∷ x)) (sym (append_assoc l.value (r ∷ []) t))
      ∙ sym (append_assoc l.name (0 ∷ (l.value ++ (r ∷ []))) t) in
    (
      r,
      Returns->>= (λ x. x ≡ l.name ++ (p.middle ∷ tail)) _ (store_at mem 0 l.name) _
          (store_at-Returns mem (p.before ++ (p.middle ∷ tail)) 0 l.name _ p.whole
            (omega (arith, length-parts p.before p.middle p.inside r t, n))
            (write_over p.before (p.middle ∷ tail) l.name (omega (arith, n))))
          λ a _ ea.
            Returns->>= (λ x. x ≡ l.name ++ (0 ∷ tail)) _ (store_at a (length l.name) (0 ∷ [])) _
              (store_at-Returns a (l.name ++ (p.middle ∷ tail)) (length l.name) (0 ∷ []) _ ea
                (omega (arith, length-parts l.name p.middle p.inside r t))
                (write_nul l.name p.middle tail))
              λ b _ eb.
                Returns->>= (λ x. x ≡ plain ++ t) _ (store_at b (suc (length l.name)) l.value) _
                  (store_at-Returns b (l.name ++ (0 ∷ tail)) (suc (length l.name)) l.value _ eb
                    (omega (arith, length-parts l.name 0 p.inside r t, v))
                    (write_behind l.name 0 tail l.value
                      ∙ ap (λ x. l.name ++ (0 ∷ x))
                          (write_over p.inside (r ∷ t) l.value (omega (arith, v)))
                      ∙ assoc))
                  λ c _ ec.
                    Returns->>= (λ x. x ≡ cut ++ t) _ (store_at c (length l.value) (0 ∷ [])) _
                      (store_at-Returns c (plain ++ t) (length l.value) (0 ∷ []) _ ec
                        (omega (arith, length-append {0} plain t, whole, inner))
                        (write_front plain t (length l.value) 0 (omega (arith, whole, inner))))
                      λ d _ ed.
                        Returns->>= (λ x. x ≡ low) _ (small_letters g l d) _
                          (rw (ed, small_letters_lem g l r t h) refl)
                          λ s _ es.
                            store_at-Returns d (cut ++ t)
                              (suc (length l.name) + suc (length l.value)) s (cut ++ low) ed
                              (omega (
                                arith,
                                ap length es,
                                length-letters g l r same h,
                                length-append {0} cut t,
                                kept,
                                whole,
                                inner,
                                k,
                              ))
                              (ap (λ i. write_at (cut ++ t) i s)
                                  (let e : suc (length l.name) + suc (length l.value) ≡ length cut =
                                      omega (arith, kept, whole, inner) in
                                    e)
                                ∙ write_at-append cut t s
                                ∙ ap (λ x. cut ++ x)
                                    (write_all t s (
                                        omega (arith, ap length es, length-letters g l r same h, k))
                                      ∙ es)),
    )

-- On memory of the size that is asked for, where `ngx_strlow` keeps the number of letters and the
-- parser counts no more small letters than it keeps, the copies stay in the memory, and the name of
-- a header with a shorter value is left with a NUL in it, at the length of the value.
pub fill_block-name :
    (g : Nginx) (l : Line) (mem : Bytes)
    → length mem ≡ block_size l
    → ((xs : Bytes) → length (g.strlow xs) ≡ length xs)
    → l.lowcase_index ≤ length l.lowcase_header
    → length l.value < length l.name
    → Returns
        (λ b. take (length l.name) b ≡ write_at l.name (length l.value) (0 ∷ []))
        (fill_block g l mem)
fill_block-name g l mem size same h shorter =
    let (r, filled) = fill_block-body g l mem size same h in
    Returns-map _ _ (fill_block g l mem)
      (λ b e.
        ap (take (length l.name)) e
        ∙ ap (λ x. take (length l.name) (x ++ letters g l r))
            (write_front l.name (0 ∷ (l.value ++ (r ∷ []))) (length l.value) 0 shorter)
        ∙ take_cut l.name (0 ∷ (l.value ++ (r ∷ []))) (letters g l r) (length l.value) shorter)
      filled
