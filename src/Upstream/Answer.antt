-- ===== src/Upstream/Answer.antt =====
-- The headers that are taken over from the answer.
use mathlib.Core.List.{append_assoc, append-nil}
use vs_http_server.Prelude.{
  Returns-if, ℕ, suc, ◌+◌, ◌≤◌, ◌≡◌, refl, ap, sym, ◌∙◌, Bool, true, false, Option, none, some,
  List, [], ◌∷◌, ◌++◌, arith, length, drop, if◌then◌else◌, Bool-cases, inl, inr, ◌⊎◌, ret, ◌>>=◌,
  Returns, Returns->>=, Returns-map, length-append,
}
use vs_http_server.CString.{Bytes, codes}
use vs_http_server.Upstream.{
  hash_of, Line, Header, allocated, constant, HeadersIn, Nginx, Rc, ok, again, failed,
  invalid_header, Parsed, header_done, need_more, bad_line, fill_block, block_size, add_header,
  call_handler, take_line, add_missing, finish_headers, process_header,
}
use vs_http_server.Upstream.Block.{body, letters, fill_block-body}

-- What the code relies on of nginx: a block has the size that is asked for, small letters are as many,
-- and a handler leaves the list of the headers.
pub record IsNginx (g : Nginx) : Type 0 where
  pub memory : (n size : ℕ) (mem : Bytes) → g.pnalloc n size ≡ some mem → length mem ≡ size
  pub letters : (xs : Bytes) → length (g.strlow xs) ≡ length xs
  pub keeps :
      (hash : ℕ) (low : Bytes) (handler : Header → HeadersIn → Option HeadersIn) (h : Header)
      (u v : HeadersIn)
      → g.find hash low ≡ some handler
      → handler h u ≡ some v
      → v.headers ≡ u.headers

-- The parser has a place in its buffer for each small letter that it counts.
abbrev pub AllFit : List Line → Type 0
AllFit [] = Unit
AllFit (l ∷ ls) = (l.lowcase_index ≤ length l.lowcase_header) × AllFit ls

-- The header that is taken over from a line: its hash, the lengths of its name and its value, and a
-- block that begins with the two.
abbrev pub Takes : Line → Header → Type 0
Takes l h =
    (r : ℕ) × (rest : Bytes) × (h
      ≡ allocated l.hash (length l.name) (length l.value) (some (body l.name l.value r ++ rest)))

abbrev pub AllTaken : List Line → List Header → Type 0
AllTaken [] [] = Unit
AllTaken (l ∷ ls) (h ∷ hs) = Takes l h × AllTaken ls hs
AllTaken _ _ = ⊥

-- There is something that fails: a place in the list of headers, memory, or a handler of a header.
abbrev pub Refuses : Nginx → Type 0
Refuses g =
    ((n : ℕ) × (g.push n ≡ false))
    ⊎ ((n : ℕ) × (size : ℕ) × (g.pnalloc n size ≡ none))
    ⊎ ((hash : ℕ) × (low : Bytes) × (handler : Header → HeadersIn → Option HeadersIn) × (h : Header)
        × (u : HeadersIn) × (g.find hash low ≡ some handler)
        × (handler h u ≡ none))

-- The headers are those before and one more, or the call has failed.
abbrev Grows : Nginx → Line → HeadersIn → Bool × HeadersIn → Type 0
Grows g l u r =
    (r.0 ≡ false) × Refuses g
    ⊎ (r.0 ≡ true) × ((h : Header) × Takes l h × (r.1.headers ≡ u.headers ++ (h ∷ [])))

call_handler-keeps :
    (g : Nginx) (l : Line) (block : Bytes) (u : HeadersIn)
    → IsNginx g
    → let r = call_handler g l block u in
      (r.0 ≡ false) × Refuses g ⊎ (r.0 ≡ true) × (r.1.headers ≡ u.headers)
unfolding call_handler
call_handler-keeps g l block u v = by_handler (g.find l.hash low) refl
  where
    low : Bytes
    low = drop (suc (length l.name) + suc (length l.value)) block

    h : Header
    h = allocated l.hash (length l.name) (length l.value) (some block)

    by_answer :
        (handler : Header → HeadersIn → Option HeadersIn) (w : Option HeadersIn)
        → g.find l.hash low ≡ some handler
        → handler h u ≡ w
        → let r : Bool × HeadersIn = elim w [ none ↦ (false, u) | some x ↦ (true, x) ] in
          (r.0 ≡ false) × Refuses g ⊎ (r.0 ≡ true) × (r.1.headers ≡ u.headers)
    by_answer handler none e a = inl (refl, inr (inr (l.hash, low, handler, h, u, e, a)))
    by_answer handler (some x) e a = inr (refl, v.keeps l.hash low handler h u x e a)

    by_handler :
        (o : Option (Header → HeadersIn → Option HeadersIn))
        → g.find l.hash low ≡ o
        → let r : Bool × HeadersIn = elim o [
          | none ↦ (true, u)
          | some handler ↦ elim (handler h u) [ none ↦ (false, u) | some x ↦ (true, x) ]
        ] in
          (r.0 ≡ false) × Refuses g ⊎ (r.0 ≡ true) × (r.1.headers ≡ u.headers)
    by_handler none e = inr (refl, refl)
    by_handler (some handler) e = by_answer handler (handler h u) e refl

take_line-Grows :
    (g : Nginx) (l : Line) (u : HeadersIn)
    → IsNginx g
    → l.lowcase_index ≤ length l.lowcase_header
    → Returns (Grows g l u) (take_line g l u)
unfolding take_line
take_line-Grows g l u v fit =
    Returns-if (Grows g l u) (g.push (length u.headers)) _ _
      (λ e. by_memory (g.pnalloc (length u.headers) (block_size l)) refl)
      λ e. inl (refl, inl (length u.headers, e))
  where
    header : Bytes → Header
    header block = allocated l.hash (length l.name) (length l.value) (some block)

    by_memory :
        (m : Option Bytes)
        → g.pnalloc (length u.headers) (block_size l) ≡ m
        → Returns (Grows g l u) (elim m [
          | none ↦
              ret (false, add_header (allocated l.hash (length l.name) (length l.value) none) u)
          | some mem ↦ do
            block ← fill_block g l mem
            ret (
                call_handler g l block
                  (add_header (allocated l.hash (length l.name) (length l.value) (some block)) u))
        ])
    by_memory none e = inl (refl, inr (inl (length u.headers, block_size l, e)))
    by_memory (some mem) e =
        let (r, done) =
          fill_block-body g l mem (v.memory (length u.headers) (block_size l) mem e) v.letters
            fit in
        Returns->>= (λ b. b ≡ body l.name l.value r ++ letters g l r) _ (fill_block g l mem) _ done
          λ b _ filled. elim (call_handler-keeps g l b (add_header (header b) u) v) [
            | inl stops ↦ inl stops
            | inr (goes, same) ↦ inr (goes, (header b, (r, letters g l r, ap header filled), same))
          ]

-- The code that the last answer of the parser stands for.
abbrev pub code_of : Parsed → Rc
code_of header_done = ok
code_of need_more = again
code_of bad_line = invalid_header

-- What a call leaves that does not fail: its code is that of the last answer of the parser, and the list
-- has the headers before, those of the lines in their order, and at most two more.
pub record Taken (lines : List Line) (last : Parsed) (u : HeadersIn) (r : Rc × HeadersIn)
    : Type 0 where
  pub code : r.0 ≡ code_of last
  pub taken : List Header
  pub each : AllTaken lines taken
  pub more : List Header
  pub few : length more ≤ 2
  pub list : r.1.headers ≡ u.headers ++ (taken ++ more)

-- There is at most one header more, or the call has failed.
abbrev Adds : Nginx → HeadersIn → Bool × HeadersIn → Type 0
Adds g u r =
    (r.0 ≡ false) × Refuses g
    ⊎ (r.0 ≡ true) × ((more : List Header) × (length more ≤ 1) × (r.1.headers ≡ u.headers ++ more))

add_missing-Adds :
    (g : Nginx) (there : Bool) (first : ℕ) (rest key low : Bytes) (u : HeadersIn)
    → Adds g u (add_missing g there first rest key low u)
unfolding add_missing
add_missing-Adds g true first rest key low u =
    inr (refl, ([], omega arith, sym (append-nil u.headers)))
add_missing-Adds g false first rest key low u = elim (Bool-cases (g.push (length u.headers))) [
  | inl e ↦ rw e (inr (refl, (constant (hash_of g first rest) key low ∷ [], omega arith, refl)))
  | inr e ↦ rw e (inl (refl, inl (length u.headers, e)))
]

abbrev joined : Bool × HeadersIn → Bool × HeadersIn → Rc × HeadersIn
joined (a, v) (b, w) = if a then (if b then (ok, w) else (failed, w)) else (failed, v)

joined-Taken :
    (g : Nginx) (u : HeadersIn) (r s : Bool × HeadersIn)
    → Adds g u r
    → Adds g r.1 s
    → ((joined r s).0 ≡ failed) × Refuses g ⊎ Taken [] header_done u (joined r s)
joined-Taken g u (false, v) s (inl x) y = inl (refl, x.1)
joined-Taken g u (false, v) s (inr x) y = absurd (cc (x.0))
joined-Taken g u (true, v) (false, w) x (inl y) = inl (refl, y.1)
joined-Taken g u (true, v) (false, w) x (inr y) = absurd (cc (y.0))
joined-Taken g u (true, v) (true, w) (inl x) y = absurd (cc (x.0))
joined-Taken g u (true, v) (true, w) (inr x) (inl y) = absurd (cc (y.0))
joined-Taken g u (true, v) (true, w) (inr (_, (m, few, e))) (inr (_, (n, fewer, d))) = inr (record {
  code = refl;
  taken = [];
  each = tt;
  more = m ++ n;
  few = omega (arith, length-append {0} m n);
  list = d ∙ ap (λ x. x ++ n) e ∙ append_assoc u.headers m n;
})

finish_headers-Taken :
    (g : Nginx) (u : HeadersIn)
    → ((finish_headers g u).0 ≡ failed) × Refuses g ⊎ Taken [] header_done u (finish_headers g u)
unfolding finish_headers
finish_headers-Taken g u =
    let r = add_missing g u.server 115 (codes "erver") (codes "Server") (codes "server") u in
    joined-Taken g u r (add_missing g r.1.date 100 (codes "ate") (codes "Date") (codes "date") r.1)
      (add_missing-Adds g u.server 115 (codes "erver") (codes "Server") (codes "server") u)
      (add_missing-Adds g r.1.date 100 (codes "ate") (codes "Date") (codes "date") r.1)

-- Behind the lines nothing is taken over.
nothing_more : (last : Parsed) (u : HeadersIn) → Taken [] last u (code_of last, u)
nothing_more last u = record {
  code = refl;
  taken = [];
  each = tt;
  more = [];
  few = omega arith;
  list = sym (append-nil u.headers);
}

pub process_header-Taken :
    (g : Nginx) (lines : List Line) (last : Parsed) (u : HeadersIn)
    → IsNginx g
    → AllFit lines
    → Returns
        (λ r. (r.0 ≡ failed) × Refuses g ⊎ Taken lines last u r)
        (process_header g lines last u)
unfolding process_header
process_header-Taken g [] header_done u v fit = finish_headers-Taken g u
process_header-Taken g [] need_more u v fit = inr (nothing_more need_more u)
process_header-Taken g [] bad_line u v fit = inr (nothing_more bad_line u)
process_header-Taken g (l ∷ ls) last u v (fit, rest) =
    Returns->>= (Grows g l u) _ (take_line g l u) _ (take_line-Grows g l u v fit) λ r _ grows.
      elim grows [
        | inl (stops, why) ↦ rw stops (inl (refl, why))
        | inr (goes, (h, takes, more)) ↦ rw goes (
            Returns-map _ _ (process_header g ls last r.1)
              (λ k t. elim t [
                | inl stops ↦ inl stops
                | inr w ↦ inr (record {
                  code = w.code;
                  taken = h ∷ w.taken;
                  each = (takes, w.each);
                  more = w.more;
                  few = w.few;
                  list =
                      w.list
                      ∙ ap (λ x. x ++ (w.taken ++ w.more)) more
                      ∙ append_assoc u.headers (h ∷ []) (w.taken ++ w.more);
                })
              ])
              (process_header-Taken g ls last r.1 v rest))
      ]
