-- ===== src/Job/Response/Laws.antt =====
-- The response grows at its end and stays a string inside `m_write_buf`.
use mathlib.Core.List.{append_assoc}
use vs_http_server.Prelude.{
  ℕ, zero, suc, ◌+◌, ◌-◌, ◌≤◌, ◌<◌, ◌≡◌, refl, ap, sym, ◌∙◌, arith, Bool, true, false, [], ◌∷◌,
  ◌++◌, length, length-append, length-write_at, write_at, write_at-append, write_at-zero, take,
  drop, ret, Returns, Returns->>=, subst, ℤ, ==_ne, le→leb, gt→leb, ap₂,
}
use vs_http_server.CString.{Bytes}
use vs_http_server.Job.State.{Job, write_buffer_size}
use vs_http_server.Job.Response.{
  store_all, vsnprintf, add_response, content_length_line, add_content_length, linger_line,
  add_linger, crlf, add_blank_line, add_headers,
}

-- `m_write_buf` holds the text, then a NUL, and `m_write_idx` stands at the NUL.
pub record Written (text : Bytes) (j : Job) : Type 0 where
  pub size : length j.write_buf ≡ write_buffer_size
  pub index : j.write_idx ≡ length text
  pub holds : (rest : Bytes) × (j.write_buf ≡ text ++ 0 ∷ rest)

-- What the call changes.
abbrev pub Appends : Bytes → Bytes → Job → Bool × Job → Type 0
Appends text more j r =
    (r.0 ≡ true)
    × Written (text ++ more) r.1
    × (r.1 ≡ record j { write_buf = r.1.write_buf; write_idx = r.1.write_idx })

take-all : (n : ℕ) (xs : Bytes) → length xs ≤ n → take n xs ≡ xs
take-all zero [] h = refl
take-all zero (x ∷ xs) h = elim h [ ]
take-all (suc n) [] h = refl
take-all (suc n) (x ∷ xs) h = ap (◌∷◌ x) (take-all n xs (omega arith))

vsnprintf_fits :
    (buf : Bytes) (i size : ℕ) (text : Bytes)
    → length text < size
    → i + size ≤ length buf
    → vsnprintf buf i size text ≡ ret (write_at buf i (text ++ 0 ∷ []))
unfolding vsnprintf store_all
vsnprintf_fits buf i size text h room = rw (
  ==_ne size 0 (omega arith),
  take-all (size - 1) text (omega arith),
  le→leb (i + length (text ++ 0 ∷ [])) (length buf)
      (omega (arith, length-append {0} text (0 ∷ []))),
)

-- The buffer behind an append.
appended :
    (text more rest : Bytes)
    → length more ≤ length rest
    → write_at (text ++ 0 ∷ rest) (length text) (more ++ 0 ∷ [])
      ≡ (text ++ more) ++ 0 ∷ drop (length more) rest
appended text more rest h =
    write_at-append text (0 ∷ rest) (more ++ 0 ∷ [])
    ∙ ap (◌++◌ text) (
        write_at-zero (0 ∷ rest) (more ++ 0 ∷ []) (omega (arith, length-append {0} more (0 ∷ [])))
        ∙ append_assoc more (0 ∷ []) (drop (length (more ++ 0 ∷ [])) (0 ∷ rest))
        ∙ ap (λ n. more ++ 0 ∷ drop n (0 ∷ rest))
            (let e : length (more ++ 0 ∷ []) ≡ suc (length more) =
                omega (arith, length-append {0} more (0 ∷ [])) in
              e))
    ∙ sym (append_assoc text more (0 ∷ drop (length more) rest))

-- Where the buffer holds a text, one that fits behind it in WRITE_BUFFER_SIZE - 2 bytes is appended,
-- with a NUL behind it, and the rest of the state stays.
pub add_response-Appends :
    (text more : Bytes) (j : Job)
    → Written text j
    → length text + length more < write_buffer_size - 1
    → Returns (Appends text more j) (add_response more j)
unfolding add_response
add_response-Appends text more j w fits =
    let (rest, e) = w.holds in
    let room : length more ≤ length rest =
      omega (arith, ap length e, length-append {0} text (0 ∷ rest), w.size) in
    rw
      (
        gt→leb write_buffer_size j.write_idx (omega (arith, w.index)),
        vsnprintf_fits j.write_buf j.write_idx (write_buffer_size - 1 - j.write_idx) more
            (omega (arith, w.index)) (omega (arith, w.index, w.size)),
        gt→leb (write_buffer_size - 1 - j.write_idx) (length more) (omega (arith, w.index)),
      )
      (
        refl,
        record {
          size = length-write_at j.write_buf j.write_idx (more ++ 0 ∷ []) ∙ w.size;
          index = omega (arith, w.index, length-append {0} text more);
          holds = (
            drop (length more) rest,
            ap₂ (λ buf n. write_at buf n (more ++ 0 ∷ [])) e w.index ∙ appended text more rest room,
          );
        },
        refl,
      )

pub length-linger_line : (b : Bool) → length (linger_line b) ≤ 24
length-linger_line true = omega arith
length-linger_line false = omega arith

-- `k` is `j` but for the response.
abbrev pub Responds : Job → Job → Type 0
Responds j k = k ≡ record j { write_buf = k.write_buf; write_idx = k.write_idx }

pub Responds-trans : (j k l : Job) → Responds j k → Responds k l → Responds j l
Responds-trans j k l e f =
    f ∙ ap (λ (m : Job). record m { write_buf = l.write_buf; write_idx = l.write_idx }) e

-- The text of the three headers, in order.
abbrev pub headers_text : ℤ → Bool → Bytes
headers_text n linger = content_length_line n ++ (linger_line linger ++ crlf)

-- Where the buffer holds a text, and the three lines fit behind it, the call appends the length of
-- the body, whether the connection stays open, and the blank line, in this order.
pub add_headers-Written :
    (text : Bytes) (n : ℤ) (j : Job)
    → Written text j
    → length text + length (content_length_line n) + 26 < write_buffer_size - 1
    → Returns (λ k. Written (text ++ headers_text n j.linger) k × Responds j k) (add_headers n j)
unfolding add_headers add_content_length add_linger add_blank_line
add_headers-Written text n j w fits =
    let first = content_length_line n in
    Returns->>= (Appends text first j) _ (add_response first j) _
      (add_response-Appends text first j w (omega arith))
      λ r _ a.
        let line = linger_line r.1.linger in
        let same : line ≡ linger_line j.linger = ap (λ (k : Job). linger_line k.linger) a.2 in
        Returns->>= (Appends (text ++ first) line r.1) _ (add_response line r.1) _
          (add_response-Appends (text ++ first) line r.1 a.1
            (omega (arith, length-append {0} text first, length-linger_line r.1.linger)))
          λ s _ b.
            Returns->>= (Appends ((text ++ first) ++ line) crlf s.1) _ (add_response crlf s.1) _
              (add_response-Appends ((text ++ first) ++ line) crlf s.1 b.1 (
                omega (
                  arith,
                  length-append {0} text first,
                  length-append {0} (text ++ first) line,
                  length-linger_line r.1.linger,
                )))
              λ t _ c. (
                subst (λ whole. Written whole t.1)
                    (append_assoc (text ++ first) line crlf
                      ∙ append_assoc text first (line ++ crlf)
                      ∙ ap (λ more. text ++ (first ++ (more ++ crlf))) same)
                    c.1,
                Responds-trans j s.1 t.1 (Responds-trans j r.1 s.1 a.2 b.2) c.2,
              )
