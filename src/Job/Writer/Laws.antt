-- ===== src/Job/Writer/Laws.antt =====
-- The responses as texts, and what reaches the client.
use mathlib.Core.List.{append_assoc}
use vs_http_server.Prelude.{
  ℕ, ◌+◌, ◌≤◌, ◌≡◌, ◌≢◌, refl, none, some, Option, or_fault, ret, ap, sym, subst, subst₂,
  Returns-if, ◌∙◌, arith, Bool, true, false, not, [], ◌∷◌, ◌++◌, ◌==◌, length, length-append,
  Returns, Returns->>=, Returns-map, Returns-assoc, ◌>>=◌, ℤ, pos,
}
use vs_http_server.CString.{Bytes, decimal, to_int}
use vs_http_server.CString.Decimal.{length-decimal}
use vs_http_server.Job.State.{
  Job, HttpCode, internal_error, bad_request, no_resource, forbidden_request, file_request,
}
use vs_http_server.Job.Response.{
  status_line, content_length_line, linger_line, crlf, add_response, add_status_line, add_headers,
  add_content,
}
use vs_http_server.Job.Response.Laws.{
  Written, Appends, add_response-Appends, Responds, Responds-trans, length-linger_line,
  headers_text, add_headers-Written,
}
use vs_http_server.Job.Writer.{
  ok_200_title, error_400_title, error_400_form, error_403_title, error_403_form, error_404_title,
  error_404_form, error_500_title, error_500_form, ok_string, error_page, file_page, process_write,
}

-- A response with a body of its own.
abbrev pub page_text : ℕ → Bytes → Bytes → Bool → Bytes
page_text status title form linger =
    status_line status title ++ (headers_text (pos (length form)) linger ++ form)

length-content_length_line : (n : ℤ) → length (content_length_line n) ≤ 29
length-content_length_line n = omega (arith, length-append {0} (decimal n) crlf, length-decimal n)

length-status_line :
    (status : ℕ) (title : Bytes) → length (status_line status title) ≤ 23 + length title
length-status_line status title = omega (
  arith,
  length-append {0} (decimal (pos status)) (b' ' ∷ (title ++ crlf)),
  length-append {0} title crlf,
  length-decimal (pos status),
)

length-headers_text : (n : ℤ) (linger : Bool) → length (headers_text n linger) ≤ 55
length-headers_text n linger = omega (
  arith,
  length-append {0} (content_length_line n) (linger_line linger ++ crlf),
  length-append {0} (linger_line linger) crlf,
  length-content_length_line n,
  length-linger_line linger,
)

-- The status line and the headers.
module _ (status : ℕ) (title : Bytes) (n : ℤ) where
  abbrev pub head_text : Bool → Bytes
  head_text linger = status_line status title ++ headers_text n linger

  head-Written :
      (j : Job)
      → Written [] j
      → length title ≤ 20
      → Returns
          (λ k. Written (head_text j.linger) k × Responds j k)
          (do r ← add_status_line status title j; add_headers n r.1)
  unfolding add_status_line
  head-Written j w ht =
      let line = status_line status title in
      Returns->>= (Appends [] line j) _ (add_response line j) _
        (add_response-Appends [] line j w (omega (arith, length-status_line status title)))
        λ r _ a.
          Returns-map (λ k. Written (line ++ headers_text n r.1.linger) k × Responds r.1 k) _
            (add_headers n r.1)
            (λ k b. (
              subst (λ linger. Written (head_text linger) k) (ap (λ (l : Job). l.linger) a.2) b.0,
              Responds-trans j r.1 k a.2 b.1,
            ))
            (add_headers-Written line n r.1 a.1
              (omega (arith, length-status_line status title, length-content_length_line n)))

error_page-Written :
    (status : ℕ) (title form : Bytes) (j : Job)
    → Written [] j
    → length title ≤ 20
    → length form ≤ 100
    → Returns
        (λ r. (r.0 ≡ true) × Written (page_text status title form j.linger) r.1 × Responds j r.1)
        (error_page status title form j)
unfolding error_page add_content
error_page-Written status title form j w ht hf =
    let n = pos (length form) in
    let head = head_text status title n j.linger in
    Returns-assoc _ (add_status_line status title j) (λ r. add_headers n r.1)
      (λ l. add_response form l)
      (Returns->>= (λ k. Written head k × Responds j k) _
        (add_status_line status title j >>= λ r. add_headers n r.1) _
        (head-Written status title n j w ht)
        λ k _ a.
          Returns-map (Appends head form k) _ (add_response form k)
            (λ r b. (
              b.0,
              subst (λ text. Written text r.1)
                  (append_assoc (status_line status title) (headers_text n j.linger) form) b.1,
              Responds-trans j k r.1 a.1 b.2,
            ))
            (add_response-Appends head form k a.0 (
              omega (
                arith,
                length-append {0} (status_line status title) (headers_text n j.linger),
                length-status_line status title,
                length-headers_text n j.linger,
              ))))

-- What `process_write` leaves for each code.
abbrev pub Response : HttpCode → Job → Bool × Job → Type 0
Response internal_error j r =
    (r.0 ≡ true)
    × Written (page_text 500 error_500_title error_500_form j.linger) r.1
    × Responds j r.1
Response bad_request j r =
    (r.0 ≡ true)
    × Written (page_text 400 error_400_title error_400_form j.linger) r.1
    × Responds j r.1
Response no_resource j r =
    (r.0 ≡ true)
    × Written (page_text 404 error_404_title error_404_form j.linger) r.1
    × Responds j r.1
Response forbidden_request j r =
    (r.0 ≡ true)
    × Written (page_text 403 error_403_title error_403_form j.linger) r.1
    × Responds j r.1
Response file_request j r =
    (r.0 ≡ not (j.file_stat.st_size == 0))
    × (j.file_stat.st_size ≢ 0
        → Written (head_text 200 ok_200_title (to_int (pos j.file_stat.st_size)) j.linger) r.1)
    × (j.file_stat.st_size ≡ 0 → Written (page_text 200 ok_200_title ok_string j.linger) r.1)
    × Responds j r.1
Response code j r = (r.0 ≡ false) × (r.1 ≡ j)

-- The value of `m_iv_count` is read for a file that is not empty.
abbrev pub HasCount : Job → Type 0
HasCount j = j.file_stat.st_size ≢ 0 → j.iv_count ≢ none

or_fault-some : (o : Option ℤ) → o ≢ none → (n : ℤ) × (or_fault o ≡ ret n)
or_fault-some none h = absurd (h refl)
or_fault-some (some n) h = (n, refl)

-- The head of the page of a file.
full_file :
    (j : Job) (line : Bytes)
    → length line ≤ 100
    → j.file_stat.st_size ≢ 0
    → j.iv_count ≢ none
    → Written line j
    → let n = to_int (pos j.file_stat.st_size) in
      Returns
        (λ (r : Bool × Job).
          (r.0 ≡ true) × Written (line ++ headers_text n j.linger) r.1 × Responds j r.1)
        (do l ← add_headers n j; _ ← or_fault l.iv_count; ret (true, l))
full_file j line short size counted w =
    let n = to_int (pos j.file_stat.st_size) in
    Returns->>= (λ k. Written (line ++ headers_text n j.linger) k × Responds j k)
      (λ (r : Bool × Job).
        (r.0 ≡ true) × Written (line ++ headers_text n j.linger) r.1 × Responds j r.1)
      (add_headers n j) _
      (add_headers-Written line n j w (omega (arith, length-content_length_line n)))
      λ k _ b.
        let (c, e) =
          or_fault-some k.iv_count (λ z. counted (ap (λ (l : Job). l.iv_count) (sym b.1) ∙ z)) in
        rw e (refl, b.0, b.1)

-- The page of an empty file.
empty_file :
    (j : Job) (line : Bytes)
    → length line ≤ 100
    → Written line j
    → Returns
        (λ (r : Bool × Job).
          (r.0 ≡ false)
          × Written (line ++ (headers_text (pos (length ok_string)) j.linger ++ ok_string)) r.1
          × Responds j r.1)
        (do
          l ← add_headers (pos (length ok_string)) j
          s ← add_content ok_string l
          ret (false, s.1))
unfolding add_content
empty_file j line short w =
    let n = pos (length ok_string) in
    let head = line ++ headers_text n j.linger in
    let text = line ++ (headers_text n j.linger ++ ok_string) in
    Returns->>= (λ k. Written head k × Responds j k)
      (λ (r : Bool × Job). (r.0 ≡ false) × Written text r.1 × Responds j r.1) (add_headers n j) _
      (add_headers-Written line n j w (omega (arith, length-content_length_line n)))
      λ k _ b.
        Returns->>= (Appends head ok_string k)
          (λ (r : Bool × Job). (r.0 ≡ false) × Written text r.1 × Responds j r.1)
          (add_response ok_string k) _
          (add_response-Appends head ok_string k b.0 (
            omega (
              arith,
              length-append {0} line (headers_text n j.linger),
              length-headers_text n j.linger,
            )))
          λ t _ c. (
            refl,
            subst (λ x. Written x t.1) (append_assoc line (headers_text n j.linger) ok_string) c.1,
            Responds-trans j k t.1 b.1 c.2,
          )

file_page-Response :
    (j : Job) → Written [] j → HasCount j → Returns (Response file_request j) (file_page j)
unfolding file_page add_status_line
file_page-Response j w counted =
    let line = status_line 200 ok_200_title in
    let short : length line ≤ 100 = omega (arith, length-status_line 200 ok_200_title) in
    Returns->>= (Appends [] line j) (Response file_request j) (add_response line j) _
      (add_response-Appends [] line j w (omega (arith, length-status_line 200 ok_200_title)))
      λ r _ a.
        let k = r.1 in
        let stat : k.file_stat.st_size ≡ j.file_stat.st_size =
          ap (λ (l : Job). l.file_stat.st_size) a.2 in
        let linger : k.linger ≡ j.linger = ap (λ (l : Job). l.linger) a.2 in
        Returns-if (Response file_request j) (not (k.file_stat.st_size == 0)) _ _
          (λ e.
            let size : k.file_stat.st_size ≢ 0 = λ z. ground (arith, e) in
            let count : k.iv_count ≢ none =
              λ z. counted (λ y. size (stat ∙ y)) (ap (λ (l : Job). l.iv_count) (sym a.2) ∙ z) in
            Returns-map _ (Response file_request j) _
              (λ t b. (
                b.0 ∙ sym e ∙ ap (λ n. not (n == 0)) stat,
                λ _.
                    subst₂ (λ n l. Written (line ++ headers_text (to_int (pos n)) l) t.1) stat
                      linger b.1,
                λ z. absurd (size (stat ∙ z)),
                Responds-trans j k t.1 a.2 b.2,
              ))
              (full_file k line short size count a.1))
          λ e.
            Returns-map _ (Response file_request j) _
              (λ t b. (
                b.0 ∙ sym e ∙ ap (λ n. not (n == 0)) stat,
                λ ne. absurd (ne (sym stat ∙ ground (arith, e))),
                λ _. subst (λ l. Written (page_text 200 ok_200_title ok_string l) t.1) linger b.1,
                Responds-trans j k t.1 a.2 b.2,
              ))
              (empty_file k line short a.1)

-- On an empty response buffer every call returns, where for a file that is not empty `m_iv_count` has
-- a value in memory. Each error code gives its page, with the length of its body and the header for
-- `m_linger`, and `true`; a file that is not empty gives the head of its page, whatever `m_request` is, and
-- `true`; an empty file gives a whole page with an empty body of HTML, and `false`; every other code gives
-- `false`, and nothing is written.
pub process_write-Response :
    (code : HttpCode) (j : Job)
    → Written [] j
    → (code ≡ file_request → HasCount j)
    → Returns (Response code j) (process_write code j)
unfolding process_write
process_write-Response internal_error j w c =
    error_page-Written 500 error_500_title error_500_form j w (omega arith) (omega arith)
process_write-Response bad_request j w c =
    error_page-Written 400 error_400_title error_400_form j w (omega arith) (omega arith)
process_write-Response no_resource j w c =
    error_page-Written 404 error_404_title error_404_form j w (omega arith) (omega arith)
process_write-Response forbidden_request j w c =
    error_page-Written 403 error_403_title error_403_form j w (omega arith) (omega arith)
process_write-Response file_request j w c = file_page-Response j w (c refl)
process_write-Response _ j w c = (refl, refl)
