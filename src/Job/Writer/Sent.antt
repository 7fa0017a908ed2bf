-- ===== src/Job/Writer/Sent.antt =====
-- What `write` hands to the connection behind `process_write`.
use mathlib.Core.List.{append-nil}
use vs_http_server.Prelude.{
  ℕ, ◌≡◌, ◌≢◌, refl, ap, ◌∙◌, Bool, true, false, [], ◌∷◌, ◌++◌, length, if◌then◌else◌, ret, fault,
  Returns-inv, none, ℤ, pos,
}
use vs_http_server.CString.{Bytes, codes, decimal, to_int, string_at}
use vs_http_server.CString.Laws.{has_nul}
use vs_http_server.CString.Copies.{string_at-append, string_at-nul}
use vs_http_server.CString.Decimal.{has_nul-decimal, has_nul-append}
use vs_http_server.Job.State.{
  Job, HttpCode, internal_error, bad_request, no_resource, forbidden_request, file_request, null,
  mapped, init,
}
use vs_http_server.Job.Response.{status_line, content_length_line, linger_line, crlf}
use vs_http_server.Job.Response.Laws.{Written, Responds, headers_text}
use vs_http_server.Job.Writer.{
  ok_200_title, error_400_title, error_400_form, error_403_title, error_403_form, error_404_title,
  error_404_form, error_500_title, error_500_form, process_write, unmap, Sending, before, end_write,
  file_text, write,
}
use vs_http_server.Job.Writer.Laws.{
  page_text, head_text, HasCount, Response, process_write-Response,
}

string_at-Written :
    (text : Bytes) (j : Job)
    → Written text j
    → has_nul text ≡ false
    → string_at j.write_buf ≡ ret text
string_at-Written text j w h =
    let (rest, e) = w.holds in
    ap string_at e
    ∙ string_at-append text (0 ∷ rest) [] h (string_at-nul rest)
    ∙ ap ret (append-nil text)

has_nul-linger_line : (linger : Bool) → has_nul (linger_line linger) ≡ false
has_nul-linger_line true = refl
has_nul-linger_line false = refl

has_nul-headers_text : (n : ℤ) (linger : Bool) → has_nul (headers_text n linger) ≡ false
has_nul-headers_text n linger =
    has_nul-append (content_length_line n) (linger_line linger ++ crlf)
      (has_nul-append (codes "Content-Length: ") (decimal n ++ crlf) refl
        (has_nul-append (decimal n) crlf (has_nul-decimal n) refl))
      (has_nul-append (linger_line linger) crlf (has_nul-linger_line linger) refl)

has_nul-status_line :
    (status : ℕ) (title : Bytes)
    → has_nul title ≡ false
    → has_nul (status_line status title) ≡ false
has_nul-status_line status title h =
    has_nul-append (codes "HTTP/1.1 ") (decimal (pos status) ++ (b' ' ∷ (title ++ crlf))) refl (
      has_nul-append (decimal (pos status)) (b' ' ∷ (title ++ crlf)) (has_nul-decimal (pos status))
        (has_nul-append title crlf h refl))

-- The state behind `write`.
abbrev pub after_write : Job → Job
after_write j = let k = record j { file_address = null } in if j.linger then init k else k

unmap-mapped :
    (bytes : Bytes) (j : Job)
    → j.file_address ≡ mapped bytes
    → unmap j ≡ record j { file_address = null }
unfolding unmap
unmap-mapped bytes j m = rw (m, unmap)

write-mapped :
    (text bytes content : Bytes) (j : Job)
    → string_at j.write_buf ≡ ret text
    → j.file_address ≡ mapped bytes
    → string_at bytes ≡ ret content
    → write j ≡ (text ++ content, ret (j.linger, after_write j))
unfolding write end_write
write-mapped text bytes content j e m c =
    rw (e, ap file_text m, c, unmap-mapped bytes j m, append-nil content) (by_linger j.linger)
  where
    by_linger :
        (b : Bool)
        → ◌≡◌ {A = Sending (Bool × Job)}
            (
              text ++ content,
              ret (
                  if b
                  then (true, init (record j { file_address = null }))
                  else (false, record j { file_address = null })),
            )
            (
              text ++ content,
              ret (
                b,
                if b
                    then init (record j { file_address = null })
                    else record j { file_address = null },
              ),
            )
    by_linger true = refl
    by_linger false = refl

write-null :
    (text : Bytes) (j : Job)
    → string_at j.write_buf ≡ ret text
    → j.file_address ≡ null
    → write j ≡ (text, fault)
unfolding write
write-null text j e m = rw (e, m, append-nil text) refl

-- The page of an error code, with its status.
abbrev pub error_text : HttpCode → Bool → Bytes
error_text internal_error = page_text 500 error_500_title error_500_form
error_text bad_request = page_text 400 error_400_title error_400_form
error_text no_resource = page_text 404 error_404_title error_404_form
error_text _ = page_text 403 error_403_title error_403_form

pub data IsError : HttpCode → Type 0 where
  is_500 : IsError internal_error
  is_400 : IsError bad_request
  is_404 : IsError no_resource
  is_403 : IsError forbidden_request

pub IsError-HasCount : {code : HttpCode} (j : Job) → IsError code → code ≡ file_request → HasCount j
IsError-HasCount j is_500 e = cc
IsError-HasCount j is_400 e = cc
IsError-HasCount j is_404 e = cc
IsError-HasCount j is_403 e = cc

pub Response-error :
    {code : HttpCode} (j : Job) (r : Bool × Job)
    → IsError code
    → Response code j r
    → (r.0 ≡ true) × Written (error_text code j.linger) r.1 × Responds j r.1
Response-error j r is_500 w = w
Response-error j r is_400 w = w
Response-error j r is_404 w = w
Response-error j r is_403 w = w

has_nul-page_text :
    (status : ℕ) (title form : Bytes) (linger : Bool)
    → has_nul title ≡ false
    → has_nul form ≡ false
    → has_nul (page_text status title form linger) ≡ false
has_nul-page_text status title form linger t f =
    has_nul-append (status_line status title) _ (has_nul-status_line status title t) (
      has_nul-append (headers_text (pos (length form)) linger) form (has_nul-headers_text _ linger)
        f)

has_nul-error_text :
    {code : HttpCode} (linger : Bool) → IsError code → has_nul (error_text code linger) ≡ false
has_nul-error_text linger is_500 =
    has_nul-page_text 500 error_500_title error_500_form linger refl refl
has_nul-error_text linger is_400 =
    has_nul-page_text 400 error_400_title error_400_form linger refl refl
has_nul-error_text linger is_404 =
    has_nul-page_text 404 error_404_title error_404_form linger refl refl
has_nul-error_text linger is_403 =
    has_nul-page_text 403 error_403_title error_403_form linger refl refl

-- On an empty response buffer and where no file is mapped, `write` behind `process_write` of an error
-- code hands over the whole page of the code, with its status and body, and then ends in a bad access,
-- the length of the string at NULL.
pub error_page-fault :
    (code : HttpCode) (j : Job)
    → IsError code
    → Written [] j
    → j.file_address ≡ null
    → before (process_write code j) (λ r. write r.1) ≡ (error_text code j.linger, fault)
error_page-fault code j x w m =
    let (r, e, p) =
      Returns-inv (Response code j) (process_write code j)
        (process_write-Response code j w (IsError-HasCount j x)) in
    let (_, text, frame) = Response-error j r x p in
    rw e (
      write-null (error_text code j.linger) r.1
        (string_at-Written _ r.1 text (has_nul-error_text j.linger x))
        (ap (λ (k : Job). k.file_address) frame ∙ m))

-- For a mapped file that is not empty, where `m_iv_count` has a value, `write` behind `process_write`
-- hands over the head of the page with the length of the file, then the bytes of the file up to its first
-- NUL, whether the request was a GET or a HEAD; the mapping is gone, and the result tells whether the
-- connection stays open.
pub file_page-sent :
    (j : Job) (bytes content : Bytes)
    → Written [] j
    → j.file_stat.st_size ≢ 0
    → j.iv_count ≢ none
    → j.file_address ≡ mapped bytes
    → string_at bytes ≡ ret content
    → (k : Job) × (before (process_write file_request j) (λ r. write r.1) ≡ (
      head_text 200 ok_200_title (to_int (pos j.file_stat.st_size)) j.linger ++ content,
      ret (j.linger, k),
    ))
      × (k.file_address ≡ null)
file_page-sent j bytes content w size count m c =
    let (r, e, (_, text, _, frame)) =
      Returns-inv (Response file_request j) (process_write file_request j)
        (process_write-Response file_request j w (λ _ _. count)) in
    let head = head_text 200 ok_200_title (to_int (pos j.file_stat.st_size)) j.linger in
    let linger : r.1.linger ≡ j.linger = ap (λ (k : Job). k.linger) frame in
    (
      after_write r.1,
      ap (λ x. before x (λ s. write s.1)) e
          ∙ write-mapped head bytes content r.1
              (string_at-Written head r.1 (text size) (
                has_nul-append (status_line 200 ok_200_title) _
                  (has_nul-status_line 200 ok_200_title refl) (has_nul-headers_text _ j.linger)))
              (ap (λ (k : Job). k.file_address) frame ∙ m) c
          ∙ ap (λ (b : Bool). (head ++ content, ret (b, after_write r.1))) linger,
      unmapped r.1 r.1.linger,
    )
  where
    unmapped :
        (k : Job) (b : Bool)
        → (if b
            then init (record k { file_address = null })
            else record k { file_address = null }).file_address
          ≡ null
    unmapped k true = unfold init in refl
    unmapped k false = refl
