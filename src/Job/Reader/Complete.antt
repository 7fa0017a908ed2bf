-- ===== src/Job/Reader/Complete.antt =====
-- A whole request in the form that RFC 7230 gives it, and what `process_read` makes of it.
use mathlib.Core.List.{append_assoc}
use vs_http_server.Prelude.{
  ℕ, zero, suc, Bool-cases, inl, inr, ◌+◌, ◌<◌, ◌≡◌, ◌≢◌, refl, ap, sym, ◌∙◌, true, false, ◌||◌,
  some, Option, ℤ, List, [], ◌∷◌, ◌++◌, arith, length, length-append, drop, ret, Returns,
  Returns-inv, Returns-intro, subst,
}
use vs_http_server.CString.{Bytes, string_at}
use vs_http_server.CString.Laws.{has_nul, has_nul-append_nul}
use vs_http_server.Job.State.{
  Job, Method, HttpCode, check_state_header, line_ok, no_request, get_request, head_request, load,
}
use vs_http_server.Job.Buffer.{drop-at, load-at}
use vs_http_server.Job.Line.Cut.{IsText, behind_line, parse_line-cut}
use vs_http_server.Job.RequestLine.Print.{url_text}
use vs_http_server.Job.Headers.{is_get, is_head, end_headers, header_field, parse_headers}
use vs_http_server.Job.Headers.Laws.{FieldRead, header_field-FieldRead}
use vs_http_server.Job.Reader.{
  FileSystem, do_request, is_bad, is_complete, in_content, read_round, answer, again, read_loop,
}
use vs_http_server.Job.Reader.Path.{PathEnds, TextAt, Served, do_request-Served}
use vs_http_server.Job.Reader.Loop.{
  at_line, read_loop-again, read_loop-answer, read_round-header, read_round-serves,
}

-- A header line: it does not begin with a NUL, and has no carriage return and no line feed.
abbrev pub IsHeader : Bytes → Type 0
IsHeader [] = ⊥
IsHeader (c ∷ w) = (c ≢ 0) × IsText (c ∷ w)

abbrev pub AllHeaders : List Bytes → Type 0
AllHeaders [] = Unit
AllHeaders (h ∷ hs) = IsHeader h × AllHeaders hs

-- The headers with the empty line behind them, and what follows.
abbrev pub header_text : List Bytes → Bytes → Bytes
header_text [] tail = b'\r' ∷ b'\n' ∷ tail
header_text (h ∷ hs) tail = h ++ (b'\r' ∷ b'\n' ∷ header_text hs tail)

-- A parser that is at the start of the headers `hs`: `a` stands before them.
pub record InHeaders (n : Option ℤ) (m : Method) (path a : Bytes) (hs : List Bytes) (tail : Bytes)
    (j : Job) : Type 0 where
  pub buf : j.read_buf ≡ a ++ header_text hs tail
  pub checked : j.checked_idx ≡ length a
  pub start : j.start_line ≡ length a
  pub state : j.check_state ≡ check_state_header
  pub verb : j.method ≡ m
  pub count : j.iv_count ≡ n
  pub left : j.read_idx ≡ length a + length (header_text hs [])
  pub named :
      (u : ℕ) × (j.url ≡ some u) × ((r : Bytes) → string_at (drop u (a ++ r)) ≡ ret (url_text path))
  pub ends : PathEnds j.real_file

parse_headers-blank :
    (text : ℕ) (j : Job) → load j.read_buf text ≡ ret 0 → parse_headers text j ≡ ret (end_headers j)
unfolding parse_headers
parse_headers-blank text j e = rw e refl

parse_headers-field :
    (text c : ℕ) (j : Job)
    → load j.read_buf text ≡ ret c
    → c ≢ 0
    → parse_headers text j ≡ header_field text j
unfolding parse_headers
parse_headers-field text c j e n = ground arith

end_headers_complete :
    (j : Job)
    → (is_get j.method || is_head j.method) ≡ true
    → (code : HttpCode) × (end_headers j ≡ (code, j))
      × (is_bad code ≡ false)
      × (is_complete code ≡ true)
unfolding end_headers
end_headers_complete j h = elim (Bool-cases (is_get j.method)) [
  | inl e ↦ (get_request, ground arith, refl, refl)
  | inr e ↦ (head_request, ground arith, refl, refl)
]

-- The request is answered for the file that its URL names, and `m_iv_count` is still `n`.
abbrev pub Answered : FileSystem → Option ℤ → Bytes → HttpCode × Job → Type 0
Answered fs n path r = (k : Job) × Served fs (url_text path) k r × (r.1.iv_count ≡ n)

-- The empty line: the file is served.
blank-Answered :
    (fs : FileSystem) (fuel : ℕ) (n : Option ℤ) (m : Method) (path a tail : Bytes) (j : Job)
    → (is_get m || is_head m) ≡ true
    → InHeaders n m path a [] tail j
    → Returns (Answered fs n path) (read_loop fs (suc fuel) line_ok j)
blank-Answered fs fuel n m path a tail j g v =
    let (u, at, text) = v.named in
    let k = behind_line (a ++ (0 ∷ 0 ∷ tail)) 0 j in
    let l = at_line k in
    let found = parse_line-cut [] a tail j tt v.buf v.checked (omega (arith, v.left, v.checked)) in
    let string : has_nul (drop k.start_line k.read_buf) ≡ true =
      ap has_nul (drop-at k.read_buf a (0 ∷ 0 ∷ tail) k.start_line refl v.start) in
    let (code, done, good, complete) =
      end_headers_complete l (ap (λ x. is_get x || is_head x) v.verb ∙ g) in
    let parsed =
      parse_headers-blank k.start_line l
        (load-at l.read_buf a (0 ∷ tail) 0 k.start_line refl v.start)
      ∙ ap ret done in
    let (r, run, served) = Returns-inv (Served fs (url_text path) l) (do_request fs l) (
      do_request-Served fs l (url_text path)
        (subst (λ o. TextAt o (a ++ (0 ∷ 0 ∷ tail)) (url_text path)) (sym at) (text (0 ∷ 0 ∷ tail)))
        v.ends) in
    let round : read_round fs k.start_line k.check_state l ≡ ret (answer r.0 r.1) =
      ap (λ c. read_round fs k.start_line c l) v.state
      ∙ read_round-serves fs k.start_line code r.0 l l r.1 parsed good complete run in
    Returns-intro (Answered fs n path) r
      (read_loop-answer fs fuel line_ok r.0 j k r.1 (ap in_content v.state) found string round)
      (l, served, ap (λ (x : Job). x.iv_count) served.frame ∙ v.count)

-- What stands before the rest of the headers, once the header `h` is cut off.
abbrev before_rest : Bytes → Bytes → Bytes
before_rest a h = a ++ (h ++ (0 ∷ 0 ∷ []))

before_rest-append : (a h r : Bytes) → before_rest a h ++ r ≡ a ++ (h ++ (0 ∷ 0 ∷ r))
before_rest-append a h r =
    append_assoc a (h ++ (0 ∷ 0 ∷ [])) r ∙ ap (λ x. a ++ x) (append_assoc h (0 ∷ 0 ∷ []) r)

length-before_rest : (a h : Bytes) → length (before_rest a h) ≡ length a + length h + 2
length-before_rest a h =
    omega (arith, length-append {0} a (h ++ (0 ∷ 0 ∷ [])), length-append {0} h (0 ∷ 0 ∷ []))

-- A header: the loop goes on behind it.
header_round :
    (fs : FileSystem) (fuel : ℕ) (n : Option ℤ) (m : Method) (path a h tail : Bytes)
    (hs : List Bytes) (j : Job)
    → IsHeader h
    → InHeaders n m path a (h ∷ hs) tail j
    → (l : Job) × (read_loop fs (suc fuel) line_ok j ≡ read_loop fs fuel line_ok l)
      × InHeaders n m path (before_rest a h) hs tail l
header_round fs fuel n m path a [] tail hs j x v = absurd x
header_round fs fuel n m path a (c ∷ w) tail hs j (nz, text) v =
    let (u, at, named) = v.named in
    let h : Bytes = c ∷ w in
    let rest = header_text hs tail in
    let size = length-append {0} h (b'\r' ∷ b'\n' ∷ header_text hs []) in
    let k = behind_line (a ++ (h ++ (0 ∷ 0 ∷ rest))) (length h) j in
    let l = at_line k in
    let found =
      parse_line-cut h a rest j text v.buf v.checked (omega (arith, v.left, v.checked, size)) in
    let string : has_nul (drop k.start_line l.read_buf) ≡ true =
      ap has_nul (drop-at l.read_buf a (h ++ (0 ∷ 0 ∷ rest)) k.start_line refl v.start)
      ∙ has_nul-append_nul h (0 ∷ rest) in
    let (r, run, field) =
      Returns-inv (FieldRead l) (header_field k.start_line l)
        (header_field-FieldRead k.start_line l string) in
    let next : Job = record l {
      linger = r.1.linger;
      content_length = r.1.content_length;
      host = r.1.host;
    } in
    let parsed : parse_headers k.start_line l ≡ ret (no_request, next) =
      parse_headers-field k.start_line c l
        (load-at l.read_buf a (w ++ (0 ∷ 0 ∷ rest)) c k.start_line refl v.start) nz
      ∙ run
      ∙ ap ret field in
    let round : read_round fs k.start_line k.check_state l ≡ ret (again line_ok next) =
      ap (λ s. read_round fs k.start_line s l) v.state
      ∙ read_round-header fs k.start_line l next parsed in
    (
      next,
      read_loop-again fs fuel line_ok j k next (ap in_content v.state) found string round,
      record {
        buf = sym (before_rest-append a h rest);
        checked = omega (arith, v.checked, length-before_rest a h);
        start = omega (arith, v.checked, length-before_rest a h);
        state = v.state;
        verb = v.verb;
        count = v.count;
        left = omega (arith, v.left, size, length-before_rest a h);
        named = (
          u,
          at,
          λ r. ap (λ b. string_at (drop u b)) (before_rest-append a h r) ∙ named (h ++ (0 ∷ 0 ∷ r)),
        );
        ends = v.ends;
      },
    )

pub headers-Answered :
    (fs : FileSystem) (hs : List Bytes) (fuel : ℕ) (n : Option ℤ) (m : Method) (path a tail : Bytes)
    (j : Job)
    → AllHeaders hs
    → length hs < fuel
    → (is_get m || is_head m) ≡ true
    → InHeaders n m path a hs tail j
    → Returns (Answered fs n path) (read_loop fs fuel line_ok j)
headers-Answered fs hs zero n m path a tail j all f g v = elim f [ ]
headers-Answered fs [] (suc fuel) n m path a tail j all f g v =
    blank-Answered fs fuel n m path a tail j g v
headers-Answered fs (h ∷ hs) (suc fuel) n m path a tail j (x, all) f g v =
    let (l, e, w) = header_round fs fuel n m path a h tail hs j x v in
    rw e (headers-Answered fs hs fuel n m path (before_rest a h) tail l all (omega arith) g w)
