-- ===== src/Job/Reader/Request.antt =====
-- Requests that are printed: `process_read` from the request line on.
use mathlib.Core.List.{append_assoc, append-nil}
use vs_http_server.Prelude.{
  ℕ, suc, ◌+◌, ◌<◌, ◌≡◌, refl, ap, sym, ◌∙◌, true, false, ◌||◌, List, [], ◌∷◌, ◌++◌, arith, length,
  length-append, drop, ret, Returns, subst,
}
use vs_http_server.CString.{Bytes, codes, string_at}
use vs_http_server.CString.Laws.{has_nul, has_nul-append_nul}
use vs_http_server.CString.Copies.{string_at-append, string_at-nul}
use vs_http_server.CString.Words.{IsWord}
use vs_http_server.Job.State.{Job, Method, check_state_requestline, line_ok, read_buffer_size}
use vs_http_server.Job.Buffer.{drop-at}
use vs_http_server.Job.Line.Cut.{IsText, IsText-append, behind_line, parse_line-cut}
use vs_http_server.Job.RequestLine.{parse_request_line}
use vs_http_server.Job.RequestLine.Print.{
  method_name, method_code, url_text, version_text, print_line, cut_line, accepted,
  parse_request_line-print_line,
}
use vs_http_server.Job.Headers.{is_get, is_head}
use vs_http_server.Job.Reader.{
  FileSystem, is_bad, in_content, read_round, again, read_loop, process_read,
}
use vs_http_server.Job.Reader.Path.{PathEnds}
use vs_http_server.Job.Reader.Loop.{at_line, read_loop-again, read_round-request_line}
use vs_http_server.Job.Reader.Complete.{
  AllHeaders, header_text, InHeaders, Answered, headers-Answered,
}

abbrev pub request_line : Method → Bytes → Bytes
request_line m path = method_name m ++ (b' ' ∷ (url_text path ++ (b' ' ∷ codes "HTTP/1.1")))

-- The request with these headers, and what follows it.
abbrev pub request_text : Method → Bytes → List Bytes → Bytes → Bytes
request_text m path hs tail = request_line m path ++ (b'\r' ∷ b'\n' ∷ header_text hs tail)

request_line-print :
    (m : Method) (path r : Bytes) → request_line m path ++ (0 ∷ r) ≡ print_line m path r
request_line-print m path r =
    append_assoc (method_name m) (b' ' ∷ (url_text path ++ (b' ' ∷ codes "HTTP/1.1"))) (0 ∷ r)
    ∙ ap (λ x. method_name m ++ (b' ' ∷ x))
        (append_assoc (url_text path) (b' ' ∷ codes "HTTP/1.1") (0 ∷ r))

method_name-IsText : (m : Method) → IsText (method_name m)
method_name-IsText Method.get = omega arith
method_name-IsText Method.head = omega arith
method_name-IsText Method.post = omega arith
method_name-IsText Method.put = omega arith
method_name-IsText Method.delete = omega arith
method_name-IsText Method.trace = omega arith
method_name-IsText Method.options = omega arith
method_name-IsText Method.connect = omega arith
method_name-IsText Method.patch = omega arith

IsWord-IsText : (w : Bytes) → IsWord w → IsText w
IsWord-IsText [] h = tt
IsWord-IsText (c ∷ w) (nul, space, tab, cr, lf, h) = (cr, lf, IsWord-IsText w h)

IsWord-has_nul : (w : Bytes) → IsWord w → has_nul w ≡ false
IsWord-has_nul [] h = refl
IsWord-has_nul (c ∷ w) (nul, space, tab, cr, lf, h) = ground (arith, IsWord-has_nul w h)

request_line-IsText : (m : Method) (path : Bytes) → IsWord path → IsText (request_line m path)
request_line-IsText m path h = IsText-append (method_name m) _ (method_name-IsText m) (
  omega arith,
  omega arith,
  (
    omega arith,
    omega arith,
    IsText-append path (codes " HTTP/1.1") (IsWord-IsText path h) (omega arith),
  ),
)

method_code-good : (m : Method) → is_bad (method_code m) ≡ false
method_code-good Method.get = refl
method_code-good Method.head = refl
method_code-good Method.post = refl
method_code-good Method.put = refl
method_code-good Method.delete = refl
method_code-good Method.trace = refl
method_code-good Method.options = refl
method_code-good Method.connect = refl
method_code-good Method.patch = refl

-- What stands before the headers, once the request line is cut.
abbrev before_headers : Method → Bytes → Bytes
before_headers m path = cut_line m path (0 ∷ [])

before_headers-append :
    (m : Method) (path r : Bytes) → before_headers m path ++ r ≡ cut_line m path (0 ∷ r)
before_headers-append m path r =
    append_assoc (method_name m) (0 ∷ (url_text path ++ (0 ∷ codes "HTTP/1.1\0\0"))) r
    ∙ ap (λ x. method_name m ++ (0 ∷ x)) (append_assoc (url_text path) (0 ∷ codes "HTTP/1.1\0\0") r)

length-request_line :
    (m : Method) (path : Bytes) → length (request_line m path) + 2 ≡ length (before_headers m path)
length-request_line m path = omega (
  arith,
  length-append {0} (method_name m) (b' ' ∷ (url_text path ++ codes " HTTP/1.1")),
  length-append {0} (method_name m) (0 ∷ (url_text path ++ (0 ∷ codes "HTTP/1.1\0\0"))),
  length-append {0} path (codes " HTTP/1.1"),
  length-append {0} path (0 ∷ codes "HTTP/1.1\0\0"),
)

-- The URL is a string behind the method.
url-string :
    (m : Method) (path r : Bytes)
    → IsWord path
    → string_at (drop (length (method_name m) + 1) (before_headers m path ++ r))
      ≡ ret (url_text path)
url-string m path r w =
    let name = method_name m in
    let url = url_text path in
    let rest = version_text (0 ∷ r) in
    let nul_free : has_nul url ≡ false = IsWord-has_nul path w in
    ap string_at (
      drop-at (before_headers m path ++ r) (name ++ (0 ∷ [])) (url ++ (0 ∷ rest)) (length name + 1)
        (before_headers-append m path r ∙ sym (append_assoc name (0 ∷ []) (url ++ (0 ∷ rest))))
        (omega (arith, length-append {0} name (0 ∷ []))))
    ∙ string_at-append url (0 ∷ rest) [] nul_free (string_at-nul rest)
    ∙ ap ret (append-nil url)

-- The first round leads to the headers.
request_round :
    (fs : FileSystem) (fuel : ℕ) (m : Method) (path tail : Bytes) (hs : List Bytes) (j : Job)
    → IsWord path
    → j.read_buf ≡ request_text m path hs tail
    → j.checked_idx ≡ 0
    → j.start_line ≡ 0
    → j.check_state ≡ check_state_requestline
    → j.read_idx ≡ length (request_text m path hs [])
    → PathEnds j.real_file
    → (l : Job) × (read_loop fs (suc fuel) line_ok j ≡ read_loop fs fuel line_ok l)
      × InHeaders j.iv_count m path (before_headers m path) hs tail l
request_round fs fuel m path tail hs j w buf checked start state left ends =
    let line = request_line m path in
    let rest = header_text hs tail in
    let same : 0 + length (method_name m) + 1 ≡ length (method_name m) + 1 = omega arith in
    let size = length-append {0} line (b'\r' ∷ b'\n' ∷ header_text hs []) in
    let k = behind_line (line ++ (0 ∷ 0 ∷ rest)) (length line) j in
    let n : Job = accepted m path 0 (cut_line m path (0 ∷ rest)) (at_line k) in
    let found =
      parse_line-cut line [] rest j (request_line-IsText m path w) buf checked
        (omega (arith, left, checked, size)) in
    let string : has_nul (drop k.start_line k.read_buf) ≡ true =
      ap (λ i. has_nul (drop i (line ++ (0 ∷ 0 ∷ rest)))) start
      ∙ has_nul-append_nul line (0 ∷ rest) in
    let parsed : parse_request_line k.start_line (at_line k) ≡ ret (method_code m, n) =
      ap (λ i. parse_request_line i (at_line k)) start
      ∙ parse_request_line-print_line m path [] (0 ∷ rest) (at_line k) w
          (request_line-print m path (0 ∷ rest)) in
    let round : read_round fs k.start_line k.check_state (at_line k) ≡ ret (again line_ok n) =
      ap (λ s. read_round fs k.start_line s (at_line k)) state
      ∙ read_round-request_line fs k.start_line (method_code m) (at_line k) n (method_code-good m)
          parsed in
    (
      n,
      read_loop-again fs fuel line_ok j k n (ap in_content state) found string round,
      record {
        buf = sym (before_headers-append m path rest);
        checked = omega (arith, checked, length-request_line m path);
        start = omega (arith, checked, length-request_line m path);
        state = refl;
        verb = refl;
        count = refl;
        left = omega (arith, left, size, length-request_line m path);
        named = (
          0 + length (method_name m) + 1,
          refl,
          λ r.
              ap (λ i. string_at (drop i (before_headers m path ++ r))) same
              ∙ url-string m path r w,
        );
        ends = ends;
      },
    )

length-header_text : (hs : List Bytes) → length hs < length (header_text hs [])
length-header_text [] = omega arith
length-header_text (h ∷ hs) =
    omega (arith, length-header_text hs, length-append {0} h (b'\r' ∷ b'\n' ∷ header_text hs []))

-- A parser at the start of a printed GET or HEAD request, with a word for its URL, comes to the file that
-- the URL names.
pub process_read-request :
    (fs : FileSystem) (m : Method) (path tail : Bytes) (hs : List Bytes) (j : Job)
    → (is_get m || is_head m) ≡ true
    → IsWord path
    → AllHeaders hs
    → j.read_buf ≡ request_text m path hs tail
    → j.checked_idx ≡ 0
    → j.start_line ≡ 0
    → j.check_state ≡ check_state_requestline
    → j.read_idx ≡ length (request_text m path hs [])
    → length (request_text m path hs []) < read_buffer_size
    → PathEnds j.real_file
    → Returns (Answered fs j.iv_count path) (process_read fs j)
unfolding process_read
process_read-request fs m path tail hs j g w all buf checked start state left short ends =
    let (l, e, v) = request_round fs 4097 m path tail hs j w buf checked start state left ends in
    subst (Returns (Answered fs j.iv_count path)) (sym e) (
      headers-Answered fs hs 4097 j.iv_count m path (before_headers m path) tail l all
        (omega (
          arith,
          short,
          length-header_text hs,
          length-append {0} (request_line m path) (b'\r' ∷ b'\n' ∷ header_text hs []),
        ))
        g v)
