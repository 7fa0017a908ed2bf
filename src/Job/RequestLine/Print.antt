-- ===== src/Job/RequestLine/Print.antt =====
-- A request line in the form that RFC 7230 gives it, and what `parse_request_line` makes of it.
use mathlib.Core.List.{append_assoc}
use vs_http_server.Prelude.{
  ℕ, ◌+◌, ◌≡◌, refl, ap, sym, ◌∙◌, arith, true, some, [], ◌∷◌, ◌++◌, length, drop, ret, >>=-ret,
  length-append,
}
use vs_http_server.CString.{Bytes, codes, strpbrk, strspn, strcasecmp_eq, strncasecmp_eq}
use vs_http_server.CString.Words.{IsWord, strpbrk-word, strspn-word, strcasecmp_eq-same}
use vs_http_server.Job.State.{
  Job, Method, HttpCode, check_state_header, get_request, head_request, post_request, put_request,
  delete_request, trace_request, options_request, connect_request, patch_request, store,
}
use vs_http_server.Job.Buffer.{drop-at, load-at, store-at}
use vs_http_server.Job.RequestLine.{
  methods, match_method, accept_url, skip_scheme, check_version, find_version, check_method,
  parse_request_line,
}

abbrev pub method_name : Method → Bytes
method_name Method.get = codes "GET"
method_name Method.head = codes "HEAD"
method_name Method.post = codes "POST"
method_name Method.put = codes "PUT"
method_name Method.delete = codes "DELETE"
method_name Method.trace = codes "TRACE"
method_name Method.options = codes "OPTIONS"
method_name Method.connect = codes "CONNECT"
method_name Method.patch = codes "PATCH"

abbrev pub method_code : Method → HttpCode
method_code Method.get = get_request
method_code Method.head = head_request
method_code Method.post = post_request
method_code Method.put = put_request
method_code Method.delete = delete_request
method_code Method.trace = trace_request
method_code Method.options = options_request
method_code Method.connect = connect_request
method_code Method.patch = patch_request

method_name-IsWord : (m : Method) → IsWord (method_name m)
method_name-IsWord Method.get = omega arith
method_name-IsWord Method.head = omega arith
method_name-IsWord Method.post = omega arith
method_name-IsWord Method.put = omega arith
method_name-IsWord Method.delete = omega arith
method_name-IsWord Method.trace = omega arith
method_name-IsWord Method.options = omega arith
method_name-IsWord Method.connect = omega arith
method_name-IsWord Method.patch = omega arith

match_method-name :
    (m : Method) (rest : Bytes)
    → match_method methods (method_name m ++ (0 ∷ rest)) ≡ ret (some (m, method_code m))
unfolding match_method strcasecmp_eq
match_method-name Method.get rest = refl
match_method-name Method.head rest = refl
match_method-name Method.post rest = refl
match_method-name Method.put rest = refl
match_method-name Method.delete rest = refl
match_method-name Method.trace rest = refl
match_method-name Method.options rest = refl
match_method-name Method.connect rest = refl
match_method-name Method.patch rest = refl

-- The version, with the NUL that `parse_line` leaves behind the line.
abbrev pub version_text : Bytes → Bytes
version_text rest = codes "HTTP/1.1" ++ (0 ∷ rest)

abbrev pub url_text : Bytes → Bytes
url_text path = b'/' ∷ path

-- A line with these bytes behind the method and behind the URL.
abbrev pub line_with : ℕ → ℕ → Method → Bytes → Bytes → Bytes
line_with x y m path rest = method_name m ++ (x ∷ (url_text path ++ (y ∷ version_text rest)))

abbrev pub print_line : Method → Bytes → Bytes → Bytes
print_line = line_with b' ' b' '

-- The line once it is parsed: its three parts are strings.
abbrev pub cut_line : Method → Bytes → Bytes → Bytes
cut_line = line_with 0 0

-- The connection behind a line that begins at `start`.
abbrev pub accepted : Method → Bytes → ℕ → Bytes → Job → Job
accepted m path start buf j = record j {
  read_buf = buf;
  url = some (start + length (method_name m) + 1);
  version = some (start + length (method_name m) + 1 + length (url_text path) + 1);
  method = m;
  request = method_code m;
  check_state = check_state_header;
}

skip_scheme-slash :
    (buf a b : Bytes) (url : ℕ) (j : Job)
    → j.read_buf ≡ a ++ (b'/' ∷ b)
    → url ≡ length a
    → skip_scheme url j
      ≡ ret (j.request, record j { url = some url; check_state = check_state_header })
unfolding skip_scheme strncasecmp_eq accept_url
skip_scheme-slash buf a b url j e n =
    rw (drop-at j.read_buf a (b'/' ∷ b) url e n, load-at j.read_buf a b b'/' url e n) refl

check_version-accepts :
    (a path rest : Bytes) (url blank : ℕ) (j : Job)
    → j.read_buf ≡ a ++ (url_text path ++ (b' ' ∷ version_text rest))
    → url ≡ length a
    → blank ≡ length a + length (url_text path)
    → check_version url blank j
      ≡ ret (
        j.request,
        record j {
          read_buf = a ++ (url_text path ++ (0 ∷ version_text rest));
          url = some url;
          version = some (blank + 1);
          check_state = check_state_header;
        },
      )
unfolding check_version
check_version-accepts a path rest url blank j e n k =
    let end = version_text rest in
    let front = a ++ url_text path in
    let buf : Bytes = a ++ (url_text path ++ (0 ∷ end)) in
    let whole : buf ≡ (front ++ (0 ∷ [])) ++ end =
      sym (append_assoc a (url_text path) (0 ∷ end)) ∙ sym (append_assoc front (0 ∷ []) end) in
    let size = length-append {0} a (url_text path) in
    let at : blank + 1 ≡ length (front ++ (0 ∷ [])) =
      omega (arith, size, length-append {0} front (0 ∷ [])) in
    let same : blank + 1 + 0 ≡ blank + 1 = omega arith in
    let text = drop-at buf (front ++ (0 ∷ [])) end (blank + 1) whole at in
    >>=-ret (store j.read_buf blank 0) _ buf _
      (store-at j.read_buf front end b' ' blank 0
          (e ∙ sym (append_assoc a (url_text path) (b' ' ∷ end))) (omega (arith, size))
        ∙ ap ret (append_assoc a (url_text path) (0 ∷ end)))
      (>>=-ret (strspn (drop (blank + 1) buf)) _ 0 _
        (ap strspn text ∙ strspn-word b'H' (codes "TTP/1.1") _ (omega arith))
        (>>=-ret (strcasecmp_eq (drop (blank + 1 + 0) buf) (codes "HTTP/1.1")) _ true _
          (ap (λ i. strcasecmp_eq (drop i buf) (codes "HTTP/1.1")) same
            ∙ ap (λ t. strcasecmp_eq t (codes "HTTP/1.1")) text
            ∙ strcasecmp_eq-same (codes "HTTP/1.1") rest)
          (skip_scheme-slash buf a (path ++ (0 ∷ end)) url
              (record j { read_buf = buf; url = some url; version = some (blank + 1 + 0) }) refl n
            ∙ ap
                (λ i. ret (
                  j.request,
                  record j {
                    read_buf = buf;
                    url = some url;
                    version = some i;
                    check_state = check_state_header;
                  },
                ))
                same)))

find_version-accepts :
    (a path rest : Bytes) (after : ℕ) (j : Job)
    → IsWord path
    → j.read_buf ≡ a ++ (url_text path ++ (b' ' ∷ version_text rest))
    → after ≡ length a
    → find_version after j
      ≡ ret (
        j.request,
        record j {
          read_buf = a ++ (url_text path ++ (0 ∷ version_text rest));
          url = some after;
          version = some (after + length (url_text path) + 1);
          check_state = check_state_header;
        },
      )
unfolding find_version
find_version-accepts a path rest after j w e n =
    let tail = url_text path ++ (b' ' ∷ version_text rest) in
    let word : IsWord (url_text path) =
      (omega arith, omega arith, omega arith, omega arith, omega arith, w) in
    let text = drop-at j.read_buf a tail after e n in
    let same : after + 0 ≡ after = omega arith in
    >>=-ret (strspn (drop after j.read_buf)) _ 0 _ (ap strspn text ∙ strspn-word b'/' path _ word) (
      >>=-ret (strpbrk (drop (after + 0) j.read_buf)) _ (some (length (url_text path))) _
        (ap (λ i. strpbrk (drop i j.read_buf)) same
          ∙ ap strpbrk text
          ∙ strpbrk-word (url_text path) (version_text rest) word)
        (ap (λ i. check_version i (i + length (url_text path)) j) same
          ∙ check_version-accepts a path rest after (after + length (url_text path)) j e n
              (omega arith)))

-- A line that is printed in front of its NUL is read back: the answer is the code of the method, the URL
-- and the version are the strings that were printed, and the parser is in the header state. The URL
-- begins with a slash and is a word.
pub parse_request_line-print_line :
    (m : Method) (path before rest : Bytes) (j : Job)
    → IsWord path
    → j.read_buf ≡ before ++ print_line m path rest
    → parse_request_line (length before) j
      ≡ ret (method_code m, accepted m path (length before) (before ++ cut_line m path rest) j)
unfolding parse_request_line check_method
parse_request_line-print_line m path before rest j w e =
    let name = method_name m in
    let start = length before in
    let tail = url_text path ++ (b' ' ∷ version_text rest) in
    let front = before ++ name in
    let size = length-append {0} before name in
    let buf : Bytes = before ++ (name ++ (0 ∷ tail)) in
    let whole : buf ≡ (front ++ (0 ∷ [])) ++ tail =
      sym (append_assoc before name (0 ∷ tail)) ∙ sym (append_assoc front (0 ∷ []) tail) in
    let at : start + length name + 1 ≡ length (front ++ (0 ∷ [])) =
      omega (arith, size, length-append {0} front (0 ∷ [])) in
    let end = url_text path ++ (0 ∷ version_text rest) in
    let back : (front ++ (0 ∷ [])) ++ end ≡ before ++ (name ++ (0 ∷ end)) =
      append_assoc front (0 ∷ []) end ∙ append_assoc before name (0 ∷ end) in
    >>=-ret (strpbrk (drop start j.read_buf)) _ (some (length name)) _
      (ap strpbrk (drop-at j.read_buf before (print_line m path rest) start e refl)
        ∙ strpbrk-word name tail (method_name-IsWord m))
      (>>=-ret (store j.read_buf (start + length name) 0) _ buf _
        (store-at j.read_buf front tail b' ' (start + length name) 0
            (e ∙ sym (append_assoc before name (b' ' ∷ tail))) (omega (arith, size))
          ∙ ap ret (append_assoc before name (0 ∷ tail)))
        (>>=-ret (match_method methods (drop start buf)) _ (some (m, method_code m)) _
          (ap (match_method methods) (drop-at buf before (name ++ (0 ∷ tail)) start refl refl)
            ∙ match_method-name m tail)
          (find_version-accepts (front ++ (0 ∷ [])) path rest (start + length name + 1)
              (record j {
                read_buf = buf;
                url = some (start + length name + 1);
                method = m;
                request = method_code m;
              })
              w whole at
            ∙ ap (λ b. ret (method_code m, accepted m path start b j)) back)))
