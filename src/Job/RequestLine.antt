-- ===== src/Job/RequestLine.antt =====
-- `CJob::parse_request_line`: the method, the URL and the version of a request.
pub mod Accept
pub mod Laws
pub mod Print
use vs_http_server.Prelude.{
  ℕ, suc, ◌+◌, ◌==◌, Option, none, some, List, [], ◌∷◌, drop, if◌then◌else◌, Outcome, ret, ◌>>=◌,
}
use vs_http_server.CString.{Bytes, codes, strpbrk, strspn, strchr, strcasecmp_eq, strncasecmp_eq}
use vs_http_server.Job.State.{
  Job, Method, HttpCode, check_state_header, get_request, head_request, post_request, put_request,
  delete_request, trace_request, options_request, connect_request, patch_request, bad_request, load,
  store,
}

-- The chain of tests `strcasecmp( method, … ) == 0`, in its order.
abbrev pub methods : List (Bytes × Method × HttpCode)
methods =
    (codes "GET", Method.get, get_request)
    ∷ (codes "HEAD", Method.head, head_request)
    ∷ (codes "POST", Method.post, post_request)
    ∷ (codes "PUT", Method.put, put_request)
    ∷ (codes "DELETE", Method.delete, delete_request)
    ∷ (codes "TRACE", Method.trace, trace_request)
    ∷ (codes "OPTIONS", Method.options, options_request)
    ∷ (codes "CONNECT", Method.connect, connect_request)
    ∷ (codes "PATCH", Method.patch, patch_request)
    ∷ []

-- The first test of the chain that holds, on the string at `method`.
unfoldable pub match_method :
    List (Bytes × Method × HttpCode) → Bytes → Outcome (Option (Method × HttpCode))
match_method [] text = ret none
match_method ((name, m, r) ∷ rest) text = do
  same ← strcasecmp_eq text name
  let later = match_method rest text
  if same then ret (some (m, r)) else later

-- `if ( ! m_url || m_url[ 0 ] != '/' )`, and the end of the function.
unfoldable pub accept_url : Option ℕ → Job → Outcome (HttpCode × Job)
accept_url none j = ret (bad_request, record j { url = none })
accept_url (some url) j = do
  first ← load j.read_buf url
  if first == b'/'
      then ret (j.request, record j { url = some url; check_state = check_state_header })
      else ret (bad_request, record j { url = some url })

abbrev pub slash_after : ℕ → Option ℕ → Option ℕ
slash_after url none = none
slash_after url (some k) = some (url + k)

-- The part from the test of the scheme on. `m_url` is `url`.
unfoldable pub skip_scheme : ℕ → Job → Outcome (HttpCode × Job)
unfolding accept_url
skip_scheme url j = do
  absolute ← strncasecmp_eq (drop url j.read_buf) (codes "http://")
  if absolute
      then (do
        slash ← strchr b'/' (drop (url + 7) j.read_buf)
        accept_url (slash_after (url + 7) slash) j)
      else accept_url (some url) j

-- The part from `*m_version++ = '\0'` on. The blank behind the URL is at `blank`.
unfoldable pub check_version : ℕ → ℕ → Job → Outcome (HttpCode × Job)
unfolding skip_scheme
check_version url blank j = do
  buf ← store j.read_buf blank 0
  skipped ← strspn (drop (blank + 1) buf)
  let k = record j { read_buf = buf; url = some url; version = some (blank + 1 + skipped) }
  same ← strcasecmp_eq (drop (blank + 1 + skipped) buf) (codes "HTTP/1.1")
  if same then skip_scheme url k else ret (bad_request, k)

-- The part from `m_url += strspn( … )` on. `m_url` was `after`.
unfoldable pub find_version : ℕ → Job → Outcome (HttpCode × Job)
unfolding check_version
find_version after j = do
  skipped ← strspn (drop after j.read_buf)
  found ← strpbrk (drop (after + skipped) j.read_buf)
  elim found [
    | none ↦ ret (bad_request, record j { url = some (after + skipped); version = none })
    | some k ↦ check_version (after + skipped) (after + skipped + k) j
  ]

-- The part from `*m_url++ = '\0'` on. The blank behind the method is at `blank`.
unfoldable pub check_method : ℕ → ℕ → Job → Outcome (HttpCode × Job)
unfolding match_method find_version
check_method text blank j = do
  buf ← store j.read_buf blank 0
  found ← match_method methods (drop text buf)
  elim found [
    | none ↦ ret (bad_request, record j { read_buf = buf; url = some (blank + 1) })
    | some (m, r) ↦
        find_version (blank + 1)
          (record j { read_buf = buf; url = some (blank + 1); method = m; request = r })
  ]

-- `text` is an offset into the read buffer.
unfoldable pub parse_request_line : ℕ → Job → Outcome (HttpCode × Job)
unfolding check_method
parse_request_line text j = do
  found ← strpbrk (drop text j.read_buf)
  elim found [
    | none ↦ ret (bad_request, record j { url = none })
    | some k ↦ check_method text (text + k) j
  ]
