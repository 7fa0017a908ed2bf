-- ===== src/Job/Headers.antt =====
-- `CJob::parse_headers` and `CJob::parse_content`.
pub mod Laws
use vs_http_server.Prelude.{
  ℕ, zero, ◌+◌, ◌-◌, ◌^◌, ◌==◌, ltb, Bool, true, false, not, Option, none, some, drop,
  if◌then◌else◌, Outcome, ret, fault, ◌>>=◌, ℤ, pos, negsuc, pos_part, neg_part, sub_ℕ, leb_ℤ,
}
use vs_http_server.CString.{
  string_at, Bytes, codes, strspn, strcasecmp_eq, strncasecmp_eq, atol, to_int,
}
use vs_http_server.Job.State.{
  Job, Method, HttpCode, no_request, get_request, head_request, check_state_content, load, store,
}

abbrev pub is_get : Method → Bool
is_get Method.get = true
is_get _ = false

abbrev pub is_head : Method → Bool
is_head Method.head = true
is_head _ = false

abbrev pub is_zero : ℤ → Bool
is_zero (pos n) = n == 0
is_zero (negsuc n) = false

-- The empty line: what the method and the content length ask for.
unfoldable pub end_headers : Job → HttpCode × Job
end_headers j =
    if is_get j.method
    then (get_request, j)
    else if is_head j.method
    then (head_request, j)
    else if not (is_zero j.content_length)
    then (no_request, record j { check_state = check_state_content })
    else (get_request, j)

-- `Connection:`; `text` is behind the name.
unfoldable pub header_connection : ℕ → Job → Outcome (HttpCode × Job)
header_connection text j = do
  skipped ← strspn (drop text j.read_buf)
  keep ← strcasecmp_eq (drop (text + skipped) j.read_buf) (codes "keep-alive")
  ret (no_request, if keep then record j { linger = true } else j)

-- `Content-Length:`; the `long` of `atol` goes into an `int`.
unfoldable pub header_content_length : ℕ → Job → Outcome (HttpCode × Job)
header_content_length text j = do
  skipped ← strspn (drop text j.read_buf)
  value ← atol (drop (text + skipped) j.read_buf)
  ret (no_request, record j { content_length = to_int value })

-- `Host:`.
unfoldable pub header_host : ℕ → Job → Outcome (HttpCode × Job)
header_host text j = do
  skipped ← strspn (drop text j.read_buf)
  ret (no_request, record j { host = some (text + skipped) })

-- A header, known or not. An unknown one is only printed with `%s`, which reads it up to its NUL.
unfoldable pub header_field : ℕ → Job → Outcome (HttpCode × Job)
unfolding header_connection header_content_length header_host
header_field text j = do
  is_connection ← strncasecmp_eq (drop text j.read_buf) (codes "Connection:")
  if is_connection then header_connection (text + 11) j else (do
    is_length ← strncasecmp_eq (drop text j.read_buf) (codes "Content-Length:")
    if is_length then header_content_length (text + 15) j else (do
      is_host ← strncasecmp_eq (drop text j.read_buf) (codes "Host:")
      if is_host
          then header_host (text + 5) j
          else (do _ ← string_at (drop text j.read_buf); ret (no_request, j))))

unfoldable pub parse_headers : ℕ → Job → Outcome (HttpCode × Job)
unfolding end_headers header_field
parse_headers text j = do
  first ← load j.read_buf text
  if first == 0 then ret (end_headers j) else header_field text j

-- A signed number and a number.
abbrev pub add_index : ℤ → ℕ → ℤ
add_index z n = sub_ℕ (pos_part z + n) (neg_part z)

-- A store at a signed index.
unfoldable pub store_signed : Bytes → ℤ → ℕ → Outcome Bytes
store_signed buf (pos i) v = store buf i v
store_signed buf (negsuc i) v = fault

-- `m_content_length + m_checked_idx` is a sum of two `int`s, undefined above 2 ^ 31 - 1.
unfoldable pub parse_content : ℕ → Job → Outcome (HttpCode × Job)
unfolding store_signed
parse_content text j =
    let whole = add_index j.content_length j.checked_idx in
    if leb_ℤ whole (2 ^ 31 - 1)
    then (if leb_ℤ whole j.read_idx
        then (do
          buf ← store_signed j.read_buf (add_index j.content_length text) 0
          ret (get_request, record j { read_buf = buf }))
        else ret (no_request, j))
    else fault
