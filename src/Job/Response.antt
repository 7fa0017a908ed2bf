-- ===== src/Job/Response.antt =====
-- `CJob::add_response` and the functions that format one part of a response into `m_write_buf`.
pub mod Laws
use vs_http_server.Prelude.{
  ℕ, ◌+◌, ◌-◌, Bool, true, false, [], ◌∷◌, ◌++◌, leb, ◌==◌, length, take, write_at, if◌then◌else◌,
  Outcome, ret, fault, ◌>>=◌, ℤ, pos,
}
use vs_http_server.CString.{Bytes, codes, decimal}
use vs_http_server.Job.State.{Job, write_buffer_size}

-- A store of several bytes.
unfoldable pub store_all : Bytes → ℕ → Bytes → Outcome Bytes
store_all buf i vs = if leb (i + length vs) (length buf) then ret (write_at buf i vs) else fault

-- `vsnprintf( buf + i, size, … )` where the formatted text is `text`: as much of it as fits, and a
-- NUL; nothing where `size` is 0.
unfoldable pub vsnprintf : Bytes → ℕ → ℕ → Bytes → Outcome Bytes
unfolding store_all
vsnprintf buf i size text =
    if size == 0 then ret buf else store_all buf i (take (size - 1) text ++ 0 ∷ [])

-- `text` is what the format and the arguments come to.
unfoldable pub add_response : Bytes → Job → Outcome (Bool × Job)
unfolding vsnprintf
add_response text j = if leb write_buffer_size j.write_idx then ret (false, j) else (do
  let size = write_buffer_size - 1 - j.write_idx
  buf ← vsnprintf j.write_buf j.write_idx size text
  if leb size (length text)
      then ret (false, record j { write_buf = buf })
      else ret (true, record j { write_buf = buf; write_idx = j.write_idx + length text }))

abbrev pub crlf : Bytes
crlf = b'\r' ∷ b'\n' ∷ []

-- "%s %d %s\r\n"
abbrev pub status_line : ℕ → Bytes → Bytes
status_line status title =
    codes "HTTP/1.1" ++ (b' ' ∷ (decimal (pos status) ++ (b' ' ∷ (title ++ crlf))))

unfoldable pub add_status_line : ℕ → Bytes → Job → Outcome (Bool × Job)
add_status_line status title j = add_response (status_line status title) j

-- "Content-Length: %d\r\n"
abbrev pub content_length_line : ℤ → Bytes
content_length_line n = codes "Content-Length: " ++ (decimal n ++ crlf)

unfoldable pub add_content_length : ℤ → Job → Outcome (Bool × Job)
add_content_length n j = add_response (content_length_line n) j

-- "Connection: %s\r\n"
abbrev pub linger_line : Bool → Bytes
linger_line linger =
    codes "Connection: " ++ ((if linger then codes "keep-alive" else codes "close") ++ crlf)

unfoldable pub add_linger : Job → Outcome (Bool × Job)
add_linger j = add_response (linger_line j.linger) j

unfoldable pub add_blank_line : Job → Outcome (Bool × Job)
add_blank_line j = add_response crlf j

unfoldable pub add_content : Bytes → Job → Outcome (Bool × Job)
add_content content j = add_response content j

-- The three results are dropped. The function is declared to return a `bool` and returns none; no
-- caller looks at it.
unfoldable pub add_headers : ℤ → Job → Outcome Job
unfolding add_content_length add_linger add_blank_line
add_headers content_len j = do
  (_, k) ← add_content_length content_len j
  (_, l) ← add_linger k
  (_, m) ← add_blank_line l
  ret m
