-- ===== src/Upstream/Status.antt =====
-- The status line of the upstream's answer: `mytest_process_status_line` of the nginx module.
pub mod Laws
use mathlib.Core.Option.{map}
use vs_http_server.Prelude.{
  ℕ, Bool, true, false, Option, none, some, List, length, if◌then◌else◌, Outcome, ret, fault, ◌>>=◌,
  ◌>>◌, or_fault,
}
use vs_http_server.CString.{Bytes, string_at}
use vs_http_server.Upstream.{
  Nginx, HeadersIn, Line, Parsed, Rc, ok, again, failed, store_at, process_header,
}

-- `ngx_http_status_t`: the code, and the bytes from `start` to `end`.
pub record Status : Type 0 where
  pub code : ℕ
  pub text : Bytes

-- `ngx_http_mytest_ctx_t`.
pub record Context : Type 0 where
  pub status : Status
  pub backend_server : Bytes

-- The answers of `ngx_http_parse_status_line`.
pub data StatusRc : Type 0 where
  status_ok status_again status_error : StatusRc

-- What the function uses of nginx. `debug`: the log takes messages of the level debug, the format of
-- which may ask for no argument. `temp` and `palloc` are the memory of a size. A parser gets the bytes
-- of the buffer and leaves a rest.
pub record StatusCalls : Type 0 where
  pub debug : Bool
  pub asks_nothing : Bytes → Bool
  pub temp : ℕ → Option Bytes
  pub palloc : ℕ → Option Bytes
  pub parse_status_line : Bytes → Status → StatusRc × Status × Bytes
  pub parse_header_lines : Bytes → List Line × Parsed × Bytes

-- `r->upstream`: the bytes from `buffer.pos` to `buffer.last`; the status in `state`, which may be NULL;
-- and whether `process_header` is the function for the headers. `http_version` is of the request.
pub record UpstreamState : Type 0 where
  pub buffer : Bytes
  pub state : Option ℕ
  pub http_version : Option ℕ
  pub status_n : ℕ
  pub status_line_len : ℕ
  pub status_line : Option Bytes
  pub in_headers : Bool
  pub headers_in : HeadersIn

-- The log calls with `temp.data` as the format.
unfoldable pub log_temp : StatusCalls → Bytes → Outcome Bool
log_temp c temp =
    if c.debug
    then (do format ← string_at temp; if c.asks_nothing format then ret true else fault)
    else ret false

-- The part behind `ngx_palloc`, with its answer, and the loop over the headers.
unfoldable pub take_headers :
    Nginx → StatusCalls → Status → Option Bytes → UpstreamState → Outcome (Rc × UpstreamState)
unfolding store_at process_header
take_headers g c status none u = ret (failed, record u { status_line = none })
take_headers g c status (some mem) u = do
  line ← store_at mem 0 status.text
  let found = c.parse_header_lines u.buffer
  (rc, headers) ← process_header g found.0 found.1 u.headers_in
  ret (
    rc,
    record u { buffer = found.2; status_line = some line; in_headers = true; headers_in = headers },
  )

-- The part behind the tests of `rc`.
unfoldable pub take_status :
    Nginx → StatusCalls → Status → UpstreamState → Outcome (Rc × UpstreamState)
unfolding take_headers
take_status g c status u = take_headers g c status (c.palloc (length status.text)) (record u {
  state = map (λ _. status.code) u.state;
  status_n = status.code;
  status_line_len = length status.text;
})

-- The tests of `rc`. `NGX_HTTP_VERSION_9` is 9, `NGX_HTTP_OK` is 200.
unfoldable pub check_status :
    Nginx → StatusCalls → StatusRc → Status → UpstreamState → Outcome (Rc × UpstreamState)
unfolding take_status
check_status g c status_again status u = ret (again, u)
check_status g c status_error status u = do
  _ ← or_fault u.state
  ret (ok, record u { http_version = some 9; state = some 200 })
check_status g c status_ok status u = take_status g c status u

-- The part behind the allocation of `temp.data`, with its answer.
unfoldable pub parse_status :
    Nginx
    → StatusCalls
    → Context
    → Option Bytes
    → UpstreamState
    → Outcome (Rc × Option Context × UpstreamState)
unfolding log_temp check_status store_at
parse_status g c ctx none u = ret (failed, some ctx, u)
parse_status g c ctx (some mem) u = do
  temp ← store_at mem 0 u.buffer
  _ ← log_temp c temp
  let found = c.parse_status_line u.buffer ctx.status
  (rc, v) ← check_status g c found.0 found.1 (record u { buffer = found.2 })
  ret (rc, some (record ctx { status = found.1 }), v)

-- `mytest_process_status_line`; `none` is a request without a context.
unfoldable pub process_status_line :
    Nginx
    → StatusCalls
    → Option Context
    → UpstreamState
    → Outcome (Rc × Option Context × UpstreamState)
unfolding parse_status
process_status_line g c none u = ret (failed, none, u)
process_status_line g c (some ctx) u = parse_status g c ctx (c.temp (length u.buffer)) u
