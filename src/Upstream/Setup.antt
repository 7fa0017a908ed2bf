-- ===== src/Upstream/Setup.antt =====
-- The set-up of the nginx module: its configuration, `ngx_http_mytest_handler` and
-- `mytest_upstream_create_request`.
pub mod Laws
use vs_http_server.Prelude.{
  ℕ, ◌+◌, ◌*◌, Bool, true, false, ◌||◌, Option, none, some, List, [], ◌∷◌, ◌++◌, length, take,
  if◌then◌else◌, Outcome, ret, fault, ◌>>=◌,
}
use vs_http_server.CString.{Bytes, codes}
use vs_http_server.Upstream.{Rc, ok, failed, store_at}
use vs_http_server.Upstream.Status.{Context}

-- The members of `ngx_http_upstream_conf_t` that the module sets; the times are in milliseconds.
-- `NGX_CONF_UNSET_PTR` is `none`.
pub record LocConf : Type 0 where
  pub connect_timeout : ℕ
  pub send_timeout : ℕ
  pub read_timeout : ℕ
  pub store_access : ℕ
  pub buffering : Bool
  pub bufs_num : ℕ
  pub bufs_size : ℕ
  pub buffer_size : ℕ
  pub busy_buffers_size : ℕ
  pub temp_file_write_size : ℕ
  pub max_temp_file_size : ℕ
  pub hide_headers : Option (List Bytes)
  pub pass_headers : Option (List Bytes)

-- `ngx_http_mytest_create_loc_conf`, with the success of `ngx_pcalloc` and `ngx_pagesize`. (0600 is octal.)
unfoldable pub create_loc_conf : Bool → ℕ → Option LocConf
create_loc_conf false pagesize = none
create_loc_conf true pagesize = some (record {
  connect_timeout = 60000;
  send_timeout = 60000;
  read_timeout = 60000;
  store_access = 384;
  buffering = false;
  bufs_num = 8;
  bufs_size = pagesize;
  buffer_size = pagesize;
  busy_buffers_size = 2 * pagesize;
  temp_file_write_size = 2 * pagesize;
  max_temp_file_size = 1024 * 1024 * 1024;
  hide_headers = none;
  pass_headers = none;
})

-- `ngx_http_proxy_hide_headers`.
abbrev pub proxy_hide_headers : List Bytes
proxy_hide_headers =
    codes "Date"
    ∷ codes "Server"
    ∷ codes "X-Pad"
    ∷ codes "X-Accel-Expires"
    ∷ codes "X-Accel-Redirect"
    ∷ codes "X-Accel-Limit-Rate"
    ∷ codes "X-Accel-Buffering"
    ∷ codes "X-Accel-Charset"
    ∷ []

-- `ngx_http_mytest_merge_loc_conf`. The argument is `ngx_http_upstream_hide_headers_hash`, with the
-- names to hide and the sizes of the table; `none` is its failure.
unfoldable pub merge_loc_conf :
    (LocConf → LocConf → List Bytes → ℕ → ℕ → Option LocConf) → LocConf → LocConf → Option LocConf
merge_loc_conf hide_headers_hash prev conf = hide_headers_hash conf prev proxy_hide_headers 100 1024

-- `backendQueryLine`.
abbrev pub query_line : Bytes
query_line = codes "GET /index.html HTTP/1.1\r\nConnection: close\r\n\r\n"

-- The request: the bytes of its one buffer for the upstream, if it has any, and the members that
-- `mytest_upstream_create_request` resets.
pub record UpstreamRequest : Type 0 where
  pub request_bufs : Option Bytes
  pub request_sent : Bool
  pub header_sent : Bool
  pub header_hash : ℕ

-- The part behind `ngx_create_temp_buf`, with its answer.
unfoldable pub fill_request : Bool → Option Bytes → UpstreamRequest → Outcome (Rc × UpstreamRequest)
unfolding store_at
fill_request link none r = ret (failed, r)
fill_request link (some mem) r = do
  block ← store_at mem 0 query_line
  if link
      then ret (
        ok,
        record {
          request_bufs = some (take (length query_line) block);
          request_sent = false;
          header_sent = false;
          header_hash = 1;
        },
      )
      else ret (failed, record r { request_bufs = none })

-- `mytest_upstream_create_request`, with the memory that `ngx_create_temp_buf` gives for a size, and
-- the success of `ngx_alloc_chain_link`.
unfoldable pub create_request :
    (ℕ → Option Bytes) → Bool → UpstreamRequest → Outcome (Rc × UpstreamRequest)
unfolding fill_request
create_request create_temp_buf link r = fill_request link (create_temp_buf (length query_line)) r

-- What the handler uses of nginx and the C library: the memory of a context, which nothing clears;
-- whether an upstream and `u->resolved` can be made; the addresses of the host, and their text.
pub record HandlerCalls : Type 0 where
  pub palloc_context : Option Context
  pub upstream_create : Bool
  pub pcalloc_resolved : Bool
  pub gethostbyname : Bytes → Option (List ℕ)
  pub inet_ntoa : ℕ → Bytes
  pub inet_addr : Bytes → ℕ

-- `ngx_http_upstream_resolved_t` with its `sockaddr_in`; the port as a number.
pub record Resolved : Type 0 where
  pub port : ℕ
  pub addr : ℕ
  pub naddrs : ℕ

-- The request before and behind the handler: `count` is `r->main->count`, `inits` counts the calls of
-- `ngx_http_upstream_init`, `callbacks` tells whether the three functions of the upstream are set.
pub record HandlerState : Type 0 where
  pub context : Option Context
  pub created : Bool
  pub buffering : Bool
  pub resolved : Option Resolved
  pub callbacks : Bool
  pub count : ℕ
  pub inits : ℕ

-- `NGX_ERROR` or `NGX_DONE`.
pub data HandlerRc : Type 0 where
  handler_error handler_done : HandlerRc

-- The part behind `gethostbyname`, with its answer. It writes through `u->resolved`.
unfoldable pub resolve_backend :
    HandlerCalls → Context → Option (List ℕ) → HandlerState → Outcome (HandlerRc × HandlerState)
resolve_backend c ctx none s = ret (handler_error, s)
resolve_backend c ctx (some []) s = fault
resolve_backend c ctx (some (first ∷ _)) s =
    let ip = c.inet_ntoa first in
    elim s.resolved [
      | none ↦ fault
      | some _ ↦ ret (
        handler_done,
        record s {
          context = some (record ctx { backend_server = ip });
          resolved = some (record { port = 12345; addr = c.inet_addr ip; naddrs = 1 });
          callbacks = true;
          count = s.count + 1;
          inits = s.inits + 1;
        },
      )
    ]

-- `u->resolved = ngx_pcalloc(…)`.
abbrev pub new_resolved : Bool → Option Resolved
new_resolved true = some (record { port = 0; addr = 0; naddrs = 0 })
new_resolved false = none

-- The part behind `ngx_http_upstream_create`, which writes through `r->upstream`.
unfoldable pub fill_upstream :
    HandlerCalls → LocConf → Context → HandlerState → Outcome (HandlerRc × HandlerState)
unfolding resolve_backend
fill_upstream c conf ctx s =
    let t : HandlerState = record s {
      buffering = conf.buffering;
      resolved = new_resolved c.pcalloc_resolved;
    } in
    let rest =
      (if c.pcalloc_resolved
        then resolve_backend c ctx (c.gethostbyname (codes "localhost")) t
        else ret (handler_error, t)) in
    if s.created then rest else fault

-- The part behind the context. `conf` is the configuration of the location. Where
-- `ngx_http_upstream_create` fails, it leaves `r->upstream`.
unfoldable pub make_upstream :
    HandlerCalls → LocConf → Context → HandlerState → Outcome (HandlerRc × HandlerState)
unfolding fill_upstream
make_upstream c conf ctx s =
    let t : HandlerState = record s { created = c.upstream_create || s.created } in
    if c.upstream_create then fill_upstream c conf ctx t else ret (handler_error, t)

-- The part behind the look for a context, with what is found, or with new memory for it.
unfoldable pub with_context :
    HandlerCalls → LocConf → Option Context → HandlerState → Outcome (HandlerRc × HandlerState)
unfolding make_upstream
with_context c conf none s = ret (handler_error, s)
with_context c conf (some ctx) s = make_upstream c conf ctx (record s { context = some ctx })

abbrev pub or_else : Option Context → Option Context → Option Context
or_else (some ctx) other = some ctx
or_else none other = other

-- `ngx_http_mytest_handler`.
unfoldable pub handler : HandlerCalls → LocConf → HandlerState → Outcome (HandlerRc × HandlerState)
unfolding with_context
handler c conf s = with_context c conf (or_else s.context c.palloc_context) s
