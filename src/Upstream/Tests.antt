-- ===== src/Upstream/Tests.antt =====
-- The theorems of the upstream at a concrete answer.
use vs_http_server.Prelude.{
  ℕ, ◌+◌, ◌*◌, ◌≡◌, refl, ap, sym, ◌∙◌, Option, true, false, none, some, [], ◌∷◌, arith, length,
  length-replicate, take, replicate, Returns, fault, inl,
}
use vs_http_server.CString.{Bytes, codes}
use vs_http_server.Upstream.{Line, HeadersIn, Nginx, header_done, fill_block}
use vs_http_server.Upstream.Block.{fill_block-name}
use vs_http_server.Upstream.Status.{
  Context, StatusCalls, status_ok, UpstreamState, log_temp, process_status_line,
}
use vs_http_server.Upstream.Status.Laws.{
  IsStatus, StatusRead, process_status_line-StatusRead, process_status_line-fault,
}
use vs_http_server.Upstream.Setup.{
  LocConf, create_loc_conf, HandlerCalls, HandlerState, handler, UpstreamRequest, create_request,
}
use vs_http_server.Upstream.Query.{Queries, create_request-Queries}
use vs_http_server.Job.Tests.{memory, one_file}
use vs_http_server.Upstream.Setup.Laws.{Handled, handler-Handled}
use vs_http_server.Upstream.Answer.{IsNginx}

-- There is always room, and no header has a handler.
abbrev nginx : Nginx
nginx = record {
  push = λ n. true;
  pnalloc = λ n size. some (replicate size 7);
  strlow = λ xs. xs;
  hash = λ n x. n * 31 + x;
  find = λ hash low. none;
}

abbrev age : Line
age = record {
  hash = 96511;
  name = codes "Age";
  value = codes "5";
  lowcase_index = 3;
  lowcase_header = replicate 32 97;
}

abbrev size_in : Option Bytes → ℕ
size_in none = 0
size_in (some mem) = length mem

nginx-IsNginx : IsNginx nginx
nginx-IsNginx = record {
  memory = λ n size mem e. sym (ap size_in e) ∙ length-replicate size 7;
  letters = λ xs. refl;
  keeps = λ hash low handler h u v e. cc;
}

abbrev empty_headers : HeadersIn
empty_headers = record { headers = []; server = false; date = true }

-- The name becomes "A", NUL, "e".
fill_block-name_example :
    Returns (λ b. take 3 b ≡ 65 ∷ (0 ∷ (101 ∷ []))) (fill_block nginx age (replicate 9 7))
fill_block-name_example =
    fill_block-name nginx age (replicate 9 7) refl (λ xs. refl) (omega arith) (omega arith)

-- The parser accepts any line with the code 404, and the log takes no debug messages.
abbrev calls : StatusCalls
calls = record {
  debug = false;
  asks_nothing = λ text. true;
  temp = λ n. some (replicate n 7);
  palloc = λ n. some (replicate n 7);
  parse_status_line =
      λ text status. (status_ok, record { code = 404; text = codes "404 Not Found" }, []);
  parse_header_lines = λ text. (age ∷ [], header_done, []);
}

calls-IsStatus : IsStatus calls
calls-IsStatus = record {
  temp_size = λ n mem e. sym (ap size_in e) ∙ length-replicate n 7;
  palloc_size = λ n mem e. sym (ap size_in e) ∙ length-replicate n 7;
  fits = λ xs. (omega arith, tt);
}

abbrev context : Context
context = record { status = record { code = 0; text = [] }; backend_server = [] }

abbrev upstream : UpstreamState
upstream = record {
  buffer = codes "HTTP/1.1 404 Not Found";
  state = some 0;
  http_version = none;
  status_n = 0;
  status_line_len = 0;
  status_line = none;
  in_headers = false;
  headers_in = empty_headers;
}

process_status_line-StatusRead_example :
    Returns
      (StatusRead calls (some context) upstream)
      (process_status_line nginx calls (some context) upstream)
unfolding log_temp
process_status_line-StatusRead_example =
    process_status_line-StatusRead nginx calls (some context) upstream nginx-IsNginx calls-IsStatus
      tt cc

-- The log takes debug messages.
abbrev verbose : StatusCalls
verbose = record calls { debug = true }

verbose-IsStatus : IsStatus verbose
verbose-IsStatus = record {
  temp_size = λ n mem e. sym (ap size_in e) ∙ length-replicate n 7;
  palloc_size = λ n mem e. sym (ap size_in e) ∙ length-replicate n 7;
  fits = λ xs. (omega arith, tt);
}

process_status_line-fault_example :
    process_status_line nginx verbose (some context) upstream ≡ fault
process_status_line-fault_example =
    process_status_line-fault nginx verbose context upstream (replicate 22 7) verbose-IsStatus refl
      (inl (refl, refl))

abbrev handler_calls : HandlerCalls
handler_calls = record {
  palloc_context = some context;
  upstream_create = true;
  pcalloc_resolved = true;
  gethostbyname = λ name. some (127 ∷ []);
  inet_ntoa = λ a. codes "127.0.0.1";
  inet_addr = λ text. 127;
}

abbrev first_request : HandlerState
first_request = record {
  context = none;
  created = false;
  buffering = true;
  resolved = none;
  callbacks = false;
  count = 1;
  inits = 0;
}

abbrev loc_conf : LocConf
loc_conf = record {
  connect_timeout = 60000;
  send_timeout = 60000;
  read_timeout = 60000;
  store_access = 384;
  buffering = false;
  bufs_num = 8;
  bufs_size = 4096;
  buffer_size = 4096;
  busy_buffers_size = 8192;
  temp_file_write_size = 8192;
  max_temp_file_size = 1073741824;
  hide_headers = none;
  pass_headers = none;
}

created_conf : create_loc_conf true 4096 ≡ some loc_conf
unfolding create_loc_conf
created_conf = refl

handler-Handled_example :
    Returns
      (Handled handler_calls loc_conf first_request)
      (handler handler_calls loc_conf first_request)
handler-Handled_example = handler-Handled handler_calls loc_conf first_request cc

-- Blocks of any size, with other bytes in them.
abbrev blocks : ℕ → Option Bytes
blocks n = some (replicate n 7)

abbrev before_query : UpstreamRequest
before_query = record {
  request_bufs = none;
  request_sent = true;
  header_sent = true;
  header_hash = 0;
}

create_request-Queries_example :
    Returns (Queries one_file memory before_query) (create_request blocks true before_query)
create_request-Queries_example =
    create_request-Queries one_file memory blocks true before_query
      (λ n mem e. sym (ap size_in e) ∙ length-replicate n 7)
