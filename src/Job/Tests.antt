-- ===== src/Job/Tests.antt =====
-- Runs of CJob on concrete requests.
use vs_http_server.Prelude.{
  ◌≡◌, ◌∷◌, refl, Option, none, some, replicate, write_at, length, ret, true, pos, fault, [], ◌++◌,
  Outcome, Returns, Allows, drop, arith,
}
use vs_http_server.CString.{
  Bytes, codes, strpbrk, strcasecmp_eq, strspn, strncasecmp_eq, strncpy, string_at, atol, to_int,
}
use vs_http_server.Job.State.{
  Job, null, mapped, no_resource, construct, init, no_request, file_request, bad_request, HttpCode,
  get_request, check_state_header, Method, load, store,
}
use vs_http_server.Job.Line.{parse_line}
use vs_http_server.Job.Line.Laws.{Reads, parse_line-LineRead}
use vs_http_server.Job.RequestLine.{parse_request_line}
use vs_http_server.Job.RequestLine.Print.{
  print_line, cut_line, accepted, parse_request_line-print_line,
}
use vs_http_server.Job.Headers.{parse_headers, parse_content}
use vs_http_server.Job.Headers.Laws.{BodyFault, ContentRead, parse_content-ContentRead}
use vs_http_server.Job.Reader.{FileSystem, process_read, do_request, doc_root, doc_root_len}
use vs_http_server.Job.Reader.Path.{Served, do_request-Served}
use vs_http_server.Job.Reader.Ready.{IsReady, BadBody, Answer}
use vs_http_server.Job.Reader.Laws.{process_read-Answer}
use vs_http_server.Job.Response.Laws.{Written}
use vs_http_server.Job.Writer.{ok_200_title, before, process_write, write}
use vs_http_server.Job.Writer.Laws.{head_text, Response, process_write-Response}
use vs_http_server.Job.Writer.Sent.{is_404, error_text, error_page-fault}
use vs_http_server.Job.Process.{process}
use vs_http_server.Job.Process.Laws.{process-fault, process-Sent}
use vs_http_server.CString.Laws.{has_nul}

doc_root-length : length doc_root ≡ doc_root_len
doc_root-length = refl

abbrev index : Bytes
index = codes "hello"

-- Every path names a readable file that holds `index`.
abbrev pub one_file : FileSystem
one_file = record {
  stat = λ path. some (record { st_mode = 33188; st_size = 5 });
  open_file = λ path. some 3;
  mmap = λ size fd. mapped (write_at (replicate 4096 0) 0 index);
}

abbrev pub memory : Job
memory = record {
  job_no = 7;
  job_name = none;
  work_thread = none;
  read_buf = [];
  read_idx = 9;
  checked_idx = 9;
  start_line = 9;
  write_buf = [];
  write_idx = 9;
  check_state = check_state_header;
  method = Method.post;
  request = bad_request;
  real_file = [];
  url = none;
  version = none;
  host = none;
  content_length = pos 0;
  linger = true;
  iv_count = some (pos 0);
  file_address = null;
  file_stat = record { st_mode = 0; st_size = 0 };
}

-- A new connection that has read these bytes.
with_input : Bytes → Job
unfolding construct init
with_input input =
    let j = construct memory in
    record j { read_buf = write_at j.read_buf 0 input; read_idx = length input }

answer_of : Outcome (HttpCode × Job) → Option HttpCode
answer_of (ret (code, j)) = some code
answer_of _ = none

simple_get :
    answer_of (process_read one_file (with_input (codes "GET /a HTTP/1.1\r\nHost: x\r\n\r\n")))
    ≡ some file_request
unfolding answer_of process_read with_input parse_line parse_request_line parse_headers
    parse_content load store strpbrk strcasecmp_eq strspn strncasecmp_eq strncpy string_at
simple_get = refl

partial_get :
    answer_of (process_read one_file (with_input (codes "GET /a HTTP/1.1\r\nHost: x\r\n")))
    ≡ some no_request
unfolding answer_of process_read with_input parse_line parse_request_line parse_headers
    parse_content load store strpbrk strcasecmp_eq strspn strncasecmp_eq string_at
partial_get = refl

bad_length :
    process_read one_file (with_input (codes "POST /a HTTP/1.1\r\nContent-Length: -100\r\n\r\n"))
    ≡ fault
unfolding process_read with_input parse_line parse_request_line parse_headers parse_content load
    store strpbrk strcasecmp_eq strspn strncasecmp_eq atol to_int string_at
bad_length = refl

-- A state of the parser that a theorem applies to.
abbrev get_line : Bytes
get_line = codes "GET /a HTTP/1.1\r\n\r\n"

abbrev started : Job
unfolding with_input construct init
started = with_input get_line

started-Written : Written [] started
unfolding with_input construct init
started-Written = record { size = refl; index = refl; holds = (replicate 1023 0, refl) }

started-IsReady : IsReady started
unfolding with_input construct init
started-IsReady = record {
  buffered = record {
    size = refl;
    read_le = omega arith;
    checked_le = omega arith;
    start_le = omega arith;
  };
  url_ends = tt;
  path_ends = refl;
  blank = (started-Written, refl);
}

process_read-Answer_example :
    Allows (BadBody one_file started) (Answer one_file started) (process_read one_file started)
process_read-Answer_example = process_read-Answer one_file started started-IsReady

parse_line-LineRead_example : Returns (Reads started) (parse_line started)
parse_line-LineRead_example = parse_line-LineRead started started-IsReady.buffered

started-has_nul : has_nul (drop 0 started.read_buf) ≡ true
unfolding with_input construct init
started-has_nul = refl

parse_content-ContentRead_example :
    Allows (BodyFault 0 started) (ContentRead 0 started) (parse_content 0 started)
parse_content-ContentRead_example = parse_content-ContentRead 0 started

abbrev named : Job
unfolding with_input construct init
named = record (with_input (codes "/a")) { url = some 0 }

do_request-Served_example : Returns (Served one_file (codes "/a") named) (do_request one_file named)
unfolding with_input construct init string_at
do_request-Served_example = do_request-Served one_file named (codes "/a") refl refl

process_write-Response_example :
    Returns (Response no_resource started) (process_write no_resource started)
process_write-Response_example =
    process_write-Response no_resource started started-Written (λ e. cc)

unmapped-started : started.file_address ≡ null
unfolding with_input construct init
unmapped-started = refl

error_page-fault_example :
    before (process_write no_resource started) (λ r. write r.1)
    ≡ (error_text no_resource started.linger, fault)
error_page-fault_example =
    error_page-fault no_resource started is_404 started-Written unmapped-started

abbrev page : Bytes
page = write_at (replicate 4096 0) 0 index

abbrev served : Job
unfolding with_input construct init
served = record (with_input get_line) {
  file_address = mapped page;
  file_stat = record { st_mode = 33188; st_size = 5 };
}

state_of : Outcome (HttpCode × Job) → Job
state_of (ret (code, k)) = k
state_of _ = memory

-- The states behind a request that is refused, and behind one for a file.
abbrev garbled : Job
unfolding with_input construct init
garbled = with_input (codes "GET\r\n")

abbrev refused_job : Job
unfolding state_of with_input construct init
refused_job = state_of (process_read one_file garbled)

abbrev served_job : Job
unfolding state_of with_input construct init
served_job = state_of (process_read one_file started)

garbled-IsReady : IsReady garbled
unfolding with_input construct init
garbled-IsReady = record {
  buffered = record {
    size = refl;
    read_le = omega arith;
    checked_le = omega arith;
    start_le = omega arith;
  };
  url_ends = tt;
  path_ends = refl;
  blank = (record { size = refl; index = refl; holds = (replicate 1023 0, refl) }, refl);
}

process-fault_example :
    process one_file (pos 4) garbled ≡ (error_text bad_request refused_job.linger, fault)
unfolding state_of process_read with_input parse_line parse_request_line parse_headers parse_content
    load store strpbrk strcasecmp_eq strspn strncasecmp_eq strncpy string_at
process-fault_example =
    process-fault one_file (pos 4) garbled refused_job bad_request garbled-IsReady refl (λ e. cc)
      (λ e. cc)

process-Sent_example :
    (l : Job) × (process one_file (pos 4) started ≡ (
      head_text 200 ok_200_title (to_int (pos served_job.file_stat.st_size)) served_job.linger
          ++ index,
      ret l,
    ))
    × (l.file_address ≡ null)
unfolding state_of process_read with_input parse_line parse_request_line parse_headers parse_content
    load store strpbrk strcasecmp_eq strspn strncasecmp_eq strncpy string_at
process-Sent_example =
    process-Sent one_file (pos 4) started served_job page index started-IsReady refl
      (λ e. omega (arith, e)) (λ e. cc) refl refl

-- `GET /index.html HTTP/1.1`, behind four other bytes.
abbrev printed : Job
printed = record memory {
  read_buf = codes "more" ++ print_line Method.get (codes "index.html") (10 ∷ 0 ∷ []);
}

parse_request_line-print_line_example :
    parse_request_line 4 printed
    ≡ ret (
      get_request,
      accepted Method.get
          (codes "index.html")
          4
          (codes "more" ++ cut_line Method.get (codes "index.html") (10 ∷ 0 ∷ []))
          printed,
    )
parse_request_line-print_line_example =
    parse_request_line-print_line Method.get (codes "index.html") (codes "more") (10 ∷ 0 ∷ [])
      printed (omega arith) refl
