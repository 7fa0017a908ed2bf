-- ===== src/Job/Reader/Loop.antt =====
-- Single rounds of the loop of `process_read`.
use vs_http_server.Prelude.{ℕ, suc, ◌≡◌, refl, true, false, drop, ret, Returns-inv}
use vs_http_server.CString.{string_at}
use vs_http_server.CString.Laws.{has_nul}
use vs_http_server.CString.Copies.{string_at-Returns}
use vs_http_server.Job.State.{
  Job, HttpCode, check_state_header, check_state_requestline, LineStatus, line_ok, no_request,
}
use vs_http_server.Job.Line.{parse_line}
use vs_http_server.Job.RequestLine.{parse_request_line}
use vs_http_server.Job.Headers.{parse_headers}
use vs_http_server.Job.Reader.{
  FileSystem, do_request, answer, again, is_bad, is_complete, in_content, read_round, next_line,
  read_loop,
}

-- The line `text` of a connection, as the round gets it.
abbrev pub at_line : Job → Job
at_line k = record k { start_line = k.checked_idx }

-- A round that finds a line, and goes on.
pub read_loop-again :
    (fs : FileSystem) (fuel : ℕ) (status : LineStatus) (j k l : Job)
    → in_content j.check_state ≡ false
    → parse_line j ≡ ret (line_ok, k)
    → has_nul (drop k.start_line k.read_buf) ≡ true
    → read_round fs k.start_line k.check_state (at_line k) ≡ ret (again line_ok l)
    → read_loop fs (suc fuel) status j ≡ read_loop fs fuel line_ok l
unfolding read_loop next_line
read_loop-again fs fuel status j k l c p h r =
    let (s, e, _) =
      Returns-inv _ (string_at (drop k.start_line k.read_buf))
        (string_at-Returns (drop k.start_line k.read_buf) h) in
    rw (c, p, e, r) refl

pub read_round-request_line :
    (fs : FileSystem) (text : ℕ) (code : HttpCode) (j k : Job)
    → is_bad code ≡ false
    → parse_request_line text j ≡ ret (code, k)
    → read_round fs text check_state_requestline j ≡ ret (again line_ok k)
unfolding read_round
read_round-request_line fs text code j k b e = rw (e, b) refl

pub read_round-header :
    (fs : FileSystem) (text : ℕ) (j k : Job)
    → parse_headers text j ≡ ret (no_request, k)
    → read_round fs text check_state_header j ≡ ret (again line_ok k)
unfolding read_round
read_round-header fs text j k e = rw e refl

-- A round that finds a line, and returns.
pub read_loop-answer :
    (fs : FileSystem) (fuel : ℕ) (status : LineStatus) (code : HttpCode) (j k l : Job)
    → in_content j.check_state ≡ false
    → parse_line j ≡ ret (line_ok, k)
    → has_nul (drop k.start_line k.read_buf) ≡ true
    → read_round fs k.start_line k.check_state (at_line k) ≡ ret (answer code l)
    → read_loop fs (suc fuel) status j ≡ ret (code, l)
unfolding read_loop next_line
read_loop-answer fs fuel status code j k l c p h r =
    let (s, e, _) =
      Returns-inv _ (string_at (drop k.start_line k.read_buf))
        (string_at-Returns (drop k.start_line k.read_buf) h) in
    rw (c, p, e, r) refl

pub read_round-serves :
    (fs : FileSystem) (text : ℕ) (code result : HttpCode) (j k l : Job)
    → parse_headers text j ≡ ret (code, k)
    → is_bad code ≡ false
    → is_complete code ≡ true
    → do_request fs k ≡ ret (result, l)
    → read_round fs text check_state_header j ≡ ret (answer result l)
unfolding read_round
read_round-serves fs text code result j k l h b f d = rw (h, b, f, d) refl
