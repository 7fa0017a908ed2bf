-- ===== src/Job/Writer.antt =====
-- `CJob::process_write`, `CJob::unmap` and `CJob::write`.
pub mod Laws
pub mod Sent
use vs_http_server.Prelude.{
  ℕ, Bool, true, false, [], ◌++◌, ◌==◌, not, length, if◌then◌else◌, Outcome, ret, fault, spent,
  or_fault, ◌>>=◌, ℤ, pos,
}
use vs_http_server.CString.{Bytes, codes, to_int, string_at}
use vs_http_server.Job.State.{
  Job, HttpCode, internal_error, bad_request, no_resource, forbidden_request, file_request, Address,
  null, map_failed, mapped, init,
}
use vs_http_server.Job.Response.{add_status_line, add_headers, add_content}

abbrev pub ok_200_title : Bytes
ok_200_title = codes "OK"

abbrev pub error_400_title : Bytes
error_400_title = codes "Bad Request"

abbrev pub error_400_form : Bytes
error_400_form = codes "Your request has bad syntax or is inherently impossible to satisfy.\n"

abbrev pub error_403_title : Bytes
error_403_title = codes "Forbidden"

abbrev pub error_403_form : Bytes
error_403_form = codes "You do not have permission to get file from this server.\n"

abbrev pub error_404_title : Bytes
error_404_title = codes "Not Found"

abbrev pub error_404_form : Bytes
error_404_form = codes "The requested file was not found on this server.\n"

abbrev pub error_500_title : Bytes
error_500_title = codes "Internal Error"

abbrev pub error_500_form : Bytes
error_500_form = codes "There was an unusual problem serving the requested file.\n"

abbrev pub ok_string : Bytes
ok_string = codes "<html><body></body></html>"

-- The case of an error code. (`m_iv[0]`, which is set behind the `switch`, is never read.)
unfoldable pub error_page : ℕ → Bytes → Bytes → Job → Outcome (Bool × Job)
error_page status title form j = do
  (_, k) ← add_status_line status title j
  l ← add_headers (pos (length form)) k
  add_content form l

-- The case `FILE_REQUEST`. An empty file runs on into `default`. `evbuffer_commit_space` gets the
-- value of `m_iv_count`. (The two calls on the evbuffer hand over nothing: no space was reserved.)
unfoldable pub file_page : Job → Outcome (Bool × Job)
file_page j = do
  (_, k) ← add_status_line 200 ok_200_title j
  if not (k.file_stat.st_size == 0)
      then (do
        l ← add_headers (to_int (pos k.file_stat.st_size)) k
        _ ← or_fault l.iv_count
        ret (true, l))
      else (do
        l ← add_headers (pos (length ok_string)) k
        (_, m) ← add_content ok_string l
        ret (false, m))

unfoldable pub process_write : HttpCode → Job → Outcome (Bool × Job)
unfolding error_page file_page
process_write internal_error j = error_page 500 error_500_title error_500_form j
process_write bad_request j = error_page 400 error_400_title error_400_form j
process_write no_resource j = error_page 404 error_404_title error_404_form j
process_write forbidden_request j = error_page 403 error_403_title error_403_form j
process_write file_request j = file_page j
process_write _ j = ret (false, j)

unfoldable pub unmap : Job → Job
unmap j = elim j.file_address [ null ↦ j | _ ↦ record j { file_address = null } ]

-- The bytes that `bufferevent_write( …, p, strlen( p ) )` hands over for `m_file_address`.
unfoldable pub file_text : Address → Outcome Bytes
file_text null = fault
file_text map_failed = fault
file_text (mapped bytes) = string_at bytes

-- What a run has handed to the connection, and how it ends. What was handed over before a bad access
-- stays handed over.
abbrev pub Sending : Type 0 → Type 0
Sending A = Bytes × Outcome A

-- A call of `bufferevent_write` with a text, and what follows.
abbrev pub hand_over : {A : Type 0} → Outcome Bytes → Sending A → Sending A
hand_over (ret text) (sent, end) = (text ++ sent, end)
hand_over fault rest = ([], fault)
hand_over spent rest = ([], spent)

-- A run that hands nothing over, and what follows.
abbrev pub before : {A B : Type 0} → Outcome A → (A → Sending B) → Sending B
before (ret a) f = f a
before fault f = ([], fault)
before spent f = ([], spent)

-- The tests behind the two calls.
unfoldable pub end_write : Job → Bool × Job
unfolding unmap
end_write j = let k = unmap j in if k.linger then (true, init k) else (false, k)

-- `CJob::write()`, with its result and the new state.
unfoldable pub write : Job → Sending (Bool × Job)
unfolding file_text end_write
write j =
    hand_over (string_at j.write_buf) (hand_over (file_text j.file_address) ([], ret (end_write j)))
