-- ===== src/Job/Process.antt =====
-- `CJob::process` and `CJob::close_conn`: one turn of a worker on a connection.
pub mod Laws
use vs_http_server.Prelude.{zero, Bool, true, false, [], ℤ, pos, negsuc, Outcome, ret, fault, ◌>>=◌}
use vs_http_server.Job.State.{Job, HttpCode, no_request}
use vs_http_server.Job.Reader.{FileSystem, process_read}
use vs_http_server.Job.Writer.{Sending, before, process_write, write}

-- `close_conn()` on the connection with this `m_fd`. `CheckIfInBusyList` deletes the connection, and
-- the next call reads its `m_Bev`.
unfoldable pub close_conn : ℤ → Job → Outcome Job
close_conn (negsuc zero) j = ret j
close_conn fd j = fault

-- The part behind `process_write`, with `write_ret`, which both tests read.
unfoldable pub send_reply : ℤ → Bool → Job → Sending Job
unfolding close_conn
send_reply fd true j = let (sent, end) = write j in (sent, end >>= λ r. ret r.1)
send_reply fd false j =
    before (close_conn fd j)
      λ k. let (sent, end) = write k in (sent, end >>= λ r. close_conn fd r.1)

-- The part behind `process_read`.
unfoldable pub reply : ℤ → HttpCode → Job → Sending Job
unfolding send_reply
reply fd no_request j = ([], ret j)
reply fd code j = before (process_write code j) λ r. send_reply fd r.0 r.1

-- The bytes that go to the connection, and the new state.
unfoldable pub process : FileSystem → ℤ → Job → Sending Job
unfolding reply
process fs fd j = before (process_read fs j) λ r. reply fd r.0 r.1
