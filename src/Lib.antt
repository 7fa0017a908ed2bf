-- ===== src/Lib.antt =====
-- vsHttpServer, an HTTP server for static files: event threads accept connections and read them, a
-- pool of worker threads parses the requests and answers them.
--
-- How the parts interact. TcpEventServer (tcpeventserver.cpp) hands the bytes of a connection to its
-- Conn, which is a CJob (job.cpp), and the CJob to the pool of workers (`CThreadPool::Run`,
-- threadpool.cpp). A worker calls `CJob::process`: `process_read` parses what is in the read buffer,
-- and may ask for more; `process_write` puts the response into the write buffer; `write` hands it over
-- with the mapped file.
--
-- Which file models which part.
-- Prelude: lists and numbers that the components share, and `Outcome`, a computation that
--   returns, makes a bad memory access (`fault`), or runs out of fuel (`spent`).
-- CString: the functions of the C library that job.cpp calls, as they are documented, over the bytes
--   from an address to the end of the buffer. Each of them faults where it reads past that end.
-- Locks: CSemaphore, CCondition and CThreadMutex (threadlock.h) over the answers of pthread, with counts
--   of what it has initialised and locked.
-- Job.State: the members of CJob (job.h) and `init`. A pointer into the read buffer is an offset. A member
--   that nothing sets has the value of the memory of the object; `m_iv_count` may have none there.
-- Job.Line, Job.RequestLine, Job.Headers: `parse_line`, `parse_request_line`, `parse_headers` and
--   `parse_content` (job.cpp), one function for each, with a helper for a branch. A loop over
--   the buffer is recursion over the bytes that are left.
-- Job.Reader: `do_request` and `process_read`. `stat`, `open` and `mmap` are a record of functions,
--   the parameter `fs`. The loop has fuel for 2 * READ_BUFFER_SIZE + 2 rounds; a line takes a byte at
--   least, and it is proved that the fuel is enough.
--   Job.Reader.Complete and Job.Reader.Request follow a printed request through that loop.
-- Job.Response, Job.Writer: `add_response` and its callers, `process_write`, `unmap` and `write`. The
--   bytes that go to the connection are a result, also those that are handed over before a bad access.
-- Job.Process: `close_conn` and `process`, the turn of a worker on a connection. `close_conn` deletes
--   the connection and then reads it.
-- Pool.State, Pool.Moves: the members of CThreadPool and the operations on its three lists
--   (threadpool.cpp). A thread is a number. `unsigned int` wraps at 2 ^ 32, `size_t` at 2 ^ 64. Whether
--   `pthread_create` succeeds is the parameter `starts`; where it fails, the id of the thread is deleted,
--   and reading it is a fault.
-- Pool.Dispatch: `CThreadPool::Run`, `CWorkerThread::SetJob` and the two halves of a round of
--   `CWorkerThread::Run`. Where a call waits is a result.
-- Pool.Dispatch.Threads: event threads in `CThreadPool::Run` and workers in `CWorkerThread::Run`,
--   interleaved as a step relation. A step goes from one access of shared state to the next; an
--   operation on the lists is one step. Pool.Dispatch.Threads.Owned, Serial and Stuck hold the invariants.
-- Pool.Thread: CThread, whose `pthread_t` may be deleted, and `CThreadPool::TerminateAll`.
-- Mysql.State: CManagePool and the singleton CMysqlPool (mysqlpool.cpp). A node is a number; what the
--   database answers is a parameter. `m_GetConnMutex` is a member, since a call may end with it locked.
-- Mysql.Trace: sequences of calls on one pool.
-- Mysql.Instance: the calls of CMysqlPool behind `Init`.
-- Mysql.Sql: `MysqlCPP::Mysql_HandleSQL` (mysql_cpp.cpp) with its table of results.
-- Conn.State: Conn and ConnQueue (http_conn.h, http_conn.cpp) on a heap of objects. An address is a
--   number that is used once; a use of a deleted object is a fault. `~ConnQueue()` has fuel for its
--   loop, of which two rounds more than there are connections are enough. Conn.Chain, Conn.Pointers and Conn.Links state
--   what it means that the list is well formed; Conn.Trace holds the abstract queue and sequences of calls.
-- Server.State: TcpEventServer and CThreadManage with their pools and queues, and how the constructor sets
--   them up (tcpeventserver.cpp, threadmanage.cpp). What libevent answers is an argument.
-- Server.Callbacks: `ListenerEventCb`, `ThreadProcess`, `ReadEventCb`, `CloseEventCb`, with the end of
--   `InsertConn`, `StopRun` and the table of signal events. A callback runs as a whole.
--   Server.Callbacks.Request and Server.Callbacks.Reply follow one request from the callback to the reply.
-- Server.Stop: the destructors of TcpEventServer and CThreadManage, with the members of one CThreadManage.
-- Server.Run: `StartRun` and the timers.
-- Server.Invariant: what holds of the event threads, their queues and their pool between two callbacks.
-- Upstream: `mytest_upstream_process_header` of the nginx module (nginx_upstream), which takes over the
--   headers that the server answers with. What nginx does is a record of functions; the lines that
--   its parser finds are an argument.
-- Upstream.Status: `mytest_process_status_line`, which takes over the status and goes on to the headers.
-- Upstream.Setup: `create_loc_conf`, `merge_loc_conf`, the handler and `mytest_upstream_create_request`.
--   Upstream.Query puts the bytes of that request before the server.
--
-- Not modelled: the destructor of CWorkerThread, which nothing calls, main.cpp, which starts the server, and
-- `finalize_request` of the nginx module, which writes to the log. Outside
-- Pool.Dispatch.Threads the operations of a component run one at a time, as they do under its mutex.
pub mod Prelude
pub mod CString
pub mod Locks
pub mod Job
pub mod Pool
pub mod Mysql
pub mod Conn
pub mod Server
pub mod Upstream
