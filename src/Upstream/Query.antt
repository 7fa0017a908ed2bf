-- ===== src/Upstream/Query.antt =====
-- The request of the nginx module, at the server.
use vs_http_server.Prelude.{
  ℕ, ◌≡◌, refl, Bool, true, false, Option, none, some, [], ◌∷◌, arith, length, ◌⊎◌, inl, inr, ◌>>=◌,
  Returns,
}
use vs_http_server.CString.{Bytes, codes}
use vs_http_server.Job.State.{Job, Method, construct}
use vs_http_server.Job.Reader.{FileSystem, process_read}
use vs_http_server.Job.Reader.Complete.{Answered}
use vs_http_server.Job.Reader.Request.{request_text}
use vs_http_server.Server.Callbacks.{read_job}
use vs_http_server.Server.Callbacks.Request.{read_job-request}
use vs_http_server.Upstream.{Rc, ok, failed}
use vs_http_server.Upstream.Status.Laws.{store_at-all}
use vs_http_server.Upstream.Setup.{query_line, UpstreamRequest, fill_request, create_request}

query_line-request :
    query_line ≡ request_text Method.get (codes "index.html") (codes "Connection: close" ∷ []) []
query_line-request = refl

query_line-Answered :
    (fs : FileSystem) (memory : Job)
    → Returns
        (Answered fs memory.iv_count (codes "index.html"))
        (read_job query_line (construct memory) >>= process_read fs)
query_line-Answered fs memory =
    read_job-request fs memory Method.get (codes "index.html") (codes "Connection: close" ∷ []) refl
      (omega arith) (omega arith) (omega arith)

-- A request that is made has one buffer, and the server answers the bytes in it.
abbrev pub Queries : FileSystem → Job → UpstreamRequest → Rc × UpstreamRequest → Type 0
Queries fs memory r s =
    (s.0 ≡ failed) × (s.1.header_hash ≡ r.header_hash)
    ⊎ (s.0 ≡ ok)
      × (s.1.request_sent ≡ false)
      × (s.1.header_sent ≡ false)
      × ((bytes : Bytes) × (s.1.request_bufs ≡ some bytes)
          × Returns (Answered fs memory.iv_count (codes "index.html"))
              (read_job bytes (construct memory) >>= process_read fs))

fill_request-Queries :
    (fs : FileSystem) (memory : Job) (link : Bool) (o : Option Bytes) (r : UpstreamRequest)
    → ((mem : Bytes) → o ≡ some mem → length mem ≡ length query_line)
    → Returns (Queries fs memory r) (fill_request link o r)
unfolding fill_request
fill_request-Queries fs memory link none r h = inl (refl, refl)
fill_request-Queries fs memory true (some mem) r h =
    rw (store_at-all mem query_line (h mem refl))
      (inr (refl, refl, refl, (query_line, refl, query_line-Answered fs memory)))
fill_request-Queries fs memory false (some mem) r h =
    rw (store_at-all mem query_line (h mem refl)) (inl (refl, refl))

-- Where `ngx_create_temp_buf` gives blocks of the size that is asked for, the nginx module fails to
-- make its request, or the request has in its buffer bytes that the server, on a new connection
-- that gets them in one read, answers for `/index.html`, as `Answered` says.
pub create_request-Queries :
    (fs : FileSystem) (memory : Job) (create_temp_buf : ℕ → Option Bytes) (link : Bool)
    (r : UpstreamRequest)
    → ((n : ℕ) (mem : Bytes) → create_temp_buf n ≡ some mem → length mem ≡ n)
    → Returns (Queries fs memory r) (create_request create_temp_buf link r)
unfolding create_request
create_request-Queries fs memory create_temp_buf link r h =
    fill_request-Queries fs memory link (create_temp_buf (length query_line)) r
      (h (length query_line))
