-- ===== src/Server/Callbacks/Request.antt =====
-- A whole request that comes in one read, from the callback to the answer of the parser.
use mathlib.Core.List.{append_assoc}
use vs_http_server.Prelude.{
  ◌-◌, ◌<◌, ◌≡◌, refl, ap, ◌∙◌, true, ◌||◌, List, [], ◌∷◌, ◌++◌, length, ◌>>=◌, Returns,
}
use vs_http_server.CString.{Bytes}
use vs_http_server.CString.Words.{IsWord}
use vs_http_server.Job.State.{Job, Method, construct, init, read_buffer_size}
use vs_http_server.Job.Headers.{is_get, is_head}
use vs_http_server.Job.Reader.{FileSystem, process_read}
use vs_http_server.Job.Reader.Complete.{AllHeaders, header_text, Answered}
use vs_http_server.Job.Reader.Request.{request_line, request_text, process_read-request}
use vs_http_server.Server.Callbacks.{read_job}
use vs_http_server.Server.Callbacks.Reading.{zeros, first_read, read_job-construct}

header_text-append : (hs : List Bytes) (r : Bytes) → header_text hs [] ++ r ≡ header_text hs r
header_text-append [] r = refl
header_text-append (h ∷ hs) r =
    append_assoc h (b'\r' ∷ b'\n' ∷ header_text hs []) r
    ∙ ap (λ x. h ++ (b'\r' ∷ b'\n' ∷ x)) (header_text-append hs r)

pub request_text-append :
    (m : Method) (path : Bytes) (hs : List Bytes) (r : Bytes)
    → request_text m path hs [] ++ r ≡ request_text m path hs r
request_text-append m path hs r =
    append_assoc (request_line m path) (b'\r' ∷ b'\n' ∷ header_text hs []) r
    ∙ ap (λ x. request_line m path ++ (b'\r' ∷ b'\n' ∷ x)) (header_text-append hs r)

pub first_read-Answered :
    (fs : FileSystem) (memory : Job) (m : Method) (path : Bytes) (hs : List Bytes)
    → (is_get m || is_head m) ≡ true
    → IsWord path
    → AllHeaders hs
    → length (request_text m path hs []) < read_buffer_size
    → Returns
        (Answered fs memory.iv_count path)
        (process_read fs (first_read (request_text m path hs []) memory))
unfolding construct init
first_read-Answered fs memory m path hs g w all short =
    let input = request_text m path hs [] in
    process_read-request fs m path (zeros (read_buffer_size - length input)) hs
      (first_read input memory) g w all
      (request_text-append m path hs (zeros (read_buffer_size - length input))) refl refl refl refl
      short refl

-- On a new connection, one read of a whole GET or HEAD request that is shorter than the buffer, and
-- the parser behind it, end with no bad access in the answer for the file at the document root and the first
-- 178 bytes of the URL. The URL is a slash and a word; the headers are any lines that do
-- not begin with a NUL, each with CRLF behind it, and then comes an empty line. `m_iv_count` keeps its
-- value.
pub read_job-request :
    (fs : FileSystem) (memory : Job) (m : Method) (path : Bytes) (hs : List Bytes)
    → (is_get m || is_head m) ≡ true
    → IsWord path
    → AllHeaders hs
    → length (request_text m path hs []) < read_buffer_size
    → Returns
        (Answered fs memory.iv_count path)
        (read_job (request_text m path hs []) (construct memory) >>= process_read fs)
read_job-request fs memory m path hs g w all short =
    rw (read_job-construct memory (request_text m path hs []) short)
      (first_read-Answered fs memory m path hs g w all short)
