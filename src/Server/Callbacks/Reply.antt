-- ===== src/Server/Callbacks/Reply.antt =====
-- From the bytes of a request to the bytes of its response.
use vs_http_server.Prelude.{
  ◌<◌, ◌≡◌, ◌≢◌, refl, ap, sym, ◌∙◌, arith, true, false, ◌||◌, some, List, [], ◌++◌, length, pos,
  ret, none, ℤ, Returns, Returns-inv, take,
}
use vs_http_server.CString.{Bytes, string_at, to_int}
use vs_http_server.CString.Words.{IsWord}
use vs_http_server.Job.State.{
  Job, Method, HttpCode, FileStat, construct, null, mapped, read_buffer_size, no_resource,
  forbidden_request, bad_request, file_request,
}
use vs_http_server.Job.Headers.{is_get, is_head}
use vs_http_server.Job.Reader.{FileSystem, doc_root, is_readable, is_dir, process_read}
use vs_http_server.Job.Reader.Path.{Verdict}
use vs_http_server.Job.Reader.Complete.{AllHeaders, Answered}
use vs_http_server.Job.Reader.Request.{request_text}
use vs_http_server.Job.RequestLine.Print.{url_text}
use vs_http_server.Job.Writer.{ok_200_title, Sending, before}
use vs_http_server.Job.Writer.Laws.{head_text}
use vs_http_server.Job.Process.{process}
use vs_http_server.Job.Process.Laws.{process-Sent}
use vs_http_server.Server.Callbacks.{read_job}
use vs_http_server.Server.Callbacks.Reading.{first_read, read_job-construct, read_job-first}
use vs_http_server.Server.Callbacks.Request.{first_read-Answered}

-- A file that can be sent: others may read it, it is no directory, and it has a byte at least.
pub record IsPage (fs : FileSystem) (path : Bytes) (st : FileStat) (content : Bytes) : Type 0 where
  pub found : fs.stat path ≡ some st
  pub readable : is_readable st.st_mode ≡ true
  pub regular : is_dir st.st_mode ≡ false
  pub nonempty : st.st_size ≢ 0
  pub bytes : Bytes
  pub maps : fs.mmap st.st_size (fs.open_file path) ≡ mapped bytes
  pub text : string_at bytes ≡ ret content

Verdict-page :
    (fs : FileSystem) (path : Bytes) (st : FileStat) (content : Bytes)
    (page : IsPage fs path st content) (code : HttpCode) (k : Job)
    → Verdict fs path code k
    → (code ≡ file_request) × (k.file_stat ≡ st) × (k.file_address ≡ mapped page.bytes)
Verdict-page fs path st content page no_resource k v = absurd (ground (arith, page.found))
Verdict-page fs path st content page forbidden_request k (found, denied) =
    let same : k.file_stat ≡ st = ground (arith, page.found) in
    absurd (ground (arith, page.readable, ap (λ (s : FileStat). is_readable s.st_mode) same))
Verdict-page fs path st content page bad_request k (found, allowed, dir) =
    let same : k.file_stat ≡ st = ground (arith, page.found) in
    absurd (ground (arith, page.regular, ap (λ (s : FileStat). is_dir s.st_mode) same))
Verdict-page fs path st content page file_request k (found, allowed, regular, address) =
    let same : k.file_stat ≡ st = ground (arith, page.found) in
    (
      refl,
      same,
      address ∙ ap (λ (s : FileStat). fs.mmap s.st_size (fs.open_file path)) same ∙ page.maps,
    )
Verdict-page fs path st content page _ k v = absurd v

-- A run of `process` in the state `j` hands over a page: the parser answers for the file, and the head
-- of the page, with the header for the `m_linger` that the parser leaves, comes before the bytes of the
-- file; the run ends, and no file is mapped.
abbrev pub Replied : FileSystem → Job → FileStat → Bytes → Sending Job → Type 0
Replied fs j st content s =
    (k : Job) × (l : Job) × (process_read fs j ≡ ret (file_request, k))
    × (s ≡ (head_text 200 ok_200_title (to_int (pos st.st_size)) k.linger ++ content, ret l))
    × (l.file_address ≡ null)

first_read-Replied :
    (fs : FileSystem) (fd n : ℤ) (memory : Job) (input path : Bytes) (st : FileStat)
    (content : Bytes)
    → memory.file_address ≡ null
    → memory.iv_count ≡ some n
    → length input < read_buffer_size
    → IsPage fs (doc_root ++ take 178 (url_text path)) st content
    → Returns (Answered fs memory.iv_count path) (process_read fs (first_read input memory))
    → Replied fs (first_read input memory) st content (process fs fd (first_read input memory))
first_read-Replied fs fd n memory input path st content unmapped counted short page answers =
    let j = first_read input memory in
    let (r, e, (k, served, count)) =
      Returns-inv (Answered fs memory.iv_count path) (process_read fs j) answers in
    let (code, stat, address) = Verdict-page fs _ st content page r.0 r.1 served.verdict in
    let (_, ready) = read_job-first memory input unmapped short in
    let run : process_read fs j ≡ ret (file_request, r.1) = e ∙ ap (λ c. ret (c, r.1)) code in
    let size : r.1.file_stat.st_size ≢ 0 =
      λ z. page.nonempty (ap (λ (s : FileStat). s.st_size) (sym stat) ∙ z) in
    let some_count : r.1.iv_count ≢ none = λ z. cc (z, count, counted) in
    let (l, sent, gone) =
      process-Sent fs fd j r.1 page.bytes content ready run size some_count address page.text in
    let whole : Bytes → Sending Job = λ b. (b, ret l) in
    (
      r.1,
      l,
      run,
      sent
          ∙ ap
              (λ (x : FileStat).
                whole (head_text 200 ok_200_title (to_int (pos x.st_size)) r.1.linger ++ content))
              stat,
      gone,
    )

-- For a client that sends a whole GET or HEAD request in one piece on a new connection, the turn of the
-- worker ends with no bad access and hands over the page: the head with the length of the file and the header for the
-- `m_linger` that the parser leaves, and then the bytes of the mapped file up to its first NUL; and
-- the mapping is gone. The conditions: the memory of the object has NULL for `m_file_address` and some value
-- for `m_iv_count`, which the constructor does not set; the URL is a slash and a word, the headers are
-- lines that do not begin with a NUL, and the request is shorter than the buffer; the file at the
-- document root and the first 178 bytes of the URL can be read by others, is no directory, is not
-- empty, and is mapped.
pub process-request :
    (fs : FileSystem) (fd n : ℤ) (memory : Job) (m : Method) (path : Bytes) (hs : List Bytes)
    (st : FileStat) (content : Bytes)
    → memory.file_address ≡ null
    → memory.iv_count ≡ some n
    → (is_get m || is_head m) ≡ true
    → IsWord path
    → AllHeaders hs
    → length (request_text m path hs []) < read_buffer_size
    → IsPage fs (doc_root ++ take 178 (url_text path)) st content
    → Replied fs
        (first_read (request_text m path hs []) memory)
        st
        content
        (before (read_job (request_text m path hs []) (construct memory)) (process fs fd))
process-request fs fd n memory m path hs st content unmapped counted g w all short page =
    let input = request_text m path hs [] in
    rw (read_job-construct memory input short) (
      first_read-Replied fs fd n memory input path st content unmapped counted short page
        (first_read-Answered fs memory m path hs g w all short))
