-- ===== src/Job/Process/Laws.antt =====
-- What a turn of a worker sends to the client.
use vs_http_server.Prelude.{
  ◌≡◌, ◌≢◌, refl, ap, ◌∙◌, subst, Bool, true, false, not, [], ◌++◌, ==_ne, ℤ, pos, ret, fault, none,
  Returns-inv, Allows,
}
use vs_http_server.CString.{Bytes, to_int, string_at}
use vs_http_server.Job.State.{
  Job, HttpCode, no_request, internal_error, bad_request, no_resource, forbidden_request,
  file_request, null, mapped,
}
use vs_http_server.Job.Reader.{FileSystem, process_read}
use vs_http_server.Job.Reader.Ready.{IsReady, IsBlank, BadBody, Answer}
use vs_http_server.Job.Reader.Laws.{process_read-Answer}
use vs_http_server.Job.Response.Laws.{Written}
use vs_http_server.Job.Writer.{ok_200_title, before, process_write, write}
use vs_http_server.Job.Writer.Laws.{head_text, Response, process_write-Response}
use vs_http_server.Job.Writer.Sent.{
  IsError, is_400, is_404, is_403, is_500, error_page-fault, error_text, IsError-HasCount,
  Response-error, file_page-sent,
}
use vs_http_server.Job.Process.{send_reply, reply, process}

-- An answer that a call of `process_read` returns is one that `Answer` allows.
Answer-of :
    (fs : FileSystem) (j : Job) (r : HttpCode × Job)
    → IsReady j
    → process_read fs j ≡ ret r
    → Answer fs j r
Answer-of fs j r v e = subst (Allows (BadBody fs j) (Answer fs j)) e (process_read-Answer fs j v)

Answer-IsError :
    (fs : FileSystem) (j : Job) (code : HttpCode) (k : Job)
    → Answer fs j (code, k)
    → code ≢ no_request
    → code ≢ file_request
    → IsError code × IsBlank k
Answer-IsError fs j no_request k a n f = absurd (n refl)
Answer-IsError fs j file_request k a n f = absurd (f refl)
Answer-IsError fs j bad_request k (b, w, x) n f = (is_400, w)
Answer-IsError fs j no_resource k (b, w, x) n f = (is_404, w)
Answer-IsError fs j forbidden_request k (b, w, x) n f = (is_403, w)
Answer-IsError fs j _ k (b, w, (l, at, (url, i, s))) n f = absurd s.verdict

-- A turn whose page is handed over, with a bad access behind it.
send_reply-true :
    (fd : ℤ) (text : Bytes) (r : Bool × Job)
    → r.0 ≡ true
    → write r.1 ≡ (text, fault)
    → send_reply fd r.0 r.1 ≡ (text, fault)
unfolding send_reply
send_reply-true fd text (true, k) e w = rw w refl
send_reply-true fd text (false, k) e w = cc

page-fault :
    (fd : ℤ) (code : HttpCode) (k : Job)
    → IsError code
    → IsBlank k
    → before (process_write code k) (λ r. send_reply fd r.0 r.1) ≡ (error_text code k.linger, fault)
page-fault fd code k x v =
    let (r, e, p) =
      Returns-inv (Response code k) (process_write code k)
        (process_write-Response code k v.0 (IsError-HasCount k x)) in
    let sent : write r.1 ≡ (error_text code k.linger, fault) =
      subst (λ m. before m (λ s. write s.1) ≡ (error_text code k.linger, fault)) e
        (error_page-fault code k x v.0 v.1) in
    rw e (send_reply-true fd (error_text code k.linger) r (Response-error k r x p).0 sent)

reply-fault :
    (fd : ℤ) (code : HttpCode) (k : Job)
    → IsError code
    → IsBlank k
    → reply fd code k ≡ (error_text code k.linger, fault)
unfolding reply
reply-fault fd code k is_400 v = page-fault fd bad_request k is_400 v
reply-fault fd code k is_404 v = page-fault fd no_resource k is_404 v
reply-fault fd code k is_403 v = page-fault fd forbidden_request k is_403 v
reply-fault fd code k is_500 v = page-fault fd internal_error k is_500 v

send_reply-ret :
    (fd : ℤ) (text : Bytes) (r : Bool × Job) (b : Bool) (l : Job)
    → r.0 ≡ true
    → write r.1 ≡ (text, ret (b, l))
    → send_reply fd r.0 r.1 ≡ (text, ret l)
unfolding send_reply
send_reply-ret fd text (true, k) b l e w = rw w refl
send_reply-ret fd text (false, k) b l e w = cc

-- On a connection that is ready, whatever its `m_fd` is, for a request that `process_read` refuses, or
-- whose file is missing, not readable or a directory, the whole page of the answer's code is handed to the
-- connection, and then the turn ends in a bad access.
pub process-fault :
    (fs : FileSystem) (fd : ℤ) (j k : Job) (code : HttpCode)
    → IsReady j
    → process_read fs j ≡ ret (code, k)
    → code ≢ no_request
    → code ≢ file_request
    → process fs fd j ≡ (error_text code k.linger, fault)
unfolding process
process-fault fs fd j k code v e n f =
    let (x, blank) = Answer-IsError fs j code k (Answer-of fs j (code, k) v e) n f in
    rw e (reply-fault fd code k x blank)

-- On a connection that is ready, a request for a file that is not empty is answered, whatever `m_fd`
-- is, where `m_iv_count` has a value: the head of the page with the length of the file and then the bytes
-- of the mapped file up to its first NUL are handed to the connection, the turn ends with no bad access,
-- and the mapping is gone.
pub process-Sent :
    (fs : FileSystem) (fd : ℤ) (j k : Job) (bytes content : Bytes)
    → IsReady j
    → process_read fs j ≡ ret (file_request, k)
    → k.file_stat.st_size ≢ 0
    → k.iv_count ≢ none
    → k.file_address ≡ mapped bytes
    → string_at bytes ≡ ret content
    → (l : Job) × (process fs fd j ≡ (
      head_text 200 ok_200_title (to_int (pos k.file_stat.st_size)) k.linger ++ content,
      ret l,
    ))
      × (l.file_address ≡ null)
unfolding process reply
process-Sent fs fd j k bytes content v e size count m c =
    let written : Written [] k = (Answer-of fs j (file_request, k) v e).1 in
    let (r, made, (ok, _, _, _)) =
      Returns-inv (Response file_request k) (process_write file_request k)
        (process_write-Response file_request k written (λ _ _. count)) in
    let text = head_text 200 ok_200_title (to_int (pos k.file_stat.st_size)) k.linger ++ content in
    let (l, sent, gone) = file_page-sent k bytes content written size count m c in
    let wrote : write r.1 ≡ (text, ret (k.linger, l)) =
      subst (λ w. before w (λ t. write t.1) ≡ (text, ret (k.linger, l))) made sent in
    (
      l,
      ap (λ x. before x (λ s. reply fd s.0 s.1)) e
          ∙ ap (λ x. before x (λ s. send_reply fd s.0 s.1)) made
          ∙ send_reply-ret fd text r k.linger l (ok ∙ ap not (==_ne k.file_stat.st_size 0 size))
              wrote,
      gone,
    )
