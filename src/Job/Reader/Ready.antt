-- ===== src/Job/Reader/Ready.antt =====
-- The states in which the parser may be called, and what an answer of `process_read` means.
use vs_http_server.Prelude.{
  ap, [], ℕ, ◌+◌, ◌-◌, ◌*◌, ◌≡◌, ◌≢◌, refl, sym, ◌∙◌, true, false, ◌&&◌, Option, none, some, arith,
  subst, Returns-map, length, drop, ret, ◌>>=◌, ◌⊎◌, inr, Returns, Returns-inv, Allows,
  if◌then◌else◌,
}
use vs_http_server.CString.{Bytes, string_at}
use vs_http_server.CString.Laws.{has_nul}
use vs_http_server.CString.Copies.{string_at-Returns}
use vs_http_server.Job.State.{
  null, file_request, Job, HttpCode, CheckState, check_state_requestline, check_state_header,
  check_state_content, LineStatus, line_open, line_ok, no_request, bad_request, IsBuffered,
}
use vs_http_server.Job.RequestLine.{parse_request_line}
use vs_http_server.Job.Headers.Laws.{BodyFault}
use vs_http_server.Job.Reader.{
  FileSystem, do_request, Round, answer, again, in_content, is_ok, read_round, next_line,
}
use vs_http_server.Job.Reader.Loop.{at_line}
use vs_http_server.Job.Response.Laws.{Written}
use vs_http_server.Job.Reader.Path.{PathEnds, TextAt, Served, do_request-Served}

-- Behind the request line `m_url` points to a string in the buffer.
abbrev pub UrlEnds : CheckState → Option ℕ → Bytes → Type 0
UrlEnds check_state_requestline url buf = Unit
UrlEnds _ none buf = ⊥
UrlEnds _ (some u) buf = has_nul (drop u buf) ≡ true

-- No response is in the buffer, and no file is mapped.
abbrev pub IsBlank : Job → Type 0
IsBlank j = Written [] j × (j.file_address ≡ null)

Written-moved :
    (j k : Job)
    → k.write_buf ≡ j.write_buf
    → k.write_idx ≡ j.write_idx
    → Written [] j
    → Written [] k
Written-moved j k b i w = record {
  size = ap length b ∙ w.size;
  index = i ∙ w.index;
  holds = (w.holds.0, b ∙ w.holds.1);
}

pub IsBlank-moved :
    (j k : Job)
    → k.write_buf ≡ j.write_buf
    → k.write_idx ≡ j.write_idx
    → k.file_address ≡ j.file_address
    → IsBlank j
    → IsBlank k
IsBlank-moved j k b i a v = (Written-moved j k b i v.0, a ∙ v.1)

-- The state of a connection in which `process_read` may be called.
pub record IsReady (j : Job) : Type 0 where
  pub buffered : IsBuffered j
  pub url_ends : UrlEnds j.check_state j.url j.read_buf
  pub path_ends : PathEnds j.real_file
  pub blank : IsBlank j

-- An answer on the file that the URL of the request names.
abbrev pub Named : FileSystem → HttpCode × Job → Type 0
Named fs r = (url : Bytes) × (j : Job) × Served fs url j r

-- Why a round on the line `text` refuses the request: the request line is malformed, or the path that
-- the URL names is a directory.
abbrev pub Refused : FileSystem → ℕ → Job → Job → Type 0
Refused fs text j k =
    (j.check_state ≡ check_state_requestline) × (parse_request_line text j ≡ ret (bad_request, k))
    ⊎ Named fs (bad_request, k)

-- What the answer of a round means: more input is needed and the connection may read on, or the
-- request is refused, or the answer is about the file that the URL names.
abbrev pub RoundAnswer : FileSystem → ℕ → Job → HttpCode × Job → Type 0
RoundAnswer fs text j (no_request, k) = IsReady k
RoundAnswer fs text j (bad_request, k) = IsBuffered k × IsBlank k × Refused fs text j k
RoundAnswer fs text j (file_request, k) = IsBuffered k × Written [] k × Named fs (file_request, k)
RoundAnswer fs text j (code, k) = IsBuffered k × IsBlank k × Named fs (code, k)

-- What a round of the loop leaves.
abbrev pub RoundDone : FileSystem → ℕ → Job → Round → Type 0
RoundDone fs text j (answer code k) = RoundAnswer fs text j (code, k)
RoundDone fs text j (again status k) =
    IsReady k
    × (k.checked_idx ≡ j.checked_idx)
    × (k.read_idx ≡ j.read_idx)
    × (j.check_state ≡ check_state_content → status ≡ line_open)

-- A round on the body that makes a bad access.
abbrev pub RoundFault : ℕ → Job → Type 0
RoundFault text j = (j.check_state ≡ check_state_content) × BodyFault text j

-- The rounds of the loop of `process_read` that go on, from one `line_status` and state to another.
pub data Loops (fs : FileSystem) : LineStatus → Job → LineStatus → Job → Type 0 where
  here : {status : LineStatus} {j : Job} → Loops fs status j status j
  behind :
      {status last next : LineStatus} {i j k l : Job}
      → Loops fs status i last j
      → next_line last j ≡ ret (line_ok, k)
      → read_round fs k.start_line k.check_state (at_line k) ≡ ret (again next l)
      → Loops fs status i next l

-- A call in the state `i` comes to a round on the line at `m_start_line` of `k`.
abbrev pub RoundAt : FileSystem → Job → Job → Type 0
RoundAt fs i k =
    (last : LineStatus) × (j : Job) × Loops fs line_ok i last j
    × (next_line last j ≡ ret (line_ok, k))

-- What the answer of `process_read` means, for a call in the state `i`.
abbrev pub Answer : FileSystem → Job → HttpCode × Job → Type 0
Answer fs i (no_request, k) = IsReady k
Answer fs i (bad_request, k) =
    IsBuffered k × IsBlank k × ((l : Job) × RoundAt fs i l × Refused fs l.start_line (at_line l) k)
Answer fs i (file_request, k) =
    IsBuffered k × Written [] k × ((l : Job) × RoundAt fs i l × Named fs (file_request, k))
Answer fs i (code, k) = IsBuffered k × IsBlank k × ((l : Job) × RoundAt fs i l × Named fs (code, k))

-- The bad access of a call in the state `i`: it comes to a round on the body, and either no NUL stands
-- behind the body in the buffer, where it is printed, or `parse_content` makes a bad access.
abbrev pub BadBody : FileSystem → Job → Type 0
BadBody fs i =
    (k : Job) × RoundAt fs i k
    × (k.check_state ≡ check_state_content)
    × ((has_nul (drop k.start_line k.read_buf) ≡ false) ⊎ BodyFault k.start_line k)

-- The bound on the rounds that are left.
abbrev pub measure : LineStatus → Job → ℕ
measure status j =
    2 * (j.read_idx - j.checked_idx) + (if in_content j.check_state && is_ok status then 1 else 0)

-- The answers of `do_request` are none of `no_request` and the codes of a method.
Served-Answer :
    (fs : FileSystem) (text : ℕ) (i : Job) (url : Bytes) (j : Job) (r : HttpCode × Job)
    → IsBuffered r.1
    → Written [] r.1
    → j.file_address ≡ null
    → Served fs url j r
    → RoundAnswer fs text i r
Served-Answer fs text i url j (no_request, k) b w n s = absurd s.verdict
Served-Answer fs text i url j (bad_request, k) b w n s =
    (b, (w, s.kept (λ e. cc) ∙ n), inr (url, j, s))
Served-Answer fs text i url j (file_request, k) b w n s = (b, w, (url, j, s))
Served-Answer fs text i url j (_, k) b w n s = (b, (w, s.kept (λ e. cc) ∙ n), (url, j, s))

-- More NULs in the buffer end no URL later.
pub UrlEnds-kept :
    (u : Option ℕ) (buf : Bytes) (v : Option ℕ) (changed : Bytes) (c d : CheckState)
    → d ≡ c
    → v ≡ u
    → ((n : ℕ) → has_nul (drop n buf) ≡ true → has_nul (drop n changed) ≡ true)
    → UrlEnds c u buf
    → UrlEnds d v changed
UrlEnds-kept u buf v changed check_state_requestline d e f k h = rw e tt
UrlEnds-kept none buf v changed check_state_header d e f k h = absurd h
UrlEnds-kept none buf v changed check_state_content d e f k h = absurd h
UrlEnds-kept (some u) buf v changed check_state_header d e f k h = rw (e, f) (k u h)
UrlEnds-kept (some u) buf v changed check_state_content d e f k h = rw (e, f) (k u h)

do_request-Answer :
    (fs : FileSystem) (text : ℕ) (i j : Job) (url : Bytes)
    → IsBuffered j
    → TextAt j.url j.read_buf url
    → PathEnds j.real_file
    → IsBlank j
    → Returns (RoundAnswer fs text i) (do_request fs j)
do_request-Answer fs text i j url b t e v =
    Returns-map (Served fs url j) (RoundAnswer fs text i) (do_request fs j)
      (λ r s. Served-Answer fs text i url j r (moved r s) (written r s) v.1 s)
      (do_request-Served fs j url t e)
  where
    written : (r : HttpCode × Job) → Served fs url j r → Written [] r.1
    written r s =
        Written-moved j r.1 (ap (λ (k : Job). k.write_buf) s.frame)
          (ap (λ (k : Job). k.write_idx) s.frame) v.0

    moved : (r : HttpCode × Job) → Served fs url j r → IsBuffered r.1
    moved r s = subst IsBuffered (sym s.frame) (record {
      size = b.size;
      read_le = b.read_le;
      checked_le = b.checked_le;
      start_le = b.start_le;
    })

-- The URL of a request whose headers are read is a string.
url_text :
    (u : Option ℕ) (buf : Bytes) (c : CheckState)
    → c ≢ check_state_requestline
    → UrlEnds c u buf
    → (url : Bytes) × TextAt u buf url
url_text u buf check_state_requestline ne e = absurd (ne refl)
url_text none buf check_state_header ne e = absurd e
url_text none buf check_state_content ne e = absurd e
url_text (some u) buf check_state_header ne e =
    let (s, es, _) = Returns-inv _ (string_at (drop u buf)) (string_at-Returns (drop u buf) e) in
    (s, es)
url_text (some u) buf check_state_content ne e =
    let (s, es, _) = Returns-inv _ (string_at (drop u buf)) (string_at-Returns (drop u buf) e) in
    (s, es)

pub serve :
    (fs : FileSystem) (text : ℕ) (j k : Job)
    → IsReady k
    → k.check_state ≢ check_state_requestline
    → Allows
        (RoundFault text j)
        (RoundDone fs text j)
        (do r ← do_request fs k; ret (answer r.0 r.1))
serve fs text j k v ne =
    let (url, t) = url_text k.url k.read_buf k.check_state ne v.url_ends in
    let (r, e, a) =
      Returns-inv (RoundAnswer fs text j) (do_request fs k)
        (do_request-Answer fs text j k url v.buffered t v.path_ends v.blank) in
    rw e a

-- A call that leaves the indices leaves the buffer in bounds.
pub IsBuffered-moved :
    (j k : Job)
    → IsBuffered j
    → length k.read_buf ≡ length j.read_buf
    → k.read_idx ≡ j.read_idx
    → k.checked_idx ≡ j.checked_idx
    → k.start_line ≡ j.start_line
    → IsBuffered k
IsBuffered-moved j k v n r c s = record {
  size = n ∙ v.size;
  read_le = omega (arith, v.read_le);
  checked_le = omega (arith, v.checked_le);
  start_le = omega (arith, v.start_le);
}
