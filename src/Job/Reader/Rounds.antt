-- ===== src/Job/Reader/Rounds.antt =====
-- One round of the loop of `process_read`, in each state of the parser.
use vs_http_server.Prelude.{
  ℕ, ◌≡◌, ◌≢◌, refl, ap, sym, ◌∙◌, true, false, Option, none, some, subst, length, drop, Allows,
  ret, Allows-fault, Allows->>=, Returns-Allows, Bool-cases, inl, inr, ◌⊎◌,
}
use vs_http_server.CString.{Bytes}
use vs_http_server.CString.Laws.{has_nul}
use vs_http_server.Job.State.{
  Job, HttpCode, CheckState, check_state_requestline, check_state_header, check_state_content,
  bad_request, IsBuffered,
}
use vs_http_server.Job.RequestLine.{parse_request_line}
use vs_http_server.Job.RequestLine.Accept.{RequestRead, UrlAt}
use vs_http_server.Job.RequestLine.Laws.{parse_request_line-RequestRead}
use vs_http_server.Job.Headers.{parse_headers, parse_content}
use vs_http_server.Job.Headers.Laws.{
  HeaderRead, parse_headers-HeaderRead, BodyFault, ContentRead, parse_content-ContentRead,
}
use vs_http_server.Job.Reader.{FileSystem, is_bad, is_complete, is_get_request, read_round}
use vs_http_server.Job.Reader.Ready.{
  IsBlank, IsBlank-moved, UrlEnds, IsReady, RoundDone, RoundFault, UrlEnds-kept, serve,
  IsBuffered-moved,
}

is_bad-ne : (c : HttpCode) → is_bad c ≡ false → c ≢ bad_request
is_bad-ne c h e = cc (ap is_bad e)

is_bad-eq : (c : HttpCode) → is_bad c ≡ true → c ≡ bad_request
is_bad-eq bad_request h = refl
is_bad-eq _ h = cc

HeaderRead-good : (j : Job) (r : HttpCode × Job) → HeaderRead j r → is_bad r.0 ≡ false
HeaderRead-good j r w = elim w.code [
  | inl e ↦ ap is_bad e
  | inr (inl e) ↦ ap is_bad e
  | inr (inr e) ↦ ap is_bad e
]

UrlEnds-header :
    (u : Option ℕ) (buf : Bytes) (c : CheckState)
    → c ≡ check_state_header
    → UrlAt u buf
    → UrlEnds c u buf
UrlEnds-header none buf c e h = absurd h
UrlEnds-header (some u) buf c e h = rw e h.0

round_requestline :
    (fs : FileSystem) (text : ℕ) (j : Job)
    → IsReady j
    → has_nul (drop text j.read_buf) ≡ true
    → j.check_state ≡ check_state_requestline
    → Allows
        (RoundFault text j)
        (RoundDone fs text j)
        (read_round fs text check_state_requestline j)
unfolding read_round
round_requestline fs text j v h st =
    Allows->>= (RoundFault text j) (RequestRead j) (RoundDone fs text j) (parse_request_line text j)
      _
      (Returns-Allows (RoundFault text j) _ (parse_request_line text j)
        (parse_request_line-RequestRead text j h))
      λ r e w.
        let read : r.1.read_idx ≡ j.read_idx = ap (λ (k : Job). k.read_idx) w.frame in
        let checked : r.1.checked_idx ≡ j.checked_idx = ap (λ (k : Job). k.checked_idx) w.frame in
        let b : IsBuffered r.1 =
          IsBuffered-moved j r.1 v.buffered w.size read checked
            (ap (λ (k : Job). k.start_line) w.frame) in
        let blank : IsBlank r.1 =
          IsBlank-moved j r.1 (ap (λ (k : Job). k.write_buf) w.frame)
            (ap (λ (k : Job). k.write_idx) w.frame) (ap (λ (k : Job). k.file_address) w.frame)
            v.blank in
        elim (Bool-cases (is_bad r.0)) [
          | inl bad ↦ rw bad (b, blank, inl (st, e ∙ ap (λ c. ret (c, r.1)) (is_bad-eq r.0 bad)))
          | inr good ↦
              let ne = is_bad-ne r.0 good in
              rw good (
                record {
                  buffered = b;
                  url_ends =
                      UrlEnds-header r.1.url r.1.read_buf r.1.check_state (w.state ne)
                        (w.url_at ne);
                  path_ends = rw (ap (λ (k : Job). k.real_file) w.frame) v.path_ends;
                  blank = blank;
                },
                checked,
                read,
                λ e. cc (st, e),
              )
        ]

-- Behind the request line the URL stays in both states.
UrlEnds-behind :
    (u : Option ℕ) (buf : Bytes) (c d : CheckState)
    → c ≡ check_state_header
    → (d ≡ c) ⊎ (d ≡ check_state_content)
    → UrlEnds c u buf
    → UrlEnds d u buf × (d ≢ check_state_requestline)
UrlEnds-behind u buf c d e (inl f) h = (rw f h, λ g. cc)
UrlEnds-behind none buf c d e (inr f) h = absurd (rw e at h)
UrlEnds-behind (some u) buf c d e (inr f) h = (rw f (rw e at h), λ g. cc)

round_header :
    (fs : FileSystem) (text : ℕ) (j : Job)
    → IsReady j
    → has_nul (drop text j.read_buf) ≡ true
    → j.check_state ≡ check_state_header
    → Allows (RoundFault text j) (RoundDone fs text j) (read_round fs text check_state_header j)
unfolding read_round
round_header fs text j v h st =
    Allows->>= (RoundFault text j) (HeaderRead j) (RoundDone fs text j) (parse_headers text j) _
      (Returns-Allows (RoundFault text j) _ (parse_headers text j)
        (parse_headers-HeaderRead text j h))
      λ r e w.
        let read : r.1.read_idx ≡ j.read_idx = ap (λ (k : Job). k.read_idx) w.frame in
        let checked : r.1.checked_idx ≡ j.checked_idx = ap (λ (k : Job). k.checked_idx) w.frame in
        let b : IsBuffered r.1 =
          IsBuffered-moved j r.1 v.buffered (ap (λ (k : Job). length k.read_buf) w.frame) read
            checked (ap (λ (k : Job). k.start_line) w.frame) in
        let (url, ne) =
          UrlEnds-behind j.url j.read_buf j.check_state r.1.check_state st w.state v.url_ends in
        let ready : IsReady r.1 = record {
          buffered = b;
          url_ends =
              subst (λ (k : Job). UrlEnds r.1.check_state k.url k.read_buf) (sym w.frame) url;
          path_ends = rw (ap (λ (k : Job). k.real_file) w.frame) v.path_ends;
          blank =
              IsBlank-moved j r.1 (ap (λ (k : Job). k.write_buf) w.frame)
                (ap (λ (k : Job). k.write_idx) w.frame) (ap (λ (k : Job). k.file_address) w.frame)
                v.blank;
        } in
        elim (Bool-cases (is_bad r.0)) [
          | inl bad ↦ absurd (cc (bad, HeaderRead-good j r w))
          | inr good ↦ elim (Bool-cases (is_complete r.0)) [
            | inl whole ↦ rw (good, whole) (serve fs text j r.1 ready ne)
            | inr part ↦ rw (good, part) (ready, checked, read, λ e. cc (st, e))
          ]
        ]

round_content :
    (fs : FileSystem) (text : ℕ) (j : Job)
    → IsReady j
    → j.check_state ≡ check_state_content
    → Allows (RoundFault text j) (RoundDone fs text j) (read_round fs text check_state_content j)
unfolding read_round
round_content fs text j v st =
    Allows->>= (RoundFault text j) (ContentRead text j) (RoundDone fs text j) (parse_content text j)
      _
      (Allows-fault (RoundFault text j) (BodyFault text j) (ContentRead text j)
        (parse_content text j) (λ _ e. (st, e)) (parse_content-ContentRead text j))
      λ r _ w.
        let read : r.1.read_idx ≡ j.read_idx = ap (λ (k : Job). k.read_idx) w.frame in
        let checked : r.1.checked_idx ≡ j.checked_idx = ap (λ (k : Job). k.checked_idx) w.frame in
        let state : r.1.check_state ≡ check_state_content =
          ap (λ (k : Job). k.check_state) w.frame ∙ st in
        let ready : IsReady r.1 = record {
          buffered =
              IsBuffered-moved j r.1 v.buffered w.size read checked
                (ap (λ (k : Job). k.start_line) w.frame);
          url_ends =
              UrlEnds-kept j.url j.read_buf r.1.url r.1.read_buf j.check_state r.1.check_state
                (ap (λ (k : Job). k.check_state) w.frame) (ap (λ (k : Job). k.url) w.frame)
                w.keeps_nul v.url_ends;
          path_ends = rw (ap (λ (k : Job). k.real_file) w.frame) v.path_ends;
          blank =
              IsBlank-moved j r.1 (ap (λ (k : Job). k.write_buf) w.frame)
                (ap (λ (k : Job). k.write_idx) w.frame) (ap (λ (k : Job). k.file_address) w.frame)
                v.blank;
        } in
        elim (Bool-cases (is_get_request r.0)) [
          | inl whole ↦ rw whole (serve fs text j r.1 ready (λ e. cc (state, e)))
          | inr part ↦ rw part (ready, checked, read, λ e. refl)
        ]

-- The round after the line of `text` has been cut off.
pub round_RoundDone :
    (fs : FileSystem) (text : ℕ) (c : CheckState) (j : Job)
    → IsReady j
    → j.check_state ≡ c
    → (c ≢ check_state_content → has_nul (drop text j.read_buf) ≡ true)
    → Allows (RoundFault text j) (RoundDone fs text j) (read_round fs text c j)
round_RoundDone fs text check_state_requestline j v st h =
    round_requestline fs text j v (h (λ e. cc)) st
round_RoundDone fs text check_state_header j v st h = round_header fs text j v (h (λ e. cc)) st
round_RoundDone fs text check_state_content j v st h = round_content fs text j v st
