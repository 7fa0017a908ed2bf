-- ===== src/Job/Reader/Laws.antt =====
-- `process_read` as a whole: it ends, and what its answer means.
use vs_http_server.Prelude.{
  ℕ, zero, suc, ◌≤◌, ◌<◌, ◌≡◌, ◌≢◌, refl, ap, ◌∙◌, true, false, Bool, ◌&&◌, arith, Returns-map,
  drop, ret, ◌>>=◌, Allows-fault, Returns, Allows, Allows->>=, Returns-Allows, Bool-cases, inl, inr,
  ◌⊎◌, if◌then◌else◌,
}
use vs_http_server.CString.{string_at}
use vs_http_server.CString.Laws.{has_nul}
use vs_http_server.CString.Copies.{string_at-Allows}
use vs_http_server.Job.Reader.Loop.{at_line}
use vs_http_server.Job.State.{
  Job, CheckState, check_state_requestline, check_state_header, check_state_content, LineStatus,
  HttpCode, bad_request, file_request, line_ok, line_bad, line_open, no_request,
}
use vs_http_server.Job.Line.{parse_line}
use vs_http_server.Job.Line.Laws.{Reads, parse_line-LineRead}
use vs_http_server.Job.Reader.{
  FileSystem, Round, answer, again, read_round, in_content, is_ok, next_line, read_loop, read_fuel,
  process_read,
}
use vs_http_server.Job.Reader.Ready.{
  here, behind, IsBlank-moved, IsReady, Answer, RoundAt, Loops, RoundAnswer, RoundFault, RoundDone,
  BadBody, measure, UrlEnds-kept,
}
use vs_http_server.Job.Reader.Rounds.{round_RoundDone}

-- What the condition of the loop leaves, where it lets a round begin: either the body is next and
-- nothing has changed, or a line has been cut off.
abbrev LineNext : LineStatus → Job → LineStatus × Job → Type 0
LineNext status j (found, k) =
    IsReady k
    × (k.read_idx ≡ j.read_idx)
    × (found ≡ line_ok
        → (k.checked_idx ≤ j.read_idx)
          × (k.check_state ≢ check_state_content → has_nul (drop k.start_line k.read_buf) ≡ true)
          × ((k.checked_idx ≡ j.checked_idx)
                × (k.check_state ≡ check_state_content)
                × ((in_content j.check_state && is_ok status) ≡ true)
              ⊎ j.checked_idx < k.checked_idx))

next_line-LineNext :
    (status : LineStatus) (j : Job) → IsReady j → Returns (LineNext status j) (next_line status j)
unfolding next_line
next_line-LineNext status j v = elim (Bool-cases (in_content j.check_state && is_ok status)) [
  | inl body ↦ rw body (
    v,
    refl,
    λ e. (
      v.buffered.checked_le,
      λ ne. absurd (ne (in_body j.check_state status body)),
      inl (refl, in_body j.check_state status body, body),
    ),
  )
  | inr line ↦ rw line (
      Returns-map (Reads j) (LineNext status j) (parse_line j) (λ r w. cut r w)
        (parse_line-LineRead j v.buffered))
]
  where
    in_body :
        (c : CheckState) (s : LineStatus)
        → (in_content c && is_ok s) ≡ true
        → c ≡ check_state_content
    in_body check_state_content s e = refl
    in_body check_state_requestline s e = cc
    in_body check_state_header s e = cc

    cut : (r : LineStatus × Job) → Reads j r → LineNext status j r
    cut r w =
        let read : r.1.read_idx ≡ j.read_idx = ap (λ (k : Job). k.read_idx) w.frame in
        let start : r.1.start_line ≡ j.start_line = ap (λ (k : Job). k.start_line) w.frame in
        (
          record {
            buffered = record {
              size = w.size ∙ v.buffered.size;
              read_le = omega (arith, v.buffered.read_le);
              checked_le = omega (arith, w.checked_le);
              start_le = omega (arith, w.checked_ge, v.buffered.start_le);
            };
            url_ends =
                UrlEnds-kept j.url j.read_buf r.1.url r.1.read_buf j.check_state r.1.check_state
                  (ap (λ (k : Job). k.check_state) w.frame) (ap (λ (k : Job). k.url) w.frame)
                  w.keeps_nul v.url_ends;
            path_ends = rw (ap (λ (k : Job). k.real_file) w.frame) v.path_ends;
            blank =
                IsBlank-moved j r.1 (ap (λ (k : Job). k.write_buf) w.frame)
                  (ap (λ (k : Job). k.write_idx) w.frame) (ap (λ (k : Job). k.file_address) w.frame)
                  v.blank;
          },
          read,
          λ e. (w.checked_le, λ _. rw start (w.line_ends e), inr (w.advances e)),
        )

-- The state in which the round begins.
advanced-IsReady : (k : Job) → IsReady k → IsReady (record k { start_line = k.checked_idx })
advanced-IsReady k v = record {
  buffered = record {
    size = v.buffered.size;
    read_le = v.buffered.read_le;
    checked_le = v.buffered.checked_le;
    start_le = omega arith;
  };
  url_ends = v.url_ends;
  path_ends = v.path_ends;
  blank = IsBlank-moved k (record k { start_line = k.checked_idx }) refl refl refl v.blank;
}

measure_falls :
    (status : LineStatus) (j k : Job) (next : LineStatus) (l : Job)
    → k.read_idx ≡ j.read_idx
    → k.checked_idx ≤ j.read_idx
    → (k.checked_idx ≡ j.checked_idx)
        × (k.check_state ≡ check_state_content)
        × ((in_content j.check_state && is_ok status) ≡ true)
      ⊎ j.checked_idx < k.checked_idx
    → l.checked_idx ≡ k.checked_idx
    → l.read_idx ≡ k.read_idx
    → (k.check_state ≡ check_state_content → next ≡ line_open)
    → measure next l < measure status j
measure_falls status j k next l r le (inl (c, st, both)) ec er last =
    rw (both, last st, no_body (in_content l.check_state)) (omega arith)
  where
    no_body : (b : Bool) → (b && is_ok line_open) ≡ false
    no_body true = refl
    no_body false = refl
measure_falls status j k next l r le (inr lt) ec er last =
    omega (arith, at_most_one (in_content l.check_state && is_ok next))
  where
    at_most_one : (b : Bool) → (if b then 1 else 0) ≤ 1
    at_most_one true = omega arith
    at_most_one false = omega arith

-- A round's answer is the call's.
RoundAnswer-Answer :
    (fs : FileSystem) (i k : Job) (r : HttpCode × Job)
    → RoundAt fs i k
    → RoundAnswer fs k.start_line (at_line k) r
    → Answer fs i r
RoundAnswer-Answer fs i k (no_request, l) at a = a
RoundAnswer-Answer fs i k (bad_request, l) at (b, w, x) = (b, w, (k, at, x))
RoundAnswer-Answer fs i k (file_request, l) at (b, w, x) = (b, w, (k, at, x))
RoundAnswer-Answer fs i k (_, l) at (b, w, x) = (b, w, (k, at, x))

content-cases : (c : CheckState) → (c ≡ check_state_content) ⊎ (c ≢ check_state_content)
content-cases check_state_content = inl refl
content-cases check_state_header = inr (λ e. cc)
content-cases check_state_requestline = inr (λ e. cc)

-- The line is printed up to its NUL, which stands behind every line but the body.
print-Allows :
    (fs : FileSystem) (i k : Job)
    → RoundAt fs i k
    → (k.check_state ≢ check_state_content → has_nul (drop k.start_line k.read_buf) ≡ true)
    → Allows
        (BadBody fs i)
        (λ s. has_nul (drop k.start_line k.read_buf) ≡ true)
        (string_at (drop k.start_line k.read_buf))
print-Allows fs i k at ends =
    Allows-fault (BadBody fs i) (has_nul (drop k.start_line k.read_buf) ≡ false) _
      (string_at (drop k.start_line k.read_buf))
      (λ _ none_there. elim (content-cases k.check_state) [
        | inl st ↦ (k, at, st, inl none_there)
        | inr ne ↦ absurd (cc (none_there, ends ne))
      ])
      (string_at-Allows (drop k.start_line k.read_buf))

read_loop-Answer :
    (fs : FileSystem) (i : Job) (fuel : ℕ) (status : LineStatus) (j : Job)
    → Loops fs line_ok i status j
    → IsReady j
    → measure status j < fuel
    → Allows (BadBody fs i) (Answer fs i) (read_loop fs fuel status j)
unfolding read_loop
read_loop-Answer fs i zero status j way v m = elim m [ ]
read_loop-Answer fs i (suc fuel) status j way v m =
    Allows->>= (BadBody fs i) (LineNext status j) (Answer fs i) (next_line status j) _
      (Returns-Allows (BadBody fs i) _ (next_line status j) (next_line-LineNext status j v))
      (λ r e n. by_line r e n (λ next l u w h. read_loop-Answer fs i fuel next l u w (omega arith)))
  where
    by_round :
        (k : Job) (round : Round)
        → RoundAt fs i k
        → RoundDone fs k.start_line (at_line k) round
        → ((next : LineStatus) (l : Job)
            → round ≡ again next l
            → IsReady l
            → l.checked_idx ≡ k.checked_idx
            → l.read_idx ≡ k.read_idx
            → (k.check_state ≡ check_state_content → next ≡ line_open)
            → Allows (BadBody fs i) (Answer fs i) (read_loop fs fuel next l))
        → Allows
            (BadBody fs i)
            (Answer fs i)
            (elim round [ answer code l ↦ ret (code, l) | again next l ↦ read_loop fs fuel next l ])
    by_round k (answer code l) at d rest = RoundAnswer-Answer fs i k (code, l) at d
    by_round k (again next l) at (w, c, r, last) rest = rest next l refl w c r last

    by_line :
        (r : LineStatus × Job)
        → next_line status j ≡ ret r
        → LineNext status j r
        → ((next : LineStatus) (l : Job)
            → Loops fs line_ok i next l
            → IsReady l
            → measure next l < measure status j
            → Allows (BadBody fs i) (Answer fs i) (read_loop fs fuel next l))
        → Allows (BadBody fs i) (Answer fs i) (elim r.0 [
          | line_ok ↦ do
            _ ← string_at (drop r.1.start_line r.1.read_buf)
            round ← read_round fs r.1.start_line r.1.check_state (at_line r.1)
            elim round [ answer code l ↦ ret (code, l) | again next l ↦ read_loop fs fuel next l ]
          | _ ↦ ret (no_request, r.1)
        ])
    by_line (line_bad, k) e (w, _, _) rest = w
    by_line (line_open, k) e (w, _, _) rest = w
    by_line (line_ok, k) e (w, er, n) rest =
        let (le, ends, step) = n refl in
        let at : RoundAt fs i k = (status, j, way, e) in
        let text = k.start_line in
        Allows->>= (BadBody fs i) _ (Answer fs i) (string_at (drop text k.read_buf)) _
          (print-Allows fs i k at ends)
          λ _ _ string.
            Allows->>= (BadBody fs i) (RoundDone fs text (at_line k)) (Answer fs i)
              (read_round fs text k.check_state (at_line k)) _
              (Allows-fault (BadBody fs i) (RoundFault text (at_line k)) _
                (read_round fs text k.check_state (at_line k)) (λ _ x. (k, at, x.0, inr x.1))
                (round_RoundDone fs text k.check_state (at_line k) (advanced-IsReady k w) refl
                  (λ _. string)))
              λ round er2 d. by_round k round at d λ next l same u ec el last.
                rest next l (behind way e (er2 ∙ ap ret same)) u
                  (measure_falls status j k next l er le step ec el last)

-- On a connection that is ready, with no response in the buffer and no file mapped, `process_read`
-- ends. It makes a bad access only where its loop comes to a round on the body of the request and
-- there no NUL stands behind the body, which is printed, or the end of the body is no `int`, or the
-- body is there by the length test and the index of the NUL behind it is outside the buffer. An answer
-- means what `Answer` says, and there is still no response: with `no_request` the connection is ready
-- again; with `bad_request` the buffer is in bounds, no file is mapped, and the loop came to a round on
-- a request line that `parse_request_line` refuses, or the path that the URL names is a directory; any other
-- answer is 404, 403 or 200, about the path that joins the document root and 178 bytes at most of a
-- URL, where the file is missing, or not readable for others (no file is mapped then), or readable, no
-- directory and mapped.
pub process_read-Answer :
    (fs : FileSystem) (j : Job)
    → IsReady j
    → Allows (BadBody fs j) (Answer fs j) (process_read fs j)
unfolding process_read
process_read-Answer fs j v =
    read_loop-Answer fs j read_fuel line_ok j here v
      (omega (arith, v.buffered.read_le, one (in_content j.check_state && is_ok line_ok)))
  where
    one : (b : Bool) → (if b then 1 else 0) ≤ 1
    one true = omega arith
    one false = omega arith
