-- ===== src/Job/Line.antt =====
-- `CJob::parse_line`: the state machine that cuts the read buffer into lines.
pub mod Laws
pub mod Cut
use vs_http_server.Prelude.{
  ℕ, zero, suc, ◌+◌, ◌-◌, ◌&&◌, ◌==◌, ltb, if◌then◌else◌, Outcome, ret, fault, spent, ◌>>=◌,
}
use vs_http_server.Job.State.{Job, LineStatus, line_ok, line_bad, line_open, load, store}

-- `temp == '\r'`.
unfoldable pub line_at_return : Job → Outcome (LineStatus × Job)
line_at_return j = if j.checked_idx + 1 == j.read_idx then ret (line_open, j) else (do
  next ← load j.read_buf (j.checked_idx + 1)
  if next == b'\n'
      then (do
        once ← store j.read_buf j.checked_idx 0
        twice ← store once (j.checked_idx + 1) 0
        ret (line_ok, record j { read_buf = twice; checked_idx = j.checked_idx + 2 }))
      else ret (line_bad, j))

-- `temp == '\n'`, where the `\r` came with an earlier read.
unfoldable pub line_at_newline : Job → Outcome (LineStatus × Job)
line_at_newline j =
    if ltb 1 j.checked_idx
    then (do
      last ← load j.read_buf (j.checked_idx - 1)
      if last == b'\r'
          then (do
            once ← store j.read_buf (j.checked_idx - 1) 0
            twice ← store once j.checked_idx 0
            ret (line_ok, record j { read_buf = twice; checked_idx = j.checked_idx + 1 }))
          else ret (line_bad, j))
    else ret (line_bad, j)

-- The `for` loop, over the rounds that are left, `m_read_idx - m_checked_idx`.
unfoldable pub scan_line : ℕ → Job → Outcome (LineStatus × Job)
unfolding line_at_return line_at_newline
scan_line zero j = ret (line_open, j)
scan_line (suc rounds) j = do
  temp ← load j.read_buf j.checked_idx
  let rest = scan_line rounds (record j { checked_idx = j.checked_idx + 1 })
  if temp == b'\r' then line_at_return j else if temp == b'\n' then line_at_newline j else rest

unfoldable pub parse_line : Job → Outcome (LineStatus × Job)
unfolding scan_line
parse_line j = scan_line (j.read_idx - j.checked_idx) j
