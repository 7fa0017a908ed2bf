-- ===== src/Job/Line/Cut.antt =====
-- `parse_line` where the rest of the line and its end are in the buffer.
use mathlib.Core.List.{append_assoc}
use vs_http_server.Prelude.{
  ℕ, zero, suc, ◌+◌, ◌-◌, ◌<◌, ◌≡◌, ◌≢◌, sym, ◌∙◌, [], ◌∷◌, ◌++◌, arith, length, length-append, ret,
}
use vs_http_server.CString.{Bytes}
use vs_http_server.Job.State.{Job, line_ok}
use vs_http_server.Job.Line.{line_at_return, scan_line, parse_line}
use vs_http_server.Job.Buffer.{load-at, store-at}

-- No carriage return and no line feed.
abbrev pub IsText : Bytes → Type 0
IsText [] = Unit
IsText (c ∷ w) = (c ≢ b'\r') × (c ≢ b'\n') × IsText w

pub IsText-append : (v w : Bytes) → IsText v → IsText w → IsText (v ++ w)
IsText-append [] w h k = k
IsText-append (c ∷ v) w (r, n, h) k = (r, n, IsText-append v w h k)

-- The connection behind a line of the length `size`.
abbrev pub behind_line : Bytes → ℕ → Job → Job
behind_line buf size j = record j { read_buf = buf; checked_idx = j.checked_idx + size + 2 }

line_at_return-cut :
    (a rest : Bytes) (j : Job)
    → j.read_buf ≡ a ++ (b'\r' ∷ b'\n' ∷ rest)
    → j.checked_idx ≡ length a
    → j.checked_idx + 1 < j.read_idx
    → line_at_return j ≡ ret (line_ok, behind_line (a ++ (0 ∷ 0 ∷ rest)) 0 j)
unfolding line_at_return
line_at_return-cut a rest j e n h =
    let front = a ++ (b'\r' ∷ []) in
    let once : Bytes = a ++ (0 ∷ b'\n' ∷ rest) in
    let size = length-append {0} a (b'\r' ∷ []) in
    let size0 = length-append {0} a (0 ∷ []) in
    let next =
      load-at j.read_buf front rest b'\n' (j.checked_idx + 1)
        (e ∙ sym (append_assoc a (b'\r' ∷ []) (b'\n' ∷ rest))) (omega (arith, size)) in
    let first = store-at j.read_buf a (b'\n' ∷ rest) b'\r' j.checked_idx 0 e n in
    let second =
      store-at once (a ++ (0 ∷ [])) rest b'\n' (j.checked_idx + 1) 0
        (sym (append_assoc a (0 ∷ []) (b'\n' ∷ rest))) (omega (arith, size0)) in
    let whole = append_assoc a (0 ∷ []) (0 ∷ rest) in ground (arith, next, first, second, whole)

scan_line-cut :
    (line a rest : Bytes) (rounds : ℕ) (j : Job)
    → IsText line
    → j.read_buf ≡ a ++ (line ++ (b'\r' ∷ b'\n' ∷ rest))
    → j.checked_idx ≡ length a
    → length line < rounds
    → j.checked_idx + length line + 1 < j.read_idx
    → scan_line rounds j
      ≡ ret (line_ok, behind_line (a ++ (line ++ (0 ∷ 0 ∷ rest))) (length line) j)
unfolding scan_line
scan_line-cut line a rest zero j t e n r h = elim r [ ]
scan_line-cut [] a rest (suc rounds) j t e n r h = ground (
  arith,
  load-at j.read_buf a (b'\n' ∷ rest) b'\r' j.checked_idx e n,
  line_at_return-cut a rest j e n (omega arith),
)
scan_line-cut (c ∷ line) a rest (suc rounds) j (cr, lf, t) e n r h =
    let ih =
      scan_line-cut line (a ++ (c ∷ [])) rest rounds (record j { checked_idx = j.checked_idx + 1 })
        t (e ∙ sym (append_assoc a (c ∷ []) _)) (omega (arith, length-append {0} a (c ∷ [])))
        (omega arith) (omega arith) in
    let this = load-at j.read_buf a (line ++ (b'\r' ∷ b'\n' ∷ rest)) c j.checked_idx e n in
    let whole = append_assoc a (c ∷ []) (line ++ (0 ∷ 0 ∷ rest)) in ground (arith, this, ih, whole)

-- Where the line and its CRLF are in the part that has been read, `parse_line` finds the line and puts
-- NULs for its end.
pub parse_line-cut :
    (line a rest : Bytes) (j : Job)
    → IsText line
    → j.read_buf ≡ a ++ (line ++ (b'\r' ∷ b'\n' ∷ rest))
    → j.checked_idx ≡ length a
    → j.checked_idx + length line + 1 < j.read_idx
    → parse_line j ≡ ret (line_ok, behind_line (a ++ (line ++ (0 ∷ 0 ∷ rest))) (length line) j)
unfolding parse_line
parse_line-cut line a rest j t e n h =
    scan_line-cut line a rest (j.read_idx - j.checked_idx) j t e n (omega arith) h
