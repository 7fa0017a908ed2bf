-- ===== src/Job/Reader.antt =====
-- `CJob::do_request` and `CJob::process_read`, over a file system, which is the kernel's.
pub mod Path
pub mod Ready
pub mod Rounds
pub mod Laws
pub mod Loop
pub mod Complete
pub mod Request
use vs_http_server.Prelude.{
  ℕ, zero, suc, ◌+◌, ◌-◌, ◌*◌, ◌/◌, ◌%◌, ◌==◌, Bool, true, false, ◌&&◌, not, Option, none, some,
  ◌∷◌, [], ◌++◌, drop, write_at, if◌then◌else◌, Outcome, ret, fault, spent, ◌>>=◌,
}
use vs_http_server.CString.{Bytes, codes, strncpy, string_at}
use vs_http_server.Job.State.{
  Job, HttpCode, CheckState, check_state_requestline, check_state_header, check_state_content,
  LineStatus, line_ok, line_bad, line_open, FileStat, Address, no_request, get_request,
  head_request, bad_request, no_resource, forbidden_request, file_request, filename_len,
  read_buffer_size,
}
use vs_http_server.Job.Line.{parse_line}
use vs_http_server.Job.RequestLine.{parse_request_line}
use vs_http_server.Job.Headers.{parse_headers, parse_content}

-- The calls `stat`, `open` (with the flag `O_RDONLY`) and `mmap` (with `PROT_READ`, `MAP_PRIVATE`
-- and offset 0). A `none` is a negative answer; `mmap` gets a length and a descriptor.
pub record FileSystem : Type 0 where
  pub stat : Bytes → Option FileStat
  pub open_file : Bytes → Option ℕ
  pub mmap : ℕ → Option ℕ → Address

abbrev pub doc_root : Bytes
doc_root = codes "/mnt/hgfs/linux_study"

-- `strlen( doc_root )`.
abbrev pub doc_root_len : ℕ
doc_root_len = 21

-- `st_mode & S_IROTH`, with `S_IROTH` = 4.
unfoldable pub is_readable : ℕ → Bool
is_readable mode = not (mode / 4 % 2 == 0)

-- `S_ISDIR`: the format bits are 4.
unfoldable pub is_dir : ℕ → Bool
is_dir mode = mode / 4096 % 16 == 4

unfoldable pub map_file : FileSystem → Bytes → Job → HttpCode × Job
map_file fs path j =
    (file_request, record j { file_address = fs.mmap j.file_stat.st_size (fs.open_file path) })

-- The tests on the answer of `stat`.
unfoldable pub check_stat : FileSystem → Bytes → Option FileStat → Job → HttpCode × Job
unfolding is_readable is_dir map_file
check_stat fs path none j = (no_resource, j)
check_stat fs path (some st) j =
    let k = record j { file_stat = st } in
    if not (is_readable st.st_mode)
    then (forbidden_request, k)
    else if is_dir st.st_mode
    then (bad_request, k)
    else map_file fs path k

-- The two copies into `m_real_file`.
unfoldable pub build_path : Bytes → Bytes → Bytes
build_path real copied = write_at (write_at real 0 (doc_root ++ 0 ∷ [])) doc_root_len copied

unfoldable pub do_request : FileSystem → Job → Outcome (HttpCode × Job)
unfolding check_stat build_path
do_request fs j = elim j.url [
  | none ↦ fault
  | some url ↦ do
    copied ← strncpy (filename_len - doc_root_len - 1) (drop url j.read_buf)
    let real = build_path j.real_file copied
    path ← string_at real
    ret (check_stat fs path (fs.stat path) (record j { real_file = real }))
]

-- How a round of the loop of `process_read` ends: the function returns, or the loop goes on with
-- this `line_status`.
pub data Round : Type 0 where
  answer : HttpCode → Job → Round
  again : LineStatus → Job → Round

abbrev returned : Outcome (HttpCode × Job) → Outcome Round
returned m = do r ← m; ret (answer r.0 r.1)

abbrev pub is_bad : HttpCode → Bool
is_bad bad_request = true
is_bad _ = false

-- The answers of `parse_headers` and `parse_content` that call for the file.
abbrev pub is_complete : HttpCode → Bool
is_complete get_request = true
is_complete head_request = true
is_complete _ = false

abbrev pub is_get_request : HttpCode → Bool
is_get_request get_request = true
is_get_request _ = false

-- The `switch`. `text` is the start of the line, and `m_start_line` has gone on.
unfoldable pub read_round : FileSystem → ℕ → CheckState → Job → Outcome Round
unfolding do_request
read_round fs text check_state_requestline j = do
  (code, k) ← parse_request_line text j
  if is_bad code then ret (answer bad_request k) else ret (again line_ok k)
read_round fs text check_state_header j = do
  (code, k) ← parse_headers text j
  if is_bad code
      then ret (answer bad_request k)
      else if is_complete code
      then returned (do_request fs k)
      else ret (again line_ok k)
read_round fs text check_state_content j = do
  (code, k) ← parse_content text j
  if is_get_request code then returned (do_request fs k) else ret (again line_open k)

abbrev pub in_content : CheckState → Bool
in_content check_state_content = true
in_content _ = false

abbrev pub is_ok : LineStatus → Bool
is_ok line_ok = true
is_ok _ = false

-- The condition of the loop: the new `line_status`.
unfoldable pub next_line : LineStatus → Job → Outcome (LineStatus × Job)
next_line status j =
    if in_content j.check_state && is_ok status then ret (status, j) else parse_line j

-- A line is printed with `%s` before its round, which reads it up to its NUL.
unfoldable pub read_loop : FileSystem → ℕ → LineStatus → Job → Outcome (HttpCode × Job)
unfolding read_round next_line
read_loop fs zero status j = spent
read_loop fs (suc fuel) status j = do
  (found, k) ← next_line status j
  elim found [
    | line_ok ↦ do
      _ ← string_at (drop k.start_line k.read_buf)
      round ← read_round fs k.start_line k.check_state (record k { start_line = k.checked_idx })
      elim round [ answer code l ↦ ret (code, l) | again next l ↦ read_loop fs fuel next l ]
    | _ ↦ ret (no_request, k)
  ]

-- A line takes a byte at least, and between two lines there is one round on the body at most.
abbrev pub read_fuel : ℕ
read_fuel = 2 * read_buffer_size + 2

unfoldable pub process_read : FileSystem → Job → Outcome (HttpCode × Job)
unfolding read_loop
process_read fs j = read_loop fs read_fuel line_ok j
