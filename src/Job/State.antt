-- ===== src/Job/State.antt =====
-- The members of CJob (job.h), its constructor and `init` (job.cpp). A `char *` into `m_read_buf` is
-- an offset from its start, and NULL is `none`.
use vs_http_server.Prelude.{
  ℕ, ◌≤◌, ◌≡◌, Bool, false, Option, none, some, length, get_elem?, set, replicate, ltb,
  if◌then◌else◌, Outcome, ret, fault, or_fault, ℤ, pos,
}
use vs_http_server.CString.{Bytes}

abbrev pub filename_len : ℕ
filename_len = 200

abbrev pub read_buffer_size : ℕ
read_buffer_size = 2048

abbrev pub write_buffer_size : ℕ
write_buffer_size = 1024

pub data Method : Type 0 where
  get head post put delete trace options connect patch : Method

pub data CheckState : Type 0 where
  check_state_requestline check_state_header check_state_content : CheckState

pub data HttpCode : Type 0 where
  no_request get_request head_request post_request put_request delete_request : HttpCode
  trace_request options_request connect_request patch_request bad_request : HttpCode
  no_resource forbidden_request file_request internal_error closed_connection : HttpCode

pub data LineStatus : Type 0 where
  line_ok line_bad line_open : LineStatus

-- `struct stat`, as far as it is read.
pub record FileStat : Type 0 where
  pub st_mode : ℕ
  pub st_size : ℕ

-- `m_file_address`: NULL, `MAP_FAILED`, or the bytes from the address to the end of the mapped pages.
pub data Address : Type 0 where
  null map_failed : Address
  mapped : Bytes → Address

-- `iv_count` is `none` where `m_iv_count`, which nothing sets, has no value in memory.
pub record Job : Type 0 where
  pub job_no : ℕ
  pub job_name : Option Bytes
  pub work_thread : Option ℕ
  pub read_buf : Bytes
  pub read_idx : ℕ
  pub checked_idx : ℕ
  pub start_line : ℕ
  pub write_buf : Bytes
  pub write_idx : ℕ
  pub check_state : CheckState
  pub method : Method
  pub request : HttpCode
  pub real_file : Bytes
  pub url : Option ℕ
  pub version : Option ℕ
  pub host : Option ℕ
  pub content_length : ℤ
  pub linger : Bool
  pub iv_count : Option ℤ
  pub file_address : Address
  pub file_stat : FileStat

-- `CJob::init()`. What it does not name keeps its value.
unfoldable pub init : Job → Job
init j = record j {
  check_state = check_state_requestline;
  linger = false;
  method = get;
  url = none;
  version = none;
  content_length = pos 0;
  host = none;
  start_line = 0;
  checked_idx = 0;
  read_idx = 0;
  write_idx = 0;
  read_buf = replicate read_buffer_size 0;
  write_buf = replicate write_buffer_size 0;
  real_file = replicate filename_len 0;
}

-- `CJob::CJob()`, on the memory that the object gets.
unfoldable pub construct : Job → Job
construct memory = init (record memory { work_thread = none; job_no = 0; job_name = none })

-- `CJob::SetJobName`: the old name is freed, and the new one copied unless it is NULL.
unfoldable pub set_job_name : Option Bytes → Job → Job
set_job_name none j = record j { job_name = none }
set_job_name (some jobname) j = record j { job_name = some jobname }

-- A read and a write of one byte of an array.
unfoldable pub load : Bytes → ℕ → Outcome ℕ
load buf i = or_fault (get_elem? buf i)

unfoldable pub store : Bytes → ℕ → ℕ → Outcome Bytes
store buf i v = if ltb i (length buf) then ret (set buf i v) else fault

-- The state of a connection between two calls of the parser.
pub record IsBuffered (j : Job) : Type 0 where
  pub size : length j.read_buf ≡ read_buffer_size
  pub read_le : j.read_idx ≤ read_buffer_size
  pub checked_le : j.checked_idx ≤ j.read_idx
  pub start_le : j.start_line ≤ j.checked_idx
