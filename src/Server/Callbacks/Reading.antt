-- ===== src/Server/Callbacks/Reading.antt =====
-- What `ReadEventCb` puts into the read buffer of a connection, and what the parser makes of it.
use mathlib.Core.List.{append_assoc}
use vs_http_server.Prelude.{
  ℕ, zero, suc, ◌+◌, ◌-◌, ◌<◌, ◌≤◌, ◌≡◌, refl, ap, ap₂, sym, ◌∙◌, true, [], ◌∷◌, ◌++◌, arith,
  length, drop, replicate, length-replicate, write_at, write_at-zero, le→leb, gt→leb, ret, fault,
  ◌>>=◌, Returns, Returns-inv, length-append, Allows,
}
use vs_http_server.CString.{Bytes, string_at}
use vs_http_server.CString.Laws.{has_nul, has_nul-append_nul}
use vs_http_server.CString.Copies.{string_at-Returns}
use vs_http_server.Job.State.{Job, construct, init, null, read_buffer_size}
use vs_http_server.Job.Reader.{FileSystem, process_read}
use vs_http_server.Job.Reader.Ready.{IsReady, BadBody, Answer}
use vs_http_server.Job.Reader.Laws.{process_read-Answer}
use vs_http_server.Server.Callbacks.{get_read_buffer, read_job}

abbrev pub zeros : ℕ → Bytes
zeros n = replicate n 0

length-zeros : (n : ℕ) → length (zeros n) ≡ n
length-zeros n = length-replicate n 0

drop-zeros : (n m : ℕ) → drop n (zeros m) ≡ zeros (m - n)
drop-zeros zero m = ap zeros (let e : m ≡ m - 0 = omega arith in e)
drop-zeros (suc n) zero = ap zeros (let e : 0 ≡ 0 - suc n = omega arith in e)
drop-zeros (suc n) (suc m) =
    drop-zeros n m ∙ ap zeros (let e : m - n ≡ suc m - suc n = omega arith in e)

has_nul-append_zeros : (xs : Bytes) (n : ℕ) → 0 < n → has_nul (xs ++ zeros n) ≡ true
has_nul-append_zeros xs zero h = elim h [ ]
has_nul-append_zeros xs (suc n) h = has_nul-append_nul xs (zeros n)

-- More input than the buffer holds is written past its end.
pub read_job-fault :
    (input : Bytes) (j : Job) → length j.read_buf < length input → read_job input j ≡ fault
unfolding read_job get_read_buffer
read_job-fault input j h = rw (gt→leb (length input) (length j.read_buf) h) refl

-- What a call leaves: the input stands at the start of the buffer, whatever was there, and
-- `m_read_idx` has moved by its length.
abbrev pub Reads : Bytes → Job → Job → Type 0
Reads input j k = k ≡ record j {
  read_buf = input ++ drop (length input) j.read_buf;
  read_idx = j.read_idx + length input;
}

pub read_job-Reads :
    (input : Bytes) (j : Job)
    → length input ≤ length j.read_buf
    → has_nul (input ++ drop (length input) j.read_buf) ≡ true
    → Returns (Reads input j) (read_job input j)
unfolding read_job get_read_buffer
read_job-Reads input j fits ends =
    let e = write_at-zero j.read_buf input fits in
    let (text, es, _) =
      Returns-inv _ (string_at (write_at j.read_buf 0 input))
        (string_at-Returns (write_at j.read_buf 0 input) (ap has_nul e ∙ ends)) in
    rw (le→leb (length input) (length j.read_buf) fits, es)
      (ap (λ (buf : Bytes). record j { read_buf = buf; read_idx = j.read_idx + length input }) e)

-- A new connection behind its first input.
abbrev pub first_read : Bytes → Job → Job
first_read input memory = record (construct memory) {
  read_buf = input ++ zeros (read_buffer_size - length input);
  read_idx = length input;
}

first_read-IsReady :
    (memory : Job) (input : Bytes)
    → memory.file_address ≡ null
    → length input < read_buffer_size
    → IsReady (first_read input memory)
unfolding construct init
first_read-IsReady memory input unmapped short = record {
  buffered = record {
    size = omega (
      arith,
      length-append {0} input (zeros (read_buffer_size - length input)),
      length-zeros (read_buffer_size - length input),
    );
    read_le = omega arith;
    checked_le = omega arith;
    start_le = omega arith;
  };
  url_ends = tt;
  path_ends = refl;
  blank = (record { size = refl; index = refl; holds = (zeros 1023, refl) }, unmapped);
}

construct-read_buf : (memory : Job) → (construct memory).read_buf ≡ zeros read_buffer_size
unfolding construct init
construct-read_buf memory = refl

construct-read_idx : (memory : Job) → (construct memory).read_idx ≡ 0
unfolding construct init
construct-read_idx memory = refl

pub read_job-construct :
    (memory : Job) (input : Bytes)
    → length input < read_buffer_size
    → read_job input (construct memory) ≡ ret (first_read input memory)
read_job-construct memory input short =
    let j = construct memory in
    let rest : drop (length input) j.read_buf ≡ zeros (read_buffer_size - length input) =
      ap (drop (length input)) (construct-read_buf memory)
      ∙ drop-zeros (length input) read_buffer_size in
    let ends =
      ap (λ r. has_nul (input ++ r)) rest
      ∙ has_nul-append_zeros input (read_buffer_size - length input) (omega arith) in
    let fits : length input ≤ length j.read_buf =
      omega (arith, ap length (construct-read_buf memory), length-zeros read_buffer_size) in
    let (k, e, r) =
      Returns-inv (Reads input j) (read_job input j) (read_job-Reads input j fits ends) in
    e
    ∙ ap ret (
        r
        ∙ ap₂
            (λ (buf : Bytes) (i : ℕ). record (construct memory) {
              read_buf = input ++ buf;
              read_idx = i;
            })
            rest (omega (arith, construct-read_idx memory)))

-- The first input of a new connection, shorter than the buffer, is read without a bad access: the
-- buffer holds the input and then NULs. Where the memory of the object has NULL for
-- `m_file_address`, which the constructor does not set, the connection is ready for the parser.
pub read_job-first :
    (memory : Job) (input : Bytes)
    → memory.file_address ≡ null
    → length input < read_buffer_size
    → (read_job input (construct memory) ≡ ret (first_read input memory))
      × IsReady (first_read input memory)
read_job-first memory input unmapped short =
    (read_job-construct memory input short, first_read-IsReady memory input unmapped short)

-- On a new connection, in memory that has NULL for `m_file_address`, one read of input shorter than
-- the buffer and then the parser end. There is a bad access only where the loop of the parser, from the state that holds the input,
-- comes to a round on the body of the request, and there no NUL stands behind the
-- body, or the end of the body is no `int`, or the body is there by the length test and the index of
-- the NUL behind it is outside the buffer. Otherwise the answer means what `Answer` says of a call in
-- the state that holds the input.
pub read_job-Answer :
    (fs : FileSystem) (memory : Job) (input : Bytes)
    → memory.file_address ≡ null
    → length input < read_buffer_size
    → Allows
        (BadBody fs (first_read input memory))
        (Answer fs (first_read input memory))
        (read_job input (construct memory) >>= process_read fs)
read_job-Answer fs memory input unmapped short =
    let (e, v) = read_job-first memory input unmapped short in
    rw e (process_read-Answer fs (first_read input memory) v)

drop-append_le : (n : ℕ) (xs ys : Bytes) → n ≤ length xs → drop n (xs ++ ys) ≡ drop n xs ++ ys
drop-append_le zero xs ys h = refl
drop-append_le (suc n) [] ys h = elim h [ ]
drop-append_le (suc n) (x ∷ xs) ys h = drop-append_le n xs ys (omega arith)

-- On a new connection whose first input is shorter than the buffer, a second input that is no
-- longer than the first replaces the start of the first, which the parser may still wait to
-- complete, while `m_read_idx` counts both.
pub read_job-overwrites :
    (memory : Job) (a b : Bytes)
    → length a < read_buffer_size
    → length b ≤ length a
    → (read_job a (construct memory) >>= read_job b)
      ≡ ret (record (construct memory) {
        read_buf = b ++ (drop (length b) a ++ zeros (read_buffer_size - length a));
        read_idx = length a + length b;
      })
read_job-overwrites memory a b short le =
    let j = first_read a memory in
    let rest = zeros (read_buffer_size - length a) in
    let behind : drop (length b) j.read_buf ≡ drop (length b) a ++ rest =
      drop-append_le (length b) a rest le in
    let ends : has_nul (b ++ drop (length b) j.read_buf) ≡ true =
      ap (λ r. has_nul (b ++ r)) behind
      ∙ ap has_nul (sym (append_assoc b (drop (length b) a) rest))
      ∙ has_nul-append_zeros (b ++ drop (length b) a) (read_buffer_size - length a) (omega arith) in
    let fits : length b ≤ length j.read_buf = omega (arith, length-append {0} a rest) in
    let (k, e, r) = Returns-inv (Reads b j) (read_job b j) (read_job-Reads b j fits ends) in
    rw (read_job-construct memory a short) (
      e
      ∙ ap ret (
          r
          ∙ ap
              (λ (buf : Bytes). record (construct memory) {
                read_buf = b ++ buf;
                read_idx = length a + length b;
              })
              behind))
