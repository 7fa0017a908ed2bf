-- ===== src/Job/Reader/Path.antt =====
-- The path that `do_request` builds, and what its answers say of the file system.
use vs_http_server.Prelude.{
  ◌≢◌, ℕ, ◌≤◌, ◌≡◌, refl, ap, sym, ◌∙◌, true, false, Option, none, some, [], ◌∷◌, ◌++◌, arith,
  length, length-drop, take, drop, drop-drop, write_at, write_at-zero, write_at-append, ret, fault,
  ◌>>=◌, drop-append, Returns, Bool-cases, inl, inr,
}
use vs_http_server.CString.{Bytes, strncpy, string_at}
use vs_http_server.CString.Copies.{string_at-append, strncpy_lem}
use vs_http_server.Job.State.{
  Job, HttpCode, FileStat, bad_request, no_resource, forbidden_request, file_request,
}
use vs_http_server.Job.Reader.{
  FileSystem, doc_root, doc_root_len, is_readable, is_dir, check_stat, build_path, do_request,
}

-- The last byte of `m_real_file`, which `init` clears, is a NUL.
abbrev pub PathEnds : Bytes → Type 0
PathEnds real = drop 199 real ≡ 0 ∷ []

-- The bytes of the path buffer, given those that `strncpy` copies.
build_path_lem :
    (real copied : Bytes)
    → PathEnds real
    → length copied ≡ 178
    → build_path real copied ≡ doc_root ++ (copied ++ 0 ∷ [])
unfolding build_path
build_path_lem real copied e n =
    ap (λ buf. write_at buf doc_root_len copied) (write_at-zero real (doc_root ++ 0 ∷ []) room)
    ∙ write_at-append doc_root behind copied
    ∙ ap (◌++◌ doc_root) (write_at-zero behind copied fits ∙ ap (◌++◌ copied) tail)
  where
    behind : Bytes
    behind = 0 ∷ drop 22 real

    room : 22 ≤ length real
    room = omega (arith, ap length e, length-drop {0} 199 real)

    fits : length copied ≤ length behind
    fits = omega (arith, ap length e, length-drop {0} 199 real, length-drop {0} 22 real)

    tail : drop (length copied) behind ≡ 0 ∷ []
    tail = ap (λ k. drop k behind) n ∙ drop-drop 177 22 real ∙ e

-- What an answer says of the file at a path.
abbrev pub Verdict : FileSystem → Bytes → HttpCode → Job → Type 0
Verdict fs path no_resource k = fs.stat path ≡ none
Verdict fs path forbidden_request k =
    (fs.stat path ≡ some k.file_stat) × (is_readable k.file_stat.st_mode ≡ false)
Verdict fs path bad_request k =
    (fs.stat path ≡ some k.file_stat)
    × (is_readable k.file_stat.st_mode ≡ true)
    × (is_dir k.file_stat.st_mode ≡ true)
Verdict fs path file_request k =
    (fs.stat path ≡ some k.file_stat)
    × (is_readable k.file_stat.st_mode ≡ true)
    × (is_dir k.file_stat.st_mode ≡ false)
    × (k.file_address ≡ fs.mmap k.file_stat.st_size (fs.open_file path))
Verdict fs path _ k = ⊥

check_stat-Verdict :
    (fs : FileSystem) (path : Bytes) (st : Option FileStat) (j : Job)
    → fs.stat path ≡ st
    → let r = check_stat fs path st j in Verdict fs path r.0 r.1
unfolding check_stat
check_stat-Verdict fs path none j e = e
check_stat-Verdict fs path (some st) j e = elim (Bool-cases (is_readable st.st_mode)) [
  | inr r ↦ rw r (e, r)
  | inl r ↦ elim (Bool-cases (is_dir st.st_mode)) [
    | inl d ↦ rw (r, d) (e, r, d)
    | inr d ↦ rw (r, d) (e, r, d, refl)
  ]
]

-- `check_stat` sets `m_file_stat` and `m_file_address` only.
check_stat-frame :
    (fs : FileSystem) (path : Bytes) (st : Option FileStat) (j : Job)
    → let k = (check_stat fs path st j).1 in
      (k ≡ record j {
        real_file = k.real_file;
        file_stat = k.file_stat;
        file_address = k.file_address;
      })
      × (k.real_file ≡ j.real_file)
unfolding check_stat
check_stat-frame fs path none j = (refl, refl)
check_stat-frame fs path (some st) j = elim (Bool-cases (is_readable st.st_mode)) [
  | inr r ↦ rw r (refl, refl)
  | inl r ↦ elim (Bool-cases (is_dir st.st_mode)) [
    | inl d ↦ rw (r, d) (refl, refl)
    | inr d ↦ rw (r, d) (refl, refl)
  ]
]

-- Where no file is mapped the address stays.
check_stat-kept :
    (fs : FileSystem) (path : Bytes) (st : Option FileStat) (j : Job)
    → let r = check_stat fs path st j in r.0 ≢ file_request → r.1.file_address ≡ j.file_address
unfolding check_stat
check_stat-kept fs path none j = λ _. refl
check_stat-kept fs path (some st) j = elim (Bool-cases (is_readable st.st_mode)) [
  | inr r ↦ rw r λ ne. refl
  | inl r ↦ elim (Bool-cases (is_dir st.st_mode)) [
    | inl d ↦ rw (r, d) λ ne. refl
    | inr d ↦ rw (r, d) λ ne. absurd (ne refl)
  ]
]

-- `url` is the string that a pointer into the read buffer points to.
abbrev pub TextAt : Option ℕ → Bytes → Bytes → Type 0
TextAt none buf url = ⊥
TextAt (some u) buf url = string_at (drop u buf) ≡ ret url

-- The answer of `do_request` for the URL `url`: its path is the document root and at most 178 bytes
-- of the URL, the file at that path is as the answer says, and the rest of the state stays.
pub record Served (fs : FileSystem) (url : Bytes) (j : Job) (r : HttpCode × Job) : Type 0 where
  pub frame : r.1 ≡ record j {
    real_file = r.1.real_file;
    file_stat = r.1.file_stat;
    file_address = r.1.file_address;
  }
  pub path_ends : PathEnds r.1.real_file
  pub path_is : string_at r.1.real_file ≡ ret (doc_root ++ take 178 url)
  pub kept : r.0 ≢ file_request → r.1.file_address ≡ j.file_address
  pub verdict : Verdict fs (doc_root ++ take 178 url) r.0 r.1

check_stat-Served :
    (fs : FileSystem) (url real : Bytes) (j : Job)
    → PathEnds real
    → string_at real ≡ ret (doc_root ++ take 178 url)
    → let path = doc_root ++ take 178 url in
      Served fs url j (check_stat fs path (fs.stat path) (record j { real_file = real }))
check_stat-Served fs url real j ends is =
    let path : Bytes = doc_root ++ take 178 url in
    let k : Job = record j { real_file = real } in
    let (frame, kept) = check_stat-frame fs path (fs.stat path) k in
    record {
      frame = frame;
      path_ends = rw kept ends;
      path_is = rw kept is;
      kept = check_stat-kept fs path (fs.stat path) k;
      verdict = check_stat-Verdict fs path (fs.stat path) k refl;
    }

-- Where `m_url` points to a string, `do_request` makes no bad access; its result is as `Served` says.
pub do_request-Served :
    (fs : FileSystem) (j : Job) (url : Bytes)
    → TextAt j.url j.read_buf url
    → PathEnds j.real_file
    → Returns (Served fs url j) (do_request fs j)
unfolding do_request
do_request-Served fs j url text ends = by_url j.url text
  where
    string_of :
        (copied : Bytes)
        → length copied ≡ 178
        → string_at (copied ++ 0 ∷ []) ≡ ret (take 178 url)
        → string_at (build_path j.real_file copied) ≡ ret (doc_root ++ take 178 url)
    string_of copied n ek =
        ap string_at (build_path_lem j.real_file copied ends n)
        ∙ string_at-append doc_root (copied ++ 0 ∷ []) (take 178 url) refl ek

    path_ends : (copied : Bytes) → length copied ≡ 178 → PathEnds (build_path j.real_file copied)
    path_ends copied n =
        ap (drop 199) (build_path_lem j.real_file copied ends n)
        ∙ ap (λ k. drop k (copied ++ 0 ∷ [])) (sym n)
        ∙ drop-append copied (0 ∷ [])

    by_url :
        (u : Option ℕ)
        → TextAt u j.read_buf url
        → Returns (Served fs url j) (elim u [
          | none ↦ fault
          | some at ↦ do
            copied ← strncpy 178 (drop at j.read_buf)
            let real = build_path j.real_file copied
            path ← string_at real
            ret (check_stat fs path (fs.stat path) (record j { real_file = real }))
        ])
    by_url none t = t
    by_url (some at) t =
        let (copied, ec, n, ek) = strncpy_lem 178 (drop at j.read_buf) url t in
        rw (ec, string_of copied n ek)
          (check_stat-Served fs url (build_path j.real_file copied) j (path_ends copied n)
            (string_of copied n ek))
