-- ===== src/Upstream.antt =====
-- The upstream of the nginx module (nginx_upstream/ngx_http_mytest_module.c): the request to the
-- server, and how the headers of its answer are taken over. What nginx does is a record of functions.
pub mod Writes
pub mod Block
pub mod Answer
pub mod Status
pub mod Setup
pub mod Query
mod Tests
use vs_http_server.Prelude.{
  ℕ, zero, suc, ◌+◌, ◌≤◌, ◌≡◌, Bool, true, false, not, Option, none, some, List, [], ◌∷◌, ◌++◌,
  length, take, drop, leb, ◌==◌, if◌then◌else◌, write_at, Outcome, ret, fault, ◌>>=◌,
}
use vs_http_server.CString.{Bytes, codes}

-- The members of the request that `ngx_http_parse_header_line` sets for a line: the bytes from
-- `header_name_start` to `header_name_end` and from `header_start` to `header_end`, and the rest.
pub record Line : Type 0 where
  pub hash : ℕ
  pub name : Bytes
  pub value : Bytes
  pub lowcase_index : ℕ
  pub lowcase_header : Bytes

-- `ngx_table_elt_t`: with the memory of the name, the value and the name in small letters, if there is
-- any; or with texts of the module.
pub data Header : Type 0 where
  allocated : ℕ → ℕ → ℕ → Option Bytes → Header
  constant : ℕ → Bytes → Bytes → Header

-- `u->headers_in`: the list, and whether `server` and `date` are set.
pub record HeadersIn : Type 0 where
  pub headers : List Header
  pub server : Bool
  pub date : Bool

-- `push` tells whether `ngx_list_push` finds room behind so many headers, `pnalloc` is the memory of a
-- size that it gets then. `find` is `ngx_hash_find` with the handler, which may fail.
pub record Nginx : Type 0 where
  pub push : ℕ → Bool
  pub pnalloc : ℕ → ℕ → Option Bytes
  pub strlow : Bytes → Bytes
  pub hash : ℕ → ℕ → ℕ
  pub find : ℕ → Bytes → Option (Header → HeadersIn → Option HeadersIn)

pub data Rc : Type 0 where
  ok again failed invalid_header : Rc

-- The answer of `ngx_http_parse_header_line` behind the last line.
pub data Parsed : Type 0 where
  header_done need_more bad_line : Parsed

-- A copy to an offset of a block of memory.
unfoldable pub store_at : Bytes → ℕ → Bytes → Outcome Bytes
store_at mem i vs = if leb (i + length vs) (length mem) then ret (write_at mem i vs) else fault

-- `ngx_memcpy(h->lowcase_key,r->lowcase_header,h->key.len)`, or `ngx_strlow` of the copied name.
unfoldable pub small_letters : Nginx → Line → Bytes → Outcome Bytes
small_letters g l mem =
    if length l.name == l.lowcase_index
    then (if leb (length l.name) (length l.lowcase_header)
        then ret (take (length l.name) l.lowcase_header)
        else fault)
    else ret (g.strlow (take (length l.name) mem))

-- The copies into `h->key.data`. The second NUL goes to `h->key.data[h->value.len]`.
unfoldable pub fill_block : Nginx → Line → Bytes → Outcome Bytes
unfolding store_at small_letters
fill_block g l mem = do
  a ← store_at mem 0 l.name
  b ← store_at a (length l.name) (0 ∷ [])
  c ← store_at b (suc (length l.name)) l.value
  d ← store_at c (length l.value) (0 ∷ [])
  low ← small_letters g l d
  store_at d (suc (length l.name) + suc (length l.value)) low

abbrev pub block_size : Line → ℕ
block_size l = suc (length l.name) + suc (length l.value) + length l.name

abbrev pub add_header : Header → HeadersIn → HeadersIn
add_header h u = record u { headers = u.headers ++ (h ∷ []) }

-- `hh && hh->handler(r,h,hh->offset)!=NGX_OK`.
unfoldable pub call_handler : Nginx → Line → Bytes → HeadersIn → Bool × HeadersIn
call_handler g l block u =
    let h = allocated l.hash (length l.name) (length l.value) (some block) in
    elim (g.find l.hash (drop (suc (length l.name) + suc (length l.value)) block)) [
      | none ↦ (true, u)
      | some handler ↦ elim (handler h u) [ none ↦ (false, u) | some v ↦ (true, v) ]
    ]

-- A round of the loop on a line. The new header is in the list before its memory is there.
unfoldable pub take_line : Nginx → Line → HeadersIn → Outcome (Bool × HeadersIn)
unfolding fill_block call_handler
take_line g l u =
    if g.push (length u.headers)
    then elim (g.pnalloc (length u.headers) (block_size l)) [
      | none ↦ ret (false, add_header (allocated l.hash (length l.name) (length l.value) none) u)
      | some mem ↦ do
        block ← fill_block g l mem
        ret (
            call_handler g l block
              (add_header (allocated l.hash (length l.name) (length l.value) (some block)) u))
    ]
    else ret (false, u)

-- `ngx_hash` over the letters of a name.
unfoldable pub hash_of : Nginx → ℕ → Bytes → ℕ
hash_of g n [] = n
hash_of g n (x ∷ xs) = hash_of g (g.hash n x) xs

-- The header that is added where the answer has none.
unfoldable pub add_missing : Nginx → Bool → ℕ → Bytes → Bytes → Bytes → HeadersIn → Bool × HeadersIn
unfolding hash_of
add_missing g true first rest key lowcase u = (true, u)
add_missing g false first rest key lowcase u =
    if g.push (length u.headers)
    then (true, add_header (constant (hash_of g first rest) key lowcase) u)
    else (false, u)

unfoldable pub finish_headers : Nginx → HeadersIn → Rc × HeadersIn
unfolding add_missing
finish_headers g u =
    let (a, v) = add_missing g u.server 115 (codes "erver") (codes "Server") (codes "server") u in
    let (b, w) = add_missing g v.date 100 (codes "ate") (codes "Date") (codes "date") v in
    if a then (if b then (ok, w) else (failed, w)) else (failed, v)

-- `mytest_upstream_process_header`, on the lines that the parser finds and its last answer.
unfoldable pub process_header : Nginx → List Line → Parsed → HeadersIn → Outcome (Rc × HeadersIn)
unfolding take_line finish_headers
process_header g [] header_done u = ret (finish_headers g u)
process_header g [] need_more u = ret (again, u)
process_header g [] bad_line u = ret (invalid_header, u)
process_header g (l ∷ ls) last u = do
  (going, v) ← take_line g l u
  elim going [ true ↦ process_header g ls last v | false ↦ ret (failed, v) ]
