-- ===== src/Server/Stop.antt =====
-- The end of the server: `StopRun`, `~TcpEventServer()` and `~CThreadManage()`, with the members of a
-- CThreadManage (tcpeventserver.cpp, threadmanage.cpp).
use vs_http_server.Prelude.{
  ℕ, zero, suc, ◌≡◌, refl, Bool, true, false, ◌||◌, Option, none, some, List, [], ◌∷◌, ◌++◌, arith,
  length, take, drop, get_elem?, leb, if◌then◌else◌, Outcome, ret, fault, ◌>>=◌, inl, inr, ◌⊎◌,
}
use vs_http_server.Pool.State.{Pool, main_pool, worker_pool}
use vs_http_server.Pool.Dispatch.{run, Dispatch}
use vs_http_server.Server.Callbacks.{stop_run}

-- A pointer to a pool: NULL, a pool, or another value that the memory had.
pub data PoolPointer : Type 0 where
  null stray : PoolPointer
  object : Pool → PoolPointer

abbrev pub is_null : PoolPointer → Bool
is_null null = true
is_null _ = false

-- An access through the pointer.
abbrev pub pointee : PoolPointer → Outcome Pool
pointee (object p) = ret p
pointee _ = fault

pub record ManageObject : Type 0 where
  pub num_of_thread : ℕ
  pub pool : PoolPointer
  pub worker_pool : PoolPointer

-- `CThreadManage()` and `CThreadManage(int, void *)`, on the memory that the object gets. Each leaves
-- one of the two pointers as it is there.
unfoldable pub construct_workers : (ℕ → Bool) → ManageObject → ManageObject
construct_workers starts memory = record memory {
  num_of_thread = 10;
  worker_pool = object (worker_pool starts);
}

unfoldable pub construct_events : (ℕ → Bool) → ℕ → ManageObject → Outcome ManageObject
construct_events starts num memory = do
  p ← main_pool starts num
  ret (record memory { num_of_thread = num; pool = object p })

-- `SetParallelNum`, which changes no pool.
unfoldable pub set_parallel_num : ℕ → ManageObject → ManageObject
set_parallel_num num m = record m { num_of_thread = num }

-- `CThreadManage::Run`.
unfoldable pub manage_run : (ℕ → Bool) → ℕ → Option ℕ → ManageObject → Outcome Dispatch
manage_run starts job job_data m = do p ← pointee m.worker_pool; run starts job job_data p

-- `~CThreadManage()`: the pools that are deleted, which are both, or none where a pointer is NULL.
unfoldable pub delete_manage : ManageObject → Outcome (List Pool)
delete_manage m =
    let both = (do p ← pointee m.pool; w ← pointee m.worker_pool; ret (p ∷ (w ∷ []))) in
    if is_null m.pool || is_null m.worker_pool then ret [] else both

-- `~TcpEventServer()`: the pipes that `StopRun` writes to, and the threads whose event base is freed,
-- for the first `count` of the idle list; and the pools that are deleted.
unfoldable pub delete_server :
    ℕ → ManageObject → ManageObject → Outcome (List ℕ × List ℕ × List Pool)
unfolding delete_manage stop_run
delete_server count main worker = do
  p ← pointee main.pool
  stopped ← stop_run 0 count p.idle_list
  freed ← stop_run 0 count p.idle_list
  events ← delete_manage main
  workers ← delete_manage worker
  ret (stopped, freed, events ++ workers)

drop-cases :
    (i : ℕ) (idle : List ℕ)
    → (get_elem? idle i ≡ none) × (drop i idle ≡ [])
      ⊎ ((t : ℕ) × (get_elem? idle i ≡ some t) × (drop i idle ≡ t ∷ drop (suc i) idle))
drop-cases zero [] = inl (refl, refl)
drop-cases (suc i) [] = inl (refl, refl)
drop-cases zero (t ∷ idle) = inr (t, refl, refl)
drop-cases (suc i) (t ∷ idle) = drop-cases i idle

stop_run-from :
    (i count : ℕ) (idle : List ℕ)
    → stop_run i count idle
      ≡ (if leb count (length (drop i idle)) then ret (take count (drop i idle)) else fault)
unfolding stop_run
stop_run-from i zero idle = ground arith
stop_run-from i (suc count) idle = elim (drop-cases i idle) [
  | inl (e, d) ↦ ground arith
  | inr (t, e, d) ↦ ground (arith, stop_run-from (suc i) count idle)
]

-- `StopRun` writes to the pipes of the first `count` event threads of the idle list, in their order,
-- where so many are idle; where fewer are, it makes a bad access, whatever it has written before.
pub stop_run-take :
    (count : ℕ) (idle : List ℕ)
    → stop_run 0 count idle ≡ (if leb count (length idle) then ret (take count idle) else fault)
stop_run-take count idle = stop_run-from 0 count idle
