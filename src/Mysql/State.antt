-- ===== src/Mysql/State.antt =====
-- The members and the operations of CManagePool, and CMysqlPool around it (mysqlpool.cpp). A node is
-- known by a number, the round that creates it. Only `m_GetConnMutex` is a member here: the two
-- others are unlocked where the operation that locks them ends.
use vs_http_server.Prelude.{
  ℕ, zero, suc, Bool, true, false, Option, none, some, List, [], ◌∷◌, ◌++◌, ◌==◌, ltb,
  if◌then◌else◌, Outcome, ret, fault, ◌>>=◌,
}
use vs_http_server.Pool.Counts.{erase}
use vs_http_server.Pool.State.{increment, decrement}

pub data ConnNodeState : Type 0 where
  connected disconnected : ConnNodeState

-- `ConnNode`, whose members have no value at first. `mysql_sock` is a number.
pub record ConnNode : Type 0 where
  pub mysql_sock : Option ℕ
  pub state : Option ConnNodeState
  pub used : Option ℕ

-- The database: whether `mysql_init` succeeds for a node, and the answer of `mysql_real_connect`.
pub record Database : Type 0 where
  pub mysql_init : ℕ → Bool
  pub mysql_real_connect : ℕ → Option ℕ

-- `m_CurrentIdleConnNum` is kept as its 32 bits. `get_locked`: `m_GetConnMutex` is locked.
pub record ManagePool : Type 0 where
  pub idle_list : List ℕ
  pub busy_list : List ℕ
  pub idle_init_num : ℕ
  pub current_idle_conn_num : ℕ
  pub get_locked : Bool
  pub node : ℕ → ConnNode

abbrev pub set_node : ℕ → ConnNode → (ℕ → ConnNode) → ℕ → ConnNode
set_node n c f m = if m == n then c else f m

unfoldable pub append_to_idle : ℕ → ManagePool → ManagePool
unfolding increment
append_to_idle n p = record p {
  idle_list = p.idle_list ++ (n ∷ []);
  current_idle_conn_num = increment p.current_idle_conn_num;
}

unfoldable pub move_to_busy : ℕ → ManagePool → ManagePool
unfolding decrement erase
move_to_busy n p = record p {
  busy_list = p.busy_list ++ (n ∷ []);
  idle_list = erase n p.idle_list;
  current_idle_conn_num = decrement p.current_idle_conn_num;
}

-- `MoveToIdleList`. The push is onto the busy list.
unfoldable pub move_to_idle : ℕ → ManagePool → ManagePool
unfolding increment erase
move_to_idle n p = record p {
  busy_list = erase n (p.busy_list ++ (n ∷ []));
  current_idle_conn_num = increment p.current_idle_conn_num;
}

-- `CreateMysqlConn` for a node, which is never NULL.
unfoldable pub create_mysql_conn : Database → ℕ → ManagePool → Bool × ManagePool
unfolding append_to_idle
create_mysql_conn db n p = elim (db.mysql_real_connect n) [
  | none ↦ (false, record p { node = set_node n (record (p.node n) { mysql_sock = none }) p.node })
  | some sock ↦ (
    true,
    append_to_idle n (record p {
      node =
          set_node n (record { mysql_sock = some sock; state = some connected; used = some n })
            p.node;
    }),
  )
]

-- The rounds of the loop of `InitMysqlConnPool` from the round `i` on; `false` stands for -1.
unfoldable pub init_conns : Database → ℕ → ℕ → ManagePool → Bool × ManagePool
unfolding create_mysql_conn
init_conns db i zero p = (true, p)
init_conns db i (suc rounds) p =
    let made = create_mysql_conn db i p in
    let rest = init_conns db (suc i) rounds made.1 in
    if db.mysql_init i then (if made.0 then rest else (false, made.1)) else (false, p)

-- The answer 0, or the end of the program by a failed assertion.
abbrev pub asserted : Bool × ManagePool → Outcome ManagePool
asserted (true, p) = ret p
asserted (false, p) = fault

abbrev pub empty_manage_pool : ℕ → ManagePool
empty_manage_pool num = record {
  idle_list = [];
  busy_list = [];
  idle_init_num = num;
  current_idle_conn_num = 0;
  get_locked = false;
  node = λ _. record { mysql_sock = none; state = none; used = none };
}

-- `CManagePool(int)`.
unfoldable pub manage_pool : Database → ℕ → Outcome ManagePool
unfolding init_conns
manage_pool db num =
    if ltb 0 num then asserted (init_conns db 0 num (empty_manage_pool num)) else fault

-- How a call of `_GetMysqlConn` ends: it waits for `m_GetConnMutex`, returns NULL, or a node.
pub data GetConn : Type 0 where
  blocked no_conn : GetConn
  conn : ℕ → GetConn

-- The part from `mysql_ping` on, with whether it answers 0.
unfoldable pub ping_conn : Bool → ℕ → ManagePool → GetConn × ManagePool
unfolding move_to_busy
ping_conn true n p = (
  conn n,
  move_to_busy n (record p { node = set_node n (record (p.node n) { used = some 1 }) p.node }),
)
ping_conn false n p = (
  no_conn,
  record p {
    get_locked = true;
    node = set_node n (record (p.node n) { used = some 0; state = some disconnected }) p.node;
  },
)

-- The part behind the lock. The front of an empty vector is a bad access; no list holds NULL.
unfoldable pub get_front : (ℕ → Bool) → List ℕ → ManagePool → Outcome (GetConn × ManagePool)
unfolding ping_conn
get_front ping [] p = fault
get_front ping (n ∷ _) p = ret (ping_conn (ping n) n p)

-- `ping` tells of a node whether `mysql_ping` answers 0.
unfoldable pub get_mysql_conn : (ℕ → Bool) → ManagePool → Outcome (GetConn × ManagePool)
unfolding get_front
get_mysql_conn ping p = if p.get_locked then ret (blocked, p) else get_front ping p.idle_list p

unfoldable pub release_mysql_conn : ℕ → ManagePool → ManagePool
unfolding move_to_idle
release_mysql_conn n p =
    move_to_idle n (record p { node = set_node n (record (p.node n) { used = some 0 }) p.node })

-- `_FreeMysqlConnPool`: the nodes that are closed, in order, and the new state.
unfoldable pub free_mysql_conn_pool : ManagePool → List ℕ × ManagePool
free_mysql_conn_pool p =
    (p.idle_list, record p { idle_list = []; current_idle_conn_num = 0; idle_init_num = 0 })

-- `CMysqlPool`. (`m_SQL` is a MysqlCPP.)
pub record MysqlPool : Type 0 where
  pub conn_num : ℕ
  pub pool : ManagePool

-- `CMysqlPool::Init` with `pInstance`. The mutex is a local of the call and locks nothing out.
unfoldable pub init_instance : Database → ℕ → Option MysqlPool → Outcome MysqlPool
unfolding manage_pool
init_instance db num (some p) = ret p
init_instance db num none = do p ← manage_pool db num; ret (record { conn_num = num; pool = p })
