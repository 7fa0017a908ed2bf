-- ===== src/Mysql/Laws.antt =====
-- `_GetMysqlConn` on every branch, and the pool that the constructor builds.
use vs_http_server.Prelude.{
  ℕ, zero, suc, ◌+◌, ◌^◌, ◌%◌, ◌<◌, ◌≡◌, refl, ap, sym, ◌∙◌, Bool, true, false, some, List, [], ◌∷◌,
  ◌++◌, arith, if◌then◌else◌, lt→ltb, ret, Returns, Allows,
}
use mathlib.Core.List.{append_assoc, append-nil}
use vs_http_server.Pool.Counts.{erase}
use vs_http_server.Pool.State.{increment, decrement, u32}
use vs_http_server.Mysql.State.{
  ManagePool, Database, GetConn, blocked, no_conn, conn, ping_conn, get_front, get_mysql_conn,
  move_to_busy, append_to_idle, create_mysql_conn, asserted, init_conns, set_node, connected,
  empty_manage_pool, manage_pool,
}

-- What a call of `_GetMysqlConn` answers.
abbrev pub Gets : (ℕ → Bool) → ManagePool → GetConn × ManagePool → Type 0
Gets ping p (blocked, q) = (p.get_locked ≡ true) × (q ≡ p)
Gets ping p (no_conn, q) =
    (p.get_locked ≡ false)
    × (q.get_locked ≡ true)
    × (q.idle_list ≡ p.idle_list)
    × (q.busy_list ≡ p.busy_list)
    × (q.current_idle_conn_num ≡ p.current_idle_conn_num)
Gets ping p (conn n, q) =
    (p.get_locked ≡ false)
    × (ping n ≡ true)
    × (q.get_locked ≡ false)
    × (p.idle_list ≡ n ∷ q.idle_list)
    × (q.busy_list ≡ p.busy_list ++ (n ∷ []))
    × (q.current_idle_conn_num ≡ decrement p.current_idle_conn_num)

pub erase-head : (n : ℕ) (xs : List ℕ) → erase n (n ∷ xs) ≡ xs
unfolding erase
erase-head n xs = ground arith

ping_conn-Gets :
    (ping : ℕ → Bool) (b : Bool) (n : ℕ) (rest : List ℕ) (p : ManagePool)
    → p.get_locked ≡ false
    → ping n ≡ b
    → p.idle_list ≡ n ∷ rest
    → Gets ping p (ping_conn b n p)
unfolding ping_conn move_to_busy
ping_conn-Gets ping true n rest p free b e =
    (free, b, free, e ∙ ap (◌∷◌ n) (sym (ap (erase n) e ∙ erase-head n rest)), refl, refl)
ping_conn-Gets ping false n rest p free b e = (free, refl, refl, refl, refl)

get_front-Gets :
    (ping : ℕ → Bool) (idle : List ℕ) (p : ManagePool)
    → p.get_locked ≡ false
    → p.idle_list ≡ idle
    → Allows ((p.get_locked ≡ false) × (p.idle_list ≡ [])) (Gets ping p) (get_front ping idle p)
unfolding get_front
get_front-Gets ping [] p free e = (free, e)
get_front-Gets ping (n ∷ rest) p free e = ping_conn-Gets ping (ping n) n rest p free refl e

-- A call makes a bad access only where the mutex is free and no connection is idle. Else it waits
-- where the mutex is locked, and changes nothing; or it hands out the first idle connection, which
-- answers the ping, is busy now and leaves the mutex free; or it returns NULL, with the mutex locked
-- for good and the lists as they were.
pub get_mysql_conn-Gets :
    (ping : ℕ → Bool) (p : ManagePool)
    → Allows ((p.get_locked ≡ false) × (p.idle_list ≡ [])) (Gets ping p) (get_mysql_conn ping p)
unfolding get_mysql_conn
get_mysql_conn-Gets ping p = by_lock p.get_locked refl
  where
    by_lock :
        (b : Bool)
        → p.get_locked ≡ b
        → Allows
            ((p.get_locked ≡ false) × (p.idle_list ≡ []))
            (Gets ping p)
            (if b then ret (blocked, p) else get_front ping p.idle_list p)
    by_lock true locked = (locked, refl)
    by_lock false free = get_front-Gets ping p.idle_list p free refl

-- `num` connections are made, numbered from `i`.
abbrev pub upto : ℕ → ℕ → List ℕ
upto i zero = []
upto i (suc n) = i ∷ upto (suc i) n

-- Each of the first `num` connections is made.
abbrev pub Works : Database → ℕ → Type 0
Works db num =
    (n : ℕ)
    → n < num
    → (db.mysql_init n ≡ true) × ((sock : ℕ) × (db.mysql_real_connect n ≡ some sock))

-- What the rounds of the constructor add.
abbrev Readies : ℕ → ℕ → ManagePool → Bool × ManagePool → Type 0
Readies i rounds p r =
    (r.0 ≡ true)
    × (r.1.idle_list ≡ p.idle_list ++ upto i rounds)
    × (r.1.current_idle_conn_num ≡ p.current_idle_conn_num + rounds)
    × (r.1.busy_list ≡ p.busy_list)
    × (r.1.get_locked ≡ p.get_locked)

-- The state behind a connection that is made.
abbrev made_conn : ℕ → ℕ → ManagePool → ManagePool
made_conn i sock p = append_to_idle i (record p {
  node =
      set_node i (record { mysql_sock = some sock; state = some connected; used = some i }) p.node;
})

create_mysql_conn-made :
    (db : Database) (i sock : ℕ) (p : ManagePool)
    → db.mysql_real_connect i ≡ some sock
    → create_mysql_conn db i p ≡ (true, made_conn i sock p)
unfolding create_mysql_conn append_to_idle
create_mysql_conn-made db i sock p e = rw (create_mysql_conn, e) refl

init_conns-Readies :
    (db : Database) (i rounds : ℕ) (p : ManagePool)
    → Works db (i + rounds)
    → p.current_idle_conn_num + rounds < u32
    → Readies i rounds p (init_conns db i rounds p)
unfolding init_conns append_to_idle increment
init_conns-Readies db i zero p works small =
    (refl, sym (append-nil p.idle_list), omega arith, refl, refl)
init_conns-Readies db i (suc rounds) p works small =
    let (made, (sock, e)) = works i (omega arith) in
    let q = made_conn i sock p in
    let wrap : (p.current_idle_conn_num + 1) % u32 ≡ p.current_idle_conn_num + 1 = omega arith in
    let (ok, idle, number, busy, lock) =
      init_conns-Readies db (suc i) rounds q (λ n h. works n (omega arith)) (omega (arith, wrap)) in
    rw (create_mysql_conn-made db i sock p e, made)
      (
        ok,
        idle ∙ append_assoc p.idle_list (i ∷ []) (upto (suc i) rounds),
        omega (arith, number, wrap),
        busy,
        lock,
      )

asserted-true :
    (P : ManagePool → Type 0) (r : Bool × ManagePool) → r.0 ≡ true → P r.1 → Returns P (asserted r)
asserted-true P (true, p) e h = h
asserted-true P (false, p) e h = cc

-- Where the database makes each of `num` connections, at least one, the constructor ends with all of
-- them idle, in order, none busy, their number in `m_CurrentIdleConnNum`, and the mutex free.
pub manage_pool-Ready :
    (db : Database) (num : ℕ)
    → 0 < num
    → num < 2 ^ 31
    → Works db num
    → Returns
        (λ p.
          (p.idle_list ≡ upto 0 num)
          × (p.busy_list ≡ [])
          × (p.current_idle_conn_num ≡ num)
          × (p.get_locked ≡ false))
        (manage_pool db num)
unfolding manage_pool
manage_pool-Ready db num some_conn small works =
    let (ok, idle, number, busy, lock) =
      init_conns-Readies db 0 num (empty_manage_pool num) (λ n h. works n (omega arith))
        (omega arith) in
    rw (lt→ltb 0 num some_conn) (
      asserted-true _ (init_conns db 0 num (empty_manage_pool num)) ok
        (idle, busy, omega (arith, number), lock))
