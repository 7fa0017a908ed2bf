-- ===== src/Mysql/Tests.antt =====
-- The theorems of the pool of connections on a pool of two.
use vs_http_server.Prelude.{
  false, ℕ, ◌≡◌, refl, Bool, true, false, none, some, List, [], ◌∷◌, arith, drop, fault, Returns,
  Allows,
}
use vs_http_server.CString.{codes}
use vs_http_server.Mysql.Sql.{Stored, rows}
use vs_http_server.Mysql.State.{Database, ManagePool, get_mysql_conn}
use vs_http_server.Mysql.Laws.{Gets, get_mysql_conn-Gets}
use vs_http_server.Mysql.Trace.{
  Call, get, release, run_calls, gets, run_calls-Drains, run_calls-fault,
}

abbrev running : Database
running = record { mysql_init = λ n. true; mysql_real_connect = λ n. some n }

abbrev answers : ℕ → Bool
answers n = true

abbrev two_conns : ManagePool
two_conns = record {
  idle_list = 0 ∷ 1 ∷ [];
  busy_list = [];
  idle_init_num = 2;
  current_idle_conn_num = 2;
  get_locked = false;
  node = λ n. record { mysql_sock = some n; state = none; used = none };
}

get_mysql_conn-Gets_example :
    Allows
      ((two_conns.get_locked ≡ false) × (two_conns.idle_list ≡ []))
      (Gets answers two_conns)
      (get_mysql_conn answers two_conns)
get_mysql_conn-Gets_example = get_mysql_conn-Gets answers two_conns

abbrev get_and_release : List Call
get_and_release = get ∷ release 0 ∷ get ∷ release 1 ∷ []

answers-all : (n : ℕ) → answers n ≡ true
answers-all n = refl

run_calls-Drains_example :
    Returns
      (λ q.
        (q.idle_list ≡ drop (gets get_and_release) two_conns.idle_list) × (q.get_locked ≡ false))
      (run_calls answers get_and_release two_conns)
run_calls-Drains_example =
    run_calls-Drains answers get_and_release two_conns answers-all refl (omega arith)

run_calls-fault_example : run_calls answers (get ∷ get_and_release) two_conns ≡ fault
run_calls-fault_example =
    run_calls-fault answers (get ∷ get_and_release) two_conns answers-all refl (omega arith)

abbrev silent : ℕ → Bool
silent n = false

-- Two rows of one field, where the second value is never found.
abbrev ages : Stored
ages = rows (codes "age" ∷ []) ((some (codes "7") ∷ []) ∷ ((none ∷ []) ∷ []))
