-- ===== src/Mysql/Instance.antt =====
-- The calls of CMysqlPool behind `Init`: they pass on to CManagePool and to MysqlCPP (mysqlpool.cpp,
-- mysqlpool.h).
use vs_http_server.Prelude.{ℕ, Bool, Option, none, some, List, [], Outcome, ret, ◌>>=◌, or_fault}
use vs_http_server.Mysql.State.{
  ManagePool, GetConn, get_mysql_conn, release_mysql_conn, free_mysql_conn_pool,
}
use vs_http_server.Mysql.Sql.{Stored, MapRes, handled, thrown, handle_sql}

-- `m_pool` and `m_SQL`, which has no value before `SetSQLsock`: the number of its MYSQL and its table.
pub record SqlPool : Type 0 where
  pub pool : ManagePool
  pub sql : Option (ℕ × MapRes)

-- `GetMysqlConn`: NULL is passed on as NULL.
unfoldable pub pool_get : (ℕ → Bool) → SqlPool → Outcome (GetConn × SqlPool)
pool_get ping p = do (found, q) ← get_mysql_conn ping p.pool; ret (found, record p { pool = q })

unfoldable pub pool_release : ℕ → SqlPool → SqlPool
pool_release n p = record p { pool = release_mysql_conn n p.pool }

unfoldable pub pool_free : SqlPool → List ℕ × SqlPool
pool_free p = let r = free_mysql_conn_pool p.pool in (r.0, record p { pool = r.1 })

-- `SetSQLsock`: a new MysqlCPP; the one before is not deleted.
unfoldable pub set_sql_sock : ℕ → SqlPool → SqlPool
set_sql_sock mysql p = record p { sql = some (mysql, []) }

-- `HandleSQL`: `none` is an exception. It comes before the table is touched.
unfoldable pub pool_handle_sql :
    Bool → Bool → Bool → Stored → List Stored → SqlPool → Outcome (Option SqlPool)
pool_handle_sql query ping repeated s rest p = do
  (mysql, table) ← or_fault p.sql
  done ← handle_sql query ping repeated s rest table
  elim done [ thrown ↦ ret none | handled m ↦ ret (some (record p { sql = some (mysql, m) })) ]

-- `~CMysqlPool()`: the deletion of `m_SQL` needs its value.
unfoldable pub delete_sql_pool : SqlPool → Outcome (ManagePool × ℕ)
delete_sql_pool p = do (mysql, _) ← or_fault p.sql; ret (p.pool, mysql)
