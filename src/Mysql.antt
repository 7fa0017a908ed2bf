-- ===== src/Mysql.antt =====
-- The pool of database connections: CManagePool and CMysqlPool (mysqlpool.h, mysqlpool.cpp).
mod Tests
pub mod State
pub mod Laws
pub mod Trace
pub mod Sql
pub mod Instance
