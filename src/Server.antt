-- ===== src/Server.antt =====
-- TcpEventServer and CThreadManage (tcpeventserver.cpp, threadmanage.cpp): the event threads, their
-- connections, and the callbacks.
pub mod State
pub mod Callbacks
pub mod Stop
pub mod Run
pub mod Invariant
mod Tests
