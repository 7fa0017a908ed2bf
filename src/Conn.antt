-- ===== src/Conn.antt =====
-- Conn and ConnQueue (http_conn.h, http_conn.cpp): the connections of an event thread.
pub mod State
pub mod Chain
pub mod Pointers
pub mod Links
pub mod Frame
pub mod Insert
pub mod Delete
pub mod New
pub mod Trace
pub mod Free
pub mod Tests
