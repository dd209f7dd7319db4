-- ===== src/Push.antt =====
-- src/cpp/push/main.cpp: the relay that answers requests from monitor.db, one JSON document a line.
pub mod Conn
pub mod Queries
pub mod Request
pub mod Server
pub mod Session
pub mod Start
pub mod Protocol
