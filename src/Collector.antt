-- ===== src/Collector.antt =====
-- src/cpp/collector/main.cpp: polls the CHZZK API and records the answers in monitor.db.
pub mod Fetch
pub mod Store
pub mod Main
pub mod Start
