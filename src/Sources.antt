-- ===== src/Sources.antt =====
-- src/sources/common.rs: what the exchange sources share.
pub mod Download
