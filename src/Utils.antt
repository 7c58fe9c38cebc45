-- ===== src/Utils.antt =====
-- Values of SNMP variables and their conversions, internal/utils/.
pub mod Extract
pub mod Power
pub mod Duration
pub mod DateTime
