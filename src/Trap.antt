-- ===== src/Trap.antt =====
-- SNMP traps and notifications, internal/trap/.
pub mod Index
pub mod Event
pub mod Batcher
pub mod Listener
pub mod Handler
pub mod Power
pub mod Webhook
