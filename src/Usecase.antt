-- ===== src/Usecase.antt =====
-- The use cases of internal/usecase/.
pub mod Keys
pub mod Device
pub mod Lists
pub mod EmptyIds
pub mod Serials
pub mod Prewarm
pub mod Eviction
pub mod Pages
pub mod Uplink
pub mod Detail
