-- ===== src/Tests.antt =====
-- Instances of the parameters, and the theorems at concrete inputs.
pub mod Stores
pub mod Port
pub mod Usecases
pub mod Traps
pub mod Olts
pub mod Devices
pub mod Power
pub mod Listener
pub mod Pool
pub mod Web
pub mod Net
pub mod Prewarm
