-- ===== src/Tests.antt =====
-- Concrete inputs at which the theorems apply.
pub mod Wire
pub mod Bodies
pub mod Tensors
pub mod Clients
pub mod Builders
pub mod Hosts
