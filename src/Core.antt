-- ===== src/Core.antt =====
-- fanout-core (flow-toolchain/fanout-core/Fanoutcore): the kernel behind the FFI.
pub mod SlotMap
pub mod Slots
pub mod Stale
pub mod Partial
pub mod Rooms
pub mod Kernels
pub mod Delivery
pub mod Tests
