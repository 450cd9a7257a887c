-- ===== src/Boot.antt =====
-- What runs before and beside the server: the start of the kernels (fanout_core_ffi.cpp) and the
-- sandboxed scripts (s7_riscv_core.h, s7_riscv_core.cpp, s7_riscv_actor.actor.cpp).
pub mod Start
pub mod Script
pub mod Main
pub mod Guest
pub mod Tests
