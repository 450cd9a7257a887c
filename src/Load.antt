-- ===== src/Load.antt =====
-- The load client (flow-toolchain/examples/fanout_load_client.actor.cpp and
-- fanout_load_client_main.actor.cpp).
pub mod Player
pub mod Publishing
pub mod Lifecycle
pub mod Round
pub mod Stragglers
pub mod Ramp
pub mod Launch
pub mod Command
pub mod Process
pub mod Tests
