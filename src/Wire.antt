-- ===== src/Wire.antt =====
-- The bytes on the wire: decimal integers, the ZPB header, frame prefixes and units
-- (flow-toolchain/examples/picoquic_fanout_server.actor.cpp).
pub mod Decimal
pub mod Zpb
pub mod Units
pub mod Tests
