-- ===== src/Http3.antt =====
-- The HTTP/3 request client (flow-toolchain/examples/artifacts_mmo_h3_client.c). The header encoders
-- of h3zero and picoquic's calls are parameters.
pub mod Request
pub mod Framing
pub mod Loop
pub mod Phases
pub mod Exchange
pub mod Tests
