-- ===== src/Sketch.antt =====
-- sketch-core (flow-toolchain/sketch-core/SketchCore): stroke packets, and the history of a room.
pub mod Codec
pub mod History
pub mod Strokes
pub mod Exports
pub mod Order
pub mod Placing
pub mod Arranging
pub mod Ordered
pub mod Settling
pub mod Receiving
pub mod Convergence
pub mod Roundtrip
pub mod Replay
pub mod Latejoin
pub mod Cycles
pub mod Joined
pub mod Forest
pub mod Uniting
pub mod Components
pub mod Tests
