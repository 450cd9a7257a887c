-- ===== src/Zones.antt =====
-- The zones of fanout-core (flow-toolchain/fanout-core/Fanoutcore/Zone.lean, Partition.lean,
-- ZoneDispatch.lean and the exports of Ffi.lean): who has authority over a position.
pub mod Curve
pub mod Ghost
pub mod Area
pub mod Octree
pub mod World
pub mod Targets
pub mod Split
pub mod Merge
pub mod Hysteresis
pub mod Exports
pub mod Population
pub mod Expelled
pub mod Authority
pub mod Emptied
pub mod Moved
pub mod Arrival
pub mod Tiles
pub mod Distance
pub mod Bound
pub mod Started
pub mod Interest
pub mod Beside
pub mod Reaching
pub mod Breeding
pub mod Filing
pub mod Splitting
pub mod Placed
pub mod Moving
pub mod Siblings
pub mod Merging
pub mod Tests
