-- ===== src/Core/Kernels.antt =====
-- The two Lean kernels as the C++ host calls them: the rooms of fanout-core, with its zones and with
-- sketch-core as parameters.
use weft_warp_loop.Base.{ℕ, ◌≡◌, ◌≢◌, Option, some, List, Bytes, All}
use weft_warp_loop.Wire.Decimal.{ℤ}
use weft_warp_loop.Core.Rooms.{
  Rooms, alloc_room, sub_room, unsub_room, pub_targets, pub_targets-All,
}
use weft_warp_loop.Ffi.{Ffi, Laws}

-- The calls over zones and over sketches, as the exports of the other parts of the kernels give
-- them.
pub record Zones : Type 1 where
  pub World : Type 0
  pub entity_move_v : ℕ → ℤ → ℤ → ℤ → ℕ → ℕ → ℕ → ℕ → World → World
  pub entity_remove : ℕ → World → World
  pub zone_targets : ℕ → ℤ → ℤ → ℤ → World → List ℕ

pub record Sketches : Type 1 where
  pub Board : Type 0
  pub apply_packet : ℕ → Bytes → Board → Option ℕ × Board
  pub history_count : ℕ → Board → Option ℕ
  pub history_packet : ℕ → ℕ → Board → Option Bytes

-- The global states of the kernels.
pub record KernelState (World Board : Type 0) : Type 0 where
  pub rooms : Rooms
  pub world : World
  pub board : Board

-- The kernels together: rooms as in Core/Rooms, and zones and sketches as they are given.
abbrev pub kernels : Zones → Sketches → Ffi
kernels zones sketches = record {
  State = KernelState zones.World sketches.Board;
  alloc_room = λ s. let (r, rooms) = alloc_room s.rooms in (r, record s { rooms = rooms });
  sub_room = λ room c s. record s { rooms = sub_room room c s.rooms };
  unsub_room = λ room c s. record s { rooms = unsub_room room c s.rooms };
  room_targets = λ room c s. some (pub_targets room c s.rooms);
  entity_move_v =
      λ c x y z vx vy vz k s. record s { world = zones.entity_move_v c x y z vx vy vz k s.world };
  entity_remove = λ c s. record s { world = zones.entity_remove c s.world };
  zone_targets = λ c x y z s. some (zones.zone_targets c x y z s.world);
  sketch_apply_packet = λ room bs s.
      let (r, b) = sketches.apply_packet room bs s.board in (r, record s { board = b });
  sketch_history_count = λ room s. sketches.history_count room s.board;
  sketch_history_packet = λ room i s. sketches.history_packet room i s.board;
}

-- A publisher is not among the targets of its zone.
abbrev pub ZoneLaw : Zones → Type 0
ZoneLaw zones =
    (c : ℕ) (x y z : ℤ) (w : zones.World) → All (λ t. t ≢ c) (zones.zone_targets c x y z w)

some_list : {a b : List ℕ} → some a ≡ some b → a ≡ b
some_list e = cc

-- With such zones, the kernels keep what the host relies on.
pub kernels-Laws :
    (zones : Zones) (sketches : Sketches) → ZoneLaw zones → Laws (kernels zones sketches)
kernels-Laws zones sketches law = record {
  room_targets_others = λ room c s ts e. rw (some_list e) at (pub_targets-All room c s.rooms);
  zone_targets_others = λ c x y z s ts e. rw (some_list e) at (law c x y z s.world);
}
