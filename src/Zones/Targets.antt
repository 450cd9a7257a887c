-- ===== src/Zones/Targets.antt =====
-- `ZoneWorld.targetsForIndex` (ZoneDispatch.lean): who gets a publish.
use weft_warp_loop.Base.{
  ℕ, ◌+◌, Bool, not, ◌&&◌, Option, none, some, List, [], ◌∷◌, ◌++◌, map, ◌==◌, ltb, if◌then◌else◌,
  get_elem?,
}
use weft_warp_loop.Wire.Decimal.{pos}
use weft_warp_loop.Zones.Curve.{Pos3, hilbert_3d}
use weft_warp_loop.Zones.Ghost.{Mover, default_lookahead_ticks, within_ghost_range}
use weft_warp_loop.Zones.Area.{
  EntityRecord, Zone, mover, authority_for_index, adjacent_zones, interest_capacity,
}
use weft_warp_loop.Zones.World.{ZoneWorld, live_zones, zone_at}

abbrev pub here_or : Option EntityRecord → EntityRecord → Bool → Option EntityRecord
here_or rest r same = if same then some r else rest

-- `find? (·.connId == c)`.
unfoldable pub record_of : ℕ → List EntityRecord → Option EntityRecord
record_of c [] = none
record_of c (r ∷ rs) = here_or (record_of c rs) r (r.conn_id == c)

abbrev pub origin : Pos3
origin = record { x = pos 0; y = pos 0; z = pos 0 }

-- The publisher as its zone knows it, or at rest at the origin.
abbrev pub publisher_mover : Option EntityRecord → Mover
publisher_mover none = record {
  pos = origin;
  vx = 0;
  vy = 0;
  vz = 0;
  lookahead = default_lookahead_ticks;
}
publisher_mover (some r) = mover r

-- The other connections of the publisher's own zone.
unfoldable pub mates : ℕ → List EntityRecord → List ℕ
mates c [] = []
mates c (r ∷ rs) = let rest = mates c rs in if not (r.conn_id == c) then r.conn_id ∷ rest else rest

-- The body of the loop over the records of a neighbouring zone: the targets so far, and how many of
-- them are of interest only.
abbrev pub interested : ℕ → Mover → EntityRecord → List ℕ × ℕ → List ℕ × ℕ
interested c p r (result, n) =
    if ltb n interest_capacity && (not (r.conn_id == c) && within_ghost_range p (mover r))
    then (result ++ (r.conn_id ∷ []), n + 1)
    else (result, n)

unfoldable pub interest_of : ℕ → Mover → List EntityRecord → List ℕ × ℕ → List ℕ × ℕ
interest_of c p [] acc = acc
interest_of c p (r ∷ rs) acc = interest_of c p rs (interested c p r acc)

abbrev pub neighbour : ℕ → Mover → Option Zone → List ℕ × ℕ → List ℕ × ℕ
neighbour c p none acc = acc
neighbour c p (some z) acc = interest_of c p z.entities acc

-- The loop over the neighbouring zones.
unfoldable pub neighbours : ℕ → Mover → List Zone → List ℕ → List ℕ × ℕ → List ℕ × ℕ
unfolding get_elem?
neighbours c p zones [] acc = acc
neighbours c p zones (j ∷ js) (result, n) =
    neighbours c p zones js (
      if ltb n interest_capacity
      then neighbour c p (get_elem? zones j) (result, n)
      else (result, n))

abbrev pub targets_in : ℕ → List Zone → ℕ → Option Zone → List ℕ
targets_in c zones own none = []
targets_in c zones own (some z) =
    (neighbours c (publisher_mover (record_of c z.entities)) zones
      (adjacent_zones zones own (get_elem? zones own)) (mates c z.entities, 0)).0

abbrev pub targets_from : ℕ → List Zone → Option ℕ → List ℕ
targets_from c zones none = []
targets_from c zones (some own) = targets_in c zones own (get_elem? zones own)

-- `targetsForIndex` and `targetsFor`.
unfoldable pub targets_for_index : ZoneWorld → ℕ → ℕ → List ℕ
unfolding get_elem?
targets_for_index w c idx =
    let zones = map zone_at (live_zones w) in targets_from c zones (authority_for_index zones idx)

abbrev pub targets_for : ZoneWorld → ℕ → Pos3 → List ℕ
targets_for w c p = targets_for_index w c (hilbert_3d w.bits p)
