-- ===== src/Zones/Tests/Reach.antt =====
-- Two zones side by side: a record of the one is reached from the other.
use weft_warp_loop.Base.{
  ℕ, zero, suc, ◌≤◌, ◌+◌, ◌<◌, ◌≡◌, ◌≢◌, ◌⊎◌, refl, inl, inr, Option, none, some, [], ◌∷◌, map,
  get_elem?, length, occurs, arith,
}
use weft_warp_loop.Zones.Area.{
  EntityRecord, Zone, authority_for_index, range_contains, interest_capacity, lookahead_ticks,
}
use weft_warp_loop.Zones.Ghost.{within_ghost_range, ghost_expansion, axis_dist}
use weft_warp_loop.Zones.Curve.{to_u64}
use weft_warp_loop.Zones.World.{ZoneWorld, fresh_record, live_from, live_zones, zone_at}
use weft_warp_loop.Zones.Targets.{origin, record_of, targets_for_index}
use weft_warp_loop.Zones.Population.{times}
use weft_warp_loop.Zones.Beside.{NearestAfter}
use weft_warp_loop.Zones.Reaching.{targets_for_index-reaches}

abbrev visitor : EntityRecord
visitor = fresh_record 6 8 origin 0 0 0 0

abbrev left_zone : Zone
left_zone = record {
  range = record { start = 0; stop = 8 };
  entities = fresh_record 5 0 origin 0 0 0 0 ∷ [];
}

abbrev right_zone : Zone
right_zone = record { range = record { start = 8; stop = 16 }; entities = visitor ∷ [] }

abbrev two_zones : ZoneWorld
two_zones = record {
  zones = record { slots = (1, some left_zone) ∷ (1, some right_zone) ∷ []; free_list = [] };
  bits = 21;
}

right-NearestAfter :
    NearestAfter (map zone_at (live_zones two_zones)) 0 left_zone.range 1 right_zone
unfolding live_from get_elem?
right-NearestAfter = record {
  at_index = refl;
  other = omega arith;
  starts_after = omega arith;
  proper = omega arith;
  closest = nobody;
}
  where
    clash : {x : Zone} → ◌≡◌ {A = Option Zone} none (some x) → ⊥
    clash q = ground arith

    nobody :
        (i : ℕ) (x : Zone)
        → get_elem? (left_zone ∷ right_zone ∷ []) i ≡ some x
        → i ≢ 0
        → i ≢ 1
        → 8 ≤ x.range.start
        → 8 < x.range.start
    nobody zero x e a b c = absurd (a refl)
    nobody (suc zero) x e a b c = absurd (b refl)
    nobody (suc (suc i)) x e a b c = absurd (clash e)

targets_for_index-reaches_example :
    (0 < occurs 6 (targets_for_index two_zones 5 3))
    ⊎ (length (targets_for_index two_zones 5 3) + times 5 left_zone.entities
        ≡ length left_zone.entities + interest_capacity)
unfolding live_from authority_for_index range_contains get_elem? within_ghost_range record_of
    ghost_expansion axis_dist to_u64 lookahead_ticks
targets_for_index-reaches_example =
    targets_for_index-reaches two_zones 5 3 0 1 left_zone right_zone visitor refl refl
      (inr right-NearestAfter) (inl refl) (omega arith) refl
