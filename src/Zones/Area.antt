-- ===== src/Zones/Area.antt =====
-- A zone and what it holds, and the zones beside it on the curve (Zone.lean).
use weft_warp_loop.Base.{
  ℕ, suc, ◌-◌, ◌^◌, Bool, true, false, ◌&&◌, Option, none, some, List, [], ◌∷◌, ◌++◌, ◌==◌, leb,
  ltb, if◌then◌else◌, length,
}
use weft_warp_loop.Core.SlotMap.{SlotId}
use weft_warp_loop.Zones.Curve.{Pos3}
use weft_warp_loop.Zones.Ghost.{Mover, default_lookahead_ticks}

-- `ZoneRange`: from `start` up to, and without, `stop`.
pub record ZoneRange : Type 0 where
  pub start : ℕ
  pub stop : ℕ

unfoldable pub range_contains : ZoneRange → ℕ → Bool
range_contains r idx = leb r.start idx && ltb idx r.stop

unfoldable pub range_overlaps : ZoneRange → ZoneRange → Bool
range_overlaps a b = ltb a.start b.stop && ltb b.start a.stop

-- `EntityRecord`.
pub record EntityRecord : Type 0 where
  pub conn_id : ℕ
  pub idx : ℕ
  pub pos : Pos3
  pub vx : ℕ
  pub vy : ℕ
  pub vz : ℕ
  pub rtt_ticks : ℕ
  pub pending_zone : Option SlotId
  pub migration_streak : ℕ

-- `EntityRecord.lookaheadTicks`.
unfoldable pub lookahead_ticks : EntityRecord → ℕ
lookahead_ticks r = if r.rtt_ticks == 0 then default_lookahead_ticks else r.rtt_ticks

-- What the test of ghost range reads of a record.
abbrev pub mover : EntityRecord → Mover
mover r = record { pos = r.pos; vx = r.vx; vy = r.vy; vz = r.vz; lookahead = lookahead_ticks r }

pub record Zone : Type 0 where
  pub range : ZoneRange
  pub entities : List EntityRecord

abbrev pub authority_capacity : ℕ
authority_capacity = 256

abbrev pub interest_capacity : ℕ
interest_capacity = 400

-- `any (·.connId == c)`.
unfoldable pub holds : ℕ → List EntityRecord → Bool
holds c [] = false
holds c (r ∷ rs) = if r.conn_id == c then true else holds c rs

-- `Zone.sub`, on the entities.
unfoldable pub enter : EntityRecord → List EntityRecord → List EntityRecord
enter r rs =
    if holds r.conn_id rs
    then rs
    else if leb authority_capacity (length rs)
    then rs
    else rs ++ (r ∷ [])

unfoldable pub zone_sub : Zone → EntityRecord → Zone
unfolding enter
zone_sub z r = record z { entities = enter r z.entities }

-- `filter (·.connId != c)`, and `Zone.unsub`.
unfoldable pub expel : ℕ → List EntityRecord → List EntityRecord
expel c [] = []
expel c (r ∷ rs) = let rest = expel c rs in if r.conn_id == c then rest else r ∷ rest

unfoldable pub zone_unsub : ℕ → Zone → Zone
unfolding expel
zone_unsub c z = record z { entities = expel c z.entities }

abbrev pub next_index : Option ℕ → Option ℕ
next_index none = none
next_index (some i) = some (suc i)

-- `authorityForIndex`: the first zone whose range has the index.
unfoldable pub authority_for_index : List Zone → ℕ → Option ℕ
authority_for_index [] idx = none
authority_for_index (z ∷ zs) idx =
    let rest = authority_for_index zs idx in
    if range_contains z.range idx then some 0 else next_index rest

-- The nearest zones so far on both sides.
pub record Sides : Type 0 where
  pub before : Option ℕ
  pub before_stop : ℕ
  pub after : Option ℕ
  pub after_start : ℕ

abbrev pub see_before : ZoneRange → ℕ → ZoneRange → Sides → Sides
see_before target i r s =
    if leb r.stop target.start && ltb s.before_stop r.stop
    then record s { before = some i; before_stop = r.stop }
    else s

abbrev pub see_after : ZoneRange → ℕ → ZoneRange → Sides → Sides
see_after target i r s =
    if leb target.stop r.start && ltb r.start s.after_start
    then record s { after = some i; after_start = r.start }
    else s

abbrev pub see : ℕ → ZoneRange → ℕ → ZoneRange → Sides → Sides
see own target i r s = if i == own then s else see_after target i r (see_before target i r s)

-- The loop of `adjacentZones`, from the zone at index `i` on.
unfoldable pub sides_from : ℕ → ZoneRange → ℕ → List Zone → Sides → Sides
sides_from own target i [] s = s
sides_from own target i (z ∷ zs) s = sides_from own target (suc i) zs (see own target i z.range s)

abbrev pub listed : Option ℕ → List ℕ
listed none = []
listed (some i) = i ∷ []

abbrev pub no_sides : Sides
no_sides = record { before = none; before_stop = 0; after = none; after_start = 2 ^ 64 - 1 }

-- `adjacentZones`, given the zone at the index.
unfoldable pub adjacent_zones : List Zone → ℕ → Option Zone → List ℕ
adjacent_zones zones own none = []
adjacent_zones zones own (some target) =
    let s = sides_from own target.range 0 zones no_sides in listed s.before ++ listed s.after
