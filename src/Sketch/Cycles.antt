-- ===== src/Sketch/Cycles.antt =====
-- The count of the cycles of a sketch graph (Graph.lean): union-find over the ends of the segments.
use weft_warp_loop.Base.{
  ℕ, zero, suc, ◌+◌, ◌-◌, List, [], ◌∷◌, ◌==◌, leb, if◌then◌else◌, length, get_elem?, get_or, set,
}
use weft_warp_loop.Core.SlotMap.{range_from}
use weft_warp_loop.Sketch.Codec.{Vec3}

pub record GraphNode (F : Type 0) : Type 0 where
  pub pos : Vec3 F

pub record GraphSegment : Type 0 where
  pub stroke_idx : ℕ
  pub node_a : ℕ
  pub node_b : ℕ

pub record SketchGraph (F : Type 0) : Type 0 where
  pub nodes : List (GraphNode F)
  pub segments : List GraphSegment
  pub polylines : List (List (Vec3 F))

-- `parent[r]!`.
unfoldable pub parent_of : List ℕ → ℕ → ℕ
parent_of parent r = get_or (get_elem? parent r) 0

-- The walk to the root, of as many steps as there are nodes.
unfoldable pub find_root : ℕ → List ℕ → ℕ → ℕ
find_root zero parent r = r
find_root (suc steps) parent r =
    find_root steps parent (if parent_of parent r == r then r else parent_of parent r)

unfoldable pub unite : ℕ → List ℕ → GraphSegment → List ℕ
unite n parent s =
    let ra = find_root n parent s.node_a in
    let rb = find_root n parent s.node_b in if ra == rb then parent else set parent rb ra

unfoldable pub unite_all : ℕ → List GraphSegment → List ℕ → List ℕ
unite_all n [] parent = parent
unite_all n (s ∷ ss) parent = unite_all n ss (unite n parent s)

-- How many of the `n` nodes from `i` on are roots.
unfoldable pub roots_from : List ℕ → ℕ → ℕ → ℕ
roots_from parent i zero = 0
roots_from parent i (suc n) =
    let rest = roots_from parent (suc i) n in if parent_of parent i == i then suc rest else rest

module _ {F : Type 0} where
  abbrev pub united : SketchGraph F → List ℕ
  united g = unite_all (length g.nodes) g.segments (range_from 0 (length g.nodes))

  -- `componentCount`.
  unfoldable pub component_count : SketchGraph F → ℕ
  component_count g = let n = length g.nodes in if n == 0 then 0 else roots_from (united g) 0 n

  -- `cycleCount`.
  unfoldable pub cycle_count : SketchGraph F → ℕ
  cycle_count g =
      let e = length g.segments in
      let v = length g.nodes in let c = component_count g in if leb v (e + c) then e + c - v else 0
