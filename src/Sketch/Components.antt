-- ===== src/Sketch/Components.antt =====
-- The components and cycles of a sketch graph: one root for each, and the count of the cycles.
use weft_warp_loop.Base.{
  ℕ, zero, suc, ◌+◌, ◌<◌, ◌≤◌, ◌≡◌, refl, sym, ap, ◌∙◌, List, [], ◌∷◌, length, get_elem?, arith,
}
use weft_warp_loop.Core.SlotMap.{range_from}
use weft_warp_loop.Sketch.Cycles.{
  GraphSegment, SketchGraph, parent_of, find_root, unite, unite_all, roots_from, united,
  component_count, cycle_count,
}
use weft_warp_loop.Sketch.Joined.{
  Joined, relabel, relabel_all, Joined-relabel_all, relabel_all-Joined,
}
use weft_warp_loop.Sketch.Forest.{Forest, find_root-label}
use weft_warp_loop.Sketch.Uniting.{unite-Forest}

length-range_from : (i n : ℕ) → length (range_from i n) ≡ n
length-range_from i zero = refl
length-range_from i (suc n) = ap suc (length-range_from (suc i) n)

parent_of-range_from : (k n i : ℕ) → i < n → parent_of (range_from k n) i ≡ k + i
unfolding parent_of get_elem?
parent_of-range_from k zero i h = absurd (omega arith)
parent_of-range_from k (suc n) zero h = omega arith
parent_of-range_from k (suc n) (suc i) h =
    parent_of-range_from (suc k) n i (omega arith) ∙ omega arith

roots_from-all :
    (parent : List ℕ) (i n : ℕ)
    → ((j : ℕ) → j < i + n → parent_of parent j ≡ j)
    → roots_from parent i n ≡ n
unfolding roots_from
roots_from-all parent i zero h = refl
roots_from-all parent i (suc n) h =
    let here : parent_of parent i ≡ i = h i (omega arith) in
    let rest = roots_from-all parent (suc i) n (λ j b. h j (omega arith)) in
    ground (arith, here, rest)

every_root : (n : ℕ) → roots_from (range_from 0 n) 0 n ≡ n
every_root n =
    roots_from-all (range_from 0 n) 0 n
      (λ j h. parent_of-range_from 0 n j (omega arith) ∙ omega arith)

-- Every node its own root.
single_Forest : (n : ℕ) → Forest n (range_from 0 n) (λ i. i) 0
single_Forest n =
    let own : (i : ℕ) → i < n → parent_of (range_from 0 n) i ≡ i =
      λ i h. parent_of-range_from 0 n i h ∙ omega arith in
    record {
      size = length-range_from 0 n;
      depth = λ i. 0;
      at_root = λ i h. (refl, refl);
      below = λ i h inner. absurd (inner (own i h));
      ends = λ i h. (h, own i h);
      shallow = λ i h. omega arith;
      counted = omega (arith, every_root n);
    }

unfoldable pub Inside : ℕ → List GraphSegment → Type 0
Inside n [] = Unit
Inside n (s ∷ ss) = ((s.node_a < n) × (s.node_b < n)) × Inside n ss

unite_all-Forest :
    (n : ℕ) (ss : List GraphSegment) (parent : List ℕ) (label : ℕ → ℕ) (merges : ℕ)
    → Inside n ss
    → Forest n parent label merges
    → (m : ℕ) × ((m ≤ merges + length ss)
        × Forest n (unite_all n ss parent) (relabel_all ss label) m)
unfolding Inside unite_all relabel_all
unite_all-Forest n [] parent label merges inside forest = (merges, (omega arith, forest))
unite_all-Forest n (s ∷ ss) parent label merges ((a, b), inside) forest =
    let (k, (few, one)) = unite-Forest n parent label merges s forest a b in
    let (m, (few', all)) =
      unite_all-Forest n ss (unite n parent s) (relabel s label) k inside one in
    (m, (omega (arith, few, few'), all))

abbrev pub Connected : {F : Type 0} → SketchGraph F → ℕ → ℕ → Type 0
Connected g a b = Joined (λ i. i) g.segments a b

-- One root in each component.
pub record Components {F : Type 0} (g : SketchGraph F) : Type 0 where
  pub inside :
      (i : ℕ) → i < length g.nodes → find_root (length g.nodes) (united g) i < length g.nodes
  pub root :
      (i : ℕ)
      → i < length g.nodes
      → parent_of (united g) (find_root (length g.nodes) (united g) i)
        ≡ find_root (length g.nodes) (united g) i
  pub reached :
      (i : ℕ) → i < length g.nodes → Connected g i (find_root (length g.nodes) (united g) i)
  pub one :
      (i j : ℕ)
      → i < length g.nodes
      → j < length g.nodes
      → Connected g i j
      → find_root (length g.nodes) (united g) i ≡ find_root (length g.nodes) (united g) j

module _ {F : Type 0} (g : SketchGraph F) (all_in : Inside (length g.nodes) g.segments) where
  -- In a graph whose segments end at nodes of it, the walk of componentCount from a node, of as
  -- many steps as there are nodes, ends at a node that is a root and is connected with it along
  -- segments, and from connected nodes it ends at the same root. So each component has one root.
  pub united-Components : Components g
  united-Components =
      let (m, (few, forest)) =
        unite_all-Forest (length g.nodes) g.segments (range_from 0 (length g.nodes)) (λ i. i) 0
          all_in (single_Forest (length g.nodes)) in
      let found =
        find_root-label (length g.nodes) (united g) (relabel_all g.segments (λ i. i)) m forest in
      record {
        inside = λ i h. rw (found i h) (forest.ends i h).0;
        root = λ i h. rw (found i h) (forest.ends i h).1;
        reached = λ i h.
            relabel_all-Joined g.segments (λ i. i) i (find_root (length g.nodes) (united g) i)
              (rw (found i h)
                (sym (forest.at_root (relabel_all g.segments (λ i. i) i) (forest.ends i h).1).0));
        one =
            λ i j h k c. found i h ∙ Joined-relabel_all g.segments (λ i. i) i j c ∙ sym (found j k);
      }

  component_count_lem : component_count g ≡ roots_from (united g) 0 (length g.nodes)
  unfolding component_count roots_from
  component_count_lem = ground arith

  -- In a graph whose segments end at nodes of it, the cycles and the nodes are together as many as
  -- the segments and the components: the subtraction of cycleCount is never cut off at 0.
  pub cycle_count_lem : cycle_count g + length g.nodes ≡ length g.segments + component_count g
  unfolding cycle_count
  cycle_count_lem =
      let (m, (few, forest)) =
        unite_all-Forest (length g.nodes) g.segments (range_from 0 (length g.nodes)) (λ i. i) 0
          all_in (single_Forest (length g.nodes)) in
      let counted = forest.counted in ground (arith, component_count_lem, counted, few)
