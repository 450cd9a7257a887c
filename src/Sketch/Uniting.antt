-- ===== src/Sketch/Uniting.antt =====
-- A union of the ends of a segment merges their labels, and takes one root away if they differ.
use weft_warp_loop.Base.{
  ℕ, suc, ◌+◌, ◌<◌, ◌≤◌, ◌≡◌, ◌≢◌, refl, ap, fun_ext, subst, ◌∙◌, List, ◌==◌, if◌then◌else◌,
  Bool-cases, inl, inr, set, arith,
}
use weft_warp_loop.Sketch.Cycles.{GraphSegment, parent_of, unite, roots_from}
use weft_warp_loop.Sketch.Joined.{relabel}
use weft_warp_loop.Sketch.Forest.{
  Forest, find_root-label, parent_of-set, length-set, roots_from-fixed_from, fixed_from-one,
}

module _ (n : ℕ) (parent : List ℕ) (label : ℕ → ℕ) (merges a b : ℕ)
    (forest : Forest n parent label merges) (a_in : a < n) (b_in : b < n)
    (apart : label a ≢ label b) where
  abbrev parent' : List ℕ
  parent' = set parent (label b) (label a)

  abbrev label' : ℕ → ℕ
  label' i = if label i == label b then label a else label i

  abbrev depth' : ℕ → ℕ
  depth' i = if label i == label b then suc (forest.depth i) else forest.depth i

  parent'_of :
      (i : ℕ) → parent_of parent' i ≡ (if i == label b then label a else parent_of parent i)
  parent'_of i =
      parent_of-set parent (label b) (label a) i
        (let size = forest.size in let (inside, root) = forest.ends b b_in in rw size inside)

  root_a : (label (label a) ≡ label a) × (forest.depth (label a) ≡ 0)
  root_a = let (inside, root) = forest.ends a a_in in forest.at_root (label a) root

  root_b : (label (label b) ≡ label b) × (forest.depth (label b) ≡ 0)
  root_b = let (inside, root) = forest.ends b b_in in forest.at_root (label b) root

  at_root' : (i : ℕ) → parent_of parent' i ≡ i → (label' i ≡ i) × (depth' i ≡ 0)
  at_root' i h = elim (Bool-cases (i == label b)) [
    | inl here ↦ absurd (apart (ground (arith, h, here, parent'_of i)))
    | inr other ↦
        let root : parent_of parent i ≡ i = ground (arith, h, other, parent'_of i) in
        let (same, top) = forest.at_root i root in
        (ground (arith, same, other), ground (arith, same, other, top))
  ]

  below' :
      (i : ℕ)
      → i < n
      → parent_of parent' i ≢ i
      → (parent_of parent' i < n)
        × ((label' (parent_of parent' i) ≡ label' i)
            × (depth' i ≡ suc (depth' (parent_of parent' i))))
  below' i inside h = elim (Bool-cases (i == label b)) [
    | inl here ↦
        let (in_a, is_a) = forest.ends a a_in in
        let (same_a, top_a) = root_a in
        let (same_b, top_b) = root_b in
        let e : i ≡ label b = ground (arith, here) in
        let p : parent_of parent' i ≡ label a = parent'_of i ∙ rw here refl in
        let li : label i ≡ label b = ap label e ∙ same_b in
        let di : forest.depth i ≡ 0 = ap forest.depth e ∙ top_b in
        rw p
          (in_a, (ground (arith, li, same_a, apart), ground (arith, li, di, same_a, top_a, apart)))
    | inr other ↦
        let e : parent_of parent' i ≡ parent_of parent i = parent'_of i ∙ rw other refl in
        let (inside', (same, deeper)) = forest.below i inside (λ r. h (e ∙ r)) in
        rw (e, same) (inside', (refl, rw deeper (ground arith)))
  ]

  ends' : (i : ℕ) → i < n → (label' i < n) × (parent_of parent' (label' i) ≡ label' i)
  ends' i inside = elim (Bool-cases (label i == label b)) [
    | inl here ↦
        let (in_a, is_a) = forest.ends a a_in in
        rw here (in_a, ground (arith, is_a, apart, parent'_of (label a)))
    | inr other ↦
        let (in_i, is_i) = forest.ends i inside in
        rw other (in_i, parent'_of (label i) ∙ rw other is_i)
  ]

  one_root_less : suc (roots_from parent' 0 n) ≡ roots_from parent 0 n
  one_root_less =
      let (in_b, is_b) = forest.ends b b_in in
      rw (roots_from-fixed_from parent' 0 n, roots_from-fixed_from parent 0 n)
        (fixed_from-one (parent_of parent) (parent_of parent') (label b) (label a) parent'_of 0 n
          (omega arith) (omega (arith, in_b)) is_b apart)

  counted' : suc merges + roots_from parent' 0 n ≡ n
  counted' = let counted = forest.counted in omega (arith, one_root_less)

  united-Forest : Forest n parent' label' (suc merges)
  united-Forest = record {
    size = length-set parent (label b) (label a) ∙ forest.size;
    depth = depth';
    at_root = at_root';
    below = below';
    ends = ends';
    shallow = λ i inside. let shallow = forest.shallow i inside in ground (arith, shallow);
    counted = counted';
  }

-- What a union of two nodes of the graph leaves.
pub unite-Forest :
    (n : ℕ) (parent : List ℕ) (label : ℕ → ℕ) (merges : ℕ) (s : GraphSegment)
    → Forest n parent label merges
    → s.node_a < n
    → s.node_b < n
    → (m : ℕ) × ((m ≤ suc merges) × Forest n (unite n parent s) (relabel s label) m)
unfolding unite relabel
unite-Forest n parent label merges s forest a_in b_in =
    elim (Bool-cases (label s.node_a == label s.node_b)) [
      | inl same ↦ (
        merges,
        (
          omega arith,
          rw
              (
                find_root-label n parent label merges forest s.node_a a_in,
                find_root-label n parent label merges forest s.node_b b_in,
                same,
              )
              (subst (λ (l : ℕ → ℕ). Forest n parent l merges) (fun_ext (λ i. ground (arith, same)))
                forest),
        ),
      )
      | inr apart ↦ (
        suc merges,
        (
          omega arith,
          rw
              (
                find_root-label n parent label merges forest s.node_a a_in,
                find_root-label n parent label merges forest s.node_b b_in,
                apart,
              )
              (united-Forest n parent label merges s.node_a s.node_b forest a_in b_in
                (ground (arith, apart))),
        ),
      )
    ]
