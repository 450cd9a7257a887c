-- ===== src/Sketch/Forest.antt =====
-- The forest of parents: the walk finds the root of a node, and a union merges two labels.
use weft_warp_loop.Base.{
  ℕ, zero, suc, ◌+◌, ◌<◌, ◌≤◌, ◌≡◌, ◌≢◌, refl, sym, ap, ◌∙◌, List, [], ◌∷◌, ◌==◌, if◌then◌else◌,
  Bool-cases, inl, inr, length, get_elem?, set, arith,
}
use weft_warp_loop.Sketch.Cycles.{parent_of, find_root, roots_from}

pub parent_of-set :
    (parent : List ℕ) (r p i : ℕ)
    → r < length parent
    → parent_of (set parent r p) i ≡ (if i == r then p else parent_of parent i)
unfolding parent_of set get_elem?
parent_of-set [] r p i h = absurd (omega arith)
parent_of-set (q ∷ qs) zero p zero h = refl
parent_of-set (q ∷ qs) zero p (suc i) h = ground arith
parent_of-set (q ∷ qs) (suc r) p zero h = ground arith
parent_of-set (q ∷ qs) (suc r) p (suc i) h = parent_of-set qs r p i (omega arith) ∙ ground arith

pub length-set : (parent : List ℕ) (r p : ℕ) → length (set parent r p) ≡ length parent
unfolding set
length-set [] r p = refl
length-set (q ∷ qs) zero p = refl
length-set (q ∷ qs) (suc r) p = ap suc (length-set qs r p)

-- Nodes that are roots of a function.
unfoldable pub fixed_from : (ℕ → ℕ) → ℕ → ℕ → ℕ
fixed_from f i zero = 0
fixed_from f i (suc n) = let rest = fixed_from f (suc i) n in if f i == i then suc rest else rest

pub roots_from-fixed_from :
    (parent : List ℕ) (i n : ℕ) → roots_from parent i n ≡ fixed_from (parent_of parent) i n
unfolding roots_from fixed_from
roots_from-fixed_from parent i zero = refl
roots_from-fixed_from parent i (suc n) = rw (roots_from-fixed_from parent (suc i) n) refl

-- One root less.
module _ (f g : ℕ → ℕ) (r p : ℕ) (changed : (i : ℕ) → g i ≡ (if i == r then p else f i)) where
  fixed_from-past : (i n : ℕ) → r < i → fixed_from g i n ≡ fixed_from f i n
  unfolding fixed_from
  fixed_from-past i zero h = refl
  fixed_from-past i (suc n) h = ground (arith, changed i, fixed_from-past (suc i) n (omega arith))

  pub fixed_from-one :
      (i n : ℕ) → i ≤ r → r < i + n → f r ≡ r → p ≢ r → suc (fixed_from g i n) ≡ fixed_from f i n
  unfolding fixed_from
  fixed_from-one i zero a b e h = absurd (omega arith)
  fixed_from-one i (suc n) a b e h = elim (Bool-cases (i == r)) [
    | inl here ↦
        ground (arith, here, e, h, changed i, fixed_from-past (suc i) n (ground (arith, here)))
    | inr before ↦ ground (
      arith,
      before,
      changed i,
      fixed_from-one (suc i) n (ground (arith, before, a)) (omega arith) e h,
    )
  ]

pub record Forest (n : ℕ) (parent : List ℕ) (label : ℕ → ℕ) (merges : ℕ) : Type 0 where
  pub size : length parent ≡ n
  pub depth : ℕ → ℕ
  pub at_root : (i : ℕ) → parent_of parent i ≡ i → (label i ≡ i) × (depth i ≡ 0)
  pub below :
      (i : ℕ)
      → i < n
      → parent_of parent i ≢ i
      → (parent_of parent i < n)
        × ((label (parent_of parent i) ≡ label i) × (depth i ≡ suc (depth (parent_of parent i))))
  pub ends : (i : ℕ) → i < n → (label i < n) × (parent_of parent (label i) ≡ label i)
  pub shallow : (i : ℕ) → i < n → depth i ≤ merges
  pub counted : merges + roots_from parent 0 n ≡ n

module _ (n : ℕ) (parent : List ℕ) (label : ℕ → ℕ) (merges : ℕ)
    (forest : Forest n parent label merges) where
  -- Enough steps lead to the root.
  find_root-steps :
      (steps i : ℕ) → i < n → forest.depth i ≤ steps → find_root steps parent i ≡ label i
  unfolding find_root
  find_root-steps zero i inside d = elim (Bool-cases (parent_of parent i == i)) [
    | inl root ↦ sym (forest.at_root i (ground (arith, root))).0
    | inr inner ↦
        let (inside', (same, deeper)) = forest.below i inside (ground (arith, inner)) in
        absurd (omega (arith, deeper))
  ]
  find_root-steps (suc steps) i inside d = elim (Bool-cases (parent_of parent i == i)) [
    | inl root ↦
        let (same, top) = forest.at_root i (ground (arith, root)) in
        rw root (find_root-steps steps i inside (omega (arith, top)))
    | inr inner ↦
        let (inside', (same, deeper)) = forest.below i inside (ground (arith, inner)) in
        rw inner (find_root-steps steps (parent_of parent i) inside' (omega (arith, deeper)) ∙ same)
  ]

  pub find_root-label : (i : ℕ) → i < n → find_root n parent i ≡ label i
  find_root-label i inside =
      find_root-steps n i inside
        (let shallow = forest.shallow i inside in let counted = forest.counted in omega arith)
