-- ===== src/Sketch/Joined.antt =====
-- Labels of nodes that are merged along segments: they agree where the segments connect.
use weft_warp_loop.Base.{
  ℕ, ◌≡◌, refl, sym, ◌∙◌, List, [], ◌∷◌, ◌==◌, if◌then◌else◌, Bool-cases, inl, inr, arith,
}
use weft_warp_loop.Sketch.Cycles.{GraphSegment}

pub data Member (s : GraphSegment) : List GraphSegment → Type 0 where
  first : {ss : List GraphSegment} → Member s (s ∷ ss)
  later : {t : GraphSegment} {ss : List GraphSegment} → Member s ss → Member s (t ∷ ss)

-- Nodes of one label, the ends of a segment, and what these connect.
pub data Joined (label : ℕ → ℕ) (segments : List GraphSegment) : ℕ → ℕ → Type 0 where
  alike : (a b : ℕ) → label a ≡ label b → Joined label segments a b
  along : (s : GraphSegment) → Member s segments → Joined label segments s.node_a s.node_b
  back : {a b : ℕ} → Joined label segments a b → Joined label segments b a
  through :
      {a b c : ℕ}
      → Joined label segments a b
      → Joined label segments b c
      → Joined label segments a c

-- The label of the second end becomes that of the first.
unfoldable pub relabel : GraphSegment → (ℕ → ℕ) → ℕ → ℕ
relabel s label i = if label i == label s.node_b then label s.node_a else label i

unfoldable pub relabel_all : List GraphSegment → (ℕ → ℕ) → ℕ → ℕ
relabel_all [] label i = label i
relabel_all (s ∷ ss) label i = relabel_all ss (relabel s label) i

relabel_same :
    (s : GraphSegment) (label : ℕ → ℕ) (a b : ℕ)
    → label a ≡ label b
    → relabel s label a ≡ relabel s label b
unfolding relabel
relabel_same s label a b e = rw e refl

relabel_all_same :
    (ss : List GraphSegment) (label : ℕ → ℕ) (a b : ℕ)
    → label a ≡ label b
    → relabel_all ss label a ≡ relabel_all ss label b
unfolding relabel_all
relabel_all_same [] label a b e = e
relabel_all_same (s ∷ ss) label a b e =
    relabel_all_same ss (relabel s label) a b (relabel_same s label a b e)

relabel_ends :
    (s : GraphSegment) (label : ℕ → ℕ) → relabel s label s.node_a ≡ relabel s label s.node_b
unfolding relabel
relabel_ends s label = ground arith

relabel_all-Member :
    (s : GraphSegment) (ss : List GraphSegment) (label : ℕ → ℕ)
    → Member s ss
    → relabel_all ss label s.node_a ≡ relabel_all ss label s.node_b
unfolding relabel_all
relabel_all-Member s [] label m = elim m [ ]
relabel_all-Member s (t ∷ ss) label first =
    relabel_all_same ss (relabel s label) s.node_a s.node_b (relabel_ends s label)
relabel_all-Member s (t ∷ ss) label (later m) = relabel_all-Member s ss (relabel t label) m

pub Joined-relabel_all :
    (ss : List GraphSegment) (label : ℕ → ℕ) (a b : ℕ)
    → Joined label ss a b
    → relabel_all ss label a ≡ relabel_all ss label b
Joined-relabel_all ss label _ _ (alike a b e) = relabel_all_same ss label a b e
Joined-relabel_all ss label _ _ (along s m) = relabel_all-Member s ss label m
Joined-relabel_all ss label a b (back j) = sym (Joined-relabel_all ss label b a j)
Joined-relabel_all ss label a c (through {b = b} j k) =
    Joined-relabel_all ss label a b j ∙ Joined-relabel_all ss label b c k

-- Nodes of one label after a segment were joined before it, with it.
relabel-Joined :
    (s : GraphSegment) (ss : List GraphSegment) (label : ℕ → ℕ) (a b : ℕ)
    → relabel s label a ≡ relabel s label b
    → Joined label (s ∷ ss) a b
unfolding relabel
relabel-Joined s ss label a b e = elim (Bool-cases (label a == label s.node_b)) [
  | inl va ↦ elim (Bool-cases (label b == label s.node_b)) [
    | inl vb ↦ alike a b (ground (arith, va, vb))
    | inr wb ↦
        through (alike a s.node_b (ground (arith, va)))
          (through (back (along s first)) (alike s.node_a b (ground (arith, e, va, wb))))
  ]
  | inr wa ↦ elim (Bool-cases (label b == label s.node_b)) [
    | inl vb ↦
        through (alike a s.node_a (ground (arith, e, wa, vb)))
          (through (along s first) (alike s.node_b b (ground (arith, vb))))
    | inr wb ↦ alike a b (ground (arith, e, wa, wb))
  ]
]

Joined-relabel :
    (s : GraphSegment) (ss : List GraphSegment) (label : ℕ → ℕ) (a b : ℕ)
    → Joined (relabel s label) ss a b
    → Joined label (s ∷ ss) a b
Joined-relabel s ss label _ _ (alike a b e) = relabel-Joined s ss label a b e
Joined-relabel s ss label _ _ (along t m) = along t (later m)
Joined-relabel s ss label a b (back j) = back (Joined-relabel s ss label b a j)
Joined-relabel s ss label a c (through {b = b} j k) =
    through (Joined-relabel s ss label a b j) (Joined-relabel s ss label b c k)

pub relabel_all-Joined :
    (ss : List GraphSegment) (label : ℕ → ℕ) (a b : ℕ)
    → relabel_all ss label a ≡ relabel_all ss label b
    → Joined label ss a b
unfolding relabel_all
relabel_all-Joined [] label a b e = alike a b e
relabel_all-Joined (s ∷ ss) label a b e =
    Joined-relabel s ss label a b (relabel_all-Joined ss (relabel s label) a b e)
