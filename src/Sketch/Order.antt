-- ===== src/Sketch/Order.antt =====
-- The order of strokes and of packets, and that insertions of different packets commute.
use weft_warp_loop.Base.{
  ◌≡◌, ◌≢◌, refl, inl, inr, Bool, true, false, List, [], ◌∷◌, ltb, Bool-cases, arith,
}
use weft_warp_loop.Sketch.Codec.{Floats, Packet}
use weft_warp_loop.Sketch.Strokes.{StrokeKey, same_stroke, stroke_before, insert_by, packet_before}

pub both : {b : Bool} → b ≡ true → b ≡ false → ⊥
both h k = cc

-- Two keys are the same, or one of them comes before the other.
pub data Compared (a b : StrokeKey) : Type 0 where
  is_same : a ≡ b → Compared a b
  comes_before :
      same_stroke a b ≡ false
      → same_stroke b a ≡ false
      → stroke_before a b ≡ true
      → stroke_before b a ≡ false
      → Compared a b
  comes_after :
      same_stroke a b ≡ false
      → same_stroke b a ≡ false
      → stroke_before a b ≡ false
      → stroke_before b a ≡ true
      → Compared a b

pub compared : (a b : StrokeKey) → Compared a b
unfolding same_stroke stroke_before
compared a b = elim (Bool-cases (ltb a.peer_id b.peer_id)) [
  | inl below ↦
      comes_before (ground (arith, below)) (ground (arith, below)) (rw below refl)
        (ground (arith, below))
  | inr up ↦ elim (Bool-cases (ltb b.peer_id a.peer_id)) [
    | inl above ↦
        comes_after (ground (arith, above)) (ground (arith, above)) (ground (arith, above, up))
          (rw above refl)
    | inr level ↦
        let peer : a.peer_id ≡ b.peer_id = ground (arith, up, level) in
        elim (Bool-cases (ltb a.stroke_id b.stroke_id)) [
          | inl below ↦
              comes_before (ground (arith, below)) (ground (arith, below))
                (ground (arith, below, peer)) (ground (arith, below, peer))
          | inr up' ↦ elim (Bool-cases (ltb b.stroke_id a.stroke_id)) [
            | inl above ↦
                comes_after (ground (arith, above)) (ground (arith, above))
                  (ground (arith, above, peer)) (ground (arith, above, peer))
            | inr level' ↦
                let stroke : a.stroke_id ≡ b.stroke_id = ground (arith, up', level') in
                is_same (ground (arith, peer, stroke))
          ]
        ]
  ]
]

pub same_stroke_refl : (a : StrokeKey) → same_stroke a a ≡ true
unfolding same_stroke
same_stroke_refl a = ground arith

pub stroke_before_irrefl : (a : StrokeKey) → stroke_before a a ≡ false
unfolding stroke_before
stroke_before_irrefl a = ground arith

pub stroke_before_trans :
    (a b c : StrokeKey)
    → stroke_before a b ≡ true
    → stroke_before b c ≡ true
    → stroke_before a c ≡ true
unfolding stroke_before
stroke_before_trans a b c h k = ground arith

-- What comes after a key is neither the same nor before it.
pub stroke_before_apart :
    (a b : StrokeKey)
    → stroke_before a b ≡ true
    → (same_stroke a b ≡ false) × ((same_stroke b a ≡ false) × (stroke_before b a ≡ false))
unfolding same_stroke stroke_before
stroke_before_apart a b h = (ground arith, (ground arith, ground arith))

module _ (floats : Floats) where
  abbrev pub insert_packet : Packet floats → List (Packet floats) → List (Packet floats)
  insert_packet p g = insert_by (packet_before floats) p g

  -- Insertions of packets of different numbers commute.
  pub insert_packet_comm :
      (p q : Packet floats) (g : List (Packet floats))
      → p.seq ≢ q.seq
      → insert_packet p (insert_packet q g) ≡ insert_packet q (insert_packet p g)
  unfolding insert_by
  insert_packet_comm p q [] h = ground arith
  insert_packet_comm p q (r ∷ g) h = ground (arith, insert_packet_comm p q g h)

  pub insert_packet_pair :
      (p q : Packet floats) → p.seq ≢ q.seq → insert_packet p (q ∷ []) ≡ insert_packet q (p ∷ [])
  unfolding insert_by
  insert_packet_pair p q h = insert_packet_comm p q [] h
