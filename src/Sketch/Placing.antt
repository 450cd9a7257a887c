-- ===== src/Sketch/Placing.antt =====
-- Packets placed one by one into groups that are kept in order: the placements of two packets with
-- different keys commute.
use weft_warp_loop.Base.{
  ◌≡◌, ◌≢◌, refl, sym, ◌⊎◌, inl, inr, true, false, List, [], ◌∷◌, if◌then◌else◌,
}
use weft_warp_loop.Sketch.Codec.{Floats, Packet}
use weft_warp_loop.Sketch.Strokes.{StrokeKey, same_stroke, stroke_before, Groups, stroke_key}
use weft_warp_loop.Sketch.Order.{
  is_same, comes_before, comes_after, compared, same_stroke_refl, stroke_before_apart,
  stroke_before_trans, insert_packet, insert_packet_comm, insert_packet_pair,
}

module _ (floats : Floats) where
  -- Into its group, or a group of its own before the first that comes later.
  unfoldable pub place : StrokeKey → Packet floats → Groups floats → Groups floats
  place k p [] = (k, p ∷ []) ∷ []
  place k p ((j, g) ∷ t) =
      let rest = place k p t in
      if same_stroke j k
      then (j, insert_packet floats p g) ∷ t
      else if stroke_before k j
      then (k, p ∷ []) ∷ (j, g) ∷ t
      else (j, g) ∷ rest

  -- What a placement does at the first group, by its key.
  pub place_here :
      (k : StrokeKey) (p : Packet floats) (g : List (Packet floats)) (t : Groups floats)
      → place k p ((k, g) ∷ t) ≡ (k, insert_packet floats p g) ∷ t
  unfolding place
  place_here k p g t = rw (same_stroke_refl k) refl

  pub place_front :
      (k j : StrokeKey) (p : Packet floats) (g : List (Packet floats)) (t : Groups floats)
      → same_stroke j k ≡ false
      → stroke_before k j ≡ true
      → place k p ((j, g) ∷ t) ≡ (k, p ∷ []) ∷ (j, g) ∷ t
  unfolding place
  place_front k j p g t s b = rw (s, b) refl

  pub place_past :
      (k j : StrokeKey) (p : Packet floats) (g : List (Packet floats)) (t : Groups floats)
      → same_stroke j k ≡ false
      → stroke_before k j ≡ false
      → place k p ((j, g) ∷ t) ≡ (j, g) ∷ place k p t
  unfolding place
  place_past k j p g t s b = rw (s, b) refl

  pub place_nil : (k : StrokeKey) (p : Packet floats) → place k p [] ≡ (k, p ∷ []) ∷ []
  unfolding place
  place_nil k p = refl

  -- Two packets of one stroke.
  place_comm_same :
      (k : StrokeKey) (p q : Packet floats) (t : Groups floats)
      → p.seq ≢ q.seq
      → place k p (place k q t) ≡ place k q (place k p t)
  place_comm_same k p q [] h =
      rw
        (
          place_nil k q,
          place_nil k p,
          place_here k p (q ∷ []) [],
          place_here k q (p ∷ []) [],
          insert_packet_pair floats p q h,
        )
        refl
  place_comm_same k p q ((j, g) ∷ t) h = elim (compared j k) [
    | is_same e ↦ rw e (
        rw
          (
            place_here k q g t,
            place_here k p g t,
            place_here k p (insert_packet floats q g) t,
            place_here k q (insert_packet floats p g) t,
            insert_packet_comm floats p q g h,
          )
          refl)
    | comes_before s s' b b' ↦
        rw
          (
            place_past k j q g t s b',
            place_past k j p g t s b',
            place_past k j p g (place k q t) s b',
            place_past k j q g (place k p t) s b',
            place_comm_same k p q t h,
          )
          refl
    | comes_after s s' b b' ↦
        rw
          (
            place_front k j q g t s b',
            place_front k j p g t s b',
            place_here k p (q ∷ []) ((j, g) ∷ t),
            place_here k q (p ∷ []) ((j, g) ∷ t),
            insert_packet_pair floats p q h,
          )
          refl
  ]

  module _ (k l : StrokeKey) (p q : Packet floats) (s : same_stroke k l ≡ false)
      (s' : same_stroke l k ≡ false) (b : stroke_before k l ≡ true)
      (b' : stroke_before l k ≡ false) where
    -- A packet that goes to the front does so whatever is placed behind it.
    place_front_of :
        (j : StrokeKey) (g : List (Packet floats)) (t : Groups floats)
        → same_stroke j k ≡ false
        → stroke_before k j ≡ true
        → place k p (place l q ((j, g) ∷ t)) ≡ (k, p ∷ []) ∷ place l q ((j, g) ∷ t)
    place_front_of j g t sj bj = elim (compared j l) [
      | is_same e ↦
          rw e (rw (place_here l q g t) (place_front k l p (insert_packet floats q g) t s' b))
      | comes_before r r' d d' ↦
          rw (place_past l j q g t r d') (place_front k j p g (place l q t) sj bj)
      | comes_after r r' d d' ↦
          rw (place_front l j q g t r d') (place_front k l p (q ∷ []) ((j, g) ∷ t) s' b)
    ]

    place_comm_before : (t : Groups floats) → place k p (place l q t) ≡ place l q (place k p t)
    place_comm_before [] =
        rw
          (
            place_nil l q,
            place_nil k p,
            place_front k l p (q ∷ []) [] s' b,
            place_past l k q (p ∷ []) [] s b',
            place_nil l q,
          )
          refl
    place_comm_before ((j, g) ∷ t) = elim (compared j k) [
      | is_same e ↦ rw e (
          rw
            (
              place_past l k q g t s b',
              place_here k p g t,
              place_here k p g (place l q t),
              place_past l k q (insert_packet floats p g) t s b',
            )
            refl)
      | comes_before r r' d d' ↦
          let far : stroke_before j l ≡ true = stroke_before_trans j k l d b in
          let (past, (past', behind)) = stroke_before_apart j l far in
          rw
            (
              place_past l j q g t past behind,
              place_past k j p g t r d',
              place_past k j p g (place l q t) r d',
              place_past l j q g (place k p t) past behind,
              place_comm_before t,
            )
            refl
      | comes_after r r' d d' ↦
          rw
            (
              place_front_of j g t r d',
              place_front k j p g t r d',
              place_past l k q (p ∷ []) ((j, g) ∷ t) s b',
            )
            refl
    ]

  -- Placements of packets with different keys commute.
  pub place_comm :
      (p q : Packet floats) (t : Groups floats)
      → (stroke_key floats p ≢ stroke_key floats q) ⊎ (p.seq ≢ q.seq)
      → place (stroke_key floats p) p (place (stroke_key floats q) q t)
        ≡ place (stroke_key floats q) q (place (stroke_key floats p) p t)
  place_comm p q t h = elim (compared (stroke_key floats p) (stroke_key floats q)) [
    | is_same e ↦ rw e (place_comm_same (stroke_key floats q) p q t (other_seq e h))
    | comes_before s s' b b' ↦
        place_comm_before (stroke_key floats p) (stroke_key floats q) p q s s' b b' t
    | comes_after s s' b b' ↦
        sym (place_comm_before (stroke_key floats q) (stroke_key floats p) q p s' s b' b t)
  ]
    where
      other_seq :
          stroke_key floats p ≡ stroke_key floats q
          → (stroke_key floats p ≢ stroke_key floats q) ⊎ (p.seq ≢ q.seq)
          → p.seq ≢ q.seq
      other_seq e (inl differ) = absurd (differ e)
      other_seq e (inr differ) = differ
