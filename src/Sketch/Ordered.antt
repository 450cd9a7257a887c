-- ===== src/Sketch/Ordered.antt =====
-- Groups in the order of their keys: a placement keeps the order, and is the insertion of the code.
use weft_warp_loop.Base.{
  ◌≡◌, refl, sym, ap, subst, ◌∙◌, true, false, List, [], ◌∷◌, map, if◌then◌else◌, arith,
}
use weft_warp_loop.Sketch.Codec.{Floats, Packet}
use weft_warp_loop.Sketch.Strokes.{
  StrokeKey, same_stroke, stroke_before, insert_by, group_before, Groups, stroke_key, has_group,
}
use weft_warp_loop.Sketch.Order.{
  both, is_same, comes_before, comes_after, compared, same_stroke_refl, stroke_before_apart,
  stroke_before_trans,
}
use weft_warp_loop.Sketch.Placing.{place, place_here, place_front, place_past, place_nil}
use weft_warp_loop.Sketch.Arranging.{regroup, inserted}

module _ (floats : Floats) where
  unfoldable AllAfter : StrokeKey → Groups floats → Type 0
  AllAfter k [] = Unit
  AllAfter k ((j, g) ∷ t) = (stroke_before k j ≡ true) × AllAfter k t

  unfoldable pub InOrder : Groups floats → Type 0
  unfolding AllAfter
  InOrder [] = Unit
  InOrder ((k, g) ∷ t) = AllAfter k t × InOrder t

  AllAfter-further :
      (i k : StrokeKey) (t : Groups floats) → stroke_before i k ≡ true → AllAfter k t → AllAfter i t
  unfolding AllAfter
  AllAfter-further i k [] b after = after
  AllAfter-further i k ((j, g) ∷ t) b (b', after) =
      (stroke_before_trans i k j b b', AllAfter-further i k t b after)

  AllAfter-place :
      (i k : StrokeKey) (p : Packet floats) (t : Groups floats)
      → stroke_before i k ≡ true
      → AllAfter i t
      → AllAfter i (place floats k p t)
  unfolding AllAfter
  AllAfter-place i k p [] b after = rw (place_nil floats k p) (b, after)
  AllAfter-place i k p ((j, g) ∷ t) b (b', after) = elim (compared j k) [
    | is_same e ↦ rw e (rw (place_here floats k p g t) (b, after))
    | comes_before s s' d d' ↦
        rw (place_past floats k j p g t s d') (b', AllAfter-place i k p t b after)
    | comes_after s s' d d' ↦ rw (place_front floats k j p g t s d') (b, (b', after))
  ]

  pub place-InOrder :
      (k : StrokeKey) (p : Packet floats) (t : Groups floats)
      → InOrder t
      → InOrder (place floats k p t)
  unfolding AllAfter InOrder
  place-InOrder k p [] order = rw (place_nil floats k p) (order, order)
  place-InOrder k p ((j, g) ∷ t) (after, order) = elim (compared j k) [
    | is_same e ↦ rw (sym e) (rw (place_here floats j p g t) (after, order))
    | comes_before s s' d d' ↦
        rw (place_past floats k j p g t s d')
          (AllAfter-place j k p t d after, place-InOrder k p t order)
    | comes_after s s' d d' ↦
        rw (place_front floats k j p g t s d')
          ((d', AllAfter-further k j t d' after), (after, order))
  ]

  -- A placement beyond the groups adds one group, and one within them none.
  pub has_group-place :
      (k i : StrokeKey) (p : Packet floats) (t : Groups floats)
      → has_group floats i (place floats k p t)
        ≡ (if same_stroke k i then true else has_group floats i t)
  unfolding has_group
  has_group-place k i p [] = rw (place_nil floats k p) refl
  has_group-place k i p ((j, g) ∷ t) = elim (compared j k) [
    | is_same e ↦ rw e (rw (place_here floats k p g t) (ground arith))
    | comes_before s s' d d' ↦
        rw (place_past floats k j p g t s d') (ground (arith, has_group-place k i p t))
    | comes_after s s' d d' ↦ rw (place_front floats k j p g t s d') refl
  ]

  has_group-here :
      (k : StrokeKey) (g : List (Packet floats)) (t : Groups floats)
      → has_group floats k ((k, g) ∷ t) ≡ true
  unfolding has_group
  has_group-here k g t = rw (same_stroke_refl k) refl

  has_group-past :
      (k j : StrokeKey) (g : List (Packet floats)) (t : Groups floats)
      → same_stroke j k ≡ false
      → has_group floats k ((j, g) ∷ t) ≡ has_group floats k t
  unfolding has_group
  has_group-past k j g t s = rw s refl

  -- No packet is added where all groups come later.
  regroup-none :
      (p : Packet floats) (t : Groups floats)
      → AllAfter (stroke_key floats p) t
      → map (regroup floats (inserted floats p)) t ≡ t
  unfolding AllAfter
  regroup-none p [] after = refl
  regroup-none p ((j, g) ∷ t) (b, after) =
      let (past, (past', behind)) = stroke_before_apart (stroke_key floats p) j b in
      rw (past', regroup-none p t after) refl

  has_group-after :
      (k : StrokeKey) (t : Groups floats) → AllAfter k t → has_group floats k t ≡ false
  unfolding AllAfter has_group
  has_group-after k [] after = refl
  has_group-after k ((j, g) ∷ t) (b, after) =
      let (past, (past', behind)) = stroke_before_apart k j b in
      rw (past', has_group-after k t after) refl

  -- In ordered groups, a placement is an insertion into the groups of its key if there is one.
  pub place-inside :
      (p : Packet floats) (t : Groups floats)
      → InOrder t
      → has_group floats (stroke_key floats p) t ≡ true
      → map (regroup floats (inserted floats p)) t ≡ place floats (stroke_key floats p) p t
  unfolding InOrder has_group
  place-inside p [] order h = absurd (both h refl)
  place-inside p ((j, g) ∷ t) (after, order) h = elim (compared j (stroke_key floats p)) [
    | is_same e ↦
        let after' : AllAfter (stroke_key floats p) t =
          subst (λ (k : StrokeKey). AllAfter k t) e after in
        rw e (
          rw
            (
              place_here floats (stroke_key floats p) p g t,
              regroup-none p t after',
              same_stroke_refl (stroke_key floats p),
            )
            refl)
    | comes_before s s' d d' ↦
        rw
          (
            s,
            place_past floats (stroke_key floats p) j p g t s d',
            place-inside p t order (sym (has_group-past (stroke_key floats p) j g t s) ∙ h),
          )
          refl
    | comes_after s s' d d' ↦ absurd (
        both h (
          has_group-past (stroke_key floats p) j g t s
          ∙ has_group-after (stroke_key floats p) t
              (AllAfter-further (stroke_key floats p) j t d' after)))
  ]

  pub place-outside :
      (p : Packet floats) (t : Groups floats)
      → has_group floats (stroke_key floats p) t ≡ false
      → insert_by (group_before floats) (stroke_key floats p, p ∷ []) t
        ≡ place floats (stroke_key floats p) p t
  unfolding has_group insert_by
  place-outside p [] h = sym (place_nil floats (stroke_key floats p) p)
  place-outside p ((j, g) ∷ t) h = elim (compared j (stroke_key floats p)) [
    | is_same e ↦ absurd (
        both {b = has_group floats (stroke_key floats p) ((j, g) ∷ t)}
          (ap (λ (k : StrokeKey). has_group floats (stroke_key floats p) ((k, g) ∷ t)) e
            ∙ has_group-here (stroke_key floats p) g t)
          h)
    | comes_before s s' d d' ↦
        rw
          (
            d',
            place_past floats (stroke_key floats p) j p g t s d',
            place-outside p t (sym (has_group-past (stroke_key floats p) j g t s) ∙ h),
          )
          refl
    | comes_after s s' d d' ↦ rw (d', place_front floats (stroke_key floats p) j p g t s d') refl
  ]
