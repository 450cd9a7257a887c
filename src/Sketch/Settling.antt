-- ===== src/Sketch/Settling.antt =====
-- The groups of a history, arranged: they are its packets placed one by one.
use weft_warp_loop.Base.{
  ◌≡◌, refl, sym, ap, subst, ◌∙◌, inl, inr, true, Option, none, some, List, [], ◌∷◌, ◌++◌, map,
  if◌then◌else◌, Bool-cases, arith, Bytes,
}
use weft_warp_loop.Sketch.Codec.{Floats, Packet, decode}
use weft_warp_loop.Sketch.Strokes.{
  StrokeKey, same_stroke, insert_by, group_before, Groups, stroke_key, push_packet, has_group,
  add_packet, add_decoded, collect,
}
use weft_warp_loop.Sketch.Order.{is_same, comes_before, comes_after, compared}
use weft_warp_loop.Sketch.Placing.{place}
use weft_warp_loop.Sketch.Arranging.{
  arrange, regroup, inserted, arrange-push, arrange-append, arrange-nil,
}
use weft_warp_loop.Sketch.Ordered.{
  InOrder, place-InOrder, place-inside, place-outside, has_group-place,
}

module _ (floats : Floats) where
  -- The groups that are collected so far, and the same packets placed one by one.
  unfoldable Settled : Groups floats → Groups floats → Type 0
  Settled t s =
      (arrange floats t ≡ s)
      × (InOrder floats s × ((k : StrokeKey) → has_group floats k s ≡ has_group floats k t))

  has_group-push :
      (k : StrokeKey) (p : Packet floats) (t : Groups floats)
      → has_group floats k (push_packet floats p t) ≡ has_group floats k t
  unfolding has_group push_packet
  has_group-push k p [] = refl
  has_group-push k p ((j, g) ∷ t) = rw (has_group-push k p t) refl

  has_group-append :
      (k j : StrokeKey) (g : List (Packet floats)) (t : Groups floats)
      → has_group floats k (t ++ ((j, g) ∷ []))
        ≡ (if same_stroke j k then true else has_group floats k t)
  unfolding has_group
  has_group-append k j g [] = refl
  has_group-append k j g ((i, h) ∷ t) = ground (arith, has_group-append k j g t)

  -- A key that is there already.
  has_group-same :
      (k j : StrokeKey) (t : Groups floats)
      → has_group floats j t ≡ true
      → (if same_stroke j k then true else has_group floats k t) ≡ has_group floats k t
  has_group-same k j t h = elim (compared j k) [
    | is_same e ↦ rw (subst (λ (i : StrokeKey). has_group floats i t ≡ true) e h) (ground arith)
    | comes_before s s' d d' ↦ rw s refl
    | comes_after s s' d d' ↦ rw s refl
  ]

  add_packet-Settled :
      (p : Packet floats) (t s : Groups floats)
      → Settled t s
      → Settled (add_packet floats p t) (place floats (stroke_key floats p) p s)
  unfolding Settled add_packet
  add_packet-Settled p t s (e, (order, keys)) =
      elim (Bool-cases (has_group floats (stroke_key floats p) t)) [
        | inl there ↦ rw there (
          arrange-push floats p t
              ∙ ap (map (regroup floats (inserted floats p))) e
              ∙ place-inside floats p s order (keys (stroke_key floats p) ∙ there),
          (
            place-InOrder floats (stroke_key floats p) p s order,
            λ k.
                has_group-place floats (stroke_key floats p) k p s
                ∙ rw (keys k)
                    (has_group-same k (stroke_key floats p) t there ∙ sym (has_group-push k p t)),
          ),
        )
        | inr new ↦ rw new (
          arrange-append floats p t
              ∙ ap (insert_by (group_before floats) (stroke_key floats p, p ∷ [])) e
              ∙ place-outside floats p s (keys (stroke_key floats p) ∙ new),
          (
            place-InOrder floats (stroke_key floats p) p s order,
            λ k.
                has_group-place floats (stroke_key floats p) k p s
                ∙ rw (keys k) (sym (has_group-append k (stroke_key floats p) (p ∷ []) t)),
          ),
        )
      ]

  arrange-Settled : Settled [] []
  unfolding Settled InOrder
  arrange-Settled = (arrange-nil floats, (tt, λ k. refl))

  -- The packets of a history, placed one by one.
  abbrev pub place_decoded : Option (Packet floats) → Groups floats → Groups floats
  place_decoded none s = s
  place_decoded (some p) s = place floats (stroke_key floats p) p s

  unfoldable pub settle : List Bytes → Groups floats → Groups floats
  settle [] s = s
  settle (b ∷ bs) s = settle bs (place_decoded (decode floats b) s)

  add_decoded-Settled :
      (q : Option (Packet floats)) (t s : Groups floats)
      → Settled t s
      → Settled (add_decoded floats q t) (place_decoded q s)
  add_decoded-Settled none t s settled = settled
  add_decoded-Settled (some p) t s settled = add_packet-Settled p t s settled

  arrange-collect_from :
      (bs : List Bytes) (t s : Groups floats)
      → Settled t s
      → arrange floats (collect floats bs t) ≡ settle bs s
  unfolding Settled collect settle
  arrange-collect_from [] t s (e, rest) = e
  arrange-collect_from (b ∷ bs) t s settled =
      arrange-collect_from bs (add_decoded floats (decode floats b) t)
        (place_decoded (decode floats b) s) (add_decoded-Settled (decode floats b) t s settled)

  pub arrange-collect : (bs : List Bytes) → arrange floats (collect floats bs []) ≡ settle bs []
  arrange-collect bs = arrange-collect_from bs [] [] arrange-Settled
