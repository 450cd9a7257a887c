-- ===== src/Sketch/Arranging.antt =====
-- Collecting the packets of a history and sorting them comes to placing them one by one.
use weft_warp_loop.Base.{
  ◌≡◌, refl, sym, ap, ◌∙◌, inl, inr, Bool, List, [], ◌∷◌, ◌++◌, map, if◌then◌else◌, Bool-cases,
}
use weft_warp_loop.Sketch.Codec.{Floats, Packet}
use weft_warp_loop.Sketch.Strokes.{
  StrokeKey, same_stroke, stroke_before, insert_by, sort_onto, packet_before, group_before, Groups,
  stroke_key, push_packet,
}
use weft_warp_loop.Sketch.Order.{insert_packet}

sort_onto-append :
    {A : Type 0} (before : A → A → Bool) (acc xs : List A) (a : A)
    → sort_onto before acc (xs ++ (a ∷ [])) ≡ insert_by before a (sort_onto before acc xs)
unfolding sort_onto
sort_onto-append before acc [] a = refl
sort_onto-append before acc (x ∷ xs) a = sort_onto-append before (insert_by before x acc) xs a

module _ (floats : Floats) where
  abbrev pub Group : Type 0
  Group = StrokeKey × List (Packet floats)

  -- The groups in the order of their keys, and each in the order of its packets.
  abbrev pub tidy : Group → Group
  tidy (k, g) = (k, sort_onto (packet_before floats) [] g)

  unfoldable pub arrange : Groups floats → Groups floats
  arrange t = map tidy (sort_onto (group_before floats) [] t)

  -- A change of the packets of each group.
  abbrev pub regroup : (StrokeKey → List (Packet floats) → List (Packet floats)) → Group → Group
  regroup f (k, g) = (k, f k g)

  insert_by-regroup :
      (f : StrokeKey → List (Packet floats) → List (Packet floats)) (e : Group) (t : Groups floats)
      → insert_by (group_before floats) (regroup f e) (map (regroup f) t)
        ≡ map (regroup f) (insert_by (group_before floats) e t)
  unfolding insert_by
  insert_by-regroup f (k, g) [] = refl
  insert_by-regroup f (k, g) ((j, h) ∷ t) = elim (Bool-cases (stroke_before k j)) [
    | inl front ↦ rw front refl
    | inr past ↦ rw past (ap (λ (l : Groups floats). (j, f j h) ∷ l) (insert_by-regroup f (k, g) t))
  ]

  sort_onto-regroup :
      (f : StrokeKey → List (Packet floats) → List (Packet floats)) (acc t : Groups floats)
      → sort_onto (group_before floats) (map (regroup f) acc) (map (regroup f) t)
        ≡ map (regroup f) (sort_onto (group_before floats) acc t)
  unfolding sort_onto
  sort_onto-regroup f acc [] = refl
  sort_onto-regroup f acc (e ∷ t) =
      ap (λ (l : Groups floats). sort_onto (group_before floats) l (map (regroup f) t))
        (insert_by-regroup f e acc)
      ∙ sort_onto-regroup f (insert_by (group_before floats) e acc) t

  abbrev pushed : Packet floats → StrokeKey → List (Packet floats) → List (Packet floats)
  pushed p k g = if same_stroke k (stroke_key floats p) then g ++ (p ∷ []) else g

  abbrev pub inserted : Packet floats → StrokeKey → List (Packet floats) → List (Packet floats)
  inserted p k g = if same_stroke k (stroke_key floats p) then insert_packet floats p g else g

  push_packet-map :
      (p : Packet floats) (t : Groups floats) → push_packet floats p t ≡ map (regroup (pushed p)) t
  unfolding push_packet
  push_packet-map p [] = refl
  push_packet-map p ((k, g) ∷ t) =
      ap (λ (l : Groups floats). (k, pushed p k g) ∷ l) (push_packet-map p t)

  tidy-pushed :
      (p : Packet floats) (e : Group) → tidy (regroup (pushed p) e) ≡ regroup (inserted p) (tidy e)
  tidy-pushed p (k, g) = elim (Bool-cases (same_stroke k (stroke_key floats p))) [
    | inl same ↦
        rw same (
          ap (λ (l : List (Packet floats)). (k, l))
            (sort_onto-append (packet_before floats) [] g p))
    | inr other ↦ rw other refl
  ]

  map-tidy-pushed :
      (p : Packet floats) (t : Groups floats)
      → map tidy (map (regroup (pushed p)) t) ≡ map (regroup (inserted p)) (map tidy t)
  map-tidy-pushed p [] = refl
  map-tidy-pushed p (e ∷ t) = rw (tidy-pushed p e, map-tidy-pushed p t) refl

  pub arrange-push :
      (p : Packet floats) (t : Groups floats)
      → arrange (push_packet floats p t) ≡ map (regroup (inserted p)) (arrange t)
  unfolding arrange
  arrange-push p t =
      rw (push_packet-map p t, sort_onto-regroup (pushed p) [] t)
        (map-tidy-pushed p (sort_onto (group_before floats) [] t))

  sort_onto-single : (p : Packet floats) → sort_onto (packet_before floats) [] (p ∷ []) ≡ p ∷ []
  unfolding sort_onto insert_by
  sort_onto-single p = refl

  pub arrange-append :
      (p : Packet floats) (t : Groups floats)
      → arrange (t ++ ((stroke_key floats p, p ∷ []) ∷ []))
        ≡ insert_by (group_before floats) (stroke_key floats p, p ∷ []) (arrange t)
  unfolding arrange
  arrange-append p t =
      ap (map tidy) (sort_onto-append (group_before floats) [] t (stroke_key floats p, p ∷ []))
      ∙ sym (
          insert_by-regroup (λ k g. sort_onto (packet_before floats) [] g)
            (stroke_key floats p, p ∷ []) (sort_onto (group_before floats) [] t))
      ∙ ap
          (λ (g : List (Packet floats)).
            insert_by (group_before floats) (stroke_key floats p, g)
              (map tidy (sort_onto (group_before floats) [] t)))
          (sort_onto-single p)

  pub arrange-nil : arrange [] ≡ []
  unfolding arrange sort_onto
  arrange-nil = refl
