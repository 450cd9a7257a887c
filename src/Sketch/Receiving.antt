-- ===== src/Sketch/Receiving.antt =====
-- What a room keeps of the packets that arrive, whatever their order: the groups, and the keys seen.
use weft_warp_loop.Base.{
  ◌≡◌, ◌≢◌, refl, sym, ap, ap₂, fun_ext, ◌∙◌, ◌⊎◌, inl, inr, Bool, true, false, not, Option, none,
  some, List, [], ◌∷◌, ◌++◌, map, ◌==◌, if◌then◌else◌, Bool-cases, Bytes, arith,
}
use weft_warp_loop.Sketch.Codec.{Floats, Packet, decode}
use weft_warp_loop.Sketch.History.{
  Key, same_key, seen_before, RoomHistory, key_of, apply_decoded, apply,
}
use weft_warp_loop.Sketch.Strokes.{
  StrokeKey, stroke_key, Groups, Stroke, stroke_of, sort_onto, group_before, any_closed,
  stroke_samples, collect, strokes,
}
use weft_warp_loop.Sketch.Order.{both}
use weft_warp_loop.Sketch.Placing.{place, place_comm}
use weft_warp_loop.Sketch.Arranging.{Group, tidy, arrange}
use weft_warp_loop.Sketch.Settling.{place_decoded, settle, arrange-collect}

seen_before-append :
    (ks : List Key) (k j : Key)
    → seen_before (ks ++ (k ∷ [])) j ≡ (if same_key k j then true else seen_before ks j)
unfolding seen_before
seen_before-append [] k j = refl
seen_before-append (i ∷ ks) k j = ground (arith, seen_before-append ks k j)

same_key_comm : (a b : Key) → same_key a b ≡ same_key b a
unfolding same_key
same_key_comm a b = ground arith

module _ (floats : Floats) where
  abbrev pub View : Type 0
  View = Groups floats × (Key → Bool)

  abbrev pub view : RoomHistory → View
  view h = (settle floats h.packets [], seen_before h.seen)

  unfoldable pub added : Packet floats → View → View
  added p (s, seen) = (
    place floats (stroke_key floats p) p s,
    λ j. if same_key (key_of floats p) j then true else seen j,
  )

  -- A packet whose key is new is placed.
  unfoldable pub receive : Option (Packet floats) → View → View
  receive none v = v
  receive (some p) v = if v.1 (key_of floats p) then v else added p v

  settle-append :
      (bs : List Bytes) (b : Bytes) (s : Groups floats)
      → settle floats (bs ++ (b ∷ [])) s
        ≡ place_decoded floats (decode floats b) (settle floats bs s)
  unfolding settle
  settle-append [] b s = refl
  settle-append (a ∷ bs) b s = settle-append bs b (place_decoded floats (decode floats a) s)

  pair :
      {s t : Groups floats} {f g : Key → Bool}
      → s ≡ t
      → ((k : Key) → f k ≡ g k)
      → ◌≡◌ {A = View} (s, f) (t, g)
  pair e h = ap₂ (λ (s : Groups floats) (f : Key → Bool). (s, f)) e (fun_ext h)

  view-apply_decoded :
      (h : RoomHistory) (b : Bytes) (q : Option (Packet floats))
      → decode floats b ≡ q
      → view (apply_decoded floats h b q).0 ≡ receive q (view h)
  unfolding receive added
  view-apply_decoded h b none e = refl
  view-apply_decoded h b (some p) e = elim (Bool-cases (seen_before h.seen (key_of floats p))) [
    | inl old ↦ rw old refl
    | inr new ↦ rw new (
        pair
          (settle-append h.packets b []
            ∙ ap (λ q. place_decoded floats q (settle floats h.packets [])) e)
          (seen_before-append h.seen (key_of floats p)))
  ]

  -- `RoomHistory.apply` receives the packet.
  pub view-apply :
      (h : RoomHistory) (b : Bytes) → view (apply floats h b).0 ≡ receive (decode floats b) (view h)
  unfolding apply
  view-apply h b = view-apply_decoded h b (decode floats b) refl

  abbrev pub finish : Group floats → Stroke floats.Float
  finish (k, g) = record {
    key = k;
    closed = any_closed floats g;
    samples = stroke_samples floats g;
  }

  finish-tidy : (t : Groups floats) → map (stroke_of floats) t ≡ map finish (map (tidy floats) t)
  finish-tidy [] = refl
  finish-tidy ((k, g) ∷ t) = ap (λ l. stroke_of floats (k, g) ∷ l) (finish-tidy t)

  -- The strokes depend on the groups only.
  pub strokes-view : (h : RoomHistory) → strokes floats h ≡ map finish (view h).0
  unfolding strokes arrange
  strokes-view h =
      finish-tidy (sort_onto (group_before floats) [] (collect floats h.packets []))
      ∙ ap (map finish) (arrange-collect floats h.packets)

  -- Two packets of different keys, or what is no packet.
  unfoldable pub apart : Option (Packet floats) → Option (Packet floats) → Bool
  apart none q = true
  apart (some p) none = true
  apart (some p) (some q) = not (same_key (key_of floats p) (key_of floats q))

  same_all :
      (p q : Packet floats)
      → p.peer_id ≡ q.peer_id
      → p.stroke_id ≡ q.stroke_id
      → (p.seq == q.seq) ≡ true
      → same_key (key_of floats p) (key_of floats q) ≡ true
  unfolding same_key
  same_all p q a b c = ground (arith, a, b, c)

  key_parts :
      (p q : Packet floats)
      → same_key (key_of floats p) (key_of floats q) ≡ false
      → (stroke_key floats p ≢ stroke_key floats q) ⊎ (p.seq ≢ q.seq)
  unfolding same_key
  key_parts p q h = elim (Bool-cases (p.seq == q.seq)) [
    | inl level ↦ inl (λ e.
        both
          (same_all p q (ap (λ (k : StrokeKey). k.peer_id) e)
            (ap (λ (k : StrokeKey). k.stroke_id) e) level)
          h)
    | inr differ ↦ inr (ground (arith, differ))
  ]

  receive-old :
      (p : Packet floats) (v : View) → v.1 (key_of floats p) ≡ true → receive (some p) v ≡ v
  unfolding receive
  receive-old p v h = rw h refl

  receive-new :
      (p : Packet floats) (v : View)
      → v.1 (key_of floats p) ≡ false
      → receive (some p) v ≡ added p v
  unfolding receive
  receive-new p v h = rw h refl

  added-other :
      (p q : Packet floats) (v : View)
      → same_key (key_of floats q) (key_of floats p) ≡ false
      → (added q v).1 (key_of floats p) ≡ v.1 (key_of floats p)
  unfolding added
  added-other p q (s, seen) h = rw h refl

  added_comm :
      (p q : Packet floats) (v : View)
      → same_key (key_of floats p) (key_of floats q) ≡ false
      → added p (added q v) ≡ added q (added p v)
  unfolding added
  added_comm p q (s, seen) h = pair (place_comm floats p q s (key_parts p q h)) (λ j. ground arith)

  -- One packet is seen already: it is received or not, the other is.
  receive_comm_old :
      (p q : Packet floats) (v : View)
      → same_key (key_of floats p) (key_of floats q) ≡ false
      → v.1 (key_of floats p) ≡ true
      → v.1 (key_of floats q) ≡ false
      → receive (some p) (receive (some q) v) ≡ receive (some q) (receive (some p) v)
  receive_comm_old p q v h old new =
      rw
        (
          receive-new q v new,
          receive-old p v old,
          receive-new q v new,
          receive-old p (added q v)
              (added-other p q v (same_key_comm (key_of floats q) (key_of floats p) ∙ h) ∙ old),
        )
        refl

  receive_comm_apart :
      (p q : Packet floats) (v : View)
      → same_key (key_of floats p) (key_of floats q) ≡ false
      → receive (some p) (receive (some q) v) ≡ receive (some q) (receive (some p) v)
  receive_comm_apart p q v h =
      let h' : same_key (key_of floats q) (key_of floats p) ≡ false =
        same_key_comm (key_of floats q) (key_of floats p) ∙ h in
      elim (Bool-cases (v.1 (key_of floats p))) [
        | inl old ↦ elim (Bool-cases (v.1 (key_of floats q))) [
          | inl old' ↦ rw (receive-old q v old', receive-old p v old, receive-old q v old') refl
          | inr new' ↦ receive_comm_old p q v h old new'
        ]
        | inr new ↦ elim (Bool-cases (v.1 (key_of floats q))) [
          | inl old' ↦ sym (receive_comm_old q p v h' old' new)
          | inr new' ↦
              rw
                (
                  receive-new q v new',
                  receive-new p v new,
                  receive-new p (added q v) (added-other p q v h' ∙ new),
                  receive-new q (added p v) (added-other q p v h ∙ new'),
                )
                (added_comm p q v h)
        ]
      ]

  pub receive_comm :
      (p q : Option (Packet floats)) (v : View)
      → apart p q ≡ true
      → receive p (receive q v) ≡ receive q (receive p v)
  unfolding receive apart
  receive_comm none q v h = refl
  receive_comm (some p) none v h = refl
  receive_comm (some p) (some q) v h = receive_comm_apart p q v (ground (arith, h))

  added_self : (p : Packet floats) (v : View) → (added p v).1 (key_of floats p) ≡ true
  unfolding added same_key
  added_self p (s, seen) = ground arith

  -- A packet that arrives again changes nothing.
  pub receive_again :
      (q : Option (Packet floats)) (v : View) → receive q (receive q v) ≡ receive q v
  unfolding receive
  receive_again none v = refl
  receive_again (some p) v = elim (Bool-cases (v.1 (key_of floats p))) [
    | inl old ↦ rw (receive-old p v old, receive-old p v old) refl
    | inr new ↦ rw (receive-new p v new) (receive-old p (added p v) (added_self p v))
  ]
