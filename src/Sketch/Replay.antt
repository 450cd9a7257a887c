-- ===== src/Sketch/Replay.antt =====
-- The history of a room is a log of itself: replayed, it gives the room again.
use weft_warp_loop.Base.{
  ℕ, ◌≡◌, refl, subst, ◌∙◌, false, Option, none, some, List, [], ◌∷◌, ◌++◌, ◌==◌, Bool-cases, inl,
  inr, Bytes, arith,
}
use weft_warp_loop.Sketch.Codec.{Floats, Packet, decode}
use weft_warp_loop.Sketch.History.{
  RoomHistory, empty_history, seen_before, key_of, apply_decoded, apply,
}
use weft_warp_loop.Sketch.Exports.{Board, history_of, with_history, apply_packet}
use weft_warp_loop.Sketch.Convergence.{history_in, history_of-with_history}

module _ (floats : Floats) where
  unfoldable pub replayed : List Bytes → RoomHistory → RoomHistory
  replayed [] h = h
  replayed (b ∷ bs) h = replayed bs (apply floats h b).0

  unfoldable pub Logged : RoomHistory → Type 0
  Logged h = replayed h.packets empty_history ≡ h

  replayed-append :
      (bs : List Bytes) (b : Bytes) (h : RoomHistory)
      → replayed (bs ++ (b ∷ [])) h ≡ (apply floats (replayed bs h) b).0
  unfolding replayed
  replayed-append [] b h = refl
  replayed-append (a ∷ bs) b h = replayed-append bs b (apply floats h a).0

  apply_decoded-Logged :
      (h : RoomHistory) (b : Bytes) (q : Option (Packet floats))
      → decode floats b ≡ q
      → Logged h
      → Logged (apply_decoded floats h b q).0
  unfolding Logged apply
  apply_decoded-Logged h b none e logged = logged
  apply_decoded-Logged h b (some p) e logged =
      elim (Bool-cases (seen_before h.seen (key_of floats p))) [
        | inl old ↦ rw old logged
        | inr new ↦ rw new (replayed-append h.packets b empty_history ∙ rw (logged, e, new) refl)
      ]

  pub apply-Logged : (h : RoomHistory) (b : Bytes) → Logged h → Logged (apply floats h b).0
  unfolding apply
  apply-Logged h b logged = apply_decoded-Logged h b (decode floats b) refl logged

  -- The histories of all rooms.
  unfoldable pub AllLogged : Board → Type 0
  unfolding Logged
  AllLogged board = (room : ℕ) → Logged (history_in floats room board)

  history_of-other :
      (room j : ℕ) (h : RoomHistory) (board : Board)
      → (room == j) ≡ false
      → history_of j (with_history room h board) ≡ history_of j board
  unfolding history_of with_history
  history_of-other room j h [] other = rw other refl
  history_of-other room j h ((rid, g) ∷ board) other = elim (Bool-cases (rid == room)) [
    | inl here ↦ rw here (ground (arith, here, other))
    | inr elsewhere ↦ rw elsewhere (ground (arith, history_of-other room j h board other))
  ]

  -- If every room is a log of itself, that is, if its packets replayed from the empty history give
  -- its packets and its keys again, then so is every room after a packet was applied to one of
  -- them, accepted or not.
  pub apply_packet-AllLogged :
      (room : ℕ) (b : Bytes) (board : Board)
      → AllLogged board
      → AllLogged (apply_packet floats room b board).1
  unfolding AllLogged apply_packet
  apply_packet-AllLogged room b board logged j = elim (Bool-cases (room == j)) [
    | inl here ↦
        let same : room ≡ j = ground (arith, here) in
        subst
          (λ (j : ℕ). Logged (
            history_in floats j
              (with_history room (apply floats (history_in floats room board) b).0 board)))
          same
          (rw
            (history_of-with_history floats room (apply floats (history_in floats room board) b).0
              board)
            (apply-Logged (history_in floats room board) b (logged room)))
    | inr other ↦
        rw (history_of-other room j (apply floats (history_in floats room board) b).0 board other)
          (logged j)
  ]
