-- ===== src/Sketch/Latejoin.antt =====
-- A late join: the history that the server sends for a room brings another room to its strokes.
use weft_warp_loop.Base.{
  ℕ, ◌%◌, ◌^◌, ◌<◌, ◌≡◌, refl, sym, ap, ◌∙◌, true, false, Option, none, some, List, [], ◌∷◌, ◌++◌,
  ◌==◌, ltb, Bool-cases, inl, inr, length, get_elem?, get_or, length-append, append_assoc, Bytes,
  arith,
}
use weft_warp_loop.Core.Kernels.{Zones, KernelState, kernels}
use weft_warp_loop.Server.{history_from, sketch_core_history}
use weft_warp_loop.Sketch.Codec.{Floats}
use weft_warp_loop.Sketch.History.{RoomHistory, empty_history, apply}
use weft_warp_loop.Sketch.Strokes.{Stroke, strokes}
use weft_warp_loop.Sketch.Exports.{
  Board, history_of, apply_packet, packet_of_room, history_count, history_packet, packets_of,
  graph_json, sketch_board,
}
use weft_warp_loop.Sketch.Convergence.{deliver, history_in, history_of-with_history}
use weft_warp_loop.Sketch.Replay.{replayed, Logged}

get_elem?-at :
    (before : List Bytes) (b : Bytes) (later : List Bytes)
    → get_elem? (before ++ (b ∷ later)) (length before) ≡ some b
unfolding get_elem?
get_elem?-at [] b later = refl
get_elem?-at (a ∷ before) b later = get_elem?-at before b later

within_list :
    (before : List Bytes) (b : Bytes) (later : List Bytes)
    → ltb (length before) (length (before ++ (b ∷ later))) ≡ true
within_list before b later = rw (length-append before (b ∷ later)) (ground arith)

history_of-here :
    (room rid : ℕ) (g : RoomHistory) (board : Board)
    → (rid == room) ≡ true
    → history_of room ((rid, g) ∷ board) ≡ some g
unfolding history_of
history_of-here room rid g board here = rw here refl

history_of-there :
    (room rid : ℕ) (g : RoomHistory) (board : Board)
    → (rid == room) ≡ false
    → history_of room ((rid, g) ∷ board) ≡ history_of room board
unfolding history_of
history_of-there room rid g board there = rw there refl

same_history : {g h : RoomHistory} → some g ≡ some h → g ≡ h
same_history e = cc

no_history : {h : RoomHistory} → none ≡ some h → ⊥
no_history e = cc

packet_of_room-history_of :
    (room i : ℕ) (b : Bytes) (h : RoomHistory) (board : Board)
    → history_of room board ≡ some h
    → ltb i (length h.packets) ≡ true
    → get_elem? h.packets i ≡ some b
    → packet_of_room room i board ≡ b
unfolding packet_of_room history_of
packet_of_room-history_of room i b h [] found inside at = absurd (no_history found)
packet_of_room-history_of room i b h ((rid, g) ∷ board) found inside at =
    elim (Bool-cases (rid == room)) [
      | inl here ↦
          let same : g ≡ h = same_history (sym (history_of-here room rid g board here) ∙ found) in
          rw (here, same, inside, at) refl
      | inr elsewhere ↦ rw elsewhere (
          packet_of_room-history_of room i b h board
            (sym (history_of-there room rid g board elsewhere) ∙ found) inside at)
    ]

small_mod : (n : ℕ) → n < 2 ^ 32 → n % 2 ^ 32 ≡ n
small_mod n h = omega arith

module _ (floats : Floats) (zones : Zones) where
  history_from-packets :
      (room : ℕ) (c : KernelState zones.World Board) (h : RoomHistory) (before later : List Bytes)
      → history_of room c.board ≡ some h
      → h.packets ≡ before ++ later
      → history_from (kernels zones (sketch_board floats)) room (length before) (length later) c
        ≡ later
  unfolding history_from history_packet
  history_from-packets room c h before [] found e = refl
  history_from-packets room c h before (b ∷ later) found e =
      rw
        (packet_of_room-history_of room (length before) b h c.board found
          (rw e (within_list before b later)) (rw e (get_elem?-at before b later)))
        (ap (λ (l : List Bytes). b ∷ l)
          (ap
              (λ (n : ℕ).
                history_from (kernels zones (sketch_board floats)) room n (length later) c)
              (sym (length-append before (b ∷ [])))
            ∙ history_from-packets room c h (before ++ (b ∷ [])) later found
                (e ∙ sym (append_assoc before (b ∷ []) later))))

  history_from-history_of :
      (room : ℕ) (c : KernelState zones.World Board) (r : Option RoomHistory)
      → history_of room c.board ≡ r
      → length (get_or r empty_history).packets < 2 ^ 32
      → history_from
          (kernels zones (sketch_board floats))
          room
          0
          (length (get_or r empty_history).packets % 2 ^ 32)
          c
        ≡ (get_or r empty_history).packets
  unfolding history_from
  history_from-history_of room c none e small = refl
  history_from-history_of room c (some h) e small =
      rw (small_mod (length h.packets) small) (history_from-packets room c h [] h.packets e refl)

  sketch_core_history-packets :
      (room : ℕ) (c : KernelState zones.World Board)
      → length (history_in floats room c.board).packets < 2 ^ 32
      → sketch_core_history (kernels zones (sketch_board floats)) room c
        ≡ (history_in floats room c.board).packets
  unfolding sketch_core_history history_count
  sketch_core_history-packets room c small =
      ap (λ (n : ℕ). history_from (kernels zones (sketch_board floats)) room 0 (n % 2 ^ 32) c)
        (counted (history_of room c.board))
      ∙ history_from-history_of room c (history_of room c.board) refl small
    where
      counted :
          (r : Option RoomHistory)
          → length (packets_of floats r) ≡ length (get_or r empty_history).packets
      counted none = refl
      counted (some h) = refl

  history_in-deliver :
      (room : ℕ) (bs : List Bytes) (board : Board)
      → history_in floats room (deliver floats room bs board)
        ≡ replayed floats bs (history_in floats room board)
  unfolding deliver replayed apply_packet
  history_in-deliver room [] board = refl
  history_in-deliver room (b ∷ bs) board =
      history_in-deliver room bs (apply_packet floats room b board).1
      ∙ rw
          (history_of-with_history floats room (apply floats (history_in floats room board) b).0
            board)
          refl

  -- The history that the server reads for a room, delivered to a board without rooms, draws the
  -- graph of the room. The room has to be a log of itself and to have fewer than 2^32 packets. It
  -- is about the loop of the host together with the kernel.
  pub graph_json-late_join :
      (to_json : List (Stroke floats.Float) → Bytes) (room : ℕ) (c : KernelState zones.World Board)
      → Logged floats (history_in floats room c.board)
      → length (history_in floats room c.board).packets < 2 ^ 32
      → graph_json floats to_json room (
          deliver floats room (sketch_core_history (kernels zones (sketch_board floats)) room c) [])
        ≡ graph_json floats to_json room c.board
  unfolding graph_json Logged history_of
  graph_json-late_join to_json room c logged small =
      ap (λ (h : RoomHistory). to_json (strokes floats h))
        (ap (λ (bs : List Bytes). history_in floats room (deliver floats room bs []))
            (sketch_core_history-packets room c small)
          ∙ history_in-deliver room (history_in floats room c.board).packets []
          ∙ logged)
