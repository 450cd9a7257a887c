-- ===== src/Sketch/Convergence.antt =====
-- Rooms that get the same packets in another order draw the same strokes.
use weft_warp_loop.Base.{
  ℕ, ◌≡◌, refl, sym, ap, ◌∙◌, true, some, List, [], ◌∷◌, ◌==◌, ==-refl, Bool-cases, inl, inr, map,
  get_or, Bytes,
}
use weft_warp_loop.Sketch.Codec.{Floats, decode}
use weft_warp_loop.Sketch.History.{RoomHistory, empty_history, apply}
use weft_warp_loop.Sketch.Strokes.{Stroke}
use weft_warp_loop.Sketch.Receiving.{
  View, view, receive, view-apply, finish, strokes-view, apart, receive_comm, receive_again,
}
use weft_warp_loop.Sketch.Exports.{Board, history_of, with_history, apply_packet, graph_json}

module _ (floats : Floats) where
  -- Deliveries in two orders, where the packets that change places have different keys, and a packet
  -- may arrive again.
  pub data Reordered : List Bytes → List Bytes → Type 0 where
    same_order : (bs : List Bytes) → Reordered bs bs
    exchanged :
        (b c : Bytes) (bs : List Bytes)
        → apart floats (decode floats b) (decode floats c) ≡ true
        → Reordered (b ∷ c ∷ bs) (c ∷ b ∷ bs)
    again : (b : Bytes) (bs : List Bytes) → Reordered (b ∷ b ∷ bs) (b ∷ bs)
    later : (b : Bytes) {bs cs : List Bytes} → Reordered bs cs → Reordered (b ∷ bs) (b ∷ cs)
    and_then : {ds bs cs : List Bytes} → Reordered ds bs → Reordered bs cs → Reordered ds cs
    backwards : {bs cs : List Bytes} → Reordered bs cs → Reordered cs bs

  -- The deliveries to a view, and to the room of a board.
  unfoldable receive_all : List Bytes → View floats → View floats
  receive_all [] v = v
  receive_all (b ∷ bs) v = receive_all bs (receive floats (decode floats b) v)

  receive_all-Reordered :
      (bs cs : List Bytes) (v : View floats) → Reordered bs cs → receive_all bs v ≡ receive_all cs v
  unfolding receive_all
  receive_all-Reordered _ _ v (same_order bs) = refl
  receive_all-Reordered _ _ v (exchanged b c rest h) =
      ap (receive_all rest) (sym (receive_comm floats (decode floats b) (decode floats c) v h))
  receive_all-Reordered _ _ v (again b rest) =
      ap (receive_all rest) (receive_again floats (decode floats b) v)
  receive_all-Reordered _ _ v (later b order) =
      receive_all-Reordered _ _ (receive floats (decode floats b) v) order
  receive_all-Reordered ds cs v (and_then {bs = bs} first second) =
      receive_all-Reordered ds bs v first ∙ receive_all-Reordered bs cs v second
  receive_all-Reordered bs cs v (backwards order) = sym (receive_all-Reordered cs bs v order)

  unfoldable pub deliver : ℕ → List Bytes → Board → Board
  deliver room [] board = board
  deliver room (b ∷ bs) board = deliver room bs (apply_packet floats room b board).1

  abbrev pub history_in : ℕ → Board → RoomHistory
  history_in room board = get_or (history_of room board) empty_history

  pub history_of-with_history :
      (room : ℕ) (h : RoomHistory) (board : Board)
      → history_of room (with_history room h board) ≡ some h
  unfolding history_of with_history
  history_of-with_history room h [] = rw (==-refl room) refl
  history_of-with_history room h ((rid, g) ∷ board) = elim (Bool-cases (rid == room)) [
    | inl here ↦ rw (here, here) refl
    | inr elsewhere ↦ rw (elsewhere, elsewhere) (history_of-with_history room h board)
  ]

  view-apply_packet :
      (room : ℕ) (b : Bytes) (board : Board)
      → view floats (history_in room (apply_packet floats room b board).1)
        ≡ receive floats (decode floats b) (view floats (history_in room board))
  unfolding apply_packet
  view-apply_packet room b board =
      rw (history_of-with_history room (apply floats (history_in room board) b).0 board)
        (view-apply floats (history_in room board) b)

  view-deliver :
      (room : ℕ) (bs : List Bytes) (board : Board)
      → view floats (history_in room (deliver room bs board))
        ≡ receive_all bs (view floats (history_in room board))
  unfolding deliver receive_all
  view-deliver room [] board = refl
  view-deliver room (b ∷ bs) board =
      view-deliver room bs (apply_packet floats room b board).1
      ∙ ap (receive_all bs) (view-apply_packet room b board)

  -- A room that gets the same packets in another order, or some of them again, draws the same
  -- graph, whatever the graph is as a function of the strokes: the strokes after both deliveries
  -- are equal. The two deliveries come from each other by exchanges of neighbours that are not
  -- both packets of one key, by a repetition of a packet right after itself, and by these in a row
  -- or backwards, so packets of one key have to be the same bytes.
  pub graph_json-deliver :
      (to_json : List (Stroke floats.Float) → Bytes) (room : ℕ) (bs cs : List Bytes) (board : Board)
      → Reordered bs cs
      → graph_json floats to_json room (deliver room bs board)
        ≡ graph_json floats to_json room (deliver room cs board)
  unfolding graph_json
  graph_json-deliver to_json room bs cs board order = ap to_json (
      strokes-view floats (history_in room (deliver room bs board))
      ∙ ap (λ (v : View floats). map (finish floats) v.0)
          (view-deliver room bs board
            ∙ receive_all-Reordered bs cs (view floats (history_in room board)) order
            ∙ sym (view-deliver room cs board))
      ∙ sym (strokes-view floats (history_in room (deliver room cs board))))
