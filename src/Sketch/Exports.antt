-- ===== src/Sketch/Exports.antt =====
-- The exports of sketch-core (Ffi.lean): the histories of all rooms.
use weft_warp_loop.Base.{
  ℕ, ◌%◌, ◌^◌, Option, none, some, List, [], ◌∷◌, ◌&&◌, ◌==◌, if◌then◌else◌, Bytes, length,
  get_elem?, get_or, ltb,
}
use weft_warp_loop.Core.Kernels.{Sketches}
use weft_warp_loop.Sketch.Codec.{Floats}
use weft_warp_loop.Sketch.History.{RoomHistory, empty_history, apply}
use weft_warp_loop.Sketch.Strokes.{Stroke, strokes}

-- `FfiState`.
abbrev pub Board : Type 0
Board = List (ℕ × RoomHistory)

-- The first history of a room, if it has one.
unfoldable pub history_of : ℕ → Board → Option RoomHistory
history_of room [] = none
history_of room ((rid, h) ∷ board) = if rid == room then some h else history_of room board

-- `rooms.set! i (rid, h')` at the room's place, or a push at the end.
unfoldable pub with_history : ℕ → RoomHistory → Board → Board
with_history room h' [] = (room, h') ∷ []
with_history room h' ((rid, h) ∷ board) =
    let rest = with_history room h' board in
    if rid == room then (rid, h') ∷ board else (rid, h) ∷ rest

-- The packet of the first history of the room that has one of that number.
unfoldable pub packet_of_room : ℕ → ℕ → Board → Bytes
packet_of_room room i [] = []
packet_of_room room i ((rid, h) ∷ board) =
    let rest = packet_of_room room i board in
    if rid == room && ltb i (length h.packets) then get_or (get_elem? h.packets i) [] else rest

module _ (floats : Floats) where
  -- `applyPacket`, by `withRoom`. It has no error results.
  unfoldable pub apply_packet : ℕ → Bytes → Board → Option ℕ × Board
  apply_packet room bytes board =
      let (h, accepted) = apply floats (get_or (history_of room board) empty_history) bytes in
      (some (if accepted then 1 else 0), with_history room h board)

  abbrev pub packets_of : Option RoomHistory → List Bytes
  packets_of none = []
  packets_of (some h) = h.packets

  -- `historyCount` and `historyPacket`.
  unfoldable pub history_count : ℕ → Board → Option ℕ
  history_count room board = some (length (packets_of (history_of room board)) % 2 ^ 32)

  unfoldable pub history_packet : ℕ → ℕ → Board → Option Bytes
  history_packet room i board = some (packet_of_room room i board)

  -- `graphJson`, with what Graph.lean makes of the strokes as a parameter.
  unfoldable pub graph_json : (List (Stroke floats.Float) → Bytes) → ℕ → Board → Bytes
  graph_json to_json room board =
      to_json (strokes floats (get_or (history_of room board) empty_history))

  -- What Core/Kernels takes.
  abbrev pub sketch_board : Sketches
  sketch_board = record {
    Board = Board;
    apply_packet = apply_packet;
    history_count = history_count;
    history_packet = history_packet;
  }

-- `sketch_reset`.
abbrev pub no_rooms : Board
no_rooms = []

-- A `std::string` of a C string: the bytes before the first NUL.
unfoldable pub c_string : Bytes → Bytes
c_string [] = []
c_string (b ∷ bs) = let rest = c_string bs in if b == 0 then [] else b ∷ rest

-- `sketchCoreGraphJson` (sketch_core_ffi.cpp), with the result of `sketch_graph_json`.
unfoldable pub sketch_core_graph_json : Option Bytes → Bytes
sketch_core_graph_json none = []
sketch_core_graph_json (some text) = c_string text
