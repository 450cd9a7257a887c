-- ===== src/Sketch/Tests.antt =====
-- The sketches of a room on concrete packets: runs, and the theorems applied to them.
use weft_warp_loop.Base.{
  ℕ, ◌+◌, set, ◌^◌, ◌<◌, ◌≡◌, refl, true, false, none, some, List, [], ◌∷◌, length, get_elem?,
  get_or, Bytes, arith,
}
use weft_warp_loop.Core.Kernels.{KernelState, kernels}
use weft_warp_loop.Server.{sketch_core_history}
use weft_warp_loop.Zones.Exports.{fanout_zones, initial_world}
use weft_warp_loop.Sketch.Codec.{
  Floats, Sample, Packet, byte_at, read_u16, read_u32, u16_bytes, u32_bytes, read_f32, sample_bytes,
  samples_bytes, encode, sample_at, samples_from, decode,
}
use weft_warp_loop.Sketch.History.{empty_history, same_key, seen_before, apply}
use weft_warp_loop.Sketch.Strokes.{
  Stroke, same_stroke, stroke_before, insert_by, sort_onto, push_packet, has_group, add_packet,
  collect, positions, stroke_samples, any_closed, strokes,
}
use weft_warp_loop.Sketch.Exports.{
  Board, history_of, with_history, apply_packet, graph_json, sketch_board,
}
use weft_warp_loop.Sketch.Exports.{c_string, sketch_core_graph_json}
use weft_warp_loop.Sketch.Receiving.{apart}
use weft_warp_loop.Sketch.Convergence.{exchanged, deliver, graph_json-deliver}
use weft_warp_loop.Sketch.Roundtrip.{Fits, ExactSamples, decode-encode}
use weft_warp_loop.Sketch.Replay.{replayed, Logged, AllLogged, apply_packet-AllLogged}
use weft_warp_loop.Sketch.Latejoin.{graph_json-late_join}
use weft_warp_loop.Sketch.Cycles.{
  GraphNode, GraphSegment, SketchGraph, parent_of, find_root, unite, unite_all, roots_from,
  component_count, cycle_count,
}
use weft_warp_loop.Sketch.Components.{Inside, Components, united-Components, cycle_count_lem}

-- Floats as their bits.
abbrev bits : Floats
bits = record { Float = ℕ; of_bits = λ n. n; to_bits = λ f. f }

abbrev a_sample : Sample ℕ
a_sample = record { pos = record { x = 1; y = 2; z = 300 }; pressure = 70000 }

abbrev head : Packet bits
head = record { peer_id = 7; stroke_id = 1; seq = 0; closed = false; samples = a_sample ∷ [] }

abbrev tail : Packet bits
tail = record {
  peer_id = 7;
  stroke_id = 1;
  seq = 1;
  closed = true;
  samples = a_sample ∷ a_sample ∷ [];
}

abbrev other : Packet bits
other = record { peer_id = 3; stroke_id = 258; seq = 0; closed = false; samples = [] }

other_bytes :
    encode bits other
    ≡ (0x43 ∷ 0x53 ∷ 0x50 ∷ 0x31 ∷ 3 ∷ 0 ∷ 0 ∷ 0 ∷ 2 ∷ 1 ∷ 0 ∷ 0 ∷ 0 ∷ 0 ∷ 0 ∷ 0 ∷ 0 ∷ 0 ∷ [])
unfolding encode samples_bytes u32_bytes u16_bytes
other_bytes = refl

decode_short : decode bits (1 ∷ 2 ∷ 3 ∷ []) ≡ none
unfolding decode
decode_short = refl

decode-encode_example : decode bits (encode bits tail) ≡ some tail
unfolding Fits ExactSamples
decode-encode_example = decode-encode bits tail (
  omega arith,
  (
    omega arith,
    (
      omega arith,
      (
        omega arith,
        (
          ((omega arith, refl), ((omega arith, refl), ((omega arith, refl), (omega arith, refl)))),
          (
            (
              (omega arith, refl),
              ((omega arith, refl), ((omega arith, refl), (omega arith, refl))),
            ),
            tt,
          ),
        ),
      ),
    ),
  ),
)

-- The peers of the strokes, in place of the graph.
abbrev peers : List (Stroke ℕ) → Bytes
peers [] = []
peers (s ∷ ss) = s.key.peer_id ∷ peers ss

abbrev arrived : List Bytes
arrived = encode bits tail ∷ encode bits other ∷ encode bits head ∷ []

abbrev a_board : Board
unfolding deliver apply_packet
a_board = deliver bits 9 arrived []

two_peers : graph_json bits peers 9 a_board ≡ 3 ∷ 7 ∷ []
unfolding deliver apply_packet apply decode encode read_u32 read_u16 byte_at get_elem? samples_bytes
    sample_bytes u32_bytes u16_bytes samples_from sample_at read_f32 seen_before same_key history_of
    with_history graph_json strokes collect add_packet has_group push_packet same_stroke
    stroke_before sort_onto insert_by any_closed stroke_samples positions
two_peers = refl

graph_json-deliver_example :
    graph_json bits peers 9 (deliver bits 9 (encode bits tail ∷ encode bits other ∷ []) [])
    ≡ graph_json bits peers 9 (deliver bits 9 (encode bits other ∷ encode bits tail ∷ []) [])
unfolding apart decode encode read_u32 read_u16 byte_at get_elem? samples_bytes sample_bytes
    u32_bytes u16_bytes samples_from sample_at read_f32 same_key
graph_json-deliver_example =
    graph_json-deliver bits peers 9 (encode bits tail ∷ encode bits other ∷ [])
      (encode bits other ∷ encode bits tail ∷ []) []
      (exchanged (encode bits tail) (encode bits other) [] refl)

no_rooms-AllLogged : AllLogged bits []
unfolding AllLogged Logged replayed history_of
no_rooms-AllLogged room = refl

apply_packet-AllLogged_example : AllLogged bits (apply_packet bits 9 (encode bits head) []).1
apply_packet-AllLogged_example =
    apply_packet-AllLogged bits 9 (encode bits head) [] no_rooms-AllLogged

abbrev a_kernel_state : KernelState fanout_zones.World Board
a_kernel_state = record {
  rooms = record { slots = []; free_list = [] };
  world = initial_world 1;
  board = a_board;
}

a_board-Logged : Logged bits (get_or (history_of 9 a_board) empty_history)
unfolding deliver apply_packet apply decode encode read_u32 read_u16 byte_at get_elem? samples_bytes
    sample_bytes u32_bytes u16_bytes samples_from sample_at read_f32 seen_before same_key history_of
    with_history Logged replayed
a_board-Logged = refl

a_board-three : length (get_or (history_of 9 a_board) empty_history).packets < 2 ^ 32
unfolding deliver apply_packet apply decode encode read_u32 read_u16 byte_at get_elem? samples_bytes
    sample_bytes u32_bytes u16_bytes samples_from sample_at read_f32 seen_before same_key history_of
    with_history
a_board-three = omega arith

graph_json-late_join_example :
    graph_json bits peers 9 (
      deliver bits 9
        (sketch_core_history (kernels fanout_zones (sketch_board bits)) 9 a_kernel_state)
        [])
    ≡ graph_json bits peers 9 a_board
graph_json-late_join_example =
    graph_json-late_join bits fanout_zones peers 9 a_kernel_state a_board-Logged a_board-three

-- A square with a tail, and a node by itself.
abbrev side : ℕ → ℕ → GraphSegment
side a b = record { stroke_idx = 0; node_a = a; node_b = b }

abbrev corner : GraphNode ℕ
corner = record { pos = record { x = 0; y = 0; z = 0 } }

abbrev square : SketchGraph ℕ
square = record {
  nodes = corner ∷ corner ∷ corner ∷ corner ∷ corner ∷ corner ∷ [];
  segments = side 0 1 ∷ side 2 3 ∷ side 1 2 ∷ side 3 0 ∷ side 3 4 ∷ [];
  polylines = [];
}

square-Inside : Inside (length square.nodes) square.segments
unfolding Inside
square-Inside = (
  (omega arith, omega arith),
  (
    (omega arith, omega arith),
    ((omega arith, omega arith), ((omega arith, omega arith), ((omega arith, omega arith), tt))),
  ),
)

square_cycles : (component_count square ≡ 2) × (cycle_count square ≡ 1)
unfolding component_count cycle_count unite_all unite find_root roots_from parent_of get_elem? set
square_cycles = (refl, refl)

united-Components_example : Components square
united-Components_example = united-Components square square-Inside

cycle_count_lem_example : cycle_count square + 6 ≡ 5 + component_count square
cycle_count_lem_example = cycle_count_lem square square-Inside

-- The text ends at a NUL, and a failed call gives none.
graph_text :
    (sketch_core_graph_json (some (123 ∷ 125 ∷ 0 ∷ 5 ∷ [])) ≡ 123 ∷ 125 ∷ [])
    × (sketch_core_graph_json none ≡ [])
unfolding sketch_core_graph_json c_string
graph_text = (refl, refl)
