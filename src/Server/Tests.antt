-- ===== src/Server/Tests.antt =====
-- The host on concrete connections: fixtures, runs, and the theorems applied to them.
use weft_warp_loop.Base.{
  ℕ, zero, suc, ◌≡◌, refl, true, false, some, List, [], ◌∷◌, ◌++◌, arith, Bytes, length, get_elem?,
  set, lookup, nat_eq, bytes_eq, equal, split_first, take, drop, insert, erase,
}
use weft_warp_loop.Wire.Decimal.{codes, from_chars, unsigned, scan, to_i64}
use weft_warp_loop.Wire.Zpb.{parse_zpb_fields, parse_loop}
use weft_warp_loop.Ffi.{Ffi, Laws}
use weft_warp_loop.Core.SlotMap.{empty, alloc, find, update, pack, unpack}
use weft_warp_loop.Core.Rooms.{
  without, without-All, alloc_room, sub_room, sub, contains, pub_targets, targets,
}
use weft_warp_loop.Core.Kernels.{Zones, Sketches, KernelState, kernels, kernels-Laws}
use weft_warp_loop.Server.{
  Stream, Server, handle_sub, handle_pub, get_or_create_room, relay, add_all,
}
use weft_warp_loop.Server.Callback.{
  Event, stream_data, close, new_stream, on_data, callback, Call, run,
}
use weft_warp_loop.Server.Pump.{After, pump_round, pump, pump_stream}
use weft_warp_loop.Server.Pump.Rounds.{received}
use weft_warp_loop.Server.Pump.Chunks.{Pumps, pump_stream-Pumps, pump_stream-received}
use weft_warp_loop.Server.Relay.{with_sent, deliveries, relay_lem}
use weft_warp_loop.Server.Live.{Live, Spared}
use weft_warp_loop.Server.Live.Writes.{Wrote, callback-Wrote}
use weft_warp_loop.Server.Live.Publish.{pump_round-Spared}
use weft_warp_loop.Server.Live.Closed.{Gone, run-Spared, run-Live, callback-Gone}
use weft_warp_loop.Base.{occurs}
use weft_warp_loop.Core.Delivery.{receives, handle_pub-handle_sub}

-- One zone that holds everyone, and a board that accepts every packet.
abbrev one_zone : Zones
one_zone = record {
  World = List ℕ;
  entity_move_v = λ c x y z vx vy vz k w. c ∷ without c w;
  entity_remove = λ c w. without c w;
  zone_targets = λ c x y z w. without c w;
}

abbrev any_board : Sketches
any_board = record {
  Board = List Bytes;
  apply_packet = λ room bs b. (some 1, b ++ (bs ∷ []));
  history_count = λ room b. some (length b);
  history_packet = λ room i b. get_elem? b i;
}

abbrev pub test_ffi : Ffi
test_ffi = kernels one_zone any_board

test_Laws : Laws test_ffi
test_Laws = kernels-Laws one_zone any_board (λ c x y z w. without-All c w)

abbrev pub start : Server (KernelState (List ℕ) (List Bytes))
start = record {
  topic_to_room = [];
  delivery = [];
  streams = [];
  core = record { rooms = empty 4; world = []; board = [] };
  sent = [];
}

abbrev call : Event → ℕ → Bytes → Call
call e cnx bytes = record { event = e; cnx = cnx; stream = 0; bytes = bytes; rtt = 20000 }

abbrev hundred : ℕ → Bytes
hundred zero = []
hundred (suc n) = 7 ∷ hundred n

-- Two subscribers, and a publisher that subscribed too.
abbrev subscribed_calls : List Call
subscribed_calls =
    call stream_data 11 (codes "SUB lobby\n") ∷ call stream_data 12 (codes "SUB lobby\n") ∷ []

abbrev publish : Bytes
publish = codes "PUB lobby\n" ++ hundred 100

start-Live : Live start
unfolding lookup
start-Live c a i e = absurd (ground arith)

abbrev warm : Server (KernelState (List ℕ) (List Bytes))
warm = run test_ffi start subscribed_calls

warm-Live : Live warm
warm-Live = run-Live test_ffi start subscribed_calls start-Live

-- A publish reaches the other subscriber of the topic, once, and nobody else.
publish_reaches :
    (callback test_ffi stream_data warm 11 4 publish 20000).sent
    ≡ (record { cnx = 12; stream = 0; bytes = hundred 100 } ∷ [])
unfolding run callback on_data pump_stream pump pump_round parse_zpb_fields parse_loop from_chars
    unsigned scan to_i64 handle_sub handle_pub get_or_create_room relay add_all lookup insert erase
    equal split_first take drop alloc_room alloc find get_elem? set sub_room update sub contains
    pub_targets targets without pack unpack
publish_reaches = refl

run-Live_example : Live (run test_ffi start subscribed_calls)
run-Live_example = run-Live test_ffi start subscribed_calls start-Live

-- A publish in two pieces.
run-Spared_example :
    Spared start (run test_ffi start (call stream_data 11 publish ∷ call close 11 [] ∷ [])) 9
unfolding lookup
run-Spared_example =
    run-Spared test_ffi start 9 (call stream_data 11 publish ∷ call close 11 [] ∷ []) start-Live
      refl (λ e. absurd (ground (arith, e)), (λ e. absurd (ground (arith, e)), tt))

callback-Gone_example : Gone (callback test_ffi close warm 12 0 [] 0) 12
callback-Gone_example = callback-Gone test_ffi warm warm-Live 12 0 [] 0

callback-Wrote_example : Wrote warm (callback test_ffi stream_data warm 11 4 publish 20000) 11 4
callback-Wrote_example = callback-Wrote test_ffi warm warm-Live 11 4 stream_data publish 20000

abbrev publishing : Stream
publishing = record new_stream {
  header_parsed = true;
  is_pub = true;
  topic = codes "lobby";
  buf = hundred 100;
}

pump_round-Spared_example :
    After (λ t. Spared warm t 11) (pump_round test_ffi warm 11 4 20000 publishing)
pump_round-Spared_example =
    pump_round-Spared test_ffi test_Laws warm warm-Live 11 4 20000 publishing refl

pump_stream-Pumps_example :
    (pump test_ffi 101 warm 11 4 20000 publishing
      ≡ some (pump_stream test_ffi warm 11 4 20000 publishing))
    × Pumps test_ffi 11 4 20000 warm publishing (pump_stream test_ffi warm 11 4 20000 publishing)
pump_stream-Pumps_example = pump_stream-Pumps test_ffi 11 4 20000 warm publishing

-- Half a header, and the rest of it later.
abbrev half : Stream
half = record new_stream { buf = codes "SUB lo" }

half_waits : (pump_stream test_ffi start 11 0 20000 half).0 ≡ false
unfolding pump_stream pump pump_round split_first
half_waits = refl

pump_stream-received_example :
    pump_stream test_ffi start 11 0 20000 (received half (codes "bby\n"))
    ≡ pump_stream test_ffi
        (pump_stream test_ffi start 11 0 20000 half).1
        11
        0
        20000
        (received (pump_stream test_ffi start 11 0 20000 half).2 (codes "bby\n"))
pump_stream-received_example =
    pump_stream-received test_ffi 11 0 20000 start half (codes "bby\n") half_waits

relay_lem_example :
    relay warm (11 ∷ 13 ∷ 12 ∷ []) (hundred 3 ∷ [])
    ≡ with_sent warm (deliveries warm.delivery (11 ∷ 13 ∷ 12 ∷ []) (hundred 3 ∷ []))
relay_lem_example = relay_lem warm (11 ∷ 13 ∷ 12 ∷ []) (hundred 3 ∷ [])

-- What the two subscriptions left.
lobby_known :
    (lookup (codes "lobby") warm.topic_to_room ≡ some 1)
    × (find warm.core.rooms (unpack 1) ≡ some (record { subscribers = 11 ∷ 12 ∷ [] }))
unfolding run callback on_data pump_stream pump pump_round parse_zpb_fields parse_loop from_chars
    unsigned scan to_i64 handle_sub get_or_create_room lookup insert erase equal split_first take
    drop alloc_room alloc find get_elem? set sub_room update sub contains pack unpack
lobby_known = (refl, refl)

handle_pub-handle_sub_example :
    ((handle_pub test_ffi
        (handle_sub test_ffi warm 13 0 (codes "lobby"))
        11
        (codes "lobby")
        (hundred 100)).sent
      ≡ warm.sent
        ++ deliveries
            (insert 13 (13, 0) warm.delivery)
            (targets (sub (record { subscribers = 11 ∷ 12 ∷ [] }) 13) 11)
            (hundred 100 ∷ []))
    × ((t : ℕ)
        → occurs t (targets (sub (record { subscribers = 11 ∷ 12 ∷ [] }) 13) 11)
          ≡ receives (11 ∷ 12 ∷ []) 13 11 t)
handle_pub-handle_sub_example =
    handle_pub-handle_sub one_zone any_board warm (codes "lobby") 1
      (record { subscribers = 11 ∷ 12 ∷ [] }) 13 0 11 (hundred 100) lobby_known.0 refl lobby_known.1
