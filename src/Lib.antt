-- ===== src/Lib.antt =====
-- The fan-out server of weft-warp-loop and the kernels behind it.
--
-- A client speaks to the server over QUIC streams. It sends a header line, SUB, PUB, SKB or ZPB,
-- and then payloads of 100 bytes or length-prefixed sketch frames; the server (flow-
-- toolchain/examples/picoquic_fanout_server.actor.cpp) parses them in picoquic's stream callback
-- and relays them to other connections. Who gets what is decided by kernels written in Lean, which
-- the server calls through a C interface (flow-toolchain/examples/fanout_core_ffi.h,
-- sketch_core_ffi.h).
--
-- Base: shared names, Boolean tests, lists over native numbers, association lists for
-- std::unordered_map, splitting at a byte for find and substr.
-- Wire: decimal integers as std::from_chars and std::to_string have them (Decimal), parseZpbFields
-- (Zpb), absMagnitude, rttToTicks and the frame prefixes (Units).
-- Ffi: the calls into the kernels, as a record of operations, and what the host relies on of them.
-- Server: BridgeState and the handlers, with a list of what was written in place of picoquic's
-- send queue. Server/Pump is pumpStream, Server/Callback is fanoutStreamCallback. A connection is
-- the number that connIdOf makes of its address.
-- Server/Pump/Rounds, Received and Chunks: one round of the parser, and the loop. Server/Relay:
-- what the relay loops write. Server/Live and below: the delivery table never names a stream that
-- is gone.
-- Core: fanout-core (flow-toolchain/fanout-core/Fanoutcore): slot map, ids and rooms, and both
-- kernels together as an instance of Ffi, with the zones of Zones/Exports and the sketches of
-- Sketch/Exports, each behind a record (Kernels). Slots and Stale are about single operations of
-- the slot map, Partial about what each id finds, Delivery about a subscription and a publish
-- after it.
-- Zones: the zones of fanout-core (flow-toolchain/fanout-core/Fanoutcore/Zone.lean,
-- Partition.lean, ZoneDispatch.lean, Ffi.lean). Curve is the Hilbert index, Ghost the reach of an
-- entity, Area a zone and its neighbours, Octree the cells, World the moves, Targets who gets a
-- publish, Split, Merge and Hysteresis the rest of ZoneDispatch.lean, Exports the calls of the
-- host. Population counts the records of a connection; Expelled, Emptied, Authority, Moved,
-- Arrival and Placed are about moves, Tiles, Breeding, Filing and Splitting about splits, Siblings
-- and Merging about merges, Moving about both, Interest, Beside and Reaching about targets,
-- Distance about ghost range, Bound and Started about the index and the first zone.
-- Sketch: the kernel sketch-core (flow-toolchain/sketch-core/SketchCore). Codec is Codec.lean,
-- History and Strokes are History.lean, Exports is Ffi.lean. Floats are a parameter that turns
-- bits into floats and back, and what Graph.lean makes of the strokes is a function of them. Order
-- is about the order of strokes, Placing about packets that are placed one by one, Arranging,
-- Ordered and Settling about the sorts of the code, which come to the same, Receiving about what a
-- room keeps of a packet, Convergence about orders of delivery, Replay and Latejoin about
-- histories, Roundtrip about packets. Cycles is the union-find of Graph.lean: Joined is about
-- labels that are merged along segments, Forest and Uniting about the parents, Components about
-- both counts.
-- Load: the load client (flow-toolchain/examples/fanout_load_client.actor.cpp,
-- fanout_load_client_main.actor.cpp). Player is sendAllTicks and the callback, Publishing its
-- bytes in the server's parser, Lifecycle its states, Round and Ramp the coordinator's runRound
-- and runCoordinator, Stragglers what the polls of each child of a round come to, Launch the
-- arguments of its processes, Command the roles of main, Process what the operating system is
-- asked.
-- Http3: the request client (flow-toolchain/examples/artifacts_mmo_h3_client.c). Request and
-- Framing are build_authenticated_request, Loop and Phases the packet-loop callback, Exchange
-- artifacts_mmo_h3_request and main.
-- Reactor: the actor loops. Engine is picoquic's context as a parameter and the loop that sends
-- what is ready, Serve and Serving fanoutServer, Players runManyPlayers and runOnePlayer, Playing
-- what becomes of the first of these. The loops take the sequence of what woke them; what the
-- socket answers to a send is a parameter, an error of it is thrown where the loop waits for the
-- send itself, and sending runs on fuel of one round more than the datagrams that picoquic has
-- ready.
-- Boot: the start of the kernels (flow-toolchain/examples/fanout_core_ffi.cpp) in Start, Main the
-- process of the server (flow-toolchain/examples/fanout_server_main.actor.cpp), and the script
-- host (flow-toolchain/examples/s7_riscv_core.h, s7_riscv_core.cpp) in Script, with its guest
-- (flow-toolchain/riscv-guests/s7_guest_main.c) in Guest.
--
-- State is passed explicitly; a failed FFI result is none. The parser runs on fuel of one round
-- more than the buffer has bytes, which is enough because every round that goes on takes at least
-- one byte. Numbers that C++ keeps in uint64_t are taken modulo 2^64 where the code computes with
-- them.
--
-- Not modelled: logging, TLS and the copies of other projects' libraries, whose calls are
-- parameters. The floats of sketch-core and its graph, as a function of the strokes, are
-- parameters as well.
pub mod Base
pub mod Wire
pub mod Zones
pub mod Sketch
pub mod Ffi
pub mod Server
pub mod Core
pub mod Load
pub mod Http3
pub mod Reactor
pub mod Boot
