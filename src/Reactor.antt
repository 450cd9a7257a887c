-- ===== src/Reactor.antt =====
-- The actors' loops around picoquic: fanoutServer (picoquic_fanout_server.actor.cpp) and
-- runOnePlayer and runManyPlayers (fanout_load_client.actor.cpp). picoquic's context and the sockets
-- are parameters.
pub mod Engine
pub mod Serve
pub mod Serving
pub mod Players
pub mod Playing
pub mod Tests
