-- ===== src/Boot/Main.antt =====
-- The server's process (flow-toolchain/examples/fanout_server_main.actor.cpp): its arguments, its
-- start and its end.
use weft_warp_loop.Base.{ℕ, ◌%◌, ◌^◌, ◌<◌, ◌≡◌, refl, List, ◌++◌, Bytes, get_or, get_elem?, arith}
use weft_warp_loop.Wire.Decimal.{pos, codes}
use weft_warp_loop.Load.Launch.{shard_args, dir_name}
use weft_warp_loop.Load.Command.{port_of, arg_or, atoi-to_string}
use weft_warp_loop.Boot.Start.{BootAnswers, Boot, started, aborted, fanout_core_initialize}

pub record ServerConfig : Type 0 where
  pub port : ℕ
  pub cert_path : Bytes
  pub key_path : Bytes

-- The arguments of `main`, on all of argv.
unfoldable pub server_config : List Bytes → ServerConfig
server_config argv = record {
  port = port_of (arg_or (get_elem? argv 1) (pos 4433));
  cert_path = get_or (get_elem? argv 2) (codes "thirdparty/picoquic/certs/secp256r1/cert.pem");
  key_path = get_or (get_elem? argv 3) (codes "thirdparty/picoquic/certs/secp256r1/key.pem");
}

-- What becomes of the future of `fanoutServer`.
pub data ServerLoop : Type 0 where
  pending finished failed : ServerLoop

-- How the process stands: aborted, left with a code, or in the loop of the network.
pub data Process : Type 0 where
  process_aborted running : Process
  exited : ℕ → Process

-- `runServerOrReport`. Where the future has a value the actor ends, and the network goes on.
unfoldable pub run_server_or_report : ServerLoop → Process
run_server_or_report pending = running
run_server_or_report finished = running
run_server_or_report failed = exited 1

abbrev pub room_capacity : ℕ
room_capacity = 64

abbrev pub serve_booted : (ServerConfig → ServerLoop) → ServerConfig → Boot → Process
serve_booted fanout_server config aborted = process_aborted
serve_booted fanout_server config started = run_server_or_report (fanout_server config)

-- `main`, with the kernels' answers and the server's loop as parameters.
unfoldable pub server_main : BootAnswers → (ServerConfig → ServerLoop) → List Bytes → Process
unfolding run_server_or_report server_config fanout_core_initialize
server_main answers fanout_server argv =
    serve_booted fanout_server (server_config argv) (fanout_core_initialize answers room_capacity).0

-- The arguments that the coordinator gives a shard server are read by the server as the same port,
-- if it is a uint16_t, and as the certificate and key paths under the directory of the load
-- client.
pub server_config-shard_args :
    (exec : Bytes) (port : ℕ)
    → port < 2 ^ 16
    → server_config (shard_args exec port) ≡ record {
      port = port;
      cert_path = dir_name exec ++ codes "/../thirdparty/picoquic/certs/secp256r1/cert.pem";
      key_path = dir_name exec ++ codes "/../thirdparty/picoquic/certs/secp256r1/key.pem";
    }
unfolding server_config shard_args get_elem?
server_config-shard_args exec port h =
    let small : port % 2 ^ 16 ≡ port = omega arith in
    rw (atoi-to_string (pos port) (omega arith), small) refl
