-- ===== src/Http3/Tests.antt =====
-- The request client on concrete requests.
use weft_warp_loop.Base.{
  equal, ℕ, Bool-cases, inl, inr, ◌≤◌, ◌≡◌, refl, true, false, Option, none, some, List, [], ◌∷◌,
  ◌++◌, arith, Bytes, length, leb, if◌then◌else◌,
}
use weft_warp_loop.Wire.Decimal.{codes}
use weft_warp_loop.Http3.Request.{
  with_token, static_headers, Encoders, WithinRoom, build_authenticated_request,
}
use weft_warp_loop.Http3.Framing.{IsRequest, build_authenticated_request-IsRequest}
use weft_warp_loop.Http3.Loop.{Answers, LoopCtx, client_almost_ready, ready, other_state}
use weft_warp_loop.Http3.Exchange
use weft_warp_loop.Boot.Guest.{c_text}
use weft_warp_loop.Base.{take}
use weft_warp_loop.Http3.Exchange.{
  main, Sound, artifacts_mmo_h3_request, artifacts_mmo_h3_request-Sound,
}

abbrev if_room : ℕ → Bytes → Option Bytes
if_room room bs = if leb (length bs) room then some bs else none

if_room-length : (room : ℕ) (xs bs : Bytes) → if_room room xs ≡ some bs → length bs ≤ room
if_room-length room xs bs e = elim (Bool-cases (leb (length xs) room)) [
  | inl fits ↦ let q : xs ≡ bs = some_bytes (rw fits at e) in rw (← q) (ground (arith, fits))
  | inr long ↦ absurd (clash (rw long at e))
]
  where
    some_bytes : {a b : Bytes} → some a ≡ some b → a ≡ b
    some_bytes q = cc

    clash : ◌≡◌ {A = Option Bytes} none (some bs) → ⊥
    clash q = ground arith

-- Encoders that write the texts as they are.
abbrev plain : Encoders
plain = record {
  frame_header = 1;
  frame_data = 0;
  post_header = λ room path host. if_room room (path ++ host);
  request_header = λ room path host. if_room room (path ++ host);
  literal = λ room name value. if_room room (name ++ value);
  varint = λ room n. n ∷ [];
}

plain-WithinRoom : WithinRoom plain
plain-WithinRoom = record {
  post_room = λ room path host bs e. if_room-length room (path ++ host) bs e;
  request_room = λ room path host bs e. if_room-length room (path ++ host) bs e;
  literal_room = λ room name value bs e. if_room-length room (name ++ value) bs e;
}

build_authenticated_request-IsRequest_example : IsRequest plain 4096 (some (codes "{}")) (
    build_authenticated_request plain 4096
      (codes "POST")
      (codes "/my/action")
      (some (codes "api"))
      (some (codes "key"))
      (some (codes "{}")))
build_authenticated_request-IsRequest_example =
    build_authenticated_request-IsRequest plain plain-WithinRoom 4096 (codes "POST")
      (codes "/my/action") (some (codes "api")) (some (codes "key")) (some (codes "{}"))
      (omega arith)

abbrev fresh : LoopCtx
fresh = record {
  my_stream = none;
  notified_ready = false;
  request_sent = false;
  close_requested = false;
  open_streams = 0;
  method = codes "GET";
  path = codes "/";
  sni = some (codes "api");
  bearer_token = some (codes "key");
  body = none;
}

abbrev quiet : Answers
quiet = record {
  connection_closed = false;
  cnx_state = other_state;
  stream_closed = false;
  has_memory = true;
  queued = true;
}

abbrev life : List Answers
life =
    record quiet { cnx_state = client_almost_ready }
    ∷ record quiet { cnx_state = ready }
    ∷ record quiet { stream_closed = true }
    ∷ record quiet { connection_closed = true }
    ∷ []

abbrev served : Exchange.Answers
served = record {
  resolves = true;
  has_quic = true;
  has_cnx = true;
  starts = true;
  loop_ok = true;
  file = some (codes "ok");
  sized = true;
  has_memory = true;
  got = 1;
}

-- A short read: only its part of the file is printed.
short_read : main 6 (some (codes "key")) (artifacts_mmo_h3_request served).0 ≡ (0, codes "o\n")
unfolding main artifacts_mmo_h3_request take c_text
short_read = refl

artifacts_mmo_h3_request-Sound_example : Sound served (artifacts_mmo_h3_request served)
artifacts_mmo_h3_request-Sound_example = artifacts_mmo_h3_request-Sound served

built_headers :
    with_token plain 4093
      (some (codes "key"))
      (static_headers plain 4093 (codes "POST") (codes "/a") (codes "api"))
    ≡ some (codes "/aapiauthorizationBearer key")
unfolding equal
built_headers = refl
