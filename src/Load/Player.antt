-- ===== src/Load/Player.antt =====
-- One simulated player of fanout_load_client.actor.cpp.
use weft_warp_loop.Base.{
  ℕ, zero, suc, ◌+◌, ◌-◌, ◌*◌, ◌%◌, Bool, true, false, List, [], ◌∷◌, ◌++◌, if◌then◌else◌, Bytes,
}
use weft_warp_loop.Wire.Decimal.{ℤ, pos, negsuc, codes, to_string}
use weft_warp_loop.Server.{Write}

-- `PlayerState`.
pub data PlayerState : Type 0 where
  connecting publishing done failed : PlayerState

-- `PlayerCtx`, with its ints as integers.
pub record Player : Type 0 where
  pub player_id : ℤ
  pub ticks_remaining : ℤ
  pub state : PlayerState
  pub stream_id : ℕ

-- What a cast to uint8_t leaves of an int.
abbrev pub byte_of : ℤ → ℕ
byte_of (pos n) = n % 256
byte_of (negsuc n) = 255 - n % 256

abbrev pub seq_bytes : ℕ → ℕ → ℕ → Bytes
seq_bytes seed i zero = []
seq_bytes seed i (suc n) = (seed + i) % 256 ∷ seq_bytes seed (suc i) n

-- `makePayload`. The product is taken without the int overflow that an id above two millions has.
unfoldable pub make_payload : ℤ → ℕ → Bytes
make_payload id tick = seq_bytes ((byte_of id * 1000 + tick) % 256) 0 100

-- `zpbHeader`.
unfoldable pub zpb_header : ℤ → ℕ → Bytes
zpb_header id tick =
    codes "ZPB " ++ (to_string id ++ (codes " " ++ (to_string (pos tick) ++ codes " 0 0 0 0\n")))

abbrev pub write_on : ℕ → Player → Bytes → Write
write_on cnx p bytes = record { cnx = cnx; stream = p.stream_id; bytes = bytes }

-- The loop of `sendAllTicks`, with as many rounds as ticks remain.
unfoldable pub send_loop : ℕ → ℕ → Player → Player × List Write
send_loop cnx zero p = (p, [])
send_loop cnx (suc n) p =
    let (p', ws) = send_loop cnx n (record p { ticks_remaining = pos n }) in
    (
      p',
      write_on cnx p (zpb_header p.player_id (suc n))
          ∷ write_on cnx p (make_payload p.player_id (suc n))
          ∷ ws,
    )

abbrev pub rounds_of : ℤ → ℕ
rounds_of (pos n) = n
rounds_of (negsuc n) = 0

-- `sendAllTicks`.
unfoldable pub send_all_ticks : ℕ → Player → Player × List Write
send_all_ticks cnx p =
    let (p', ws) = send_loop cnx (rounds_of p.ticks_remaining) (record p { state = publishing }) in
    (record p' { state = done }, ws)

pub data ClientEvent : Type 0 where
  almost_ready ready stream_data stream_fin close application_close other : ClientEvent

-- `player->state == PlayerState::Connecting` and `== Done`.
abbrev pub is_connecting : PlayerState → Bool
is_connecting connecting = true
is_connecting _ = false

abbrev pub is_done : PlayerState → Bool
is_done done = true
is_done _ = false

abbrev pub is_failed : PlayerState → Bool
is_failed failed = true
is_failed _ = false

abbrev pub on_ready : ℕ → Player → Player × List Write
on_ready cnx p =
    if is_connecting p.state then send_all_ticks cnx (record p { stream_id = 0 }) else (p, [])

abbrev pub on_client_close : Player → Player × List Write
on_client_close p = if is_done p.state then (p, []) else (record p { state = failed }, [])

-- `loadClientStreamCallback`.
unfoldable pub client_callback : ClientEvent → ℕ → Player → Player × List Write
client_callback almost_ready cnx p = on_ready cnx p
client_callback ready cnx p = on_ready cnx p
client_callback stream_data cnx p = (p, [])
client_callback stream_fin cnx p = (p, [])
client_callback close cnx p = on_client_close p
client_callback application_close cnx p = on_client_close p
client_callback other cnx p = (p, [])

-- The callback's calls over a connection's life, and all that they write.
unfoldable pub client_run : List ClientEvent → ℕ → Player → Player × List Write
client_run [] cnx p = (p, [])
client_run (e ∷ es) cnx p =
    let (p', ws) = client_callback e cnx p in
    let (p'', more) = client_run es cnx p' in (p'', ws ++ more)
