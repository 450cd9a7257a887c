-- ===== src/Http3/Request.antt =====
-- `build_authenticated_request` of artifacts_mmo_h3_client.c.
use weft_warp_loop.Base.{
  ℕ, ◌+◌, ◌-◌, ◌/◌, ◌%◌, ◌≤◌, ◌≡◌, Option, none, some, [], ◌∷◌, ◌++◌, ltb, ◌==◌, if◌then◌else◌,
  Bytes, equal, length,
}
use weft_warp_loop.Wire.Decimal.{codes}

-- The encoders that the client calls. Each is given the room that is left and answers with the
-- bytes it adds, or with none where the C function returns NULL; the varint encoder answers with no
-- bytes where it returns 0.
pub record Encoders : Type 0 where
  pub frame_header : ℕ
  pub frame_data : ℕ
  pub post_header : ℕ → Bytes → Bytes → Option Bytes
  pub request_header : ℕ → Bytes → Bytes → Option Bytes
  pub literal : ℕ → Bytes → Bytes → Option Bytes
  pub varint : ℕ → ℕ → Bytes

-- What the client relies on: no encoder writes past the room it is given.
pub record WithinRoom (e : Encoders) : Type 0 where
  pub post_room :
      (room : ℕ) (path host bs : Bytes) → e.post_header room path host ≡ some bs → length bs ≤ room
  pub request_room :
      (room : ℕ) (path host bs : Bytes)
      → e.request_header room path host ≡ some bs
      → length bs ≤ room
  pub literal_room :
      (room : ℕ) (name value bs : Bytes) → e.literal room name value ≡ some bs → length bs ≤ room

abbrev pub joined : Bytes → Option Bytes → Option Bytes
joined h none = none
joined h (some more) = some (h ++ more)

-- The static headers, by the method.
abbrev pub static_headers : Encoders → ℕ → Bytes → Bytes → Bytes → Option Bytes
static_headers e room method path host =
    if equal method (codes "POST")
    then e.post_header room path host
    else e.request_header room path host

-- The authorization header, unless there is no token or its value does not fit in 512 bytes.
abbrev pub with_token : Encoders → ℕ → Option Bytes → Option Bytes → Option Bytes
with_token e room none h = h
with_token e room (some token) none = none
with_token e room (some token) (some h) =
    let value = codes "Bearer " ++ token in
    if ltb (length value) 512
    then joined h (e.literal (room - length h) (codes "authorization") value)
    else some h

-- `(uint8_t)(x | 0x40)`.
abbrev pub or_40 : ℕ → ℕ
or_40 x = (if (x / 64) % 2 == 0 then x + 64 else x) % 256

-- The length in front of the header block: one byte, after the block was moved up, or two.
abbrev pub with_length : Encoders → Bytes → Bytes
with_length e h =
    if ltb (length h) 64
    then e.frame_header ∷ length h ∷ h
    else e.frame_header ∷ or_40 (length h / 256) ∷ length h % 256 ∷ h

abbrev pub data_frame : Encoders → ℕ → Bytes → Bytes → Bytes → Option Bytes
data_frame e max front body [] = none
data_frame e max front body (l ∷ ls) =
    if ltb max (length front + (1 + length (l ∷ ls)) + length body)
    then none
    else some (front ++ (e.frame_data ∷ ((l ∷ ls) ++ body)))

-- The body in a DATA frame.
abbrev pub with_body : Encoders → ℕ → Option Bytes → Bytes → Option Bytes
with_body e max none front = some front
with_body e max (some []) front = some front
with_body e max (some (b ∷ bs)) front =
    if ltb max (length front + 1 + 8)
    then none
    else data_frame e max front (b ∷ bs) (e.varint (max - (length front + 1)) (length (b ∷ bs)))

abbrev pub finished : Encoders → ℕ → Option Bytes → Option Bytes → Option Bytes
finished e max body none = none
finished e max body (some h) = with_body e max body (with_length e h)

-- The bytes of the buffer that `consumed` counts, or none for NULL.
unfoldable pub build_authenticated_request :
    Encoders → ℕ → Bytes → Bytes → Option Bytes → Option Bytes → Option Bytes → Option Bytes
build_authenticated_request e max method path none token body = none
build_authenticated_request e max method path (some host) token body =
    if ltb max 3
    then none
    else finished e max body
        (with_token e (max - 3) token (static_headers e (max - 3) method path host))
