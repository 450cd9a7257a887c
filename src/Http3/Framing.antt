-- ===== src/Http3/Framing.antt =====
-- What is built is a sequence of HTTP/3 frames, and it fits its buffer.
use weft_warp_loop.Base.{
  ℕ, ◌+◌, ◌-◌, ◌*◌, ◌/◌, ◌%◌, ◌^◌, ◌≤◌, ◌<◌, ◌≡◌, refl, ap, ◌∙◌, inl, inr, true, false, Option,
  none, some, [], ◌∷◌, ◌++◌, ltb, if◌then◌else◌, arith, Bytes, equal, length, length-append,
  if_both, if_not_taken, Bool-cases, append-nil,
}
use weft_warp_loop.Wire.Decimal.{codes}
use weft_warp_loop.Http3.Request.{
  Encoders, WithinRoom, joined, static_headers, with_token, or_40, with_length, data_frame,
  with_body, finished, build_authenticated_request,
}

-- A variable-length integer of QUIC in one or two bytes, as a peer reads it: the two high bits
-- of the first byte tell which.
unfoldable pub read_varint : Bytes → Option (ℕ × Bytes)
read_varint [] = none
read_varint (b ∷ []) = if ltb b 64 then some (b, []) else none
read_varint (b ∷ c ∷ cs) =
    if ltb b 64 then some (b, c ∷ cs) else if ltb b 128 then some ((b - 64) * 256 + c, cs) else none

-- The block of headers and what follows it, as a peer finds them.
abbrev pub IsHeadersFrame : Encoders → Bytes → Bytes → Bytes → Type 0
IsHeadersFrame e out h rest =
    (tail : Bytes) × (out ≡ e.frame_header ∷ tail) × (read_varint tail ≡ some (length h, h ++ rest))

-- A DATA frame with the body behind a length, or nothing when there is no body.
abbrev pub IsDataFrame : Encoders → ℕ → Option Bytes → Bytes → Type 0
IsDataFrame e max none rest = rest ≡ []
IsDataFrame e max (some []) rest = rest ≡ []
IsDataFrame e max (some (b ∷ bs)) rest =
    (room : ℕ) × (rest ≡ e.frame_data ∷ (e.varint room (length (b ∷ bs)) ++ (b ∷ bs)))

abbrev pub IsRequest : Encoders → ℕ → Option Bytes → Option Bytes → Type 0
IsRequest e max body none = Unit
IsRequest e max body (some out) =
    (h : Bytes) × (rest : Bytes) × IsHeadersFrame e out h rest
    × IsDataFrame e max body rest
    × (length out ≤ max)

read_varint_one : (n : ℕ) (rest : Bytes) → ltb n 64 ≡ true → read_varint (n ∷ rest) ≡ some (n, rest)
unfolding read_varint
read_varint_one n [] h = rw h refl
read_varint_one n (c ∷ cs) h = rw h refl

read_varint_two :
    (n : ℕ) (rest : Bytes)
    → ltb n 64 ≡ false
    → n < 2 ^ 14
    → read_varint (or_40 (n / 256) ∷ n % 256 ∷ rest) ≡ some (n, rest)
unfolding read_varint
read_varint_two n rest h b =
    let e : or_40 (n / 256) ≡ n / 256 + 64 = ground arith in
    let f : (n / 256 + 64 - 64) * 256 + n % 256 ≡ n = omega arith in
    let small : ltb (n / 256 + 64) 64 ≡ false = ground arith in
    let two : ltb (n / 256 + 64) 128 ≡ true = ground arith in rw (e, small, two, f) refl

-- The length that is patched in is the one a peer reads.
with_length-IsHeadersFrame :
    (e : Encoders) (h rest : Bytes)
    → length h < 2 ^ 14
    → IsHeadersFrame e (with_length e h ++ rest) h rest
with_length-IsHeadersFrame e h rest b = elim (Bool-cases (ltb (length h) 64)) [
  | inl short ↦
      rw short (length h ∷ (h ++ rest), refl, read_varint_one (length h) (h ++ rest) short)
  | inr long ↦ rw long (
    or_40 (length h / 256) ∷ length h % 256 ∷ (h ++ rest),
    refl,
    read_varint_two (length h) (h ++ rest) long b,
  )
]

with_length-length : (e : Encoders) (h : Bytes) → length (with_length e h) ≤ length h + 3
with_length-length e h =
    if_both (λ l. length l ≤ length h + 3) (ltb (length h) 64) _ _ (omega arith) (omega arith)

abbrev pub FitsIn : ℕ → Option Bytes → Type 0
FitsIn room none = Unit
FitsIn room (some bs) = length bs ≤ room

module _ (e : Encoders) (w : WithinRoom e) (max : ℕ) where
  answered :
      (room : ℕ) (r : Option Bytes)
      → ((bs : Bytes) → r ≡ some bs → length bs ≤ room)
      → FitsIn room r
  answered room none h = tt
  answered room (some bs) h = h bs refl

  static_headers-FitsIn :
      (room : ℕ) (method path host : Bytes) → FitsIn room (static_headers e room method path host)
  static_headers-FitsIn room method path host =
      if_both (FitsIn room) (equal method (codes "POST")) _ _
        (answered room (e.post_header room path host) (w.post_room room path host))
        (answered room (e.request_header room path host) (w.request_room room path host))

  joined-FitsIn :
      (room : ℕ) (h : Bytes) (r : Option Bytes)
      → length h ≤ room
      → FitsIn (room - length h) r
      → FitsIn room (joined h r)
  joined-FitsIn room h none a b = tt
  joined-FitsIn room h (some more) a b = omega (arith, length-append h more)

  with_token-FitsIn :
      (room : ℕ) (token h : Option Bytes) → FitsIn room h → FitsIn room (with_token e room token h)
  with_token-FitsIn room none h f = f
  with_token-FitsIn room (some t) none f = tt
  with_token-FitsIn room (some t) (some h) f =
      if_both (FitsIn room) (ltb (length (codes "Bearer " ++ t)) 512) _ _
        (joined-FitsIn room h
          (e.literal (room - length h) (codes "authorization") (codes "Bearer " ++ t)) f
          (answered (room - length h) _
            (w.literal_room (room - length h) (codes "authorization") (codes "Bearer " ++ t))))
        f

  data_frame-IsRequest :
      (h body ls : Bytes) (b : ℕ) (bs : Bytes) (room : ℕ)
      → length h < 2 ^ 14
      → body ≡ b ∷ bs
      → ls ≡ e.varint room (length body)
      → IsRequest e max (some (b ∷ bs)) (data_frame e max (with_length e h) body ls)
  data_frame-IsRequest h body [] b bs room s q v = tt
  data_frame-IsRequest h body (l ∷ ls) b bs room s q v =
      elim (Bool-cases (ltb max (length (with_length e h) + (1 + length (l ∷ ls)) + length body))) [
        | inl long ↦ rw (long, data_frame) tt
        | inr fits ↦
            let rest = e.frame_data ∷ ((l ∷ ls) ++ body) in
            let shape : rest ≡ e.frame_data ∷ (e.varint room (length (b ∷ bs)) ++ (b ∷ bs)) =
              ap (λ t. e.frame_data ∷ (t ++ body)) v
              ∙ ap (λ t. e.frame_data ∷ (e.varint room (length t) ++ t)) q in
            let size : length (with_length e h ++ rest) ≤ max =
              ground
                (arith, fits, length-append (with_length e h) rest, length-append (l ∷ ls) body) in
            rw (fits, data_frame)
              (h, rest, with_length-IsHeadersFrame e h rest s, (room, shape), size)
      ]

  plain-IsRequest :
      (h : Bytes) (body : Option Bytes)
      → length h + 3 ≤ max
      → length h < 2 ^ 14
      → IsDataFrame e max body []
      → IsRequest e max body (some (with_length e h))
  plain-IsRequest h body fits s d =
      let framed = rw (append-nil (with_length e h)) at (with_length-IsHeadersFrame e h [] s) in
      (h, [], framed, d, omega (arith, fits, with_length-length e h))

  with_body-IsRequest :
      (h : Bytes) (body : Option Bytes)
      → length h + 3 ≤ max
      → length h < 2 ^ 14
      → IsRequest e max body (with_body e max body (with_length e h))
  with_body-IsRequest h none fits s = plain-IsRequest h none fits s refl
  with_body-IsRequest h (some []) fits s = plain-IsRequest h (some []) fits s refl
  with_body-IsRequest h (some (b ∷ bs)) fits s =
      if_both (IsRequest e max (some (b ∷ bs))) (ltb max (length (with_length e h) + 1 + 8)) _ _ tt
        (data_frame-IsRequest h (b ∷ bs)
          (e.varint (max - (length (with_length e h) + 1)) (length (b ∷ bs))) b bs _ s refl refl)

  finished-IsRequest :
      (body : Option Bytes) (r : Option Bytes)
      → 3 ≤ max
      → max ≤ 2 ^ 14
      → FitsIn (max - 3) r
      → IsRequest e max body (finished e max body r)
  finished-IsRequest body none three small f = tt
  finished-IsRequest body (some h) three small f =
      with_body-IsRequest h body (omega arith) (omega arith)

  -- What build_authenticated_request leaves in a buffer of at most 2^14 bytes, if it does not
  -- return NULL, fits the buffer and is a HEADERS frame, whose length a reader of QUIC varints
  -- reads as that of the header block, and behind it nothing, or a DATA frame with the encoded
  -- length and the whole body when there is one. The header encoders are assumed to stay within
  -- the room they are given.
  pub build_authenticated_request-IsRequest :
      (method path : Bytes) (host token body : Option Bytes)
      → max ≤ 2 ^ 14
      → IsRequest e max body (build_authenticated_request e max method path host token body)
  unfolding build_authenticated_request
  build_authenticated_request-IsRequest method path none token body small = tt
  build_authenticated_request-IsRequest method path (some host) token body small =
      elim (Bool-cases (ltb max 3)) [
        | inl tiny ↦ rw tiny tt
        | inr three ↦ rw three (
            finished-IsRequest body
              (with_token e (max - 3) token (static_headers e (max - 3) method path host))
              (ground (arith, three)) small
              (with_token-FitsIn (max - 3) token _
                (static_headers-FitsIn (max - 3) method path host)))
      ]

module _ (e : Encoders) (max : ℕ) where
  with_body-some :
      (h : Bytes) (b l : ℕ) (bs ls : Bytes)
      → e.varint (max - (length (with_length e h) + 1)) (length (b ∷ bs)) ≡ l ∷ ls
      → length (with_length e h) + 9 + length (b ∷ bs) ≤ max
      → length (l ∷ ls) ≤ 8
      → with_body e max (some (b ∷ bs)) (with_length e h)
        ≡ some (with_length e h ++ (e.frame_data ∷ ((l ∷ ls) ++ (b ∷ bs))))
  with_body-some h b l bs ls v fits short =
      let room : ltb max (length (with_length e h) + 1 + 8) ≡ false = ground (arith, fits) in
      let whole : ltb max (length (with_length e h) + (1 + length (l ∷ ls)) + length (b ∷ bs))
          ≡ false =
        ground (arith, fits, short) in
      if_not_taken (λ r. r ≡ some (with_length e h ++ (e.frame_data ∷ ((l ∷ ls) ++ (b ∷ bs)))))
        (ltb max (length (with_length e h) + 1 + 8)) _ _ room (rw (v, data_frame, whole) refl)

  -- If the header block encodes, the length of a non-empty body encodes in one to eight bytes, and
  -- the headers, nine bytes more and the body fit the buffer, then build_authenticated_request
  -- does not return NULL: it gives the header block behind its length, the type of a DATA frame,
  -- the encoded length and the body.
  pub build_authenticated_request-some :
      (method path host h : Bytes) (token : Option Bytes) (b l : ℕ) (bs ls : Bytes)
      → with_token e (max - 3) token (static_headers e (max - 3) method path host) ≡ some h
      → e.varint (max - (length (with_length e h) + 1)) (length (b ∷ bs)) ≡ l ∷ ls
      → length (l ∷ ls) ≤ 8
      → length (with_length e h) + 9 + length (b ∷ bs) ≤ max
      → build_authenticated_request e max method path (some host) token (some (b ∷ bs))
        ≡ some (with_length e h ++ (e.frame_data ∷ ((l ∷ ls) ++ (b ∷ bs))))
  unfolding build_authenticated_request
  build_authenticated_request-some method path host h token b l bs ls headers v short fits =
      let three : ltb max 3 ≡ false = ground (arith, fits) in
      rw (three, headers) (with_body-some h b l bs ls v fits short)
