-- ===== src/Sketch/Codec.antt =====
-- The packets of Codec.lean. Floats are a parameter: what `Float32.ofBits` with `toFloat`, and
-- `toFloat32` with `toBits`, make of them.
use weft_warp_loop.Base.{
  ℕ, zero, suc, ◌+◌, ◌*◌, ◌/◌, ◌%◌, ◌^◌, Bool, not, ◌&&◌, Option, none, some, List, [], ◌∷◌, ◌++◌,
  ◌==◌, ltb, if◌then◌else◌, length, get_elem?, get_or, Bytes,
}

pub record Floats : Type 1 where
  pub Float : Type 0
  pub of_bits : ℕ → Float
  pub to_bits : Float → ℕ

-- `Vec3`, `Sample` and `StrokePacket`.
pub record Vec3 (F : Type 0) : Type 0 where
  pub x : F
  pub y : F
  pub z : F

pub record Sample (F : Type 0) : Type 0 where
  pub pos : Vec3 F
  pub pressure : F

pub record StrokePacket (F : Type 0) : Type 0 where
  pub peer_id : ℕ
  pub stroke_id : ℕ
  pub seq : ℕ
  pub closed : Bool
  pub samples : List (Sample F)

abbrev pub csp1_magic : ℕ
csp1_magic = 0x31505343

abbrev pub csp1_header_bytes : ℕ
csp1_header_bytes = 18

abbrev pub csp1_sample_bytes : ℕ
csp1_sample_bytes = 16

-- `b[i]!`, on bytes, which are numbers below 256: their shifts do not overlap.
unfoldable pub byte_at : Bytes → ℕ → ℕ
byte_at b i = get_or (get_elem? b i) 0

unfoldable pub read_u16 : Bytes → ℕ → ℕ
read_u16 b off = byte_at b off + byte_at b (off + 1) * 2 ^ 8

unfoldable pub read_u32 : Bytes → ℕ → ℕ
read_u32 b off =
    byte_at b off
    + (byte_at b (off + 1) * 2 ^ 8 + (byte_at b (off + 2) * 2 ^ 16 + byte_at b (off + 3) * 2 ^ 24))

-- `pushU16LE` and `pushU32LE`, as the bytes that are pushed.
unfoldable pub u16_bytes : ℕ → Bytes
u16_bytes v = v % 2 ^ 8 ∷ (v / 2 ^ 8) % 2 ^ 8 ∷ []

unfoldable pub u32_bytes : ℕ → Bytes
u32_bytes v = v % 2 ^ 8 ∷ (v / 2 ^ 8) % 2 ^ 8 ∷ (v / 2 ^ 16) % 2 ^ 8 ∷ (v / 2 ^ 24) % 2 ^ 8 ∷ []

module _ (floats : Floats) where
  abbrev pub Packet : Type 0
  Packet = StrokePacket floats.Float

  unfoldable pub read_f32 : Bytes → ℕ → floats.Float
  read_f32 b off = floats.of_bits (read_u32 b off)

  unfoldable pub sample_bytes : Sample floats.Float → Bytes
  sample_bytes s =
      u32_bytes (floats.to_bits s.pos.x)
      ++ (u32_bytes (floats.to_bits s.pos.y)
          ++ (u32_bytes (floats.to_bits s.pos.z) ++ u32_bytes (floats.to_bits s.pressure)))

  unfoldable pub samples_bytes : List (Sample floats.Float) → Bytes
  samples_bytes [] = []
  samples_bytes (s ∷ ss) = sample_bytes s ++ samples_bytes ss

  abbrev pub header_bytes : Packet → Bytes
  header_bytes p =
      u32_bytes csp1_magic
      ++ (u32_bytes p.peer_id
          ++ (u32_bytes p.stroke_id
              ++ (u16_bytes p.seq
                  ++ (u16_bytes (length p.samples % 2 ^ 16)
                      ++ ((if p.closed then 1 else 0) ∷ 0 ∷ [])))))

  -- `StrokePacket.encode`.
  unfoldable pub encode : Packet → Bytes
  unfolding u32_bytes u16_bytes
  encode p = header_bytes p ++ samples_bytes p.samples

  unfoldable pub sample_at : Bytes → ℕ → Sample floats.Float
  sample_at b off = record {
    pos = record { x = read_f32 b off; y = read_f32 b (off + 4); z = read_f32 b (off + 8) };
    pressure = read_f32 b (off + 12);
  }

  -- The loop over the samples, with the offset of the first and how many there are.
  unfoldable pub samples_from : Bytes → ℕ → ℕ → List (Sample floats.Float)
  samples_from b off zero = []
  samples_from b off (suc n) = sample_at b off ∷ samples_from b (off + csp1_sample_bytes) n

  abbrev pub packet_of : Bytes → ℕ → Packet
  packet_of b n = record {
    peer_id = read_u32 b 4;
    stroke_id = read_u32 b 8;
    seq = read_u16 b 12;
    closed = byte_at b 16 == 1;
    samples = samples_from b csp1_header_bytes n;
  }

  -- `StrokePacket.decode`.
  unfoldable pub decode : Bytes → Option Packet
  decode b =
      if ltb (length b) csp1_header_bytes
      then none
      else if not (read_u32 b 0 == csp1_magic)
      then none
      else if not (length b == csp1_header_bytes + read_u16 b 14 * csp1_sample_bytes)
      then none
      else if not (byte_at b 16 == 0) && not (byte_at b 16 == 1)
      then none
      else if not (byte_at b 17 == 0)
      then none
      else some (packet_of b (read_u16 b 14))
