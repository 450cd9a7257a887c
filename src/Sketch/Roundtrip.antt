-- ===== src/Sketch/Roundtrip.antt =====
-- A packet that is encoded decodes to itself.
use weft_warp_loop.Base.{
  ℕ, zero, suc, ◌+◌, ◌*◌, ◌^◌, ◌<◌, ◌≡◌, refl, ap, ap₂, ◌∙◌, Bool, true, false, ◌&&◌, not, some,
  List, [], ◌∷◌, ◌++◌, ◌==◌, ltb, ==-refl, if◌then◌else◌, length, get_elem?, Bytes, arith,
}
use weft_warp_loop.Sketch.Codec.{
  Floats, Sample, Packet, csp1_magic, csp1_header_bytes, csp1_sample_bytes, byte_at, read_u16,
  read_u32, u16_bytes, u32_bytes, read_f32, sample_bytes, samples_bytes, header_bytes, encode,
  sample_at, samples_from, decode,
}

read_u32-u32_bytes : (v : ℕ) (rest : Bytes) → v < 2 ^ 32 → read_u32 (u32_bytes v ++ rest) 0 ≡ v
unfolding read_u32 byte_at get_elem? u32_bytes
read_u32-u32_bytes v rest h = omega arith

suc_add : (m n : ℕ) → suc m + n ≡ suc (m + n)
suc_add m n = omega arith

read_u32-later : (a : ℕ) (b : Bytes) (off : ℕ) → read_u32 (a ∷ b) (suc off) ≡ read_u32 b off
unfolding read_u32 byte_at get_elem?
read_u32-later a b off = rw (suc_add off 1, suc_add off 2, suc_add off 3) refl

module _ (floats : Floats) where
  -- Floats whose bits are read back.
  abbrev pub Exact : floats.Float → Type 0
  Exact f = (floats.to_bits f < 2 ^ 32) × (floats.of_bits (floats.to_bits f) ≡ f)

  unfoldable pub ExactSamples : List (Sample floats.Float) → Type 0
  ExactSamples [] = Unit
  ExactSamples (s ∷ ss) =
      (Exact s.pos.x × (Exact s.pos.y × (Exact s.pos.z × Exact s.pressure))) × ExactSamples ss

  read_f32-later :
      (a : ℕ) (b : Bytes) (off : ℕ) → read_f32 floats (a ∷ b) (suc off) ≡ read_f32 floats b off
  unfolding read_f32
  read_f32-later a b off = ap floats.of_bits (read_u32-later a b off)

  sample_at-later :
      (a : ℕ) (b : Bytes) (off : ℕ) → sample_at floats (a ∷ b) (suc off) ≡ sample_at floats b off
  unfolding sample_at
  sample_at-later a b off =
      rw
        (
          suc_add off 4,
          suc_add off 8,
          suc_add off 12,
          read_f32-later a b off,
          read_f32-later a b (off + 4),
          read_f32-later a b (off + 8),
          read_f32-later a b (off + 12),
        )
        refl

  samples_from-later :
      (a : ℕ) (b : Bytes) (off n : ℕ)
      → samples_from floats (a ∷ b) (suc off) n ≡ samples_from floats b off n
  unfolding samples_from
  samples_from-later a b off zero = refl
  samples_from-later a b off (suc n) =
      rw
        (
          sample_at-later a b off,
          suc_add off csp1_sample_bytes,
          samples_from-later a b (off + csp1_sample_bytes) n,
        )
        refl

  length-samples_bytes :
      (ss : List (Sample floats.Float))
      → length (samples_bytes floats ss) ≡ length ss * csp1_sample_bytes
  unfolding samples_bytes sample_bytes u32_bytes
  length-samples_bytes [] = refl
  length-samples_bytes (s ∷ ss) = rw (length-samples_bytes ss) (omega arith)

  -- The samples behind the sixteen bytes of one.
  samples_from-skip :
      (xs b : Bytes) (n : ℕ)
      → samples_from floats (xs ++ b) (length xs) n ≡ samples_from floats b 0 n
  samples_from-skip [] b n = refl
  samples_from-skip (x ∷ xs) b n =
      samples_from-later x (xs ++ b) (length xs) n ∙ samples_from-skip xs b n

  read_f32-Exact :
      (f : floats.Float) (rest : Bytes)
      → Exact f
      → floats.of_bits (read_u32 (u32_bytes (floats.to_bits f) ++ rest) 0) ≡ f
  read_f32-Exact f rest (small, back) = rw (read_u32-u32_bytes (floats.to_bits f) rest small) back

  sample_at-sample_bytes :
      (s : Sample floats.Float) (rest : Bytes)
      → Exact s.pos.x × (Exact s.pos.y × (Exact s.pos.z × Exact s.pressure))
      → sample_at floats (sample_bytes floats s ++ rest) 0 ≡ s
  unfolding sample_at sample_bytes read_f32 read_u32 byte_at get_elem? u32_bytes
  sample_at-sample_bytes s rest (x, (y, (z, w))) =
      rw
        (
          read_f32-Exact s.pos.x [] x,
          read_f32-Exact s.pos.y [] y,
          read_f32-Exact s.pos.z [] z,
          read_f32-Exact s.pressure [] w,
        )
        refl

  samples_from-samples_bytes :
      (ss : List (Sample floats.Float))
      → ExactSamples ss
      → samples_from floats (samples_bytes floats ss) 0 (length ss) ≡ ss
  unfolding samples_from samples_bytes ExactSamples sample_bytes u32_bytes
  samples_from-samples_bytes [] exact = refl
  samples_from-samples_bytes (s ∷ ss) (one, exact) =
      ap₂ (λ (r : Sample floats.Float) (l : List (Sample floats.Float)). r ∷ l)
        (sample_at-sample_bytes s (samples_bytes floats ss) one)
        (samples_from-skip (sample_bytes floats s) (samples_bytes floats ss) (length ss)
          ∙ samples_from-samples_bytes ss exact)

  -- The fields that a packet has room for.
  unfoldable pub Fits : Packet floats → Type 0
  unfolding ExactSamples
  Fits p =
      (p.peer_id < 2 ^ 32)
      × ((p.stroke_id < 2 ^ 32)
          × ((p.seq < 2 ^ 16) × ((length p.samples < 2 ^ 16) × ExactSamples p.samples)))

  length-encode :
      (p : Packet floats)
      → length (encode floats p) ≡ csp1_header_bytes + length p.samples * csp1_sample_bytes
  unfolding encode u32_bytes u16_bytes
  length-encode p = rw (length-samples_bytes p.samples) (omega arith)

  module _ (p : Packet floats) where
    magic-encode : read_u32 (encode floats p) 0 ≡ csp1_magic
    unfolding encode u32_bytes u16_bytes read_u32 byte_at get_elem?
    magic-encode = refl

    peer_id-encode : p.peer_id < 2 ^ 32 → read_u32 (encode floats p) 4 ≡ p.peer_id
    unfolding encode u32_bytes u16_bytes read_u32 byte_at get_elem?
    peer_id-encode h = read_u32-u32_bytes p.peer_id [] h

    stroke_id-encode : p.stroke_id < 2 ^ 32 → read_u32 (encode floats p) 8 ≡ p.stroke_id
    unfolding encode u32_bytes u16_bytes read_u32 byte_at get_elem?
    stroke_id-encode h = read_u32-u32_bytes p.stroke_id [] h

    seq-encode : p.seq < 2 ^ 16 → read_u16 (encode floats p) 12 ≡ p.seq
    unfolding encode u32_bytes u16_bytes read_u16 byte_at get_elem?
    seq-encode h = omega arith

    count-encode : length p.samples < 2 ^ 16 → read_u16 (encode floats p) 14 ≡ length p.samples
    unfolding encode u32_bytes u16_bytes read_u16 byte_at get_elem?
    count-encode h = omega arith

    flags-encode :
        (byte_at (encode floats p) 16 ≡ (if p.closed then 1 else 0))
        × (byte_at (encode floats p) 17 ≡ 0)
    unfolding encode u32_bytes u16_bytes byte_at get_elem?
    flags-encode = (refl, refl)

    samples-encode :
        ExactSamples p.samples
        → samples_from floats (encode floats p) csp1_header_bytes (length p.samples) ≡ p.samples
    unfolding encode u32_bytes u16_bytes
    samples-encode h =
        samples_from-skip (header_bytes floats p) (samples_bytes floats p.samples)
          (length p.samples)
        ∙ samples_from-samples_bytes p.samples h

  closed_flag : (c : Bool) → ((if c then 1 else 0) == 1) ≡ c
  closed_flag true = refl
  closed_flag false = refl

  bad_flag :
      (c : Bool) → (not ((if c then 1 else 0) == 0) && not ((if c then 1 else 0) == 1)) ≡ false
  bad_flag true = refl
  bad_flag false = refl

  long_enough : (n : ℕ) → ltb (csp1_header_bytes + n * csp1_sample_bytes) csp1_header_bytes ≡ false
  long_enough n = ground arith

  -- A packet that is encoded decodes to itself. Its ids have to be below 2^32, its number and the
  -- number of its samples below 2^16, and its floats have to be those that their bits are read
  -- back to.
  pub decode-encode : (p : Packet floats) → Fits p → decode floats (encode floats p) ≡ some p
  unfolding Fits decode
  decode-encode p (peer, (stroke, (number, (many, exact)))) =
      let (flag, reserved) = flags-encode p in
      rw
        (
          length-encode p,
          long_enough (length p.samples),
          magic-encode p,
          count-encode p many,
          ==-refl (csp1_header_bytes + length p.samples * csp1_sample_bytes),
          flag,
          reserved,
          bad_flag p.closed,
          peer_id-encode p peer,
          stroke_id-encode p stroke,
          seq-encode p number,
          closed_flag p.closed,
          samples-encode p exact,
        )
        refl
