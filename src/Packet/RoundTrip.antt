-- ===== src/Packet/RoundTrip.antt =====
-- Encoding and decoding of variable-length integers.
use nabto_embedded_sdk.Base.{
  ℕ, ◌+◌, ◌*◌, ◌/◌, ◌%◌, ◌^◌, ◌≤◌, ◌<◌, ◌≡◌, true, Option, none, some, List, [], ◌∷◌, ◌++◌, ◌∙◌,
  ◌≢◌, get_elem?-some, arith, bit_or, ltb, if◌then◌else◌, length, length-append, bit_and_low_six,
  bit_or_64, bit_or_128, bit_or_192, Bool-cases, inl, inr, ap, ltb→lt,
}
use nabto_embedded_sdk.Packet.{VarUint, var_uint_read, var_uint_write_forward, byte_at}

-- The number of bytes that a value takes.
unfoldable pub encoded_size : ℕ → ℕ
encoded_size val =
    if ltb val (2 ^ 6) then 1 else if ltb val (2 ^ 14) then 2 else if ltb val (2 ^ 30) then 4 else 8

split_two : (v : ℕ) → v < 2 ^ 14 → v / 2 ^ 8 % 256 % 64 * 2 ^ 8 + v / 2 ^ 0 % 256 ≡ v
split_two v h = omega arith

split_four :
    (v : ℕ)
    → v < 2 ^ 30
    → v / 2 ^ 24 % 256 % 64 * 2 ^ 24
        + v / 2 ^ 16 % 256 * 2 ^ 16
        + v / 2 ^ 8 % 256 * 2 ^ 8
        + v / 2 ^ 0 % 256
      ≡ v
split_four v h = omega arith

split_eight :
    (v : ℕ)
    → v < 2 ^ 64
    → v / 2 ^ 56 % 256 % 64 * 2 ^ 56
        + v / 2 ^ 48 % 256 * 2 ^ 48
        + v / 2 ^ 40 % 256 * 2 ^ 40
        + v / 2 ^ 32 % 256 * 2 ^ 32
        + v / 2 ^ 24 % 256 * 2 ^ 24
        + v / 2 ^ 16 % 256 * 2 ^ 16
        + v / 2 ^ 8 % 256 * 2 ^ 8
        + v / 2 ^ 0 % 256
      ≡ v % 2 ^ 62
split_eight v h = omega arith

-- What is read behind a first byte with each of the four length prefixes.
module _ (p size : ℕ) (byte : p < 256) where
  read_prefix_0 :
      (rest : List ℕ)
      → p / 64 ≡ 0
      → 1 ≤ size
      → var_uint_read (p ∷ rest) size ≡ some (record { ok = true; val = p % 64; len = 1 })
  unfolding var_uint_read
  read_prefix_0 rest e h = rw e (ground (arith, bit_and_low_six p byte))

  read_prefix_1 :
      (b : ℕ) (rest : List ℕ)
      → p / 64 ≡ 1
      → 2 ≤ size
      → var_uint_read (p ∷ b ∷ rest) size
        ≡ some (record { ok = true; val = p % 64 * 2 ^ 8 + b; len = 2 })
  unfolding var_uint_read
  read_prefix_1 b rest e h = rw e (ground (arith, bit_and_low_six p byte))

  read_prefix_2 :
      (b c d : ℕ) (rest : List ℕ)
      → p / 64 ≡ 2
      → 4 ≤ size
      → var_uint_read (p ∷ b ∷ c ∷ d ∷ rest) size
        ≡ some (record { ok = true; val = p % 64 * 2 ^ 24 + b * 2 ^ 16 + c * 2 ^ 8 + d; len = 4 })
  unfolding var_uint_read
  read_prefix_2 b c d rest e h = rw e (ground (arith, bit_and_low_six p byte))

  read_prefix_3 :
      (b c d e f g i : ℕ) (rest : List ℕ)
      → p / 64 ≡ 3
      → 8 ≤ size
      → var_uint_read (p ∷ b ∷ c ∷ d ∷ e ∷ f ∷ g ∷ i ∷ rest) size
        ≡ some (record {
          ok = true;
          val =
              p % 64 * 2 ^ 56
              + b * 2 ^ 48
              + c * 2 ^ 40
              + d * 2 ^ 32
              + e * 2 ^ 24
              + f * 2 ^ 16
              + g * 2 ^ 8
              + i;
          len = 8;
        })
  unfolding var_uint_read
  read_prefix_3 b c d e f g i rest q h = rw q (ground (arith, bit_and_low_six p byte))

-- The first byte of each form: its prefix and its six bits.
first_2 :
    (b : ℕ) → b < 64 → (bit_or b 64 < 256) × (bit_or b 64 / 64 ≡ 1) × (bit_or b 64 % 64 ≡ b % 64)
first_2 b h = omega (arith, bit_or_64 b h)

first_4 :
    (b : ℕ) → b < 64 → (bit_or b 128 < 256) × (bit_or b 128 / 64 ≡ 2) × (bit_or b 128 % 64 ≡ b % 64)
first_4 b h = omega (arith, bit_or_128 b h)

first_8 :
    (b : ℕ)
    → b < 256
    → (bit_or b 192 < 256) × (bit_or b 192 / 64 ≡ 3) × (bit_or b 192 % 64 ≡ b % 64)
first_8 b h = omega (arith, bit_or_192 b h)

abbrev result : ℕ → ℕ → Option VarUint
result n k = some (record { ok = true; val = n; len = k })

module _ (v size : ℕ) (rest : List ℕ) where
  read_write_1 :
      v < 2 ^ 6 → 1 ≤ size → var_uint_read (byte_at v 0 ∷ rest) size ≡ result (v % 2 ^ 62) 1
  read_write_1 h fits =
      read_prefix_0 (byte_at v 0) size (omega arith) rest (omega arith) fits
      ∙ ap (λ n. result n 1) (omega arith)

  read_write_2 :
      v < 2 ^ 14
      → 2 ≤ size
      → var_uint_read (bit_or (byte_at v 8) 64 ∷ byte_at v 0 ∷ rest) size ≡ result (v % 2 ^ 62) 2
  read_write_2 h fits =
      let (small, prefix, low) = first_2 (byte_at v 8) (omega arith) in
      read_prefix_1 _ size small (byte_at v 0) rest prefix fits
      ∙ ap (λ n. result n 2) (omega (arith, split_two v h))

  read_write_4 :
      v < 2 ^ 30
      → 4 ≤ size
      → var_uint_read
          (bit_or (byte_at v 24) 128 ∷ byte_at v 16 ∷ byte_at v 8 ∷ byte_at v 0 ∷ rest)
          size
        ≡ result (v % 2 ^ 62) 4
  read_write_4 h fits =
      let (small, prefix, low) = first_4 (byte_at v 24) (omega arith) in
      read_prefix_2 _ size small (byte_at v 16) (byte_at v 8) (byte_at v 0) rest prefix fits
      ∙ ap (λ n. result n 4) (omega (arith, split_four v h))

  read_write_8 :
      v < 2 ^ 64
      → 8 ≤ size
      → var_uint_read
          (bit_or (byte_at v 56) 192
            ∷ byte_at v 48
            ∷ byte_at v 40
            ∷ byte_at v 32
            ∷ byte_at v 24
            ∷ byte_at v 16
            ∷ byte_at v 8
            ∷ byte_at v 0
            ∷ rest)
          size
        ≡ result (v % 2 ^ 62) 8
  read_write_8 h fits =
      let (small, prefix, low) = first_8 (byte_at v 56) (omega arith) in
      read_prefix_3 _ size small (byte_at v 48) (byte_at v 40) (byte_at v 32) (byte_at v 24)
        (byte_at v 16) (byte_at v 8) (byte_at v 0) rest prefix fits
      ∙ ap (λ n. result n 8) (omega (arith, split_eight v h))

-- Whatever 64-bit value is written, reading it back gives its low 62 bits and the number of bytes
-- that the writer took, whatever follows, if the size given to the reader covers those bytes.
pub read-write :
    (v size : ℕ) (rest : List ℕ)
    → v < 2 ^ 64
    → encoded_size v ≤ size
    → var_uint_read (var_uint_write_forward [] v ++ rest) size
      ≡ some (record { ok = true; val = v % 2 ^ 62; len = encoded_size v })
unfolding var_uint_write_forward encoded_size
read-write v size rest h fits = elim (Bool-cases (ltb v (2 ^ 6))) [
  | inl a ↦ rw a (read_write_1 v size rest (ltb→lt _ _ a) (ground arith))
  | inr a ↦ elim (Bool-cases (ltb v (2 ^ 14))) [
    | inl b ↦ rw (a, b) (read_write_2 v size rest (ltb→lt _ _ b) (ground arith))
    | inr b ↦ elim (Bool-cases (ltb v (2 ^ 30))) [
      | inl c ↦ rw (a, b, c) (read_write_4 v size rest (ltb→lt _ _ c) (ground arith))
      | inr c ↦ rw (a, b, c) (read_write_8 v size rest h (ground arith))
    ]
  ]
]

-- The writer moves its pointer by the size of the encoding: it appends that many bytes.
pub length-write :
    (buf : List ℕ) (v : ℕ) → length (var_uint_write_forward buf v) ≡ length buf + encoded_size v
unfolding var_uint_write_forward encoded_size
length-write buf v = ground (
  arith,
  length-append buf (byte_at v 0 ∷ []),
  length-append buf (bit_or (byte_at v 8) 64 ∷ byte_at v 0 ∷ []),
  length-append buf (bit_or (byte_at v 24) 128 ∷ byte_at v 16 ∷ byte_at v 8 ∷ byte_at v 0 ∷ []),
  length-append buf (
      bit_or (byte_at v 56) 192
      ∷ byte_at v 48
      ∷ byte_at v 40
      ∷ byte_at v 32
      ∷ byte_at v 24
      ∷ byte_at v 16
      ∷ byte_at v 8
      ∷ byte_at v 0
      ∷ []),
)

-- With at least one byte at hand and a size that the bytes at hand cover, the reader never reads
-- outside of the buffer.
pub read_in_bounds :
    (buf : List ℕ) (size : ℕ) → 1 ≤ length buf → size ≤ length buf → var_uint_read buf size ≢ none
unfolding var_uint_read
read_in_bounds [] size h k = absurd (omega arith)
read_in_bounds (p ∷ buf) size h k = ground (
  arith,
  get_elem?-some buf 0,
  get_elem?-some buf 1,
  get_elem?-some buf 2,
  get_elem?-some buf 3,
  get_elem?-some buf 4,
  get_elem?-some buf 5,
  get_elem?-some buf 6,
)
