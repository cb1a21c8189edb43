-- ===== src/Packet.antt =====
-- src/core/nc_packet.c: the variable-length unsigned integers of the packet format. A buffer is a
-- list of bytes; a read outside of it is a memory fault, `none`. The writer appends to the bytes
-- that stand before its pointer, `*buf = b; buf++`.
pub mod RoundTrip
mod Tests
use nabto_embedded_sdk.Base.{
  ℕ, ◌+◌, ◌*◌, ◌/◌, ◌%◌, ◌^◌, Bool, true, false, Option, none, some, List, [], ◌∷◌, ◌++◌, bit_and,
  bit_or, ltb, ◌==◌, if◌then◌else◌, get_elem?, ◌>>=◌,
}

-- The result of `var_uint_read` with its two output parameters.
pub record VarUint : Type 0 where
  pub ok : Bool
  pub val : ℕ  -- uint64_t
  pub len : ℕ  -- uint8_t

-- `lengthBits == 1`, `2` and `3`
read_two : List ℕ → ℕ → Option VarUint
read_two buf b7 = do
  b6 ← get_elem? buf 1
  some (record { ok = true; val = b7 * 2 ^ 8 + b6; len = 2 })

read_four : List ℕ → ℕ → Option VarUint
read_four buf b7 = do
  b6 ← get_elem? buf 1
  b5 ← get_elem? buf 2
  b4 ← get_elem? buf 3
  some (record { ok = true; val = b7 * 2 ^ 24 + b6 * 2 ^ 16 + b5 * 2 ^ 8 + b4; len = 4 })

read_eight : List ℕ → ℕ → Option VarUint
read_eight buf b7 = do
  b6 ← get_elem? buf 1
  b5 ← get_elem? buf 2
  b4 ← get_elem? buf 3
  b3 ← get_elem? buf 4
  b2 ← get_elem? buf 5
  b1 ← get_elem? buf 6
  b0 ← get_elem? buf 7
  some (record {
    ok = true;
    val =
        b7 * 2 ^ 56
        + b6 * 2 ^ 48
        + b5 * 2 ^ 40
        + b4 * 2 ^ 32
        + b3 * 2 ^ 24
        + b2 * 2 ^ 16
        + b1 * 2 ^ 8
        + b0;
    len = 8;
  })

-- The chain of tests on `lengthBits`.
read_by_length : List ℕ → ℕ → ℕ → Option VarUint
unfolding read_two read_four read_eight
read_by_length buf b7 length_bits =
    if length_bits == 0
    then some (record { ok = true; val = b7; len = 1 })
    else if length_bits == 1
    then read_two buf b7
    else if length_bits == 2
    then read_four buf b7
    else if length_bits == 3
    then read_eight buf b7
    else some (record { ok = true; val = 0; len = 0 })

-- The first byte is read before the size is looked at.
pub var_uint_read : List ℕ → ℕ → Option VarUint
unfolding read_by_length
var_uint_read buf buf_size = do
  first ← get_elem? buf 0
  let length_bits = first / 2 ^ 6
  if ltb buf_size (2 ^ length_bits)
      then some (record { ok = false; val = 0; len = 0 })
      else read_by_length buf (bit_and first 0x3F) length_bits

-- `(uint8_t)(val >> k)`
abbrev pub byte_at : ℕ → ℕ → ℕ
byte_at val k = val / 2 ^ k % 256

unfoldable pub var_uint_write_forward : List ℕ → ℕ → List ℕ
var_uint_write_forward buf val =
    let b7 = byte_at val 0 in
    let b6 = byte_at val 8 in
    let b5 = byte_at val 16 in
    let b4 = byte_at val 24 in
    let b3 = byte_at val 32 in
    let b2 = byte_at val 40 in
    let b1 = byte_at val 48 in
    let b0 = byte_at val 56 in
    if ltb val (2 ^ 6)
    then buf ++ (b7 ∷ [])
    else if ltb val (2 ^ 14)
    then buf ++ (bit_or b6 64 ∷ b7 ∷ [])
    else if ltb val (2 ^ 30)
    then buf ++ (bit_or b4 128 ∷ b5 ∷ b6 ∷ b7 ∷ [])
    else buf ++ (bit_or b0 192 ∷ b1 ∷ b2 ∷ b3 ∷ b4 ∷ b5 ∷ b6 ∷ b7 ∷ [])
