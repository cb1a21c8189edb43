-- ===== src/Hex.antt =====
-- src/platform/np_util.c: bytes as hexadecimal text and back. Characters are their codes; a shift and
-- a mask of four bits are a quotient and a remainder by 16.
pub mod RoundTrip
mod Tests
use nabto_embedded_sdk.Base.{
  ℕ, zero, suc, ◌+◌, ◌-◌, ◌*◌, ◌/◌, ◌%◌, ◌^◌, Bool, true, false, not, ◌&&◌, ◌||◌, Option, none,
  some, List, [], ◌∷◌, ◌++◌, CString, length, get_elem?, set, replicate, ltb, leb, ◌==◌,
  if◌then◌else◌, ◌>>=◌,
}

-- The value of a digit, from '0', 'A' or 'a' on; `none` is no digit.
pub digit_value : ℕ → Option ℕ
digit_value c =
    if leb 48 c && leb c 57
    then some (c - 48)
    else if leb 65 c && leb c 70
    then some (10 + (c - 65))
    else if leb 97 c && leb c 102
    then some (10 + (c - 97))
    else none

-- The loop over the characters that are left. A false result leaves what was written so far. A write
-- outside of the array is a fault, `none`.
hex_loop : ℕ → List ℕ → List ℕ → Option (Bool × List ℕ)
hex_loop index [] bytes = some (true, bytes)
hex_loop index (c ∷ cs) bytes = elim (digit_value c) [
  | none ↦ some (false, bytes)
  | some value ↦ get_elem? bytes (index / 2) >>= λ old.
      hex_loop (index + 1) cs
        (set bytes (index / 2) ((old + value * 2 ^ ((index + 1) % 2 * 4)) % 2 ^ 8))
]

-- The array before, and what is returned with the array behind.
pub hex_to_data : CString → List ℕ → Option (Bool × List ℕ)
unfolding hex_loop
hex_to_data hex bytes =
    let size = length bytes in
    if not (length hex == size * 2 || length hex == (size * 2 + 2 ^ 64 - 1) % 2 ^ 64)
    then some (false, bytes)
    else hex_loop (length hex % 2) hex (replicate size 0)

pub encode_char : ℕ → ℕ
encode_char val = if leb val 9 then 48 + val else 97 + (val - 10)

pub data_to_hex : List ℕ → CString
data_to_hex [] = []
data_to_hex (byte ∷ bytes) =
    encode_char (byte / 16 % 16) ∷ encode_char (byte % 16) ∷ data_to_hex bytes
