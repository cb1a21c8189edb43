-- ===== src/Hex/RoundTrip.antt =====
-- Reading back what was printed.
use nabto_embedded_sdk.Base.{
  ℕ, ◌+◌, ◌*◌, ◌/◌, ◌%◌, ◌^◌, ◌<◌, ◌≡◌, refl, sym, ap, ◌∙◌, arith, true, some, List, [], ◌∷◌, ◌++◌,
  All, length, get_elem?, set, replicate, append_assoc, length-append,
}
use nabto_embedded_sdk.Hex.{digit_value, hex_loop, hex_to_data, encode_char, data_to_hex}

-- Every element is a byte.
abbrev AreBytes : List ℕ → Type 0
AreBytes bytes = All (λ b. b < 256) bytes

digit_value-encode_char : (v : ℕ) → v < 16 → digit_value (encode_char v) ≡ some v
unfolding digit_value encode_char
digit_value-encode_char v h = ground arith

get-middle :
    (before : List ℕ) (x : ℕ) (after : List ℕ)
    → get_elem? (before ++ (x ∷ after)) (length before) ≡ some x
get-middle [] x after = refl
get-middle (b ∷ before) x after = get-middle before x after

set-middle :
    (before : List ℕ) (x y : ℕ) (after : List ℕ)
    → set (before ++ (x ∷ after)) (length before) y ≡ before ++ (y ∷ after)
set-middle [] x y after = refl
set-middle (b ∷ before) x y after = ap (λ l. b ∷ l) (set-middle before x y after)

-- One character that is a digit.
hex_loop_digit :
    (before after : List ℕ) (x value index c : ℕ) (cs : List ℕ)
    → digit_value c ≡ some value
    → index / 2 ≡ length before
    → hex_loop index (c ∷ cs) (before ++ (x ∷ after))
      ≡ hex_loop
          (index + 1)
          cs
          (before ++ (((x + value * 2 ^ ((index + 1) % 2 * 4)) % 2 ^ 8) ∷ after))
unfolding hex_loop
hex_loop_digit before after x value index c cs d e =
    rw (d, hex_loop)
      (rw (e, hex_loop)
        (rw (get-middle before x after)
          (rw (set-middle before x ((x + value * 2 ^ ((index + 1) % 2 * 4)) % 2 ^ 8) after) refl)))

-- The two digits of a byte, added at an even place and behind it.
two_digits :
    (n b : ℕ)
    → b < 256
    → ((0 + b / 16 % 16 * 2 ^ ((n * 2 + 1) % 2 * 4)) % 2 ^ 8
          + b % 16 * 2 ^ ((n * 2 + 1 + 1) % 2 * 4))
        % 2 ^ 8
      ≡ b
two_digits n b h =
    let odd : (n * 2 + 1) % 2 ≡ 1 = omega arith in
    let even : (n * 2 + 1 + 1) % 2 ≡ 0 = omega arith in rw odd (rw even (omega arith))

hex_loop-data_to_hex :
    (before bytes : List ℕ)
    → AreBytes bytes
    → hex_loop (length before * 2) (data_to_hex bytes) (before ++ replicate (length bytes) 0)
      ≡ some (true, before ++ bytes)
unfolding data_to_hex hex_loop
hex_loop-data_to_hex before [] h = refl
hex_loop-data_to_hex before (b ∷ bytes) (small, h) =
    let n = length before in
    let places : n * 2 + 1 + 1 ≡ length (before ++ (b ∷ [])) * 2 =
      omega (arith, length-append before (b ∷ [])) in
    let zeros : List ℕ = replicate (length bytes) 0 in
    let first = (0 + b / 16 % 16 * 2 ^ ((n * 2 + 1) % 2 * 4)) % 2 ^ 8 in
    let rest = encode_char (b % 16) ∷ data_to_hex bytes in
    hex_loop_digit before zeros 0 (b / 16 % 16) (n * 2) (encode_char (b / 16 % 16)) rest
      (digit_value-encode_char (b / 16 % 16) (omega arith)) (omega arith)
    ∙ hex_loop_digit before zeros first (b % 16) (n * 2 + 1) (encode_char (b % 16))
        (data_to_hex bytes) (digit_value-encode_char (b % 16) (omega arith)) (omega arith)
    ∙ ap (λ x. hex_loop (n * 2 + 1 + 1) (data_to_hex bytes) (before ++ (x ∷ zeros)))
        (two_digits n b small)
    ∙ rw (sym (append_assoc before (b ∷ []) zeros))
        (rw places (hex_loop-data_to_hex (before ++ (b ∷ [])) bytes h))
    ∙ ap (λ l. some (true, l)) (append_assoc before (b ∷ []) bytes)

length-data_to_hex : (bytes : List ℕ) → length (data_to_hex bytes) ≡ length bytes * 2
unfolding data_to_hex
length-data_to_hex [] = refl
length-data_to_hex (b ∷ bytes) = omega (arith, length-data_to_hex bytes)

-- The text that is printed for bytes is read back as these bytes, into an array of their number,
-- whatever the array held.
pub hex_to_data-data_to_hex :
    (bytes old : List ℕ)
    → AreBytes bytes
    → length old ≡ length bytes
    → hex_to_data (data_to_hex bytes) old ≡ some (true, bytes)
unfolding hex_to_data
hex_to_data-data_to_hex bytes old h e =
    let whole : length bytes * 2 % 2 ≡ 0 = omega arith in
    rw (length-data_to_hex bytes) (rw e (ground (arith, hex_loop-data_to_hex [] bytes h, whole)))
