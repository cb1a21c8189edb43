-- ===== src/Hex/Tests.antt =====
-- Two bytes.
use nabto_embedded_sdk.Base.{◌≡◌, refl, arith, true, some, [], ◌∷◌, codes}
use nabto_embedded_sdk.Hex.{digit_value, hex_loop, encode_char, hex_to_data, data_to_hex}
use nabto_embedded_sdk.Hex.RoundTrip.{hex_to_data-data_to_hex}

printed : data_to_hex (1 ∷ 254 ∷ []) ≡ codes "01fe"
unfolding data_to_hex encode_char
printed = refl

-- An odd number of digits: the first one stands for a whole byte.
read_odd : hex_to_data (codes "1FE") (7 ∷ 7 ∷ []) ≡ some (true, 1 ∷ 254 ∷ [])
unfolding hex_to_data hex_loop digit_value
read_odd = refl

hex_to_data-data_to_hex_example :
    hex_to_data (data_to_hex (1 ∷ 254 ∷ [])) (7 ∷ 7 ∷ []) ≡ some (true, 1 ∷ 254 ∷ [])
hex_to_data-data_to_hex_example =
    hex_to_data-data_to_hex (1 ∷ 254 ∷ []) (7 ∷ 7 ∷ []) (omega arith, (omega arith, tt)) refl
