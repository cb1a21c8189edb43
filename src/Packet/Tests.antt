-- ===== src/Packet/Tests.antt =====
-- Variable-length integers at concrete values.
use nabto_embedded_sdk.Base.{
  ℕ, ◌%◌, ◌^◌, ◌+◌, ◌≡◌, ◌≢◌, refl, none, some, true, false, List, [], ◌∷◌, ◌++◌, arith, length,
}
use nabto_embedded_sdk.Packet.{var_uint_read, var_uint_write_forward}
use nabto_embedded_sdk.Packet.RoundTrip.{encoded_size, read-write, length-write, read_in_bounds}

abbrev followed : List ℕ
followed = 7 ∷ 8 ∷ []

written_15293 : var_uint_write_forward [] 15293 ≡ 0x7B ∷ 0xBD ∷ []
unfolding var_uint_write_forward
written_15293 = refl

encoded_size_15293 : encoded_size 15293 ≡ 2
unfolding encoded_size
encoded_size_15293 = refl

read-write_example :
    var_uint_read (var_uint_write_forward [] 15293 ++ followed) 4
    ≡ some (record { ok = true; val = 15293 % 2 ^ 62; len = encoded_size 15293 })
read-write_example = read-write 15293 4 followed (omega arith) (omega (arith, encoded_size_15293))

length-write_run :
    length (var_uint_write_forward followed 494878333) ≡ length followed + encoded_size 494878333
length-write_run = length-write followed 494878333

read_in_bounds_run : var_uint_read (0x40 ∷ 9 ∷ []) 2 ≢ none
read_in_bounds_run = read_in_bounds (0x40 ∷ 9 ∷ []) 2 (omega arith) (omega arith)

-- The first byte says that eight bytes follow, and the size says two.
read_short : var_uint_read (0xC0 ∷ 9 ∷ []) 2 ≡ some (record { ok = false; val = 0; len = 0 })
unfolding var_uint_read
read_short = refl
