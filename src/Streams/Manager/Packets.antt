-- ===== src/Streams/Manager/Packets.antt =====
-- Packets of streams: what the manager reads from one is what was written into it.
use nabto_embedded_sdk.Base.{
  ℕ, zero, suc, ◌+◌, ◌^◌, ◌≤◌, ◌<◌, ◌≡◌, ◌≢◌, refl, ap, ◌∙◌, arith, Bool, true, false, none, some,
  List, [], ◌∷◌, ◌++◌, length, length-append, drop, get_elem?, bit_and, append-nil,
}
use nabto_embedded_sdk.Packet.{var_uint_read, var_uint_write_forward}
use nabto_embedded_sdk.Packet.RoundTrip.{encoded_size, read-write, length-write}
use nabto_embedded_sdk.Connections.{at_stream}
use nabto_embedded_sdk.Streams.{StreamLib}
use nabto_embedded_sdk.Streams.Manager.{
  StreamPackets, send_rst_to, Manager, find_stream, send_rst, packet_of_stream, handle_packet,
}

drop_append : (xs ys : List ℕ) (n : ℕ) → n ≡ length xs → drop n (xs ++ ys) ≡ ys
drop_append [] ys zero h = refl
drop_append [] ys (suc n) h = ground arith
drop_append (x ∷ xs) ys zero h = ground arith
drop_append (x ∷ xs) ys (suc n) h = drop_append xs ys n (omega (arith, h))

get_elem?-append :
    (xs : List ℕ) (y : ℕ) (ys : List ℕ) (n : ℕ)
    → n ≡ length xs
    → get_elem? (xs ++ (y ∷ ys)) n ≡ some y
get_elem?-append [] y ys zero h = refl
get_elem?-append [] y ys (suc n) h = ground arith
get_elem?-append (x ∷ xs) y ys zero h = ground arith
get_elem?-append (x ∷ xs) y ys (suc n) h = get_elem?-append xs y ys n (omega (arith, h))

get_elem?-length : (xs : List ℕ) (n : ℕ) → length xs ≤ n → get_elem? xs n ≡ none
get_elem?-length [] n h = ground arith
get_elem?-length (x ∷ xs) zero h = ground arith
get_elem?-length (x ∷ xs) (suc n) h = get_elem?-length xs n (omega (arith, h))

write_behind :
    (prefix id : ℕ)
    → var_uint_write_forward (prefix ∷ []) id ≡ prefix ∷ var_uint_write_forward [] id
unfolding var_uint_write_forward
write_behind prefix id = ground arith

size_of : (id : ℕ) → encoded_size id ≡ length (var_uint_write_forward [] id)
size_of id = omega (arith, length-write [] id)

-- The id of a packet, whatever is behind it.
read_id :
    (id : ℕ) (rest : List ℕ)
    → id < 2 ^ 62
    → var_uint_read
        (var_uint_write_forward [] id ++ rest)
        (length (var_uint_write_forward [] id ++ rest))
      ≡ some (record { ok = true; val = id; len = encoded_size id })
read_id id rest h =
    let size = length-write [] id in
    let fits : encoded_size id ≤ length (var_uint_write_forward [] id ++ rest) =
      omega (arith, size, length-append (var_uint_write_forward [] id) rest) in
    read-write id (length (var_uint_write_forward [] id ++ rest)) rest (omega (arith, h)) fits
    ∙ ap (λ n. some (record { ok = true; val = n; len = encoded_size id })) (omega (arith, h))

module _ (sl : StreamLib) (start : sl.Protocol) where
  -- A packet of at least four bytes with an id of 62 bits and flags behind it is handled as one of that
  -- stream, from its flags on.
  pub handle_packet_lem :
      (sp : StreamPackets) (ok : Bool) (conn ref id flags : ℕ) (rest : List ℕ)
      (m : Manager sl start)
      → id < 2 ^ 62
      → 4 ≤ length (at_stream ∷ (var_uint_write_forward [] id ++ (flags ∷ rest)))
      → handle_packet sl start sp ok conn ref
          (at_stream ∷ (var_uint_write_forward [] id ++ (flags ∷ rest)))
          m
        ≡ some (packet_of_stream sl start sp ok id conn ref flags (flags ∷ rest) m)
  unfolding handle_packet
  handle_packet_lem sp ok conn ref id flags rest m h long =
      let flags_at =
        get_elem?-append (var_uint_write_forward [] id) flags rest (encoded_size id) (size_of id) in
      let behind =
        drop_append (var_uint_write_forward [] id) (flags ∷ rest) (encoded_size id) (size_of id) in
      ground (arith, long, read_id id (flags ∷ rest) h, flags_at, behind)

  -- A packet that ends behind an id of more than 14 bits is read one byte behind its end.
  pub flags_behind :
      (sp : StreamPackets) (ok : Bool) (conn ref id : ℕ) (m : Manager sl start)
      → 2 ^ 14 ≤ id
      → id < 2 ^ 62
      → handle_packet sl start sp ok conn ref (at_stream ∷ var_uint_write_forward [] id) m ≡ none
  unfolding handle_packet encoded_size
  flags_behind sp ok conn ref id m low high =
      let size = length-write [] id in
      let bytes = var_uint_write_forward [] id in
      let long : 4 ≤ encoded_size id = ground arith in
      let read = ap (λ xs. var_uint_read xs (length xs)) (append-nil bytes) in
      let behind =
        get_elem?-length (at_stream ∷ bytes) (1 + encoded_size id) (omega (arith, size)) in
      ground (arith, size, long, read, read_id id [] high, behind)

  -- A packet for a stream that is not there, with an id of 62 bits and flags that neither open a
  -- stream nor reset one, while no reset is being sent and there is a buffer: a packet is sent to
  -- its connection which has the same id when it is read, with the reset behind the id.
  pub packet_of_stream-rst :
      (sp : StreamPackets) (id conn ref flags : ℕ) (packet : List ℕ) (m : Manager sl start)
      → id < 2 ^ 62
      → find_stream sl start id conn m.slots ≡ none
      → flags ≢ sp.flag_syn
      → bit_and flags sp.flag_rst ≢ sp.flag_rst
      → m.rst_buf ≡ false
      → (bytes : List ℕ) × (packet_of_stream sl start sp true id conn ref flags packet m
          ≡ (record m { rst_buf = true }, send_rst_to conn (at_stream ∷ bytes) ∷ []))
        × (var_uint_read bytes (length bytes)
            ≡ some (record { ok = true; val = id; len = encoded_size id }))
        × (drop (encoded_size id) bytes ≡ sp.rst_packet)
  unfolding packet_of_stream send_rst
  packet_of_stream-rst sp id conn ref flags packet m h absent no_syn no_rst idle = (
    var_uint_write_forward [] id ++ sp.rst_packet,
    ground (arith, absent, no_syn, no_rst, idle, write_behind at_stream id),
    read_id id sp.rst_packet h,
    drop_append (var_uint_write_forward [] id) sp.rst_packet (encoded_size id) (size_of id),
  )
