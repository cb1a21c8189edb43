-- ===== src/Streams/Tests.antt =====
-- Streams over a protocol that is two lists of bytes.
use nabto_embedded_sdk.Base.{
  ◌⊎◌, ℕ, zero, suc, ◌≤◌, ◌≡◌, refl, arith, true, false, none, some, List, [], ◌∷◌, ◌++◌, length,
  take, drop, replicate,
}
use nabto_embedded_sdk.Packet.{var_uint_read, var_uint_write_forward}
use nabto_embedded_sdk.Packet.RoundTrip.{encoded_size}
use nabto_embedded_sdk.Attacher.{ec_ok, aborted, operation_in_progress}
use nabto_embedded_sdk.Connections.{at_stream}
use nabto_embedded_sdk.Streams.{
  status_ok, StreamLib, Done, done, read_done, Stream, do_read, do_write_all, async_write,
  async_accept, application_event, app_opened, app_data_write, is_ok_status,
}
use nabto_embedded_sdk.Streams.Io.{ReadLaws, WriteLaws}
use nabto_embedded_sdk.Streams.Reads.{AllRead, do_read-AllRead}
use nabto_embedded_sdk.Streams.Writes.{AllWritten, do_write_all-AllWritten, empty_write_waits}
use nabto_embedded_sdk.Streams.Manager.{
  same_conn, StreamPackets, packet_to, send_rst_to, StreamSlot, Manager, slot_init, slot_destroy,
  find_stream, packet_of_stream, handle_packet,
}
use nabto_embedded_sdk.Streams.Manager.Packets.{
  handle_packet_lem, flags_behind, packet_of_stream-rst,
}
use nabto_embedded_sdk.Streams.Manager.Slots.{
  count_any, count_active, UniqueStreams, step_packet, ManagerStep-UniqueStreams, stale_callback,
  destroyed_stream_found,
}

-- The first byte, if one is asked for.
one_byte : ℕ → List ℕ → List ℕ × List ℕ
one_byte zero xs = ([], xs)
one_byte (suc n) [] = ([], [])
one_byte (suc n) (x ∷ xs) = (x ∷ [], xs)

one_byte-append : (n : ℕ) (xs : List ℕ) → (one_byte n xs).0 ++ (one_byte n xs).1 ≡ xs
unfolding one_byte
one_byte-append zero xs = refl
one_byte-append (suc n) [] = refl
one_byte-append (suc n) (x ∷ xs) = refl

one_byte-length : (n : ℕ) (xs : List ℕ) → length (one_byte n xs).0 ≤ n
unfolding one_byte
one_byte-length zero xs = ground arith
one_byte-length (suc n) [] = ground arith
one_byte-length (suc n) (x ∷ xs) = ground arith

-- One byte is taken at a time.
one_out : List ℕ → ℕ
one_out [] = 0
one_out (x ∷ xs) = 1

one_out-length : (xs : List ℕ) → one_out xs ≤ length xs
unfolding one_out
one_out-length [] = ground arith
one_out-length (x ∷ xs) = ground arith

-- What came in and what went out.
abbrev bytewise : StreamLib
bytewise = record {
  Protocol = List ℕ × List ℕ;
  read_buffer = λ n p. (status_ok, (one_byte n p.0).0, ((one_byte n p.0).1, p.1));
  write_buffer = λ bytes p. (status_ok, one_out bytes, (p.0, p.1 ++ take (one_out bytes) bytes));
  protocol_close = λ p. (status_ok, p);
  protocol_accept = λ p. p;
  protocol_release = λ p. p;
}

bytewise-ReadLaws : ReadLaws bytewise (λ p. p.0)
bytewise-ReadLaws = record {
  gives = λ n p h. one_byte-append n p.0;
  at_most = λ n p h. one_byte-length n p.0;
}

bytewise-WriteLaws : WriteLaws bytewise (λ p. p.1)
bytewise-WriteLaws = record {
  takes = λ bytes p h. refl;
  no_more = λ bytes p h. one_out-length bytes;
}

abbrev stream_sample : Stream bytewise
stream_sample = record {
  protocol = (1 ∷ 2 ∷ 3 ∷ [], []);
  accept_cb = some 3;
  read_all_cb = some 5;
  read_some_cb = none;
  read_data = [];
  read_room = 2;
  write_cb = some 6;
  write_data = 7 ∷ 8 ∷ [];
  close_cb = none;
}

-- Two bytes are read, one after the other.
do_read_run : (do_read bytewise stream_sample).1 ≡ read_done ec_ok 5 (1 ∷ 2 ∷ []) ∷ []
unfolding do_read one_byte
do_read_run = refl

do_read-AllRead_example :
    AllRead bytewise (λ p. p.0) bytewise-ReadLaws 5 stream_sample (do_read bytewise stream_sample)
do_read-AllRead_example = do_read-AllRead bytewise (λ p. p.0) bytewise-ReadLaws 5 stream_sample refl

do_write_all-AllWritten_example :
    AllWritten bytewise
      (λ p. p.1)
      bytewise-WriteLaws
      6
      stream_sample
      (do_write_all bytewise stream_sample)
do_write_all-AllWritten_example =
    do_write_all-AllWritten bytewise (λ p. p.1) bytewise-WriteLaws 6 stream_sample refl

abbrev idle_stream : Stream bytewise
idle_stream = record stream_sample {
  accept_cb = none;
  read_all_cb = none;
  write_cb = none;
  write_data = [];
}

always_ok : (p : bytewise.Protocol) → is_ok_status (bytewise.write_buffer [] p).0 ≡ true
unfolding is_ok_status
always_ok p = refl

empty_write_waits_run :
    (async_write bytewise [] 4 idle_stream ≡ (
      ec_ok,
      (
        record idle_stream {
          protocol = (bytewise.write_buffer [] idle_stream.protocol).2;
          write_cb = some 4;
          write_data = [];
        },
        [],
      ),
    ))
    × ((application_event bytewise app_data_write (async_write bytewise [] 4 idle_stream).1.0).1
        ≡ [])
    × ((application_event bytewise app_data_write
          (async_write bytewise [] 4 idle_stream).1.0).0.write_cb
        ≡ some 4)
empty_write_waits_run =
    empty_write_waits bytewise (λ p. p.1) bytewise-WriteLaws 4 idle_stream refl always_ok

abbrev packets_sample : StreamPackets
packets_sample = record { flag_syn = 1; flag_rst = 16; rst_packet = 16 ∷ 0 ∷ [] }

abbrev start_sample : bytewise.Protocol
start_sample = ([], [])

abbrev slot_sample : StreamSlot bytewise start_sample
slot_sample = record {
  stream = stream_sample;
  stream_id = 2;
  active = true;
  has_dtls = true;
  connection_ref = 1;
  conn = some 1;
}

abbrev ended_slot : StreamSlot bytewise start_sample
ended_slot = record slot_sample { stream_id = 0; active = false; has_dtls = false }

abbrev empty_slot : StreamSlot bytewise start_sample
empty_slot = record {
  stream = idle_stream;
  stream_id = 0;
  active = false;
  has_dtls = false;
  connection_ref = 0;
  conn = none;
}

abbrev manager_sample : Manager bytewise start_sample
manager_sample = record {
  slots = slot_sample ∷ replicate 9 empty_slot;
  rst_buf = false;
  max_segments = 3;
  allocated_segments = 1;
}

handle_packet_lem_run :
    handle_packet bytewise start_sample packets_sample true 1 1
      (at_stream ∷ (var_uint_write_forward [] 70 ++ (4 ∷ 9 ∷ [])))
      manager_sample
    ≡ some (
        packet_of_stream bytewise start_sample packets_sample true 70 1 1 4
          (4 ∷ 9 ∷ [])
          manager_sample)
unfolding var_uint_write_forward
handle_packet_lem_run =
    handle_packet_lem bytewise start_sample packets_sample true 1 1 70 4 (9 ∷ []) manager_sample
      (ground arith) (ground arith)

flags_behind_run :
    handle_packet bytewise start_sample packets_sample true 1 1
      (at_stream ∷ var_uint_write_forward [] 20000)
      manager_sample
    ≡ none
flags_behind_run =
    flags_behind bytewise start_sample packets_sample true 1 1 20000 manager_sample (ground arith)
      (ground arith)

no_stream : find_stream bytewise start_sample 4 1 manager_sample.slots ≡ none
unfolding find_stream same_conn
no_stream = refl

packet_of_stream-rst_example :
    (bytes : List ℕ) × (packet_of_stream bytewise start_sample packets_sample true 4 1 1 8
        (8 ∷ [])
        manager_sample
      ≡ (record manager_sample { rst_buf = true }, send_rst_to 1 (at_stream ∷ bytes) ∷ []))
    × (var_uint_read bytes (length bytes)
        ≡ some (record { ok = true; val = 4; len = encoded_size 4 }))
    × (drop (encoded_size 4) bytes ≡ packets_sample.rst_packet)
packet_of_stream-rst_example =
    packet_of_stream-rst bytewise start_sample packets_sample 4 1 1 8 (8 ∷ []) manager_sample
      (ground arith) no_stream (λ e. ground arith) (λ e. ground arith) refl

stale_callback_run :
    (rest : List Done) × ((slot_destroy bytewise start_sample slot_sample).1
      ≡ done aborted 3 ∷ rest)
    × (async_accept bytewise 9
          (slot_init bytewise start_sample 4 1 1
            (slot_destroy bytewise start_sample slot_sample).0).stream
        ≡ (
          operation_in_progress,
          (slot_init bytewise start_sample 4 1 1
              (slot_destroy bytewise start_sample slot_sample).0).stream,
        ))
    × ((application_event bytewise app_opened
          (slot_init bytewise start_sample 4 1 1
            (slot_destroy bytewise start_sample slot_sample).0).stream).1
        ≡ done ec_ok 3 ∷ [])
stale_callback_run = stale_callback bytewise start_sample slot_sample 3 9 4 1 1 refl refl

destroyed_slots :
    (record manager_sample { slots = ended_slot ∷ replicate 9 empty_slot }).slots
    ≡ [] ++ ((slot_destroy bytewise start_sample slot_sample).0 ∷ replicate 9 empty_slot)
unfolding slot_destroy
destroyed_slots = refl

none_before : find_stream bytewise start_sample 0 1 [] ≡ none
unfolding find_stream
none_before = refl

destroyed_stream_found_example :
    (packet_of_stream bytewise start_sample packets_sample true 0 1 1 1
        (1 ∷ [])
        (record manager_sample { slots = ended_slot ∷ replicate 9 empty_slot })
      ≡ (
        record manager_sample { slots = ended_slot ∷ replicate 9 empty_slot },
        packet_to 0 (1 ∷ []) ∷ [],
      ))
    × ((slot_destroy bytewise start_sample slot_sample).0.active ≡ false)
destroyed_stream_found_example =
    destroyed_stream_found bytewise start_sample packets_sample true 1 1 1 (1 ∷ []) slot_sample []
      (replicate 9 empty_slot)
      (record manager_sample { slots = ended_slot ∷ replicate 9 empty_slot }) refl refl none_before
      destroyed_slots

unique_sample : UniqueStreams bytewise start_sample manager_sample
unfolding UniqueStreams count_active same_conn
unique_sample = λ id conn. ground arith

abbrev opened_sample : Manager bytewise start_sample
opened_sample =
    (packet_of_stream bytewise start_sample packets_sample true 4 1 1 1 (1 ∷ []) manager_sample).0

ManagerStep-UniqueStreams_example :
    UniqueStreams bytewise start_sample opened_sample
    × ((count_active bytewise start_sample 4 1 opened_sample.slots
          ≤ count_active bytewise start_sample 4 1 manager_sample.slots)
        ⊎ (count_any bytewise start_sample 4 1 manager_sample.slots ≡ 0))
ManagerStep-UniqueStreams_example =
    ManagerStep-UniqueStreams bytewise start_sample manager_sample opened_sample 4 1 unique_sample
      (step_packet packets_sample true 4 1 1 1 (1 ∷ []))
