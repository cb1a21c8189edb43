-- ===== src/Streams.antt =====
-- src/core/nc_stream.c: reading from, writing to and closing a stream of a connection. The protocol of
-- streams is a library of another project, the record `StreamLib`; what is done in the order of its
-- events (nc_stream_event) is not modelled. A callback that is called is an element of the list that a
-- function returns with the new stream; it does not call the stream before that function returns.
pub mod Io
pub mod Reads
pub mod Writes
pub mod Manager
mod Tests
use nabto_embedded_sdk.Base.{
  ℕ, zero, suc, ◌+◌, ◌-◌, Bool, true, false, not, ◌&&◌, ◌||◌, Option, none, some, List, [], ◌∷◌,
  ◌++◌, length, drop, ltb, ◌==◌, if◌then◌else◌,
}
use nabto_embedded_sdk.Attacher.{
  ErrorCode, ec_ok, operation_in_progress, aborted, unknown, ec_closed, ec_eof,
}

-- `nabto_stream_status`; the last stands for the statuses that are not told apart
pub data StreamStatus : Type 0 where
  status_ok status_closed status_eof status_aborted status_other : StreamStatus

-- What is asked of the protocol: bytes that have come in, at most so many, and bytes to go out, of which
-- it takes so many from the front.
pub record StreamLib : Type 1 where
  pub Protocol : Type 0
  pub read_buffer : ℕ → Protocol → StreamStatus × List ℕ × Protocol
  pub write_buffer : List ℕ → Protocol → StreamStatus × ℕ × Protocol
  pub protocol_close : Protocol → StreamStatus × Protocol
  pub protocol_accept : Protocol → Protocol
  pub protocol_release : Protocol → Protocol

-- A callback by its number, with its code; for a read also the bytes that the buffer of the caller holds.
pub data Done : Type 0 where
  done : ErrorCode → ℕ → Done
  read_done : ErrorCode → ℕ → List ℕ → Done

pub status_to_ec : StreamStatus → ErrorCode
status_to_ec status_ok = ec_ok
status_to_ec status_closed = ec_closed
status_to_ec status_eof = ec_eof
status_to_ec status_aborted = aborted
status_to_ec status_other = unknown

pub is_ok_status : StreamStatus → Bool
is_ok_status status_ok = true
is_ok_status _ = false

abbrev pub is_set : Option ℕ → Bool
is_set none = false
is_set (some id) = true

-- A callback that may be set is called.
abbrev pub call_with : ErrorCode → Option ℕ → List Done
call_with ec none = []
call_with ec (some id) = done ec id ∷ []

module _ (sl : StreamLib) where
  -- The part of `struct nc_stream_context` for its user. The buffer of a read is what it holds so far
  -- and how many more bytes it has room for; that of a write is what is left of it.
  pub record Stream : Type 0 where
    pub protocol : sl.Protocol
    pub accept_cb : Option ℕ
    pub read_all_cb : Option ℕ
    pub read_some_cb : Option ℕ
    pub read_data : List ℕ
    pub read_room : ℕ
    pub write_cb : Option ℕ
    pub write_data : List ℕ
    pub close_cb : Option ℕ

  abbrev pub StreamRun : Type 0
  StreamRun = Stream × List Done

  pub resolve_read : ErrorCode → Stream → StreamRun
  resolve_read ec s = elim s.read_all_cb [
    | some id ↦ (record s { read_all_cb = none; read_room = 0 }, read_done ec id s.read_data ∷ [])
    | none ↦ elim s.read_some_cb [
      | some id ↦
          (record s { read_some_cb = none; read_room = 0 }, read_done ec id s.read_data ∷ [])
      | none ↦ (record s { read_room = 0 }, [])
    ]
  ]

  -- The bytes go behind those that the buffer holds.
  pub store : List ℕ → sl.Protocol → Stream → Stream
  store bytes protocol s = record s {
    protocol = protocol;
    read_data = s.read_data ++ bytes;
    read_room = s.read_room - length bytes;
  }

  -- nc_stream_do_read, with so many rounds at most.
  pub do_read_in : ℕ → Stream → StreamRun
  unfolding resolve_read store is_ok_status status_to_ec
  do_read_in zero s = (s, [])
  do_read_in (suc n) s =
      let (status, bytes, protocol) = sl.read_buffer s.read_room s.protocol in
      let s' = store bytes protocol s in
      let again = do_read_in n s' in
      if not (is_set s.read_all_cb || is_set s.read_some_cb)
      then (s, [])
      else if not (is_ok_status status)
      then resolve_read (status_to_ec status) (record s { protocol = protocol })
      else if length bytes == 0
      then (record s { protocol = protocol }, [])
      else if not (is_set s.read_all_cb)
      then resolve_read ec_ok s'
      else if s'.read_room == 0
      then resolve_read ec_ok s'
      else again

  -- A round that goes on leaves less room.
  pub do_read : Stream → StreamRun
  unfolding do_read_in
  do_read s = do_read_in (suc s.read_room) s

  -- nc_stream_do_write_all, with so many rounds at most.
  pub do_write_in : ℕ → Stream → StreamRun
  unfolding is_ok_status status_to_ec
  do_write_in zero s = (s, [])
  do_write_in (suc n) s =
      let (status, written, protocol) = sl.write_buffer s.write_data s.protocol in
      let s' = record s { protocol = protocol } in
      let again = do_write_in n (record s' { write_data = drop written s.write_data }) in
      if not (is_ok_status status)
      then (record s' { write_cb = none }, call_with (status_to_ec status) s.write_cb)
      else if written == 0
      then (s', [])
      else if written == length s.write_data
      then (record s' { write_cb = none }, call_with ec_ok s.write_cb)
      else again

  pub do_write_all : Stream → StreamRun
  unfolding do_write_in
  do_write_all s = do_write_in (suc (length s.write_data)) s

  handle_close : Stream → StreamRun
  unfolding is_ok_status status_to_ec
  handle_close s = elim s.close_cb [
    | none ↦ (s, [])
    | some id ↦
        let (status, protocol) = sl.protocol_close s.protocol in
        let s' = record s { protocol = protocol; close_cb = none } in
        elim status [
          | status_ok ↦ (record s { protocol = protocol }, [])
          | status_closed ↦ (s', done ec_ok id ∷ [])
          | status_eof ↦ (s', done ec_eof id ∷ [])
          | status_aborted ↦ (s', done aborted id ∷ [])
          | status_other ↦ (s', done unknown id ∷ [])
        ]
  ]

  pub async_accept : ℕ → Stream → ErrorCode × Stream
  async_accept id s =
      if is_set s.accept_cb
      then (operation_in_progress, s)
      else (ec_ok, record s { accept_cb = some id; protocol = sl.protocol_accept s.protocol })

  async_read_all : ℕ → ℕ → Stream → ErrorCode × StreamRun
  unfolding do_read
  async_read_all room id s =
      if is_set s.read_all_cb || is_set s.read_some_cb
      then (operation_in_progress, (s, []))
      else (ec_ok, do_read (record s { read_all_cb = some id; read_data = []; read_room = room }))

  async_read_some : ℕ → ℕ → Stream → ErrorCode × StreamRun
  unfolding do_read
  async_read_some room id s =
      if is_set s.read_all_cb || is_set s.read_some_cb
      then (operation_in_progress, (s, []))
      else (ec_ok, do_read (record s { read_some_cb = some id; read_data = []; read_room = room }))

  pub async_write : List ℕ → ℕ → Stream → ErrorCode × StreamRun
  unfolding do_write_all
  async_write bytes id s =
      if is_set s.write_cb
      then (operation_in_progress, (s, []))
      else (ec_ok, do_write_all (record s { write_cb = some id; write_data = bytes }))

  stream_async_close : ℕ → Stream → ErrorCode × StreamRun
  unfolding handle_close
  stream_async_close id s =
      if is_set s.close_cb
      then (operation_in_progress, (s, []))
      else (ec_ok, handle_close (record s { close_cb = some id }))

  -- One part and then another.
  then_run : StreamRun → (Stream → StreamRun) → StreamRun
  then_run (s, calls) f = let (s', more) = f s in (s', calls ++ more)

  pub write_if_set : Stream → StreamRun
  unfolding do_write_all
  write_if_set s = if is_set s.write_cb then do_write_all s else (s, [])

  -- nc_stream_application_event_callback
  pub data StreamEvent : Type 0 where
    app_opened app_data_ready app_data_write app_read_closed app_write_closed app_closed :
        StreamEvent

  pub application_event : StreamEvent → Stream → StreamRun
  unfolding do_read write_if_set handle_close then_run
  application_event app_opened s = (record s { accept_cb = none }, call_with ec_ok s.accept_cb)
  application_event app_data_ready s = do_read s
  application_event app_data_write s = write_if_set s
  application_event app_read_closed s = do_read s
  application_event app_write_closed s = (record s { close_cb = none }, call_with ec_ok s.close_cb)
  application_event app_closed s =
      then_run
        (then_run
          (then_run (write_if_set s)
            (λ t. (record t { accept_cb = none }, call_with aborted t.accept_cb)))
          do_read)
        handle_close

  -- nc_stream_release, and nc_stream_abort that does the same
  release : Stream → Stream
  release s = record s { protocol = sl.protocol_release s.protocol }
