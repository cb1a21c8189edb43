-- ===== src/Streams/Manager.antt =====
-- src/core/nc_stream_manager.c, with nc_stream_init and nc_stream_destroy of src/core/nc_stream.c: the ten
-- slots for streams, the listeners, and the memory for segments. A connection is the number of its
-- object. Calls are elements of the list that a function returns with the new manager. `none` in place
-- of a result is a read behind a packet.
pub mod Packets
pub mod Slots
use nabto_embedded_sdk.Base.{
  ℕ, zero, suc, ◌+◌, ◌-◌, ◌%◌, ◌^◌, Bool, true, false, not, ◌&&◌, ◌||◌, Option, none, some, List,
  [], ◌∷◌, ◌++◌, any, length, drop, get_elem?, bit_and, ltb, leb, ◌==◌, replicate, if◌then◌else◌,
  ◌>>=◌,
}
use nabto_embedded_sdk.Packet.{VarUint, var_uint_read, var_uint_write_forward}
use nabto_embedded_sdk.Attacher.{ErrorCode, ec_ok, operation_in_progress, aborted, unknown}
use nabto_embedded_sdk.Connections.{at_stream}
use nabto_embedded_sdk.Streams.{StreamLib, Done, done, read_done, call_with, Stream}

-- Constants of the protocol, and the packet that resets a stream.
pub record StreamPackets : Type 0 where
  pub flag_syn : ℕ
  pub flag_rst : ℕ
  pub rst_packet : List ℕ

pub data ManagerCall : Type 0 where
  packet_to : ℕ → List ℕ → ManagerCall
  connection_died : ℕ → ManagerCall
  send_rst_to : ℕ → List ℕ → ManagerCall
  listener_called : ErrorCode → Option ℕ → ℕ → ManagerCall
  release_slot : ℕ → ManagerCall

-- `struct nc_stream_listener`
pub record Listener : Type 0 where
  pub type_of : ℕ  -- uint32_t
  pub cb : ℕ

abbrev max_streams : ℕ
max_streams = 10

unfoldable pub same_conn : ℕ → Option ℕ → Bool
same_conn conn none = false
same_conn conn (some other) = conn == other

port_in_use : ℕ → List Listener → Bool
port_in_use port listeners = any (λ l. l.type_of == port) listeners

-- nc_stream_manager_get_ephemeral_stream_port, with the numbers that `rand` gives
get_ephemeral_stream_port : List ℕ → List Listener → Option ℕ
unfolding port_in_use
get_ephemeral_stream_port [] listeners = none
get_ephemeral_stream_port (r ∷ rs) listeners =
    let rest = get_ephemeral_stream_port rs listeners in
    let port = 2 ^ 31 + r % 2 ^ 31 in if not (port_in_use port listeners) then some port else rest

-- nc_stream_manager_add_listener
add_listener : List ℕ → ℕ → ℕ → List Listener → ErrorCode × List Listener
unfolding port_in_use get_ephemeral_stream_port
add_listener rands port cb listeners =
    elim (if port == 0 then get_ephemeral_stream_port rands listeners else some port) [
      | none ↦ (unknown, listeners)
      | some p ↦
          if port_in_use p listeners
          then (operation_in_progress, listeners)
          else (ec_ok, listeners ++ ((record { type_of = p; cb = cb }) ∷ []))
    ]

-- The loop of nc_stream_manager_ready_for_accept.
ready_for_accept : ℕ → ℕ → List Listener → List ManagerCall
ready_for_accept i content_type [] = release_slot i ∷ []
ready_for_accept i content_type (l ∷ ls) =
    let rest = ready_for_accept i content_type ls in
    if l.type_of == content_type then listener_called ec_ok (some i) l.cb ∷ [] else rest

-- nc_stream_manager_deinit
manager_deinit : List Listener → List ManagerCall
manager_deinit [] = []
manager_deinit (l ∷ ls) = listener_called aborted none l.cb ∷ manager_deinit ls

module _ (sl : StreamLib) (start : sl.Protocol) where
  -- A stream in its slot, with the connection of `streamConns`.
  pub record StreamSlot : Type 0 where
    pub stream : Stream sl
    pub stream_id : ℕ  -- uint64_t
    pub active : Bool
    pub has_dtls : Bool
    pub connection_ref : ℕ
    pub conn : Option ℕ

  -- `struct nc_stream_manager_context` without the listeners
  pub record Manager : Type 0 where
    pub slots : List StreamSlot
    pub rst_buf : Bool  -- whether a reset is being sent
    pub max_segments : ℕ
    pub allocated_segments : ℕ

  -- The slot's part of nc_stream_init; the callbacks of the stream stay as they are.
  pub slot_init : ℕ → ℕ → ℕ → StreamSlot → StreamSlot
  slot_init id conn ref s = record s {
    stream = record (s.stream) { protocol = start };
    stream_id = id;
    active = true;
    has_dtls = true;
    connection_ref = ref;
    conn = some conn;
  }

  -- nc_stream_destroy
  unfoldable pub slot_destroy : StreamSlot → StreamSlot × List Done
  slot_destroy s = if not s.active then (s, []) else (
    record s { active = false; has_dtls = false; stream_id = 0 },
    call_with aborted s.stream.accept_cb
        ++ (call_with aborted s.stream.read_all_cb
            ++ (call_with aborted s.stream.read_some_cb
                ++ (call_with aborted s.stream.write_cb ++ call_with aborted s.stream.close_cb))),
  )

  -- nc_stream_manager_find_stream: the place of the slot
  unfoldable pub find_stream : ℕ → ℕ → List StreamSlot → Option ℕ
  unfolding same_conn
  find_stream id conn [] = none
  find_stream id conn (s ∷ slots) =
      let rest = find_stream id conn slots in
      if s.stream_id == id && same_conn conn s.conn
      then some 0
      else elim rest [ none ↦ none | some i ↦ some (suc i) ]

  -- The loop of nc_stream_manager_accept_stream; `ok`: whether the events of the stream can be made.
  pub take_stream : Bool → ℕ → ℕ → ℕ → List StreamSlot → Option (ℕ × List StreamSlot)
  unfolding slot_init
  take_stream ok id conn ref [] = none
  take_stream ok id conn ref (s ∷ slots) =
      let rest = take_stream ok id conn ref slots in
      if not s.active
      then (if ok then some (0, slot_init id conn ref s ∷ slots) else none)
      else elim rest [ none ↦ none | some (i, later) ↦ some (suc i, s ∷ later) ]

  pub accept_stream : Bool → ℕ → ℕ → ℕ → Manager → Option (ℕ × Manager)
  unfolding take_stream
  accept_stream ok id conn ref m =
      if id % 2 == 1
      then none
      else (take_stream ok id conn ref m.slots >>= λ (i, slots).
          some (i, record m { slots = slots }))

  -- nc_stream_manager_send_rst; `ok`: whether there is a buffer
  pub send_rst : StreamPackets → Bool → ℕ → ℕ → Manager → Manager × List ManagerCall
  send_rst sp ok id conn m = if m.rst_buf then (m, []) else if not ok then (m, []) else (
    record m { rst_buf = true },
    send_rst_to conn (var_uint_write_forward (at_stream ∷ []) id ++ sp.rst_packet) ∷ [],
  )

  pub send_rst_callback : Manager → Manager
  send_rst_callback m = record m { rst_buf = false }

  -- The part of nc_stream_manager_handle_packet behind the id, with the packet from its flags on.
  pub packet_of_stream :
      StreamPackets → Bool → ℕ → ℕ → ℕ → ℕ → List ℕ → Manager → Manager × List ManagerCall
  unfolding find_stream accept_stream send_rst
  packet_of_stream sp ok id conn ref flags packet m = elim (find_stream id conn m.slots) [
    | some i ↦ (m, packet_to i packet ∷ [])
    | none ↦ elim (if flags == sp.flag_syn then accept_stream ok id conn ref m else none) [
      | some (i, m') ↦ (m', packet_to i packet ∷ [])
      | none ↦
          if bit_and flags sp.flag_rst == sp.flag_rst then (m, []) else send_rst sp ok id conn m
    ]
  ]

  unfoldable pub handle_packet :
      StreamPackets → Bool → ℕ → ℕ → List ℕ → Manager → Option (Manager × List ManagerCall)
  unfolding packet_of_stream
  handle_packet sp ok conn ref buffer m =
      if ltb (length buffer) 4
      then some (m, [])
      else (var_uint_read (drop 1 buffer) (length buffer - 1) >>= λ v.
          if not v.ok
          then some (m, [])
          else (get_elem? buffer (1 + v.len) >>= λ flags.
              some (packet_of_stream sp ok v.val conn ref flags (drop (1 + v.len) buffer) m)))

  -- The loop of nc_stream_manager_remove_connection, from the slot at place `i` on.
  pub remove_from : ℕ → ℕ → List StreamSlot → List StreamSlot × List ManagerCall
  unfolding same_conn
  remove_from conn i [] = ([], [])
  remove_from conn i (s ∷ slots) =
      let (later, calls) = remove_from conn (suc i) slots in
      if same_conn conn s.conn
      then ((record s { conn = none; has_dtls = false }) ∷ later, connection_died i ∷ calls)
      else (s ∷ later, calls)

  pub remove_connection : ℕ → Manager → Manager × List ManagerCall
  unfolding remove_from
  remove_connection conn m =
      let (slots, calls) = remove_from conn 0 m.slots in (record m { slots = slots }, calls)

  -- The two functions that give a segment to the protocol; `ok`: whether there is memory.
  pub alloc_segment : Bool → Manager → Bool × Manager
  alloc_segment ok m =
      if leb m.max_segments m.allocated_segments
      then (false, m)
      else if not ok
      then (false, m)
      else (true, record m { allocated_segments = (m.allocated_segments + 1) % 2 ^ 64 })

  -- The two functions that take one back.
  pub free_segment : Manager → Manager
  free_segment m = record m { allocated_segments = (m.allocated_segments + 2 ^ 64 - 1) % 2 ^ 64 }

  set_max_segments : ℕ → Manager → Manager
  set_max_segments max m = record m { max_segments = max }
