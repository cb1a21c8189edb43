-- ===== src/Connections/Dispatch.antt =====
-- src/core/nc_client_connection_dispatch.c: the ten slots for connections with clients, and opening and
-- closing them (nc_client_connection.c). A slot that is not active is `none`: what it holds is written
-- over when it becomes active. What the platform answers while a connection is opened is a record.
use nabto_embedded_sdk.Base.{
  ℕ, zero, suc, ◌+◌, ◌%◌, ◌^◌, Bool, true, false, not, ◌&&◌, Option, none, some, List, [], ◌∷◌,
  ◌++◌, length, take, drop, get_elem?, replicate, ltb, ◌==◌, str_eq, any, if◌then◌else◌, ◌>>=◌,
}
use nabto_embedded_sdk.KeepAlive.{init}
use nabto_embedded_sdk.Attacher.{Endpoint, ErrorCode, ec_ok, unknown}
use nabto_embedded_sdk.Connections.{
  wait, Socket, Channel, connection_opened, connection_closed, Call, notify, dtls_handle_packet,
  dtls_close, dtls_destroy, coap_remove, stream_remove, keep_alive_timer, all_closed,
  ClientConnection, key_of, handle_packet,
}

abbrev pub max_client_connections : ℕ
max_client_connections = 10

abbrev pub Slot : Type 0
Slot = Option ClientConnection

-- `struct nc_client_connection_dispatch_context`, with the counter of references of the device
pub record Dispatch : Type 0 where
  pub elms : List Slot
  pub close_cb : Bool  -- whether it is set
  pub closing : Bool
  pub connection_ref : ℕ  -- uint64_t

unfoldable pub dispatch_init : ℕ → Dispatch
dispatch_init ref = record {
  elms = replicate max_client_connections none;
  close_cb = false;
  closing = false;
  connection_ref = ref;
}

-- nc_device_next_connection_ref: the next reference, unless the counter wraps around
next_connection_ref : ℕ → ErrorCode × ℕ
next_connection_ref prev =
    let next = (prev + 1) % 2 ^ 64 in if ltb next prev then (unknown, next) else (ec_ok, next)

-- The codes of the four calls that open a connection.
pub record Opening : Type 0 where
  pub keep_alive_ec : ErrorCode
  pub completion_ec : ErrorCode
  pub dtls_ec : ErrorCode
  pub packet_ec : ErrorCode

unfoldable pub is_ok : ErrorCode → Bool
is_ok ec_ok = true
is_ok _ = false

-- The connection that is built from a packet.
unfoldable pub new_connection : Socket → Endpoint → List ℕ → ℕ → ℕ → ClientConnection
new_connection sock ep buffer channel ref =
    let here : Channel = record { sock = sock; ep = ep; channel_id = channel } in
    record {
      id = take 16 buffer;
      current_channel = here;
      alternative_channel = here;
      current_max_sequence = 0;
      sent_cb = false;
      connection_ref = ref;
      keep_alive =
          (init (record {
            ka_interval = 0;
            ka_retry_interval = 0;
            ka_max_retries = 0;
            last_recv_count = 0;
            last_sent_count = 0;
            lost_keep_alives = 0;
            n = 0;
            is_sending = false;
            send_buffer = replicate 18 0;
          })).0;
      has_spake2_key = false;
      spake2_key = replicate 32 0;
      password_authenticated = false;
      password_authentication_requests = 0;
    }

-- nc_client_connection_open: the connection if it is opened, the new counter, and the calls
unfoldable pub open_connection :
    Opening → Socket → Endpoint → List ℕ → ℕ → Option (Slot × ℕ × List Call)
unfolding next_connection_ref is_ok new_connection
open_connection opening sock ep buffer prev = get_elem? buffer 15 >>= λ channel.
    let (ref_ec, ref) = next_connection_ref prev in
    if not (
      is_ok ref_ec
      && (is_ok opening.keep_alive_ec && (is_ok opening.completion_ec && is_ok opening.dtls_ec)))
    then some (none, ref, [])
    else some (
      (if is_ok opening.packet_ec then some (new_connection sock ep buffer channel ref) else none),
      ref,
      dtls_handle_packet channel (drop 16 buffer) ∷ [],
    )

-- Whether a slot is active with the key of a packet.
unfoldable pub has_key : List ℕ → Slot → Bool
has_key key none = false
has_key key (some c) = str_eq key (key_of c.id)

-- The loop over the slots that looks for the connection of a packet: `none` if there is none, or the
-- slots behind and the calls. The inner `none` is a fault.
unfoldable pub deliver :
    Socket → Endpoint → List ℕ → List Slot → Option (Option (List Slot × List Call))
unfolding has_key
deliver sock ep buffer [] = none
deliver sock ep buffer (none ∷ slots) = elim (deliver sock ep buffer slots) [
  | none ↦ none
  | some later ↦ some (later >>= λ (slots', calls). some (none ∷ slots', calls))
]
deliver sock ep buffer (some c ∷ slots) =
    let rest = deliver sock ep buffer slots in
    if has_key (key_of buffer) (some c)
    then some (handle_packet sock ep buffer c >>= λ (c', calls). some (some c' ∷ slots, calls))
    else elim rest [
      | none ↦ none
      | some later ↦ some (later >>= λ (slots', calls). some (some c ∷ slots', calls))
    ]

-- The loop that takes the first slot that is not active; it stays as it is if opening fails.
unfoldable pub take_slot : Slot → List Slot → List Slot
take_slot opened [] = []
take_slot opened (none ∷ slots) = opened ∷ slots
take_slot opened (some c ∷ slots) = some c ∷ take_slot opened slots

unfoldable pub is_active : Slot → Bool
is_active none = false
is_active (some c) = true

unfoldable pub has_room : List Slot → Bool
unfolding is_active
has_room slots = any (λ s. not (is_active s)) slots

abbrev pub dtls_handshake : ℕ
dtls_handshake = 22

-- The part for a packet that belongs to no connection.
unfoldable pub open_new :
    Opening → Socket → Endpoint → List ℕ → Dispatch → Option (Dispatch × List Call)
unfolding open_connection take_slot has_room
open_new opening sock ep buffer d = get_elem? buffer 16 >>= λ content_type.
    if content_type == dtls_handshake && has_room d.elms
    then (open_connection opening sock ep buffer d.connection_ref >>= λ (opened, ref, calls).
        some (record d { elms = take_slot opened d.elms; connection_ref = ref }, calls))
    else some (d, [])

-- nc_client_connection_dispatch_handle_packet; the comparison reads a packet shorter than its header
-- behind its end
unfoldable pub dispatch_packet :
    Opening → Socket → Endpoint → List ℕ → Dispatch → Option (Dispatch × List Call)
unfolding deliver open_new
dispatch_packet opening sock ep buffer d =
    if ltb (length buffer) 16 then none else elim (deliver sock ep buffer d.elms) [
      | none ↦ open_new opening sock ep buffer d
      | some delivered ↦ delivered >>= λ (slots, calls). some (record d { elms = slots }, calls)
    ]

-- nc_client_connection_dispatch_try_close
unfoldable pub try_close : Dispatch → List Call
unfolding is_active
try_close d = if not (any is_active d.elms) && d.close_cb then all_closed ∷ [] else []

-- The slot at an index becomes inactive.
unfoldable pub clear_slot : ℕ → List Slot → List Slot
clear_slot i [] = []
clear_slot zero (s ∷ slots) = none ∷ slots
clear_slot (suc i) (s ∷ slots) = s ∷ clear_slot i slots

-- nc_client_connection_dispatch_close_connection for the connection in a slot
unfoldable pub dispatch_close_connection : ℕ → Dispatch → Dispatch × List Call
unfolding try_close clear_slot
dispatch_close_connection i d =
    let d' = record d { elms = clear_slot i d.elms } in
    (d', if d'.closing then try_close d' else [])

-- nc_client_connection_destroy_connection for the connection in a slot
unfoldable pub destroy_connection : ℕ → ClientConnection → Dispatch → Dispatch × List Call
unfolding dispatch_close_connection
destroy_connection i c d =
    let (d', calls) = dispatch_close_connection i d in
    (
      d',
      notify c.connection_ref connection_closed
          ∷ coap_remove c.connection_ref
          ∷ stream_remove c.connection_ref
          ∷ (calls ++ (dtls_destroy ∷ [])),
    )

-- nc_client_connection_dispatch_async_close: false if there is nothing to close. A connection is closed
-- by a call of the DTLS server, and destroyed when that answers.
unfoldable pub dispatch_async_close : Dispatch → Bool × Dispatch × List Call
unfolding is_active
dispatch_async_close d = (
  any is_active d.elms,
  record d { closing = true; close_cb = if any is_active d.elms then true else d.close_cb },
  closes d.elms,
)
  where
    closes : List Slot → List Call
    closes [] = []
    closes (none ∷ slots) = closes slots
    closes (some c ∷ slots) = dtls_close ∷ closes slots

-- nc_client_connection_dispatch_connection_from_ref
connection_from_ref : ℕ → List Slot → Slot
connection_from_ref ref [] = none
connection_from_ref ref (none ∷ slots) = connection_from_ref ref slots
connection_from_ref ref (some c ∷ slots) =
    let rest = connection_from_ref ref slots in if c.connection_ref == ref then some c else rest

-- What the DTLS server reports of a connection.
pub data ServerEvent : Type 0 where
  server_closed server_handshake_complete : ServerEvent

-- nc_client_connection_handle_event with nc_client_connection_keep_alive_start, for the connection in a
-- slot; `has_alpn`: whether a protocol was negotiated
handle_event : ServerEvent → Bool → ℕ → ClientConnection → Dispatch → Dispatch × List Call
unfolding destroy_connection
handle_event server_closed has_alpn i c d = destroy_connection i c d
handle_event server_handshake_complete has_alpn i c d =
    if not has_alpn then (d, dtls_close ∷ []) else (
      d,
      keep_alive_timer (wait c.keep_alive).1 ∷ notify c.connection_ref connection_opened ∷ [],
    )
