-- ===== src/Connections.antt =====
-- src/core/nc_client_connection.c: one connection with a client. Its state, the packets that come in
-- and go out, and the change of its channel. The DTLS server, the socket, the stream manager, the CoAP
-- server, the rendezvous module and the listeners are called: a call is an element of the list that a
-- function returns with the new connection. `none` in place of a result is a read behind a packet.
pub mod Dispatch
pub mod Sessions
pub mod Channels
mod Tests
use nabto_embedded_sdk.Base.{
  ℕ, zero, suc, ◌+◌, Bool, true, false, not, ◌&&◌, ◌||◌, Option, none, some, List, [], ◌∷◌, ◌++◌,
  length, take, drop, set, get_elem?, ltb, leb, ◌==◌, if◌then◌else◌, ◌>>=◌,
}
use nabto_embedded_sdk.KeepAlive.{
  KeepAlive, QueueCall, Action, do_nothing, send_ka, ka_timeout, wait, should_send, create_request,
  handle_request, at_keep_alive, ct_keep_alive_request,
}
use nabto_embedded_sdk.Attacher.{Endpoint, ErrorCode, ec_ok, operation_in_progress}

-- The sockets of the device.
pub data Socket : Type 0 where
  udp secondary_udp local_udp : Socket

eq_socket : Socket → Socket → Bool
eq_socket udp udp = true
eq_socket secondary_udp secondary_udp = true
eq_socket local_udp local_udp = true
eq_socket _ _ = false

-- `struct nc_connection_channel`
pub record Channel : Type 0 where
  pub sock : Socket
  pub ep : Endpoint
  pub channel_id : ℕ

pub data ConnectionEvent : Type 0 where
  connection_opened connection_closed channel_changed : ConnectionEvent

pub data Call : Type 0 where
  notify : ℕ → ConnectionEvent → Call
  rendezvous_request : Endpoint → List ℕ → Call
  -- the channel and the packet without its header
  dtls_handle_packet : ℕ → List ℕ → Call
  dtls_close dtls_destroy : Call
  -- the channel and the buffer of a keep-alive packet
  dtls_send_data : ℕ → List ℕ → Call
  stream_packet coap_packet : List ℕ → Call
  coap_remove stream_remove : ℕ → Call
  keep_alive_timer : QueueCall → Call
  send_to : Socket → Endpoint → List ℕ → Call
  sent_callback : ErrorCode → Call
  all_closed : Call

-- `struct nc_client_connection` without the pointers to other components
pub record ClientConnection : Type 0 where
  pub id : List ℕ  -- 16 bytes
  pub current_channel : Channel
  pub alternative_channel : Channel
  pub current_max_sequence : ℕ  -- uint64_t
  pub sent_cb : Bool  -- whether it is set
  pub connection_ref : ℕ
  pub keep_alive : KeepAlive
  pub has_spake2_key : Bool
  pub spake2_key : List ℕ
  pub password_authenticated : Bool
  pub password_authentication_requests : ℕ

abbrev pub Run : Type 0
Run = ClientConnection × List Call

abbrev pub default_channel_id : ℕ
default_channel_id = 255

-- The 14 bytes in the middle of an id, behind the protocol prefix and before the channel.
abbrev pub key_of : List ℕ → List ℕ
key_of id = take 14 (drop 1 id)

abbrev pub prefix_rendezvous : ℕ
prefix_rendezvous = 241

abbrev pub ct_rendezvous_client_request : ℕ
ct_rendezvous_client_request = 1

-- Whether the packet is a client's rendezvous request, with its prefix and its content type.
unfoldable pub is_rendezvous : List ℕ → Bool
is_rendezvous buffer = elim (get_elem? buffer 0) [
  | none ↦ false
  | some prefix ↦ elim (get_elem? buffer 16) [
    | none ↦ false
    | some content_type ↦
        prefix == prefix_rendezvous && content_type == ct_rendezvous_client_request
  ]
]

-- The channel of a packet becomes the alternative one, or its address that of the current one.
pub note_channel : ℕ → Socket → Endpoint → ClientConnection → ClientConnection
note_channel channel sock ep c =
    if not (channel == c.current_channel.channel_id)
    then record c { alternative_channel = record { sock = sock; ep = ep; channel_id = channel } }
    else record c { current_channel = record (c.current_channel) { ep = ep; sock = sock } }

-- nc_client_connection_handle_packet; a packet shorter than the header makes the size of the copy
-- negative, a fault
unfoldable pub handle_packet : Socket → Endpoint → List ℕ → ClientConnection → Option Run
unfolding is_rendezvous note_channel
handle_packet sock ep buffer c =
    if is_rendezvous buffer
    then some (c, rendezvous_request ep (key_of c.id) ∷ [])
    else if ltb (length buffer) 16
    then none
    else (get_elem? buffer 15 >>= λ channel.
        some (note_channel channel sock ep c, dtls_handle_packet channel (drop 16 buffer) ∷ []))

abbrev pub at_stream : ℕ
at_stream = 5

abbrev pub at_coap_start : ℕ
at_coap_start = 64

abbrev pub at_coap_end : ℕ
at_coap_end = 127

-- The part of nc_client_connection_handle_data that looks at the sequence number.
pub follow_client : ℕ → ℕ → ℕ → ClientConnection → Run
follow_client application_type channel sequence c =
    if not (application_type == at_keep_alive) && ltb c.current_max_sequence sequence
    then (if not (c.current_channel.channel_id == channel)
          && (c.alternative_channel.channel_id == channel)
        then (
          record c { current_max_sequence = sequence; current_channel = c.alternative_channel },
          notify c.connection_ref channel_changed ∷ [],
        )
        else (record c { current_max_sequence = sequence }, []))
    else (c, [])

-- nc_client_connection_handle_keep_alive with nc_client_connection_keep_alive_send_response
handle_keep_alive : ℕ → List ℕ → ClientConnection → Run
handle_keep_alive channel [] c = (c, [])
handle_keep_alive channel (t ∷ []) c = (c, [])
handle_keep_alive channel (t ∷ content_type ∷ rest) c =
    let buffer = t ∷ content_type ∷ rest in
    let (ka, answered) = handle_request c.keep_alive buffer (length buffer) in
    if content_type == ct_keep_alive_request
    then (
      record c { keep_alive = ka },
      if answered then dtls_send_data channel ka.send_buffer ∷ [] else [],
    )
    else (c, [])

-- The part behind it, which passes the data on.
pass_on : ℕ → ℕ → List ℕ → ClientConnection → Run
unfolding handle_keep_alive
pass_on application_type channel buffer c =
    if application_type == at_stream
    then (c, stream_packet buffer ∷ [])
    else if leb at_coap_start application_type && leb application_type at_coap_end
    then (c, coap_packet buffer ∷ [])
    else if application_type == at_keep_alive
    then handle_keep_alive channel buffer c
    else (c, [])

-- nc_client_connection_handle_data; an empty buffer is read behind its end
pub handle_data : ℕ → ℕ → List ℕ → ClientConnection → Option Run
unfolding follow_client pass_on
handle_data channel sequence [] c = none
handle_data channel sequence (application_type ∷ rest) c =
    let (c', calls) = follow_client application_type channel sequence c in
    let (c'', more) = pass_on application_type channel (application_type ∷ rest) c' in
    some (c'', calls ++ more)

-- nc_client_connection_keep_alive_event with nc_client_connection_keep_alive_send_req
pub keep_alive_event : ℕ → ℕ → ClientConnection → Run
keep_alive_event recv_count sent_count c =
    let (ka, action) = should_send c.keep_alive recv_count sent_count in
    by_action action (record c { keep_alive = ka })
  where
    by_action : Action → ClientConnection → Run
    by_action do_nothing b = (b, keep_alive_timer (wait b.keep_alive).1 ∷ [])
    by_action send_ka b =
        let ka = create_request b.keep_alive in
        (
          record b { keep_alive = ka },
          dtls_send_data b.current_channel.channel_id ka.send_buffer
              ∷ keep_alive_timer (wait ka).1
              ∷ [],
        )
    by_action ka_timeout b = (b, dtls_close ∷ [])

-- The header of a packet that goes out, with the channel in its last byte, before the packet.
with_header : ClientConnection → ℕ → List ℕ → List ℕ
with_header c channel buffer = take 15 c.id ++ (channel ∷ buffer)

-- nc_client_connection_async_send_to_udp
pub async_send_to_udp : ℕ → List ℕ → ClientConnection → ErrorCode × Run
unfolding with_header
async_send_to_udp channel buffer c = if c.sent_cb then (operation_in_progress, (c, [])) else (
  ec_ok,
  (
    record c { sent_cb = true },
    if channel == c.current_channel.channel_id || channel == default_channel_id
        then send_to c.current_channel.sock c.current_channel.ep
            (with_header c c.current_channel.channel_id buffer)
          ∷ []
        else if channel == c.alternative_channel.channel_id
        then send_to c.alternative_channel.sock c.alternative_channel.ep
            (with_header c c.alternative_channel.channel_id buffer)
          ∷ []
        else [],
  ),
)

-- nc_client_connection_send_to_udp_cb, the completion of a send
pub send_to_udp_cb : ErrorCode → ClientConnection → Run
send_to_udp_cb ec c =
    if not c.sent_cb then (c, []) else (record c { sent_cb = false }, sent_callback ec ∷ [])

-- nc_client_connection_is_local
pub is_local : ClientConnection → Bool
unfolding eq_socket
is_local c = eq_socket c.current_channel.sock local_udp
