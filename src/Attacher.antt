-- ===== src/Attacher.antt =====
-- src/core/nc_attacher.c: the state of the attacher, which keeps the device attached to a
-- basestation, and how it enters a state. The resolver, DTLS, the CoAP client, the event queue and
-- the listeners are called: a call is an element of the list that a function returns with the new
-- context, in their order. What they answer later comes in as an event of its own. `none` in place of
-- a result stands for a write outside of a buffer or a division by zero.
pub mod Requests
pub mod Events
pub mod Sending
pub mod Closing
pub mod Attaching
pub mod Redirects
pub mod Endpoints
pub mod Tokens
mod Tests
use nabto_embedded_sdk.Base.{
  ℕ, zero, suc, ◌+◌, Bool, true, false, Option, none, some, List, [], ◌∷◌, ◌++◌, CString, drop,
  length, ltb, replicate, if◌then◌else◌, ◌>>=◌,
}
use nabto_embedded_sdk.Nn.{Nn}
use nabto_embedded_sdk.KeepAlive.{KeepAlive, QueueCall, stop}

pub data State : Type 0 where
  dns dtls_attach_request retry_wait access_denied_wait redirect attached closed : State

pub data ModuleState : Type 0 where
  setup running module_closed : ModuleState

pub data ErrorCode : Type 0 where
  ec_ok operation_started operation_in_progress no_operation out_of_memory invalid_state unknown
        aborted udp_socket_error no_valid_endpoints ec_closed ec_eof in_use :
      ErrorCode

-- `struct np_ip_address`: the bytes of an address
pub data Ip : Type 0 where
  ipv4 ipv6 : List ℕ → Ip

-- `struct np_udp_endpoint`
pub record Endpoint : Type 0 where
  pub ip : Ip
  pub port : ℕ

-- The callers of `nc_attacher_sct_upload`: while attaching, and when attached.
pub data SctCallback : Type 0 where
  attach_sct running_sct : SctCallback

-- The two events that the device listens to.
pub data DeviceEvent : Type 0 where
  device_attached device_detached : DeviceEvent

pub data Call : Type 0 where
  resolve set_sni : CString → Call
  dtls_connect dtls_close dtls_reset remove_connection dtls_handle_packet dtls_send_data : Call
  post_close_event cancel_close_event cancel_reattach closed_callback : Call
  post_reattach : ℕ → Call
  keep_alive_timer : QueueCall → Call
  state_listener : State → Call
  device_event : DeviceEvent → Call
  send_start send_end : Call
  send_sct : List CString → Call
  udp_send : Endpoint → List ℕ → Call
  sender_callback : Call
  coap_packet : List ℕ → Call
  set_attach_context : Call

abbrev pub max_redirect_follow : ℕ
max_redirect_follow = 5

abbrev pub max_endpoints : ℕ
max_endpoints = 4

-- The text in a buffer ends before the first zero.
pub text_of : List ℕ → CString
text_of [] = []
text_of (zero ∷ cs) = []
text_of (suc c ∷ cs) = suc c ∷ text_of cs

-- `memcpy(buffer, name, strlen(name) + 1)` into a buffer of 256 bytes
copy_name : List ℕ → CString → Option (List ℕ)
copy_name buffer name =
    if ltb (length name) 256 then some (name ++ (0 ∷ drop (suc (length name)) buffer)) else none

module _ (nn : Nn) where
  -- `struct nc_attacher_sct_context`; the callback is null if no upload is under way
  pub record SctContext : Type 0 where
    pub scts : nn.StringSet
    pub version : ℕ  -- uint64_t, as the next two
    pub synchronized_version : ℕ
    pub uploading_version : ℕ
    pub callback : Option SctCallback

  -- `struct nc_attach_context`
  pub record Attacher : Type 0 where
    pub state : State
    pub module_state : ModuleState
    pub hostname : CString
    pub default_port : ℕ
    pub current_port : ℕ  -- uint16_t
    pub dns_buffer : List ℕ  -- char dns[256]
    pub resolved_ips : List Ip
    -- endpoints[0], ..., endpoints[endpointsSize - 1] of the initial packet
    pub endpoints : List Endpoint
    pub endpoints_index : ℕ
    pub packet : List ℕ
    pub active_ep : Option Endpoint  -- none if hasActiveEp is false
    pub redirect_attempts : ℕ  -- uint8_t
    pub start_callback : Bool  -- whether it is set, as the other callbacks
    pub end_callback : Bool
    pub closed_cb : Bool
    pub has_state_listener : Bool
    pub has_listener : Bool
    pub stun_host : List ℕ
    pub stun_port : ℕ
    pub keep_alive : KeepAlive
    pub sct : SctContext
    pub retry_wait_time : ℕ  -- uint32_t, as the next one
    pub access_denied_wait_time : ℕ

  -- A new context and the calls that were made.
  abbrev pub Run : Type 0
  Run = Attacher × List Call

  sct_init : SctContext
  sct_init = record {
    scts = nn.set_init;
    version = 0;
    synchronized_version = 0;
    uploading_version = 0;
    callback = none;
  }

  -- The calls of `handle_state_change` in the current state, before the listener.
  unfoldable pub entered : Attacher → List Call
  entered a = elim a.state [
    | dns ↦ resolve (text_of a.dns_buffer) ∷ []
    | closed ↦ post_close_event ∷ []
    | redirect ↦ []
    | retry_wait ↦ post_reattach a.retry_wait_time ∷ []
    | access_denied_wait ↦ post_reattach a.access_denied_wait_time ∷ []
    | dtls_attach_request ↦ set_sni a.hostname ∷ dtls_connect ∷ []
    | attached ↦ []
  ]

  unfoldable pub handle_state_change : Attacher → Run
  handle_state_change a =
      (a, entered a ++ (if a.has_state_listener then state_listener a.state ∷ [] else []))

  -- An assignment to the state and `handle_state_change`.
  unfoldable pub enter : State → Attacher → Run
  enter s a = handle_state_change (record a { state = s })

  -- The calls of one part after those of another.
  unfoldable pub after : List Call → Run → Run
  after calls (a, more) = (a, calls ++ more)

  unfoldable pub do_close : Attacher → Run
  do_close a = elim a.module_state [
    | setup ↦ (a, post_close_event ∷ [])
    | running ↦ close_state (record a { module_state = module_closed })
    | module_closed ↦ close_state a
  ]
    where
      close_state : Attacher → Run
      close_state b = elim b.state [
        | retry_wait ↦ after (cancel_reattach ∷ []) (enter closed b)
        | access_denied_wait ↦ after (cancel_reattach ∷ []) (enter closed b)
        | closed ↦ (b, post_close_event ∷ [])
        | dtls_attach_request ↦ (b, dtls_close ∷ [])
        | attached ↦ (b, dtls_close ∷ [])
        | dns ↦ (b, [])
        | redirect ↦ (b, [])
      ]

  -- The event behind `post_close_event`.
  unfoldable pub resolve_close : Attacher → Run
  resolve_close a = (
    record a { closed_cb = false },
    cancel_reattach ∷ cancel_close_event ∷ (if a.closed_cb then closed_callback ∷ [] else []),
  )

  pub nc_attacher_start : CString → ℕ → Attacher → Option (ErrorCode × Run)
  nc_attacher_start name server_port a = elim a.module_state [
    | running ↦ some (invalid_state, (a, []))
    | module_closed ↦ some (invalid_state, (a, []))
    | setup ↦ copy_name a.dns_buffer name >>= λ buffer. some (
      ec_ok,
      after (set_attach_context ∷ []) (
          handle_state_change (record a {
            state = dns;
            module_state = running;
            hostname = name;
            default_port = server_port;
            current_port = server_port;
            dns_buffer = buffer;
          })),
    )
  ]

  unfoldable pub async_close : Attacher → Run
  async_close a = do_close (record a { closed_cb = true })

  pub nc_attacher_stop : Attacher → Run
  nc_attacher_stop a =
      let (ka, call) = stop a.keep_alive in
      after (keep_alive_timer call ∷ []) (do_close (record a { keep_alive = ka }))

  -- The event of the timer behind `post_reattach`.
  pub reattach : Attacher → Option Run
  reattach a = elim a.module_state [
    | module_closed ↦ some (enter closed a)
    | setup ↦ restart a
    | running ↦ restart a
  ]
    where
      restart : Attacher → Option Run
      restart b = copy_name b.dns_buffer b.hostname >>= λ buffer. some (
          enter dns (record b {
            dns_buffer = buffer;
            current_port = b.default_port;
            redirect_attempts = 0;
          }))
