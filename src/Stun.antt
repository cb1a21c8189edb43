-- ===== src/Stun.antt =====
-- src/core/nc_stun.c: the analysis of the network of the device with a STUN server. Up to ten callers
-- wait for the result of one analysis. The STUN client itself is a library of another project, the
-- record `StunClient`. The sockets, the resolver, the event queue and the callbacks are called: a call
-- is an element of the list that a function returns with the new context. A callback that is called
-- does not call this module, as the one in src/core/nc_stun_coap.c does not.
pub mod Endpoints
pub mod Callbacks
pub mod Idle
pub mod Failure
pub mod Responses
mod Tests
use nabto_embedded_sdk.Base.{
  ℕ, zero, suc, ◌+◌, Bool, true, false, not, Option, none, some, List, [], ◌∷◌, ◌++◌, CString, take,
  map, any, if◌then◌else◌,
}
use nabto_embedded_sdk.Attacher.{
  Ip, Endpoint, ErrorCode, ec_ok, aborted, invalid_state, unknown, udp_socket_error,
  no_valid_endpoints,
}
use nabto_embedded_sdk.Connections.Dispatch.{is_ok}
use nabto_embedded_sdk.Connections.{Socket, udp, secondary_udp}

-- `enum nabto_stun_next_event_type`
pub data StunEvent : Type 0 where
  et_send_primary et_send_secondary et_wait et_no_event et_completed et_failed : StunEvent

-- The STUN client: what is asked of it, and its state.
pub record StunClient : Type 1 where
  pub Client : Type 0
  pub stun_init : List Endpoint → Client
  pub stun_analyze : Bool → Client → Client
  pub next_event : Client → StunEvent × Client
  pub data_endpoint : Client → Option Endpoint
  pub send_data : Client → List ℕ × Client
  pub packet_in : List ℕ → Client → Client
  pub wait_event : Client → Client
  pub timeout_ms : Client → ℕ
  pub result : Client → Endpoint  -- the address that the server sees

pub data StunState : Type 0 where
  stun_none stun_running stun_done stun_aborted : StunState

-- The last is a callback, by its number, with its code and the result.
pub data StunCall : Type 0 where
  stun_resolve : CString → StunCall
  cancel_timeout : StunCall
  post_timeout : ℕ → StunCall
  stun_send : Socket → Endpoint → List ℕ → StunCall
  analysed : ErrorCode → Option Endpoint → ℕ → StunCall

abbrev pub max_callbacks : ℕ
max_callbacks = 10

abbrev max_stun_endpoints : ℕ
max_stun_endpoints = 10

-- nc_stun_set_endpoint
set_endpoint : ℕ → Ip → Endpoint
set_endpoint port ip = record { ip = ip; port = port }

-- nc_stun_convert_ep_list into the array of endpoints
pub convert_ep_list : List Ip → ℕ → List Endpoint
unfolding set_endpoint
convert_ep_list ips port = map (set_endpoint port) (take max_stun_endpoints ips)

-- The loop that takes the first place for a callback.
pub add_callback : ℕ → List (Option ℕ) → Option (List (Option ℕ))
add_callback cb [] = none
add_callback cb (none ∷ cbs) = some (some cb ∷ cbs)
add_callback cb (some other ∷ cbs) = elim (add_callback cb cbs) [
  | none ↦ none
  | some cbs' ↦ some (some other ∷ cbs')
]

-- The loop of nc_stun_resolve_callbacks.
pub call_all : ErrorCode → Option Endpoint → List (Option ℕ) → List (Option ℕ) × List StunCall
call_all ec res [] = ([], [])
call_all ec res (cb ∷ cbs) =
    let (cbs', calls) = call_all ec res cbs in
    elim cb [ none ↦ (none ∷ cbs', calls) | some id ↦ (none ∷ cbs', analysed ec res id ∷ calls) ]

pub is_aborted : StunState → Bool
is_aborted stun_aborted = true
is_aborted _ = false

pub is_running : StunState → Bool
is_running stun_running = true
is_running _ = false

module _ (sc : StunClient) where
  -- `struct nc_stun_context`
  pub record Stun : Type 0 where
    pub pri_udp : Bool  -- whether it is set, as the next
    pub sec_udp : Bool
    pub client : sc.Client
    pub cbs : List (Option ℕ)
    pub state : StunState
    pub ec : ErrorCode
    pub res : Option Endpoint
    pub hostname : Option CString
    pub pri_port : ℕ
    pub simple : Bool

  abbrev pub StunRun : Type 0
  StunRun = Stun × List StunCall

  pub set_sockets : Stun → Stun
  set_sockets c = record c { pri_udp = true; sec_udp = true }

  pub set_host : CString → ℕ → Stun → Stun
  set_host hostname port c = record c { hostname = some hostname; pri_port = port }

  pub remove_sockets : Stun → Stun
  remove_sockets c = record c { pri_udp = false; sec_udp = false }

  -- The state that nc_stun_deinit leaves.
  stun_deinit : Stun → Stun
  stun_deinit c = record c { state = stun_aborted }

  pub async_analyze : Bool → ℕ → Stun → ErrorCode × StunRun
  unfolding is_aborted is_running add_callback
  async_analyze simple cb c = if is_aborted c.state then (aborted, (c, [])) else elim c.hostname [
    | none ↦ (invalid_state, (c, []))
    | some hostname ↦ elim (add_callback cb c.cbs) [
      | none ↦ (unknown, (c, []))
      | some cbs ↦ if is_running c.state then (ec_ok, (record c { cbs = cbs }, [])) else (
        ec_ok,
        (record c { cbs = cbs; simple = simple; state = stun_running }, stun_resolve hostname ∷ []),
      )
    ]
  ]

  pub resolve_callbacks : Stun → StunRun
  unfolding call_all
  resolve_callbacks c =
      let (cbs, calls) = call_all c.ec c.res c.cbs in (record c { cbs = cbs }, calls)

  -- The cases of a send, by whether the socket is there.
  pub send_event : Bool → Socket → Stun → StunRun
  unfolding resolve_callbacks
  send_event ready sock c =
      if not ready
      then resolve_callbacks (record c { ec = udp_socket_error })
      else elim (sc.data_endpoint c.client) [
        | none ↦ resolve_callbacks (record c { ec = no_valid_endpoints })
        | some ep ↦
            let (bytes, client) = sc.send_data c.client in
            (record c { client = client }, stun_send sock ep bytes ∷ [])
      ]

  pub by_event : StunEvent → Stun → StunRun
  unfolding send_event resolve_callbacks
  by_event et_send_primary c = send_event c.pri_udp udp c
  by_event et_send_secondary c = send_event c.sec_udp secondary_udp c
  by_event et_wait c = (c, post_timeout (sc.timeout_ms c.client) ∷ [])
  by_event et_no_event c = (c, [])
  by_event et_completed c =
      resolve_callbacks
        (record c { state = stun_done; ec = ec_ok; res = some (sc.result c.client) })
  by_event et_failed c = resolve_callbacks (record c { ec = unknown })

  -- nc_stun_event, and nc_stun_send_to_cb and nc_stun_event_deferred that call it
  pub stun_event : Stun → StunRun
  unfolding by_event
  stun_event c =
      let (event, client) = sc.next_event c.client in
      let (c', calls) = by_event event (record c { client = client }) in
      (c', cancel_timeout ∷ calls)

  pub stun_packet : List ℕ → Stun → StunRun
  unfolding is_aborted stun_event
  stun_packet buffer c =
      if is_aborted c.state
      then (c, [])
      else stun_event (record c { client = sc.packet_in buffer c.client })

  pub dns_cb : ErrorCode → List Ip → Stun → StunRun
  unfolding is_aborted convert_ep_list resolve_callbacks stun_event
  dns_cb ec ips c =
      if is_aborted c.state
      then resolve_callbacks (record c { ec = aborted })
      else if is_ok ec
      then (let client = sc.stun_init (convert_ep_list ips c.pri_port) in
          stun_event (record c { client = sc.stun_analyze c.simple client }))
      else resolve_callbacks (record c { state = stun_done; ec = ec })

  pub handle_timeout : Stun → StunRun
  unfolding stun_event
  handle_timeout c = stun_event (record c { client = sc.wait_event c.client })
