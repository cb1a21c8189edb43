-- ===== src/Device.antt =====
-- src/core/nc_device.c with src/core/nc_udp_dispatch.c: the device starts its sockets one after the
-- other, gives every packet to the component it is for, and closes first the connections with clients,
-- then the attacher. The components are those of Attacher, Connections and Rendezvous; a callback that
-- a component makes is a call in its result, on which the device acts.
pub mod Posted
pub mod Destroys
pub mod Closing
pub mod Packets
mod Tests
use nabto_embedded_sdk.Base.{
  ℕ, zero, suc, ◌+◌, Bool, true, false, not, ◌&&◌, ◌||◌, Option, none, some, List, [], ◌∷◌, ◌++◌,
  CString, any, map, length, ltb, leb, ◌==◌, get_elem?, if◌then◌else◌, ◌>>=◌,
}
use nabto_embedded_sdk.Nn.{Nn}
use nabto_embedded_sdk.Attacher
use nabto_embedded_sdk.Attacher.{
  Attacher, Endpoint, ErrorCode, ec_ok, invalid_state, nc_attacher_start, nc_attacher_stop,
  async_close,
}
use nabto_embedded_sdk.Attacher.Closing.{is_closed_callback}
use nabto_embedded_sdk.Attacher.Events.{Input, step}
use nabto_embedded_sdk.Attacher.Sending.{handle_dtls_packet}
use nabto_embedded_sdk.Connections
use nabto_embedded_sdk.Connections.{Socket, udp, secondary_udp, local_udp, ClientConnection}
use nabto_embedded_sdk.Connections.Dispatch.{
  Dispatch, Opening, is_ok, dispatch_packet, dispatch_async_close, destroy_connection,
}
use nabto_embedded_sdk.Rendezvous.{
  Rendezvous, Sends, handle_client_request, set_udp_dispatch, remove_udp_dispatch,
}

pub data DeviceState : Type 0 where
  device_setup device_running device_stopped : DeviceState

-- Which components a socket's packets can go to: `struct nc_udp_dispatch_context` without its socket.
pub record UdpDispatch : Type 0 where
  pub cli_conn : Bool
  pub attacher : Bool
  pub stun : Bool

-- What a component asks of the world, and what the device does itself.
pub data DeviceCall : Type 0 where
  attacher_call : nabto_embedded_sdk.Attacher.Call → DeviceCall
  connection_call : nabto_embedded_sdk.Connections.Call → DeviceCall
  rendezvous_send : Endpoint → List ℕ → DeviceCall
  packet_to_stun : List ℕ → DeviceCall
  async_bind : Socket → DeviceCall
  start_recv udp_abort : Socket → DeviceCall
  stun_set_host : List ℕ → ℕ → DeviceCall
  mdns_publish stun_remove_sockets stun_set_sockets device_closed : DeviceCall

-- A packet's component by its first byte.
pub data Target : Type 0 where
  to_stun to_attacher to_connections to_nobody : Target

-- nc_udp_dispatch_handle_packet; the first byte of an empty packet is read behind its end
pub target_of : UdpDispatch → List ℕ → Option Target
target_of u [] = none
target_of u (first ∷ rest) = some (
    if u.stun && (first == 0 || first == 1)
    then to_stun
    else if u.attacher && (leb 20 first && leb first 64)
    then to_attacher
    else if u.cli_conn && leb 240 first
    then to_connections
    else to_nobody)

pub is_all_closed : nabto_embedded_sdk.Connections.Call → Bool
is_all_closed nabto_embedded_sdk.Connections.all_closed = true
is_all_closed _ = false

module _ (nn : Nn) where
  -- `struct nc_device_context`
  pub record Device : Type 0 where
    pub state : DeviceState
    pub main_udp : UdpDispatch
    pub second_udp : UdpDispatch
    pub near_udp : UdpDispatch
    pub attacher : Attacher nn
    pub connections : Dispatch
    pub rendezvous : Rendezvous
    pub enable_mdns : Bool
    pub hostname : CString
    pub server_port : ℕ
    pub close_cb : Bool

  abbrev pub DeviceRun : Type 0
  DeviceRun = Device × List DeviceCall

  pub dispatch_of : Socket → Device → UdpDispatch
  dispatch_of udp d = d.main_udp
  dispatch_of secondary_udp d = d.second_udp
  dispatch_of local_udp d = d.near_udp

  -- nc_device_attach_closed_cb
  attach_closed : Device → DeviceRun
  attach_closed d = (
    record d { close_cb = false },
    udp_abort udp
        ∷ udp_abort local_udp
        ∷ udp_abort secondary_udp
        ∷ (if d.close_cb then device_closed ∷ [] else []),
  )

  -- nc_device_events_listener_notify, before the listeners of the user: an attach sets the host of STUN.
  unfoldable pub listen : Attacher nn → nabto_embedded_sdk.Attacher.Call → List DeviceCall
  listen a (nabto_embedded_sdk.Attacher.device_event nabto_embedded_sdk.Attacher.device_attached) =
      (if a.stun_port == 0 then [] else stun_set_host a.stun_host a.stun_port ∷ [])
      ++ (attacher_call
            (nabto_embedded_sdk.Attacher.device_event nabto_embedded_sdk.Attacher.device_attached)
          ∷ [])
  listen a call = attacher_call call ∷ []

  unfoldable pub listens : Attacher nn → List nabto_embedded_sdk.Attacher.Call → List DeviceCall
  unfolding listen
  listens a [] = []
  listens a (call ∷ calls) = listen a call ++ listens a calls

  -- The attacher ran; if it called its closed callback, that ran too.
  pub attacher_ran : Attacher nn × List nabto_embedded_sdk.Attacher.Call → Device → DeviceRun
  unfolding attach_closed is_closed_callback listens
  attacher_ran (a, calls) d =
      let d' = record d { attacher = a } in
      let (d'', more) = if any (is_closed_callback nn) calls then attach_closed d' else (d', []) in
      (d'', listens a calls ++ more)

  pub device_attacher : Input nn → Device → Option DeviceRun
  unfolding attacher_ran
  device_attacher i d = step nn i d.attacher >>= λ run. some (attacher_ran run d)

  -- nc_device_client_connections_closed_cb
  pub client_connections_closed : Device → DeviceRun
  unfolding attacher_ran
  client_connections_closed d = attacher_ran (async_close nn d.attacher) d

  -- The slots ran; if they called their close callback, that ran too.
  pub connections_ran : Dispatch × List nabto_embedded_sdk.Connections.Call → Device → DeviceRun
  unfolding client_connections_closed is_all_closed
  connections_ran (slots, calls) d =
      let d' = record d { connections = slots } in
      let (d'', more) =
        if any is_all_closed calls then client_connections_closed d' else (d', []) in
      (d'', map connection_call calls ++ more)

  -- A connection in a slot is destroyed.
  pub device_destroy : ℕ → ClientConnection → Device → DeviceRun
  unfolding connections_ran
  device_destroy i c d = connections_ran (destroy_connection i c d.connections) d

  -- nc_device_close
  pub device_close : Device → ErrorCode × DeviceRun
  unfolding client_connections_closed
  device_close d = elim d.state [
    | device_setup ↦ (invalid_state, (d, []))
    | device_stopped ↦ (invalid_state, (d, []))
    | device_running ↦
        let (active, slots, calls) = dispatch_async_close d.connections in
        let d' = record d { close_cb = true; state = device_stopped; connections = slots } in
        let (d'', more) = if active then (d', []) else client_connections_closed d' in
        (ec_ok, (d'', map connection_call calls ++ more))
  ]

  -- nc_device_stop
  device_stop : Device → DeviceRun
  unfolding attacher_ran
  device_stop d =
      let d' = record d { state = device_stopped; rendezvous = remove_udp_dispatch d.rendezvous } in
      let (d'', calls) = attacher_ran (nc_attacher_stop nn d.attacher) d' in
      (d'', udp_abort udp ∷ udp_abort secondary_udp ∷ stun_remove_sockets ∷ calls)

  -- nc_device_start
  device_start : CString → Bool → Device → DeviceRun
  device_start hostname enable_mdns d = (
    record d {
      state = device_running;
      enable_mdns = enable_mdns;
      hostname = hostname;
      connections = record (d.connections) { connection_ref = 0 };
    },
    async_bind udp ∷ [],
  )

  is_stopped : DeviceState → Bool
  is_stopped device_stopped = true
  is_stopped _ = false

  -- nc_device_udp_bound_cb
  udp_bound : Bool → Device → Option DeviceRun
  unfolding is_stopped attacher_ran
  udp_bound ok d =
      if is_stopped d.state
      then some (d, [])
      else if not ok
      then some (record d { state = device_stopped }, [])
      else (nc_attacher_start nn d.hostname d.server_port d.attacher >>= λ (ec, run).
          let d' = record d {
            main_udp = record (d.main_udp) {
              cli_conn = true;
              attacher = if is_ok ec then true else d.main_udp.attacher;
            };
            rendezvous = set_udp_dispatch d.rendezvous;
          } in
          let (d'', calls) = attacher_ran run d' in
          some (d'', calls ++ (start_recv udp ∷ async_bind local_udp ∷ [])))

  -- nc_device_local_udp_bound_cb
  local_udp_bound : Bool → Device → DeviceRun
  unfolding is_stopped
  local_udp_bound ok d = if is_stopped d.state || not ok then (d, []) else (
    record d { near_udp = record (d.near_udp) { cli_conn = true } },
    (if d.enable_mdns then mdns_publish ∷ [] else [])
        ++ (start_recv local_udp ∷ async_bind secondary_udp ∷ []),
  )

  -- nc_device_secondary_udp_bound_cb
  secondary_udp_bound : Bool → Device → DeviceRun
  unfolding is_stopped
  secondary_udp_bound ok d = if is_stopped d.state || not ok then (d, []) else (
    record d {
      main_udp = record (d.main_udp) { stun = true };
      second_udp = record (d.second_udp) { stun = true };
    },
    stun_set_sockets ∷ start_recv secondary_udp ∷ [],
  )

  -- The rendezvous requests among the calls of a connection are calls of the rendezvous module.
  pub answer_requests : List nabto_embedded_sdk.Connections.Call → Rendezvous → Rendezvous × Sends
  answer_requests [] r = (r, [])
  answer_requests (nabto_embedded_sdk.Connections.rendezvous_request ep id ∷ calls) r =
      let (r', sends) = handle_client_request ep id r in
      let (r'', more) = answer_requests calls r' in (r'', sends ++ more)
  answer_requests (_ ∷ calls) r = answer_requests calls r

  pub to_calls : Sends → List DeviceCall
  to_calls [] = []
  to_calls ((ep, bytes) ∷ sends) = rendezvous_send ep bytes ∷ to_calls sends

  -- A packet of clients: the slots, and the rendezvous module behind them.
  pub client_packet : Opening → Socket → Endpoint → List ℕ → Device → Option DeviceRun
  unfolding answer_requests to_calls connections_ran
  client_packet opening sock ep buffer d =
      dispatch_packet opening sock ep buffer d.connections >>= λ (slots, calls).
      let (r, sends) = answer_requests calls d.rendezvous in
      let (d', more) = connections_ran (slots, calls) (record d { rendezvous = r }) in
      some (d', more ++ to_calls sends)

  -- A packet that a socket received.
  pub device_packet : Opening → Socket → Endpoint → List ℕ → Device → Option DeviceRun
  unfolding target_of dispatch_of client_packet attacher_ran
  device_packet opening sock ep buffer d = target_of (dispatch_of sock d) buffer >>= λ target.
      elim target [
        | to_stun ↦ some (d, packet_to_stun buffer ∷ [])
        | to_attacher ↦ some (attacher_ran (handle_dtls_packet nn ep d.attacher) d)
        | to_connections ↦ client_packet opening sock ep buffer d
        | to_nobody ↦ some (d, [])
      ]
