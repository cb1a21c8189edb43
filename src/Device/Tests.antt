-- ===== src/Device/Tests.antt =====
-- A device that is closed with two clients connected, and a client that asks for a way through.
use nabto_embedded_sdk.Base.{
  str_eq, ℕ, ◌≡◌, refl, true, false, none, some, List, [], ◌∷◌, ◌++◌, codes, replicate, any,
}
use nabto_embedded_sdk.Nn.Lists.{list_nn}
use nabto_embedded_sdk.KeepAlive.{KeepAlive}
use nabto_embedded_sdk.Attacher.{
  do_close, async_close, attached, running, ipv4, Endpoint, SctContext, Attacher,
}
use nabto_embedded_sdk.Attacher.Closing.{ends_attached}
use nabto_embedded_sdk.Attacher.Events.{close_event, dtls_event, event_closed}
use nabto_embedded_sdk.Connections.{
  udp, local_udp, secondary_udp, ClientConnection, key_of, prefix_rendezvous, rendezvous_request,
}
use nabto_embedded_sdk.Connections.Dispatch.{
  destroy_connection, has_key, dispatch_async_close, dispatch_init, new_connection,
}
use nabto_embedded_sdk.Rendezvous.{client_response}
use nabto_embedded_sdk.Device.{
  device_destroy, dispatch_of, UdpDispatch, device_running, DeviceCall, connection_call,
  rendezvous_send, device_closed, udp_abort, Device, device_attacher, device_close, device_packet,
}
use nabto_embedded_sdk.Device.Posted.{is_posted}
use nabto_embedded_sdk.Device.Destroys.{destroys}
use nabto_embedded_sdk.Device.Closing.{device_inputs, device_close_completes, close_waits}
use nabto_embedded_sdk.Device.Packets.{device_packet-request}
use nabto_embedded_sdk.Attacher.{ec_ok}
use nabto_embedded_sdk.Connections.Dispatch.{is_active}

abbrev keep_alive_sample : KeepAlive
keep_alive_sample = record {
  ka_interval = 30000;
  ka_retry_interval = 2000;
  ka_max_retries = 15;
  last_recv_count = 0;
  last_sent_count = 0;
  lost_keep_alives = 0;
  n = 15;
  is_sending = false;
  send_buffer = replicate 18 0;
}

abbrev no_tokens : SctContext list_nn
no_tokens = record {
  scts = [];
  version = 0;
  synchronized_version = 0;
  uploading_version = 0;
  callback = none;
}

abbrev attached_sample : Attacher list_nn
attached_sample = record {
  state = attached;
  module_state = running;
  hostname = codes "home";
  default_port = 443;
  current_port = 443;
  dns_buffer = codes "home" ++ replicate 252 0;
  resolved_ips = [];
  endpoints = [];
  endpoints_index = 0;
  packet = [];
  active_ep = none;
  redirect_attempts = 0;
  start_callback = false;
  end_callback = false;
  closed_cb = false;
  has_state_listener = false;
  has_listener = true;
  stun_host = replicate 256 0;
  stun_port = 0;
  keep_alive = keep_alive_sample;
  sct = no_tokens;
  retry_wait_time = 10000;
  access_denied_wait_time = 3600000;
}

abbrev client_ep : Endpoint
client_ep = record { ip = ipv4 (10 ∷ 0 ∷ 0 ∷ 9 ∷ []); port = 4000 }

abbrev client_of : ℕ → ClientConnection
client_of byte = new_connection udp client_ep (240 ∷ (replicate 14 byte ++ (0 ∷ []))) 0 byte

abbrev all_on : UdpDispatch
all_on = record { cli_conn = true; attacher = true; stun = true }

abbrev device_sample : Device list_nn
device_sample = record {
  state = device_running;
  main_udp = all_on;
  second_udp = record { cli_conn = false; attacher = false; stun = true };
  near_udp = record { cli_conn = true; attacher = false; stun = false };
  attacher = attached_sample;
  connections = record (dispatch_init 2) {
    elms = some (client_of 1) ∷ none ∷ some (client_of 2) ∷ replicate 7 none;
  };
  rendezvous = record { packets = []; sending = false; has_udp = true };
  enable_mdns = false;
  hostname = codes "home";
  server_port = 443;
  close_cb = false;
}

all_destroyed :
    any is_active
      (destroys list_nn (2 ∷ 0 ∷ []) (device_close list_nn device_sample).1.0).0.connections.elms
    ≡ false
unfolding destroys device_close dispatch_async_close device_destroy destroy_connection async_close
    do_close
all_destroyed = refl

device_close_completes_example :
    (e : Device list_nn) × (calls : List DeviceCall) × (f : Device list_nn) × (first : List
      DeviceCall)
    × (device_inputs list_nn
          (dtls_event event_closed false false ∷ [])
          (destroys list_nn (2 ∷ 0 ∷ []) (device_close list_nn device_sample).1.0).0
        ≡ some (e, calls))
    × (any is_posted (
          (device_close list_nn device_sample).1.1
          ++ (destroys list_nn (2 ∷ 0 ∷ []) (device_close list_nn device_sample).1.0).1
          ++ calls)
        ≡ true)
    × (device_attacher list_nn close_event e
        ≡ some (
          f,
          first
              ++ (udp_abort udp
                  ∷ udp_abort local_udp
                  ∷ udp_abort secondary_udp
                  ∷ device_closed
                  ∷ []),
        ))
    × (f.close_cb ≡ false)
device_close_completes_example =
    device_close_completes list_nn device_sample attached (dtls_event event_closed false false ∷ [])
      (2 ∷ 0 ∷ []) refl refl refl (ends_attached false false) all_destroyed

one_destroyed :
    any is_active
      (destroys list_nn (2 ∷ []) (device_close list_nn device_sample).1.0).0.connections.elms
    ≡ true
unfolding destroys device_close dispatch_async_close device_destroy destroy_connection
one_destroyed = refl

close_waits_run :
    (destroys list_nn (2 ∷ []) (device_close list_nn device_sample).1.0).0.attacher
    ≡ attached_sample
close_waits_run = close_waits list_nn device_sample (2 ∷ []) refl one_destroyed

-- The packet without its prefix: a key, a channel and the content type of a request.
abbrev request_rest : List ℕ
request_rest = replicate 14 1 ++ (0 ∷ 1 ∷ [])

device_packet-request_example :
    device_packet list_nn
      (record { keep_alive_ec = ec_ok; completion_ec = ec_ok; dtls_ec = ec_ok; packet_ec = ec_ok })
      udp
      client_ep
      (prefix_rendezvous ∷ request_rest)
      device_sample
    ≡ some (
      record device_sample { rendezvous = record { packets = []; sending = true; has_udp = true } },
      connection_call (rendezvous_request client_ep (key_of (prefix_rendezvous ∷ request_rest)))
          ∷ rendezvous_send client_ep (
              prefix_rendezvous
              ∷ (key_of (prefix_rendezvous ∷ request_rest) ++ (0 ∷ client_response ∷ [])))
          ∷ [],
    )
unfolding dispatch_of has_key str_eq new_connection
device_packet-request_example =
    device_packet-request list_nn
      (record { keep_alive_ec = ec_ok; completion_ec = ec_ok; dtls_ec = ec_ok; packet_ec = ec_ok })
      udp client_ep request_rest device_sample refl refl refl refl
