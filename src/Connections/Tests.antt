-- ===== src/Connections/Tests.antt =====
-- A client that connects, moves to another channel, and leaves.
use nabto_embedded_sdk.Base.{
  ℕ, ◌+◌, ◌≤◌, ◌<◌, ◌≡◌, ◌⊎◌, refl, false, none, some, List, [], ◌∷◌, ◌++◌, get_elem?, replicate,
  ◌==◌,
}
use nabto_embedded_sdk.KeepAlive.{at_keep_alive}
use nabto_embedded_sdk.Attacher.{ipv4, Endpoint, ec_ok, operation_in_progress}
use nabto_embedded_sdk.Connections.{
  coap_packet, channel_changed, notify, udp, dtls_handle_packet, ClientConnection, key_of,
  handle_data, async_send_to_udp,
}
use nabto_embedded_sdk.Connections.Dispatch.{
  Dispatch, Opening, dispatch_init, dispatch_packet, new_connection, destroy_connection,
}
use nabto_embedded_sdk.Connections.Channels.{handle_data_channel, lost_send}
use nabto_embedded_sdk.Connections.Sessions.{assign, sessions_packet, view, view_result}
use nabto_embedded_sdk.Connections.Sessions.Refinement.{dispatch_packet-refines}
use nabto_embedded_sdk.Connections.Sessions.Keys.{
  Reach-IsValid, step_packet, Reach, here, next, destroy_connection-refines,
}
use nabto_embedded_sdk.Connections.Sessions.Slots.{IsValid}

abbrev opening_sample : Opening
opening_sample = record {
  keep_alive_ec = ec_ok;
  completion_ec = ec_ok;
  dtls_ec = ec_ok;
  packet_ec = ec_ok;
}

abbrev home_ep : Endpoint
home_ep = record { ip = ipv4 (10 ∷ 0 ∷ 0 ∷ 7 ∷ []); port = 5000 }

-- The header of an id with 14 sevens on channel 2, and a handshake behind it.
abbrev hello : List ℕ
hello = 240 ∷ (replicate 14 7 ++ (2 ∷ 22 ∷ []))

abbrev client : ClientConnection
client = new_connection udp home_ep hello 2 1

abbrev open_slots : Dispatch
open_slots = record (dispatch_init 0) { elms = some client ∷ replicate 9 none; connection_ref = 1 }

hello_run :
    dispatch_packet opening_sample udp home_ep hello (dispatch_init 0)
    ≡ some (open_slots, dtls_handle_packet 2 (22 ∷ []) ∷ [])
unfolding dispatch_packet dispatch_init
hello_run = refl

dispatch_packet-refines_example :
    view_result (dispatch_packet opening_sample udp home_ep hello (dispatch_init 0))
    ≡ sessions_packet opening_sample udp home_ep hello (view (dispatch_init 0))
dispatch_packet-refines_example =
    dispatch_packet-refines opening_sample udp home_ep hello (dispatch_init 0)

Reach-sample : Reach (dispatch_init 0) open_slots
Reach-sample =
    next here
      (step_packet opening_sample udp home_ep hello (dtls_handle_packet 2 (22 ∷ []) ∷ []) hello_run)

Reach-IsValid_example : IsValid open_slots
Reach-IsValid_example = Reach-IsValid 0 open_slots Reach-sample

client_slot : get_elem? open_slots.elms 0 ≡ some (some client)
unfolding dispatch_init
client_slot = refl

destroy_connection-refines_example :
    view (destroy_connection 0 client open_slots).0 ≡ record (view open_slots) {
      find = assign (view open_slots).find (key_of client.id) none;
      free = (view open_slots).free + 1;
    }
destroy_connection-refines_example =
    destroy_connection-refines 0 client open_slots (Reach-IsValid 0 open_slots Reach-sample).unique
      client_slot

-- The client also sent from channel 3.
abbrev moving : ClientConnection
moving = record client { alternative_channel = record { sock = udp; ep = home_ep; channel_id = 3 } }

abbrev moved : ClientConnection
moved = record moving { current_max_sequence = 4; current_channel = moving.alternative_channel }

data_run :
    handle_data 3 4 (64 ∷ []) moving
    ≡ some (moved, notify 1 channel_changed ∷ coap_packet (64 ∷ []) ∷ [])
unfolding handle_data new_connection
data_run = refl

handle_data_channel_example :
    ((moved.current_channel ≡ moving.current_channel)
      ⊎ ((moved.current_channel ≡ moving.alternative_channel)
          × ((64 == at_keep_alive) ≡ false)
          × (moving.alternative_channel.channel_id ≡ 3)
          × (moving.current_max_sequence < 4)
          × (moved.current_max_sequence ≡ 4)))
    × (moving.current_max_sequence ≤ moved.current_max_sequence)
handle_data_channel_example =
    handle_data_channel 3 4 64 [] moving
      (moved, notify 1 channel_changed ∷ coap_packet (64 ∷ []) ∷ []) data_run

lost_send_run :
    let (ec, (b, calls)) = async_send_to_udp 9 (1 ∷ []) moved in
    (ec ≡ ec_ok)
    × (calls ≡ [])
    × (async_send_to_udp 3 (2 ∷ []) b ≡ (operation_in_progress, (b, [])))
unfolding new_connection
lost_send_run = lost_send 9 3 (1 ∷ []) (2 ∷ []) moved refl refl refl refl
