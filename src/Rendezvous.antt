-- ===== src/Rendezvous.antt =====
-- src/core/nc_rendezvous.c and nc_rendezvous_coap.c: packets that open a way through firewalls to
-- addresses of a client. At most ten wait, the last one first; one is being sent at a time.
pub mod Queue
mod Tests
use nabto_embedded_sdk.Base.{
  ℕ, zero, suc, ◌+◌, ◌%◌, ◌^◌, Bool, true, false, not, ◌&&◌, ◌||◌, Option, none, some, List, [],
  ◌∷◌, ◌++◌, length, ltb, leb, ◌==◌, if◌then◌else◌,
}
use nabto_embedded_sdk.Attacher.{Ip, ipv4, ipv6, Endpoint}
use nabto_embedded_sdk.Connections.{prefix_rendezvous}

abbrev pub queue_length : ℕ
queue_length = 10

abbrev pub client_response : ℕ
client_response = 2

abbrev pub device_request : ℕ
device_request = 3

-- `struct nc_rendezvous_send_packet`
pub record Packet : Type 0 where
  pub type_of : ℕ
  pub connection_id : List ℕ  -- 14 bytes
  pub ep : Endpoint

-- `struct nc_rendezvous_context`: packetList[packetIndex - 1] is the first of the list
pub record Rendezvous : Type 0 where
  pub packets : List Packet
  pub sending : Bool
  pub has_udp : Bool

-- The calls to the socket: an endpoint and the bytes.
abbrev pub Sends : Type 0
Sends = List (Endpoint × List ℕ)

unfoldable pub packet_bytes : Packet → List ℕ
packet_bytes p = prefix_rendezvous ∷ (p.connection_id ++ (0 ∷ p.type_of ∷ []))

unfoldable pub send_device_request : Rendezvous → Rendezvous × Sends
unfolding packet_bytes
send_device_request r = if r.sending || not r.has_udp then (r, []) else elim r.packets [
  | [] ↦ (r, [])
  | p ∷ ps ↦ (record r { packets = ps; sending = true }, (p.ep, packet_bytes p) ∷ [])
]

-- The completion of a send.
pub packet_sent : Rendezvous → Rendezvous × Sends
packet_sent r = send_device_request (record r { sending = false })

unfoldable pub send_rendezvous : Packet → Rendezvous → Rendezvous × Sends
send_rendezvous p r =
    if leb queue_length (length r.packets)
    then (r, [])
    else if not r.has_udp
    then (r, [])
    else send_device_request (record r { packets = p ∷ r.packets })

unfoldable pub handle_client_request : Endpoint → List ℕ → Rendezvous → Rendezvous × Sends
handle_client_request ep connection_id r =
    send_rendezvous (record { type_of = client_response; connection_id = connection_id; ep = ep }) r

pub set_udp_dispatch : Rendezvous → Rendezvous
set_udp_dispatch r = record r { has_udp = true }

pub remove_udp_dispatch : Rendezvous → Rendezvous
remove_udp_dispatch r = record r { has_udp = false }

-- What the CBOR reader finds at a place of the array of a request.
pub data Item : Type 0 where
  no_map no_endpoint : Item
  endpoint : List ℕ → ℕ → Item  -- the bytes of the address and the port

-- The address that so many bytes are.
ip_of : List ℕ → Option Ip
ip_of bytes =
    if length bytes == 4
    then some (ipv4 bytes)
    else if length bytes == 16
    then some (ipv6 bytes)
    else none

-- The loop of `handle_rendezvous_payload`; the first entry that is no map ends it with an error, and
-- what was sent before stays sent.
pub handle_items : List ℕ → List Item → Rendezvous → Bool × Rendezvous × Sends
unfolding ip_of
handle_items connection_id [] r = (true, r, [])
handle_items connection_id (no_map ∷ items) r = (false, r, [])
handle_items connection_id (no_endpoint ∷ items) r = handle_items connection_id items r
handle_items connection_id (endpoint bytes port ∷ items) r = elim (ip_of bytes) [
  | none ↦ handle_items connection_id items r
  | some ip ↦
      let ep : Endpoint = record { ip = ip; port = port % 2 ^ 16 } in
      let p : Packet = record {
        type_of = device_request;
        connection_id = connection_id;
        ep = ep;
      } in
      let (r', sends) = send_rendezvous p r in
      let (ok, r'', more) = handle_items connection_id items r' in (ok, r'', sends ++ more)
]

-- nc_rendezvous_handle_coap_p2p_rendezvous: `none` is a request without a payload or whose payload is
-- no array; the code of the response
pub handle_p2p_rendezvous : List ℕ → Option (List Item) → Rendezvous → ℕ × Rendezvous × Sends
handle_p2p_rendezvous connection_id none r = (400, r, [])
handle_p2p_rendezvous connection_id (some items) r =
    let (ok, r', sends) = handle_items connection_id items r in (if ok then 204 else 400, r', sends)
