-- ===== src/Attacher/Sending.antt =====
-- How the attacher sends the packets of its DTLS connection: to all endpoints until one of them
-- answers, and to that one from then on. src/core/nc_attacher.c.
use nabto_embedded_sdk.Base.{ℕ, ◌+◌, none, some, List, [], ◌∷◌, get_elem?}
use nabto_embedded_sdk.Nn.{Nn}
use nabto_embedded_sdk.Attacher.{
  Endpoint, udp_send, sender_callback, dtls_handle_packet, Attacher, Run,
}

module _ (nn : Nn) where
  -- nc_attacher_handle_dtls_packet
  unfoldable pub handle_dtls_packet : Endpoint → Attacher nn → Run nn
  handle_dtls_packet ep a = elim a.active_ep [
    | some active ↦ (a, dtls_handle_packet ∷ [])
    | none ↦ (record a { active_ep = some ep }, dtls_handle_packet ∷ [])
  ]

  -- The endpoint at the index, which is read only if it is one of the endpoints.
  unfoldable pub send_initial_packet : Attacher nn → Run nn
  send_initial_packet a = elim (get_elem? a.endpoints a.endpoints_index) [
    | none ↦ (a, sender_callback ∷ [])
    | some ep ↦ (record a { endpoints_index = a.endpoints_index + 1 }, udp_send ep a.packet ∷ [])
  ]

  unfoldable pub initial_packet_sent : Attacher nn → Run nn
  initial_packet_sent a = send_initial_packet a

  unfoldable pub start_send_initial_packet : List ℕ → Attacher nn → Run nn
  unfolding send_initial_packet
  start_send_initial_packet buffer a =
      send_initial_packet (record a { packet = buffer; endpoints_index = 0 })

  unfoldable pub dtls_packet_sender : List ℕ → Attacher nn → Run nn
  unfolding start_send_initial_packet
  dtls_packet_sender buffer a = elim a.active_ep [
    | none ↦ start_send_initial_packet buffer a
    | some ep ↦ (a, udp_send ep buffer ∷ [])
  ]
