-- ===== src/Device/Packets.antt =====
-- A packet on its way through the device: which component gets it, and a client's rendezvous request.
use nabto_embedded_sdk.Base.{
  ℕ, zero, suc, ◌≡◌, ◌<◌, refl, sym, ap, arith, true, false, none, some, List, [], ◌∷◌, ◌++◌,
  length, str_eq, str_eq_iff, get_elem?, any, Bool-cases, inl, inr,
}
use nabto_embedded_sdk.Nn.{Nn}
use nabto_embedded_sdk.Attacher.{Endpoint}
use nabto_embedded_sdk.Connections.{
  Socket, rendezvous_request, key_of, prefix_rendezvous, ct_rendezvous_client_request,
  is_rendezvous, handle_packet,
}
use nabto_embedded_sdk.Connections.Dispatch.{Slot, Opening, has_key, deliver, dispatch_packet}
use nabto_embedded_sdk.Rendezvous.{
  client_response, packet_bytes, send_device_request, send_rendezvous, handle_client_request,
}
use nabto_embedded_sdk.Device.{
  target_of, connection_call, rendezvous_send, Device, dispatch_of, is_all_closed, connections_ran,
  answer_requests, to_calls, client_packet, device_packet,
}

-- A rendezvous request leaves the slots as they are and asks for an answer to the key in the packet.
deliver_request :
    (sock : Socket) (ep : Endpoint) (buffer : List ℕ) (slots : List Slot)
    → is_rendezvous buffer ≡ true
    → any (has_key (key_of buffer)) slots ≡ true
    → deliver sock ep buffer slots ≡ some (some (slots, rendezvous_request ep (key_of buffer) ∷ []))
unfolding deliver has_key handle_packet
deliver_request sock ep buffer [] h k = ground arith
deliver_request sock ep buffer (none ∷ slots) h k =
    rw (deliver_request sock ep buffer slots h k, deliver) refl
deliver_request sock ep buffer (some c ∷ slots) h k =
    elim (Bool-cases (str_eq (key_of buffer) (key_of c.id))) [
      | inl same ↦ rw same (
          rw h (
            ap (λ k. some (some (some c ∷ slots, rendezvous_request ep k ∷ [])))
              (sym ((str_eq_iff (key_of buffer) (key_of c.id)).0 same))))
      | inr apart ↦
          rw apart (rw (deliver_request sock ep buffer slots h (ground (arith, k, apart))) refl)
    ]

get_elem?-length : (xs : List ℕ) (i : ℕ) (x : ℕ) → get_elem? xs i ≡ some x → i < length xs
get_elem?-length [] i x h = ground arith
get_elem?-length (y ∷ xs) zero x h = ground arith
get_elem?-length (y ∷ xs) (suc i) x h = ground (arith, get_elem?-length xs i x h)

module _ (nn : Nn) where
  -- A packet with the rendezvous prefix and the content type of a client's request, whose key is that of an
  -- active connection, comes in at a socket that has the connections. If the rendezvous module has a socket,
  -- is not sending and has nothing waiting, then the device answers its sender with one packet: the prefix,
  -- the key, a zero and the type of a response. No connection, and nothing else of the device, changes but
  -- that the rendezvous module is sending.
  pub device_packet-request :
      (opening : Opening) (sock : Socket) (ep : Endpoint) (rest : List ℕ) (d : Device nn)
      → (dispatch_of nn sock d).cli_conn ≡ true
      → get_elem? rest 15 ≡ some ct_rendezvous_client_request
      → any (has_key (key_of (prefix_rendezvous ∷ rest))) d.connections.elms ≡ true
      → d.rendezvous ≡ record { packets = []; sending = false; has_udp = true }
      → device_packet nn opening sock ep (prefix_rendezvous ∷ rest) d
        ≡ some (
          record d { rendezvous = record { packets = []; sending = true; has_udp = true } },
          connection_call (rendezvous_request ep (key_of (prefix_rendezvous ∷ rest)))
              ∷ rendezvous_send ep (
                  prefix_rendezvous
                  ∷ (key_of (prefix_rendezvous ∷ rest) ++ (0 ∷ client_response ∷ [])))
              ∷ [],
        )
  unfolding device_packet target_of client_packet dispatch_packet connections_ran answer_requests
      to_calls handle_client_request send_rendezvous send_device_request packet_bytes is_all_closed
      is_rendezvous
  device_packet-request opening sock ep rest d on content key idle =
      let long = get_elem?-length rest 15 ct_rendezvous_client_request content in
      let request : is_rendezvous (prefix_rendezvous ∷ rest) ≡ true = ground (arith, content) in
      let found =
        deliver_request sock ep (prefix_rendezvous ∷ rest) d.connections.elms request key in
      ground (arith, long, found, on, idle)
