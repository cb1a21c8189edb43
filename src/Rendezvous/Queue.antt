-- ===== src/Rendezvous/Queue.antt =====
-- The queue of packets is bounded, and every packet in it is sent.
use nabto_embedded_sdk.Base.{
  ℕ, zero, suc, ◌%◌, ◌^◌, ◌≤◌, ◌≡◌, refl, ap, arith, Bool, true, false, Option, none, some, List,
  [], ◌∷◌, ◌++◌, length, Option-cases, inl, inr,
}
use nabto_embedded_sdk.Attacher.{Endpoint}
use nabto_embedded_sdk.Rendezvous.{
  Packet, Rendezvous, Sends, queue_length, device_request, packet_bytes, send_device_request,
  packet_sent, send_rendezvous, Item, no_map, no_endpoint, endpoint, ip_of, handle_items,
  handle_p2p_rendezvous,
}

-- The socket reports so many completed sends.
pub sent_times : ℕ → Rendezvous → Rendezvous × Sends
sent_times zero r = (r, [])
sent_times (suc n) r =
    let (r', sends) = packet_sent r in let (r'', more) = sent_times n r' in (r'', sends ++ more)

-- The packets as they are given to the socket.
abbrev pub as_sends : List Packet → Sends
as_sends [] = []
as_sends (p ∷ ps) = (p.ep, packet_bytes p) ∷ as_sends ps

-- Once the socket is set, the packets that wait are all sent, each one once and the last one first, as
-- the sends complete one after the other; then nothing waits and nothing is being sent.
pub sent_times_lem :
    (ps : List Packet) (sending : Bool)
    → sent_times (suc (length ps)) (record { packets = ps; sending = sending; has_udp = true })
      ≡ (record { packets = []; sending = false; has_udp = true }, as_sends ps)
unfolding sent_times packet_sent send_device_request
sent_times_lem [] sending = refl
sent_times_lem (p ∷ ps) sending =
    ap (λ (out : Rendezvous × Sends). (out.0, (p.ep, packet_bytes p) ∷ out.1))
      (sent_times_lem ps true)

-- The queue of `handle_items` stays bounded.
send_rendezvous_bound :
    (p : Packet) (r : Rendezvous)
    → length r.packets ≤ queue_length
    → length (send_rendezvous p r).0.packets ≤ queue_length
unfolding send_rendezvous send_device_request
send_rendezvous_bound p r h = ground arith

handle_items_bound :
    (connection_id : List ℕ) (items : List Item) (r : Rendezvous)
    → length r.packets ≤ queue_length
    → length (handle_items connection_id items r).1.packets ≤ queue_length
unfolding handle_items
handle_items_bound connection_id [] r h = h
handle_items_bound connection_id (no_map ∷ items) r h = h
handle_items_bound connection_id (no_endpoint ∷ items) r h =
    handle_items_bound connection_id items r h
handle_items_bound connection_id (endpoint bytes port ∷ items) r h =
    elim (Option-cases (ip_of bytes)) [
      | inl e ↦ ground (arith, handle_items_bound connection_id items r h)
      | inr (ip, e) ↦
          let ep : Endpoint = record { ip = ip; port = port % 2 ^ 16 } in
          let p : Packet = record {
            type_of = device_request;
            connection_id = connection_id;
            ep = ep;
          } in
          ground (
            arith,
            handle_items_bound connection_id items (send_rendezvous p r).0
                (send_rendezvous_bound p r h),
          )
    ]

-- A rendezvous request never makes more than ten packets wait.
pub p2p_rendezvous_bound :
    (connection_id : List ℕ) (payload : Option (List Item)) (r : Rendezvous)
    → length r.packets ≤ queue_length
    → length (handle_p2p_rendezvous connection_id payload r).1.packets ≤ queue_length
unfolding handle_p2p_rendezvous
p2p_rendezvous_bound connection_id none r h = h
p2p_rendezvous_bound connection_id (some items) r h = handle_items_bound connection_id items r h
