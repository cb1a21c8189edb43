-- ===== src/Rendezvous/Tests.antt =====
-- Two packets that wait, and a request with three addresses.
use nabto_embedded_sdk.Base.{
  ℕ, ◌≡◌, ◌≤◌, arith, true, false, some, List, [], ◌∷◌, replicate, length,
}
use nabto_embedded_sdk.Attacher.{ipv4}
use nabto_embedded_sdk.Rendezvous.{
  Packet, Item, no_endpoint, endpoint, queue_length, handle_p2p_rendezvous,
}
use nabto_embedded_sdk.Rendezvous.Queue.{sent_times, as_sends, sent_times_lem, p2p_rendezvous_bound}

abbrev packet_to : ℕ → Packet
packet_to byte = record {
  type_of = 3;
  connection_id = replicate 14 7;
  ep = record { ip = ipv4 (replicate 4 byte); port = 5000 };
}

sent_times_lem_run :
    sent_times 3
      (record { packets = packet_to 1 ∷ packet_to 2 ∷ []; sending = true; has_udp = true })
    ≡ (
      record { packets = []; sending = false; has_udp = true },
      as_sends (packet_to 1 ∷ packet_to 2 ∷ []),
    )
sent_times_lem_run = sent_times_lem (packet_to 1 ∷ packet_to 2 ∷ []) true

abbrev three_items : List Item
three_items = endpoint (replicate 4 1) 5000 ∷ no_endpoint ∷ endpoint (replicate 16 2) 70000 ∷ []

p2p_rendezvous_bound_run :
    length
      (handle_p2p_rendezvous
        (replicate 14 7)
        (some three_items)
        (record { packets = []; sending = true; has_udp = true })).1.packets
    ≤ queue_length
p2p_rendezvous_bound_run =
    p2p_rendezvous_bound (replicate 14 7) (some three_items)
      (record { packets = []; sending = true; has_udp = true }) (ground arith)
