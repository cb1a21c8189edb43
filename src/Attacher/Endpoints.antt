-- ===== src/Attacher/Endpoints.antt =====
-- The endpoints of a basestation, and the packet that looks for one of them.
use nabto_embedded_sdk.Base.{
  append_assoc, append-nil, zero, suc, ◌+◌, ◌≤◌, leb, length, get_elem?, length-append, ℕ, ◌≡◌,
  refl, sym, ap, ◌∙◌, arith, none, some, List, [], ◌∷◌, ◌++◌, if◌then◌else◌,
}
use nabto_embedded_sdk.Nn.{Nn}
use nabto_embedded_sdk.Attacher.{
  Ip, Endpoint, Call, udp_send, sender_callback, max_endpoints, Attacher, Run,
}
use nabto_embedded_sdk.Attacher.Events.{add_endpoint, fill_endpoints}
use nabto_embedded_sdk.Attacher.Sending.{
  send_initial_packet, initial_packet_sent, start_send_initial_packet, dtls_packet_sender,
  handle_dtls_packet,
}

-- The endpoints at a port.
abbrev pub at_port : ℕ → List Ip → List Endpoint
at_port port [] = []
at_port port (ip ∷ ips) = (record { ip = ip; port = port }) ∷ at_port port ips

-- Up to four addresses all become endpoints, in their order; a fifth one is written behind the array.
pub fill_endpoints_lem :
    (port : ℕ) (eps : List Endpoint) (ips : List Ip)
    → length eps ≤ max_endpoints
    → fill_endpoints 0 port eps ips ≡ (
        if leb (length eps + length ips) max_endpoints
        then some (eps ++ at_port port ips)
        else none)
unfolding fill_endpoints add_endpoint
fill_endpoints_lem port eps [] h = ground (arith, append-nil eps)
fill_endpoints_lem port eps (ip ∷ ips) h =
    let e : Endpoint = record { ip = ip; port = port } in
    ground (
      arith,
      fill_endpoints_lem port (eps ++ (e ∷ [])) ips,
      length-append eps (e ∷ []),
      append_assoc eps (e ∷ []) (at_port port ips),
    )

get_elem?-append :
    (eps : List Endpoint) (ep : Endpoint) (more : List Endpoint)
    → get_elem? (eps ++ (ep ∷ more)) (length eps) ≡ some ep
get_elem?-append [] ep more = refl
get_elem?-append (e ∷ eps) ep more = get_elem?-append eps ep more

get_elem?-end : (eps : List Endpoint) → get_elem? eps (length eps) ≡ none
get_elem?-end [] = refl
get_elem?-end (e ∷ eps) = get_elem?-end eps

module _ (nn : Nn) where
  -- The sender reports so many times that a packet went out.
  pub sent_many : ℕ → Attacher nn → Run nn
  sent_many zero a = (a, [])
  sent_many (suc n) a =
      let (b, calls) = initial_packet_sent nn a in
      let (c, more) = sent_many n b in (c, calls ++ more)

  -- The packet, sent to each of the endpoints, and the callback of the sender.
  abbrev pub to_all : List ℕ → List Endpoint → List Call
  to_all buffer [] = sender_callback ∷ []
  to_all buffer (ep ∷ eps) = udp_send ep buffer ∷ to_all buffer eps

  sent_none :
      (a : Attacher nn)
      → get_elem? a.endpoints a.endpoints_index ≡ none
      → (sent_many 1 a).1 ≡ sender_callback ∷ []
  unfolding sent_many initial_packet_sent send_initial_packet
  sent_none a h = rw (h, send_initial_packet) refl

  sent_some :
      (n : ℕ) (a : Attacher nn) (ep : Endpoint)
      → get_elem? a.endpoints a.endpoints_index ≡ some ep
      → (sent_many (suc n) a).1
        ≡ udp_send ep a.packet
          ∷ (sent_many n (record a { endpoints_index = a.endpoints_index + 1 })).1
  unfolding sent_many initial_packet_sent send_initial_packet
  sent_some n a ep h = rw (h, send_initial_packet) refl

  sent_many_from :
      (before eps : List Endpoint) (a : Attacher nn)
      → a.endpoints ≡ before ++ eps
      → a.endpoints_index ≡ length before
      → (sent_many (suc (length eps)) a).1 ≡ to_all a.packet eps
  sent_many_from before [] a e i =
      sent_none a (rw e (rw i (rw (append-nil before) (get_elem?-end before))))
  sent_many_from before (ep ∷ eps) a e i =
      sent_some (length (ep ∷ eps)) a ep (rw e (rw i (get_elem?-append before ep eps)))
      ∙ ap (λ l. udp_send ep a.packet ∷ l)
          (sent_many_from (before ++ (ep ∷ [])) eps
            (record a { endpoints_index = a.endpoints_index + 1 })
            (e ∙ sym (append_assoc before (ep ∷ []) eps))
            (rw i (sym (length-append before (ep ∷ [])))))

  -- While no endpoint has answered, a packet goes to every endpoint, once and in their order, as the
  -- sends complete one after the other, and the callback of the sender is called behind the last.
  pub packet_to_all :
      (a : Attacher nn) (buffer : List ℕ)
      → a.active_ep ≡ none
      → (let (b, calls) = dtls_packet_sender nn buffer a in
          calls ++ (sent_many (length a.endpoints) b).1)
        ≡ to_all buffer a.endpoints
  unfolding dtls_packet_sender start_send_initial_packet sent_many initial_packet_sent
  packet_to_all a buffer h =
      rw (h, dtls_packet_sender)
        (sent_many_from [] a.endpoints (record a { packet = buffer; endpoints_index = 0 }) refl
          refl)

  -- The first endpoint that answers is the one that packets go to, whoever answers later.
  pub first_answer_wins :
      (a : Attacher nn) (ep later : Endpoint) (buffer : List ℕ)
      → a.active_ep ≡ none
      → let b = (handle_dtls_packet nn later (handle_dtls_packet nn ep a).0).0 in
        dtls_packet_sender nn buffer b ≡ (b, udp_send ep buffer ∷ [])
  unfolding handle_dtls_packet dtls_packet_sender
  first_answer_wins a ep later buffer h = rw h refl
