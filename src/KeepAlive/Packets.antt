-- ===== src/KeepAlive/Packets.antt =====
-- Keep-alive requests and responses.
use nabto_embedded_sdk.Base.{◌≡◌, refl, true, false, length, drop}
use nabto_embedded_sdk.KeepAlive.{KeepAlive, create_request, handle_request, packet_sent}

-- The request of one end, answered by an idle other end, comes back with the same 16 bytes, and
-- once the answer is sent the other end is idle again.
pub request_echo :
    (c d : KeepAlive)
    → d.is_sending ≡ false
    → let req = (create_request c).send_buffer in
      let (d', answered) = handle_request d req (length req) in
      (answered ≡ true)
      × (drop 2 d'.send_buffer ≡ drop 2 req)
      × (length d'.send_buffer ≡ 18)
      × ((packet_sent d').is_sending ≡ false)
unfolding create_request handle_request packet_sent
request_echo c d idle = rw idle (refl, refl, refl, refl)
