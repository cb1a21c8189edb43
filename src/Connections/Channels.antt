-- ===== src/Connections/Channels.antt =====
-- Which channel a connection uses.
use nabto_embedded_sdk.Base.{ℕ, ◌≤◌, ◌<◌, ◌≡◌, ◌⊎◌, arith, false, some, List, [], ◌∷◌, ◌==◌}
use nabto_embedded_sdk.Attacher.{ec_ok}
use nabto_embedded_sdk.Connections.{ClientConnection, Run}
use nabto_embedded_sdk.KeepAlive.{at_keep_alive}
use nabto_embedded_sdk.Connections.{
  handle_data, follow_client, pass_on, handle_keep_alive, async_send_to_udp, default_channel_id,
}
use nabto_embedded_sdk.Attacher.{operation_in_progress}

pass_on_keeps :
    (t channel : ℕ) (buffer : List ℕ) (c : ClientConnection)
    → ((pass_on t channel buffer c).0.current_channel ≡ c.current_channel)
      × ((pass_on t channel buffer c).0.current_max_sequence ≡ c.current_max_sequence)
unfolding pass_on handle_keep_alive
pass_on_keeps t channel [] c = (ground arith, ground arith)
pass_on_keeps t channel (x ∷ []) c = (ground arith, ground arith)
pass_on_keeps t channel (x ∷ y ∷ rest) c = (ground arith, ground arith)

pass_on-id :
    (t channel : ℕ) (buffer : List ℕ) (c : ClientConnection)
    → (pass_on t channel buffer c).0.id ≡ c.id
unfolding pass_on handle_keep_alive
pass_on-id t channel [] c = ground arith
pass_on-id t channel (x ∷ []) c = ground arith
pass_on-id t channel (x ∷ y ∷ rest) c = ground arith

-- Data that arrives leaves the id.
pub handle_data-id :
    (channel sequence : ℕ) (buffer : List ℕ) (c : ClientConnection) (run : Run)
    → handle_data channel sequence buffer c ≡ some run
    → run.0.id ≡ c.id
unfolding handle_data follow_client
handle_data-id channel sequence [] c run h = ground arith
handle_data-id channel sequence (t ∷ rest) c run h =
    ground (arith, pass_on-id t channel (t ∷ rest) (follow_client t channel sequence c).0)

-- Data that arrives changes the current channel only to the alternative one, and only if it is no
-- keep-alive packet, came on the alternative channel, and has a sequence number above all before; the
-- highest sequence number never goes down.
pub handle_data_channel :
    (channel sequence application_type : ℕ) (rest : List ℕ) (c : ClientConnection) (run : Run)
    → handle_data channel sequence (application_type ∷ rest) c ≡ some run
    → ((run.0.current_channel ≡ c.current_channel)
        ⊎ ((run.0.current_channel ≡ c.alternative_channel)
            × ((application_type == at_keep_alive) ≡ false)
            × (c.alternative_channel.channel_id ≡ channel)
            × (c.current_max_sequence < sequence)
            × (run.0.current_max_sequence ≡ sequence)))
      × (c.current_max_sequence ≤ run.0.current_max_sequence)
unfolding handle_data follow_client
handle_data_channel channel sequence t rest c run h =
    let (same, kept) = pass_on_keeps t channel (t ∷ rest) (follow_client t channel sequence c).0 in
    (ground arith, ground arith)

-- A packet on a channel that is neither the current nor the alternative one is accepted and never
-- sent: the send is under way from then on, so every later packet is refused, whatever its channel.
pub lost_send :
    (channel later : ℕ) (buffer more : List ℕ) (c : ClientConnection)
    → c.sent_cb ≡ false
    → (channel == c.current_channel.channel_id) ≡ false
    → (channel == default_channel_id) ≡ false
    → (channel == c.alternative_channel.channel_id) ≡ false
    → let (ec, (b, calls)) = async_send_to_udp channel buffer c in
      (ec ≡ ec_ok)
      × (calls ≡ [])
      × (async_send_to_udp later more b ≡ (operation_in_progress, (b, [])))
unfolding async_send_to_udp
lost_send channel later buffer more c s a d e = (ground arith, ground arith, ground arith)
