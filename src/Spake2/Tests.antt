-- ===== src/Spake2/Tests.antt =====
-- A client that guesses, and one that knows the password.
use nabto_embedded_sdk.Base.{
  ℕ, ◌-◌, ◌≤◌, ◌<◌, ◌≡◌, ◌≢◌, ◌↔◌, arith, true, none, some, List, [], ◌∷◌, ◌++◌, codes, take,
  replicate, length, ltb,
}
use nabto_embedded_sdk.Attacher.{ipv4}
use nabto_embedded_sdk.Connections.{udp, ClientConnection}
use nabto_embedded_sdk.Connections.Dispatch.{new_connection}
use nabto_embedded_sdk.Spake2.{
  Spake2Crypto, spake2_ok, Spake2Module, max_authentication_requests, handle_coap_2,
}
use nabto_embedded_sdk.Spake2.Laws.{
  Spake2Input, input_1, input_2, input_ready, spake2_steps, handle_coap_2_iff, spake2_steps_bound,
}

-- Hashes that put a one in front, and a key of zeros.
abbrev crypto_sample : Spake2Crypto
crypto_sample = record {
  sha256 = λ bytes. take 32 (1 ∷ (bytes ++ replicate 32 0));
  is_point = λ bytes. ltb 0 (length bytes);
  calculate_key = λ point password client device. (true, 4 ∷ [], replicate 32 0);
}

abbrev connection_sample : ClientConnection
connection_sample =
    record (new_connection udp (record { ip = ipv4 (replicate 4 10); port = 5000 })
      (240 ∷ (replicate 14 7 ++ (2 ∷ []))) 2 1) { has_spake2_key = true }

abbrev handler_sample : Spake2Module
handler_sample = some 1

abbrev confirmation : List ℕ
confirmation = crypto_sample.sha256 (crypto_sample.sha256 (replicate 32 0))

handle_coap_2_iff_example :
    ((handle_coap_2 crypto_sample handler_sample (some confirmation) connection_sample).1
      ≡ spake2_ok (crypto_sample.sha256 (replicate 32 0)))
    ↔ (handler_sample ≢ none)
      × (connection_sample.password_authentication_requests < max_authentication_requests)
      × (connection_sample.has_spake2_key ≡ true)
      × (confirmation ≡ crypto_sample.sha256 (crypto_sample.sha256 connection_sample.spake2_key))
      × (crypto_sample.sha256 (replicate 32 0) ≡ crypto_sample.sha256 connection_sample.spake2_key)
unfolding new_connection
handle_coap_2_iff_example =
    handle_coap_2_iff crypto_sample handler_sample confirmation
      (crypto_sample.sha256 (replicate 32 0)) connection_sample (ground arith) (ground arith)

abbrev guesses : List Spake2Input
guesses =
    input_1 true (some (record { username = some (codes "user"); point = some (4 ∷ []) })) true
    ∷ input_ready (4 ∷ []) (some (codes "guess")) [] []
    ∷ input_2 (some confirmation)
    ∷ []

spake2_steps_bound_example :
    (spake2_steps crypto_sample handler_sample guesses connection_sample).1
    ≤ max_authentication_requests - connection_sample.password_authentication_requests
unfolding new_connection
spake2_steps_bound_example =
    spake2_steps_bound crypto_sample handler_sample guesses connection_sample (ground arith)
