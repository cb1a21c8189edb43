-- ===== src/Spake2/Laws.antt =====
-- Who is let in by a password, and how often a client can try.
use nabto_embedded_sdk.Base.{
  ℕ, ◌+◌, ◌-◌, ◌%◌, ◌^◌, ◌≤◌, ◌<◌, ◌≡◌, ◌≢◌, ◌↔◌, refl, arith, Bool, true, false, Option, none,
  some, List, [], ◌∷◌, CString, length, ◌==◌, str_eq, str_eq_iff, if◌then◌else◌, Bool-cases,
  Option-cases, inl, inr,
}
use nabto_embedded_sdk.Connections.{ClientConnection}
use nabto_embedded_sdk.Spake2.{
  Spake2Crypto, Payload, Spake2Call, spake2_error, spake2_ok, password_request,
  max_authentication_requests, Spake2Module, count_request, read_username_and_password,
  handle_coap_1, handle_coap_2, password_ready,
}

-- A confirmation of 32 bytes, while the 64 bits of the counter suffice, is accepted exactly if a
-- handler is set, the connection has made at most five requests before, its key is there, and the
-- bytes are the hash of the hash of the key; the response is then the hash of the key.
pub handle_coap_2_iff :
    (sc : Spake2Crypto) (handler : Spake2Module) (bytes answer : List ℕ) (c : ClientConnection)
    → length bytes ≡ 32
    → c.password_authentication_requests < 2 ^ 64 - 1
    → ((handle_coap_2 sc handler (some bytes) c).1 ≡ spake2_ok answer)
      ↔ (handler ≢ none)
        × (c.password_authentication_requests < max_authentication_requests)
        × (c.has_spake2_key ≡ true)
        × (bytes ≡ sc.sha256 (sc.sha256 c.spake2_key))
        × (answer ≡ sc.sha256 c.spake2_key)
unfolding handle_coap_2 count_request
handle_coap_2_iff sc none bytes answer c long small =
    (λ h. ground arith, λ (set, few, key, same, out). absurd (set refl))
handle_coap_2_iff sc (some id) bytes answer c long small =
    let counted : (c.password_authentication_requests + 1) % 2 ^ 64
        ≡ c.password_authentication_requests + 1 =
      omega (arith, small) in
    let (to_eq, of_eq) = str_eq_iff bytes (sc.sha256 (sc.sha256 c.spake2_key)) in
    elim (Bool-cases (str_eq bytes (sc.sha256 (sc.sha256 c.spake2_key)))) [
      | inl e ↦ (
        λ h. (
          λ n. ground arith,
          ground (arith, counted, h, long, e),
          ground (arith, counted, h, long, e),
          to_eq e,
          ground (arith, counted, h, long, e),
        ),
        λ (set, few, key, same, out). ground (arith, counted, long, e, few, key, out),
      )
      | inr e ↦ (
        λ h. absurd (ground (arith, counted, h, long, e)),
        λ (set, few, key, same, out). absurd (ground (arith, e, of_eq same)),
      )
    ]

-- A client that has a key of the device's, as the device calculated it, confirms it with the hash of its hash
-- while it has requests left, and gets the hash of the key.
pub password_ready-handle_coap_2 :
    (sc : Spake2Crypto) (handler : ℕ) (point client device answer key : List ℕ)
    (password : Option CString) (c : ClientConnection)
    → sc.calculate_key point password client device ≡ (true, answer, key)
    → length (sc.sha256 (sc.sha256 key)) ≡ 32
    → c.password_authentication_requests < max_authentication_requests
    → ((password_ready sc point password client device c).1 ≡ spake2_ok answer)
      × ((handle_coap_2 sc
            (some handler)
            (some (sc.sha256 (sc.sha256 key)))
            (password_ready sc point password client device c).0).1
          ≡ spake2_ok (sc.sha256 key))
unfolding password_ready handle_coap_2 count_request
password_ready-handle_coap_2 sc handler point client device answer key password c ok long few =
    let counted : (c.password_authentication_requests + 1) % 2 ^ 64
        ≡ c.password_authentication_requests + 1 =
      omega (arith, few) in
    let same = (str_eq_iff (sc.sha256 (sc.sha256 key)) (sc.sha256 (sc.sha256 key))).1 refl in
    (ground (arith, ok), ground (arith, ok, counted, long, few, same))

-- What happens to a connection.
pub data Spake2Input : Type 0 where
  input_1 : Bool → Option Payload → Bool → Spake2Input
  input_2 : Option (List ℕ) → Spake2Input
  input_ready : List ℕ → Option CString → List ℕ → List ℕ → Spake2Input

unfoldable pub spake2_step :
    Spake2Crypto → Spake2Module → Spake2Input → ClientConnection → ClientConnection × Spake2Call
spake2_step sc handler (input_1 cbor payload room) c = handle_coap_1 sc handler cbor payload room c
spake2_step sc handler (input_2 payload) c = handle_coap_2 sc handler payload c
spake2_step sc handler (input_ready point password client device) c =
    password_ready sc point password client device c

-- Whether a call answers a guess: a password is looked for, or a confirmation was right or wrong.
unfoldable pub is_attempt : Spake2Input → Spake2Call → Bool
is_attempt (input_ready point password client device) call = false
is_attempt _ (spake2_error code) = code == 401
is_attempt _ (spake2_ok bytes) = true
is_attempt _ (password_request username point) = true

unfoldable pub spake2_steps :
    Spake2Crypto → Spake2Module → List Spake2Input → ClientConnection → ClientConnection × ℕ
unfolding spake2_step is_attempt
spake2_steps sc handler [] c = (c, 0)
spake2_steps sc handler (i ∷ is) c =
    let (c', call) = spake2_step sc handler i c in
    let (c'', n) = spake2_steps sc handler is c' in (c'', (if is_attempt i call then 1 else 0) + n)

counted_bound :
    (c : ClientConnection) (is : List Spake2Input)
    → c.password_authentication_requests + (1 + length is) < 2 ^ 64
    → (count_request c).password_authentication_requests + length is < 2 ^ 64
unfolding count_request
counted_bound c is h = omega (arith, h)

-- The key changes, the count does not.
password_ready-count :
    (sc : Spake2Crypto) (point client device : List ℕ) (password : Option CString)
    (c : ClientConnection)
    → ((password_ready sc point password client device c).0.password_authentication_requests
        ≡ c.password_authentication_requests)
      × ((password_ready sc point password client device c).0.password_authenticated
          ≡ c.password_authenticated)
unfolding password_ready
password_ready-count sc point client device password c = (ground arith, ground arith)

-- One attempt, and only if a request is left.
attempt_1 :
    (sc : Spake2Crypto) (handler : Spake2Module) (cbor : Bool) (payload : Option Payload)
    (room : Bool) (c : ClientConnection)
    → (c.password_authentication_requests + 1) % 2 ^ 64 ≡ c.password_authentication_requests + 1
    → (if is_attempt (input_1 cbor payload room) (handle_coap_1 sc handler cbor payload room c).1
          then 1
          else 0)
        + (max_authentication_requests - (count_request c).password_authentication_requests)
      ≤ max_authentication_requests - c.password_authentication_requests
unfolding handle_coap_1 count_request is_attempt
attempt_1 sc none cbor payload room c h = ground (arith, h)
attempt_1 sc (some id) cbor none room c h = ground (arith, h)
attempt_1 sc (some id) cbor (some p) room c h =
    elim (Option-cases (read_username_and_password sc p)) [
      | inl e ↦ ground (arith, h, e)
      | inr ((username, point), e) ↦ ground (arith, h, e)
    ]

attempt_2 :
    (sc : Spake2Crypto) (handler : Spake2Module) (payload : Option (List ℕ)) (c : ClientConnection)
    → (c.password_authentication_requests + 1) % 2 ^ 64 ≡ c.password_authentication_requests + 1
    → (if is_attempt (input_2 payload) (handle_coap_2 sc handler payload c).1 then 1 else 0)
        + (max_authentication_requests - (count_request c).password_authentication_requests)
      ≤ max_authentication_requests - c.password_authentication_requests
unfolding handle_coap_2 count_request is_attempt
attempt_2 sc none payload c h = ground (arith, h)
attempt_2 sc (some id) none c h = ground (arith, h)
attempt_2 sc (some id) (some bytes) c h = ground (arith, h)

-- However a client asks, the passwords that are looked for and the confirmations that are compared are together
-- at most as many as it had requests left of the six, as long as the 64 bits of the counter suffice.
pub spake2_steps_bound :
    (sc : Spake2Crypto) (handler : Spake2Module) (is : List Spake2Input) (c : ClientConnection)
    → c.password_authentication_requests + length is < 2 ^ 64
    → (spake2_steps sc handler is c).1
      ≤ max_authentication_requests - c.password_authentication_requests
unfolding spake2_steps spake2_step is_attempt handle_coap_1 handle_coap_2
spake2_steps_bound sc handler [] c h = omega arith
spake2_steps_bound sc handler (input_1 cbor payload room ∷ is) c h =
    let counted : (c.password_authentication_requests + 1) % 2 ^ 64
        ≡ c.password_authentication_requests + 1 =
      omega (arith, h) in
    let rest =
      spake2_steps_bound sc handler is (count_request c) (counted_bound c is (omega (arith, h))) in
    omega (arith, attempt_1 sc handler cbor payload room c counted, rest)
spake2_steps_bound sc handler (input_2 payload ∷ is) c h =
    let counted : (c.password_authentication_requests + 1) % 2 ^ 64
        ≡ c.password_authentication_requests + 1 =
      omega (arith, h) in
    let rest =
      spake2_steps_bound sc handler is (count_request c) (counted_bound c is (omega (arith, h))) in
    omega (arith, attempt_2 sc handler payload c counted, rest)
spake2_steps_bound sc handler (input_ready point password client device ∷ is) c h =
    let rest =
      spake2_steps_bound sc handler is (password_ready sc point password client device c).0
        (omega (arith, h, (password_ready-count sc point client device password c).0)) in
    omega (arith, rest, (password_ready-count sc point client device password c).0)
