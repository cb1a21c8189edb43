-- ===== src/Spake2.antt =====
-- src/core/nc_spake2.c and nc_spake2_coap.c: the authentication of a client of a connection by a
-- password. The cryptography, the CBOR reader and the CoAP server are libraries of other projects: the
-- record `Spake2Crypto`, and what the reader finds in a payload as an argument. The handler that looks for
-- a password is called; it answers later with `password_ready`.
pub mod Laws
mod Tests
use nabto_embedded_sdk.Base.{
  ℕ, ◌+◌, ◌%◌, ◌^◌, Bool, true, false, not, ◌&&◌, Option, none, some, List, [], ◌∷◌, CString,
  length, ltb, leb, ◌==◌, str_eq, if◌then◌else◌,
}
use nabto_embedded_sdk.Attacher.{ErrorCode, ec_ok, in_use}
use nabto_embedded_sdk.Connections.{ClientConnection}

-- `mbedtls_sha256_ret`, whether the bytes are a point of the curve, and calculateKey with the encoding of
-- its point: whether it succeeded, the encoded point and the key, which is stored in either case. Without a
-- password it takes a random hash in place of the password's.
pub record Spake2Crypto : Type 0 where
  pub sha256 : List ℕ → List ℕ
  pub is_point : List ℕ → Bool
  pub calculate_key : List ℕ → Option CString → List ℕ → List ℕ → Bool × List ℕ × List ℕ

-- What the reader finds at the two keys of a payload: a text and a byte string, or something else.
pub record Payload : Type 0 where
  pub username : Option CString
  pub point : Option (List ℕ)

pub data Spake2Call : Type 0 where
  spake2_error : ℕ → Spake2Call
  spake2_ok : List ℕ → Spake2Call
  password_request : CString → List ℕ → Spake2Call

abbrev pub username_max_length : ℕ
username_max_length = 32

abbrev pub max_authentication_requests : ℕ
max_authentication_requests = 6

-- `struct nc_spake2_module`: the handler that is set, by its number
abbrev pub Spake2Module : Type 0
Spake2Module = Option ℕ

pub set_password_request_callback : ℕ → Spake2Module → ErrorCode × Spake2Module
set_password_request_callback handler (some other) = (in_use, some other)
set_password_request_callback handler none = (ec_ok, some handler)

pub clear_password_request_callback : Spake2Module → Spake2Module
clear_password_request_callback handler = none

-- Another request of the connection; the counter has 64 bits.
unfoldable pub count_request : ClientConnection → ClientConnection
count_request c = record c {
  password_authentication_requests = (c.password_authentication_requests + 1) % 2 ^ 64;
}

unfoldable pub read_group_element : Spake2Crypto → Option (List ℕ) → Option (List ℕ)
read_group_element sc none = none
read_group_element sc (some bytes) =
    if leb (length bytes) 256 && sc.is_point bytes then some bytes else none

unfoldable pub read_text_string : Option CString → Option CString
read_text_string none = none
read_text_string (some cs) = if leb (length cs) username_max_length then some cs else none

unfoldable pub read_username_and_password : Spake2Crypto → Payload → Option (CString × List ℕ)
unfolding read_group_element read_text_string
read_username_and_password sc p = elim (read_group_element sc p.point) [
  | none ↦ none
  | some point ↦ elim (read_text_string p.username) [
    | none ↦ none
    | some username ↦ some (username, point)
  ]
]

-- nc_spake2_handle_coap_1; `cbor`: whether the content format is that of CBOR, `room`: whether there is
-- memory for a request
unfoldable pub handle_coap_1 :
    Spake2Crypto
    → Spake2Module
    → Bool
    → Option Payload
    → Bool
    → ClientConnection
    → ClientConnection × Spake2Call
unfolding count_request read_username_and_password
handle_coap_1 sc handler cbor payload room c =
    let c' = count_request c in
    (
      c',
      elim handler [
        | none ↦ spake2_error 404
        | some id ↦
            if ltb max_authentication_requests c'.password_authentication_requests
            then spake2_error 429
            else if not cbor
            then spake2_error 415
            else elim payload [
              | none ↦ spake2_error 400
              | some p ↦
                  if not room then spake2_error 500 else elim (read_username_and_password sc p) [
                    | none ↦ spake2_error 400
                    | some (username, point) ↦ password_request username point
                  ]
            ]
      ],
    )

-- nc_spake2_handle_coap_2
unfoldable pub handle_coap_2 :
    Spake2Crypto → Spake2Module → Option (List ℕ) → ClientConnection → ClientConnection × Spake2Call
unfolding count_request
handle_coap_2 sc handler payload c =
    let c' = count_request c in
    (
      c',
      elim handler [
        | none ↦ spake2_error 404
        | some id ↦
            if ltb max_authentication_requests c'.password_authentication_requests
            then spake2_error 429
            else elim payload [
              | none ↦ spake2_error 400
              | some bytes ↦
                  if not (length bytes == 32)
                  then spake2_error 400
                  else if not c.has_spake2_key
                  then spake2_error 400
                  else if not (str_eq bytes (sc.sha256 (sc.sha256 c.spake2_key)))
                  then spake2_error 401
                  else spake2_ok (sc.sha256 c.spake2_key)
            ]
      ],
    )

-- nc_spake2_password_ready on a connection that is still there, with the two fingerprints; the password is `none`
-- if the pointer is null
unfoldable pub password_ready :
    Spake2Crypto
    → List ℕ
    → Option CString
    → List ℕ
    → List ℕ
    → ClientConnection
    → ClientConnection × Spake2Call
password_ready sc point password client device c =
    let (ok, answer, key) = sc.calculate_key point password client device in
    if ok
    then (record c { spake2_key = key; has_spake2_key = true }, spake2_ok answer)
    else (record c { spake2_key = key }, spake2_error 500)
