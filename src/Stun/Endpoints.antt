-- ===== src/Stun/Endpoints.antt =====
-- src/core/nc_stun_coap.c: a client asks for the addresses of the device, its local ones and the one that
-- an analysis finds. One request is answered at a time. The CBOR encoder and the CoAP server are
-- libraries of other projects: the bytes that the encoder writes for an item are a record, and whether
-- the server can hold a payload is an argument.
use nabto_embedded_sdk.Base.{
  ℕ, ◌+◌, ◌≤◌, ◌<◌, ◌≡◌, Bool, true, ◌&&◌, Option, none, some, List, [], ◌∷◌, ◌++◌, CString, codes,
  length, take, map, leb, if◌then◌else◌, ◌>>=◌,
}
use nabto_embedded_sdk.Attacher.{Ip, ipv4, ipv6, Endpoint, ErrorCode}
use nabto_embedded_sdk.Connections.Dispatch.{is_ok}
use nabto_embedded_sdk.Stun.{StunClient, Stun, StunCall, async_analyze}

-- The bytes of an item.
pub record Cbor : Type 0 where
  pub open_array : List ℕ
  pub open_map : List ℕ
  pub close_container : List ℕ
  pub text : CString → List ℕ
  pub byte_string : List ℕ → List ℕ
  pub uint : ℕ → List ℕ

-- `struct nc_stun_coap_context`: whether it is gone, and the request that waits
pub record StunCoap : Type 0 where
  pub deinitialized : Bool
  pub stun_request : Option ℕ

-- A response to a request: its code and its payload, if any.
pub data Response : Type 0 where
  respond : ℕ → ℕ → Option (List ℕ) → Response

abbrev pub endpoints_buffer_size : ℕ
endpoints_buffer_size = 128

abbrev pub max_local_ips : ℕ
max_local_ips = 2

abbrev pub bytes_of : Ip → List ℕ
bytes_of (ipv4 bytes) = bytes
bytes_of (ipv6 bytes) = bytes

unfoldable pub encode_ep : Cbor → Endpoint → List ℕ
encode_ep cb ep =
    cb.open_map
    ++ (cb.text (codes "Ip")
        ++ (cb.byte_string (bytes_of ep.ip)
            ++ (cb.text (codes "Port") ++ (cb.uint ep.port ++ cb.close_container))))

unfoldable pub encode_eps : Cbor → List Endpoint → List ℕ
unfolding encode_ep
encode_eps cb [] = cb.close_container
encode_eps cb (ep ∷ eps) = encode_ep cb ep ++ encode_eps cb eps

-- The addresses of a response: the local ones with the local port, and the one that was found; `none`
-- reads through the result of an analysis that has none.
unfoldable pub found_eps : ErrorCode → Option Endpoint → List Ip → ℕ → Option (List Endpoint)
found_eps ec res ips port =
    let here : List Endpoint =
      map (λ ip. record { ip = ip; port = port }) (take max_local_ips ips) in
    if is_ok ec then (res >>= λ ep. some (here ++ (ep ∷ []))) else some here

-- The response with a payload; `fits`: whether the server can hold it.
unfoldable pub respond_with : Bool → ℕ → List ℕ → Response
respond_with fits request payload =
    if leb (length payload) endpoints_buffer_size && fits
    then respond request 205 (some payload)
    else respond request 500 none

-- nc_rendezvous_endpoints_completed
unfoldable pub endpoints_completed :
    Cbor
    → Bool
    → List Ip
    → ℕ
    → ErrorCode
    → Option Endpoint
    → StunCoap
    → Option (StunCoap × List Response)
unfolding found_eps encode_eps respond_with
endpoints_completed cb fits ips port ec res s =
    if s.deinitialized
    then some (s, [])
    else (found_eps ec res ips port >>= λ eps. s.stun_request >>= λ request. some (
      record s { stun_request = none },
      respond_with fits request (cb.open_array ++ encode_eps cb eps) ∷ [],
    ))

abbrev pub endpoints_callback : ℕ
endpoints_callback = 0

module _ (sc : StunClient) where
  -- nc_stun_get_local_port, with the port of the socket
  local_port : ℕ → Stun sc → ℕ
  local_port port c = if c.pri_udp then port else 0

  -- nc_rendezvous_handle_coap_p2p_endpoints
  unfoldable pub handle_endpoints :
      Cbor
      → Bool
      → List Ip
      → ℕ
      → ℕ
      → Stun sc × StunCoap
      → Option (Stun sc × StunCoap × List StunCall × List Response)
  unfolding local_port endpoints_completed
  handle_endpoints cb fits ips port request (c, s) = elim s.stun_request [
    | some other ↦ some (c, s, [], respond request 412 none ∷ [])
    | none ↦
        let (ec, (c', calls)) = async_analyze sc true endpoints_callback c in
        let s' = record s { stun_request = some request } in
        if is_ok ec
        then some (c', s', calls, [])
        else (endpoints_completed cb fits ips (local_port port c') ec none s'
            >>= λ (s'', responses). some (c', s'', calls, responses))
  ]

-- The sizes of the items, as the format has them: a byte for each end of a container, one in front of a
-- short text or string, and at most three for a number of 16 bits.
pub record Sizes (cb : Cbor) : Type 0 where
  pub array : length cb.open_array ≡ 1
  pub map_size : length cb.open_map ≡ 1
  pub close_size : length cb.close_container ≡ 1
  pub text_size : (cs : CString) → length cs < 24 → length (cb.text cs) ≡ 1 + length cs
  pub bytes_size :
      (bytes : List ℕ) → length bytes < 24 → length (cb.byte_string bytes) ≡ 1 + length bytes
  pub uint_size : (n : ℕ) → n < 65536 → length (cb.uint n) ≤ 3
