-- ===== src/Stun/Responses.antt =====
-- The response with the addresses of the device fits the buffer that it is encoded into.
use nabto_embedded_sdk.Base.{
  ℕ, zero, suc, ◌+◌, ◌*◌, ◌≤◌, ◌<◌, ◌≡◌, refl, ap, arith, Bool, false, Option, none, some, List, [],
  ◌∷◌, ◌++◌, codes, length, length-append, Option-cases, inl, inr, take, map, if◌then◌else◌,
}
use nabto_embedded_sdk.Attacher.{Ip, Endpoint, ErrorCode}
use nabto_embedded_sdk.Stun.Endpoints.{
  Cbor, Sizes, StunCoap, respond, max_local_ips, bytes_of, encode_ep, encode_eps, found_eps,
  respond_with, endpoints_completed,
}

-- An address of 4 or 16 bytes with a port of 16 bits.
unfoldable pub IsEndpoint : Endpoint → Type 0
IsEndpoint ep = (length (bytes_of ep.ip) ≤ 16) × (ep.port < 65536)

unfoldable pub AllEndpoints : List Endpoint → Type 0
AllEndpoints [] = Unit
AllEndpoints (ep ∷ eps) = IsEndpoint ep × AllEndpoints eps

module _ (cb : Cbor) (sizes : Sizes cb) where
  length-encode_ep : (ep : Endpoint) → IsEndpoint ep → length (encode_ep cb ep) ≤ 30
  unfolding encode_ep IsEndpoint
  length-encode_ep ep (short, small) =
      let bytes = sizes.bytes_size (bytes_of ep.ip) (ground (arith, short)) in
      let name = sizes.text_size (codes "Ip") (ground arith) in
      let port_name = sizes.text_size (codes "Port") (ground arith) in
      let port = sizes.uint_size ep.port small in
      let tail = length-append (cb.uint ep.port) cb.close_container in
      let tail2 = length-append (cb.text (codes "Port")) (cb.uint ep.port ++ cb.close_container) in
      let tail3 =
        length-append (cb.byte_string (bytes_of ep.ip))
          (cb.text (codes "Port") ++ (cb.uint ep.port ++ cb.close_container)) in
      let tail4 = length-append (cb.text (codes "Ip")) (
        cb.byte_string (bytes_of ep.ip)
        ++ (cb.text (codes "Port") ++ (cb.uint ep.port ++ cb.close_container))) in
      let all = length-append cb.open_map (
        cb.text (codes "Ip")
        ++ (cb.byte_string (bytes_of ep.ip)
            ++ (cb.text (codes "Port") ++ (cb.uint ep.port ++ cb.close_container)))) in
      omega (
        arith, sizes.map_size, sizes.close_size, short, bytes, name, port_name, port, tail, tail2,
        tail3, tail4, all,
      )

  length-encode_eps :
      (eps : List Endpoint) → AllEndpoints eps → length (encode_eps cb eps) ≤ 1 + 30 * length eps
  unfolding encode_eps AllEndpoints
  length-encode_eps [] h = omega (arith, sizes.close_size)
  length-encode_eps (ep ∷ eps) (h, k) = omega (
    arith,
    length-append (encode_ep cb ep) (encode_eps cb eps),
    length-encode_ep ep h,
    length-encode_eps eps k,
  )

-- There are at most three addresses.
length-take : (n : ℕ) (ips : List Ip) → length (take n ips) ≤ n
length-take zero ips = ground arith
length-take (suc n) [] = ground arith
length-take (suc n) (ip ∷ ips) = ground (arith, length-take n ips)

length-map : (f : Ip → Endpoint) (ips : List Ip) → length (map f ips) ≡ length ips
length-map f [] = refl
length-map f (ip ∷ ips) = ap suc (length-map f ips)

found_eps_bound :
    (ec : ErrorCode) (res : Option Endpoint) (ips : List Ip) (port : ℕ) (eps : List Endpoint)
    → found_eps ec res ips port ≡ some eps
    → length eps ≤ 3
unfolding found_eps
found_eps_bound ec res ips port eps h =
    let here : List Endpoint =
      map (λ ip. record { ip = ip; port = port }) (take max_local_ips ips) in
    let few : length here ≤ 2 = omega (
      arith,
      length-take 2 ips,
      length-map (λ ip. record { ip = ip; port = port }) (take max_local_ips ips),
    ) in
    elim (Option-cases res) [
      | inl e ↦ ground (arith, few, e, h)
      | inr (ep, e) ↦ ground (arith, few, e, h, length-append here (ep ∷ []))
    ]

-- A request waits and the analysis has ended, with a result if it succeeded. Then the addresses fit the
-- buffer, if each has at most 16 bytes and a port of 16 bits: the request is answered with all of them and
-- waits no longer, if the server can hold the payload, and with an error else.
pub endpoints_completed_lem :
    (cb : Cbor) (sizes : Sizes cb) (fits : Bool) (ips : List Ip) (port : ℕ) (ec : ErrorCode)
    (res : Option Endpoint) (s : StunCoap) (request : ℕ) (eps : List Endpoint)
    → s.deinitialized ≡ false
    → s.stun_request ≡ some request
    → found_eps ec res ips port ≡ some eps
    → AllEndpoints eps
    → endpoints_completed cb fits ips port ec res s
      ≡ some (
        record s { stun_request = none },
        (if fits
              then respond request 205 (some (cb.open_array ++ encode_eps cb eps))
              else respond request 500 none)
            ∷ [],
      )
unfolding endpoints_completed respond_with
endpoints_completed_lem cb sizes fits ips port ec res s request eps d r f h =
    let size : length (cb.open_array ++ encode_eps cb eps) ≤ 92 = omega (
      arith,
      sizes.array,
      length-append cb.open_array (encode_eps cb eps),
      length-encode_eps cb sizes eps h,
      found_eps_bound ec res ips port eps f,
    ) in
    ground (arith, d, r, f, size)
