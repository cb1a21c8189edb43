-- ===== src/Stun/Failure.antt =====
-- An analysis that fails leaves the context as if it were still under way.
use nabto_embedded_sdk.Base.{
  ℕ, ◌<◌, ◌≡◌, refl, arith, Bool, true, Option, none, some, List, [], ◌∷◌, CString, length,
}
use nabto_embedded_sdk.Attacher.{Ip, Endpoint, ErrorCode, ec_ok, unknown}
use nabto_embedded_sdk.Connections.Dispatch.{is_ok}
use nabto_embedded_sdk.Stun.{
  StunClient, et_failed, stun_running, add_callback, call_all, Stun, is_aborted, is_running,
  async_analyze, resolve_callbacks, by_event, stun_event,
}
use nabto_embedded_sdk.Stun.Endpoints.{
  Cbor, StunCoap, respond, endpoints_callback, handle_endpoints,
}

-- A place is free in what `call_all` leaves.
add_callback-call_all :
    (cb : ℕ) (ec : ErrorCode) (res : Option Endpoint) (cbs : List (Option ℕ))
    → 0 < length cbs
    → (later : List (Option ℕ)) × (add_callback cb (call_all ec res cbs).0 ≡ some later)
unfolding add_callback call_all
add_callback-call_all cb ec res [] h = ground arith
add_callback-call_all cb ec res (none ∷ cbs) h = (some cb ∷ (call_all ec res cbs).0, refl)
add_callback-call_all cb ec res (some id ∷ cbs) h = (some cb ∷ (call_all ec res cbs).0, refl)

module _ (sc : StunClient) where
  analyze_after_failure :
      (simple : Bool) (cb : ℕ) (c : Stun sc) (hostname : CString)
      → (sc.next_event c.client).0 ≡ et_failed
      → c.state ≡ stun_running
      → c.hostname ≡ some hostname
      → 0 < length c.cbs
      → (cbs : List (Option ℕ)) × (async_analyze sc simple cb (stun_event sc c).0
          ≡ (ec_ok, (record (stun_event sc c).0 { cbs = cbs }, [])))
  unfolding stun_event by_event resolve_callbacks async_analyze is_aborted is_running
  analyze_after_failure simple cb c hostname failed running host room =
      let (cbs, free) = add_callback-call_all cb unknown c.res c.cbs room in
      (cbs, ground (arith, failed, running, host, free))

  -- The context is analysing, its host is known, it has a place for a callback, and the STUN client
  -- reports that the analysis failed. Then the next request for the addresses of the device is taken, but no
  -- analysis is started, no call is made and no response is sent; and while it waits each request after it is
  -- answered with 4.12 and changes nothing.
  pub request_after_failure :
      (cb : Cbor) (fits : Bool) (ips : List Ip) (port request next : ℕ) (c : Stun sc) (s : StunCoap)
      (hostname : CString)
      → (sc.next_event c.client).0 ≡ et_failed
      → c.state ≡ stun_running
      → c.hostname ≡ some hostname
      → 0 < length c.cbs
      → s.stun_request ≡ none
      → (d : Stun sc) × (handle_endpoints sc cb fits ips port request ((stun_event sc c).0, s)
          ≡ some (d, record s { stun_request = some request }, [], []))
        × (handle_endpoints sc cb fits ips port next (d, record s { stun_request = some request })
            ≡ some (d, record s { stun_request = some request }, [], respond next 412 none ∷ []))
  unfolding handle_endpoints is_ok
  request_after_failure cb fits ips port request next c s hostname failed running host room free =
      let (cbs, e) =
        analyze_after_failure true endpoints_callback c hostname failed running host room in
      (record (stun_event sc c).0 { cbs = cbs }, ground (arith, e, free), refl)
