-- ===== src/Stun/Idle.antt =====
-- Nobody waits for an analysis that is not under way.
use nabto_embedded_sdk.Base.{
  CString, ℕ, ◌≡◌, ◌⊎◌, inl, inr, refl, Bool, true, false, some, [], Option-cases, Bool-cases,
}
use nabto_embedded_sdk.Attacher.{aborted, no_valid_endpoints, udp_socket_error, ec_ok, unknown}
use nabto_embedded_sdk.Stun.{
  remove_sockets, set_host, set_sockets, convert_ep_list, is_ok, secondary_udp, udp, Socket,
  StunEvent, et_send_primary, et_send_secondary, et_wait, et_no_event, et_completed, et_failed,
  StunClient, stun_done, add_callback, Stun, is_aborted, is_running, async_analyze,
  resolve_callbacks, send_event, by_event, stun_event, stun_packet, dns_cb, handle_timeout,
}
use nabto_embedded_sdk.Stun.Callbacks.{
  waiting, call_all-waiting, StunInput, input_packet, input_dns, input_sent, input_timeout,
  stun_step,
}

module _ (sc : StunClient) where
  -- Nobody waits unless an analysis is under way or the context is gone.
  pub IsIdle : Stun sc → Type 0
  IsIdle c = (is_running c.state ≡ true) ⊎ (is_aborted c.state ≡ true) ⊎ (waiting c.cbs ≡ [])

  resolve_callbacks-IsIdle : (c : Stun sc) → IsIdle (resolve_callbacks sc c).0
  unfolding IsIdle resolve_callbacks
  resolve_callbacks-IsIdle c = inr (inr (call_all-waiting c.ec c.res c.cbs))

  send_event-IsIdle :
      (ready : Bool) (sock : Socket) (c : Stun sc)
      → IsIdle c
      → IsIdle (send_event sc ready sock c).0
  unfolding IsIdle send_event
  send_event-IsIdle false sock c h = resolve_callbacks-IsIdle (record c { ec = udp_socket_error })
  send_event-IsIdle true sock c h = elim (Option-cases (sc.data_endpoint c.client)) [
    | inl e ↦ rw (e, send_event) (resolve_callbacks-IsIdle (record c { ec = no_valid_endpoints }))
    | inr (ep, e) ↦ rw (e, send_event) h
  ]

  by_event-IsIdle : (event : StunEvent) (c : Stun sc) → IsIdle c → IsIdle (by_event sc event c).0
  unfolding IsIdle by_event
  by_event-IsIdle et_send_primary c h = send_event-IsIdle c.pri_udp udp c h
  by_event-IsIdle et_send_secondary c h = send_event-IsIdle c.sec_udp secondary_udp c h
  by_event-IsIdle et_wait c h = h
  by_event-IsIdle et_no_event c h = h
  by_event-IsIdle et_completed c h =
      resolve_callbacks-IsIdle
        (record c { state = stun_done; ec = ec_ok; res = some (sc.result c.client) })
  by_event-IsIdle et_failed c h = resolve_callbacks-IsIdle (record c { ec = unknown })

  stun_event-IsIdle : (c : Stun sc) → IsIdle c → IsIdle (stun_event sc c).0
  unfolding IsIdle stun_event
  stun_event-IsIdle c h =
      by_event-IsIdle (sc.next_event c.client).0 (record c { client = (sc.next_event c.client).1 })
        h

  stun_step-IsIdle : (i : StunInput sc) (c : Stun sc) → IsIdle c → IsIdle (stun_step sc i c).0
  unfolding IsIdle stun_step stun_packet dns_cb handle_timeout
  stun_step-IsIdle (input_packet buffer) c h = elim (Bool-cases (is_aborted c.state)) [
    | inl e ↦ rw (e, stun_packet) h
    | inr e ↦
        rw (e, stun_packet)
          (stun_event-IsIdle (record c { client = sc.packet_in buffer c.client }) h)
  ]
  stun_step-IsIdle (input_dns ec ips) c h = elim (Bool-cases (is_aborted c.state)) [
    | inl e ↦ rw (e, dns_cb) (resolve_callbacks-IsIdle (record c { ec = aborted }))
    | inr e ↦ elim (Bool-cases (is_ok ec)) [
      | inl f ↦
          rw (e, dns_cb)
            (rw f (
              stun_event-IsIdle
                (record c {
                  client = sc.stun_analyze c.simple (sc.stun_init (convert_ep_list ips c.pri_port));
                })
                h))
      | inr f ↦
          rw (e, dns_cb) (rw f (resolve_callbacks-IsIdle (record c { state = stun_done; ec = ec })))
    ]
  ]
  stun_step-IsIdle input_sent c h = stun_event-IsIdle c h
  stun_step-IsIdle input_timeout c h =
      stun_event-IsIdle (record c { client = sc.wait_event c.client }) h

  async_analyze-IsIdle :
      (simple : Bool) (cb : ℕ) (c : Stun sc) → IsIdle c → IsIdle (async_analyze sc simple cb c).1.0
  unfolding IsIdle async_analyze
  async_analyze-IsIdle simple cb c h = elim (Bool-cases (is_aborted c.state)) [
    | inl e ↦ rw (e, async_analyze) h
    | inr e ↦ elim (Option-cases c.hostname) [
      | inl f ↦ rw (e, async_analyze) (rw f h)
      | inr (hostname, f) ↦ elim (Option-cases (add_callback cb c.cbs)) [
        | inl g ↦ rw (e, async_analyze) (rw f (rw g h))
        | inr (cbs, g) ↦ elim (Bool-cases (is_running c.state)) [
          | inl running ↦ rw (e, async_analyze) (rw f (rw g (rw running (inl running))))
          | inr idle ↦ rw (e, async_analyze) (rw f (rw g (rw idle (inl refl))))
        ]
      ]
    ]
  ]

  -- A context that callers ask, to which things happen, and whose sockets and host are set and removed.
  pub data Stuns : Stun sc → Stun sc → Type 0 where
    stuns_here : {c : Stun sc} → Stuns c c
    stuns_analyze :
        {c d : Stun sc} (simple : Bool) (cb : ℕ)
        → Stuns c d
        → Stuns c (async_analyze sc simple cb d).1.0
    stuns_step : {c d : Stun sc} (i : StunInput sc) → Stuns c d → Stuns c (stun_step sc i d).0
    stuns_sockets : {c d : Stun sc} → Stuns c d → Stuns c (set_sockets sc d)
    stuns_no_sockets : {c d : Stun sc} → Stuns c d → Stuns c (remove_sockets sc d)
    stuns_host :
        {c d : Stun sc} (hostname : CString) (port : ℕ)
        → Stuns c d
        → Stuns c (set_host sc hostname port d)

  -- Starting from a context in which nobody waits, in whatever order callers ask, things happen, and
  -- the sockets and the host are set: when no analysis is under way and the context is not gone, nobody waits.
  pub Stuns-IsIdle : (c d : Stun sc) → waiting c.cbs ≡ [] → Stuns c d → IsIdle d
  unfolding IsIdle set_sockets set_host remove_sockets
  Stuns-IsIdle c _ h stuns_here = inr (inr h)
  Stuns-IsIdle c _ h (stuns_analyze {d = d} simple cb r) =
      async_analyze-IsIdle simple cb d (Stuns-IsIdle c d h r)
  Stuns-IsIdle c _ h (stuns_step {d = d} i r) = stun_step-IsIdle i d (Stuns-IsIdle c d h r)
  Stuns-IsIdle c _ h (stuns_sockets {d = d} r) = Stuns-IsIdle c d h r
  Stuns-IsIdle c _ h (stuns_no_sockets {d = d} r) = Stuns-IsIdle c d h r
  Stuns-IsIdle c _ h (stuns_host {d = d} hostname port r) = Stuns-IsIdle c d h r
