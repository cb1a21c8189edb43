-- ===== src/Stun/Callbacks.antt =====
-- Who waits for the result of an analysis: a callback gets a place and is called once.
use nabto_embedded_sdk.Base.{
  ◌<◌, ◌≤◌, ℕ, ◌+◌, ◌≡◌, ◌≢◌, ◌⊎◌, inl, inr, refl, ap, ◌∙◌, arith, Bool, true, false, Option, none,
  some, List, [], ◌∷◌, length, map, Option-cases, Bool-cases,
}
use nabto_embedded_sdk.Attacher.{
  aborted, no_valid_endpoints, udp_socket_error, Ip, Endpoint, ErrorCode, ec_ok, unknown,
}
use nabto_embedded_sdk.Stun.{
  convert_ep_list, is_ok, secondary_udp, udp, Socket, StunEvent, et_send_primary, et_send_secondary,
  et_wait, et_no_event, et_completed, et_failed, StunClient, stun_done, StunCall, analysed,
  add_callback, call_all, Stun, StunRun, is_aborted, async_analyze, resolve_callbacks, send_event,
  by_event, stun_event, stun_packet, dns_cb, handle_timeout,
}

-- The callbacks that wait, in the order of their places.
unfoldable pub waiting : List (Option ℕ) → List ℕ
waiting [] = []
waiting (none ∷ cbs) = waiting cbs
waiting (some id ∷ cbs) = id ∷ waiting cbs

-- The callbacks that the calls are to.
pub called : List StunCall → List ℕ
called [] = []
called (analysed ec res id ∷ calls) = id ∷ called calls
called (_ ∷ calls) = called calls

pub call_all-waiting :
    (ec : ErrorCode) (res : Option Endpoint) (cbs : List (Option ℕ))
    → waiting (call_all ec res cbs).0 ≡ []
unfolding waiting call_all
call_all-waiting ec res [] = refl
call_all-waiting ec res (none ∷ cbs) = call_all-waiting ec res cbs
call_all-waiting ec res (some id ∷ cbs) = call_all-waiting ec res cbs

call_all-called :
    (ec : ErrorCode) (res : Option Endpoint) (cbs : List (Option ℕ))
    → (call_all ec res cbs).1 ≡ map (analysed ec res) (waiting cbs)
unfolding waiting call_all
call_all-called ec res [] = refl
call_all-called ec res (none ∷ cbs) = call_all-called ec res cbs
call_all-called ec res (some id ∷ cbs) =
    ap (λ calls. analysed ec res id ∷ calls) (call_all-called ec res cbs)

called-map :
    (ec : ErrorCode) (res : Option Endpoint) (ids : List ℕ)
    → called (map (analysed ec res) ids) ≡ ids
unfolding called
called-map ec res [] = refl
called-map ec res (id ∷ ids) = ap (λ rest. id ∷ rest) (called-map ec res ids)

waiting-bound : (cbs : List (Option ℕ)) → length (waiting cbs) ≤ length cbs
unfolding waiting
waiting-bound [] = ground arith
waiting-bound (none ∷ cbs) = ground (arith, waiting-bound cbs)
waiting-bound (some id ∷ cbs) = ground (arith, waiting-bound cbs)

add_callback-waiting :
    (cb : ℕ) (cbs later : List (Option ℕ))
    → add_callback cb cbs ≡ some later
    → (length (waiting cbs) < length cbs) × (length (waiting later) ≡ 1 + length (waiting cbs))
unfolding add_callback waiting
add_callback-waiting cb [] later h = ground arith
add_callback-waiting cb (none ∷ cbs) later h = ground (arith, h, waiting-bound cbs)
add_callback-waiting cb (some other ∷ cbs) later h = elim (Option-cases (add_callback cb cbs)) [
  | inl e ↦ ground (arith, e, h)
  | inr (cbs', e) ↦ ground (arith, e, h, add_callback-waiting cb cbs cbs' e)
]

add_callback-none :
    (cb : ℕ) (cbs : List (Option ℕ))
    → add_callback cb cbs ≡ none
    → length (waiting cbs) ≡ length cbs
unfolding add_callback waiting
add_callback-none cb [] h = refl
add_callback-none cb (none ∷ cbs) h = ground arith
add_callback-none cb (some other ∷ cbs) h = elim (Option-cases (add_callback cb cbs)) [
  | inl e ↦ ground (arith, add_callback-none cb cbs e)
  | inr (cbs', e) ↦ ground (arith, e, h)
]

-- All that wait are called, with one code and result, or none is.
pub AllOrNone : List (Option ℕ) → List (Option ℕ) → List StunCall → Type 0
AllOrNone before after calls =
    ((after ≡ before) × (called calls ≡ []))
    ⊎ ((waiting after ≡ []) × (called calls ≡ waiting before))

module _ (sc : StunClient) where
  -- What happens to the context but for new callers.
  pub data StunInput : Type 0 where
    input_packet : List ℕ → StunInput
    input_dns : ErrorCode → List Ip → StunInput
    input_sent input_timeout : StunInput

  unfoldable pub stun_step : StunInput → Stun sc → StunRun sc
  stun_step (input_packet buffer) c = stun_packet sc buffer c
  stun_step (input_dns ec ips) c = dns_cb sc ec ips c
  stun_step input_sent c = stun_event sc c
  stun_step input_timeout c = handle_timeout sc c

  resolve_callbacks-AllOrNone :
      (c : Stun sc) → AllOrNone c.cbs (resolve_callbacks sc c).0.cbs (resolve_callbacks sc c).1
  unfolding AllOrNone resolve_callbacks
  resolve_callbacks-AllOrNone c = inr (
    call_all-waiting c.ec c.res c.cbs,
    ap called (call_all-called c.ec c.res c.cbs) ∙ called-map c.ec c.res (waiting c.cbs),
  )

  send_event-AllOrNone :
      (ready : Bool) (sock : Socket) (c : Stun sc)
      → AllOrNone c.cbs (send_event sc ready sock c).0.cbs (send_event sc ready sock c).1
  unfolding AllOrNone send_event called
  send_event-AllOrNone false sock c =
      resolve_callbacks-AllOrNone (record c { ec = udp_socket_error })
  send_event-AllOrNone true sock c = elim (Option-cases (sc.data_endpoint c.client)) [
    | inl e ↦
        rw (e, send_event) (resolve_callbacks-AllOrNone (record c { ec = no_valid_endpoints }))
    | inr (ep, e) ↦ rw (e, send_event) (inl (refl, refl))
  ]

  by_event-AllOrNone :
      (event : StunEvent) (c : Stun sc)
      → AllOrNone c.cbs (by_event sc event c).0.cbs (by_event sc event c).1
  unfolding AllOrNone by_event called
  by_event-AllOrNone et_send_primary c = send_event-AllOrNone c.pri_udp udp c
  by_event-AllOrNone et_send_secondary c = send_event-AllOrNone c.sec_udp secondary_udp c
  by_event-AllOrNone et_wait c = inl (refl, refl)
  by_event-AllOrNone et_no_event c = inl (refl, refl)
  by_event-AllOrNone et_completed c =
      resolve_callbacks-AllOrNone
        (record c { state = stun_done; ec = ec_ok; res = some (sc.result c.client) })
  by_event-AllOrNone et_failed c = resolve_callbacks-AllOrNone (record c { ec = unknown })

  stun_event-AllOrNone : (c : Stun sc) → AllOrNone c.cbs (stun_event sc c).0.cbs (stun_event sc c).1
  unfolding AllOrNone stun_event called
  stun_event-AllOrNone c =
      by_event-AllOrNone (sc.next_event c.client).0
        (record c { client = (sc.next_event c.client).1 })

  -- Whatever happens to the context, but for new callers: no callback that waits is called and all keep
  -- their places, or each that waits is called once, in the order of their places, and none waits then.
  pub stun_step-AllOrNone :
      (i : StunInput) (c : Stun sc) → AllOrNone c.cbs (stun_step i c).0.cbs (stun_step i c).1
  unfolding AllOrNone stun_step stun_packet dns_cb handle_timeout called
  stun_step-AllOrNone (input_packet buffer) c = elim (Bool-cases (is_aborted c.state)) [
    | inl e ↦ rw (e, stun_packet) (inl (refl, refl))
    | inr e ↦
        rw (e, stun_packet)
          (stun_event-AllOrNone (record c { client = sc.packet_in buffer c.client }))
  ]
  stun_step-AllOrNone (input_dns ec ips) c = elim (Bool-cases (is_aborted c.state)) [
    | inl e ↦ rw (e, dns_cb) (resolve_callbacks-AllOrNone (record c { ec = aborted }))
    | inr e ↦ elim (Bool-cases (is_ok ec)) [
      | inl f ↦
          rw (e, dns_cb)
            (rw f (
              stun_event-AllOrNone (record c {
                client = sc.stun_analyze c.simple (sc.stun_init (convert_ep_list ips c.pri_port));
              })))
      | inr f ↦
          rw (e, dns_cb)
            (rw f (resolve_callbacks-AllOrNone (record c { state = stun_done; ec = ec })))
    ]
  ]
  stun_step-AllOrNone input_sent c = stun_event-AllOrNone c
  stun_step-AllOrNone input_timeout c =
      stun_event-AllOrNone (record c { client = sc.wait_event c.client })

  -- Whether a caller gets a place: the context is not gone, the host is known, and fewer wait than there
  -- are places. Then one more waits; else nothing changes and no call is made.
  pub async_analyze_lem :
      (simple : Bool) (cb : ℕ) (c : Stun sc)
      → (((async_analyze sc simple cb c).0 ≡ ec_ok)
          × (is_aborted c.state ≡ false)
          × (c.hostname ≢ none)
          × (length (waiting c.cbs) < length c.cbs)
          × (length (waiting (async_analyze sc simple cb c).1.0.cbs) ≡ 1 + length (waiting c.cbs)))
        ⊎ (((async_analyze sc simple cb c).0 ≢ ec_ok)
            × ((is_aborted c.state ≡ true)
                ⊎ (c.hostname ≡ none)
                ⊎ (length (waiting c.cbs) ≡ length c.cbs))
            × ((async_analyze sc simple cb c).1 ≡ (c, [])))
  unfolding async_analyze
  async_analyze_lem simple cb c = elim (Bool-cases (is_aborted c.state)) [
    | inl e ↦ rw (e, async_analyze) (inr (ground arith, inl refl, refl))
    | inr e ↦ elim (Option-cases c.hostname) [
      | inl f ↦ inr (ground (arith, e, f), inr (inl f), ground (arith, e, f))
      | inr (hostname, f) ↦ elim (Option-cases (add_callback cb c.cbs)) [
        | inl g ↦ inr (
          ground (arith, e, f, g),
          inr (inr (add_callback-none cb c.cbs g)),
          ground (arith, e, f, g),
        )
        | inr (cbs, g) ↦
            let (room, more) = add_callback-waiting cb c.cbs cbs g in
            inl (ground (arith, e, f, g), e, ground (arith, f), room, ground (arith, e, f, g, more))
      ]
    ]
  ]
