-- ===== src/Device/Posted.antt =====
-- Whether the event with which the attacher ends its close is among the calls of the device.
use nabto_embedded_sdk.Base.{
  Bool-cases, ◌≡◌, refl, arith, Bool, true, false, ◌||◌, List, [], ◌∷◌, ◌++◌, any, map, any-append,
  ◌&&◌, inl, inr, if◌then◌else◌,
}
use nabto_embedded_sdk.Nn.{Nn}
use nabto_embedded_sdk.Attacher
use nabto_embedded_sdk.Attacher.{async_close, post_close_event, Attacher}
use nabto_embedded_sdk.Attacher.Closing.{is_closed_callback, is_post_close}
use nabto_embedded_sdk.Connections
use nabto_embedded_sdk.Device.{
  Dispatch, DeviceCall, attacher_call, connection_call, listen, listens, attacher_ran,
  attach_closed, udp_abort, device_closed, Device, connections_ran, client_connections_closed,
  is_all_closed,
}
use nabto_embedded_sdk.Connections.{secondary_udp, local_udp, udp}

-- The call posts the close event of the attacher.
unfoldable pub is_posted : DeviceCall → Bool
is_posted (attacher_call post_close_event) = true
is_posted _ = false

-- The connections with clients do not post it.
pub any-map-connection_call :
    (calls : List nabto_embedded_sdk.Connections.Call)
    → any is_posted (map connection_call calls) ≡ false
unfolding is_posted
any-map-connection_call [] = refl
any-map-connection_call (call ∷ calls) = any-map-connection_call calls

-- The close has posted it, or what came behind has.
pub posted_last :
    (xs ys zs : List DeviceCall) (p : Bool)
    → (any is_posted xs || any is_posted ys) ≡ p
    → (p || any is_posted zs) ≡ true
    → any is_posted (xs ++ ys ++ zs) ≡ true
posted_last xs ys zs p first later =
    ground (arith, first, later, any-append is_posted (xs ++ ys) zs, any-append is_posted xs ys)

module _ (nn : Nn) where
  any-listen :
      (a : Attacher nn) (call : nabto_embedded_sdk.Attacher.Call)
      → any is_posted (listen nn a call) ≡ is_post_close nn call
  unfolding is_posted is_post_close listen
  any-listen a call = ground arith

  -- The device passes it on.
  pub any-listens :
      (a : Attacher nn) (calls : List nabto_embedded_sdk.Attacher.Call)
      → any is_posted (listens nn a calls) ≡ any (is_post_close nn) calls
  unfolding listens
  any-listens a [] = refl
  any-listens a (call ∷ calls) = ground (
    arith,
    any-append is_posted (listen nn a call) (listens nn a calls),
    any-listen a call,
    any-listens a calls,
  )

  -- What the device does when the attacher has closed does not post it.
  pub any-attacher_ran :
      (a : Attacher nn) (calls : List nabto_embedded_sdk.Attacher.Call) (d : Device nn)
      → any is_posted (attacher_ran nn (a, calls) d).1 ≡ any (is_post_close nn) calls
  unfolding attacher_ran attach_closed is_posted
  any-attacher_ran a calls d = elim (Bool-cases (any (is_closed_callback nn) calls)) [
    | inl e ↦ ground (
      arith,
      e,
      any-append is_posted (listens nn a calls) (
          udp_abort udp
          ∷ udp_abort local_udp
          ∷ udp_abort secondary_udp
          ∷ (if d.close_cb then device_closed ∷ [] else [])),
      any-listens a calls,
    )
    | inr e ↦ ground (arith, e, any-append is_posted (listens nn a calls) [], any-listens a calls)
  ]

  -- When the last connection has closed, the attacher closes.
  pub any-connections_ran :
      (slots : Dispatch) (calls : List nabto_embedded_sdk.Connections.Call) (d : Device nn)
      → any is_posted (connections_ran nn (slots, calls) d).1
        ≡ (any is_all_closed calls && any (is_post_close nn) (async_close nn d.attacher).1)
  unfolding connections_ran client_connections_closed
  any-connections_ran slots calls d =
      let none_posted = any-map-connection_call calls in
      let d' : Device nn = record d { connections = slots } in
      elim (Bool-cases (any is_all_closed calls)) [
        | inl e ↦ ground (
          arith,
          e,
          none_posted,
          any-append is_posted (map connection_call calls)
              (attacher_ran nn (async_close nn d.attacher) d').1,
          any-attacher_ran (async_close nn d.attacher).0 (async_close nn d.attacher).1 d',
        )
        | inr e ↦
            ground (arith, e, none_posted, any-append is_posted (map connection_call calls) [])
      ]
