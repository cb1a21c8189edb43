-- ===== src/Device/Closing.antt =====
-- Closing the device: the connections with clients first, then the attacher, then the sockets.
use nabto_embedded_sdk.Base.{
  map, ℕ, ◌≡◌, refl, arith, true, false, not, ◌&&◌, ◌||◌, Option, some, List, [], ◌∷◌, ◌++◌, any,
  ◌∙◌, any-append, >>=-eq-some, Option-cases, inl, inr, ◌>>=◌,
}
use nabto_embedded_sdk.Nn.{Nn}
use nabto_embedded_sdk.Attacher.{Call, State, closed, running, Attacher, async_close, resolve_close}
use nabto_embedded_sdk.Attacher.Closing.{
  is_post_close, is_closed_callback, Ends, steps_ended, steps-close_input,
}
use nabto_embedded_sdk.Attacher.Events.{Input, close_input, close_event, step, steps}
use nabto_embedded_sdk.Device.Destroys.{destroys, Closing, async_close-quiet, destroys-Closing}
use nabto_embedded_sdk.Device.Posted.{
  posted_last, any-attacher_ran, is_posted, any-map-connection_call,
}
use nabto_embedded_sdk.Connections.{udp, local_udp, secondary_udp}
use nabto_embedded_sdk.Connections.Dispatch.{is_active, dispatch_async_close}
use nabto_embedded_sdk.Device.{
  device_stopped, connection_call, device_running, DeviceCall, device_closed, udp_abort, Device,
  DeviceRun, attach_closed, attacher_ran, device_attacher, client_connections_closed, device_close,
  listens,
}

module _ (nn : Nn) where
  pub device_inputs : List (Input nn) → Device nn → Option (DeviceRun nn)
  device_inputs [] d = some (d, [])
  device_inputs (i ∷ is) d = device_attacher nn i d >>= λ (d', calls).
      device_inputs is d' >>= λ (d'', more). some (d'', calls ++ more)

  -- What happens to the attacher happens to the device's, as long as the attacher has not closed.
  device_inputs-steps :
      (is : List (Input nn)) (d : Device nn) (b : Attacher nn) (calls : List Call)
      → steps nn is d.attacher ≡ some (b, calls)
      → any (is_closed_callback nn) calls ≡ false
      → (more : List DeviceCall) × (device_inputs is d ≡ some (record d { attacher = b }, more))
        × (any is_posted more ≡ any (is_post_close nn) calls)
  unfolding device_inputs device_attacher attacher_ran steps
  device_inputs-steps [] d b calls h quiet = ([], ground (arith, h), ground (arith, h))
  device_inputs-steps (i ∷ is) d b calls h quiet =
      let ((a', first), e, k) = >>=-eq-some (step nn i d.attacher) _ h in
      let ((b', rest), f, g) = >>=-eq-some (steps nn is a') _ k in
      let split = any-append (is_closed_callback nn) first rest in
      let quiet1 : any (is_closed_callback nn) first ≡ false = ground (arith, g, quiet, split) in
      let quiet2 : any (is_closed_callback nn) rest ≡ false = ground (arith, g, quiet, split) in
      let (more, out, posted) =
        device_inputs-steps is (record d { attacher = a' }) b' rest f quiet2 in
      let passed = any-attacher_ran nn a' first d in
      let ended = any-append is_posted (attacher_ran nn (a', first) d).1 more in
      let both = any-append (is_post_close nn) first rest in
      (
        (attacher_ran nn (a', first) d).1 ++ more,
        ground (arith, e, out, quiet1, g),
        ground (arith, g, ended, posted, passed, both),
      )

  -- The close of the attacher that the device began, up to the callback of the device.
  attacher-Ends :
      (a : Attacher nn) (s : State) (is : List (Input nn)) (d : Device nn)
      → a.module_state ≡ running
      → a.state ≡ s
      → Ends nn s is
      → d.attacher ≡ (async_close nn a).0
      → (e : Device nn) × (calls : List DeviceCall) × (device_inputs is d ≡ some (e, calls))
        × (e.attacher.state ≡ closed)
        × (e.attacher.closed_cb ≡ true)
        × (e.close_cb ≡ d.close_cb)
        × ((any (is_post_close nn) (async_close nn a).1 || any is_posted calls) ≡ true)
  unfolding steps step
  attacher-Ends a s is d m h ends same = elim (Option-cases (steps nn (close_input ∷ is) a)) [
    | inl stuck ↦ absurd (steps-close_input nn a s is m h ends stuck)
    | inr ((b, calls), f) ↦
        let (state, posted, callback, quiet) = steps_ended nn a s is (b, calls) m h ends f in
        let ((b', rest), g, k) = >>=-eq-some (steps nn is (async_close nn a).0) _ f in
        let split = any-append (is_closed_callback nn) (async_close nn a).1 rest in
        let quiet2 : any (is_closed_callback nn) rest ≡ false = ground (arith, k, quiet, split) in
        let run : steps nn is d.attacher ≡ some (b', rest) = rw same g in
        let (more, out, passed) = device_inputs-steps is d b' rest run quiet2 in
        let both = any-append (is_post_close nn) (async_close nn a).1 rest in
        (
          record d { attacher = b' },
          more,
          out,
          ground (arith, k, state),
          ground (arith, k, callback),
          refl,
          ground (arith, k, posted, passed, both),
        )
  ]

  closed_posted :
      (d : Device nn)
      → d.state ≡ device_running
      → any is_posted (device_close nn d).1.1 ≡ (
          not (any is_active (device_close nn d).1.0.connections.elms)
          && any (is_post_close nn) (async_close nn d.attacher).1)
  unfolding device_close client_connections_closed dispatch_async_close
  closed_posted d h =
      let (active, slots, calls) = dispatch_async_close d.connections in
      let d' : Device nn = record d {
        close_cb = true;
        state = device_stopped;
        connections = slots;
      } in
      let none_posted = any-map-connection_call calls in
      let ran =
        any-attacher_ran nn (async_close nn d.attacher).0 (async_close nn d.attacher).1 d' in
      let split =
        any-append is_posted (map connection_call calls)
          (attacher_ran nn (async_close nn d.attacher) d').1 in
      let split_none = any-append is_posted (map connection_call calls) [] in
      ground (arith, h, none_posted, ran, split, split_none)

  device_close-Closing :
      (d : Device nn)
      → d.state ≡ device_running
      → Closing nn d.attacher (device_close nn d).1.0 (any is_posted (device_close nn d).1.1)
  unfolding device_close client_connections_closed attacher_ran dispatch_async_close
  device_close-Closing d h =
      let quiet = async_close-quiet nn d.attacher in
      record {
        event = closed_posted d h;
        closing = ground (arith, h, quiet);
        connections_cb = ground (arith, h, quiet);
        close_cb = ground (arith, h, quiet);
        attacher = ground (arith, h, quiet);
      }

  -- The callback of the attacher is the end of the device.
  close_event_ends :
      (d : Device nn)
      → d.attacher.closed_cb ≡ true
      → d.close_cb ≡ true
      → (e : Device nn) × (first : List DeviceCall) × (device_attacher nn close_event d
          ≡ some (
            e,
            first
                ++ (udp_abort udp
                    ∷ udp_abort local_udp
                    ∷ udp_abort secondary_udp
                    ∷ device_closed
                    ∷ []),
          ))
        × (e.close_cb ≡ false)
  unfolding device_attacher attacher_ran attach_closed step resolve_close is_closed_callback
  close_event_ends d h k = (
    (attacher_ran nn (resolve_close nn d.attacher) d).0,
    listens nn (resolve_close nn d.attacher).0 (resolve_close nn d.attacher).1,
    ground (arith, h, k),
    ground (arith, h, k),
  )

  -- A device is closed while it runs, its attacher running in any state. If then no connection is left
  -- after the DTLS server has reported the end of connections in any order, none to begin with included, and
  -- the attacher gets the answer that it waits for in its state, if there is one, then the attacher has posted
  -- its close event, and that event aborts the three sockets and calls the callback that was given to the
  -- close, which is no longer set then.
  pub device_close_completes :
      (d : Device nn) (s : State) (is : List (Input nn)) (order : List ℕ)
      → d.state ≡ device_running
      → d.attacher.module_state ≡ running
      → d.attacher.state ≡ s
      → Ends nn s is
      → any is_active (destroys nn order (device_close nn d).1.0).0.connections.elms ≡ false
      → (e : Device nn) × (calls : List DeviceCall) × (f : Device nn) × (first : List DeviceCall)
        × (device_inputs is (destroys nn order (device_close nn d).1.0).0 ≡ some (e, calls))
        × (any is_posted
              ((device_close nn d).1.1 ++ (destroys nn order (device_close nn d).1.0).1 ++ calls)
            ≡ true)
        × (device_attacher nn close_event e
            ≡ some (
              f,
              first
                  ++ (udp_abort udp
                      ∷ udp_abort local_udp
                      ∷ udp_abort secondary_udp
                      ∷ device_closed
                      ∷ []),
            ))
        × (f.close_cb ≡ false)
  device_close_completes d s is order h m k ends empty =
      let closing =
        destroys-Closing nn d.attacher order (device_close nn d).1.0
          (any is_posted (device_close nn d).1.1) (device_close-Closing d h) in
      let same : (destroys nn order (device_close nn d).1.0).0.attacher
          ≡ (async_close nn d.attacher).0 =
        ground (arith, empty, closing.attacher) in
      let (e, calls, out, state, callback, cb, posted) =
        attacher-Ends d.attacher s is (destroys nn order (device_close nn d).1.0).0 m k ends same in
      let so_far : (any is_posted (device_close nn d).1.1
            || any is_posted (destroys nn order (device_close nn d).1.0).1)
          ≡ any (is_post_close nn) (async_close nn d.attacher).1 =
        ground (arith, empty, closing.event) in
      let event =
        posted_last (device_close nn d).1.1 (destroys nn order (device_close nn d).1.0).1 calls
          (any (is_post_close nn) (async_close nn d.attacher).1) so_far posted in
      let (f, first, last, cleared) = close_event_ends e callback (cb ∙ closing.close_cb) in
      (e, calls, f, first, out, event, last, cleared)

  -- While a connection is left, the attacher is as it was when the close began.
  pub close_waits :
      (d : Device nn) (order : List ℕ)
      → d.state ≡ device_running
      → any is_active (destroys nn order (device_close nn d).1.0).0.connections.elms ≡ true
      → (destroys nn order (device_close nn d).1.0).0.attacher ≡ d.attacher
  close_waits d order h left =
      let closing =
        destroys-Closing nn d.attacher order (device_close nn d).1.0
          (any is_posted (device_close nn d).1.1) (device_close-Closing d h) in
      ground (arith, left, closing.attacher)
