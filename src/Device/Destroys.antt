-- ===== src/Device/Destroys.antt =====
-- Closing the connections of a device with clients: the attacher closes when the last one has ended.
use nabto_embedded_sdk.Base.{
  sym, or_assoc, or-false, Bool, ℕ, zero, suc, ◌≡◌, arith, true, false, not, ◌&&◌, ◌||◌, Bool, none,
  some, List, [], ◌∷◌, ◌++◌, any, ◌∙◌, any-append, Option-cases, Bool-cases, inl, inr,
  if◌then◌else◌,
}
use nabto_embedded_sdk.Nn.{Nn}
use nabto_embedded_sdk.Attacher.{
  Attacher, async_close, do_close, enter, handle_state_change, entered, after,
}
use nabto_embedded_sdk.Attacher.Closing.{is_post_close, is_closed_callback}
use nabto_embedded_sdk.Device.Posted.{any-connections_ran, is_posted}
use nabto_embedded_sdk.Connections.{ClientConnection}
use nabto_embedded_sdk.Connections.Dispatch.{
  Slot, Dispatch, is_active, clear_slot, destroy_connection, dispatch_close_connection, try_close,
}
use nabto_embedded_sdk.Device.{
  Device, DeviceRun, attacher_ran, client_connections_closed, is_all_closed, connections_ran,
  device_destroy,
}

slot_at : List Slot → ℕ → Slot
slot_at [] i = none
slot_at (s ∷ slots) zero = s
slot_at (s ∷ slots) (suc i) = slot_at slots i

active-slot_at :
    (slots : List Slot) (i : ℕ) (c : ClientConnection)
    → slot_at slots i ≡ some c
    → any is_active slots ≡ true
unfolding slot_at is_active
active-slot_at [] i c h = ground arith
active-slot_at (s ∷ slots) zero c h = ground arith
active-slot_at (s ∷ slots) (suc i) c h = ground (arith, active-slot_at slots i c h)

-- A connection that is destroyed while the slots close reports the end if it was the last one.
any-destroy_connection :
    (i : ℕ) (c : ClientConnection) (d : Dispatch)
    → d.closing ≡ true
    → d.close_cb ≡ true
    → any is_all_closed (destroy_connection i c d).1 ≡ not (any is_active (clear_slot i d.elms))
unfolding destroy_connection dispatch_close_connection try_close is_all_closed
any-destroy_connection i c d h k = ground arith

module _ (nn : Nn) where
  -- The DTLS server reports the end of the connections in these slots, one after the other.
  unfoldable pub destroys : List ℕ → Device nn → DeviceRun nn
  unfolding slot_at
  destroys [] d = (d, [])
  destroys (i ∷ is) d = elim (slot_at d.connections.elms i) [
    | none ↦ destroys is d
    | some c ↦
        let (d', calls) = device_destroy nn i c d in
        let (d'', more) = destroys is d' in (d'', calls ++ more)
  ]

  pub async_close-quiet :
      (a : Attacher nn) → any (is_closed_callback nn) (async_close nn a).1 ≡ false
  unfolding is_closed_callback async_close do_close enter handle_state_change entered after
  async_close-quiet a = ground arith

  -- The device closes, with this attacher at the start: the attacher closes once no slot is active, and then
  -- the calls so far have posted its close event if its close posts it.
  pub record Closing (a : Attacher nn) (d : Device nn) (posted : Bool) : Type 0 where
    pub closing : d.connections.closing ≡ true
    pub connections_cb : not (any is_active d.connections.elms) || d.connections.close_cb ≡ true
    pub close_cb : d.close_cb ≡ true
    pub attacher :
        d.attacher ≡ (if any is_active d.connections.elms then a else (async_close nn a).0)
    pub event :
        posted
        ≡ (not (any is_active d.connections.elms) && any (is_post_close nn) (async_close nn a).1)

  -- The destruction of the last connection closes the attacher, and no other one does.
  destroy-posted :
      (i : ℕ) (c : ClientConnection) (d : Device nn)
      → d.connections.closing ≡ true
      → d.connections.close_cb ≡ true
      → any is_posted (device_destroy nn i c d).1 ≡ (
          not (any is_active (clear_slot i d.connections.elms))
          && any (is_post_close nn) (async_close nn d.attacher).1)
  unfolding device_destroy
  destroy-posted i c d h k =
      let (slots, calls) = destroy_connection i c d.connections in
      let ran = any-connections_ran nn slots calls d in
      ground (arith, ran, any-destroy_connection i c d.connections h k)

  destroy-Closing :
      (a : Attacher nn) (i : ℕ) (c : ClientConnection) (d : Device nn) (posted : Bool)
      → slot_at d.connections.elms i ≡ some c
      → Closing a d posted
      → Closing a (device_destroy nn i c d).0 (posted || any is_posted (device_destroy nn i c d).1)
  unfolding device_destroy connections_ran client_connections_closed attacher_ran destroy_connection
      dispatch_close_connection
  destroy-Closing a i c d posted e h =
      let before = active-slot_at d.connections.elms i c e in
      let cb : d.connections.close_cb ≡ true = ground (arith, before, h.connections_cb) in
      let same : d.attacher ≡ a = ground (arith, before, h.attacher) in
      let not_yet : posted ≡ false = ground (arith, before, h.event) in
      let now : (posted || any is_posted (device_destroy nn i c d).1) ≡ (
          not (any is_active (clear_slot i d.connections.elms))
          && any (is_post_close nn) (async_close nn a).1) =
        ground (arith, not_yet, destroy-posted i c d h.closing cb, same) in
      let reported = any-destroy_connection i c d.connections h.closing cb in
      let quiet = async_close-quiet d.attacher in
      elim (Bool-cases (any is_active (clear_slot i d.connections.elms))) [
        | inl more ↦ record {
          closing = ground (arith, h.closing, reported);
          connections_cb = ground (arith, cb, reported);
          close_cb = ground (arith, h.close_cb, reported);
          attacher = ground (arith, same, reported);
          event = now ∙ ground (arith, reported);
        }
        | inr last ↦ record {
          closing = ground (arith, h.closing, reported, quiet);
          connections_cb = ground (arith, cb, reported, quiet);
          close_cb = ground (arith, h.close_cb, reported, quiet);
          attacher = ground (arith, same, reported, quiet);
          event = now ∙ ground (arith, reported, quiet);
        }
      ]

  pub destroys-Closing :
      (a : Attacher nn) (order : List ℕ) (d : Device nn) (posted : Bool)
      → Closing a d posted
      → Closing a (destroys order d).0 (posted || any is_posted (destroys order d).1)
  unfolding destroys
  destroys-Closing a [] d posted h = rw (or-false posted) h
  destroys-Closing a (i ∷ is) d posted h = elim (Option-cases (slot_at d.connections.elms i)) [
    | inl e ↦ rw (e, destroys) (destroys-Closing a is d posted h)
    | inr (c, e) ↦
        let first = any is_posted (device_destroy nn i c d).1 in
        let split =
          any-append is_posted (device_destroy nn i c d).1
            (destroys is (device_destroy nn i c d).0).1 in
        rw
          (
            e,
            destroys,
            split,
            sym (or_assoc posted first (any is_posted (destroys is (device_destroy nn i c d).0).1)),
          )
          (destroys-Closing a is (device_destroy nn i c d).0 (posted || first)
            (destroy-Closing a i c d posted e h))
  ]
