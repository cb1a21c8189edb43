-- ===== src/Connections/Sessions/Keys.antt =====
-- No two connections have one key, and closing a connection removes its key.
use mathlib.Core.Path.{fun_ext}
use nabto_embedded_sdk.Base.{
  set, ℕ, zero, suc, ◌+◌, ◌≡◌, ◌⊎◌, inl, inr, refl, ap, ◌∙◌, arith, true, none, some, List, [], ◌∷◌,
  ◌==◌, length, get_elem?, Bool-cases, Option-cases,
}
use nabto_embedded_sdk.Attacher.{Endpoint}
use nabto_embedded_sdk.Connections.{
  handle_data, Socket, Call, ClientConnection, Run, key_of, handle_packet,
}
use nabto_embedded_sdk.Connections.Dispatch.{
  dispatch_init, dispatch_async_close, Slot, Dispatch, Opening, open_connection, dtls_handshake,
  take_slot, has_room, open_new, dispatch_packet, clear_slot, dispatch_close_connection,
  destroy_connection,
}
use nabto_embedded_sdk.Connections.Channels.{handle_data-id}
use nabto_embedded_sdk.Connections.Sessions.{assign, lookup, view}
use nabto_embedded_sdk.Connections.Sessions.Delivery.{
  handle_packet-id, replace_slot, delivered, deliver_lem, take_slot-none,
}
use nabto_embedded_sdk.Connections.Sessions.Refinement.{lookup-key, opened-key}
use nabto_embedded_sdk.Connections.Sessions.Slots.{
  UniqueKeys, IsValid, unique-replace_slot, length-replace_slot, unique-take_slot, length-take_slot,
  lookup-clear_slot, unique-clear_slot, length-clear_slot, count_free-clear_slot,
}

-- Destroying the connection in a slot removes its key from what the slots stand for, and leaves one
-- more place, if no two slots are active with one key.
pub destroy_connection-refines :
    (i : ℕ) (c : ClientConnection) (d : Dispatch)
    → UniqueKeys d.elms
    → get_elem? d.elms i ≡ some (some c)
    → view (destroy_connection i c d).0
      ≡ record (view d) { find = assign (view d).find (key_of c.id) none; free = (view d).free + 1 }
unfolding destroy_connection dispatch_close_connection view
destroy_connection-refines i c d u h =
    let f : lookup (clear_slot i d.elms) ≡ assign (lookup d.elms) (key_of c.id) none =
      fun_ext (λ k. lookup-clear_slot d.elms i c k u h) in
    rw f (rw (count_free-clear_slot d.elms i c h) refl)

-- The slots after the packet of a connection that is open.
known_slots :
    (opening : Opening) (sock : Socket) (ep : Endpoint) (buffer : List ℕ) (d d' : Dispatch)
    (calls : List Call) (c : ClientConnection)
    → lookup d.elms (key_of buffer) ≡ some c
    → dispatch_packet opening sock ep buffer d ≡ some (d', calls)
    → (run : Run) × (handle_packet sock ep buffer c ≡ some run)
      × (d'.elms ≡ replace_slot (key_of buffer) run.0 d.elms)
unfolding dispatch_packet delivered
known_slots opening sock ep buffer d d' calls c e h =
    elim (Option-cases (handle_packet sock ep buffer c)) [
      | inl f ↦ absurd (ground (arith, deliver_lem sock ep buffer d.elms))
      | inr (run, f) ↦ (run, f, ground (arith, deliver_lem sock ep buffer d.elms))
    ]

-- The slots after a packet of no connection.
new_slots :
    (opening : Opening) (sock : Socket) (ep : Endpoint) (buffer : List ℕ) (d d' : Dispatch)
    (calls : List Call)
    → lookup d.elms (key_of buffer) ≡ none
    → dispatch_packet opening sock ep buffer d ≡ some (d', calls)
    → (d'.elms ≡ d.elms)
      ⊎ ((c : ClientConnection) × (key_of c.id ≡ key_of buffer)
          × (has_room d.elms ≡ true)
          × (d'.elms ≡ take_slot (some c) d.elms))
unfolding dispatch_packet delivered open_new
new_slots opening sock ep buffer d d' calls e h =
    let p = deliver_lem sock ep buffer d.elms in
    elim (Option-cases (open_connection opening sock ep buffer d.connection_ref)) [
      | inl f ↦ inl (ground (arith, p))
      | inr ((none, ref, more), f) ↦ inl (ground (arith, p, take_slot-none d.elms))
      | inr ((some c, ref, more), f) ↦ elim (Bool-cases (has_room d.elms)) [
        | inl room ↦ elim (Option-cases (get_elem? buffer 16)) [
          | inl g ↦ inl (ground (arith, p))
          | inr (t, g) ↦ elim (Bool-cases (t == dtls_handshake)) [
            | inl hello ↦ inr (
              c,
              opened-key opening sock ep buffer d.connection_ref (some c) ref more c f refl,
              room,
              ground (arith, p),
            )
            | inr other ↦ inl (ground (arith, p))
          ]
        ]
        | inr full ↦ inl (ground (arith, p))
      ]
    ]

packet-IsValid :
    (opening : Opening) (sock : Socket) (ep : Endpoint) (buffer : List ℕ) (d d' : Dispatch)
    (calls : List Call)
    → IsValid d
    → dispatch_packet opening sock ep buffer d ≡ some (d', calls)
    → IsValid d'
packet-IsValid opening sock ep buffer d d' calls v h =
    elim (Option-cases (lookup d.elms (key_of buffer))) [
      | inl e ↦ elim (new_slots opening sock ep buffer d d' calls e h) [
        | inl same ↦ record { slots = rw same v.slots; unique = rw same v.unique }
        | inr (c, key, room, f) ↦ record {
          slots = rw f (length-take_slot d.elms (some c) ∙ v.slots);
          unique = rw f (unique-take_slot d.elms c v.unique room (ap (lookup d.elms) key ∙ e));
        }
      ]
      | inr (c, e) ↦
          let (run, f, g) = known_slots opening sock ep buffer d d' calls c e h in
          let key =
            ap key_of (handle_packet-id sock ep buffer c run f)
            ∙ lookup-key d.elms (key_of buffer) c e in
          record {
            slots = rw g (length-replace_slot d.elms (key_of buffer) run.0 ∙ v.slots);
            unique = rw g (unique-replace_slot d.elms (key_of buffer) c run.0 v.unique e key);
          }
    ]

lookup-set-none :
    (slots : List Slot) (i : ℕ) (c c' : ClientConnection) (k : List ℕ)
    → get_elem? slots i ≡ some (some c)
    → c'.id ≡ c.id
    → lookup slots k ≡ none
    → lookup (set slots i (some c')) k ≡ none
unfolding lookup
lookup-set-none [] i c c' k h e n = cc
lookup-set-none (none ∷ slots) zero c c' k h e n = ground arith
lookup-set-none (some b ∷ slots) zero c c' k h e n = ground (arith, ap key_of e)
lookup-set-none (none ∷ slots) (suc i) c c' k h e n = lookup-set-none slots i c c' k h e n
lookup-set-none (some b ∷ slots) (suc i) c c' k h e n =
    ground (arith, lookup-set-none slots i c c' k h e)

unique-set :
    (slots : List Slot) (i : ℕ) (c c' : ClientConnection)
    → get_elem? slots i ≡ some (some c)
    → c'.id ≡ c.id
    → UniqueKeys slots
    → UniqueKeys (set slots i (some c'))
unfolding lookup
unique-set [] i c c' h e = λ u. tt
unique-set (none ∷ slots) zero c c' h e = λ u. ground arith
unique-set (some b ∷ slots) zero c c' h e =
    λ (fresh, u). (ap (lookup slots) (ap key_of {y = b.id} (e ∙ ground (arith, h))) ∙ fresh, u)
unique-set (none ∷ slots) (suc i) c c' h e = λ u. unique-set slots i c c' h e u
unique-set (some b ∷ slots) (suc i) c c' h e = λ (fresh, u).
    (lookup-set-none slots i c c' (key_of b.id) h e fresh, unique-set slots i c c' h e u)

length-set : (slots : List Slot) (i : ℕ) (s : Slot) → length (set slots i s) ≡ length slots
length-set [] i s = refl
length-set (t ∷ slots) zero s = refl
length-set (t ∷ slots) (suc i) s = ap suc (length-set slots i s)

-- What happens to the slots: a packet, application data on a connection, its destruction, and the
-- close of all.
pub data Step (d d' : Dispatch) : Type 0 where
  step_packet :
      (opening : Opening) (sock : Socket) (ep : Endpoint) (buffer : List ℕ) (calls : List Call)
      → dispatch_packet opening sock ep buffer d ≡ some (d', calls)
      → Step d d'
  step_data :
      (i channel sequence : ℕ) (buffer : List ℕ) (c : ClientConnection) (run : Run)
      → get_elem? d.elms i ≡ some (some c)
      → handle_data channel sequence buffer c ≡ some run
      → d' ≡ record d { elms = set d.elms i (some run.0) }
      → Step d d'
  step_destroy :
      (i : ℕ) (c : ClientConnection)
      → get_elem? d.elms i ≡ some (some c)
      → d' ≡ (destroy_connection i c d).0
      → Step d d'
  step_close : d' ≡ (dispatch_async_close d).1 → Step d d'

pub data Reach (d : Dispatch) : Dispatch → Type 0 where
  here : Reach d d
  next : {e f : Dispatch} → Reach d e → Step e f → Reach d f

Step-IsValid : (d d' : Dispatch) → IsValid d → Step d d' → IsValid d'
unfolding destroy_connection dispatch_close_connection dispatch_async_close
Step-IsValid d d' v (step_packet opening sock ep buffer calls h) =
    packet-IsValid opening sock ep buffer d d' calls v h
Step-IsValid d d' v (step_data i channel sequence buffer c run h k e) = rw e (record {
  slots = length-set d.elms i (some run.0) ∙ v.slots;
  unique = unique-set d.elms i c run.0 h (handle_data-id channel sequence buffer c run k) v.unique;
})
Step-IsValid d d' v (step_destroy i c h e) = rw e (record {
  slots = length-clear_slot d.elms i ∙ v.slots;
  unique = unique-clear_slot d.elms i v.unique;
})
Step-IsValid d d' v (step_close e) = rw e (record { slots = v.slots; unique = v.unique })

-- From the start on, whatever packets arrive, whatever data the clients send, and whatever connections
-- end, there are ten slots, and no two of them are active with one key.
pub Reach-IsValid : (ref : ℕ) (d : Dispatch) → Reach (dispatch_init ref) d → IsValid d
unfolding dispatch_init
Reach-IsValid ref d here = record { slots = refl; unique = tt }
Reach-IsValid ref d (next {e} r s) = Step-IsValid e d (Reach-IsValid ref e r) s
