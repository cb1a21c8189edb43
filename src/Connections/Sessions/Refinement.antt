-- ===== src/Connections/Sessions/Refinement.antt =====
-- The slots implement the map.
use mathlib.Core.Path.{fun_ext}
use nabto_embedded_sdk.Base.{
  ℕ, ◌≡◌, inl, inr, refl, ap, ◌∙◌, arith, true, ◌&&◌, none, some, List, [], ◌∷◌, ltb, ◌==◌,
  str_eq_iff, length, get_elem?, if◌then◌else◌, ◌>>=◌, Bool-cases, Option-cases,
}
use nabto_embedded_sdk.Attacher.{Endpoint}
use nabto_embedded_sdk.Connections.{Socket, Call, ClientConnection, key_of, handle_packet}
use nabto_embedded_sdk.Connections.Dispatch.{
  Slot, Dispatch, Opening, open_connection, new_connection, dtls_handshake, take_slot, has_room,
  open_new, dispatch_packet,
}
use nabto_embedded_sdk.Connections.Sessions.{
  assign, add_session, sessions_packet, lookup, count_free, view, view_result,
}
use nabto_embedded_sdk.Connections.Sessions.Delivery.{
  handle_packet-id, replace_slot, delivered, deliver_lem, lookup-replace_slot,
  count_free-replace_slot, has_room_lem, lookup-take_slot, count_free-take_slot, take_slot-none,
  take-take,
}

-- A connection is opened with the key of its packet.
new_connection-key :
    (sock : Socket) (ep : Endpoint) (buffer : List ℕ) (channel ref : ℕ)
    → key_of (new_connection sock ep buffer channel ref).id ≡ key_of buffer
unfolding new_connection
new_connection-key sock ep [] channel ref = refl
new_connection-key sock ep (x ∷ buffer) channel ref = take-take 14 15 buffer (omega arith)

pub lookup-key :
    (slots : List Slot) (key : List ℕ) (c : ClientConnection)
    → lookup slots key ≡ some c
    → key_of c.id ≡ key
unfolding lookup
lookup-key [] key c h = cc
lookup-key (none ∷ slots) key c h = lookup-key slots key c h
lookup-key (some b ∷ slots) key c h =
    ground (arith, lookup-key slots key c, str_eq_iff key (key_of b.id))

-- The packet of a connection that is open.
refine_known :
    (sock : Socket) (ep : Endpoint) (buffer : List ℕ) (d : Dispatch) (c c' : ClientConnection)
    → lookup d.elms (key_of buffer) ≡ some c
    → c'.id ≡ c.id
    → view (record d { elms = replace_slot (key_of buffer) c' d.elms })
      ≡ record (view d) { find = assign (lookup d.elms) (key_of buffer) (some c') }
unfolding view
refine_known sock ep buffer d c c' h e =
    let key : key_of c'.id ≡ key_of buffer = ap key_of e ∙ lookup-key d.elms (key_of buffer) c h in
    let f : lookup (replace_slot (key_of buffer) c' d.elms)
        ≡ assign (lookup d.elms) (key_of buffer) (some c') =
      fun_ext (λ k. lookup-replace_slot d.elms (key_of buffer) k c c' h key) in
    rw f (rw (count_free-replace_slot d.elms (key_of buffer) c') refl)

-- A new connection in the first slot that is free.
refine_new :
    (buffer : List ℕ) (d : Dispatch) (opened : Slot) (ref : ℕ)
    → has_room d.elms ≡ true
    → lookup d.elms (key_of buffer) ≡ none
    → ((c : ClientConnection) → opened ≡ some c → key_of c.id ≡ key_of buffer)
    → view (record d { elms = take_slot opened d.elms; connection_ref = ref })
      ≡ record (add_session opened (key_of buffer) (view d)) { connection_ref = ref }
unfolding view add_session
refine_new buffer d none ref room h e = rw (take_slot-none d.elms) refl
refine_new buffer d (some c) ref room h e =
    let key : key_of c.id ≡ key_of buffer = e c refl in
    let f : lookup (take_slot (some c) d.elms) ≡ assign (lookup d.elms) (key_of buffer) (some c) =
      fun_ext (λ k.
        lookup-take_slot d.elms k c room (ap (lookup d.elms) key ∙ h)
        ∙ ap (λ q. assign (lookup d.elms) q (some c) k) key) in
    rw f (rw (count_free-take_slot d.elms c room) refl)

pub opened-key :
    (opening : Opening) (sock : Socket) (ep : Endpoint) (buffer : List ℕ) (prev : ℕ) (opened : Slot)
    (ref : ℕ) (calls : List Call) (c : ClientConnection)
    → open_connection opening sock ep buffer prev ≡ some (opened, ref, calls)
    → opened ≡ some c
    → key_of c.id ≡ key_of buffer
unfolding open_connection
opened-key opening sock ep buffer prev opened ref calls c g e =
    elim (Option-cases (get_elem? buffer 15)) [
      | inl f ↦ ground arith
      | inr (channel, f) ↦ ground (arith, new_connection-key sock ep buffer channel ref)
    ]

refine_open :
    (opening : Opening) (sock : Socket) (ep : Endpoint) (buffer : List ℕ) (d : Dispatch)
    → lookup d.elms (key_of buffer) ≡ none
    → view_result (open_new opening sock ep buffer d) ≡ (
        get_elem? buffer 16 >>= λ content_type.
        if content_type == dtls_handshake && ltb 0 (count_free d.elms)
        then (open_connection opening sock ep buffer d.connection_ref >>= λ (opened, ref, calls).
            some (
              record (add_session opened (key_of buffer) (view d)) { connection_ref = ref },
              calls,
            ))
        else some (view d, []))
unfolding open_new view_result
refine_open opening sock ep buffer d h = elim (Option-cases (get_elem? buffer 16)) [
  | inl f ↦ rw f refl
  | inr (t, f) ↦ elim (Bool-cases (t == dtls_handshake && has_room d.elms)) [
    | inl yes' ↦ elim (Option-cases (open_connection opening sock ep buffer d.connection_ref)) [
      | inl g ↦ rw f (rw (← (has_room_lem d.elms)) (rw yes' (rw g refl)))
      | inr ((opened, ref, calls), g) ↦ rw f (
          rw (← (has_room_lem d.elms)) (
            rw yes' (
              rw g (
                ap (λ v. some (v, calls))
                  (refine_new buffer d opened ref (ground arith) h (λ c.
                    opened-key opening sock ep buffer d.connection_ref opened ref calls c g))))))
    ]
    | inr no' ↦ rw f (rw (← (has_room_lem d.elms)) (rw no' refl))
  ]
]

-- The slots implement the map: a packet does to what the slots stand for what it does to the map,
-- with the same calls and the same faults.
pub dispatch_packet-refines :
    (opening : Opening) (sock : Socket) (ep : Endpoint) (buffer : List ℕ) (d : Dispatch)
    → view_result (dispatch_packet opening sock ep buffer d)
      ≡ sessions_packet opening sock ep buffer (view d)
unfolding dispatch_packet sessions_packet view delivered view_result
dispatch_packet-refines opening sock ep buffer d = elim (Bool-cases (ltb (length buffer) 16)) [
  | inl short ↦ rw short refl
  | inr long ↦ elim (Option-cases (lookup d.elms (key_of buffer))) [
    | inl e ↦
        rw long
          (rw (deliver_lem sock ep buffer d.elms) (rw e (refine_open opening sock ep buffer d e)))
    | inr (c, e) ↦ elim (Option-cases (handle_packet sock ep buffer c)) [
      | inl f ↦ rw long (rw (deliver_lem sock ep buffer d.elms) (rw e (rw f refl)))
      | inr ((c', calls), f) ↦ rw long (
          rw (deliver_lem sock ep buffer d.elms) (
            rw e (
              rw f (
                ap (λ v. some (v, calls))
                  (refine_known sock ep buffer d c c' e
                    (handle_packet-id sock ep buffer c (c', calls) f))))))
    ]
  ]
]
