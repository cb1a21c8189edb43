-- ===== src/Connections/Sessions.antt =====
-- What the slots promise: a finite map from the keys of connections, with room for so many more.
pub mod Delivery
pub mod Refinement
pub mod Slots
pub mod Keys
use nabto_embedded_sdk.Base.{
  ℕ, zero, suc, ◌+◌, ◌-◌, Bool, true, false, ◌&&◌, Option, none, some, List, [], ◌∷◌, ltb, ◌==◌,
  str_eq, length, get_elem?, if◌then◌else◌, ◌>>=◌,
}
use nabto_embedded_sdk.Attacher.{Endpoint}
use nabto_embedded_sdk.Connections.{Socket, Call, ClientConnection, key_of, handle_packet}
use nabto_embedded_sdk.Connections.Dispatch.{
  Slot, Dispatch, Opening, open_connection, has_key, dtls_handshake,
}

-- The connections by their keys, how many more there may be, and the counter of references.
pub record Sessions : Type 0 where
  pub find : List ℕ → Slot
  pub free : ℕ
  pub connection_ref : ℕ

-- A map changed at one key.
pub assign : (List ℕ → Slot) → List ℕ → Slot → List ℕ → Slot
assign find key s k = if str_eq k key then s else find k

-- A new connection takes one of the free places.
pub add_session : Slot → List ℕ → Sessions → Sessions
unfolding assign
add_session none key s = s
add_session (some c) key s = record s { find = assign s.find key (some c); free = s.free - 1 }

-- A packet goes to the connection of its key, or opens one if it is a handshake and there is room.
pub sessions_packet :
    Opening → Socket → Endpoint → List ℕ → Sessions → Option (Sessions × List Call)
unfolding assign add_session
sessions_packet opening sock ep buffer s =
    if ltb (length buffer) 16 then none else elim (s.find (key_of buffer)) [
      | some c ↦ handle_packet sock ep buffer c >>= λ (c', calls).
          some (record s { find = assign s.find (key_of buffer) (some c') }, calls)
      | none ↦ get_elem? buffer 16 >>= λ content_type.
          if content_type == dtls_handshake && ltb 0 s.free
          then (open_connection opening sock ep buffer s.connection_ref >>= λ (opened, ref, calls).
              some (record (add_session opened (key_of buffer) s) { connection_ref = ref }, calls))
          else some (s, [])
    ]

-- The first slot with a key.
pub lookup : List Slot → List ℕ → Slot
lookup [] key = none
lookup (none ∷ slots) key = lookup slots key
lookup (some c ∷ slots) key =
    let rest = lookup slots key in if str_eq key (key_of c.id) then some c else rest

pub count_free : List Slot → ℕ
count_free [] = 0
count_free (none ∷ slots) = 1 + count_free slots
count_free (some c ∷ slots) = count_free slots

-- What the slots stand for.
pub view : Dispatch → Sessions
unfolding lookup count_free
view d = record {
  find = lookup d.elms;
  free = count_free d.elms;
  connection_ref = d.connection_ref;
}

pub view_result : Option (Dispatch × List Call) → Option (Sessions × List Call)
unfolding view
view_result none = none
view_result (some (d, calls)) = some (view d, calls)
