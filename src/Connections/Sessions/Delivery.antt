-- ===== src/Connections/Sessions/Delivery.antt =====
-- What the loops over the slots do, by what is found in them.
use nabto_embedded_sdk.Base.{
  ℕ, zero, suc, ◌+◌, ◌-◌, ◌≤◌, ◌≡◌, inl, inr, refl, sym, ap, ◌∙◌, arith, true, false, Option, none,
  some, List, [], ◌∷◌, ltb, str_eq, str_eq_iff, take, if◌then◌else◌, ◌>>=◌, Bool-cases,
  Option-cases,
}
use nabto_embedded_sdk.Attacher.{Endpoint}
use nabto_embedded_sdk.Connections.{
  Socket, Call, ClientConnection, Run, key_of, handle_packet, note_channel,
}
use nabto_embedded_sdk.Connections.Dispatch.{Slot, has_key, deliver, take_slot, is_active, has_room}
use nabto_embedded_sdk.Connections.Sessions.{assign, lookup, count_free}

pub handle_packet-id :
    (sock : Socket) (ep : Endpoint) (buffer : List ℕ) (c : ClientConnection) (run : Run)
    → handle_packet sock ep buffer c ≡ some run
    → run.0.id ≡ c.id
unfolding handle_packet note_channel
handle_packet-id sock ep buffer c run h = ground arith

-- The first slot with the key gets another connection.
unfoldable pub replace_slot : List ℕ → ClientConnection → List Slot → List Slot
replace_slot key c' [] = []
replace_slot key c' (none ∷ slots) = none ∷ replace_slot key c' slots
replace_slot key c' (some c ∷ slots) =
    let rest = replace_slot key c' slots in
    if str_eq key (key_of c.id) then some c' ∷ slots else some c ∷ rest

-- What the loop over the slots gives, by the connection that is found.
unfoldable pub delivered :
    Socket → Endpoint → List ℕ → List Slot → Slot → Option (Option (List Slot × List Call))
unfolding replace_slot
delivered sock ep buffer slots none = none
delivered sock ep buffer slots (some c) = some (
    handle_packet sock ep buffer c >>= λ (c', calls).
    some (replace_slot (key_of buffer) c' slots, calls))

pub delivered-none :
    (sock : Socket) (ep : Endpoint) (buffer : List ℕ) (slots : List Slot) (o : Slot)
    → deliver sock ep buffer slots ≡ delivered sock ep buffer slots o
    → deliver sock ep buffer (none ∷ slots) ≡ delivered sock ep buffer (none ∷ slots) o
unfolding deliver delivered
delivered-none sock ep buffer slots none h = rw (h, deliver) refl
delivered-none sock ep buffer slots (some c) h =
    elim (Option-cases (handle_packet sock ep buffer c)) [
      | inl e ↦ rw (h, deliver) (rw e refl)
      | inr ((c', calls), e) ↦ rw (h, deliver) (rw e refl)
    ]

pub delivered-other :
    (sock : Socket) (ep : Endpoint) (buffer : List ℕ) (slots : List Slot) (b : ClientConnection)
    (o : Slot)
    → str_eq (key_of buffer) (key_of b.id) ≡ false
    → deliver sock ep buffer slots ≡ delivered sock ep buffer slots o
    → deliver sock ep buffer (some b ∷ slots) ≡ delivered sock ep buffer (some b ∷ slots) o
unfolding deliver delivered has_key replace_slot
delivered-other sock ep buffer slots b none apart h = rw (apart, deliver) (rw (h, deliver) refl)
delivered-other sock ep buffer slots b (some c) apart h =
    elim (Option-cases (handle_packet sock ep buffer c)) [
      | inl e ↦ rw apart (rw (h, deliver) (rw e refl))
      | inr ((c', calls), e) ↦ rw apart (rw (h, deliver) (rw e refl))
    ]

pub lookup_other :
    (slots : List Slot) (key : List ℕ) (c : ClientConnection)
    → str_eq key (key_of c.id) ≡ false
    → lookup (some c ∷ slots) key ≡ lookup slots key
unfolding lookup
lookup_other slots key c apart = rw apart refl

pub lookup_same :
    (slots : List Slot) (key : List ℕ) (c : ClientConnection)
    → str_eq key (key_of c.id) ≡ true
    → lookup (some c ∷ slots) key ≡ some c
unfolding lookup
lookup_same slots key c same = rw same refl

pub delivered-same :
    (sock : Socket) (ep : Endpoint) (buffer : List ℕ) (slots : List Slot) (b : ClientConnection)
    → str_eq (key_of buffer) (key_of b.id) ≡ true
    → deliver sock ep buffer (some b ∷ slots) ≡ delivered sock ep buffer (some b ∷ slots) (some b)
unfolding deliver delivered has_key replace_slot
delivered-same sock ep buffer slots b same = elim (Option-cases (handle_packet sock ep buffer b)) [
  | inl e ↦ rw same (rw e refl)
  | inr ((c', calls), e) ↦ rw same (rw e refl)
]

pub deliver_lem :
    (sock : Socket) (ep : Endpoint) (buffer : List ℕ) (slots : List Slot)
    → deliver sock ep buffer slots ≡ delivered sock ep buffer slots (lookup slots (key_of buffer))
unfolding deliver lookup delivered has_key replace_slot
deliver_lem sock ep buffer [] = refl
deliver_lem sock ep buffer (none ∷ slots) =
    delivered-none sock ep buffer slots (lookup slots (key_of buffer))
      (deliver_lem sock ep buffer slots)
deliver_lem sock ep buffer (some c ∷ slots) =
    elim (Bool-cases (str_eq (key_of buffer) (key_of c.id))) [
      | inl same ↦
          delivered-same sock ep buffer slots c same
          ∙ ap (delivered sock ep buffer (some c ∷ slots))
              (sym (lookup_same slots (key_of buffer) c same))
      | inr apart ↦
          delivered-other sock ep buffer slots c (lookup slots (key_of buffer)) apart
            (deliver_lem sock ep buffer slots)
          ∙ ap (delivered sock ep buffer (some c ∷ slots))
              (sym (lookup_other slots (key_of buffer) c apart))
    ]

pub lookup-replace_slot :
    (slots : List Slot) (key k : List ℕ) (c c' : ClientConnection)
    → lookup slots key ≡ some c
    → key_of c'.id ≡ key
    → lookup (replace_slot key c' slots) k ≡ assign (lookup slots) key (some c') k
unfolding lookup replace_slot assign
lookup-replace_slot [] key k c c' h e = ground arith
lookup-replace_slot (none ∷ slots) key k c c' h e = lookup-replace_slot slots key k c c' h e
lookup-replace_slot (some b ∷ slots) key k c c' h e = ground (
  arith,
  lookup-replace_slot slots key k c c',
  str_eq_iff k key,
  str_eq_iff key (key_of b.id),
  str_eq_iff k (key_of b.id),
  str_eq_iff k (key_of c'.id),
)

pub count_free-replace_slot :
    (slots : List Slot) (key : List ℕ) (c : ClientConnection)
    → count_free (replace_slot key c slots) ≡ count_free slots
unfolding count_free replace_slot
count_free-replace_slot [] key c = refl
count_free-replace_slot (none ∷ slots) key c = ap (λ n. 1 + n) (count_free-replace_slot slots key c)
count_free-replace_slot (some b ∷ slots) key c = ground (arith, count_free-replace_slot slots key c)

pub has_room_lem : (slots : List Slot) → has_room slots ≡ ltb 0 (count_free slots)
unfolding has_room count_free is_active
has_room_lem [] = refl
has_room_lem (none ∷ slots) = ground arith
has_room_lem (some c ∷ slots) = has_room_lem slots

pub lookup-take_slot :
    (slots : List Slot) (k : List ℕ) (c : ClientConnection)
    → has_room slots ≡ true
    → lookup slots (key_of c.id) ≡ none
    → lookup (take_slot (some c) slots) k ≡ assign (lookup slots) (key_of c.id) (some c) k
unfolding lookup take_slot assign has_room is_active
lookup-take_slot [] k c h e = ground arith
lookup-take_slot (none ∷ slots) k c h e = ground arith
lookup-take_slot (some b ∷ slots) k c h e = ground (
  arith,
  lookup-take_slot slots k c,
  str_eq_iff k (key_of b.id),
  str_eq_iff (key_of c.id) (key_of b.id),
  str_eq_iff k (key_of c.id),
)

pub count_free-take_slot :
    (slots : List Slot) (c : ClientConnection)
    → has_room slots ≡ true
    → count_free (take_slot (some c) slots) ≡ count_free slots - 1
unfolding count_free take_slot has_room is_active
count_free-take_slot [] c h = refl
count_free-take_slot (none ∷ slots) c h = omega arith
count_free-take_slot (some b ∷ slots) c h = count_free-take_slot slots c h

pub take_slot-none : (slots : List Slot) → take_slot none slots ≡ slots
unfolding take_slot
take_slot-none [] = refl
take_slot-none (none ∷ slots) = refl
take_slot-none (some c ∷ slots) = ap (λ l. some c ∷ l) (take_slot-none slots)

pub take-take : (n m : ℕ) (l : List ℕ) → n ≤ m → take n (take m l) ≡ take n l
take-take zero m l h = refl
take-take (suc n) zero l h = absurd (omega arith)
take-take (suc n) (suc m) [] h = refl
take-take (suc n) (suc m) (x ∷ l) h = ap (λ k. x ∷ k) (take-take n m l (omega arith))
