-- ===== src/Connections/Sessions/Slots.antt =====
-- The slots with distinct keys, and what the changes of slots do to them.
use nabto_embedded_sdk.Base.{
  ℕ, zero, suc, ◌+◌, ◌≡◌, inl, inr, refl, ap, ◌∙◌, arith, true, false, none, some, List, [], ◌∷◌,
  str_eq, str_eq_iff, length, get_elem?, Bool-cases,
}
use nabto_embedded_sdk.Connections.{ClientConnection, key_of}
use nabto_embedded_sdk.Connections.Dispatch.{
  Slot, Dispatch, take_slot, is_active, has_room, clear_slot,
}
use nabto_embedded_sdk.Connections.Sessions.{assign, lookup, count_free}
use nabto_embedded_sdk.Connections.Dispatch.{max_client_connections}
use nabto_embedded_sdk.Connections.Sessions.Delivery.{
  replace_slot, lookup-replace_slot, lookup-take_slot,
}

-- The keys of the slots that are active are distinct.
abbrev pub UniqueKeys : List Slot → Type 0
UniqueKeys [] = Unit
UniqueKeys (none ∷ slots) = UniqueKeys slots
UniqueKeys (some c ∷ slots) = (lookup slots (key_of c.id) ≡ none) × UniqueKeys slots

-- There are ten slots, and no two of them are active with one key.
pub record IsValid (d : Dispatch) : Type 0 where
  pub slots : length d.elms ≡ max_client_connections
  pub unique : UniqueKeys d.elms

pub unique-replace_slot :
    (slots : List Slot) (key : List ℕ) (c c' : ClientConnection)
    → UniqueKeys slots
    → lookup slots key ≡ some c
    → key_of c'.id ≡ key
    → UniqueKeys (replace_slot key c' slots)
unfolding lookup replace_slot assign
unique-replace_slot [] key c c' = λ u h e. tt
unique-replace_slot (none ∷ slots) key c c' = λ u h e. unique-replace_slot slots key c c' u h e
unique-replace_slot (some b ∷ slots) key c c' = λ (fresh, u) h e.
    elim (Bool-cases (str_eq key (key_of b.id))) [
      | inl same ↦
          rw same (ap (lookup slots) (e ∙ (str_eq_iff key (key_of b.id)).0 same) ∙ fresh, u)
      | inr apart ↦ rw apart (
        lookup-replace_slot slots key (key_of b.id) c c' (ground (arith, h)) e
            ∙ ground (arith, fresh, str_eq_iff key (key_of b.id), str_eq_iff (key_of b.id) key),
        unique-replace_slot slots key c c' u (ground (arith, h)) e,
      )
    ]

pub length-replace_slot :
    (slots : List Slot) (key : List ℕ) (c : ClientConnection)
    → length (replace_slot key c slots) ≡ length slots
unfolding replace_slot
length-replace_slot [] key c = refl
length-replace_slot (none ∷ slots) key c = ap suc (length-replace_slot slots key c)
length-replace_slot (some b ∷ slots) key c = ground (arith, length-replace_slot slots key c)

pub unique-take_slot :
    (slots : List Slot) (c : ClientConnection)
    → UniqueKeys slots
    → has_room slots ≡ true
    → lookup slots (key_of c.id) ≡ none
    → UniqueKeys (take_slot (some c) slots)
unfolding lookup take_slot has_room is_active assign
unique-take_slot [] c = λ u r h. tt
unique-take_slot (none ∷ slots) c = λ u r h. (h, u)
unique-take_slot (some b ∷ slots) c = λ (fresh, u) r h.
    let apart : str_eq (key_of c.id) (key_of b.id) ≡ false = ground arith in
    let rest : lookup slots (key_of c.id) ≡ none = ground arith in
    (
      lookup-take_slot slots (key_of b.id) c r rest
          ∙ ground (
            arith,
            str_eq_iff (key_of c.id) (key_of b.id),
            str_eq_iff (key_of b.id) (key_of c.id),
          ),
      unique-take_slot slots c u r rest,
    )

pub length-take_slot :
    (slots : List Slot) (opened : Slot) → length (take_slot opened slots) ≡ length slots
unfolding take_slot
length-take_slot [] opened = refl
length-take_slot (none ∷ slots) opened = refl
length-take_slot (some c ∷ slots) opened = ap suc (length-take_slot slots opened)

-- The connection in a slot is the one that is found by its key.
pub found_at :
    (slots : List Slot) (i : ℕ) (c : ClientConnection)
    → UniqueKeys slots
    → get_elem? slots i ≡ some (some c)
    → lookup slots (key_of c.id) ≡ some c
unfolding lookup
found_at [] i c = λ u h. cc
found_at (none ∷ slots) zero c = λ u h. ground arith
found_at (some b ∷ slots) zero c =
    λ (fresh, u) h. ground (arith, str_eq_iff (key_of c.id) (key_of b.id))
found_at (none ∷ slots) (suc i) c = λ u h. found_at slots i c u h
found_at (some b ∷ slots) (suc i) c =
    λ (fresh, u) h. ground (arith, found_at slots i c u h, str_eq_iff (key_of c.id) (key_of b.id))

pub lookup-clear_slot :
    (slots : List Slot) (i : ℕ) (c : ClientConnection) (k : List ℕ)
    → UniqueKeys slots
    → get_elem? slots i ≡ some (some c)
    → lookup (clear_slot i slots) k ≡ assign (lookup slots) (key_of c.id) none k
unfolding lookup clear_slot assign
lookup-clear_slot [] i c k = λ u h. cc
lookup-clear_slot (none ∷ slots) zero c k = λ u h. ground arith
lookup-clear_slot (some b ∷ slots) zero c k =
    λ (fresh, u) h. ground (arith, str_eq_iff k (key_of b.id))
lookup-clear_slot (none ∷ slots) (suc i) c k = λ u h. lookup-clear_slot slots i c k u h
lookup-clear_slot (some b ∷ slots) (suc i) c k = λ (fresh, u) h. ground (
  arith,
  lookup-clear_slot slots i c k u h,
  str_eq_iff k (key_of b.id),
  str_eq_iff k (key_of c.id),
  found_at slots i c u h,
)

pub unique-clear_slot :
    (slots : List Slot) (i : ℕ) → UniqueKeys slots → UniqueKeys (clear_slot i slots)
unfolding clear_slot lookup
unique-clear_slot [] i = λ u. tt
unique-clear_slot (none ∷ slots) zero = λ u. u
unique-clear_slot (some b ∷ slots) zero = λ (fresh, u). u
unique-clear_slot (none ∷ slots) (suc i) = λ u. unique-clear_slot slots i u
unique-clear_slot (some b ∷ slots) (suc i) =
    λ (fresh, u). (cleared slots i (key_of b.id) fresh, unique-clear_slot slots i u)
  where
    cleared :
        (ss : List Slot) (j : ℕ) (k : List ℕ)
        → lookup ss k ≡ none
        → lookup (clear_slot j ss) k ≡ none
    cleared [] j k h = refl
    cleared (none ∷ ss) zero k h = h
    cleared (some c ∷ ss) zero k h = ground arith
    cleared (none ∷ ss) (suc j) k h = cleared ss j k h
    cleared (some c ∷ ss) (suc j) k h = ground (arith, cleared ss j k)

pub length-clear_slot : (slots : List Slot) (i : ℕ) → length (clear_slot i slots) ≡ length slots
unfolding clear_slot
length-clear_slot [] i = refl
length-clear_slot (s ∷ slots) zero = refl
length-clear_slot (s ∷ slots) (suc i) = ap suc (length-clear_slot slots i)

pub count_free-clear_slot :
    (slots : List Slot) (i : ℕ) (c : ClientConnection)
    → get_elem? slots i ≡ some (some c)
    → count_free (clear_slot i slots) ≡ count_free slots + 1
unfolding clear_slot count_free
count_free-clear_slot [] i c h = cc
count_free-clear_slot (none ∷ slots) zero c h = ground arith
count_free-clear_slot (some b ∷ slots) zero c h = omega arith
count_free-clear_slot (none ∷ slots) (suc i) c h = omega (arith, count_free-clear_slot slots i c h)
count_free-clear_slot (some b ∷ slots) (suc i) c h = count_free-clear_slot slots i c h
