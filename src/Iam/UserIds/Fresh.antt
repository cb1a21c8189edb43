-- ===== src/Iam/UserIds/Fresh.antt =====
-- The next user id is found, and is free.
use nabto_embedded_sdk.Base.{
  ℕ, zero, suc, ◌+◌, ◌-◌, ◌*◌, ◌/◌, ◌≤◌, ◌<◌, ◌≡◌, ◌≢◌, refl, sym, ap, ◌∙◌, Bool, true, none, some,
  List, [], ◌∷◌, ◌++◌, CString, arith, ltb, ◌==◌, if◌then◌else◌, length, any, str_eq, str_eq_iff,
  Bool-cases, Option-cases, ==_iff, inl, inr,
}
use nabto_embedded_sdk.Nn.{Nn}
use nabto_embedded_sdk.Iam.{User, Iam, find_by_id, find_user}
use nabto_embedded_sdk.Iam.UserIds.{digits, decimal, next_id, next_user_id}

-- The number that a text of digits stands for.
value_from : ℕ → CString → ℕ
value_from acc [] = acc
value_from acc (c ∷ cs) = value_from (acc * 10 + (c - 48)) cs

value_from-append :
    (acc : ℕ) (s t : CString) → value_from acc (s ++ t) ≡ value_from (value_from acc s) t
unfolding value_from
value_from-append acc [] t = refl
value_from-append acc (c ∷ s) t = value_from-append (acc * 10 + (c - 48)) s t

value_from-digits : (f n : ℕ) → n < f → value_from 0 (digits f n) ≡ n
unfolding value_from digits
value_from-digits zero n h = absurd (omega arith)
value_from-digits (suc f) n h = elim (Bool-cases (ltb n 10)) [
  | inl small ↦ rw small (omega arith)
  | inr big ↦
      rw big (rw value_from-append (rw (value_from-digits f (n / 10) (ground arith)) (omega arith)))
]

-- Different numbers are printed as different texts.
decimal_injective : (m n : ℕ) → decimal m ≡ decimal n → m ≡ n
unfolding decimal
decimal_injective m n e =
    sym (value_from-digits (suc m) m (omega arith))
    ∙ ap (value_from 0) e
    ∙ value_from-digits (suc n) n (omega arith)

mem : ℕ → List ℕ → Bool
mem j ns = any (λ n. n == j) ns

remove_one : ℕ → List ℕ → List ℕ
remove_one j [] = []
remove_one j (n ∷ ns) = let rest = remove_one j ns in if n == j then ns else n ∷ rest

length-remove_one :
    (j : ℕ) (ns : List ℕ) → mem j ns ≡ true → length (remove_one j ns) + 1 ≡ length ns
unfolding mem remove_one
length-remove_one j [] h = ground arith
length-remove_one j (n ∷ ns) h = ground (arith, length-remove_one j ns)

mem-remove_one : (j k : ℕ) (ns : List ℕ) → k ≢ j → mem k (remove_one j ns) ≡ mem k ns
unfolding mem remove_one
mem-remove_one j k [] h = refl
mem-remove_one j k (n ∷ ns) h = ground (arith, mem-remove_one j k ns h)

-- A list that holds `k` numbers in a row has at least `k` items.
pigeonhole :
    (k i : ℕ) (ns : List ℕ) → ((j : ℕ) → i < j → j ≤ i + k → mem j ns ≡ true) → k ≤ length ns
pigeonhole zero i ns h = omega arith
pigeonhole (suc k) i ns h =
    let top = suc (i + k) in
    let present = h top (omega arith) (omega arith) in
    let fewer =
      pigeonhole k i (remove_one top ns)
        (λ j low high. mem-remove_one top j ns (omega arith) ∙ h j low (omega arith)) in
    omega (arith, length-remove_one top ns present)

module _ (nn : Nn) where
  ids : List (User nn) → List ℕ
  ids [] = []
  ids (u ∷ us) = value_from 0 u.id ∷ ids us

  length-ids : (us : List (User nn)) → length (ids us) ≡ length us
  unfolding ids
  length-ids [] = refl
  length-ids (u ∷ us) = ap suc (length-ids us)

  mem-ids :
      (us : List (User nn)) (j : ℕ) → find_by_id nn us (decimal j) ≢ none → mem j (ids us) ≡ true
  unfolding find_by_id ids mem decimal
  mem-ids [] j h = absurd (h refl)
  mem-ids (u ∷ us) j h = elim (Bool-cases (str_eq u.id (digits (suc j) j))) [
    | inl same ↦
        let e : value_from 0 u.id ≡ j =
          ap (value_from 0) ((str_eq_iff _ _).0 same) ∙ value_from-digits (suc j) j (omega arith) in
        ground arith
    | inr other ↦ ground (arith, mem-ids us j)
  ]

  -- If the fuel is used up, all the ids that were tried are taken.
  next_id-none :
      (f i : ℕ) (us : List (User nn)) (j : ℕ)
      → next_id nn f i us ≡ none
      → i < j
      → j ≤ i + f
      → find_by_id nn us (decimal j) ≢ none
  unfolding next_id
  next_id-none zero i us j h low high = absurd (omega arith)
  next_id-none (suc f) i us j h low high =
      elim (Option-cases (find_by_id nn us (decimal (i + 1)))) [
        | inl free ↦ ground arith
        | inr (u, taken) ↦ elim (Bool-cases (j == i + 1)) [
          | inl here ↦ λ e. ground (arith, ap decimal ((==_iff j (i + 1)).0 here))
          | inr later ↦ next_id-none f (i + 1) us j (ground arith) (ground arith) (omega arith)
        ]
      ]

  -- The id that the loop returns is free.
  next_id_free :
      (f i : ℕ) (us : List (User nn)) (id : CString)
      → next_id nn f i us ≡ some id
      → find_by_id nn us id ≡ none
  unfolding next_id
  next_id_free zero i us id h = cc
  next_id_free (suc f) i us id h = elim (Option-cases (find_by_id nn us (decimal (i + 1)))) [
    | inl free ↦ rw (← free) (ap (find_by_id nn us) (ground arith))
    | inr (u, taken) ↦ next_id_free f (i + 1) us id (ground arith)
  ]

  -- The search for a new user id ends within one round more than there are users, and the id that it
  -- finds is no user's.
  pub next_user_id_fresh :
      (iam : Iam nn)
      → (id : CString) × (next_user_id nn iam ≡ some id) × (find_user nn iam id ≡ none)
  unfolding next_user_id find_user
  next_user_id_fresh iam =
      let us = nn.vector_items (User nn) iam.users in
      elim (Option-cases (next_id nn (suc (length us)) 0 us)) [
        | inl stuck ↦
            let long =
              pigeonhole (suc (length us)) 0 (ids us) (λ j low high.
                mem-ids us j (next_id-none (suc (length us)) 0 us j stuck low high)) in
            absurd (omega (arith, length-ids us))
        | inr (id, e) ↦ (id, e, next_id_free (suc (length us)) 0 us id e)
      ]
