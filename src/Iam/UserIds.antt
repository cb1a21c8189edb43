-- ===== src/Iam/UserIds.antt =====
-- `nm_iam_next_user_id` of src/modules/iam/nm_iam.c: the first number from 1 that is no user's id.
-- The loop takes fuel, and one round more than there are users is enough. The buffer of 20 bytes
-- holds every `int`, and the counter is at most one more than the number of users.
pub mod Fresh
use nabto_embedded_sdk.Base.{
  ℕ, zero, suc, ◌+◌, ◌/◌, ◌%◌, Option, none, some, List, [], ◌∷◌, ◌++◌, CString, ltb, if◌then◌else◌,
  length,
}
use nabto_embedded_sdk.Nn.{Nn}
use nabto_embedded_sdk.Iam.{User, Iam, find_by_id}

-- `sprintf(id, "%d", i)` of a number that is not negative, by rounds of fuel above the number.
pub digits : ℕ → ℕ → CString
digits zero n = []
digits (suc f) n =
    let rest = digits f (n / 10) in if ltb n 10 then (48 + n) ∷ [] else rest ++ ((48 + n % 10) ∷ [])

unfoldable pub decimal : ℕ → CString
unfolding digits
decimal n = digits (suc n) n

module _ (nn : Nn) where
  -- The loop, from the counter before its increment; `none` if the fuel is used up.
  pub next_id : ℕ → ℕ → List (User nn) → Option CString
  next_id zero i users = none
  next_id (suc f) i users =
      let rest = next_id f (i + 1) users in
      elim (find_by_id nn users (decimal (i + 1))) [ none ↦ some (decimal (i + 1)) | some u ↦ rest ]

  unfoldable pub next_user_id : Iam nn → Option CString
  unfolding next_id
  next_user_id iam =
      let users = nn.vector_items (User nn) iam.users in next_id (suc (length users)) 0 users
