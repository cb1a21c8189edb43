-- ===== src/Iam/Users.antt =====
-- The changes of users in src/modules/iam/nm_iam.c. A function returns the new state and the calls
-- that it makes outside: of the change callback, if one is set, and of the device for a token.
pub mod Laws
use nabto_embedded_sdk.Base.{
  ℕ, zero, suc, Bool, true, false, Option, none, some, List, [], ◌∷◌, ◌++◌, CString, str_eq,
  if◌then◌else◌,
}
use nabto_embedded_sdk.Nn.{Nn}
use nabto_embedded_sdk.Policies.Policy.{Policy}
use nabto_embedded_sdk.Iam.{User, Role, Iam, user_add_role, user_remove_role, find_role}

pub data Event : Type 0 where
  user_changed add_server_connect_token : CString → Event

module _ (nn : Nn) where
  changed : Iam nn → CString → List Event
  changed iam id = if iam.has_user_changed then user_changed id ∷ [] else []

  token_added : Option CString → List Event
  token_added none = []
  token_added (some token) = add_server_connect_token token ∷ []

  -- The result of `nn_vector_push_back` is not looked at.
  unfoldable pub add_user : Iam nn → User nn → Iam nn × List Event
  unfolding changed token_added
  add_user iam user = (
    record iam { users = (nn.vector_push_back (User nn) iam.users user).1 },
    token_added user.server_connect_token ++ changed iam user.id,
  )

  pub add_role : Iam nn → Role nn → Iam nn
  add_role iam role = record iam { roles = (nn.vector_push_back (Role nn) iam.roles role).1 }

  add_policy : Iam nn → Policy nn → Iam nn
  add_policy iam policy = record iam {
    policies = (nn.vector_push_back (Policy nn) iam.policies policy).1;
  }

  -- The index of the first user with the id: the `i` of the loop of `nm_iam_delete_user`, and the
  -- place of the object to which `nm_iam_find_user` points.
  pub index_of : List (User nn) → CString → Option ℕ
  index_of [] id = none
  index_of (u ∷ us) id =
      let rest = index_of us id in
      if str_eq u.id id then some 0 else elim rest [ none ↦ none | some i ↦ some (suc i) ]

  pub delete_user : Iam nn → CString → Iam nn × List Event
  unfolding changed
  delete_user iam id = elim (index_of (nn.vector_items (User nn) iam.users) id) [
    | none ↦ (iam, [])
    | some i ↦ (record iam { users = nn.vector_erase (User nn) iam.users i }, changed iam id)
  ]

  user_at : List (User nn) → ℕ → Option (User nn)
  user_at [] i = none
  user_at (u ∷ us) zero = some u
  user_at (u ∷ us) (suc i) = user_at us i

  -- A user is found and changed in place.
  pub find_place : Iam nn → CString → Option (ℕ × User nn)
  unfolding user_at
  find_place iam id = elim (index_of (nn.vector_items (User nn) iam.users) id) [
    | none ↦ none
    | some i ↦ elim (user_at (nn.vector_items (User nn) iam.users) i) [
      | none ↦ none
      | some u ↦ some (i, u)
    ]
  ]

  pub remove_role_from_user : Iam nn → CString → CString → Iam nn × List Event
  unfolding changed
  remove_role_from_user iam user_id role_id = elim (find_place iam user_id) [
    | none ↦ (iam, [])
    | some (i, user) ↦ (
      record iam {
        users = nn.vector_write (User nn) iam.users i (user_remove_role nn user role_id);
      },
      changed iam user_id,
    )
  ]

  -- The change of the user that `nm_iam_user_add_role` makes, and the callback if there was memory.
  with_role : Iam nn → CString → ℕ → Bool × User nn → Bool × Iam nn × List Event
  with_role iam user_id i (status, user) = (
    status,
    record iam { users = nn.vector_write (User nn) iam.users i user },
    if status then changed iam user_id else [],
  )

  pub add_role_to_user : Iam nn → CString → CString → Bool × Iam nn × List Event
  unfolding with_role changed
  add_role_to_user iam user_id role_id = elim (find_place iam user_id) [
    | none ↦ (false, iam, [])
    | some (i, user) ↦ elim (find_role nn iam role_id) [
      | none ↦ (false, iam, [])
      | some role ↦ with_role iam user_id i (user_add_role nn user role_id)
    ]
  ]
