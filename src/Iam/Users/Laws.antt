-- ===== src/Iam/Users/Laws.antt =====
-- Users are found, deleted and changed by their ids.
use nabto_embedded_sdk.Base.{
  ℕ, zero, suc, ◌≡◌, refl, false, not, ◌&&◌, none, some, List, [], ◌∷◌, ◌++◌, CString, arith,
  str_eq, str_eq_iff, if◌then◌else◌, take, drop, set, Option-cases, Bool-cases, inl, inr,
}
use nabto_embedded_sdk.Nn.{Nn}
use nabto_embedded_sdk.Iam.{
  User, Role, Iam, find_by_id, find_user, find_role, user_remove_role, user_add_role,
}
use nabto_embedded_sdk.Iam.Users.{
  index_of, delete_user, find_place, user_at, remove_role_from_user, add_role_to_user,
}

module _ (nn : Nn) where
  -- No two users have one id.
  abbrev pub UniqueIds : List (User nn) → Type 0
  UniqueIds [] = Unit
  UniqueIds (u ∷ us) = (find_by_id nn us u.id ≡ none) × UniqueIds us

  -- The place of an id.
  index_of-find_by_id :
      (us : List (User nn)) (id : CString)
      → find_by_id nn us id ≡ elim (index_of nn us id) [ none ↦ none | some i ↦ user_at nn us i ]
  unfolding index_of find_by_id user_at
  index_of-find_by_id [] id = refl
  index_of-find_by_id (u ∷ us) id = ground (arith, index_of-find_by_id us id)

  find_erased :
      (us : List (User nn)) (i : ℕ) (id other : CString)
      → index_of nn us id ≡ some i
      → str_eq id other ≡ false
      → find_by_id nn (take i us ++ drop (suc i) us) other ≡ find_by_id nn us other
  unfolding index_of find_by_id
  find_erased [] i id other h k = cc
  find_erased (u ∷ us) zero id other h k = ground (arith, str_eq_iff u.id id)
  find_erased (u ∷ us) (suc i) id other h k = ground (arith, find_erased us i id other)

  unique_erased :
      (us : List (User nn)) (i : ℕ) (id : CString)
      → index_of nn us id ≡ some i
      → UniqueIds us
      → find_by_id nn (take i us ++ drop (suc i) us) id ≡ none
  unfolding index_of find_by_id
  unique_erased [] i id h u = cc
  unique_erased (u ∷ us) zero id h (fresh, rest) = ground (arith, str_eq_iff u.id id)
  unique_erased (u ∷ us) (suc i) id h (fresh, rest) = ground (arith, unique_erased us i id)

  -- Where ids are unique, deleting a user leaves no user with that id and every other id with the
  -- user that it had.
  pub delete_user_lem :
      (iam : Iam nn) (id other : CString)
      → UniqueIds (nn.vector_items (User nn) iam.users)
      → find_user nn (delete_user nn iam id).0 other
        ≡ (if str_eq id other then none else find_user nn iam other)
  unfolding delete_user find_user
  delete_user_lem iam id other u =
      elim (Option-cases (index_of nn (nn.vector_items (User nn) iam.users) id)) [
        | inl absent ↦
            rw (absent, delete_user)
              (ground (
                arith,
                index_of-find_by_id (nn.vector_items (User nn) iam.users) id,
                str_eq_iff id other,
              ))
        | inr (i, e) ↦
            let us = nn.vector_items (User nn) iam.users in
            rw (e, delete_user)
              (rw (nn.vector_items-erase (User nn) iam.users i)
                (elim (Bool-cases (str_eq id other)) [
                  | inl same ↦
                      rw same (rw (← (str_eq_iff id other).0 same) (unique_erased us i id e u))
                  | inr apart ↦ rw apart (find_erased us i id other e apart)
                ]))
      ]

  unique-take-drop :
      (us : List (User nn)) (i : ℕ) → UniqueIds us → UniqueIds (take i us ++ drop (suc i) us)
  unfolding find_by_id
  unique-take-drop [] zero = λ h. tt
  unique-take-drop [] (suc i) = λ h. tt
  unique-take-drop (u ∷ us) zero = λ h. h.1
  unique-take-drop (u ∷ us) (suc i) =
      λ (fresh, rest). (not_found us i u.id fresh, unique-take-drop us i rest)
    where
      not_found :
          (vs : List (User nn)) (j : ℕ) (id : CString)
          → find_by_id nn vs id ≡ none
          → find_by_id nn (take j vs ++ drop (suc j) vs) id ≡ none
      not_found [] zero id h = h
      not_found [] (suc j) id h = h
      not_found (v ∷ vs) zero id h = ground arith
      not_found (v ∷ vs) (suc j) id h = ground (arith, not_found vs j id)

  -- Deletion keeps ids unique.
  delete_user-UniqueIds :
      (iam : Iam nn) (id : CString)
      → UniqueIds (nn.vector_items (User nn) iam.users)
      → UniqueIds (nn.vector_items (User nn) (delete_user nn iam id).0.users)
  unfolding delete_user
  delete_user-UniqueIds iam id u =
      elim (Option-cases (index_of nn (nn.vector_items (User nn) iam.users) id)) [
        | inl absent ↦ rw (absent, delete_user) u
        | inr (i, e) ↦
            rw (e, delete_user)
              (rw (nn.vector_items-erase (User nn) iam.users i)
                (unique-take-drop (nn.vector_items (User nn) iam.users) i u))
      ]

  -- A write at the place of an id, of a user with that id.
  find_written :
      (us : List (User nn)) (i : ℕ) (id other : CString) (user : User nn)
      → index_of nn us id ≡ some i
      → user.id ≡ id
      → find_by_id nn (set us i user) other
        ≡ (if str_eq id other then some user else find_by_id nn us other)
  unfolding index_of find_by_id
  find_written [] i id other user h k = cc
  find_written (u ∷ us) zero id other user h k = ground (arith, str_eq_iff u.id id)
  find_written (u ∷ us) (suc i) id other user h k = ground (
    arith,
    find_written us i id other user,
    str_eq_iff u.id other,
    str_eq_iff id other,
    str_eq_iff u.id id,
  )

  found_place :
      (iam : Iam nn) (id : CString) (user : User nn)
      → find_user nn iam id ≡ some user
      → (i : ℕ) × (index_of nn (nn.vector_items (User nn) iam.users) id ≡ some i)
        × (find_place nn iam id ≡ some (i, user))
  unfolding find_user find_place
  found_place iam id user h =
      let us = nn.vector_items (User nn) iam.users in
      elim (Option-cases (index_of nn us id)) [
        | inl absent ↦ ground (arith, index_of-find_by_id us id)
        | inr (i, e) ↦ (i, e, ground (arith, index_of-find_by_id us id))
      ]

  find_by_id-id :
      (us : List (User nn)) (id : CString) (user : User nn)
      → find_by_id nn us id ≡ some user
      → user.id ≡ id
  unfolding find_by_id
  find_by_id-id [] id user h = cc
  find_by_id-id (u ∷ us) id user h = ground (arith, str_eq_iff u.id id, find_by_id-id us id user)

  -- For a user and a role that exist, adding the role answers whether there was memory for it;
  -- afterwards the user's id finds the user with the new role set, and every other id what it found
  -- before.
  pub add_role_to_user_lem :
      (iam : Iam nn) (user_id role_id other : CString) (user : User nn) (role : Role nn)
      → find_user nn iam user_id ≡ some user
      → find_role nn iam role_id ≡ some role
      → let (status, iam', events) = add_role_to_user nn iam user_id role_id in
        (status ≡ (user_add_role nn user role_id).0)
        × (find_user nn iam' other ≡ (
            if str_eq user_id other
            then some (user_add_role nn user role_id).1
            else find_user nn iam other))
  unfolding add_role_to_user user_add_role find_user
  add_role_to_user_lem iam user_id role_id other user role h k =
      let us = nn.vector_items (User nn) iam.users in
      let (i, e, p) = found_place iam user_id user h in
      rw (p, add_role_to_user)
        (rw k (
          refl,
          rw (nn.vector_items-write (User nn) iam.users i) (
              find_written us i user_id other (user_add_role nn user role_id).1 e
                (find_by_id-id us user_id user h)),
        ))

  -- For a user that exists, removing a role leaves the user with all other roles and without that
  -- one, and every other id with what it found before.
  pub remove_role_from_user_lem :
      (iam : Iam nn) (user_id role_id other r : CString) (user : User nn)
      → find_user nn iam user_id ≡ some user
      → let (iam', events) = remove_role_from_user nn iam user_id role_id in
        (find_user nn iam' other ≡ (
          if str_eq user_id other
          then some (user_remove_role nn user role_id)
          else find_user nn iam other))
        × (nn.set_contains (user_remove_role nn user role_id).roles r
            ≡ (not (str_eq r role_id) && nn.set_contains user.roles r))
  unfolding remove_role_from_user user_remove_role find_user
  remove_role_from_user_lem iam user_id role_id other r user h =
      let us = nn.vector_items (User nn) iam.users in
      let (i, e, p) = found_place iam user_id user h in
      rw (p, remove_role_from_user)
        (
          rw (nn.vector_items-write (User nn) iam.users i) (
              find_written us i user_id other (user_remove_role nn user role_id) e
                (find_by_id-id us user_id user h)),
          nn.set_contains-erase user.roles role_id r,
        )
