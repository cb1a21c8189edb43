-- ===== src/Iam/Pairing/Laws.antt =====
-- What pairing a client does.
use nabto_embedded_sdk.Base.{
  >>=-eq-some, ◌≡◌, ◌≢◌, refl, ap, true, Option, none, some, List, [], ◌∷◌, ◌++◌, CString, arith,
  str_eq, str_eq_iff, if◌then◌else◌, length, ◌==◌, Option-cases, Bool-cases, inl, inr, any,
}
use nabto_embedded_sdk.Nn.{Nn}
use nabto_embedded_sdk.Iam.{
  User, Role, Iam, find_by_id, find_user, find_role, find_by_fingerprint, find_user_by_fingerprint,
  user_new,
}
use nabto_embedded_sdk.Iam.UserIds.Fresh.{next_user_id_fresh}
use nabto_embedded_sdk.Iam.Users.{user_changed, add_server_connect_token, add_user}
use nabto_embedded_sdk.Iam.Users.Laws.{UniqueIds}
use nabto_embedded_sdk.Iam.Pairing.{
  after_lookup, Paired, role_for_new_user, paired_user, pair_new_client, pair_unknown, admin_role,
  user_role,
}

module _ (nn : Nn) where
  -- A new user at the end is found by its fingerprint if nobody before has that fingerprint.
  fingerprint-append :
      (us : List (User nn)) (u : User nn) (f : CString)
      → u.fingerprint ≡ some f
      → find_by_fingerprint nn us f ≡ some none
      → find_by_fingerprint nn (us ++ (u ∷ [])) f ≡ some (some u)
  unfolding find_by_fingerprint
  fingerprint-append [] u f e h = ground (arith, str_eq_iff f f)
  fingerprint-append (v ∷ us) u f e h = ground (arith, fingerprint-append us u f e)

  fingerprint-append_other :
      (us : List (User nn)) (u : User nn) (f g : CString)
      → u.fingerprint ≡ some f
      → f ≢ g
      → find_by_fingerprint nn (us ++ (u ∷ [])) g ≡ find_by_fingerprint nn us g
  unfolding find_by_fingerprint
  fingerprint-append_other [] u f g e h = ground (arith, str_eq_iff f g)
  fingerprint-append_other (v ∷ us) u f g e h =
      ground (arith, fingerprint-append_other us u f g e h)

  found_after :
      (us : List (User nn)) (u : User nn) (f g : CString)
      → u.fingerprint ≡ some f
      → find_by_fingerprint nn us f ≡ some none
      → find_by_fingerprint nn (us ++ (u ∷ [])) g
        ≡ (if str_eq f g then some (some u) else find_by_fingerprint nn us g)
  found_after us u f g e h = elim (Bool-cases (str_eq f g)) [
    | inl same ↦ rw same (rw (← (str_eq_iff f g).0 same) (fingerprint-append us u f e h))
    | inr apart ↦ rw apart (fingerprint-append_other us u f g e (ground (arith, str_eq_iff f g)))
  ]

  id-append :
      (us : List (User nn)) (u : User nn) (id : CString)
      → find_by_id nn (us ++ (u ∷ [])) id ≡ elim (find_by_id nn us id) [
        | some v ↦ some v
        | none ↦ if str_eq u.id id then some u else none
      ]
  unfolding find_by_id
  id-append [] u id = refl
  id-append (v ∷ us) u id = ground (arith, id-append us u id)

  unique-append :
      (us : List (User nn)) (u : User nn)
      → find_by_id nn us u.id ≡ none
      → UniqueIds nn us
      → UniqueIds nn (us ++ (u ∷ []))
  unfolding find_by_id
  unique-append [] u h = λ k. (refl, tt)
  unique-append (v ∷ us) u h = λ (fresh, rest). (
    ground (arith, id-append us u v.id, str_eq_iff v.id u.id, str_eq_iff u.id v.id),
    unique-append us u (ground arith) rest,
  )

  module _ (iam : Iam nn) (f token : CString) (role : Role nn)
      (unpaired : find_user_by_fingerprint nn iam f ≡ some none)
      (has_role : find_role nn iam (role_for_new_user nn iam) ≡ some role) where
    -- The outcome of pairing a new client.
    pair_new :
        (id : CString) × (find_user nn iam id ≡ none)
        × (pair_new_client nn iam (some f) (some token) ≡ (
            let user = paired_user nn id (role_for_new_user nn iam) f token in
            some (record {
              iam = (add_user nn iam user).0;
              user = some user;
              events = (add_user nn iam user).1;
            })))
    unfolding pair_new_client add_user
    pair_new =
        let (id, next, free) = next_user_id_fresh nn iam in
        (id, free, rw unpaired (rw (has_role, pair_unknown) (rw next)))

  -- What holds of the state after user `u` was paired with the fingerprint `f` in state `iam`.
  pub record IsPairedWith (iam iam' : Iam nn) (f : CString) (u : User nn) : Type 0 where
    pub fresh : find_user nn iam u.id ≡ none
    pub by_fingerprint :
        (g : CString)
        → find_user_by_fingerprint nn iam' g
          ≡ (if str_eq f g then some (some u) else find_user_by_fingerprint nn iam g)
    pub by_id :
        (id : CString)
        → find_user nn iam' id ≡ (if str_eq u.id id then some u else find_user nn iam id)

  add_user-IsPairedWith :
      (iam : Iam nn) (f : CString) (u : User nn)
      → u.fingerprint ≡ some f
      → find_user_by_fingerprint nn iam f ≡ some none
      → find_user nn iam u.id ≡ none
      → (nn.vector_push_back (User nn) iam.users u).0 ≡ true
      → IsPairedWith iam (add_user nn iam u).0 f u
  unfolding add_user find_user find_user_by_fingerprint
  add_user-IsPairedWith iam f u e unpaired free memory =
      let us = nn.vector_items (User nn) iam.users in
      let items = nn.vector_push_back_true (User nn) iam.users u memory in
      record {
        fresh = free;
        by_fingerprint = λ g. rw items (found_after us u f g e unpaired);
        by_id = λ id. rw items (ground (arith, id-append us u id, str_eq_iff u.id id));
      }

  -- A client with an unknown fingerprint is paired, if the role for it exists, the token could be
  -- made and there is memory: a user with an id that was free, with the client's fingerprint, the token and exactly the
  -- one role, is returned and stored. The role is Admin if there was no user and User otherwise. The
  -- fingerprint then finds that user, and everything else is found as before. The
  -- device is given the token, and the change callback, if it is set, the new id.
  pub pair_new_client_lem :
      (iam : Iam nn) (f token : CString) (role : Role nn)
      → find_user_by_fingerprint nn iam f ≡ some none
      → find_role nn iam (role_for_new_user nn iam) ≡ some role
      → ((u : User nn) → (nn.vector_push_back (User nn) iam.users u).0 ≡ true)
      → ((r : CString) → (nn.set_insert nn.set_init r).0 ≡ true)
      → (p : Paired nn) × (u : User nn) × (pair_new_client nn iam (some f) (some token) ≡ some p)
        × (p.user ≡ some u)
        × IsPairedWith iam p.iam f u
        × ((r : CString)
            → nn.set_contains u.roles r
              ≡ str_eq r (
                  if length (nn.vector_items (User nn) iam.users) == 0
                  then admin_role
                  else user_role))
        × (u.server_connect_token ≡ some token)
        × (p.events
            ≡ add_server_connect_token token
              ∷ (if iam.has_user_changed then user_changed u.id ∷ [] else []))
  unfolding add_user paired_user role_for_new_user user_new
  pair_new_client_lem iam f token role unpaired has_role memory set_memory =
      let (id, free, outcome) = pair_new iam f token role unpaired has_role in
      let user = paired_user nn id (role_for_new_user nn iam) f token in
      (
        record {
          iam = (add_user nn iam user).0;
          user = some user;
          events = (add_user nn iam user).1;
        },
        user,
        outcome,
        refl,
        add_user-IsPairedWith iam f user refl unpaired free (memory user),
        (λ r. ground (
          arith,
          nn.set_insert_true nn.set_init (role_for_new_user nn iam) r
              (set_memory (role_for_new_user nn iam)),
          nn.set_contains_lem nn.set_init r,
          ap (any (str_eq r)) nn.set_elements-init,
        )),
        refl,
        refl,
      )

  unique-added :
      (iam : Iam nn) (u : User nn)
      → UniqueIds nn (nn.vector_items (User nn) iam.users)
      → find_user nn iam u.id ≡ none
      → UniqueIds nn (nn.vector_items (User nn) (add_user nn iam u).0.users)
  unfolding add_user find_user
  unique-added iam u h free = elim (Bool-cases (nn.vector_push_back (User nn) iam.users u).0) [
    | inl pushed ↦
        rw (nn.vector_push_back_true (User nn) iam.users u pushed)
          (unique-append (nn.vector_items (User nn) iam.users) u free h)
    | inr full ↦ rw (nn.vector_push_back_false (User nn) iam.users u full) h
  ]

  unique_after :
      (iam : Iam nn) (f : CString) (token : Option CString) (who : Option (User nn)) (p : Paired nn)
      → UniqueIds nn (nn.vector_items (User nn) iam.users)
      → after_lookup nn iam f token who ≡ some p
      → UniqueIds nn (nn.vector_items (User nn) p.iam.users)
  unfolding after_lookup paired_user user_new
  unique_after iam f token (some user) p h e = ground arith
  unique_after iam f none none p h e = ground arith
  unique_after iam f (some token) none p h e =
      elim (Option-cases (find_role nn iam (role_for_new_user nn iam))) [
        | inl no_role ↦ ground arith
        | inr (role, has) ↦
            let (id, next, free) = next_user_id_fresh nn iam in
            let user = paired_user nn id (role_for_new_user nn iam) f token in
            ground (arith, unique-added iam user h free)
      ]

  -- Pairing keeps the ids of the users unique, whatever the client, the token and the memory.
  pub pair_new_client-UniqueIds :
      (iam : Iam nn) (fingerprint token : Option CString) (p : Paired nn)
      → UniqueIds nn (nn.vector_items (User nn) iam.users)
      → pair_new_client nn iam fingerprint token ≡ some p
      → UniqueIds nn (nn.vector_items (User nn) p.iam.users)
  unfolding pair_new_client
  pair_new_client-UniqueIds iam none token p h e = ground arith
  pair_new_client-UniqueIds iam (some f) token p h e =
      let (who, found, rest) = >>=-eq-some (find_user_by_fingerprint nn iam f) _ e in
      unique_after iam f token who p h rest
