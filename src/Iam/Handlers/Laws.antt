-- ===== src/Iam/Handlers/Laws.antt =====
-- What the handlers let through.
use nabto_embedded_sdk.Base.{
  ◌≡◌, ◌≢◌, true, false, not, Option, none, some, [], CString, codes, arith, str_eq_iff,
  if◌then◌else◌, Option-cases, Bool-cases, inl, inr, >>=-eq-some,
}
use nabto_embedded_sdk.Nn.{Nn}
use nabto_embedded_sdk.Policies.Condition.{Doubles}
use nabto_embedded_sdk.Iam.{Iam}
use nabto_embedded_sdk.Iam.Access.{check_access}
use nabto_embedded_sdk.Iam.Handlers.{
  error_response, ready, Request, Outcome, refuse, user_attributes, user_role_attributes,
  handle_delete_user, handle_add_role, guarded, given_password, with_password, handle_remove_role,
  handle_pairing_local, handle_pairing_password,
}

module _ (nn : Nn) (d : Doubles) where
  -- The handlers that change users.
  pub data Changing : Type 0 where
    delete_user add_role remove_role pairing_local pairing_password : Changing

  abbrev pub handle : Changing → Iam nn → Request → Option (Outcome nn)
  handle delete_user iam request = handle_delete_user nn d iam request
  handle add_role iam request = handle_add_role nn d iam request
  handle remove_role iam request = handle_remove_role nn d iam request
  handle pairing_local iam request = handle_pairing_local nn d iam request
  handle pairing_password iam request = handle_pairing_password nn d iam request

  -- The action that a handler asks for, and the attributes of it.
  abbrev action_of : Changing → CString
  action_of delete_user = codes "IAM:DeleteUser"
  action_of add_role = codes "IAM:AddRoleToUser"
  action_of remove_role = codes "IAM:RemoveRoleFromUser"
  action_of pairing_local = codes "Pairing:Local"
  action_of pairing_password = codes "Pairing:Password"

  abbrev asked : Changing → CString → CString → Option nn.StringMap
  asked delete_user user_id role_id = some (user_attributes nn user_id)
  asked add_role user_id role_id = some (user_role_attributes nn user_id role_id)
  asked remove_role user_id role_id = some (user_role_attributes nn user_id role_id)
  asked pairing_local user_id role_id = none
  asked pairing_password user_id role_id = none

  -- Where the access check refuses a request with both path parameters, the handlers that change
  -- users answer 403, change nothing and make no call outside.
  pub denied_changes_nothing :
      (h : Changing) (iam : Iam nn) (request : Request) (user_id role_id : CString)
      → request.parameter (codes "user") ≡ some user_id
      → request.parameter (codes "role") ≡ some role_id
      → check_access nn d iam request.fingerprint (action_of h) (asked h user_id role_id)
        ≡ some false
      → handle h iam request
        ≡ some (record { iam = iam; response = error_response 403; events = [] })
  unfolding handle_delete_user handle_add_role handle_remove_role handle_pairing_local
      handle_pairing_password
  denied_changes_nothing delete_user iam request user_id role_id u r h =
      rw (u, handle_delete_user) (rw h)
  denied_changes_nothing add_role iam request user_id role_id u r h =
      rw (u, handle_add_role) (rw (r, handle_add_role) (rw h))
  denied_changes_nothing remove_role iam request user_id role_id u r h =
      rw (u, handle_remove_role) (rw (r, handle_remove_role) (rw h))
  denied_changes_nothing pairing_local iam request user_id role_id u r h = rw h
  denied_changes_nothing pairing_password iam request user_id role_id u r h = rw h

  -- A guarded handler that answers something else than 403 has passed the access check.
  passed :
      (iam : Iam nn) (request : Request) (action : CString) (attributes : Option nn.StringMap)
      (rest : Option (Outcome nn)) (out : Outcome nn)
      → guarded nn d iam request action attributes rest ≡ some out
      → out.response ≢ error_response 403
      → (check_access nn d iam request.fingerprint action attributes ≡ some true)
        × (rest ≡ some out)
  unfolding guarded
  passed iam request action attributes rest out h k =
      elim (Option-cases (check_access nn d iam request.fingerprint action attributes)) [
        | inl fault ↦ absurd (ground arith)
        | inr (granted, e) ↦ elim (Bool-cases granted) [
          | inl yes' ↦ (ground arith, ground arith)
          | inr no' ↦ absurd (k (ground arith))
        ]
      ]

  -- A client is paired by the local pairing handler only if the access check passes for the action
  -- of local pairing and the connection is local.
  pub pairing_local_needs :
      (iam : Iam nn) (request : Request) (out : Outcome nn)
      → handle_pairing_local nn d iam request ≡ some out
      → out.response ≡ ready 201
      → (check_access nn d iam request.fingerprint (codes "Pairing:Local") none ≡ some true)
        × (request.is_local ≡ true)
  unfolding handle_pairing_local
  pairing_local_needs iam request out h k =
      let (granted, rest) =
        passed iam request (codes "Pairing:Local") none _ out h (ground arith) in
      (granted, ground arith)

  -- The part of the password handler behind the access check.
  password_given :
      (iam : Iam nn) (request : Request) (out : Outcome nn)
      → elim request.fingerprint [
        | none ↦ refuse nn iam 500
        | some f ↦
            if not request.has_cbor then refuse nn iam 400 else elim (given_password request) [
              | none ↦ refuse nn iam 400
              | some password ↦ with_password nn d iam request password
            ]
      ]
        ≡ some out
      → out.response ≡ ready 201
      → (password : CString) × (given_password request ≡ some password)
        × (with_password nn d iam request password ≡ some out)
  unfolding refuse
  password_given iam request out h k = elim (Option-cases request.fingerprint) [
    | inl e ↦ absurd (ground arith)
    | inr (f, e) ↦ elim (Option-cases (given_password request)) [
      | inl e' ↦ absurd (ground arith)
      | inr (password, e') ↦ (password, e', ground arith)
    ]
  ]

  -- A client is paired by the password handler only if the access check passes for the action of
  -- password pairing, password pairing is enabled, and the password of the request is the module's.
  pub pairing_password_needs :
      (iam : Iam nn) (request : Request) (out : Outcome nn)
      → handle_pairing_password nn d iam request ≡ some out
      → out.response ≡ ready 201
      → (check_access nn d iam request.fingerprint (codes "Pairing:Password") none ≡ some true)
        × (given_password request ≡ iam.pairing_password)
        × (iam.pairing_password ≢ none)
  unfolding handle_pairing_password
  pairing_password_needs iam request out h k =
      let (granted, rest) =
        passed iam request (codes "Pairing:Password") none _ out h (ground arith) in
      let (password, given, e) = password_given iam request out rest k in
      let (expected, set', e') = >>=-eq-some iam.pairing_password _ e in
      (granted, ground (arith, str_eq_iff password expected), (λ n. ground arith))

  -- Where password pairing is not enabled, a request that passes the access check and carries a
  -- password makes the handler compare it with a null pointer.
  pub pairing_password_fault :
      (iam : Iam nn) (request : Request) (f password : CString)
      → iam.pairing_password ≡ none
      → request.fingerprint ≡ some f
      → request.has_cbor ≡ true
      → request.text ≡ some password
      → check_access nn d iam request.fingerprint (codes "Pairing:Password") none ≡ some true
      → handle_pairing_password nn d iam request ≡ none
  unfolding handle_pairing_password
  pairing_password_fault iam request f password p e c t granted = ground arith
