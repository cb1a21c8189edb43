-- ===== src/Iam/Handlers.antt =====
-- The CoAP handlers of src/modules/iam that check access and change or look up users, and the handler
-- of authorization requests. What a handler asks of its request, with the connection and the decoded
-- CBOR payload, stands in a record; a response is a code.
pub mod Laws
use nabto_embedded_sdk.Base.{
  ℕ, Bool, true, false, not, ◌||◌, Option, none, some, List, [], ◌∷◌, CString, codes, str_eq,
  if◌then◌else◌, ◌>>=◌,
}
use nabto_embedded_sdk.Nn.{Nn}
use nabto_embedded_sdk.Policies.Condition.{Doubles}
use nabto_embedded_sdk.Iam.{User, Iam, find_user_by_fingerprint}
use nabto_embedded_sdk.Iam.Access.{check_access}
use nabto_embedded_sdk.Iam.Users.{Event, delete_user, add_role_to_user, remove_role_from_user}
use nabto_embedded_sdk.Iam.Pairing.{Paired, pair_new_client}

pub data Response : Type 0 where
  error_response ready : ℕ → Response

pub record Request : Type 0 where
  -- of the connection; `none` if the call fails
  pub fingerprint : Option CString
  pub is_local : Bool
  -- a part of the path that a handler names; `none` is a null pointer
  pub parameter : CString → Option CString
  -- whether the payload is CBOR that can be parsed
  pub has_cbor : Bool
  -- the payload as a text, and the text under a key of a map
  pub text : Option CString
  pub text_at : CString → Option CString
  -- the new server connect token, if the device can make one
  pub token : Option CString

-- The password, as the payload itself or under its key.
pub given_password : Request → Option CString
given_password request = elim request.text [
  | some password ↦ some password
  | none ↦ request.text_at (codes "Password")
]

module _ (nn : Nn) where
  pub record Outcome : Type 0 where
    pub iam : Iam nn
    pub response : Response
    pub events : List Event

  refuse : Iam nn → ℕ → Option Outcome
  refuse iam code = some (record { iam = iam; response = error_response code; events = [] })

  answer : Iam nn → ℕ → List Event → Option Outcome
  answer iam code events = some (record { iam = iam; response = ready code; events = events })

  pub user_attributes : CString → nn.StringMap
  user_attributes user_id = (nn.map_insert nn.map_init (codes "IAM:UserId") user_id).1

  pub user_role_attributes : CString → CString → nn.StringMap
  unfolding user_attributes
  user_role_attributes user_id role_id =
      (nn.map_insert (user_attributes user_id) (codes "IAM:RoleId") role_id).1

module _ (nn : Nn) (d : Doubles) where
  -- The guard of a handler: 403 unless the access check passes.
  guarded :
      Iam nn → Request → CString → Option nn.StringMap → Option (Outcome nn) → Option (Outcome nn)
  unfolding refuse
  guarded iam request action attributes rest =
      check_access nn d iam request.fingerprint action attributes >>= λ granted.
      if granted then rest else refuse nn iam 403

  -- nm_iam_delete_user.c
  pub handle_delete_user : Iam nn → Request → Option (Outcome nn)
  unfolding refuse answer guarded
  handle_delete_user iam request = elim (request.parameter (codes "user")) [
    | none ↦ refuse nn iam 500
    | some user_id ↦
        guarded iam request (codes "IAM:DeleteUser") (some (user_attributes nn user_id))
          (answer nn (delete_user nn iam user_id).0 202 (delete_user nn iam user_id).1)
  ]

  -- nm_iam_add_role_to_user.c
  pub handle_add_role : Iam nn → Request → Option (Outcome nn)
  unfolding refuse answer guarded
  handle_add_role iam request = elim (request.parameter (codes "user")) [
    | none ↦ refuse nn iam 500
    | some user_id ↦ elim (request.parameter (codes "role")) [
      | none ↦ refuse nn iam 500
      | some role_id ↦
          guarded iam request (codes "IAM:AddRoleToUser")
            (some (user_role_attributes nn user_id role_id))
            (let (status, iam', events) = add_role_to_user nn iam user_id role_id in
              answer nn iam' (if status then 201 else 404) events)
    ]
  ]

  -- nm_iam_remove_role_from_user.c
  pub handle_remove_role : Iam nn → Request → Option (Outcome nn)
  unfolding refuse answer guarded
  handle_remove_role iam request = elim (request.parameter (codes "user")) [
    | none ↦ refuse nn iam 500
    | some user_id ↦ elim (request.parameter (codes "role")) [
      | none ↦ refuse nn iam 500
      | some role_id ↦
          guarded iam request (codes "IAM:RemoveRoleFromUser")
            (some (user_role_attributes nn user_id role_id))
            (answer nn (remove_role_from_user nn iam user_id role_id).0 202
              (remove_role_from_user nn iam user_id role_id).1)
    ]
  ]

  -- nm_iam_is_paired.c: a client without a fingerprint has no user.
  handle_is_paired : Iam nn → Request → Option (Outcome nn)
  unfolding refuse answer guarded
  handle_is_paired iam request =
      guarded iam request (codes "Pairing:Get") none (elim request.fingerprint [
        | none ↦ answer nn iam 403 []
        | some f ↦ find_user_by_fingerprint nn iam f >>= λ user.
            answer nn iam (elim user [ none ↦ 403 | some u ↦ 205 ]) []
      ])

  -- The end of both pairing handlers.
  pair : Iam nn → Request → Option (Outcome nn)
  unfolding refuse answer
  pair iam request = pair_new_client nn iam request.fingerprint request.token >>= λ paired.
      elim paired.user [
        | none ↦
            some
              (record { iam = paired.iam; response = error_response 500; events = paired.events })
        | some user ↦ answer nn paired.iam 201 paired.events
      ]

  -- nm_iam_pairing_local.c: `||` looks at the connection only if access is granted.
  unfoldable pub handle_pairing_local : Iam nn → Request → Option (Outcome nn)
  unfolding refuse guarded pair
  handle_pairing_local iam request = guarded iam request (codes "Pairing:Local") none (
      if not request.is_local then refuse nn iam 403 else elim request.fingerprint [
        | none ↦ refuse nn iam 500
        | some f ↦ if not request.has_cbor then refuse nn iam 400 else pair iam request
      ])

  -- `strcmp` with the password of the module, which is null unless password pairing is enabled
  with_password : Iam nn → Request → CString → Option (Outcome nn)
  unfolding refuse pair
  with_password iam request password = iam.pairing_password >>= λ expected.
      if not (str_eq password expected) then refuse nn iam 401 else pair iam request

  -- nm_iam_pairing_password.c
  unfoldable pub handle_pairing_password : Iam nn → Request → Option (Outcome nn)
  unfolding refuse guarded given_password with_password
  handle_pairing_password iam request =
      guarded iam request (codes "Pairing:Password") none (elim request.fingerprint [
        | none ↦ refuse nn iam 500
        | some f ↦
            if not request.has_cbor then refuse nn iam 400 else elim (given_password request) [
              | none ↦ refuse nn iam 400
              | some password ↦ with_password iam request password
            ]
      ])

  -- nm_iam_auth_handler.c: the attributes of the request, inserted in their order
  collect_attributes : nn.StringMap → List (CString × CString) → nn.StringMap
  collect_attributes m [] = m
  collect_attributes m ((k, v) ∷ es) = collect_attributes (nn.map_insert m k v).1 es

  handle_authorization : Iam nn → Option CString → CString → List (CString × CString) → Option Bool
  unfolding collect_attributes
  handle_authorization iam fingerprint action attributes =
      check_access nn d iam fingerprint action (some (collect_attributes nn.map_init attributes))
