-- ===== src/Iam.antt =====
-- src/modules/iam/nm_iam.c, nm_iam_user.c and nm_iam_role.c: users, roles and policies of a device.
-- The vectors of pointers own their objects, so the model has the objects as items. Memory is taken
-- to suffice for `calloc` and `strdup`; the containers say themselves when they run out of it.
pub mod Access
pub mod UserIds
pub mod Users
pub mod Pairing
pub mod Handlers
mod Tests
use nabto_embedded_sdk.Base.{
  Bool, true, false, Option, none, some, List, [], ◌∷◌, CString, str_eq, if◌then◌else◌, ◌>>=◌,
}
use nabto_embedded_sdk.Nn.{Nn}
use nabto_embedded_sdk.Policies.Policy.{Policy}

module _ (nn : Nn) where
  -- `none` in a field is a null pointer.
  pub record User : Type 0 where
    pub id : CString
    pub roles : nn.StringSet
    pub fingerprint : Option CString
    pub server_connect_token : Option CString
    pub attributes : nn.StringMap

  pub record Role : Type 0 where
    pub id : CString
    pub policies : nn.StringSet

  -- The change callback is known by whether it is set.
  pub record Iam : Type 0 where
    pub users : nn.Vector User
    pub roles : nn.Vector Role
    pub policies : nn.Vector (Policy nn)
    pub has_user_changed : Bool
    pub pairing_password : Option CString

  pub user_new : CString → User
  user_new id = record {
    id = id;
    roles = nn.set_init;
    fingerprint = none;
    server_connect_token = none;
    attributes = nn.map_init;
  }

  pub user_add_role : User → CString → Bool × User
  user_add_role user role_id =
      let (done, roles) = nn.set_insert user.roles role_id in (done, record user { roles = roles })

  pub user_remove_role : User → CString → User
  user_remove_role user role_id = record user { roles = nn.set_erase user.roles role_id }

  role_new : CString → Role
  role_new id = record { id = id; policies = nn.set_init }

  role_add_policy : Role → CString → Bool × Role
  role_add_policy role policy =
      let (done, policies) = nn.set_insert role.policies policy in
      (done, record role { policies = policies })

  -- The loop of `nm_iam_find_user_by_fingerprint`: `strcmp` on a null pointer faults.
  pub find_by_fingerprint : List User → CString → Option (Option User)
  find_by_fingerprint [] fingerprint = some none
  find_by_fingerprint (u ∷ us) fingerprint =
      let rest = find_by_fingerprint us fingerprint in
      u.fingerprint >>= λ f. if str_eq f fingerprint then some (some u) else rest

  pub find_user_by_fingerprint : Iam → CString → Option (Option User)
  find_user_by_fingerprint iam fingerprint =
      find_by_fingerprint (nn.vector_items User iam.users) fingerprint

  pub find_by_id : List User → CString → Option User
  find_by_id [] id = none
  find_by_id (u ∷ us) id = let rest = find_by_id us id in if str_eq u.id id then some u else rest

  pub find_user : Iam → CString → Option User
  find_user iam id = find_by_id (nn.vector_items User iam.users) id

  pub find_role_in : List Role → CString → Option Role
  find_role_in [] id = none
  find_role_in (r ∷ rs) id =
      let rest = find_role_in rs id in if str_eq r.id id then some r else rest

  pub find_role : Iam → CString → Option Role
  find_role iam id = find_role_in (nn.vector_items Role iam.roles) id

  pub find_policy_in : List (Policy nn) → CString → Option (Policy nn)
  find_policy_in [] id = none
  find_policy_in (p ∷ ps) id =
      let rest = find_policy_in ps id in if str_eq p.id id then some p else rest

  pub find_policy : Iam → CString → Option (Policy nn)
  find_policy iam id = find_policy_in (nn.vector_items (Policy nn) iam.policies) id
