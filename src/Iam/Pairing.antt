-- ===== src/Iam/Pairing.antt =====
-- `nm_iam_pair_new_client` of src/modules/iam/nm_iam.c. The client's fingerprint and the new server
-- connect token come from the device; `none` is an error of that call. The name is not used.
pub mod Laws
use nabto_embedded_sdk.Base.{
  ℕ, Bool, true, false, Option, none, some, List, [], ◌∷◌, CString, codes, length, ◌==◌,
  if◌then◌else◌, ◌>>=◌,
}
use nabto_embedded_sdk.Nn.{Nn}
use nabto_embedded_sdk.Iam.{User, Iam, user_new, find_user_by_fingerprint, find_role}
use nabto_embedded_sdk.Iam.UserIds.{next_user_id}
use nabto_embedded_sdk.Iam.Users.{Event, add_user}

-- The role of the first user, and of every later one.
abbrev pub admin_role : CString
admin_role = codes "Admin"

abbrev pub user_role : CString
user_role = codes "User"

module _ (nn : Nn) where
  -- The new state, the user that is returned, and the calls made outside.
  pub record Paired : Type 0 where
    pub iam : Iam nn
    pub user : Option (User nn)
    pub events : List Event

  unchanged : Iam nn → Option (User nn) → Option Paired
  unchanged iam user = some (record { iam = iam; user = user; events = [] })

  unfoldable pub role_for_new_user : Iam nn → CString
  role_for_new_user iam =
      if length (nn.vector_items (User nn) iam.users) == 0 then admin_role else user_role

  -- The user that is built from the id, the role, the fingerprint and the token.
  unfoldable pub paired_user : CString → CString → CString → CString → User nn
  paired_user id role_str fingerprint token = record (user_new nn id) {
    roles = (nn.set_insert (user_new nn id).roles role_str).1;
    fingerprint = some fingerprint;
    server_connect_token = some token;
  }

  added : Iam nn → User nn → Option Paired
  added iam user =
      let (iam', events) = add_user nn iam user in
      some (record { iam = iam'; user = some user; events = events })

  -- The part after the test for a user who is already paired.
  pair_unknown : Iam nn → CString → Option CString → Option Paired
  unfolding unchanged added
  pair_unknown iam fingerprint sct =
      let role_str = role_for_new_user iam in
      elim (find_role nn iam role_str) [
        | none ↦ unchanged iam none
        | some role ↦ elim sct [
          | none ↦ unchanged iam none
          | some token ↦
              next_user_id nn iam >>= λ id. added iam (paired_user id role_str fingerprint token)
        ]
      ]

  after_lookup : Iam nn → CString → Option CString → Option (User nn) → Option Paired
  unfolding unchanged pair_unknown
  after_lookup iam fingerprint sct (some user) = unchanged iam (some user)
  after_lookup iam fingerprint sct none = pair_unknown iam fingerprint sct

  -- `none` is a fault.
  unfoldable pub pair_new_client : Iam nn → Option CString → Option CString → Option Paired
  unfolding after_lookup unchanged
  pair_new_client iam none sct = unchanged iam none
  pair_new_client iam (some fingerprint) sct =
      find_user_by_fingerprint nn iam fingerprint >>= λ user. after_lookup iam fingerprint sct user
