-- ===== src/Iam/Access.antt =====
-- The access checks of src/modules/iam/nm_iam.c. The client's fingerprint comes from the connection
-- of the request; `none` stands for an error of that call.
pub mod Laws
pub mod Roles
pub mod Grants
use nabto_embedded_sdk.Base.{
  Bool, true, false, Option, none, some, List, [], ◌∷◌, CString, codes, if◌then◌else◌, ◌>>=◌,
}
use nabto_embedded_sdk.Nn.{Nn}
use nabto_embedded_sdk.Policies.Condition.{Doubles}
use nabto_embedded_sdk.Policies.Statement.{Effect, allow, deny, no_match, error}
use nabto_embedded_sdk.Policies.Policy.{EvalState, policy_eval, eval_init, eval_get_effect}
use nabto_embedded_sdk.Iam.{User, Role, Iam, find_user_by_fingerprint, find_role, find_policy}

-- The role of clients that are not paired.
abbrev pub unpaired_role : CString
unpaired_role = codes "Unpaired"

abbrev pub user_id_attribute : CString
user_id_attribute = codes "Connection:UserId"

module _ (nn : Nn) where
  -- The copy of the attributes that were passed, entry by entry.
  copy_attributes : nn.StringMap → List (CString × CString) → nn.StringMap
  copy_attributes m [] = m
  copy_attributes m ((k, v) ∷ es) = copy_attributes (nn.map_insert m k v).1 es

  pub attributes_of : Option nn.StringMap → nn.StringMap
  unfolding copy_attributes
  attributes_of none = nn.map_init
  attributes_of (some m) = copy_attributes nn.map_init (nn.map_entries m)

module _ (nn : Nn) (d : Doubles) (iam : Iam nn) (action : CString) (attributes : nn.StringMap) where
  -- The loop over the policies of a role; `nm_policy_eval` on a null pointer faults.
  unfoldable pub eval_policies : EvalState → List CString → Option EvalState
  eval_policies state [] = some state
  eval_policies state (p ∷ ps) = find_policy nn iam p >>= λ policy.
      eval_policies (policy_eval nn d state policy action attributes) ps

  unfoldable pub check_access_role : Role nn → Option Effect
  check_access_role role = eval_policies eval_init (nn.set_elements role.policies) >>= λ state.
      some (eval_get_effect state)

  -- One role's effect: it ends the loop, or the loop goes on with a new result.
  after_role : Effect → Option Effect → Option Effect → Option Effect
  after_role error allowed unchanged = some error
  after_role deny allowed unchanged = some deny
  after_role allow allowed unchanged = allowed
  after_role no_match allowed unchanged = unchanged

  -- The loop over the roles of a user.
  pub check_roles : Effect → List CString → Option Effect
  unfolding after_role
  check_roles result [] = some result
  check_roles result (r ∷ rs) =
      let allowed = check_roles allow rs in
      let unchanged = check_roles result rs in
      elim (find_role nn iam r) [
        | none ↦ some error
        | some role ↦ check_access_role role >>= λ e. after_role e allowed unchanged
      ]

  pub check_access_user : User nn → Option Effect
  check_access_user user = check_roles no_match (nn.set_elements user.roles)

  unfoldable pub check_unpaired : Option Effect
  check_unpaired = elim (find_role nn iam unpaired_role) [
    | none ↦ some error
    | some role ↦ check_access_role role
  ]

verdict : Effect → Bool
verdict allow = true
verdict deny = false
verdict no_match = false
verdict error = false

module _ (nn : Nn) (d : Doubles) where
  unfoldable pub effect_for : Iam nn → Option (User nn) → CString → nn.StringMap → Option Effect
  effect_for iam none action attributes = check_unpaired nn d iam action attributes
  effect_for iam (some user) action attributes =
      check_access_user nn d iam action (nn.map_insert attributes user_id_attribute user.id).1 user

  -- `nm_iam_check_access`
  unfoldable pub check_access :
      Iam nn → Option CString → CString → Option nn.StringMap → Option Bool
  unfolding verdict
  check_access iam none action attributes_in = some false
  check_access iam (some fingerprint) action attributes_in =
      find_user_by_fingerprint nn iam fingerprint >>= λ user.
      effect_for iam user action (attributes_of nn attributes_in) >>= λ effect.
      some (verdict effect)
