-- ===== src/Iam/Access/Grants.antt =====
-- The verdict of an access check.
use nabto_embedded_sdk.Base.{
  ◌∙◌, ap, All, Any, ◌⊎◌, refl, ◌≡◌, ◌≢◌, ◌↔◌, true, Option, none, some, List, [], ◌∷◌, CString,
  arith, Option-cases, inl, inr,
}
use nabto_embedded_sdk.Nn.{Nn}
use nabto_embedded_sdk.Policies.Condition.{Doubles}
use nabto_embedded_sdk.Policies.Statement.{allow, no_match}
use nabto_embedded_sdk.Iam.{
  User, Role, Iam, find_by_fingerprint, find_user_by_fingerprint, find_role,
}
use nabto_embedded_sdk.Iam.Access.{
  check_access_user, check_unpaired, effect_for, check_access, unpaired_role, attributes_of,
  user_id_attribute,
}
use nabto_embedded_sdk.Iam.Access.Roles.{PolicyPasses, PolicyAllows, check_access_role_iff}
use nabto_embedded_sdk.Iam.Access.Laws.{
  RoleGives, Tolerates, PolicyExists, check_access_user_iff, check_roles_total,
  check_access_role_total,
}

module _ (nn : Nn) (d : Doubles) (iam : Iam nn) (fingerprint action : CString)
    (attributes_in : Option nn.StringMap) where
  -- The attributes on which a paired user is judged: those passed in, with the user's id.
  abbrev pub user_attributes : User nn → nn.StringMap
  user_attributes user =
      (nn.map_insert (attributes_of nn attributes_in) user_id_attribute user.id).1

  -- A client with a paired fingerprint is granted an action exactly when all roles of its user exist
  -- and end in allow or no match on the attributes passed in and the user's id, and one of them ends
  -- in allow.
  pub check_access_paired :
      (user : User nn)
      → find_user_by_fingerprint nn iam fingerprint ≡ some (some user)
      → (check_access nn d iam (some fingerprint) action attributes_in ≡ some true) ↔ (
          All (Tolerates nn d iam action (user_attributes user)) (nn.set_elements user.roles)
          × Any
              (RoleGives nn d iam action (user_attributes user) allow)
              (nn.set_elements user.roles))
  unfolding check_access effect_for
  check_access_paired user found =
      let iff = check_access_user_iff nn d iam action (user_attributes user) user in
      (λ h. iff.0 (ground arith), λ h. let e = iff.1 h in ground arith)

  -- The fingerprint is that of a user whose roles all exist and end in allow or no match, one of them in allow.
  abbrev pub UserGranted : Type 0
  UserGranted =
      (user : User nn) × (find_user_by_fingerprint nn iam fingerprint ≡ some (some user))
      × All (Tolerates nn d iam action (user_attributes user)) (nn.set_elements user.roles)
      × Any (RoleGives nn d iam action (user_attributes user) allow) (nn.set_elements user.roles)

  -- The fingerprint is no user's, and the role for such clients exists, its policies all exist and have no
  -- statement that rejects, and one of them has a statement that allows.
  abbrev pub StrangerGranted : Type 0
  StrangerGranted =
      (role : Role nn) × (find_user_by_fingerprint nn iam fingerprint ≡ some none)
      × (find_role nn iam unpaired_role ≡ some role)
      × All (PolicyPasses nn d iam action (attributes_of nn attributes_in))
          (nn.set_elements role.policies)
      × Any (PolicyAllows nn d iam action (attributes_of nn attributes_in))
          (nn.set_elements role.policies)

  check_access_stranger :
      find_user_by_fingerprint nn iam fingerprint ≡ some none
      → (check_access nn d iam (some fingerprint) action attributes_in ≡ some true)
        ↔ StrangerGranted
  unfolding check_access effect_for check_unpaired
  check_access_stranger found =
      let role_iff = check_access_role_iff nn d iam action (attributes_of nn attributes_in) in
      (
        λ h. elim (Option-cases (find_role nn iam unpaired_role)) [
          | inl f ↦ absurd (ground arith)
          | inr (role, f) ↦
              let (passes, allows) = (role_iff role).0 (ground arith) in
              (role, found, f, passes, allows)
        ],
        λ (role, _, f, passes, allows). let e = (role_iff role).1 (passes, allows) in ground arith,
      )

module _ (nn : Nn) (d : Doubles) (iam : Iam nn) (action : CString)
    (attributes_in : Option nn.StringMap) where
  -- An access check grants an action exactly when the connection has a fingerprint and either this is the
  -- fingerprint of a user whose roles all exist and end in allow or no match, one of them in allow, on the
  -- attributes passed in and the user's id; or it is no user's, the role for unpaired clients exists, each
  -- policy of that role exists and has no statement that rejects the action, and some policy has a statement
  -- that allows it, on the attributes passed in.
  pub check_access_iff :
      (fingerprint : Option CString)
      → (check_access nn d iam fingerprint action attributes_in ≡ some true) ↔ (
          (f : CString) × (fingerprint ≡ some f)
          × (UserGranted nn d iam f action attributes_in
              ⊎ StrangerGranted nn d iam f action attributes_in))
  unfolding check_access
  check_access_iff none = (λ h. absurd (ground arith), λ (f, e, g). absurd (ground arith))
  check_access_iff (some f) = (
    λ h. elim (Option-cases (find_user_by_fingerprint nn iam f)) [
      | inl fault ↦ absurd (ground arith)
      | inr (none, found) ↦
          (f, refl, inr ((check_access_stranger nn d iam f action attributes_in found).0 h))
      | inr (some user, found) ↦
          let (tolerated, given) =
            (check_access_paired nn d iam f action attributes_in user found).0 h in
          (f, refl, inl (user, found, tolerated, given))
    ],
    λ (g, e, granted). ap (λ x. check_access nn d iam x action attributes_in) e ∙ (elim granted [
      | inl (user, found, tolerated, given) ↦
          (check_access_paired nn d iam g action attributes_in user found).1 (tolerated, given)
      | inr stranger ↦ (check_access_stranger nn d iam g action attributes_in stranger.1).1 stranger
    ]),
  )

module _ (nn : Nn) where
  -- Every user has a fingerprint, and every policy that a role names exists.
  pub record IsComplete (iam : Iam nn) : Type 0 where
    pub fingerprints :
        All (λ (u : User nn). u.fingerprint ≢ none) (nn.vector_items (User nn) iam.users)
    pub policies :
        (r : CString) (role : Role nn)
        → find_role nn iam r ≡ some role
        → All (PolicyExists nn iam) (nn.set_elements role.policies)

  find_by_fingerprint_total :
      (us : List (User nn)) (f : CString)
      → All (λ (u : User nn). u.fingerprint ≢ none) us
      → find_by_fingerprint nn us f ≢ none
  unfolding find_by_fingerprint
  find_by_fingerprint_total [] f = λ h e. cc
  find_by_fingerprint_total (u ∷ us) f = λ h e. ground (arith, find_by_fingerprint_total us f h.1)

module _ (nn : Nn) (d : Doubles) where
  effect_for_total :
      (iam : Iam nn) (who : Option (User nn)) (action : CString) (attributes : nn.StringMap)
      → IsComplete nn iam
      → effect_for nn d iam who action attributes ≢ none
  unfolding effect_for check_unpaired check_access_user
  effect_for_total iam none action attributes c =
      elim (Option-cases (find_role nn iam unpaired_role)) [
        | inl f ↦ λ e. ground arith
        | inr (role, f) ↦ λ e. ground (
          arith,
          check_access_role_total nn d iam action attributes role (c.policies unpaired_role role f),
        )
      ]
  effect_for_total iam (some user) action attributes c =
      check_roles_total nn d iam action (nn.map_insert attributes user_id_attribute user.id).1
        no_match (nn.set_elements user.roles) c.policies

  -- If every user has a fingerprint and every policy named by a role exists, an access check never
  -- reads through a null pointer, whatever the client, the action and the attributes.
  pub check_access_total :
      (iam : Iam nn) (fingerprint : Option CString) (action : CString)
      (attributes_in : Option nn.StringMap)
      → IsComplete nn iam
      → check_access nn d iam fingerprint action attributes_in ≢ none
  unfolding check_access effect_for find_user_by_fingerprint
  check_access_total iam none action attributes_in c = λ e. cc
  check_access_total iam (some f) action attributes_in c =
      elim (Option-cases (find_by_fingerprint nn (nn.vector_items (User nn) iam.users) f)) [
        | inl fault ↦ absurd (find_by_fingerprint_total nn _ f c.fingerprints fault)
        | inr (who, found) ↦
            λ e. effect_for_total iam who action (attributes_of nn attributes_in) c (ground arith)
      ]
