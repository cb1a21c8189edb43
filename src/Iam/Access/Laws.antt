-- ===== src/Iam/Access/Laws.antt =====
-- Who is granted what.
use nabto_embedded_sdk.Base.{
  All, Any, ◌⊎◌, ◌≡◌, ◌≢◌, ◌↔◌, refl, sym, ◌∙◌, ap, none, some, List, [], ◌∷◌, CString, arith,
  if◌then◌else◌, Option-cases, inl, inr,
}
use nabto_embedded_sdk.Nn.{Nn}
use nabto_embedded_sdk.Policies.Condition.{Doubles}
use nabto_embedded_sdk.Policies.Statement.{Effect, allow, deny, no_match, error}
use nabto_embedded_sdk.Policies.Policy.{EvalState, policy_eval, eval_init}
use nabto_embedded_sdk.Policies.Policy.Laws.{is_rejection, is_allow}
use nabto_embedded_sdk.Iam.{User, Role, Iam, find_role, find_policy}
use nabto_embedded_sdk.Iam.Access.{eval_policies, check_access_role, check_roles, check_access_user}

module _ (nn : Nn) (iam : Iam nn) where
  -- The policy that a role names exists.
  abbrev pub PolicyExists : CString → Type 0
  PolicyExists p = find_policy nn iam p ≢ none

module _ (nn : Nn) (d : Doubles) (iam : Iam nn) (action : CString) (attributes : nn.StringMap) where
  -- The role named `r` exists, and its policies end in the effect `e`.
  abbrev pub RoleGives : Effect → CString → Type 0
  RoleGives e r =
      (role : Role nn) × (find_role nn iam r ≡ some role)
      × (check_access_role nn d iam action attributes role ≡ some e)

  -- The role exists and does not reject.
  abbrev pub Tolerates : CString → Type 0
  Tolerates r = RoleGives allow r ⊎ RoleGives no_match r

  after_some :
      (result : Effect) (r : CString) (rs : List CString) (e : Effect)
      → RoleGives e r
      → check_roles nn d iam action attributes result (r ∷ rs) ≡ (
          if is_rejection e
          then some e
          else check_roles nn d iam action attributes (if is_allow e then allow else result) rs)
  unfolding check_roles is_rejection is_allow
  after_some result r rs allow (role, f, c) = rw (f, check_roles) (rw c)
  after_some result r rs _ (role, f, c) = rw (f, check_roles) (rw c)

  -- What an access that is allowed tells of the first role.
  first-RoleGives :
      (result : Effect) (r : CString) (rs : List CString)
      → check_roles nn d iam action attributes result (r ∷ rs) ≡ some allow
      → (e : Effect) × RoleGives e r
  unfolding check_roles
  first-RoleGives result r rs h = elim (Option-cases (find_role nn iam r)) [
    | inl f ↦ ground arith
    | inr (role, f) ↦ elim (Option-cases (check_access_role nn d iam action attributes role)) [
      | inl c ↦ ground arith
      | inr (e, c) ↦ (e, (role, f, c))
    ]
  ]

  -- A role that gives an effect and lets the access pass.
  tolerates :
      (result : Effect) (r : CString) (rs : List CString) (e : Effect)
      → RoleGives e r
      → check_roles nn d iam action attributes result (r ∷ rs) ≡ some allow
      → Tolerates r
        × (check_roles nn d iam action attributes (if is_allow e then allow else result) rs
            ≡ some allow)
  unfolding is_rejection is_allow
  tolerates result r rs allow g h = (inl g, sym (after_some result r rs allow g) ∙ h)
  tolerates result r rs no_match g h = (inr g, sym (after_some result r rs no_match g) ∙ h)
  tolerates result r rs deny g h = ground (arith, after_some result r rs deny g)
  tolerates result r rs error g h = ground (arith, after_some result r rs error g)

  -- Where an allowed access has its allowing role.
  allowing_role :
      (result : Effect) (r : CString) (rs : List CString) (e : Effect)
      → RoleGives e r
      → ((if is_allow e then allow else result) ≡ allow) ⊎ Any (RoleGives allow) rs
      → (result ≡ allow) ⊎ Any (RoleGives allow) (r ∷ rs)
  unfolding is_allow
  allowing_role result r rs allow g h = inr (inl g)
  allowing_role result r rs _ g (inl q) = inl q
  allowing_role result r rs _ g (inr a) = inr (inr a)

  check_roles_allow :
      (result : Effect) (rs : List CString)
      → check_roles nn d iam action attributes result rs ≡ some allow
      → All Tolerates rs × ((result ≡ allow) ⊎ Any (RoleGives allow) rs)
  unfolding check_roles
  check_roles_allow result [] h = (tt, inl (ground arith))
  check_roles_allow result (r ∷ rs) h =
      let (e, g) = first-RoleGives result r rs h in
      let (t, rest) = tolerates result r rs e g h in
      let (all, some_allow) = check_roles_allow (if is_allow e then allow else result) rs rest in
      ((t, all), allowing_role result r rs e g some_allow)

  -- One role gives one effect.
  not_both : (r : CString) → RoleGives allow r → RoleGives no_match r → ⊥
  not_both r (role, f, c) (role', f', c') = ground arith

  allow_check_roles :
      (result : Effect) (rs : List CString)
      → All Tolerates rs
      → (result ≡ allow) ⊎ Any (RoleGives allow) rs
      → check_roles nn d iam action attributes result rs ≡ some allow
  unfolding check_roles is_rejection is_allow
  allow_check_roles result [] t (inl e) = ap some e
  allow_check_roles result [] t (inr a) = absurd a
  allow_check_roles result (r ∷ rs) (inl g, ts) h =
      after_some result r rs allow g ∙ allow_check_roles allow rs ts (inl refl)
  allow_check_roles result (r ∷ rs) (inr g, ts) (inl q) =
      after_some result r rs no_match g ∙ allow_check_roles result rs ts (inl q)
  allow_check_roles result (r ∷ rs) (inr g, ts) (inr (inl a)) = absurd (not_both r a g)
  allow_check_roles result (r ∷ rs) (inr g, ts) (inr (inr a)) =
      after_some result r rs no_match g ∙ allow_check_roles result rs ts (inr a)

  -- A user is allowed an action exactly when all of the user's roles exist and their policies end in
  -- allow or in no match, and those of some role end in allow.
  pub check_access_user_iff :
      (user : User nn)
      → (check_access_user nn d iam action attributes user ≡ some allow) ↔ (
          All Tolerates (nn.set_elements user.roles)
          × Any (RoleGives allow) (nn.set_elements user.roles))
  unfolding check_access_user
  check_access_user_iff user = (
    λ h.
        let (t, some_allow) = check_roles_allow no_match (nn.set_elements user.roles) h in
        (t, elim some_allow [ inl q ↦ absurd (ground arith) | inr a ↦ a ]),
    λ h. allow_check_roles no_match (nn.set_elements user.roles) h.0 (inr h.1),
  )

  eval_policies_total :
      (state : EvalState) (ps : List CString)
      → All (PolicyExists nn iam) ps
      → eval_policies nn d iam action attributes state ps ≢ none
  unfolding eval_policies
  eval_policies_total state [] h = λ e. cc
  eval_policies_total state (p ∷ ps) (h, hs) = elim (Option-cases (find_policy nn iam p)) [
    | inl f ↦ absurd (h f)
    | inr (policy, f) ↦
        rw f (eval_policies_total (policy_eval nn d state policy action attributes) ps hs)
  ]

  -- A role whose policies exist is evaluated without a fault.
  pub check_access_role_total :
      (role : Role nn)
      → All (PolicyExists nn iam) (nn.set_elements role.policies)
      → check_access_role nn d iam action attributes role ≢ none
  unfolding check_access_role
  check_access_role_total role h =
      ground (arith, eval_policies_total eval_init (nn.set_elements role.policies) h)

  pub check_roles_total :
      (result : Effect) (rs : List CString)
      → ((r : CString) (role : Role nn)
          → find_role nn iam r ≡ some role
          → All (PolicyExists nn iam) (nn.set_elements role.policies))
      → check_roles nn d iam action attributes result rs ≢ none
  unfolding check_roles
  check_roles_total result [] h = λ e. cc
  check_roles_total result (r ∷ rs) h = elim (Option-cases (find_role nn iam r)) [
    | inl f ↦ λ e. ground arith
    | inr (role, f) ↦
        let total = check_access_role_total role (h r role f) in
        λ e. ground (arith, check_roles_total allow rs h, check_roles_total result rs h)
  ]
