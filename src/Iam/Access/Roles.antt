-- ===== src/Iam/Access/Roles.antt =====
-- How the policies of a role decide.
use nabto_embedded_sdk.Base.{
  All, Any, ◌⊎◌, ◌≡◌, ◌↔◌, refl, ap, Bool, true, false, some, List, [], ◌∷◌, CString, arith,
  >>=-eq-some, inl, inr, any, Bool-cases,
}
use nabto_embedded_sdk.Nn.{Nn}
use nabto_embedded_sdk.Policies.Condition.{Doubles}
use nabto_embedded_sdk.Policies.Statement.{Effect, allow, no_match}
use nabto_embedded_sdk.Policies.Policy.{EvalState, Policy, policy_eval, eval_init, eval_get_effect}
use nabto_embedded_sdk.Policies.Policy.Laws.{
  is_rejection, is_allow, policy_effects, policy_eval-allow, policy_eval-rejection,
}
use nabto_embedded_sdk.Iam.{Role, Iam, find_policy}
use nabto_embedded_sdk.Iam.Access.{eval_policies, check_access_role}

module _ (nn : Nn) (d : Doubles) (iam : Iam nn) (action : CString) (attributes : nn.StringMap) where
  -- The policy exists and none of its statements rejects.
  abbrev pub PolicyPasses : CString → Type 0
  PolicyPasses p =
      (policy : Policy nn) × (find_policy nn iam p ≡ some policy)
      × (any is_rejection (policy_effects nn d policy action attributes) ≡ false)

  -- The policy exists and one of its statements allows.
  abbrev pub PolicyAllows : CString → Type 0
  PolicyAllows p =
      (policy : Policy nn) × (find_policy nn iam p ≡ some policy)
      × (any is_allow (policy_effects nn d policy action attributes) ≡ true)

  eval_policies_allows :
      (state final : EvalState) (ps : List CString)
      → eval_policies nn d iam action attributes state ps ≡ some final
      → is_allow final ≡ true
      → (is_rejection state ≡ false)
        × All PolicyPasses ps
        × ((is_allow state ≡ true) ⊎ Any PolicyAllows ps)
  unfolding eval_policies is_allow is_rejection
  eval_policies_allows state final [] h k = ground arith
  eval_policies_allows state final (p ∷ ps) h k =
      let (policy, f, rest) =
        >>=-eq-some (find_policy nn iam p)
          (λ q.
            eval_policies nn d iam action attributes (policy_eval nn d state q action attributes)
              ps)
          h in
      let (kept, passes, allows) =
        eval_policies_allows (policy_eval nn d state policy action attributes) final ps rest k in
      let rejection = policy_eval-rejection nn d state policy action attributes in
      (
        ground arith,
        ((policy, f, ground arith), passes),
        (elim allows [
          | inl a ↦ (elim (Bool-cases (is_allow state)) [
            | inl before ↦ inl before
            | inr new ↦ inr (
                inl (
                  policy,
                  f,
                  ground (arith, policy_eval-allow nn d state policy action attributes),
                ))
          ])
          | inr a ↦ inr (inr a)
        ]),
      )

  -- The effects of the policy that a name stands for.
  same_policy :
      (p : CString) (policy policy' : Policy nn) (b : Bool)
      → find_policy nn iam p ≡ some policy
      → find_policy nn iam p ≡ some policy'
      → any is_allow (policy_effects nn d policy action attributes) ≡ b
      → any is_allow (policy_effects nn d policy' action attributes) ≡ b
  same_policy p policy policy' b f f' h = cc

  allows_eval_policies :
      (state : EvalState) (ps : List CString)
      → is_rejection state ≡ false
      → All PolicyPasses ps
      → (is_allow state ≡ true) ⊎ Any PolicyAllows ps
      → (final : EvalState) × (eval_policies nn d iam action attributes state ps ≡ some final)
        × (is_allow final ≡ true)
  unfolding eval_policies
  allows_eval_policies state [] r t (inl a) = (state, refl, a)
  allows_eval_policies state [] r t (inr a) = absurd a
  allows_eval_policies state (p ∷ ps) r ((policy, f, pass), ts) a =
      let next = policy_eval nn d state policy action attributes in
      let clean : is_rejection next ≡ false =
        ground (arith, policy_eval-rejection nn d state policy action attributes) in
      let kept : (is_allow next ≡ true) ⊎ Any PolicyAllows ps = elim a [
        | inl before ↦ inl (ground (arith, policy_eval-allow nn d state policy action attributes))
        | inr rest ↦ elim rest [
          | inl g ↦
              let here = same_policy p g.0 policy true g.1 f g.2 in
              inl (ground (arith, policy_eval-allow nn d state policy action attributes))
          | inr later ↦ inr later
        ]
      ] in
      rw f (allows_eval_policies next ps clean ts kept)

  is_allow→eq : (e : Effect) → is_allow e ≡ true → e ≡ allow
  unfolding is_allow
  is_allow→eq e h = ground arith

  -- A role allows an action exactly when each of its policies exists and has no statement that
  -- rejects the action, and some policy has a statement that allows it.
  pub check_access_role_iff :
      (role : Role nn)
      → (check_access_role nn d iam action attributes role ≡ some allow) ↔ (
          All PolicyPasses (nn.set_elements role.policies)
          × Any PolicyAllows (nn.set_elements role.policies))
  unfolding check_access_role eval_init eval_get_effect is_allow is_rejection
  check_access_role_iff role = (
    λ h.
        let (state, e, q) =
          >>=-eq-some
            (eval_policies nn d iam action attributes no_match (nn.set_elements role.policies))
            (λ s. some s) h in
        let (r, passes, allows) =
          eval_policies_allows no_match state (nn.set_elements role.policies) e (ground arith) in
        (passes, elim allows [ inl x ↦ absurd (ground arith) | inr a ↦ a ]),
    λ h.
        let (final, e, a) =
          allows_eval_policies no_match (nn.set_elements role.policies) refl h.0 (inr h.1) in
        rw e (ap some (is_allow→eq final a)),
  )
