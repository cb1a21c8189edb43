-- ===== src/Policies/Policy/Laws.antt =====
-- What policies decide: a rejection wins, in whatever order the statements come.
use nabto_embedded_sdk.Base.{
  ◌≡◌, ◌↔◌, refl, Bool, true, false, not, ◌&&◌, ◌||◌, List, [], ◌∷◌, ◌++◌, CString, arith, any, map,
  ap,
}
use nabto_embedded_sdk.Nn.{Nn}
use nabto_embedded_sdk.Policies.Condition.{Doubles}
use nabto_embedded_sdk.Policies.Statement.{
  Effect, allow, deny, no_match, error, Statement, statement_eval,
}
use nabto_embedded_sdk.Policies.Policy.{
  EvalState, Policy, policy_statement_eval, eval_statements, policy_eval, policy_eval_simple,
  add_statement,
}

unfoldable pub is_rejection : Effect → Bool
is_rejection allow = false
is_rejection no_match = false
is_rejection deny = true
is_rejection error = true

unfoldable pub is_allow : Effect → Bool
is_allow allow = true
is_allow no_match = false
is_allow deny = false
is_allow error = false

module _ (nn : Nn) (d : Doubles) where
  effects : List (Statement nn) → CString → nn.StringMap → List Effect
  effects ss action attributes = map (λ s. statement_eval nn d s action attributes) ss

  eval_statements_allow :
      (state : EvalState) (ss : List (Statement nn)) (action : CString) (attributes : nn.StringMap)
      → is_allow (eval_statements nn d state ss action attributes) ≡ (
          (is_allow state || any is_allow (effects ss action attributes))
          && not (is_rejection state || any is_rejection (effects ss action attributes)))
  unfolding eval_statements policy_statement_eval effects is_allow is_rejection
  eval_statements_allow allow [] action attributes = refl
  eval_statements_allow deny [] action attributes = refl
  eval_statements_allow no_match [] action attributes = refl
  eval_statements_allow error [] action attributes = refl
  eval_statements_allow state (s ∷ ss) action attributes = ground (
    arith,
    eval_statements_allow (policy_statement_eval nn d state s action attributes) ss action
        attributes,
  )

  eval_statements_rejection :
      (state : EvalState) (ss : List (Statement nn)) (action : CString) (attributes : nn.StringMap)
      → is_rejection (eval_statements nn d state ss action attributes)
        ≡ (is_rejection state || any is_rejection (effects ss action attributes))
  unfolding eval_statements policy_statement_eval effects is_rejection
  eval_statements_rejection allow [] action attributes = refl
  eval_statements_rejection deny [] action attributes = refl
  eval_statements_rejection no_match [] action attributes = refl
  eval_statements_rejection error [] action attributes = refl
  eval_statements_rejection state (s ∷ ss) action attributes = ground (
    arith,
    eval_statements_rejection (policy_statement_eval nn d state s action attributes) ss action
        attributes,
  )

  -- The effects of a policy's statements on a request, in their order.
  pub policy_effects : Policy nn → CString → nn.StringMap → List Effect
  unfolding effects
  policy_effects p action attributes =
      effects (nn.vector_items (Statement nn) p.statements) action attributes

  pub policy_eval-allow :
      (state : EvalState) (p : Policy nn) (action : CString) (attributes : nn.StringMap)
      → is_allow (policy_eval nn d state p action attributes) ≡ (
          (is_allow state || any is_allow (policy_effects p action attributes))
          && not (is_rejection state || any is_rejection (policy_effects p action attributes)))
  unfolding policy_eval policy_effects
  policy_eval-allow state p action attributes =
      eval_statements_allow state (nn.vector_items (Statement nn) p.statements) action attributes

  pub policy_eval-rejection :
      (state : EvalState) (p : Policy nn) (action : CString) (attributes : nn.StringMap)
      → is_rejection (policy_eval nn d state p action attributes)
        ≡ (is_rejection state || any is_rejection (policy_effects p action attributes))
  unfolding policy_eval policy_effects
  policy_eval-rejection state p action attributes =
      eval_statements_rejection state (nn.vector_items (Statement nn) p.statements) action
        attributes

  -- A policy allows an action exactly when one of its statements allows it and none of them denies
  -- it or ends in an error, in whatever order they stand.
  pub policy_allows_iff :
      (p : Policy nn) (action : CString) (attributes : nn.StringMap)
      → (policy_eval_simple nn d p action attributes ≡ allow) ↔ (
          (any is_allow (policy_effects p action attributes) ≡ true)
          × (any is_rejection (policy_effects p action attributes) ≡ false))
  unfolding policy_eval_simple policy_eval policy_effects is_allow is_rejection
  policy_allows_iff p action attributes =
      let ss = nn.vector_items (Statement nn) p.statements in
      (
        λ h. ground (arith, eval_statements_allow no_match ss action attributes),
        λ h. ground (arith, eval_statements_allow no_match ss action attributes),
      )

  -- A policy ends in a rejection, deny or error, exactly when one of its statements does.
  policy_rejects_iff :
      (p : Policy nn) (action : CString) (attributes : nn.StringMap)
      → is_rejection (policy_eval_simple nn d p action attributes)
        ≡ any is_rejection (policy_effects p action attributes)
  unfolding policy_eval_simple policy_eval policy_effects is_rejection
  policy_rejects_iff p action attributes =
      eval_statements_rejection no_match (nn.vector_items (Statement nn) p.statements) action
        attributes

  -- Policies are chained by evaluating the statements of one after those of the other.
  eval_statements-append :
      (state : EvalState) (ss ts : List (Statement nn)) (action : CString)
      (attributes : nn.StringMap)
      → eval_statements nn d state (ss ++ ts) action attributes
        ≡ eval_statements nn d
            (eval_statements nn d state ss action attributes)
            ts
            action
            attributes
  unfolding eval_statements
  eval_statements-append state [] ts action attributes = refl
  eval_statements-append state (s ∷ ss) ts action attributes =
      eval_statements-append (policy_statement_eval nn d state s action attributes) ss ts action
        attributes

  effects-append :
      (ss ts : List (Statement nn)) (action : CString) (attributes : nn.StringMap)
      → effects (ss ++ ts) action attributes
        ≡ effects ss action attributes ++ effects ts action attributes
  unfolding effects
  effects-append [] ts action attributes = refl
  effects-append (s ∷ ss) ts action attributes =
      ap (λ l. statement_eval nn d s action attributes ∷ l) (effects-append ss ts action attributes)

  -- The order in which two policies are evaluated does not matter for whether the action is allowed
  -- and for whether it is rejected, from any state.
  pub policy_order :
      (state : EvalState) (p q : Policy nn) (action : CString) (attributes : nn.StringMap)
      → let pq =
          policy_eval nn d (policy_eval nn d state p action attributes) q action attributes in
        let qp =
          policy_eval nn d (policy_eval nn d state q action attributes) p action attributes in
        (is_allow pq ≡ is_allow qp) × (is_rejection pq ≡ is_rejection qp)
  unfolding policy_eval is_allow is_rejection
  policy_order state p q action attributes =
      let ss = nn.vector_items (Statement nn) p.statements in
      let ts = nn.vector_items (Statement nn) q.statements in
      let a = eval_statements nn d state ss action attributes in
      let b = eval_statements nn d state ts action attributes in
      (
        ground (
          arith,
          eval_statements_allow a ts action attributes,
          eval_statements_allow b ss action attributes,
          eval_statements_allow state ts action attributes,
          eval_statements_allow state ss action attributes,
          eval_statements_rejection state ts action attributes,
          eval_statements_rejection state ss action attributes,
        ),
        ground (
          arith,
          eval_statements_rejection a ts action attributes,
          eval_statements_rejection b ss action attributes,
          eval_statements_rejection state ts action attributes,
          eval_statements_rejection state ss action attributes,
        ),
      )

  -- Adding a statement that rejects a request, if there is memory for it, makes the policy reject
  -- the request.
  pub add_rejecting_statement :
      (p : Policy nn) (s : Statement nn) (action : CString) (attributes : nn.StringMap)
      → (add_statement nn p s).0 ≡ true
      → is_rejection (statement_eval nn d s action attributes) ≡ true
      → is_rejection (policy_eval_simple nn d (add_statement nn p s).1 action attributes) ≡ true
  unfolding add_statement policy_eval_simple policy_eval eval_statements policy_statement_eval
      is_rejection
  add_rejecting_statement p s action attributes done h =
      rw (nn.vector_push_back_true (Statement nn) p.statements s done) (
        rw
          (eval_statements-append no_match (nn.vector_items (Statement nn) p.statements) (s ∷ [])
            action attributes)
          (ground (arith, h)))
