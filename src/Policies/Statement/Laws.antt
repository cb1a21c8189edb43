-- ===== src/Policies/Statement/Laws.antt =====
-- When a statement applies.
use nabto_embedded_sdk.Base.{All, ◌≡◌, ◌≢◌, ◌↔◌, refl, true, List, [], ◌∷◌, CString, arith, ◌⊎◌}
use nabto_embedded_sdk.Nn.{Nn}
use nabto_embedded_sdk.Policies.Condition.{Doubles, Condition, ConditionResult, matches}
use nabto_embedded_sdk.Policies.Statement.{
  Effect, allow, deny, error, Statement, match_all, match_conditions, statement_eval,
}

module _ (nn : Nn) (d : Doubles) where
  match_all_iff :
      (attributes : nn.StringMap) (cs : List (Condition nn))
      → (match_all nn d attributes cs ≡ ConditionResult.match)
        ↔ All (λ c. matches nn d c attributes ≡ ConditionResult.match) cs
  unfolding match_all
  match_all_iff attributes [] = (λ h. tt, λ h. refl)
  match_all_iff attributes (c ∷ cs) =
      let ih = match_all_iff attributes cs in (λ h. ground arith, λ h. ground arith)

  -- A statement that allows or denies gives its effect exactly when the action is one of its actions
  -- and all of its conditions match.
  pub statement_eval_iff :
      (s : Statement nn) (action : CString) (attributes : nn.StringMap) (e : Effect)
      → s.effect ≡ e
      → (e ≡ allow) ⊎ (e ≡ deny)
      → (statement_eval nn d s action attributes ≡ e) ↔ (
          (nn.set_contains s.actions action ≡ true)
          × All
              (λ c. matches nn d c attributes ≡ ConditionResult.match)
              (nn.vector_items (Condition nn) s.conditions))
  unfolding statement_eval match_conditions
  statement_eval_iff s action attributes e h k =
      let conds = match_all_iff attributes (nn.vector_items (Condition nn) s.conditions) in
      (λ q. ground arith, λ q. ground arith)

  -- An error in a condition counts only if the action is one of the statement's and the conditions
  -- before it match; it is then the effect of the statement.
  statement_eval_error :
      (s : Statement nn) (action : CString) (attributes : nn.StringMap)
      → s.effect ≢ error
      → (statement_eval nn d s action attributes ≡ error) ↔ (
          (nn.set_contains s.actions action ≡ true)
          × (match_conditions nn d s attributes ≡ ConditionResult.error))
  unfolding statement_eval
  statement_eval_error s action attributes h = (λ q. ground arith, λ q. ground arith)
