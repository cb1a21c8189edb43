-- ===== src/Policies/Policy.antt =====
-- src/modules/policies/nm_policy.c.
pub mod Laws
use nabto_embedded_sdk.Base.{Bool, true, false, ◌||◌, List, [], ◌∷◌, CString, if◌then◌else◌}
use nabto_embedded_sdk.Nn.{Nn}
use nabto_embedded_sdk.Policies.Condition.{Doubles}
use nabto_embedded_sdk.Policies.Statement.{
  Effect, allow, deny, no_match, error, Statement, statement_eval,
}

module _ (nn : Nn) where
  pub record Policy : Type 0 where
    pub id : CString
    pub statements : nn.Vector (Statement nn)

  policy_new : CString → Policy
  policy_new id = record { id = id; statements = nn.vector_init (Statement nn) }

  unfoldable pub add_statement : Policy → Statement nn → Bool × Policy
  add_statement p s =
      let (done, statements) = nn.vector_push_back (Statement nn) p.statements s in
      (done, record p { statements = statements })

-- `struct nm_policy_eval_state` is its effect.
abbrev pub EvalState : Type 0
EvalState = Effect

unfoldable pub eval_init : EvalState
eval_init = no_match

unfoldable pub eval_get_effect : EvalState → Effect
eval_get_effect state = state

-- The assignment at the end of `nm_policy_statement_eval`.
update : EvalState → Effect → EvalState
update state error = error
update state deny = deny
update state allow = allow
update state no_match = state

module _ (nn : Nn) (d : Doubles) where
  unfoldable pub policy_statement_eval :
      EvalState → Statement nn → CString → nn.StringMap → EvalState
  unfolding update
  policy_statement_eval deny s action attributes = deny
  policy_statement_eval error s action attributes = error
  policy_statement_eval allow s action attributes =
      update allow (statement_eval nn d s action attributes)
  policy_statement_eval no_match s action attributes =
      update no_match (statement_eval nn d s action attributes)

  -- The loop of `nm_policy_eval` over the statements that are left.
  unfoldable pub eval_statements :
      EvalState → List (Statement nn) → CString → nn.StringMap → EvalState
  eval_statements state [] action attributes = state
  eval_statements state (s ∷ ss) action attributes =
      eval_statements (policy_statement_eval state s action attributes) ss action attributes

  unfoldable pub policy_eval : EvalState → Policy nn → CString → nn.StringMap → EvalState
  policy_eval state p action attributes =
      eval_statements state (nn.vector_items (Statement nn) p.statements) action attributes

  unfoldable pub policy_eval_simple : Policy nn → CString → nn.StringMap → Effect
  unfolding eval_init eval_get_effect
  policy_eval_simple p action attributes =
      eval_get_effect (policy_eval eval_init p action attributes)
