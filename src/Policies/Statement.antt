-- ===== src/Policies/Statement.antt =====
-- src/modules/policies/nm_statement.c and nm_effect.h.
pub mod Laws
use nabto_embedded_sdk.Base.{Bool, true, false, List, [], ◌∷◌, CString, if◌then◌else◌}
use nabto_embedded_sdk.Nn.{Nn}
use nabto_embedded_sdk.Policies.Condition.{Doubles, Condition, ConditionResult, matches}

pub data Effect : Type 0 where
  allow deny no_match error : Effect

module _ (nn : Nn) where
  pub record Statement : Type 0 where
    pub effect : Effect
    pub actions : nn.StringSet
    pub conditions : nn.Vector (Condition nn)

  statement_new : Effect → Statement
  statement_new effect = record {
    effect = effect;
    actions = nn.set_init;
    conditions = nn.vector_init (Condition nn);
  }

  -- The result says whether there was memory.
  add_action : Statement → CString → Bool × Statement
  add_action s action =
      let (done, actions) = nn.set_insert s.actions action in (done, record s { actions = actions })

module _ (nn : Nn) (d : Doubles) where
  -- A condition that gives no match, or an error, ends the loop.
  after_condition : ConditionResult → ConditionResult → ConditionResult
  after_condition ConditionResult.match r = r
  after_condition ConditionResult.no_match r = ConditionResult.no_match
  after_condition ConditionResult.error r = ConditionResult.error

  unfoldable pub match_all : nn.StringMap → List (Condition nn) → ConditionResult
  unfolding after_condition
  match_all attributes [] = ConditionResult.match
  match_all attributes (c ∷ cs) =
      let rest = match_all attributes cs in after_condition (matches nn d c attributes) rest

  unfoldable pub match_conditions : Statement nn → nn.StringMap → ConditionResult
  match_conditions s attributes = match_all attributes (nn.vector_items (Condition nn) s.conditions)

  conditions_effect : Effect → ConditionResult → Effect
  conditions_effect effect ConditionResult.match = effect
  conditions_effect effect ConditionResult.no_match = no_match
  conditions_effect effect ConditionResult.error = error

  unfoldable pub statement_eval : Statement nn → CString → nn.StringMap → Effect
  unfolding conditions_effect
  statement_eval s action attributes =
      if nn.set_contains s.actions action
      then conditions_effect s.effect (match_conditions s attributes)
      else no_match
