-- ===== src/Policies/Tests.antt =====
-- A policy at work on concrete requests, with lists for containers and natural numbers for doubles.
use nabto_embedded_sdk.Base.{
  str_eq, ◌≡◌, ◌↔◌, refl, true, false, some, [], ◌∷◌, ◌++◌, CString, codes, inl, any, All,
}
use nabto_embedded_sdk.Nn.Lists.{list_nn}
use nabto_embedded_sdk.Policies.Samples.{
  digit_doubles, tunnel_condition, allow_tunnel, deny_tunnel, tunnel_policy, tunnel_attributes,
}
use nabto_embedded_sdk.Policies.Condition.{
  is_variable, parse_numeric, numeric_operator, match_any, ConditionResult, numeric_greater_than,
  numeric_less_than, string_equals, string_not_equals, numeric_equals, numeric_not_equals,
  numeric_greater_than_equals, numeric_less_than_equals, bool, parse_operator, operator_to_string,
  match_values, resolve_value, Condition, matches,
}
use nabto_embedded_sdk.Policies.Condition.Laws.{
  matches_iff, resolve_value_variable, operators_agree, operator_to_string-parse_operator, negate,
  DecidedBy,
}
use nabto_embedded_sdk.Policies.Statement.{match_all, match_conditions, allow, statement_eval}
use nabto_embedded_sdk.Policies.Statement.Laws.{statement_eval_iff}
use nabto_embedded_sdk.Policies.Policy.{
  policy_statement_eval, eval_statements, Policy, policy_eval, policy_eval_simple, eval_init,
  add_statement,
}
use nabto_embedded_sdk.Policies.Policy.Laws.{
  is_allow, is_rejection, policy_effects, policy_allows_iff, policy_order, add_rejecting_statement,
}

matches_iff_example :
    (matches list_nn digit_doubles tunnel_condition tunnel_attributes ≡ ConditionResult.match) ↔ (
      (value : CString) × (list_nn.map_get tunnel_attributes tunnel_condition.key ≡ some value)
      × DecidedBy list_nn digit_doubles tunnel_attributes tunnel_condition.op value
          (list_nn.set_elements tunnel_condition.values)
          ConditionResult.match)
matches_iff_example =
    matches_iff list_nn digit_doubles tunnel_condition tunnel_attributes ConditionResult.match
      (λ e. cc)

resolve_value_variable_run :
    resolve_value list_nn tunnel_attributes (codes "${" ++ (codes "Port" ++ codes "}"))
    ≡ list_nn.map_get tunnel_attributes (codes "Port")
resolve_value_variable_run =
    resolve_value_variable list_nn digit_doubles tunnel_attributes (codes "Port")

operators_agree_run :
    (match_values digit_doubles string_not_equals (codes "7") (codes "9")
      ≡ negate (match_values digit_doubles string_equals (codes "7") (codes "9")))
    × (match_values digit_doubles numeric_not_equals (codes "7") (codes "9")
        ≡ negate (match_values digit_doubles numeric_equals (codes "7") (codes "9")))
    × (match_values digit_doubles numeric_greater_than (codes "7") (codes "9")
        ≡ match_values digit_doubles numeric_less_than (codes "9") (codes "7"))
    × (match_values digit_doubles numeric_greater_than_equals (codes "7") (codes "9")
        ≡ match_values digit_doubles numeric_less_than_equals (codes "9") (codes "7"))
operators_agree_run = operators_agree digit_doubles (codes "7") (codes "9")

parsed_bool : parse_operator (codes "Bool") ≡ some bool
unfolding parse_operator str_eq
parsed_bool = refl

operator_to_string-parse_operator_run : operator_to_string bool ≡ codes "Bool"
operator_to_string-parse_operator_run =
    operator_to_string-parse_operator (codes "Bool") bool parsed_bool

statement_eval_iff_example :
    (statement_eval list_nn digit_doubles allow_tunnel (codes "Tunnel") tunnel_attributes ≡ allow)
    ↔ ((list_nn.set_contains allow_tunnel.actions (codes "Tunnel") ≡ true)
        × All
            (λ c. matches list_nn digit_doubles c tunnel_attributes ≡ ConditionResult.match)
            (list_nn.vector_items (Condition list_nn) allow_tunnel.conditions))
statement_eval_iff_example =
    statement_eval_iff list_nn digit_doubles allow_tunnel (codes "Tunnel") tunnel_attributes allow
      refl (inl refl)

-- The sample statement allows port 22 under a limit of 1024.
allowed :
    policy_eval_simple list_nn digit_doubles tunnel_policy (codes "Tunnel") tunnel_attributes
    ≡ allow
unfolding policy_eval_simple policy_eval eval_statements policy_statement_eval statement_eval
    match_conditions match_all matches match_any match_values numeric_operator parse_numeric
    resolve_value is_variable str_eq
allowed = refl

policy_allows_iff_example :
    (policy_eval_simple list_nn digit_doubles tunnel_policy (codes "Tunnel") tunnel_attributes
      ≡ allow)
    ↔ ((any is_allow
            (policy_effects list_nn digit_doubles tunnel_policy (codes "Tunnel") tunnel_attributes)
          ≡ true)
        × (any is_rejection (
              policy_effects list_nn digit_doubles tunnel_policy (codes "Tunnel") tunnel_attributes)
            ≡ false))
policy_allows_iff_example =
    policy_allows_iff list_nn digit_doubles tunnel_policy (codes "Tunnel") tunnel_attributes

abbrev strict_policy : Policy list_nn
strict_policy = record { id = codes "strict"; statements = deny_tunnel ∷ [] }

policy_order_run :
    let pq =
      policy_eval list_nn digit_doubles
        (policy_eval list_nn digit_doubles eval_init tunnel_policy
          (codes "Tunnel")
          tunnel_attributes)
        strict_policy
        (codes "Tunnel")
        tunnel_attributes in
    let qp =
      policy_eval list_nn digit_doubles
        (policy_eval list_nn digit_doubles eval_init strict_policy
          (codes "Tunnel")
          tunnel_attributes)
        tunnel_policy
        (codes "Tunnel")
        tunnel_attributes in
    (is_allow pq ≡ is_allow qp) × (is_rejection pq ≡ is_rejection qp)
policy_order_run =
    policy_order list_nn digit_doubles eval_init tunnel_policy strict_policy (codes "Tunnel")
      tunnel_attributes

denied :
    is_rejection
      (statement_eval list_nn digit_doubles deny_tunnel (codes "Tunnel") tunnel_attributes)
    ≡ true
unfolding statement_eval match_conditions match_all is_rejection str_eq
denied = refl

added : (add_statement list_nn tunnel_policy deny_tunnel).0 ≡ true
unfolding add_statement
added = refl

add_rejecting_statement_run :
    is_rejection (
      policy_eval_simple list_nn digit_doubles
        (add_statement list_nn tunnel_policy deny_tunnel).1
        (codes "Tunnel")
        tunnel_attributes)
    ≡ true
add_rejecting_statement_run =
    add_rejecting_statement list_nn digit_doubles tunnel_policy deny_tunnel (codes "Tunnel")
      tunnel_attributes added denied
