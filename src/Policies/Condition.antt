-- ===== src/Policies/Condition.antt =====
-- src/modules/policies/nm_condition.c. Doubles and `strtod` of the C library come as an interface.
pub mod Laws
use nabto_embedded_sdk.Base.{
  ℕ, ◌-◌, Bool, true, false, not, ◌&&◌, Option, none, some, List, [], ◌∷◌, CString, codes, str_eq,
  ltb, length, take, drop, if◌then◌else◌,
}
use nabto_embedded_sdk.Nn.{Nn}

-- `!=` on doubles is the negation of `==`, and `a > b` is `b < a`.
pub record Doubles : Type 1 where
  pub Double : Type 0
  -- the value, and what `*endptr` points to
  pub strtod : CString → Double × CString
  pub eq : Double → Double → Bool
  pub lt : Double → Double → Bool
  pub le : Double → Double → Bool

pub data Operator : Type 0 where
  string_equals string_not_equals numeric_equals numeric_not_equals : Operator
  numeric_less_than numeric_less_than_equals numeric_greater_than : Operator
  numeric_greater_than_equals bool : Operator

pub data ConditionResult : Type 0 where
  match no_match error : ConditionResult

pub status : Bool → ConditionResult
status s = if s then match else no_match

-- The result and `*out` in one.
parse_bool : CString → Option Bool
parse_bool value =
    if str_eq value (codes "true")
    then some true
    else if str_eq value (codes "false")
    then some false
    else none

unfoldable pub parse_operator : CString → Option Operator
parse_operator operation =
    if str_eq operation (codes "StringEquals")
    then some string_equals
    else if str_eq operation (codes "StringNotEquals")
    then some string_not_equals
    else if str_eq operation (codes "NumericEquals")
    then some numeric_equals
    else if str_eq operation (codes "NumericNotEquals")
    then some numeric_not_equals
    else if str_eq operation (codes "NumericLessThan")
    then some numeric_less_than
    else if str_eq operation (codes "NumericLessThanEquals")
    then some numeric_less_than_equals
    else if str_eq operation (codes "NumericGreaterThan")
    then some numeric_greater_than
    else if str_eq operation (codes "NumericGreaterThanEquals")
    then some numeric_greater_than_equals
    else if str_eq operation (codes "Bool")
    then some bool
    else none

pub operator_to_string : Operator → CString
operator_to_string string_equals = codes "StringEquals"
operator_to_string string_not_equals = codes "StringNotEquals"
operator_to_string numeric_equals = codes "NumericEquals"
operator_to_string numeric_not_equals = codes "NumericNotEquals"
operator_to_string numeric_less_than = codes "NumericLessThan"
operator_to_string numeric_less_than_equals = codes "NumericLessThanEquals"
operator_to_string numeric_greater_than = codes "NumericGreaterThan"
operator_to_string numeric_greater_than_equals = codes "NumericGreaterThanEquals"
operator_to_string bool = codes "Bool"

bool_eq : Bool → Bool → Bool
bool_eq true b = b
bool_eq false b = not b

pub bool_equals : CString → CString → ConditionResult
unfolding bool_eq status parse_bool
bool_equals lhs rhs = elim (parse_bool lhs) [
  | none ↦ error
  | some a ↦ elim (parse_bool rhs) [ none ↦ error | some b ↦ status (bool_eq a b) ]
]

pub match_string_equals : CString → CString → ConditionResult
unfolding status
match_string_equals lhs rhs = status (str_eq lhs rhs)

pub match_string_not_equals : CString → CString → ConditionResult
unfolding status
match_string_not_equals lhs rhs = status (not (str_eq lhs rhs))

module _ (d : Doubles) where
  -- All of the text must be read: `*err == 0`.
  all_read : CString → d.Double → Option d.Double
  all_read [] x = some x
  all_read (c ∷ cs) x = none

  unfoldable pub parse_numeric : CString → Option d.Double
  unfolding all_read
  parse_numeric value = all_read (d.strtod value).1 (d.strtod value).0

  -- The cases below the numeric ones are not reached.
  compare_numeric : Operator → d.Double → d.Double → ConditionResult
  unfolding status
  compare_numeric numeric_equals a b = status (d.eq a b)
  compare_numeric numeric_not_equals a b = status (not (d.eq a b))
  compare_numeric numeric_less_than a b = status (d.lt a b)
  compare_numeric numeric_less_than_equals a b = status (d.le a b)
  compare_numeric numeric_greater_than a b = status (d.lt b a)
  compare_numeric numeric_greater_than_equals a b = status (d.le b a)
  compare_numeric string_equals a b = error
  compare_numeric string_not_equals a b = error
  compare_numeric bool a b = error

  unfoldable pub numeric_operator : Operator → CString → CString → ConditionResult
  unfolding compare_numeric
  numeric_operator op lhs rhs = elim (parse_numeric lhs) [
    | none ↦ error
    | some a ↦ elim (parse_numeric rhs) [ none ↦ error | some b ↦ compare_numeric op a b ]
  ]

  unfoldable pub match_values : Operator → CString → CString → ConditionResult
  match_values string_equals lhs rhs = match_string_equals lhs rhs
  match_values string_not_equals lhs rhs = match_string_not_equals lhs rhs
  match_values bool lhs rhs = bool_equals lhs rhs
  match_values op lhs rhs = numeric_operator op lhs rhs

-- `strncmp(value, "${", 2) == 0` and `strncmp(value + (valueLength - 1), "}", 1) == 0`, for a value
-- of at least three bytes
unfoldable pub is_variable : CString → Bool
is_variable value =
    str_eq (take 2 value) (codes "${")
    && str_eq (take 1 (drop (length value - 1) value)) (codes "}")

module _ (nn : Nn) where
  -- `none` if the function returns false.
  unfoldable pub resolve_value : nn.StringMap → CString → Option CString
  resolve_value attributes value =
      if ltb (length value) 3
      then some value
      else if is_variable value
      then nn.map_getn attributes (drop 2 value) (length value - 3)
      else some value

  -- `struct nm_condition`; a condition is used after its key is set.
  pub record Condition : Type 0 where
    pub op : Operator
    pub key : CString
    pub values : nn.StringSet

  condition_new : Operator → CString → Condition
  condition_new op key = record { op = op; key = key; values = nn.set_init }

module _ (nn : Nn) (d : Doubles) where
  -- What a value of the set does to the loop: `r` is the rest of the loop.
  after_value : ConditionResult → ConditionResult → ConditionResult
  after_value match r = match
  after_value error r = error
  after_value no_match r = r

  -- The loop of `nm_condition_matches` over the values that are left.
  unfoldable pub match_any : nn.StringMap → Operator → CString → List CString → ConditionResult
  unfolding after_value
  match_any attributes op attribute_value [] = no_match
  match_any attributes op attribute_value (v ∷ vs) =
      let rest = match_any attributes op attribute_value vs in
      elim (resolve_value nn attributes v) [
        | none ↦ rest
        | some resolved ↦ after_value (match_values d op attribute_value resolved) rest
      ]

  unfoldable pub matches : Condition nn → nn.StringMap → ConditionResult
  matches condition attributes = elim (nn.map_get attributes condition.key) [
    | none ↦ no_match
    | some attribute_value ↦
        match_any attributes condition.op attribute_value (nn.set_elements condition.values)
  ]
