-- ===== src/Policies/Condition/Laws.antt =====
-- What conditions decide.
use nabto_embedded_sdk.Base.{
  All, suc, ◌+◌, ◌-◌, ◌≡◌, refl, true, none, some, List, [], ◌∷◌, CString, codes, str_eq, length,
  take, drop, arith, str_eq_iff, ◌++◌, ◌≢◌, ◌⊎◌, inl, inr, ap, sym, Option-cases, ◌∙◌, ◌↔◌,
  length-append, take-append_left, drop-append_left,
}
use nabto_embedded_sdk.Nn.{Nn}
use nabto_embedded_sdk.Policies.Condition.{
  Doubles, Operator, ConditionResult, match, no_match, error, parse_operator, operator_to_string,
  bool_equals, match_values, is_variable, resolve_value, Condition, match_any, matches,
  match_string_equals, match_string_not_equals, numeric_operator, numeric_equals,
  numeric_not_equals, numeric_less_than, numeric_less_than_equals, numeric_greater_than,
  numeric_greater_than_equals, string_equals, string_not_equals,
}

-- Every operator is read back from the name that is printed for it.
parse_operator-operator_to_string :
    (op : Operator) → parse_operator (operator_to_string op) ≡ some op
unfolding parse_operator operator_to_string str_eq
parse_operator-operator_to_string string_equals = refl
parse_operator-operator_to_string _ = refl

-- A text is read as an operator only if it is the name that is printed for that operator.
pub operator_to_string-parse_operator :
    (s : CString) (op : Operator) → parse_operator s ≡ some op → operator_to_string op ≡ s
unfolding parse_operator operator_to_string
operator_to_string-parse_operator s op h = ground (
  arith,
  str_eq_iff s (codes "StringEquals"),
  str_eq_iff s (codes "StringNotEquals"),
  str_eq_iff s (codes "NumericEquals"),
  str_eq_iff s (codes "NumericNotEquals"),
  str_eq_iff s (codes "NumericLessThan"),
  str_eq_iff s (codes "NumericLessThanEquals"),
  str_eq_iff s (codes "NumericGreaterThan"),
  str_eq_iff s (codes "NumericGreaterThanEquals"),
  str_eq_iff s (codes "Bool"),
)

-- A result with match and no match exchanged.
pub negate : ConditionResult → ConditionResult
negate match = no_match
negate no_match = match
negate error = error

module _ (d : Doubles) where
  -- The two operators for equality of texts are negations of one another, those of numbers too,
  -- where an operand that is not a number is an error for both; the operators for greater numbers
  -- are those for smaller numbers with the operands exchanged.
  pub operators_agree :
      (lhs rhs : CString)
      → (match_values d string_not_equals lhs rhs ≡ negate (match_values d string_equals lhs rhs))
        × (match_values d numeric_not_equals lhs rhs
            ≡ negate (match_values d numeric_equals lhs rhs))
        × (match_values d numeric_greater_than lhs rhs ≡ match_values d numeric_less_than rhs lhs)
        × (match_values d numeric_greater_than_equals lhs rhs
            ≡ match_values d numeric_less_than_equals rhs lhs)
  unfolding match_values match_string_equals match_string_not_equals numeric_operator negate
  operators_agree lhs rhs = (ground arith, ground arith, ground arith, ground arith)

-- `Bool` is decided on the two words for truth values alone.
bool_equals_words :
    (lhs rhs : CString)
    → bool_equals lhs rhs ≢ error
    → ((lhs ≡ codes "true") ⊎ (lhs ≡ codes "false"))
      × ((rhs ≡ codes "true") ⊎ (rhs ≡ codes "false"))
unfolding bool_equals
bool_equals_words lhs rhs h = ground (
  arith,
  str_eq_iff lhs (codes "true"),
  str_eq_iff lhs (codes "false"),
  str_eq_iff rhs (codes "true"),
  str_eq_iff rhs (codes "false"),
)

ConditionResult-cases : (r : ConditionResult) → (r ≡ no_match) ⊎ (r ≡ match) ⊎ (r ≡ error)
ConditionResult-cases no_match = inl refl
ConditionResult-cases match = inr (inl refl)
ConditionResult-cases error = inr (inr refl)

module _ (nn : Nn) (d : Doubles) (attributes : nn.StringMap) (op : Operator) (value : CString) where
  -- The value `v` is skipped: it names an attribute that is missing, or it does not match.
  abbrev Skips : CString → Type 0
  Skips v =
      (resolve_value nn attributes v ≡ none)
      ⊎ ((x : CString) × (resolve_value nn attributes v ≡ some x)
          × (match_values d op value x ≡ no_match))

  -- The first value that is not skipped gives the result `r`.
  abbrev pub DecidedBy : List CString → ConditionResult → Type 0
  DecidedBy vs r =
      (before : List CString) × (v : CString) × (after : List CString) × (x : CString) × (vs
        ≡ before ++ (v ∷ after))
      × All Skips before
      × (resolve_value nn attributes v ≡ some x)
      × (match_values d op value x ≡ r)

  decided_later :
      (v : CString) (vs : List CString) (r : ConditionResult)
      → Skips v
      → DecidedBy vs r
      → DecidedBy (v ∷ vs) r
  decided_later v vs r s (before, w, after, x, e, skip, res, m) =
      (v ∷ before, w, after, x, ap (λ l. v ∷ l) e, (s, skip), res, m)

  -- A value is skipped, or it decides.
  match_any_step :
      (v : CString) (vs : List CString)
      → (Skips v
          × (match_any nn d attributes op value (v ∷ vs) ≡ match_any nn d attributes op value vs))
        ⊎ ((x : CString) × (resolve_value nn attributes v ≡ some x)
            × (match_values d op value x ≢ no_match)
            × (match_any nn d attributes op value (v ∷ vs) ≡ match_values d op value x))
  unfolding match_any
  match_any_step v vs = elim (Option-cases (resolve_value nn attributes v)) [
    | inl e ↦ inl (inl e, rw (e, match_any))
    | inr (x, e) ↦ elim (ConditionResult-cases (match_values d op value x)) [
      | inl q ↦ inl (inr (x, e, q), ground arith)
      | inr (inl q) ↦ inr (x, e, (λ k. ground arith), ground arith)
      | inr (inr q) ↦ inr (x, e, (λ k. ground arith), ground arith)
    ]
  ]

  match_any_decides :
      (vs : List CString) (r : ConditionResult)
      → r ≢ no_match
      → match_any nn d attributes op value vs ≡ r
      → DecidedBy vs r
  unfolding match_any
  match_any_decides [] r h e = absurd (h (sym e))
  match_any_decides (v ∷ vs) r h e = elim (match_any_step v vs) [
    | inl (s, q) ↦ decided_later v vs r s (match_any_decides vs r h (sym q ∙ e))
    | inr (x, res, m, q) ↦ ([], v, vs, x, refl, tt, res, sym q ∙ e)
  ]

  skip_match_any :
      (v : CString) (vs : List CString)
      → Skips v
      → match_any nn d attributes op value (v ∷ vs) ≡ match_any nn d attributes op value vs
  unfolding match_any
  skip_match_any v vs (inl e) = rw (e, match_any)
  skip_match_any v vs (inr (x, e, q)) = ground arith

  decided_match_any :
      (before : List CString) (v : CString) (after : List CString) (x : CString)
      → All Skips before
      → resolve_value nn attributes v ≡ some x
      → match_values d op value x ≢ no_match
      → match_any nn d attributes op value (before ++ (v ∷ after)) ≡ match_values d op value x
  decided_match_any [] v after x s e h = elim (match_any_step v after) [
    | inl (k, q) ↦ ground (arith, h, k)
    | inr (y, f, m, q) ↦ q ∙ ap (match_values d op value) (ground arith)
  ]
  decided_match_any (u ∷ before) v after x s e h =
      skip_match_any u (before ++ (v ∷ after)) s.0 ∙ decided_match_any before v after x s.1 e h

  -- Over a list of values the loop gives a match, or an error, exactly when the first value that is
  -- not skipped gives it.
  match_any_iff :
      (vs : List CString) (r : ConditionResult)
      → r ≢ no_match
      → (match_any nn d attributes op value vs ≡ r) ↔ DecidedBy vs r
  match_any_iff vs r h = (
    match_any_decides vs r h,
    λ (before, v, after, x, e, s, res, m).
        rw (e, ← m) (decided_match_any before v after x s res (λ k. h (sym m ∙ k))),
  )

abbrev variable : CString → CString
variable name = codes "${" ++ (name ++ codes "}")

length-variable : (name : CString) → length (variable name) ≡ length name + 3
length-variable name = omega (arith, length-append name (codes "}"))

variable_end : (name : CString) → drop (length (variable name) - 1) (variable name) ≡ codes "}"
variable_end name =
    let e : length (variable name) - 1 ≡ suc (suc (length name)) =
      omega (arith, length-variable name) in
    ap (λ k. drop k (variable name)) e ∙ drop-append_left name (codes "}")

is_variable-variable : (name : CString) → is_variable (variable name) ≡ true
unfolding is_variable str_eq
is_variable-variable name = rw (variable_end name)

variable_name : (name : CString) → take (length (variable name) - 3) (drop 2 (variable name)) ≡ name
variable_name name =
    let e : length (variable name) - 3 ≡ length name = omega (arith, length-variable name) in
    ap (λ k. take k (name ++ codes "}")) e ∙ take-append_left name (codes "}")

module _ (nn : Nn) (d : Doubles) where
  -- A condition gives a match, or an error, exactly when its key is an attribute and, of its values
  -- in their order, the first that is not skipped gives that result against the attribute. A value
  -- is skipped if it is a variable that names no attribute or if it does not match.
  pub matches_iff :
      (c : Condition nn) (attributes : nn.StringMap) (r : ConditionResult)
      → r ≢ no_match
      → (matches nn d c attributes ≡ r) ↔ (
          (value : CString) × (nn.map_get attributes c.key ≡ some value)
          × DecidedBy nn d attributes c.op value (nn.set_elements c.values) r)
  unfolding matches
  matches_iff c attributes r h = elim (Option-cases (nn.map_get attributes c.key)) [
    | inl e ↦ (λ q. absurd (h (ground arith)), λ (v, f, k). ground arith)
    | inr (value, e) ↦ (
      λ q. (
        value,
        e,
        (match_any_iff nn d attributes c.op value (nn.set_elements c.values) r h).0 (ground arith),
      ),
      λ (v, f, k).
          rw (f, matches)
            ((match_any_iff nn d attributes c.op v (nn.set_elements c.values) r h).1 k),
    )
  ]

  -- A variable `${name}` stands for the attribute of that name, also if the name is empty.
  pub resolve_value_variable :
      (attributes : nn.StringMap) (name : CString)
      → resolve_value nn attributes (codes "${" ++ (name ++ codes "}")) ≡ nn.map_get attributes name
  unfolding resolve_value
  resolve_value_variable attributes name = ground (
    arith,
    length-variable name,
    is_variable-variable name,
    nn.map_getn_lem attributes (drop 2 (variable name)) (length (variable name) - 3),
    ap (nn.map_get attributes) (variable_name name),
  )
