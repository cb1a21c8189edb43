-- ===== src/Policies/Samples.antt =====
-- Sample conditions, statements and policies for the tests of the access control.
use nabto_embedded_sdk.Base.{
  ℕ, ◌+◌, ◌*◌, ◌-◌, ◌&&◌, List, [], ◌∷◌, CString, codes, ltb, leb, ◌==◌, if◌then◌else◌,
}
use nabto_embedded_sdk.Nn.Lists.{list_nn}
use nabto_embedded_sdk.Policies.Condition.{Doubles, Condition, numeric_less_than}
use nabto_embedded_sdk.Policies.Statement.{Statement, allow, deny}
use nabto_embedded_sdk.Policies.Policy.{Policy}

-- The digits at the front of a text, as a number, and the rest.
abbrev read_number : ℕ → CString → ℕ × CString
read_number n [] = (n, [])
read_number n (c ∷ cs) =
    let rest = read_number (n * 10 + (c - 48)) cs in
    if leb 48 c && leb c 57 then rest else (n, c ∷ cs)

abbrev pub digit_doubles : Doubles
digit_doubles = record { Double = ℕ; strtod = read_number 0; eq = ◌==◌; lt = ltb; le = leb }

-- The port is below the limit that another attribute gives.
abbrev pub tunnel_condition : Condition list_nn
tunnel_condition = record {
  op = numeric_less_than;
  key = codes "Port";
  values = codes "${Missing}" ∷ codes "${Limit}" ∷ [];
}

abbrev pub tunnel_attributes : List (CString × CString)
tunnel_attributes = (codes "Port", codes "22") ∷ (codes "Limit", codes "1024") ∷ []

abbrev pub allow_tunnel : Statement list_nn
allow_tunnel = record {
  effect = allow;
  actions = codes "Tunnel" ∷ [];
  conditions = tunnel_condition ∷ [];
}

abbrev pub deny_tunnel : Statement list_nn
deny_tunnel = record { effect = deny; actions = codes "Tunnel" ∷ []; conditions = [] }

abbrev pub tunnel_policy : Policy list_nn
tunnel_policy = record { id = codes "tunnel"; statements = allow_tunnel ∷ [] }
