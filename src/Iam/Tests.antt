-- ===== src/Iam/Tests.antt =====
-- A device with two roles and one user: lookups, pairing and changes of users at work.
use nabto_embedded_sdk.Base.{
  ◌⊎◌, inl, inr, Bool-cases, ◌≡◌, ◌≢◌, ◌↔◌, refl, true, false, not, ◌&&◌, Option, none, some, [],
  ◌∷◌, CString, codes, arith, str_eq, if◌then◌else◌, All, Any, length, ◌==◌,
}
use nabto_embedded_sdk.Nn.Lists.{list_nn}
use nabto_embedded_sdk.Policies.Samples.{digit_doubles, tunnel_policy, tunnel_attributes}
use nabto_embedded_sdk.Policies.Statement.{match_all, match_conditions, statement_eval, allow}
use nabto_embedded_sdk.Policies.Policy.{
  eval_init, policy_statement_eval, eval_statements, policy_eval, eval_get_effect, Policy,
}
use nabto_embedded_sdk.Iam.{
  user_new, find_policy_in, find_role_in, find_by_fingerprint, find_by_id, User, Role, Iam,
  find_user, find_role, find_user_by_fingerprint, find_policy, user_add_role, user_remove_role,
}
use nabto_embedded_sdk.Iam.Access.{
  eval_policies, check_unpaired, effect_for, check_access, check_access_role,
}
use nabto_embedded_sdk.Iam.Access.Laws.{PolicyExists, RoleGives, Tolerates}
use nabto_embedded_sdk.Iam.Access.Roles.{PolicyPasses, PolicyAllows, check_access_role_iff}
use nabto_embedded_sdk.Iam.Access.Grants.{
  user_attributes, check_access_paired, check_access_iff, UserGranted, StrangerGranted, IsComplete,
  check_access_total,
}
use nabto_embedded_sdk.Iam.UserIds.{decimal, next_user_id}
use nabto_embedded_sdk.Iam.UserIds.Fresh.{next_user_id_fresh}
use nabto_embedded_sdk.Iam.Users.{
  add_user, user_changed, add_server_connect_token, delete_user, add_role_to_user,
  remove_role_from_user,
}
use nabto_embedded_sdk.Iam.Users.Laws.{
  UniqueIds, delete_user_lem, add_role_to_user_lem, remove_role_from_user_lem,
}
use nabto_embedded_sdk.Iam.Pairing.{
  paired_user, Paired, pair_new_client, role_for_new_user, admin_role, user_role,
}
use nabto_embedded_sdk.Iam.Pairing.Laws.{
  pair_new_client-UniqueIds, IsPairedWith, pair_new_client_lem,
}
use nabto_embedded_sdk.Iam.Handlers.{
  error_response, ready, Request, Outcome, given_password, handle_pairing_local,
  handle_pairing_password,
}
use nabto_embedded_sdk.Iam.Handlers.Laws.{
  pairing_local, denied_changes_nothing, pairing_local_needs, pairing_password_needs,
  pairing_password_fault,
}

abbrev admin : User list_nn
admin = record {
  id = codes "1";
  roles = codes "Admin" ∷ [];
  fingerprint = some (codes "aa");
  server_connect_token = none;
  attributes = [];
}

abbrev admin_role_sample : Role list_nn
admin_role_sample = record { id = codes "Admin"; policies = codes "tunnel" ∷ [] }

abbrev user_role_sample : Role list_nn
user_role_sample = record { id = codes "User"; policies = [] }

abbrev home : Iam list_nn
home = record {
  users = admin ∷ [];
  roles = admin_role_sample ∷ user_role_sample ∷ [];
  policies = tunnel_policy ∷ [];
  has_user_changed = true;
  pairing_password = none;
}

admin_found : find_user list_nn home (codes "1") ≡ some admin
unfolding find_user find_by_id str_eq
admin_found = refl

admin_by_fingerprint : find_user_by_fingerprint list_nn home (codes "aa") ≡ some (some admin)
unfolding find_user_by_fingerprint find_by_fingerprint str_eq
admin_by_fingerprint = refl

stranger : find_user_by_fingerprint list_nn home (codes "bb") ≡ some none
unfolding find_user_by_fingerprint find_by_fingerprint str_eq
stranger = refl

check_access_paired_example :
    (check_access list_nn digit_doubles home
        (some (codes "aa"))
        (codes "Tunnel")
        (some tunnel_attributes)
      ≡ some true)
    ↔ (All
          (Tolerates list_nn digit_doubles home (codes "Tunnel") (
            user_attributes list_nn digit_doubles home
              (codes "aa")
              (codes "Tunnel")
              (some tunnel_attributes)
              admin))
          admin.roles
        × Any
            (RoleGives list_nn digit_doubles home
              (codes "Tunnel")
              (user_attributes list_nn digit_doubles home
                (codes "aa")
                (codes "Tunnel")
                (some tunnel_attributes)
                admin)
              allow)
            admin.roles)
check_access_paired_example =
    check_access_paired list_nn digit_doubles home (codes "aa") (codes "Tunnel")
      (some tunnel_attributes) admin admin_by_fingerprint

check_access_role_iff_example :
    (check_access_role list_nn digit_doubles home
        (codes "Tunnel")
        tunnel_attributes
        admin_role_sample
      ≡ some allow)
    ↔ (All
          (PolicyPasses list_nn digit_doubles home (codes "Tunnel") tunnel_attributes)
          admin_role_sample.policies
        × Any
            (PolicyAllows list_nn digit_doubles home (codes "Tunnel") tunnel_attributes)
            admin_role_sample.policies)
check_access_role_iff_example =
    check_access_role_iff list_nn digit_doubles home (codes "Tunnel") tunnel_attributes
      admin_role_sample

next_user_id_fresh_example :
    (id : CString) × (next_user_id list_nn home ≡ some id) × (find_user list_nn home id ≡ none)
next_user_id_fresh_example = next_user_id_fresh list_nn home

-- The first free id beside user 1.
second_id : next_user_id list_nn home ≡ some (codes "2")
unfolding next_user_id decimal find_by_id str_eq
second_id = refl

delete_user_lem_run :
    find_user list_nn (delete_user list_nn home (codes "1")).0 (codes "1")
    ≡ (if str_eq (codes "1") (codes "1") then none else find_user list_nn home (codes "1"))
unfolding find_by_id
delete_user_lem_run = delete_user_lem list_nn home (codes "1") (codes "1") (refl, tt)

user_role_found : find_role list_nn home (codes "User") ≡ some user_role_sample
unfolding find_role find_role_in str_eq
user_role_found = refl

add_role_to_user_lem_run :
    let (status, iam', events) = add_role_to_user list_nn home (codes "1") (codes "User") in
    (status ≡ (user_add_role list_nn admin (codes "User")).0)
    × (find_user list_nn iam' (codes "1") ≡ (
        if str_eq (codes "1") (codes "1")
        then some (user_add_role list_nn admin (codes "User")).1
        else find_user list_nn home (codes "1")))
add_role_to_user_lem_run =
    add_role_to_user_lem list_nn home (codes "1") (codes "User") (codes "1") admin user_role_sample
      admin_found user_role_found

remove_role_from_user_lem_run :
    let (iam', events) = remove_role_from_user list_nn home (codes "1") (codes "Admin") in
    (find_user list_nn iam' (codes "1") ≡ (
      if str_eq (codes "1") (codes "1")
      then some (user_remove_role list_nn admin (codes "Admin"))
      else find_user list_nn home (codes "1")))
    × (list_nn.set_contains (user_remove_role list_nn admin (codes "Admin")).roles (codes "User")
        ≡ (not (str_eq (codes "User") (codes "Admin"))
            && list_nn.set_contains admin.roles (codes "User")))
remove_role_from_user_lem_run =
    remove_role_from_user_lem list_nn home (codes "1") (codes "Admin") (codes "1") (codes "User")
      admin admin_found

tunnel_matches : str_eq tunnel_policy.id (codes "tunnel") ≡ true
unfolding str_eq
tunnel_matches = refl

home_policies :
    (r : CString) (role : Role list_nn)
    → find_role list_nn home r ≡ some role
    → All (PolicyExists list_nn home) (list_nn.set_elements role.policies)
unfolding find_role find_role_in find_policy find_policy_in
home_policies r role e = elim (Bool-cases (str_eq (codes "Admin") r)) [
  | inl admin' ↦ ground (arith, tunnel_matches)
  | inr other ↦ elim (Bool-cases (str_eq (codes "User") r)) [
    | inl user' ↦ ground arith
    | inr none' ↦ absurd (ground arith)
  ]
]

home-IsComplete : IsComplete list_nn home
unfolding find_role find_role_in str_eq find_policy find_policy_in
home-IsComplete = record { fingerprints = ((λ e. cc), tt); policies = home_policies }

check_access_total_example :
    check_access list_nn digit_doubles home (some (codes "aa")) (codes "Tunnel") none ≢ none
check_access_total_example =
    check_access_total list_nn digit_doubles home (some (codes "aa")) (codes "Tunnel") none
      home-IsComplete

later_role_found : find_role list_nn home (role_for_new_user list_nn home) ≡ some user_role_sample
unfolding role_for_new_user find_role find_role_in str_eq
later_role_found = refl

pair_new_client_lem_example :
    (p : Paired list_nn) × (u : User list_nn) × (pair_new_client list_nn home
        (some (codes "bb"))
        (some (codes "token"))
      ≡ some p)
    × (p.user ≡ some u)
    × IsPairedWith list_nn home p.iam (codes "bb") u
    × ((r : CString)
        → list_nn.set_contains u.roles r
          ≡ str_eq r (
              if length (list_nn.vector_items (User list_nn) home.users) == 0
              then admin_role
              else user_role))
    × (u.server_connect_token ≡ some (codes "token"))
    × (p.events
        ≡ add_server_connect_token (codes "token")
          ∷ (if home.has_user_changed then user_changed u.id ∷ [] else []))
pair_new_client_lem_example =
    pair_new_client_lem list_nn home (codes "bb") (codes "token") user_role_sample stranger
      later_role_found (λ u. refl) (λ r. refl)

paired_already :
    pair_new_client list_nn home (some (codes "aa")) none
    ≡ some (record { iam = home; user = some admin; events = [] })
unfolding pair_new_client find_user_by_fingerprint find_by_fingerprint str_eq
paired_already = refl

pair_new_client-UniqueIds_example :
    UniqueIds list_nn (list_nn.vector_items (User list_nn) home.users)
unfolding find_by_id
pair_new_client-UniqueIds_example =
    pair_new_client-UniqueIds list_nn home (some (codes "aa")) none
      (record { iam = home; user = some admin; events = [] }) (refl, tt) paired_already

-- A request from the same network, with a password, for the role User of user 1.
abbrev request_of : CString → Request
request_of f = record {
  fingerprint = some f;
  is_local = true;
  parameter = λ key. if str_eq key (codes "user") then some (codes "1") else some (codes "User");
  has_cbor = true;
  text = some (codes "secret");
  text_at = λ key. none;
  token = some (codes "token");
}

refused_example :
    check_access list_nn digit_doubles home (some (codes "bb")) (codes "Pairing:Local") none
    ≡ some false
unfolding check_access effect_for check_unpaired find_user_by_fingerprint find_by_fingerprint
    find_role find_role_in str_eq
refused_example = refl

denied_changes_nothing_example :
    handle_pairing_local list_nn digit_doubles home (request_of (codes "bb"))
    ≡ some (record { iam = home; response = error_response 403; events = [] })
unfolding str_eq
denied_changes_nothing_example =
    denied_changes_nothing list_nn digit_doubles pairing_local home (request_of (codes "bb"))
      (codes "1") (codes "User") refl refl refused_example

-- A device that lets unpaired clients pair, with or without a password.
abbrev pairing_policy : Policy list_nn
pairing_policy = record {
  id = codes "pairing";
  statements =
      (record {
        effect = allow;
        actions = codes "Pairing:Local" ∷ codes "Pairing:Password" ∷ [];
        conditions = [];
      })
      ∷ [];
}

abbrev open_with : Option CString → Iam list_nn
open_with password = record home {
  roles =
      (record { id = codes "Unpaired"; policies = codes "pairing" ∷ [] }) ∷ user_role_sample ∷ [];
  policies = pairing_policy ∷ [];
  pairing_password = password;
}

abbrev new_user : User list_nn
new_user = record {
  id = codes "2";
  roles = codes "User" ∷ [];
  fingerprint = some (codes "bb");
  server_connect_token = some (codes "token");
  attributes = [];
}

-- The outcome of pairing the client "bb".
abbrev paired_with : Option CString → Outcome list_nn
paired_with password = record {
  iam = record (open_with password) { users = admin ∷ new_user ∷ [] };
  response = ready 201;
  events = add_server_connect_token (codes "token") ∷ user_changed (codes "2") ∷ [];
}

local_run :
    handle_pairing_local list_nn digit_doubles (open_with none) (request_of (codes "bb"))
    ≡ some (paired_with none)
unfolding handle_pairing_local check_access find_user_by_fingerprint find_by_fingerprint str_eq
    effect_for check_unpaired find_role find_role_in check_access_role eval_policies find_policy
    find_policy_in eval_get_effect policy_eval eval_statements policy_statement_eval eval_init
    statement_eval match_conditions match_all pair_new_client role_for_new_user next_user_id
    find_by_id decimal add_user paired_user user_new
local_run = refl

password_run :
    handle_pairing_password list_nn digit_doubles
      (open_with (some (codes "secret")))
      (request_of (codes "bb"))
    ≡ some (paired_with (some (codes "secret")))
unfolding handle_pairing_password check_access find_user_by_fingerprint find_by_fingerprint str_eq
    effect_for check_unpaired find_role find_role_in check_access_role eval_policies find_policy
    find_policy_in eval_get_effect policy_eval eval_statements policy_statement_eval eval_init
    statement_eval match_conditions match_all pair_new_client role_for_new_user next_user_id
    find_by_id decimal add_user paired_user user_new
password_run = refl

check_access_iff_example :
    (check_access list_nn digit_doubles
        (open_with none)
        (some (codes "bb"))
        (codes "Pairing:Local")
        none
      ≡ some true)
    ↔ ((f : CString) × (some (codes "bb") ≡ some f)
        × (UserGranted list_nn digit_doubles (open_with none) f (codes "Pairing:Local") none
            ⊎ StrangerGranted list_nn digit_doubles
                (open_with none)
                f
                (codes "Pairing:Local")
                none))
check_access_iff_example =
    check_access_iff list_nn digit_doubles (open_with none) (codes "Pairing:Local") none
      (some (codes "bb"))

pairing_local_needs_run :
    (check_access list_nn digit_doubles
        (open_with none)
        (some (codes "bb"))
        (codes "Pairing:Local")
        none
      ≡ some true)
    × ((request_of (codes "bb")).is_local ≡ true)
pairing_local_needs_run =
    pairing_local_needs list_nn digit_doubles (open_with none) (request_of (codes "bb"))
      (paired_with none) local_run refl

pairing_password_needs_example :
    (check_access list_nn digit_doubles
        (open_with (some (codes "secret")))
        (some (codes "bb"))
        (codes "Pairing:Password")
        none
      ≡ some true)
    × (given_password (request_of (codes "bb")) ≡ some (codes "secret"))
    × (some (codes "secret") ≢ none)
pairing_password_needs_example =
    pairing_password_needs list_nn digit_doubles (open_with (some (codes "secret")))
      (request_of (codes "bb")) (paired_with (some (codes "secret"))) password_run refl

open_access :
    check_access list_nn digit_doubles
      (open_with none)
      (some (codes "bb"))
      (codes "Pairing:Password")
      none
    ≡ some true
unfolding check_access find_user_by_fingerprint find_by_fingerprint str_eq effect_for check_unpaired
    find_role find_role_in check_access_role eval_policies find_policy find_policy_in
    eval_get_effect policy_eval eval_statements policy_statement_eval eval_init statement_eval
    match_conditions match_all
open_access = refl

pairing_password_fault_run :
    handle_pairing_password list_nn digit_doubles (open_with none) (request_of (codes "bb")) ≡ none
pairing_password_fault_run =
    pairing_password_fault list_nn digit_doubles (open_with none) (request_of (codes "bb"))
      (codes "bb") (codes "secret") refl refl refl refl open_access
