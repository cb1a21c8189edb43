-- ===== src/Resolver/Tests.antt =====
-- Two lookups, of which one fails.
use nabto_embedded_sdk.Base.{◌≡◌, refl, true, false, none, some, List, [], ◌∷◌, ◌||◌, take}
use nabto_embedded_sdk.Attacher.{Ip, ipv4, ipv6, ec_ok, unknown, max_endpoints}
use nabto_embedded_sdk.Attacher.Events.{fill_endpoints}
use nabto_embedded_sdk.Attacher.Endpoints.{at_port}
use nabto_embedded_sdk.Resolver.{Resolver, resolve, is_ok, is_pending, resolved_v4, resolved_v6}
use nabto_embedded_sdk.Resolver.Order.{alternate, outcome, either_order, endpoints_in_bounds}

abbrev v4_sample : List Ip
v4_sample = ipv4 (10 ∷ []) ∷ ipv4 (11 ∷ []) ∷ ipv4 (12 ∷ []) ∷ []

abbrev v6_sample : List Ip
v6_sample = ipv6 (20 ∷ []) ∷ ipv6 (21 ∷ []) ∷ []

abbrev empty_resolver : Resolver
empty_resolver = record {
  ips = [];
  ips_size = 0;
  v4_ips = [];
  v6_ips = [];
  v4_ec = ec_ok;
  v6_ec = ec_ok;
}

ok_not_pending : is_pending ec_ok ≡ false
unfolding is_pending
ok_not_pending = refl

failed_not_pending : is_pending unknown ≡ false
unfolding is_pending
failed_not_pending = refl

one_ok : (is_ok ec_ok || is_ok ec_ok) ≡ true
unfolding is_ok
one_ok = refl

either_order_example :
    let s = resolve 4 empty_resolver in
    ((resolved_v4 ec_ok v4_sample s).1 ≡ none)
    × ((resolved_v6 unknown [] s).1 ≡ none)
    × (resolved_v6 unknown [] (resolved_v4 ec_ok v4_sample s).0
        ≡ outcome 4 ec_ok unknown v4_sample [] empty_resolver)
    × (resolved_v4 ec_ok v4_sample (resolved_v6 unknown [] s).0
        ≡ outcome 4 ec_ok unknown v4_sample [] empty_resolver)
either_order_example =
    either_order 4 ec_ok unknown v4_sample [] empty_resolver ok_not_pending failed_not_pending

endpoints_in_bounds_run :
    fill_endpoints 0 443 []
      (outcome max_endpoints ec_ok ec_ok v4_sample v6_sample empty_resolver).0.ips
    ≡ some (at_port 443 (take max_endpoints (alternate v4_sample v6_sample)))
endpoints_in_bounds_run =
    endpoints_in_bounds ec_ok ec_ok v4_sample v6_sample empty_resolver 443 one_ok
