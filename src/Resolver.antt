-- ===== src/Resolver.antt =====
-- src/core/nc_dns_multi_resolver.c: one resolution of a name for both families of addresses. The two
-- lookups of the platform are started together and answer in any order.
pub mod Order
mod Tests
use nabto_embedded_sdk.Base.{
  ℕ, zero, suc, ◌+◌, Bool, true, false, ◌&&◌, ◌||◌, Option, none, some, List, [], ◌∷◌, ◌++◌, length,
  get_elem?, ltb, if◌then◌else◌,
}
use nabto_embedded_sdk.Attacher.{Ip, ErrorCode, ec_ok, operation_in_progress}

-- `struct nc_dns_multi_resolver_context`; the lists are the arrays up to their sizes
pub record Resolver : Type 0 where
  pub ips : List Ip  -- *ips, up to *ipsResolved, which is kept if both lookups fail
  pub ips_size : ℕ
  pub v4_ips : List Ip
  pub v6_ips : List Ip
  pub v4_ec : ErrorCode
  pub v6_ec : ErrorCode

-- The results that the caller's array held before stay there.
pub resolve : ℕ → Resolver → Resolver
resolve ips_size r = record r {
  ips_size = ips_size;
  v4_ips = [];
  v6_ips = [];
  v4_ec = operation_in_progress;
  v6_ec = operation_in_progress;
}

unfoldable pub is_ok : ErrorCode → Bool
is_ok ec_ok = true
is_ok _ = false

pub is_pending : ErrorCode → Bool
is_pending operation_in_progress = true
is_pending _ = false

-- One of the two tests in the loop: an address goes to the end of the results if there is room.
place : ℕ → Option Ip → List Ip → List Ip
place size none ips = ips
place size (some ip) ips = if ltb (length ips) size then ips ++ (ip ∷ []) else ips

-- The loop, with so many rounds to go from round `i` on.
merge_from : ℕ → ℕ → List Ip → List Ip → ℕ → List Ip → List Ip
unfolding place
merge_from size i v4 v6 zero ips = ips
merge_from size i v4 v6 (suc n) ips =
    merge_from size (suc i) v4 v6 n (place size (get_elem? v6 i) (place size (get_elem? v4 i) ips))

pub dns_resolved_ec : Resolver → ErrorCode × Resolver
unfolding is_ok merge_from
dns_resolved_ec r =
    if is_ok r.v4_ec || is_ok r.v6_ec
    then (
      ec_ok,
      record r {
        ips = merge_from r.ips_size 0 r.v4_ips r.v6_ips (length r.v4_ips + length r.v6_ips) [];
      },
    )
    else (r.v4_ec, r)

-- The completion event of the caller, resolved with a code, or not yet.
pub finish : Resolver → Resolver × Option ErrorCode
unfolding is_pending
finish r =
    let (ec, r') = dns_resolved_ec r in
    if is_pending r.v4_ec || is_pending r.v6_ec then (r, none) else (r', some ec)

-- The answers of the two lookups, with the addresses that they stored.
pub resolved_v4 : ErrorCode → List Ip → Resolver → Resolver × Option ErrorCode
resolved_v4 ec found r = finish (record r { v4_ec = ec; v4_ips = found })

pub resolved_v6 : ErrorCode → List Ip → Resolver → Resolver × Option ErrorCode
resolved_v6 ec found r = finish (record r { v6_ec = ec; v6_ips = found })
