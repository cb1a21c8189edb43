-- ===== src/Resolver/Order.antt =====
-- The addresses that a resolution ends with.
use nabto_embedded_sdk.Base.{
  ℕ, zero, suc, ◌+◌, ◌≤◌, ◌≡◌, refl, sym, ap, ◌∙◌, arith, true, false, ◌||◌, Option, none, some,
  List, [], ◌∷◌, ◌++◌, length, get_elem?, take, if◌then◌else◌, append-nil, append_assoc,
}
use nabto_embedded_sdk.Attacher.{Ip, ErrorCode, ec_ok, max_endpoints}
use nabto_embedded_sdk.Attacher.Events.{fill_endpoints}
use nabto_embedded_sdk.Attacher.Endpoints.{at_port, fill_endpoints_lem}
use nabto_embedded_sdk.Resolver.{
  Resolver, resolve, place, merge_from, is_ok, is_pending, dns_resolved_ec, finish, resolved_v4,
  resolved_v6,
}

-- The addresses of both families in turn, beginning with the first, and what is left of the longer.
pub alternate : List Ip → List Ip → List Ip
alternate [] ys = ys
alternate (x ∷ xs) [] = x ∷ xs
alternate (x ∷ xs) (y ∷ ys) = x ∷ y ∷ alternate xs ys

single : Option Ip → List Ip
single none = []
single (some ip) = ip ∷ []

-- The loop without a bound on its results.
rounds : ℕ → List Ip → List Ip → ℕ → List Ip
unfolding single
rounds i v4 v6 zero = []
rounds i v4 v6 (suc n) =
    single (get_elem? v4 i) ++ (single (get_elem? v6 i) ++ rounds (suc i) v4 v6 n)

abbrev no_ips : List Ip
no_ips = []

take_nil : (size : ℕ) → take size no_ips ≡ no_ips
take_nil zero = refl
take_nil (suc size) = refl

take-end :
    (size : ℕ) (l : List Ip) (ip : Ip)
    → place size (some ip) (take size l) ≡ take size (l ++ (ip ∷ []))
unfolding place
take-end zero l ip = refl
take-end (suc size) [] ip = ground (arith, take_nil size)
take-end (suc size) (x ∷ l) ip = ground (arith, take-end size l ip)

place-take :
    (size : ℕ) (o : Option Ip) (l : List Ip)
    → place size o (take size l) ≡ take size (l ++ single o)
unfolding place single
place-take size none l = ap (take size) (sym (append-nil l))
place-take size (some ip) l = take-end size l ip

merge_from-rounds :
    (size i : ℕ) (v4 v6 : List Ip) (n : ℕ) (l : List Ip)
    → merge_from size i v4 v6 n (take size l) ≡ take size (l ++ rounds i v4 v6 n)
unfolding merge_from rounds
merge_from-rounds size i v4 v6 zero l = ap (take size) (sym (append-nil l))
merge_from-rounds size i v4 v6 (suc n) l =
    let a = single (get_elem? v4 i) in
    let b = single (get_elem? v6 i) in
    ap (λ k. merge_from size (suc i) v4 v6 n (place size (get_elem? v6 i) k))
      (place-take size (get_elem? v4 i) l)
    ∙ ap (merge_from size (suc i) v4 v6 n) (place-take size (get_elem? v6 i) (l ++ a))
    ∙ merge_from-rounds size (suc i) v4 v6 n ((l ++ a) ++ b)
    ∙ ap (take size) (
        append_assoc (l ++ a) b (rounds (suc i) v4 v6 n)
        ∙ append_assoc l a (b ++ rounds (suc i) v4 v6 n))

rounds-tails :
    (i : ℕ) (x y : Ip) (xs ys : List Ip) (n : ℕ)
    → rounds (suc i) (x ∷ xs) (y ∷ ys) n ≡ rounds i xs ys n
unfolding rounds
rounds-tails i x y xs ys zero = refl
rounds-tails i x y xs ys (suc n) =
    ap (λ l. single (get_elem? xs i) ++ (single (get_elem? ys i) ++ l))
      (rounds-tails (suc i) x y xs ys n)

rounds_v6 :
    (i : ℕ) (y : Ip) (ys : List Ip) (n : ℕ) → rounds (suc i) [] (y ∷ ys) n ≡ rounds i [] ys n
unfolding rounds
rounds_v6 i y ys zero = refl
rounds_v6 i y ys (suc n) = ap (λ l. single (get_elem? ys i) ++ l) (rounds_v6 (suc i) y ys n)

rounds_v4 :
    (i : ℕ) (x : Ip) (xs : List Ip) (n : ℕ) → rounds (suc i) (x ∷ xs) [] n ≡ rounds i xs [] n
unfolding rounds
rounds_v4 i x xs zero = refl
rounds_v4 i x xs (suc n) = ap (λ l. single (get_elem? xs i) ++ l) (rounds_v4 (suc i) x xs n)

rounds_none : (i n : ℕ) → rounds i [] [] n ≡ []
unfolding rounds
rounds_none i zero = refl
rounds_none i (suc n) = rounds_none (suc i) n

alternate_nil : (xs : List Ip) → alternate xs [] ≡ xs
unfolding alternate
alternate_nil [] = refl
alternate_nil (x ∷ xs) = refl

rounds-alternate :
    (v4 v6 : List Ip) (n : ℕ) → length v4 + length v6 ≤ n → rounds 0 v4 v6 n ≡ alternate v4 v6
unfolding rounds alternate single
rounds-alternate [] [] n h = rounds_none 0 n
rounds-alternate [] (y ∷ ys) zero h = absurd (omega (arith, h))
rounds-alternate [] (y ∷ ys) (suc n) h =
    ap (λ l. y ∷ l) (rounds_v6 0 y ys n ∙ rounds-alternate [] ys n (omega (arith, h)))
rounds-alternate (x ∷ xs) [] zero h = absurd (omega (arith, h))
rounds-alternate (x ∷ xs) [] (suc n) h =
    ap (λ l. x ∷ l)
      (rounds_v4 0 x xs n ∙ rounds-alternate xs [] n (omega (arith, h)) ∙ alternate_nil xs)
rounds-alternate (x ∷ xs) (y ∷ ys) zero h = absurd (omega (arith, h))
rounds-alternate (x ∷ xs) (y ∷ ys) (suc n) h =
    ap (λ l. x ∷ y ∷ l) (rounds-tails 0 x y xs ys n ∙ rounds-alternate xs ys n (omega (arith, h)))

merge_from_lem :
    (size : ℕ) (v4 v6 : List Ip)
    → merge_from size 0 v4 v6 (length v4 + length v6) [] ≡ take size (alternate v4 v6)
merge_from_lem size v4 v6 =
    ap (merge_from size 0 v4 v6 (length v4 + length v6)) (sym (take_nil size))
    ∙ merge_from-rounds size 0 v4 v6 (length v4 + length v6) []
    ∙ ap (take size) (rounds-alternate v4 v6 (length v4 + length v6) (omega arith))

-- The outcome of a resolution whose two lookups answered.
pub outcome : ℕ → ErrorCode → ErrorCode → List Ip → List Ip → Resolver → Resolver × Option ErrorCode
outcome size e4 e6 l4 l6 r =
    let ok = is_ok e4 || is_ok e6 in
    (
      record {
        ips = if ok then take size (alternate l4 l6) else r.ips;
        ips_size = size;
        v4_ips = l4;
        v6_ips = l6;
        v4_ec = e4;
        v6_ec = e6;
      },
      some (if ok then ec_ok else e4),
    )

-- The two lookups may answer in either order: the first answer does not complete the resolution, and
-- the second completes it with the same outcome. If one of the lookups succeeds, the results are the
-- addresses of both in turn, as many as there is room for; otherwise the resolution ends with the
-- error for the first family, and the results are left as they were.
pub either_order :
    (size : ℕ) (e4 e6 : ErrorCode) (l4 l6 : List Ip) (r : Resolver)
    → is_pending e4 ≡ false
    → is_pending e6 ≡ false
    → let s = resolve size r in
      ((resolved_v4 e4 l4 s).1 ≡ none)
      × ((resolved_v6 e6 l6 s).1 ≡ none)
      × (resolved_v6 e6 l6 (resolved_v4 e4 l4 s).0 ≡ outcome size e4 e6 l4 l6 r)
      × (resolved_v4 e4 l4 (resolved_v6 e6 l6 s).0 ≡ outcome size e4 e6 l4 l6 r)
unfolding resolve resolved_v4 resolved_v6 finish dns_resolved_ec outcome is_pending
either_order size e4 e6 l4 l6 r p q =
    let m = merge_from_lem size l4 l6 in
    (ground arith, ground arith, ground (arith, m), ground (arith, m))

length-take_le : (size : ℕ) (l : List Ip) → length (take size l) ≤ size
length-take_le zero l = omega arith
length-take_le (suc size) [] = omega arith
length-take_le (suc size) (x ∷ l) = omega (arith, length-take_le size l)

-- The attacher's resolutions have room for four addresses, so the loop that makes endpoints of the
-- results never writes behind its array.
pub endpoints_in_bounds :
    (e4 e6 : ErrorCode) (l4 l6 : List Ip) (r : Resolver) (port : ℕ)
    → (is_ok e4 || is_ok e6) ≡ true
    → fill_endpoints 0 port [] (outcome max_endpoints e4 e6 l4 l6 r).0.ips
      ≡ some (at_port port (take max_endpoints (alternate l4 l6)))
unfolding outcome
endpoints_in_bounds e4 e6 l4 l6 r port ok = rw ok (
    fill_endpoints_lem port [] (take max_endpoints (alternate l4 l6)) (omega arith)
    ∙ ground (arith, length-take_le max_endpoints (alternate l4 l6)))
