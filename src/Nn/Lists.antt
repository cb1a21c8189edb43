-- ===== src/Nn/Lists.antt =====
-- Containers that meet the interface: lists, and memory that never runs out.
use nabto_embedded_sdk.Base.{
  ℕ, zero, suc, ◌≡◌, refl, Bool, true, false, not, ◌&&◌, ◌||◌, Option, none, some, List, [], ◌∷◌,
  ◌++◌, CString, str_eq, str_eq_iff, any, take, if◌then◌else◌, arith, Bool-cases, inl, inr, ap,
  drop, set,
}
use nabto_embedded_sdk.Nn.{Nn}

abbrev pub insert : List CString → CString → Bool × List CString
insert s x = (true, if any (str_eq x) s then s else x ∷ s)

abbrev pub erase : List CString → CString → List CString
erase [] x = []
erase (y ∷ s) x = if str_eq y x then erase s x else y ∷ erase s x

abbrev pub get : List (CString × CString) → CString → Option CString
get [] x = none
get ((y, v) ∷ m) x = if str_eq x y then some v else get m x

abbrev pub remove : List (CString × CString) → CString → List (CString × CString)
remove [] x = []
remove ((y, v) ∷ m) x = if str_eq y x then remove m x else (y, v) ∷ remove m x

abbrev pub erase_at : (A : Type 0) → List A → ℕ → List A
erase_at A [] i = []
erase_at A (x ∷ xs) zero = xs
erase_at A (x ∷ xs) (suc i) = x ∷ erase_at A xs i

pub erase_at_lem :
    (A : Type 0) (xs : List A) (i : ℕ) → erase_at A xs i ≡ take i xs ++ drop (suc i) xs
erase_at_lem A [] zero = refl
erase_at_lem A [] (suc i) = refl
erase_at_lem A (x ∷ xs) zero = refl
erase_at_lem A (x ∷ xs) (suc i) = ap (λ l. x ∷ l) (erase_at_lem A xs i)

-- A failure, which does not happen.
pub never_fails {ℓ} : {P : Type ℓ} → true ≡ false → P
never_fails h = cc

pub insert_lem :
    (s : List CString) (x y : CString)
    → any (str_eq y) (insert s x).1 ≡ (str_eq y x || any (str_eq y) s)
insert_lem s x y = elim (Bool-cases (any (str_eq x) s)) [
  | inl old ↦
      rw old
        (elim (Bool-cases (str_eq y x)) [ inl e ↦ rw (e, (str_eq_iff y x).0 e) old | inr e ↦ rw e ])
  | inr new ↦ rw new
]

pub erase_lem :
    (s : List CString) (x y : CString)
    → any (str_eq y) (erase s x) ≡ (not (str_eq y x) && any (str_eq y) s)
erase_lem [] x y = ground arith
erase_lem (z ∷ s) x y =
    ground (arith, erase_lem s x y, str_eq_iff z x, str_eq_iff y x, str_eq_iff y z)

get-remove :
    (m : List (CString × CString)) (x y : CString)
    → str_eq y x ≡ false
    → get (remove m x) y ≡ get m y
get-remove [] x y h = refl
get-remove ((z, v) ∷ m) x y h =
    ground (arith, get-remove m x y h, str_eq_iff z x, str_eq_iff y x, str_eq_iff y z)

pub get-insert :
    (m : List (CString × CString)) (x v y : CString)
    → get ((x, v) ∷ remove m x) y ≡ (if str_eq y x then some v else get m y)
get-insert m x v y = ground (arith, get-remove m x y)

abbrev pub list_nn : Nn
list_nn = record {
  StringSet = List CString;
  set_init = [];
  set_elements = λ s. s;
  set_contains = λ s x. any (str_eq x) s;
  set_insert = insert;
  set_erase = erase;
  StringMap = List (CString × CString);
  map_init = [];
  map_entries = λ m. m;
  map_get = get;
  map_getn = λ m x n. get m (take n x);
  map_insert = λ m x v. (true, (x, v) ∷ remove m x);
  Vector = λ A. List A;
  vector_init = λ A. [];
  vector_items = λ A v. v;
  vector_push_back = λ A v a. (true, v ++ (a ∷ []));
  vector_erase = erase_at;
  vector_write = λ A v i a. set v i a;
  set_contains_lem = λ s x. refl;
  set_elements-init = refl;
  set_insert_true = λ s x y h. insert_lem s x y;
  set_insert_false = λ s x h. never_fails h;
  set_contains-erase = erase_lem;
  map_getn_lem = λ m x n. refl;
  map_get-init = λ x. refl;
  map_insert_true = λ m x v y h. get-insert m x v y;
  vector_items-init = λ A. refl;
  vector_push_back_true = λ A v a h. refl;
  vector_push_back_false = λ A v a h. never_fails h;
  vector_items-erase = erase_at_lem;
  vector_items-write = λ A v i a. refl;
}
