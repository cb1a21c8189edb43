-- ===== src/Nn.antt =====
-- The containers of nabto-common, a submodule, behind the interface that src/modules uses: the
-- string set, the string map and the vector of nn. The laws are what their headers document.
pub mod Lists
use nabto_embedded_sdk.Base.{
  ℕ, ◌≡◌, Bool, true, false, not, ◌&&◌, ◌||◌, Option, none, some, List, [], ◌∷◌, ◌++◌, CString,
  str_eq, any, take, drop, set, suc, if◌then◌else◌,
}

pub record Nn : Type 1 where
  -- nn_string_set: the elements in the order of NN_STRING_SET_FOREACH
  pub StringSet : Type 0
  pub set_init : StringSet
  pub set_elements : StringSet → List CString
  pub set_contains : StringSet → CString → Bool
  -- false when there is no memory
  pub set_insert : StringSet → CString → Bool × StringSet
  pub set_erase : StringSet → CString → StringSet
  -- nn_string_map: the entries in the order of the iterator
  pub StringMap : Type 0
  pub map_init : StringMap
  pub map_entries : StringMap → List (CString × CString)
  pub map_get : StringMap → CString → Option CString
  -- the key is the first bytes of a text, as many as the number says
  pub map_getn : StringMap → CString → ℕ → Option CString
  pub map_insert : StringMap → CString → CString → Bool × StringMap
  -- nn_vector: the items in the order of NN_VECTOR_FOREACH
  pub Vector : Type 0 → Type 0
  pub vector_init : (A : Type 0) → Vector A
  pub vector_items : (A : Type 0) → Vector A → List A
  -- false when there is no memory
  pub vector_push_back : (A : Type 0) → Vector A → A → Bool × Vector A
  pub vector_erase : (A : Type 0) → Vector A → ℕ → Vector A
  -- The vectors of the program hold pointers to objects that they own: a write through the pointer
  -- at an index, which changes the object and not the vector.
  pub vector_write : (A : Type 0) → Vector A → ℕ → A → Vector A
  pub set_contains_lem :
      (s : StringSet) (x : CString) → set_contains s x ≡ any (str_eq x) (set_elements s)
  pub set_elements-init : set_elements set_init ≡ []
  pub set_insert_true :
      (s : StringSet) (x y : CString)
      → (set_insert s x).0 ≡ true
      → set_contains (set_insert s x).1 y ≡ (str_eq y x || set_contains s y)
  pub set_insert_false :
      (s : StringSet) (x : CString) → (set_insert s x).0 ≡ false → (set_insert s x).1 ≡ s
  pub set_contains-erase :
      (s : StringSet) (x y : CString)
      → set_contains (set_erase s x) y ≡ (not (str_eq y x) && set_contains s y)
  pub map_getn_lem : (m : StringMap) (x : CString) (n : ℕ) → map_getn m x n ≡ map_get m (take n x)
  pub map_get-init : (x : CString) → map_get map_init x ≡ none
  pub map_insert_true :
      (m : StringMap) (x v y : CString)
      → (map_insert m x v).0 ≡ true
      → map_get (map_insert m x v).1 y ≡ (if str_eq y x then some v else map_get m y)
  pub vector_items-init : (A : Type 0) → vector_items A (vector_init A) ≡ []
  pub vector_push_back_true :
      (A : Type 0) (v : Vector A) (a : A)
      → (vector_push_back A v a).0 ≡ true
      → vector_items A (vector_push_back A v a).1 ≡ vector_items A v ++ (a ∷ [])
  pub vector_push_back_false :
      (A : Type 0) (v : Vector A) (a : A)
      → (vector_push_back A v a).0 ≡ false
      → (vector_push_back A v a).1 ≡ v
  pub vector_items-erase :
      (A : Type 0) (v : Vector A) (i : ℕ)
      → vector_items A (vector_erase A v i)
        ≡ take i (vector_items A v) ++ drop (suc i) (vector_items A v)
  pub vector_items-write :
      (A : Type 0) (v : Vector A) (i : ℕ) (a : A)
      → vector_items A (vector_write A v i a) ≡ set (vector_items A v) i a
