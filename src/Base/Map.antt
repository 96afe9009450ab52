-- ===== src/Base/Map.antt =====
-- Rust's hash maps as association lists. The list's order is the order of iteration.
pub mod Same
use mathlib.Core.Path.{◌≡◌, refl, sym, subst, ◌∙◌}
use mathlib.Core.Logic.{◌⊎◌, inl, inr}
use mathlib.Core.Bool.{Bool, true, false}
use mathlib.Core.Option.{Option, none, some}
use mathlib.Core.List.{List, [], ◌∷◌}
use native.Mathlib.Omega.{arith}
use weavegraph.Base.Tests.{if◌then◌else◌, Key, ◌==◌}
use weavegraph.Base.Lists.{In, contains, in-contains}

abbrev pub Map {ℓ κ} : Type ℓ → Type κ → Type (ℓ ⊔ κ)
Map K V = List (K × V)

module _ {ℓ κ} {K : Type ℓ} {V : Type κ} where
  abbrev pub keys : Map K V → List K
  keys [] = []
  keys ((k, v) ∷ m) = k ∷ keys m

  module _ ⦃key : Key K⦄ where
    unfoldable pub get : K → Map K V → Option V
    get k [] = none
    get k ((j, v) ∷ m) = if j == k then some v else get k m

    unfoldable pub put : K → V → Map K V → Map K V
    put k v [] = (k, v) ∷ []
    put k v ((j, w) ∷ m) = if j == k then (k, v) ∷ m else (j, w) ∷ put k v m

    unfoldable pub remove : K → Map K V → Map K V
    remove k [] = []
    remove k ((j, v) ∷ m) = let rest = remove k m in if j == k then rest else (j, v) ∷ rest

    pub get-put :
        (k j : K) (v : V) (m : Map K V) → get j (put k v m) ≡ (if k == j then some v else get j m)
    unfolding get put
    get-put k j v [] = refl
    get-put k j v ((i, w) ∷ m) = ground (arith, get-put k j v m)

    pub get-remove :
        (k j : K) (m : Map K V) → get j (remove k m) ≡ (if k == j then none else get j m)
    unfolding get remove
    get-remove k j [] = ground arith
    get-remove k j ((i, w) ∷ m) = ground (arith, get-remove k j m)

    pub get-put_self : (k : K) (v : V) (m : Map K V) → get k (put k v m) ≡ some v
    get-put_self k v m = ground (arith, get-put k k v m)

    pub get-put_other : (k j : K) (v : V) (m : Map K V) → ¬ (k ≡ j) → get j (put k v m) ≡ get j m
    get-put_other k j v m other = ground (arith, get-put k j v m)

    pub get-remove_other : (k j : K) (m : Map K V) → ¬ (k ≡ j) → get j (remove k m) ≡ get j m
    get-remove_other k j m other = ground (arith, get-remove k j m)

    pub get-remove-some :
        (k j : K) (w : V) (m : Map K V) → get j (remove k m) ≡ some w → get j m ≡ some w
    get-remove-some k j w m h = ground (arith, get-remove k j m)

    -- What a put leaves under a key: the new pair, or the old entry.
    pub get-put_cases :
        (k j : K) (v w : V) (m : Map K V)
        → get j (put k v m) ≡ some w
        → ((k ≡ j) × (v ≡ w)) ⊎ (get j m ≡ some w)
    get-put_cases k j v w m h = elim (key.eq? k j) [
      | yes e ↦
          let new = subst (λ i. get i (put k v m) ≡ some v) e (get-put_self k v m) in inl (e, cc)
      | no other ↦ inr (sym (get-put_other k j v m other) ∙ h)
    ]

    unfoldable pub contains_key : K → Map K V → Bool
    unfolding get
    contains_key k m = elim (get k m) [ none ↦ false | some _ ↦ true ]

module _ {κ} {K : Type 0} {V : Type κ} ⦃key : Key K⦄ where
  pub keys-put_self : (k : K) (v : V) (m : Map K V) → In k (keys (put k v m))
  unfolding put
  keys-put_self k v [] = inl refl
  keys-put_self k v ((j, w) ∷ m) = ground (arith, keys-put_self k v m)

  pub keys-put : (k j : K) (v : V) (m : Map K V) → In j (keys m) → In j (keys (put k v m))
  unfolding put
  keys-put k j v [] i = absurd i
  keys-put k j v ((h, w) ∷ m) i = ground (arith, keys-put k j v m)

  pub get-in : (k : K) (v : V) (m : Map K V) → get k m ≡ some v → In k (keys m)
  unfolding get
  get-in k v [] e = cc
  get-in k v ((j, w) ∷ m) e = ground (arith, get-in k v m)

  pub in-get : (k : K) (m : Map K V) → In k (keys m) → (v : V) × (get k m ≡ some v)
  unfolding get
  in-get k [] i = absurd i
  in-get k ((j, w) ∷ m) i = elim (key.eq? j k) [
    | yes e ↦ (w, ground arith)
    | no other ↦ let (v, e) = in-get k m (ground arith) in (v, ground arith)
  ]

  -- A key stands once, as in a hash map.
  abbrev pub IsMap : Map K V → Type 0
  IsMap [] = Unit
  IsMap ((k, v) ∷ m) = (¬ In k (keys m)) × IsMap m

  pub in-keys-put :
      (k j : K) (v : V) (m : Map K V) → In j (keys (put k v m)) → (k ≡ j) ⊎ In j (keys m)
  unfolding put
  in-keys-put k j v [] i = ground arith
  in-keys-put k j v ((h, w) ∷ m) i = ground (arith, in-keys-put k j v m)

  pub put-IsMap : (k : K) (v : V) (m : Map K V) → IsMap m → IsMap (put k v m)
  unfolding put
  put-IsMap k v [] h = ground arith
  put-IsMap k v ((j, w) ∷ m) h = ground (arith, put-IsMap k v m, in-keys-put k j v m)

  -- A test that a list is a map.
  abbrev pub has_distinct_keys : Map K V → Bool
  has_distinct_keys [] = true
  has_distinct_keys ((k, v) ∷ m) = if contains (keys m) k then false else has_distinct_keys m

  pub has_distinct_keys-IsMap : (m : Map K V) → has_distinct_keys m ≡ true → IsMap m
  has_distinct_keys-IsMap [] h = tt
  has_distinct_keys-IsMap ((k, v) ∷ m) h =
      ground (arith, has_distinct_keys-IsMap m, in-contains (keys m) k)

pub ruleset map_laws = (get-put, get-remove)
