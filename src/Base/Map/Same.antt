-- ===== src/Base/Map/Same.antt =====
-- Maps of one size, all of whose pairs one shares with the other, answer alike.
use mathlib.Core.Path.{◌≡◌, refl, sym, ◌∙◌}
use mathlib.Core.Logic.{inl, inr}
use mathlib.Core.Option.{none, some}
use mathlib.Core.List.{[], ◌∷◌}
use Prim.Native.Nat.{suc, ◌≤◌}
use native.Mathlib.Omega.{arith}
use weavegraph.Base.Tests.{Key, Option-cases}
use weavegraph.Base.Lists.{In, length}
use weavegraph.Base.Map.{Map, keys, get, remove, get-remove, get-in, in-get, IsMap}

module _ {κ} {K : Type 0} {V : Type κ} ⦃key : Key K⦄ where
  pub get_absent : (k : K) (m : Map K V) → ¬ In k (keys m) → get k m ≡ none
  unfolding get
  get_absent k [] h = refl
  get_absent k ((j, v) ∷ m) h = ground (arith, get_absent k m)

  in-keys-remove : (k j : K) (m : Map K V) → In j (keys (remove k m)) → In j (keys m) × (¬ (k ≡ j))
  unfolding remove
  in-keys-remove k j [] i = absurd i
  in-keys-remove k j ((h, v) ∷ m) i = ground (arith, in-keys-remove k j m)

  pub remove-IsMap : (k : K) (m : Map K V) → IsMap m → IsMap (remove k m)
  unfolding remove
  remove-IsMap k [] h = tt
  remove-IsMap k ((j, v) ∷ m) h = ground (arith, remove-IsMap k m, in-keys-remove k j m)

  length-remove_absent : (k : K) (m : Map K V) → ¬ In k (keys m) → length (remove k m) ≡ length m
  unfolding remove
  length-remove_absent k [] h = refl
  length-remove_absent k ((j, v) ∷ m) h = ground (arith, length-remove_absent k m)

  length-remove :
      (k : K) (m : Map K V) → IsMap m → In k (keys m) → suc (length (remove k m)) ≡ length m
  unfolding remove
  length-remove k [] h i = absurd i
  length-remove k ((j, v) ∷ m) h i = ground (arith, length-remove k m, length-remove_absent k m)

  -- Each pair of `a` stands in `b`.
  abbrev pub Within : Map K V → Map K V → Type κ
  Within a b = (k : K) (v : V) → get k a ≡ some v → get k b ≡ some v

  Within-tail :
      (k : K) (v : V) (a b : Map K V)
      → ¬ In k (keys a)
      → Within ((k, v) ∷ a) b
      → Within a (remove k b)
  unfolding get
  Within-tail k v a b new h j w e = ground (arith, get-remove k j b, h j w, get-in j w a e)

  pub head_pair : (k : K) (v : V) (a : Map K V) → get k ((k, v) ∷ a) ≡ some v
  unfolding get
  head_pair k v a = ground arith

  keys-remove : (k j : K) (m : Map K V) → ¬ (k ≡ j) → In j (keys m) → In j (keys (remove k m))
  unfolding remove
  keys-remove k j [] other i = i
  keys-remove k j ((h, v) ∷ m) other i = ground (arith, keys-remove k j m)

  -- A map of distinct keys that lies within another of at most its size has all its keys.
  keys_within :
      (a b : Map K V)
      → IsMap a
      → IsMap b
      → Within a b
      → length b ≤ length a
      → (k : K) → In k (keys b)
      → In k (keys a)
  keys_within [] [] ha hb h size k i = i
  keys_within [] (p ∷ b) ha hb h size k i = absurd (omega arith)
  keys_within ((j, v) ∷ a) b ha hb h size k i = elim (key.eq? j k) [
    | yes e ↦ inl e
    | no other ↦ inr (
        keys_within a (remove j b) ha.1 (remove-IsMap j b hb) (Within-tail j v a b ha.0 h)
          (omega (arith, length-remove j b hb (get-in j v b (h j v (head_pair j v a))))) k
          (keys-remove j k b other i))
  ]

  -- `length a == length b`, and each pair of `a` in `b`: then the maps agree at every key.
  pub agree_of_Within :
      (a b : Map K V)
      → IsMap a
      → IsMap b
      → Within a b
      → length a ≡ length b
      → (k : K) → get k a ≡ get k b
  agree_of_Within a b ha hb h size k = elim (Option-cases (get k a)) [
    | inr (v, e) ↦ e ∙ sym (h k v e)
    | inl absent ↦ absent ∙ sym (get_absent k b (not_there k absent))
  ]
    where
      not_there : (k : K) → get k a ≡ none → ¬ In k (keys b)
      not_there k absent i =
          let (v, e) = in-get k a (keys_within a b ha hb h (omega arith) k i) in cc (absent, e)

  -- The other way round: maps that agree at every key have one size.
  length-le_of_Within : (a b : Map K V) → IsMap a → IsMap b → Within a b → length a ≤ length b
  length-le_of_Within [] b ha hb h = omega arith
  length-le_of_Within ((j, v) ∷ a) b ha hb h = omega (
    arith,
    length-remove j b hb (get-in j v b (h j v (head_pair j v a))),
    length-le_of_Within a (remove j b) ha.1 (remove-IsMap j b hb) (Within-tail j v a b ha.0 h),
  )

  pub length_of_agree :
      (a b : Map K V) → IsMap a → IsMap b → ((k : K) → get k a ≡ get k b) → length a ≡ length b
  length_of_agree a b ha hb h = omega (
    arith,
    length-le_of_Within a b ha hb (λ k v e. sym (h k) ∙ e),
    length-le_of_Within b a hb ha (λ k v e. h k ∙ e),
  )
