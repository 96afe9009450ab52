-- ===== src/Utils/Json/Agrees.antt =====
-- Merging ends with a value unless the strategy is to fail on conflicts; and where that strategy
-- finds no conflict, the strategies agree.
use weavegraph.Base.{
  String, String-key, ◌≡◌, ◌≢◌, refl, ap, ◌∙◌, inl, inr, Bool, true, false, Option-cases, Key, List,
  [], ◌∷◌, if◌then◌else◌,
}
use weavegraph.Base.Result.{Result, ok, ◌>>=◌, >>=-eq-ok}
use weavegraph.Utils.Json.{
  Value, array, object, Items, Fields, no_fields, field, MergeStrategy, prefer_left, prefer_right,
  fail_on_conflict, deep_merging, JsonError, get_field, put_field, join_path, add_right,
  merge_arrays, merge_different, same_value, merge_other, merge_at, merge_left, deep_merge,
  merge_into_result, merge_multiple,
}

module _ {N : Type 0} ⦃key : Key N⦄ where
  merge_arrays_total :
      (s : MergeStrategy) (path : String) (xs ys : Items N)
      → s ≢ fail_on_conflict
      → (m : Value N) × (merge_arrays s path xs ys ≡ ok m)
  unfolding merge_arrays
  merge_arrays_total prefer_left path xs ys h = (_, refl)
  merge_arrays_total prefer_right path xs ys h = (_, refl)
  merge_arrays_total fail_on_conflict path xs ys h = absurd (h refl)
  merge_arrays_total deep_merging path xs ys h = (_, refl)

  merge_other_total :
      (s : MergeStrategy) (path : String) (l r : Value N)
      → s ≢ fail_on_conflict
      → (m : Value N) × (merge_other s path l r ≡ ok m)
  unfolding merge_other merge_different
  merge_other_total s path l r h = split (same_value l r) s h
    where
      split :
          (b : Bool) (s : MergeStrategy)
          → s ≢ fail_on_conflict
          → (m : Value N) × ((if b then ok l else merge_different s path l r) ≡ ok m)
      split true s h = (l, refl)
      split false prefer_left h = (l, refl)
      split false prefer_right h = (r, refl)
      split false fail_on_conflict h = absurd (h refl)
      split false deep_merging h = (r, refl)

  mutual
    unfolding merge_at

    merge_at_total :
        (l r : Value N) (s : MergeStrategy) (path : String)
        → s ≢ fail_on_conflict
        → (m : Value N) × (merge_at l r s path ≡ ok m)
    merge_at_total (object l) (object r) s path h =
        let (f, e) = merge_left_total l r s path no_fields h in
        (
          object (add_right l r f),
          ap (λ (x : Result JsonError (Fields N)). x >>= λ g. ok (object (add_right l r g))) e,
        )
    merge_at_total (array xs) (array ys) s path h = merge_arrays_total s path xs ys h
    merge_at_total l r s path h = merge_other_total s path l r h

    merge_left_total :
        (l r : Fields N) (s : MergeStrategy) (path : String) (result : Fields N)
        → s ≢ fail_on_conflict
        → (m : Fields N) × (merge_left l r s path result ≡ ok m)
    merge_left_total no_fields r s path result h = (result, refl)
    merge_left_total (field k v rest) r s path result h = elim (Option-cases (get_field k r)) [
      | inl absent ↦
          let (m, e) = merge_left_total rest r s path (put_field k v result) h in
          (m, rw (absent, merge_left) e)
      | inr (w, found) ↦
          let (c, merged) = merge_at_total v w s (join_path path k) h in
          let (m, e) = merge_left_total rest r s path (put_field k c result) h in
          (m, rw (found, merge_left) (rw merged e))
    ]

  -- Unless the strategy is to fail on conflicts, a merge succeeds.
  deep_merge_total :
      (l r : Value N) (s : MergeStrategy)
      → s ≢ fail_on_conflict
      → (m : Value N) × (deep_merge l r s ≡ ok m)
  unfolding deep_merge
  deep_merge_total l r s h = merge_at_total l r s "" h

  merge_into_result_total :
      (vs : List (Value N)) (s : MergeStrategy) (result : Value N)
      → s ≢ fail_on_conflict
      → (m : Value N) × (merge_into_result vs s result ≡ ok m)
  merge_into_result_total [] s result h = (result, refl)
  merge_into_result_total (v ∷ vs) s result h =
      let (next, merged) = deep_merge_total result v s h in
      rw merged (merge_into_result_total vs s next h)

  -- Unless the strategy is to fail on conflicts, the merge of any number of values succeeds.
  pub merge_multiple_total :
      (vs : List (Value N)) (s : MergeStrategy)
      → s ≢ fail_on_conflict
      → (m : Value N) × (merge_multiple vs s ≡ ok m)
  unfolding merge_multiple
  merge_multiple_total vs s h = merge_into_result_total vs s (object no_fields) h

  merge_other_agrees :
      (s : MergeStrategy) (path : String) (l r m : Value N)
      → merge_other fail_on_conflict path l r ≡ ok m
      → merge_other s path l r ≡ ok m
  unfolding merge_other merge_different
  merge_other_agrees s path l r m h = split (same_value l r) h
    where
      split :
          (b : Bool)
          → (if b then ok l else merge_different fail_on_conflict path l r) ≡ ok m
          → (if b then ok l else merge_different s path l r) ≡ ok m
      split true e = e
      split false e = absurd cc

  mutual
    unfolding merge_at merge_arrays

    merge_at_agrees :
        (l r : Value N) (s : MergeStrategy) (path : String) (m : Value N)
        → merge_at l r fail_on_conflict path ≡ ok m
        → merge_at l r s path ≡ ok m
    merge_at_agrees (object l) (object r) s path m h =
        let (f, e, same) = >>=-eq-ok (merge_left l r fail_on_conflict path no_fields) _ h in
        ap (λ (x : Result JsonError (Fields N)). x >>= λ g. ok (object (add_right l r g)))
          (merge_left_agrees l r s path no_fields f e)
        ∙ same
    merge_at_agrees (array xs) (array ys) s path m h = absurd cc
    merge_at_agrees l r s path m h = merge_other_agrees s path l r m h

    merge_left_agrees :
        (l r : Fields N) (s : MergeStrategy) (path : String) (result m : Fields N)
        → merge_left l r fail_on_conflict path result ≡ ok m
        → merge_left l r s path result ≡ ok m
    merge_left_agrees no_fields r s path result m h = h
    merge_left_agrees (field k v rest) r s path result m h = elim (Option-cases (get_field k r)) [
      | inl absent ↦
          rw (absent, merge_left)
            (merge_left_agrees rest r s path (put_field k v result) m
              (rw (absent, merge_left) at h))
      | inr (w, found) ↦
          let (c, merged, more) =
            >>=-eq-ok (merge_at v w fail_on_conflict (join_path path k)) _
              (rw (found, merge_left) at h) in
          rw (found, merge_left)
            (rw (merge_at_agrees v w s (join_path path k) c merged)
              (merge_left_agrees rest r s path (put_field k c result) m more))
    ]

  -- A merge that succeeds under the strategy to fail on conflicts gives the same under the others.
  pub deep_merge_agrees :
      (l r m : Value N) (s : MergeStrategy)
      → deep_merge l r fail_on_conflict ≡ ok m
      → deep_merge l r s ≡ ok m
  unfolding deep_merge
  deep_merge_agrees l r m s h = merge_at_agrees l r s "" m h
