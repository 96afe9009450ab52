-- ===== src/Utils/Json/Merge.antt =====
-- What stands under each key of a merged object.
use weavegraph.Base.{
  String, String-key, ◌≡◌, refl, sym, ap, subst, ◌∙◌, inl, inr, Option, none, some, Option-cases,
  Bool-cases, Key, same-test, ◌==◌,
}
use weavegraph.Base.Result.{ok, ok-injective, >>=-eq-ok}
use weavegraph.Utils.Json.{
  Value, object, Fields, no_fields, field, MergeStrategy, JsonError, get_field, put_field,
  join_path, add_right, merge_at, merge_left, deep_merge,
}
use weavegraph.Utils.Json.Access.{
  get_field-put_field_self, get_field-put_field_apart, get_field-no_fields, IsObject,
}

module _ {N : Type 0} ⦃key : Key N⦄ where
  -- What a merge leaves under a key: the merge of both values, or the only one.
  abbrev pub IsMergedAt :
      MergeStrategy
      → String
      → String
      → Option (Value N)
      → Option (Value N)
      → Option (Value N)
      → Type 0
  IsMergedAt s path k none right after = after ≡ right
  IsMergedAt s path k (some v) none after = after ≡ some v
  IsMergedAt s path k (some v) (some w) after =
      (c : Value N) × (merge_at v w s (join_path path k) ≡ ok c) × (after ≡ some c)

  -- The same of the loop over the left object, which leaves the other keys as they were.
  abbrev IsWrittenAt :
      MergeStrategy
      → String
      → String
      → Option (Value N)
      → Option (Value N)
      → Option (Value N)
      → Option (Value N)
      → Type 0
  IsWrittenAt s path k none right before after = after ≡ before
  IsWrittenAt s path k (some v) right before after = IsMergedAt s path k (some v) right after

  written_before :
      (s : MergeStrategy) (path k : String) (left right before before' after : Option (Value N))
      → before ≡ before'
      → IsWrittenAt s path k left right before after
      → IsWrittenAt s path k left right before' after
  written_before s path k none right before before' after e w = w ∙ e
  written_before s path k (some v) right before before' after e w = w

  written_absent :
      (s : MergeStrategy) (path k : String) (left right before after : Option (Value N))
      → left ≡ none
      → IsWrittenAt s path k left right before after
      → after ≡ before
  written_absent s path k none right before after e w = w
  written_absent s path k (some v) right before after e w = absurd cc

  -- One round of the loop, which writes the key of the round, and later rounds do not.
  written_round :
      (s : MergeStrategy) (path j k : String) (v c : Value N) (rest r result m : Fields N)
      → get_field j rest ≡ none
      → IsMergedAt s path j (some v) (get_field j r) (some c)
      → IsWrittenAt s path k
          (get_field k rest)
          (get_field k r)
          (get_field k (put_field j c result))
          (get_field k m)
      → IsWrittenAt s path k
          (get_field k (field j v rest))
          (get_field k r)
          (get_field k result)
          (get_field k m)
  unfolding get_field
  written_round s path j k v c rest r result m once now later = elim (Bool-cases (j == k)) [
    | inl same ↦
        let at_k : j ≡ k = same-test j k same in
        let final : get_field k m ≡ some c =
          written_absent s path k (get_field k rest) (get_field k r) _ (get_field k m)
            (ap (λ x. get_field x rest) (sym at_k) ∙ once) later
          ∙ ap (λ x. get_field k (put_field x c result)) at_k
          ∙ get_field-put_field_self k c result in
        rw (same, final)
          (subst (λ x. IsMergedAt s path x (some v) (get_field x r) (some c)) at_k now)
    | inr apart ↦ rw apart (
        written_before s path k (get_field k rest) (get_field k r) _ (get_field k result)
          (get_field k m) (get_field-put_field_apart j k c result apart) later)
  ]

  merge_left-IsWrittenAt :
      (l r : Fields N) (s : MergeStrategy) (path : String) (result m : Fields N)
      → IsObject l
      → merge_left l r s path result ≡ ok m
      → (k : String)
      → IsWrittenAt s path k (get_field k l) (get_field k r) (get_field k result) (get_field k m)
  unfolding merge_left
  merge_left-IsWrittenAt no_fields r s path result m once h k =
      rw (get_field-no_fields k) (ap (get_field k) (sym (ok-injective JsonError h)))
  merge_left-IsWrittenAt (field j v rest) r s path result m once h k =
      elim (Option-cases (get_field j r)) [
        | inl absent ↦ written_round s path j k v v rest r result m (once.0) (rw absent refl) (
            merge_left-IsWrittenAt rest r s path (put_field j v result) m (once.1)
              (rw (absent, merge_left) at h) k)
        | inr (w, found) ↦
            let (c, merged, more) =
              >>=-eq-ok (merge_at v w s (join_path path j)) _ (rw (found, merge_left) at h) in
            written_round s path j k v c rest r result m (once.0) (rw found (c, merged, refl))
              (merge_left-IsWrittenAt rest r s path (put_field j c result) m (once.1) more k)
      ]

  -- What is added of the right object.
  abbrev IsAddedAt :
      Option (Value N) → Option (Value N) → Option (Value N) → Option (Value N) → Type 0
  IsAddedAt (some v) right before after = after ≡ before
  IsAddedAt none none before after = after ≡ before
  IsAddedAt none (some w) before after = after ≡ some w

  added_before :
      (left right before before' after : Option (Value N))
      → before ≡ before'
      → IsAddedAt left right before after
      → IsAddedAt left right before' after
  added_before (some v) right before before' after e a = a ∙ e
  added_before none none before before' after e a = a ∙ e
  added_before none (some w) before before' after e a = a

  added_none : (left before : Option (Value N)) → IsAddedAt left none before before
  added_none none before = refl
  added_none (some v) before = refl

  -- A key of the left object is not added, and one that the right object has not is left.
  added_left :
      (left right before after : Option (Value N)) (w : Value N)
      → left ≡ some w
      → IsAddedAt left right before after
      → after ≡ before
  added_left (some v) right before after w e a = a
  added_left none right before after w e a = absurd cc

  added_absent :
      (left right before after : Option (Value N))
      → right ≡ none
      → IsAddedAt left right before after
      → after ≡ before
  added_absent (some v) right before after e a = a
  added_absent none none before after e a = a
  added_absent none (some w) before after e a = absurd cc

  merged_at :
      (s : MergeStrategy) (path k : String) (left right between after : Option (Value N))
      → IsWrittenAt s path k left right none between
      → IsAddedAt left right between after
      → IsMergedAt s path k left right after
  merged_at s path k none none between after w a = a ∙ w
  merged_at s path k none (some v) between after w a = a
  merged_at s path k (some v) none between after w a = a ∙ w
  merged_at s path k (some v) (some u) between after (c, e, w) a = (c, e, a ∙ w)

  add_right-IsAddedAt :
      (l r result : Fields N) (k : String)
      → IsObject r
      → IsAddedAt
          (get_field k l)
          (get_field k r)
          (get_field k result)
          (get_field k (add_right l r result))
  unfolding add_right get_field
  add_right-IsAddedAt l no_fields result k once = added_none (get_field k l) (get_field k result)
  add_right-IsAddedAt l (field j v rest) result k once =
      let again = λ (f : Fields N). add_right-IsAddedAt l rest f k (once.1) in
      elim (Bool-cases (j == k)) [
        | inl same ↦
            let at_k : j ≡ k = same-test j k same in
            elim (Option-cases (get_field j l)) [
              | inl absent ↦
                  rw (same, absent, ap (λ x. get_field x l) (sym at_k) ∙ absent)
                    (added_absent _ (get_field k rest) _ _
                        (ap (λ x. get_field x rest) (sym at_k) ∙ once.0)
                        (again (put_field j v result))
                      ∙ ap (λ x. get_field k (put_field x v result)) at_k
                      ∙ get_field-put_field_self k v result)
              | inr (w, found) ↦
                  let left_k : get_field k l ≡ some w =
                    ap (λ x. get_field x l) (sym at_k) ∙ found in
                  rw (same, found, left_k)
                    (added_left _ (get_field k rest) (get_field k result) _ w left_k (again result))
            ]
        | inr apart ↦ elim (Option-cases (get_field j l)) [
          | inl absent ↦
              rw (apart, absent)
                (added_before (get_field k l) (get_field k rest) _ (get_field k result) _
                  (get_field-put_field_apart j k v result apart) (again (put_field j v result)))
          | inr (w, found) ↦ rw (apart, found) (again result)
        ]
      ]

  -- Two objects in which each key stands once: where their merge succeeds, it is an object in which
  -- each key has the merge of its two values, or its only value.
  pub deep_merge-IsMergedAt :
      (l r : Fields N) (s : MergeStrategy) (m : Value N)
      → IsObject l
      → IsObject r
      → deep_merge (object l) (object r) s ≡ ok m
      → (f : Fields N) × (m ≡ object f)
        × ((k : String) → IsMergedAt s "" k (get_field k l) (get_field k r) (get_field k f))
  unfolding deep_merge merge_at
  deep_merge-IsMergedAt l r s m one_l one_r h =
      let (f, made, same) = >>=-eq-ok (merge_left l r s "" no_fields) _ h in
      (
        add_right l r f,
        sym (ok-injective JsonError same),
        λ k.
            merged_at s "" k (get_field k l) (get_field k r) (get_field k f)
              (get_field k (add_right l r f))
              (rw (get_field-no_fields k) at
                (merge_left-IsWrittenAt l r s "" no_fields f one_l made k))
              (add_right-IsAddedAt l r f k one_r),
      )
