-- ===== src/Utils/Json/Access.antt =====
-- The fields of objects: reading and writing.
use weavegraph.Base.{
  String, String-key, ◌≡◌, refl, ap, ◌∙◌, none, some, inl, inr, Bool-cases, false, test-same,
  same-test, if◌then◌else◌, ◌==◌, arith,
}
use weavegraph.Utils.Json.{Value, Fields, no_fields, field, get_field, put_field}

module _ {N : Type 0} where
  pub get_field-put_field :
      (k j : String) (v : Value N) (fs : Fields N)
      → get_field j (put_field k v fs) ≡ (if k == j then some v else get_field j fs)
  unfolding get_field put_field
  get_field-put_field k j v no_fields = refl
  get_field-put_field k j v (field i w fs) = ground (arith, get_field-put_field k j v fs)

  pub get_field-put_field_self :
      (k : String) (v : Value N) (fs : Fields N) → get_field k (put_field k v fs) ≡ some v
  get_field-put_field_self k v fs =
      get_field-put_field k k v fs
      ∙ ap (λ b. if b then some v else get_field k fs) (test-same k k refl)

  pub get_field-put_field_apart :
      (k j : String) (v : Value N) (fs : Fields N)
      → (k == j) ≡ false
      → get_field j (put_field k v fs) ≡ get_field j fs
  get_field-put_field_apart k j v fs apart =
      get_field-put_field k j v fs ∙ ap (λ b. if b then some v else get_field j fs) apart

  pub get_field-put_field_other :
      (k j : String) (v : Value N) (fs : Fields N)
      → ¬ (k ≡ j)
      → get_field j (put_field k v fs) ≡ get_field j fs
  get_field-put_field_other k j v fs other = elim (Bool-cases (k == j)) [
    | inl same ↦ absurd (other (same-test k j same))
    | inr apart ↦ get_field-put_field_apart k j v fs apart
  ]

  pub get_field-no_fields : (k : String) → get_field {N = N} k no_fields ≡ none
  unfolding get_field
  get_field-no_fields k = refl

  -- To write what is there changes nothing.
  pub put_field-get_field :
      (k : String) (v : Value N) (fs : Fields N) → get_field k fs ≡ some v → put_field k v fs ≡ fs
  unfolding get_field put_field
  put_field-get_field k v no_fields h = absurd cc
  put_field-get_field k v (field i w fs) h = ground (arith, put_field-get_field k v fs)

  -- A key stands once.
  abbrev pub IsObject : Fields N → Type 0
  IsObject no_fields = Unit
  IsObject (field k v fs) = (get_field k fs ≡ none) × IsObject fs
