-- ===== src/Tests/OfJson.antt =====
-- src/utils/json_ext.rs on concrete values.
use native.Mathlib.Decide.{ℕ_discrete}
use weavegraph.Base.{str_apart, ℕ, ℕ-key, String, ◌≡◌, refl, inl, inr, some}
use weavegraph.Base.Result.{ok, err}
use weavegraph.Utils.Json.{
  Value, null, number, array, object, nil, Fields, no_fields, field, MergeStrategy, prefer_left,
  fail_on_conflict, deep_merge, get_field, merge_at, add_right, put_field, join_path, merge_other,
  same_value, merge_different, JsonError, get_value_type, merge_conflict,
}
use weavegraph.Utils.Json.Access.{IsObject}
use weavegraph.Utils.Json.Merge.{deep_merge-IsMergedAt, IsMergedAt}
use weavegraph.Utils.Json.Paths.{split_path, get_by_path, set_parts, set_by_path, entry}
use weavegraph.Utils.Json.Paths.Written.{
  get_by_path-set_by_path, get_by_path-Diverges, parts_of, Diverges,
}

abbrev left_fields : Fields ℕ
left_fields = field "a" (number 1) (field "b" (object (field "x" (number 2) no_fields)) no_fields)

abbrev right_fields : Fields ℕ
right_fields = field "b" (object (field "y" (number 3) no_fields)) (field "c" (array nil) no_fields)

abbrev both_fields : Fields ℕ
both_fields = field "a" (number 1) (
    field "b" (object (field "x" (number 2) (field "y" (number 3) no_fields)))
      (field "c" (array nil) no_fields))

left_fields-IsObject : IsObject left_fields
unfolding get_field
left_fields-IsObject = (refl, (refl, tt))

right_fields-IsObject : IsObject right_fields
unfolding get_field
right_fields-IsObject = (refl, (refl, tt))

merged :
    (s : MergeStrategy)
    → deep_merge (object left_fields) (object right_fields) s ≡ ok (object both_fields)
unfolding deep_merge merge_at get_field put_field join_path add_right
merged s = refl

conflict :
    deep_merge {N = ℕ}
      (object (field "a" (number 1) no_fields))
      (object (field "a" null no_fields))
      fail_on_conflict
    ≡ err (merge_conflict "a" "number" "null")
unfolding deep_merge merge_at get_field put_field join_path add_right merge_other same_value
    merge_different get_value_type
conflict = refl

deep_merge-IsMergedAt_example :
    (f : Fields ℕ) × (object both_fields ≡ object f)
    × ((k : String)
        → IsMergedAt prefer_left "" k
            (get_field k left_fields)
            (get_field k right_fields)
            (get_field k f))
deep_merge-IsMergedAt_example =
    deep_merge-IsMergedAt left_fields right_fields prefer_left (object both_fields)
      left_fields-IsObject right_fields-IsObject (merged prefer_left)

abbrev after : Value ℕ
after = object (
    field "a" (number 1) (
      field "b"
        (object (field "x" (number 2) (field "z" (object (field "w" null no_fields)) no_fields)))
        no_fields))

written : set_by_path (object left_fields) "b.z.w" null ≡ (after, ok tt)
unfolding ℕ_discrete set_by_path split_path set_parts entry get_field put_field
written = refl

refused :
    set_by_path (object left_fields) "a.z" null
    ≡ (object left_fields, err (JsonError.invalid_pointer "a.z"))
unfolding ℕ_discrete set_by_path split_path set_parts entry get_field put_field
refused = refl

get_by_path-set_by_path_example : get_by_path after "b.z.w" ≡ some null
get_by_path-set_by_path_example =
    get_by_path-set_by_path (object left_fields) null after "b.z.w" written

apart : Diverges (parts_of "b.z.w") (parts_of "b.x")
unfolding ℕ_discrete split_path
apart = inr (refl, inl (str_apart "z" "x" refl))

get_by_path-Diverges_example :
    get_by_path ((set_by_path (object left_fields) "b.z.w" null).0) "b.x"
    ≡ get_by_path (object left_fields) "b.x"
get_by_path-Diverges_example =
    get_by_path-Diverges (object left_fields) null "b.z.w" "b.x" (str_apart "b.z.w" "" refl)
      (str_apart "b.x" "" refl) apart
