-- ===== src/Utils/Json.antt =====
-- src/utils/json_ext.rs: merging JSON values, and access to them by paths. The numbers of serde_json
-- are a parameter. The fields of an object are a list of pairs in which a key stands once; what
-- depends on the order of the keys is not stated.
pub mod Access
pub mod Merge
pub mod Agrees
pub mod Paths
pub mod Equal
use Prim.Native.String.{◌++◌ as append_text}
use weavegraph.Base.{
  String, String-key, Bool, true, false, Option, none, some, List, [], ◌∷◌, if◌then◌else◌, ◌==◌,
  Key,
}
use weavegraph.Base.Result.{Result, ok, err, ◌>>=◌}

-- `serde_json::Value`.
mutual
  pub data Value (N : Type 0) : Type 0 where
    null : Value N
    bool : Bool → Value N
    number : N → Value N
    string : String → Value N
    array : Items N → Value N
    object : Fields N → Value N

  pub data Items (N : Type 0) : Type 0 where
    nil : Items N
    item : Value N → Items N → Items N

  pub data Fields (N : Type 0) : Type 0 where
    no_fields : Fields N
    field : String → Value N → Fields N → Fields N

pub data MergeStrategy : Type 0 where
  prefer_left prefer_right fail_on_conflict deep_merging : MergeStrategy

pub data JsonError : Type 0 where
  invalid_pointer : String → JsonError
  merge_conflict : String → String → String → JsonError

-- `format!("{}.{}", path, key)`, and the key alone at the root.
unfoldable pub join_path : String → String → String
join_path path key = if path == "" then key else append_text path (append_text "." key)

module _ {N : Type 0} where
  -- `Map::get` and `Map::insert`.
  unfoldable pub get_field : String → Fields N → Option (Value N)
  get_field k no_fields = none
  get_field k (field j v fs) = if j == k then some v else get_field k fs

  unfoldable pub put_field : String → Value N → Fields N → Fields N
  put_field k v no_fields = field k v no_fields
  put_field k v (field j w fs) = if j == k then field k v fs else field j w (put_field k v fs)

  abbrev pub append_items : Items N → Items N → Items N
  append_items nil ys = ys
  append_items (item x xs) ys = item x (append_items xs ys)

  unfoldable pub get_value_type : Value N → String
  get_value_type null = "null"
  get_value_type (bool b) = "boolean"
  get_value_type (number n) = "number"
  get_value_type (string s) = "string"
  get_value_type (array xs) = "array"
  get_value_type (object fs) = "object"

  -- Keys that only the right object has are added.
  unfoldable pub add_right : Fields N → Fields N → Fields N → Fields N
  add_right left no_fields result = result
  add_right left (field k v rest) result =
      add_right left rest
        (elim (get_field k left) [ some _ ↦ result | none ↦ put_field k v result ])

  unfoldable pub merge_arrays :
      MergeStrategy → String → Items N → Items N → Result JsonError (Value N)
  merge_arrays prefer_left path left right = ok (array left)
  merge_arrays prefer_right path left right = ok (array right)
  merge_arrays fail_on_conflict path left right = err (merge_conflict path "array" "array")
  merge_arrays deep_merging path left right = ok (array (append_items left right))

  unfoldable pub merge_different :
      MergeStrategy → String → Value N → Value N → Result JsonError (Value N)
  merge_different prefer_left path left right = ok left
  merge_different prefer_right path left right = ok right
  merge_different fail_on_conflict path left right =
      err (merge_conflict path (get_value_type left) (get_value_type right))
  merge_different deep_merging path left right = ok right

  module _ ⦃key : Key N⦄ where
    -- `==` of two values that are not both arrays nor both objects.
    unfoldable pub same_value : Value N → Value N → Bool
    same_value null null = true
    same_value (bool true) (bool b) = b
    same_value (bool false) (bool true) = false
    same_value (bool false) (bool false) = true
    same_value (number m) (number n) = m == n
    same_value (string s) (string t) = s == t
    same_value _ _ = false

    unfoldable pub merge_other :
        MergeStrategy → String → Value N → Value N → Result JsonError (Value N)
    merge_other strategy path left right =
        if same_value left right then ok left else merge_different strategy path left right

    -- `deep_merge_with_path`, and its loop over the keys of the left object.
    unfoldable mutual
      pub merge_at : Value N → Value N → MergeStrategy → String → Result JsonError (Value N)
      merge_at (object left) (object right) strategy path = do
        result ← merge_left left right strategy path no_fields
        ok (object (add_right left right result))
      merge_at (array left) (array right) strategy path = merge_arrays strategy path left right
      merge_at left right strategy path = merge_other strategy path left right

      pub merge_left :
          Fields N → Fields N → MergeStrategy → String → Fields N → Result JsonError (Fields N)
      merge_left no_fields right strategy path result = ok result
      merge_left (field k v rest) right strategy path result = elim (get_field k right) [
        | some right_value ↦ do
          merged ← merge_at v right_value strategy (join_path path k)
          merge_left rest right strategy path (put_field k merged result)
        | none ↦ merge_left rest right strategy path (put_field k v result)
      ]

    unfoldable pub deep_merge : Value N → Value N → MergeStrategy → Result JsonError (Value N)
    deep_merge left right strategy = merge_at left right strategy ""

    abbrev pub merge_into_result :
        List (Value N) → MergeStrategy → Value N → Result JsonError (Value N)
    merge_into_result [] strategy result = ok result
    merge_into_result (v ∷ vs) strategy result =
        deep_merge result v strategy >>= merge_into_result vs strategy

    unfoldable pub merge_multiple : List (Value N) → MergeStrategy → Result JsonError (Value N)
    merge_multiple values strategy = merge_into_result values strategy (object no_fields)
