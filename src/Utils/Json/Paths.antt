-- ===== src/Utils/Json/Paths.antt =====
-- src/utils/json_ext.rs: reading and writing a JSON value at a path whose parts dots separate.
pub mod Written
use Prim.Native.Char.{Char, code}
use Prim.Native.String
use Prim.Native.String.{◌∷◌ as ◌∷ₜ◌}
use weavegraph.Base.{
  String, String-key, ℕ, ℕ-key, ◌+◌, ◌-◌, ◌*◌, ◌^◌, Bool, true, false, ◌&&◌, Option, none, some,
  List, [], ◌∷◌, if◌then◌else◌, ◌==◌, ltb, leb, length, all, zero, suc,
}
use weavegraph.Base.Result.{Result, ok, err}
use weavegraph.Utils.Json.{
  Value, null, bool, number, string, array, object, Items, nil, item, Fields, no_fields, field,
  JsonError, invalid_pointer, get_field, put_field,
}

abbrev pub is_some {ℓ} : {A : Type ℓ} → Option A → Bool
is_some (some a) = true
is_some none = false

-- `path.split('.')`: the first part, and the others.
abbrev pub first_parts : Bool → Char → String × List String → String × List String
first_parts true c (part, parts) = (String.[], part ∷ parts)
first_parts false c (part, parts) = (c ∷ₜ part, parts)

unfoldable pub split_path : String → String × List String
split_path String.[] = (String.[], [])
split_path (c ∷ₜ rest) = first_parts (code c == 46) c (split_path rest)

-- `part.parse::<usize>()`: digits after at most one plus sign, and at least one; too large a number
-- is refused.
abbrev add_digit : Char → ℕ → Option ℕ
add_digit c n =
    if leb 48 (code c) && leb (code c) 57
    then (if ltb (n * 10 + (code c - 48)) (2 ^ 64) then some (n * 10 + (code c - 48)) else none)
    else none

unfoldable pub parse_digits : String → ℕ → Option ℕ
parse_digits String.[] n = some n
parse_digits (c ∷ₜ rest) n = elim (add_digit c n) [ some m ↦ parse_digits rest m | none ↦ none ]

abbrev parse_some : String → Option ℕ
parse_some String.[] = none
parse_some (c ∷ₜ rest) = parse_digits (c ∷ₜ rest) 0

unfoldable pub parse_usize : String → Option ℕ
parse_usize String.[] = none
parse_usize (c ∷ₜ rest) = if code c == 43 then parse_some rest else parse_digits (c ∷ₜ rest) 0

module _ {N : Type 0} where
  abbrev pub get_item : Items N → ℕ → Option (Value N)
  get_item nil i = none
  get_item (item v rest) zero = some v
  get_item (item v rest) (suc i) = get_item rest i

  -- The loop over the parts.
  unfoldable pub get_parts : List String → Value N → Option (Value N)
  get_parts [] current = some current
  get_parts (part ∷ parts) (object fs) = elim (get_field part fs) [
    | some v ↦ get_parts parts v
    | none ↦ none
  ]
  get_parts (part ∷ parts) (array xs) = elim (parse_usize part) [
    | some index ↦ elim (get_item xs index) [ some v ↦ get_parts parts v | none ↦ none ]
    | none ↦ none
  ]
  get_parts (part ∷ parts) current = none

  unfoldable pub get_by_path : Value N → String → Option (Value N)
  get_by_path v path =
      let (part, parts) = split_path path in
      if path == "" then some v else get_parts (part ∷ parts) v

  -- `entry(part).or_insert_with(|| Value::Object(Map::new()))`.
  unfoldable pub entry : String → Fields N → Value N
  entry part fs = elim (get_field part fs) [ some v ↦ v | none ↦ object no_fields ]

  -- The loop over the parts but the last, and the write at the last.
  unfoldable pub set_parts :
      String → Value N → String → List String → Value N → Value N × Result JsonError (Unit {0})
  set_parts path value part [] (object fs) = (object (put_field part value fs), ok tt)
  set_parts path value part (next ∷ rest) (object fs) =
      let (child, result) = set_parts path value next rest (entry part fs) in
      (object (put_field part child fs), result)
  set_parts path value part rest current = (current, err (invalid_pointer path))

  unfoldable pub set_by_path : Value N → String → Value N → Value N × Result JsonError (Unit {0})
  set_by_path target path value =
      let (part, parts) = split_path path in
      if path == "" then (value, ok tt) else set_parts path value part parts target

  unfoldable pub has_structure : Value N → List String → Bool
  has_structure (object fs) expected = all (λ k. is_some (get_field k fs)) expected
  has_structure v expected = false

  -- `JsonValueExt`.
  unfoldable pub get_path_or : Value N → String → Value N → Value N
  get_path_or v path default = elim (get_by_path v path) [ some w ↦ w | none ↦ default ]

  unfoldable pub is_empty_container : Value N → Bool
  is_empty_container (object no_fields) = true
  is_empty_container (array nil) = true
  is_empty_container v = false

  abbrev pub count_items : Items N → ℕ
  count_items nil = 0
  count_items (item v rest) = suc (count_items rest)

  abbrev pub field_names : Fields N → List String
  field_names no_fields = []
  field_names (field k v rest) = k ∷ field_names rest

  unfoldable pub element_count : Value N → ℕ
  element_count (object fs) = length (field_names fs)
  element_count (array xs) = count_items xs
  element_count v = 1

  unfoldable pub keys : Value N → List String
  keys (object fs) = field_names fs
  keys v = []
