-- ===== src/Utils/Collections.antt =====
-- src/utils/collections.rs: the maps of extras with typed access, and helpers on maps with text keys.
-- The text that `{:?}` makes of a value, and serde_json at a type, are parameters.
use weavegraph.Base.{
  String, String-key, ◌≡◌, refl, sym, ap, ◌∙◌, ◌↔◌, inl, inr, Bool, true, false, Option, none, some,
  Option-cases, List, [], ◌∷◌, ◌++◌, if◌then◌else◌, ◌==◌,
}
use weavegraph.Base.Map.{Map, get, put, get-put, get-put_self, get-put_other}
use weavegraph.Base.Result.{Result, ok, err, map_err}
use weavegraph.Utils.Json.{Value, null, bool, number, string, array, object}

pub data CollectionError (X : Type 0) : Type 0 where
  missing_key : String → CollectionError X
  type_mismatch : String → String → String → CollectionError X
  json : X → CollectionError X

abbrev pub ExtraMap : Type 0 → Type 0
ExtraMap N = Map String (Value N)

abbrev pub or_else {ℓ} : {A : Type ℓ} → Option A → Option A → Option A
or_else (some a) o = some a
or_else none o = o

module _ {N : Type 0} where
  unfoldable pub new_extra_map : ExtraMap N
  new_extra_map = []

  -- `collect`: later pairs replace earlier ones.
  abbrev pub extend : List (String × Value N) → ExtraMap N → ExtraMap N
  extend [] m = m
  extend ((k, v) ∷ pairs) m = extend pairs (put k v m)

  unfoldable pub extra_map_from_pairs : List (String × Value N) → ExtraMap N
  extra_map_from_pairs pairs = extend pairs []

  abbrev extend_all : List (ExtraMap N) → ExtraMap N → ExtraMap N
  extend_all [] result = result
  extend_all (m ∷ maps) result = extend_all maps (extend m result)

  unfoldable pub merge_extra_maps : List (ExtraMap N) → ExtraMap N
  unfolding new_extra_map
  merge_extra_maps maps = extend_all maps new_extra_map

  unfoldable pub insert_string : String → String → ExtraMap N → ExtraMap N
  insert_string key value m = put key (string value) m

  unfoldable pub insert_number : String → N → ExtraMap N → ExtraMap N
  insert_number key value m = put key (number value) m

  unfoldable pub insert_bool : String → Bool → ExtraMap N → ExtraMap N
  insert_bool key value m = put key (bool value) m

  abbrev is_typed : String → Option (Value N) → Bool
  is_typed expected_type none = false
  is_typed expected_type (some (string s)) = expected_type == "string"
  is_typed expected_type (some (number n)) = expected_type == "number"
  is_typed expected_type (some (bool b)) = expected_type == "bool"
  is_typed expected_type (some (array xs)) = expected_type == "array"
  is_typed expected_type (some (object fs)) = expected_type == "object"
  is_typed expected_type (some null) = expected_type == "null"

  unfoldable pub has_typed : String → String → ExtraMap N → Bool
  has_typed key expected_type m = is_typed expected_type (get key m)

  module _ {X : Type 0} (debug : Value N → String) where
    abbrev as_string : String → Option (Value N) → Result (CollectionError X) String
    as_string key none = err (missing_key key)
    as_string key (some (string s)) = ok s
    as_string key (some v) = err (type_mismatch key "string" (debug v))

    unfoldable pub get_string : String → ExtraMap N → Result (CollectionError X) String
    get_string key m = as_string key (get key m)

    abbrev as_number : String → Option (Value N) → Result (CollectionError X) N
    as_number key none = err (missing_key key)
    as_number key (some (number n)) = ok n
    as_number key (some v) = err (type_mismatch key "number" (debug v))

    unfoldable pub get_number : String → ExtraMap N → Result (CollectionError X) N
    get_number key m = as_number key (get key m)

    abbrev as_bool : String → Option (Value N) → Result (CollectionError X) Bool
    as_bool key none = err (missing_key key)
    as_bool key (some (bool b)) = ok b
    as_bool key (some v) = err (type_mismatch key "boolean" (debug v))

    unfoldable pub get_bool : String → ExtraMap N → Result (CollectionError X) Bool
    get_bool key m = as_bool key (get key m)

    unfoldable pub insert_json :
        {T : Type 0}
        → (T → Result X (Value N))
        → String
        → T
        → ExtraMap N
        → ExtraMap N × Result (CollectionError X) (Unit {0})
    insert_json to_value key value m = elim (to_value value) [
      | ok v ↦ (put key v m, ok tt)
      | err e ↦ (m, err (json e))
    ]

    unfoldable pub get_typed :
        {T : Type 0} → (Value N → Result X T) → String → ExtraMap N → Result (CollectionError X) T
    get_typed from_value key m = elim (get key m) [
      | some v ↦ map_err json (from_value v)
      | none ↦ err (missing_key key)
    ]

    -- A key has the type "string", "number" or "bool" just when it reads as one.
    pub has_typed_lem :
        (key : String) (m : ExtraMap N)
        → ((has_typed key "string" m ≡ true) ↔ ((s : String) × (get_string key m ≡ ok s)))
          × ((has_typed key "number" m ≡ true) ↔ ((n : N) × (get_number key m ≡ ok n)))
          × ((has_typed key "bool" m ≡ true) ↔ ((b : Bool) × (get_bool key m ≡ ok b)))
    unfolding has_typed get_string get_number get_bool
    has_typed_lem key m = (of_string (get key m), of_number (get key m), of_bool (get key m))
      where
        no_test : {A : Type 0} → false ≡ true → A
        no_test h = absurd cc

        of_string :
            (o : Option (Value N))
            → (is_typed "string" o ≡ true) ↔ ((s : String) × (as_string key o ≡ ok s))
        of_string (some (string s)) = (λ _. (s, refl), λ _. refl)
        of_string o = (λ h. no_test h, λ (s, h). absurd cc)

        of_number :
            (o : Option (Value N))
            → (is_typed "number" o ≡ true) ↔ ((n : N) × (as_number key o ≡ ok n))
        of_number (some (number n)) = (λ _. (n, refl), λ _. refl)
        of_number o = (λ h. no_test h, λ (n, h). absurd cc)

        of_bool :
            (o : Option (Value N))
            → (is_typed "bool" o ≡ true) ↔ ((b : Bool) × (as_bool key o ≡ ok b))
        of_bool (some (bool b)) = (λ _. (b, refl), λ _. refl)
        of_bool o = (λ h. no_test h, λ (b, h). absurd cc)

  get-extend :
      (k : String) (pairs m : ExtraMap N)
      → get k (extend pairs m) ≡ or_else (get k (extend pairs [])) (get k m)
  unfolding get
  get-extend k [] m = refl
  get-extend k ((j, v) ∷ pairs) m =
      get-extend k pairs (put j v m)
      ∙ ap (or_else (get k (extend pairs []))) (get-put j k v m)
      ∙ over (get k (extend pairs [])) (j == k)
      ∙ ap (λ o. or_else (or_else (get k (extend pairs [])) o) (get k m)) (sym (get-put j k v []))
      ∙ ap (λ o. or_else o (get k m)) (sym (get-extend k pairs (put j v [])))
    where
      over :
          (o : Option (Value N)) (b : Bool)
          → or_else o (if b then some v else get k m)
            ≡ or_else (or_else o (if b then some v else none)) (get k m)
      over none true = refl
      over none false = refl
      over (some u) b = refl

  extend_all-concat :
      (maps : List (ExtraMap N)) (last result : ExtraMap N)
      → extend_all (maps ++ last ∷ []) result ≡ extend last (extend_all maps result)
  extend_all-concat [] last result = refl
  extend_all-concat (m ∷ maps) last result = extend_all-concat maps last (extend m result)

  -- In merged maps a key has its value of the last map, or if that has none, of those before.
  pub get-merge_extra_maps :
      (k : String) (maps : List (ExtraMap N)) (last : ExtraMap N)
      → get k (merge_extra_maps (maps ++ last ∷ []))
        ≡ or_else (get k (extra_map_from_pairs last)) (get k (merge_extra_maps maps))
  unfolding merge_extra_maps extra_map_from_pairs
  get-merge_extra_maps k maps last =
      ap (get k) (extend_all-concat maps last new_extra_map)
      ∙ get-extend k last (extend_all maps new_extra_map)

module _ {V : Type 0} where
  unfoldable pub get_or_default : String → V → Map String V → V
  get_or_default key default m = elim (get key m) [ some v ↦ v | none ↦ default ]

  -- The update is a function on the value.
  unfoldable pub insert_or_update : String → V → (V → V) → Map String V → Map String V
  insert_or_update key value update m = elim (get key m) [
    | some v ↦ put key (update v) m
    | none ↦ put key value m
  ]

  -- After an insertion or an update, the key has the updated value if it had one, and the given one if
  -- not; the others are as before.
  pub get-insert_or_update :
      (key : String) (value : V) (update : V → V) (m : Map String V) (other : String)
      → ¬ (key ≡ other)
      → (get key (insert_or_update key value update m)
          ≡ some (elim (get key m) [ some v ↦ update v | none ↦ value ]))
        × (get other (insert_or_update key value update m) ≡ get other m)
  unfolding insert_or_update
  get-insert_or_update key value update m other apart = elim (Option-cases (get key m)) [
    | inl missing ↦
        rw (missing, insert_or_update)
          (get-put_self key value m, get-put_other key other value m apart)
    | inr (v, found) ↦
        rw (found, insert_or_update)
          (get-put_self key (update v) m, get-put_other key other (update v) m apart)
  ]
