-- ===== src/Utils/Json/Paths/Written.antt =====
-- What a path reads after a write at it or at another.
use weavegraph.Base.{
  String, String-key, ◌≡◌, ◌≢◌, refl, sym, ap, ◌∙◌, ◌⊎◌, inl, inr, none, some, Option-cases, List,
  [], ◌∷◌, Bool-cases, ◌==◌, test-other,
}
use weavegraph.Base.Result.{Result, ok, err}
use weavegraph.Utils.Json.{
  Value, object, Fields, no_fields, JsonError, invalid_pointer, get_field, put_field,
}
use weavegraph.Utils.Json.Access.{
  get_field-put_field_self, get_field-put_field_other, put_field-get_field, get_field-no_fields,
}
use weavegraph.Utils.Json.Paths.{split_path, get_parts, get_by_path, entry, set_parts, set_by_path}

-- Two paths that part at some key, neither a beginning of the other.
abbrev pub Diverges : List String → List String → Type 0
Diverges [] qs = ⊥
Diverges (p ∷ ps) [] = ⊥
Diverges (p ∷ ps) (q ∷ qs) = (p ≢ q) ⊎ ((p ≡ q) × Diverges ps qs)

-- The parts of a path.
abbrev pub parts_of : String → List String
parts_of path = (split_path path).0 ∷ (split_path path).1

module _ {N : Type 0} where
  get_parts_found :
      (part : String) (parts : List String) (fs : Fields N) (w : Value N)
      → get_field part fs ≡ some w
      → get_parts (part ∷ parts) (object fs) ≡ get_parts parts w
  unfolding get_parts
  get_parts_found part parts fs w found = rw (found, get_parts) refl

  get_parts_missing :
      (part : String) (parts : List String) (fs : Fields N)
      → get_field part fs ≡ none
      → get_parts (part ∷ parts) (object fs) ≡ none
  unfolding get_parts
  get_parts_missing part parts fs missing = rw (missing, get_parts) refl

  get_parts-set_parts :
      (path : String) (v : Value N) (part : String) (parts : List String) (current : Value N)
      → (set_parts path v part parts current).1 ≡ ok tt
      → get_parts (part ∷ parts) ((set_parts path v part parts current).0) ≡ some v
  unfolding get_parts set_parts
  get_parts-set_parts path v part [] (object fs) h =
      get_parts_found part [] (put_field part v fs) v (get_field-put_field_self part v fs)
  get_parts-set_parts path v part (next ∷ rest) (object fs) h =
      let child = set_parts path v next rest (entry part fs) in
      get_parts_found part (next ∷ rest) (put_field part (child.0) fs) (child.0)
        (get_field-put_field_self part (child.0) fs)
      ∙ get_parts-set_parts path v next rest (entry part fs) h
  get_parts-set_parts path v part [] current h = absurd cc
  get_parts-set_parts path v part (next ∷ rest) current h = absurd cc

  -- What a write says, and that it leaves the value as it was when it fails.
  abbrev pub Outcome : String → Value N → Value N × Result JsonError (Unit {0}) → Type 0
  Outcome path before (after, r) =
      (r ≡ ok tt) ⊎ ((r ≡ err (invalid_pointer path)) × (after ≡ before))

  entry_found :
      (part : String) (fs : Fields N) (w : Value N) → get_field part fs ≡ some w → entry part fs ≡ w
  unfolding entry
  entry_found part fs w found = rw (found, entry) refl

  entry_missing :
      (part : String) (fs : Fields N) → get_field part fs ≡ none → entry part fs ≡ object no_fields
  unfolding entry
  entry_missing part fs missing = rw (missing, entry) refl

  set_parts-no_fields :
      (path : String) (v : Value N) (part : String) (parts : List String)
      → (set_parts path v part parts (object no_fields)).1 ≡ ok tt
  unfolding set_parts
  set_parts-no_fields path v part [] = refl
  set_parts-no_fields path v part (next ∷ rest) =
      rw (entry_missing part no_fields (get_field-no_fields part))
        (set_parts-no_fields path v next rest)

  set_parts-Outcome :
      (path : String) (v : Value N) (part : String) (parts : List String) (current : Value N)
      → Outcome path current (set_parts path v part parts current)
  unfolding set_parts
  set_parts-Outcome path v part [] (object fs) = inl refl
  set_parts-Outcome path v part (next ∷ rest) (object fs) =
      elim (Option-cases (get_field part fs)) [
        | inl missing ↦
            inl (rw (entry_missing part fs missing) (set_parts-no_fields path v next rest))
        | inr (w, found) ↦
            rw (entry_found part fs w found) (elim (set_parts-Outcome path v next rest w) [
              | inl written ↦ inl written
              | inr (failed, same) ↦ inr (
                failed,
                ap object
                    (ap (λ c. put_field part c fs) same ∙ put_field-get_field part w fs found),
              )
            ])
      ]
  set_parts-Outcome path v part [] current = inr (refl, refl)
  set_parts-Outcome path v part (next ∷ rest) current = inr (refl, refl)

  get_parts_other :
      (p q : String) (qs : List String) (w : Value N) (fs : Fields N)
      → p ≢ q
      → get_parts (q ∷ qs) (object (put_field p w fs)) ≡ get_parts (q ∷ qs) (object fs)
  unfolding get_parts
  get_parts_other p q qs w fs other =
      ap (λ o. elim o [ some u ↦ get_parts qs u | none ↦ none ])
        (get_field-put_field_other p q w fs other)

  -- A path of more parts reads the same at an entry, whether or not it stood there.
  get_parts-entry :
      (p next : String) (rest qs : List String) (fs : Fields N)
      → Diverges (next ∷ rest) qs
      → get_parts qs (entry p fs) ≡ get_parts (p ∷ qs) (object fs)
  get_parts-entry p next rest [] fs d = absurd d
  get_parts-entry p next rest (q ∷ qs) fs d = elim (Option-cases (get_field p fs)) [
    | inl missing ↦
        ap (get_parts (q ∷ qs)) (entry_missing p fs missing)
        ∙ get_parts_missing q qs no_fields (get_field-no_fields q)
        ∙ sym (get_parts_missing p (q ∷ qs) fs missing)
    | inr (w, found) ↦
        ap (get_parts (q ∷ qs)) (entry_found p fs w found)
        ∙ sym (get_parts_found p (q ∷ qs) fs w found)
  ]

  get_parts-Diverges :
      (path : String) (v : Value N) (p : String) (ps qs : List String) (current : Value N)
      → Diverges (p ∷ ps) qs
      → get_parts qs ((set_parts path v p ps current).0) ≡ get_parts qs current
  unfolding set_parts
  get_parts-Diverges path v p ps [] current d = absurd d
  get_parts-Diverges path v p [] (q ∷ qs) (object fs) (inl other) =
      get_parts_other p q qs v fs other
  get_parts-Diverges path v p [] (q ∷ qs) (object fs) (inr (same, d)) = absurd d
  get_parts-Diverges path v p (next ∷ rest) (q ∷ qs) (object fs) (inl other) =
      get_parts_other p q qs ((set_parts path v next rest (entry p fs)).0) fs other
  get_parts-Diverges path v p (next ∷ rest) (q ∷ qs) (object fs) (inr (same, d)) =
      let child = (set_parts path v next rest (entry p fs)).0 in
      ap (λ x. get_parts (x ∷ qs) (object (put_field p child fs))) (sym same)
      ∙ get_parts_found p qs (put_field p child fs) child (get_field-put_field_self p child fs)
      ∙ get_parts-Diverges path v next rest qs (entry p fs) d
      ∙ get_parts-entry p next rest qs fs d
      ∙ ap (λ x. get_parts (x ∷ qs) (object fs)) same
  get_parts-Diverges path v p [] (q ∷ qs) current d = refl
  get_parts-Diverges path v p (next ∷ rest) (q ∷ qs) current d = refl

  -- Where a write at a path succeeds, the path then reads the written value.
  pub get_by_path-set_by_path :
      (target v after : Value N) (path : String)
      → set_by_path target path v ≡ (after, ok tt)
      → get_by_path after path ≡ some v
  unfolding get_by_path set_by_path
  get_by_path-set_by_path target v after path h = elim (Bool-cases (path == "")) [
    | inl root ↦ rw root (ap (λ x. some (x.0)) (sym (rw root at h)))
    | inr inside ↦
        let written : set_parts path v _ _ target ≡ (after, ok tt) = rw inside at h in
        rw inside (
          ap (λ x. get_parts (parts_of path) (x.0)) (sym written)
          ∙ get_parts-set_parts path v _ _ target (ap (λ x. x.1) written))
  ]

  -- A write at a path succeeds, or it fails with the path as an invalid pointer and leaves the value
  -- as it was.
  pub set_by_path-Outcome :
      (target v : Value N) (path : String) → Outcome path target (set_by_path target path v)
  unfolding set_by_path
  set_by_path-Outcome target v path = elim (Bool-cases (path == "")) [
    | inl root ↦ inl (rw root refl)
    | inr inside ↦ rw inside (set_parts-Outcome path v _ _ target)
  ]

  -- After a write at a path, whether it succeeds or not, a path that diverges from it reads as before.
  pub get_by_path-Diverges :
      (target v : Value N) (path other : String)
      → path ≢ ""
      → other ≢ ""
      → Diverges (parts_of path) (parts_of other)
      → get_by_path ((set_by_path target path v).0) other ≡ get_by_path target other
  unfolding set_by_path get_by_path
  get_by_path-Diverges target v path other inside inside' apart =
      rw (test-other path "" inside, test-other other "" inside')
        (get_parts-Diverges path v _ _ (parts_of other) target apart)
