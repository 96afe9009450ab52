-- ===== src/Barrier/Writes.antt =====
-- What a chain of writes leaves in a map: `map_merge`, and the gathering of the partials.
use weavegraph.Base.{
  ◌≡◌, refl, ap, subst, ◌∙◌, ◌⊎◌, Option, none, some, List, [], ◌∷◌, In, All, arith, String,
  String-key, if◌then◌else◌,
}
use weavegraph.Base.Map.{Map, keys, get, put, remove, get-put, get-remove, IsMap, put-IsMap}
use weavegraph.Base.Map.Same.{get_absent, remove-IsMap}
use weavegraph.Base.Sort.{insert, sort}
use weavegraph.Kind.{NodeKind}
use weavegraph.State.{Json, is_null, NodePartial}
use weavegraph.Reducers.{merge_into}
use weavegraph.Barrier.{items, key_le, insert_all, Gathered, gather, gather_one}

-- The first of two options that has a value.
abbrev pub or_else : {A : Type 0} → Option A → Option A → Option A
or_else (some a) o = some a
or_else none o = o

or_else_assoc : {A : Type 0} (a b c : Option A) → or_else a (or_else b c) ≡ or_else (or_else a b) c
or_else_assoc (some a) b c = refl
or_else_assoc none b c = refl

module _ {V : Type 0} where
  get-insert_all :
      (k : String) (pairs m : Map String V)
      → IsMap pairs
      → get k (insert_all pairs m) ≡ or_else (get k pairs) (get k m)
  unfolding insert_all get
  get-insert_all k [] m h = refl
  get-insert_all k ((j, v) ∷ pairs) m h =
      ground (arith, get-insert_all k pairs (put j v m), get-put j k v m, get_absent k pairs)

  in-keys-insert :
      (k : String) (p : String × V) (m : Map String V)
      → In k (keys (insert key_le p m))
      → (p.0 ≡ k) ⊎ In k (keys m)
  unfolding insert
  in-keys-insert k (j, v) [] i = ground arith
  in-keys-insert k (j, v) ((h, w) ∷ m) i = ground (arith, in-keys-insert k (j, v) m)

  get-insert :
      (k : String) (p : String × V) (m : Map String V)
      → ¬ In p.0 (keys m)
      → get k (insert key_le p m) ≡ get k (p ∷ m)
  unfolding insert get
  get-insert k (j, v) [] new = refl
  get-insert k (j, v) ((h, w) ∷ m) new = ground (arith, get-insert k (j, v) m)

  insert-IsMap :
      (p : String × V) (m : Map String V) → ¬ In p.0 (keys m) → IsMap m → IsMap (insert key_le p m)
  unfolding insert
  insert-IsMap (j, v) [] new h = ground arith
  insert-IsMap (j, v) ((i, w) ∷ m) new h =
      ground (arith, insert-IsMap (j, v) m, in-keys-insert i (j, v) m)

  in-keys-sort : (k : String) (m : Map String V) → In k (keys (sort key_le m)) → In k (keys m)
  unfolding sort
  in-keys-sort k [] i = i
  in-keys-sort k ((j, v) ∷ m) i =
      ground (arith, in-keys-sort k m, in-keys-insert k (j, v) (sort key_le m))

  sort-IsMap : (m : Map String V) → IsMap m → IsMap (sort key_le m)
  unfolding sort
  sort-IsMap [] h = h
  sort-IsMap ((j, v) ∷ m) h =
      insert-IsMap (j, v) (sort key_le m) (λ i. h.0 (in-keys-sort j m i)) (sort-IsMap m h.1)

  get-sort : (k : String) (m : Map String V) → IsMap m → get k (sort key_le m) ≡ get k m
  unfolding sort get
  get-sort k [] h = refl
  get-sort k ((j, v) ∷ m) h =
      ground (
        arith,
        get-sort k m h.1,
        get-insert k (j, v) (sort key_le m) (λ i. h.0 (in-keys-sort j m i)),
      )

  -- The value that the last of the partials that write a key writes.
  abbrev pub last_write : String → List (NodePartial V) → Option V
  last_write k [] = none
  last_write k (p ∷ ps) = or_else (last_write k ps) (get k (items p.extra))

  -- The partials' maps are hash maps.
  abbrev pub AreMaps : List (NodePartial V) → Type 0
  AreMaps = All (λ p. IsMap (items p.extra))

  gather_one-extra :
      (k : String) (i : NodeKind) (p : NodePartial V) (g : Gathered V)
      → IsMap (items p.extra)
      → get k (gather_one i p g).extra_all ≡ or_else (get k (items p.extra)) (get k g.extra_all)
  unfolding gather_one
  gather_one-extra k i p g h =
      subst
        (λ (o : Option V).
          get k (insert_all (sort key_le (items p.extra)) g.extra_all)
          ≡ or_else o (get k g.extra_all))
        (get-sort k (items p.extra) h)
        (get-insert_all k (sort key_le (items p.extra)) g.extra_all (sort-IsMap _ h))

  pub gather-extra :
      (k : String) (ids : List NodeKind) (ps : List (NodePartial V)) (g : Gathered V)
      → AreMaps ps
      → get k (gather ids ps g).extra_all ≡ or_else (last_write k ps) (get k g.extra_all)
  unfolding gather
  gather-extra k ids [] g h = refl
  gather-extra k [] (p ∷ ps) g h =
      gather-extra k [] ps (gather_one _ p g) h.1
      ∙ ap (or_else (last_write k ps)) (gather_one-extra k _ p g h.0)
      ∙ or_else_assoc (last_write k ps) (get k (items p.extra)) (get k g.extra_all)
  gather-extra k (i ∷ ids) (p ∷ ps) g h =
      gather-extra k ids ps (gather_one i p g) h.1
      ∙ ap (or_else (last_write k ps)) (gather_one-extra k i p g h.0)
      ∙ or_else_assoc (last_write k ps) (get k (items p.extra)) (get k g.extra_all)

  insert_all-IsMap : (pairs m : Map String V) → IsMap m → IsMap (insert_all pairs m)
  unfolding insert_all
  insert_all-IsMap [] m h = h
  insert_all-IsMap ((k, v) ∷ pairs) m h = insert_all-IsMap pairs (put k v m) (put-IsMap k v m h)

  pub gather-IsMap :
      (ids : List NodeKind) (ps : List (NodePartial V)) (g : Gathered V)
      → IsMap g.extra_all
      → IsMap (gather ids ps g).extra_all
  unfolding gather gather_one
  gather-IsMap ids [] g h = h
  gather-IsMap [] (p ∷ ps) g h = gather-IsMap [] ps (gather_one _ p g) (insert_all-IsMap _ _ h)
  gather-IsMap (i ∷ ids) (p ∷ ps) g h =
      gather-IsMap ids ps (gather_one i p g) (insert_all-IsMap _ _ h)

  module _ ⦃json : Json V⦄ where
    -- The entry of a key after the write: a null deletes it.
    abbrev pub entry_after : Option V → Option V → Option V
    entry_after none old = old
    entry_after (some v) old = if is_null v then none else some v

    pub get-merge_into :
        (k : String) (u m : Map String V)
        → IsMap u
        → get k (merge_into u m) ≡ entry_after (get k u) (get k m)
    unfolding merge_into get
    get-merge_into k [] m h = refl
    get-merge_into k ((j, v) ∷ u) m h = ground (
      arith,
      get-merge_into k u (if is_null v then remove j m else put j v m),
      get-put j k v m,
      get-remove j k m,
      get_absent k u,
    )

    pub merge_into-IsMap : (u m : Map String V) → IsMap m → IsMap (merge_into u m)
    unfolding merge_into
    merge_into-IsMap [] m h = h
    merge_into-IsMap ((j, v) ∷ u) m h = ground (
      arith,
      merge_into-IsMap u (remove j m) (remove-IsMap j m h),
      merge_into-IsMap u (put j v m) (put-IsMap j v m h),
    )
