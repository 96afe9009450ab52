-- ===== src/Barrier/Extra.antt =====
-- The extra channel after a barrier under the default registry.
use weavegraph.Base.{
  ◌≡◌, ◌↔◌, ◌⊎◌, In, refl, sym, ap, ◌∙◌, true, Bool-cases, inl, inr, Option, none, some, List, [],
  ◌∷◌, String, String-key, ℕ-key, all, if◌then◌else◌, arith,
}
use weavegraph.Base.Map.{Map, get, keys, IsMap, get-in}
use weavegraph.Base.Map.Same.{head_pair, Within, agree_of_Within, length_of_agree}
use weavegraph.Base.Result.{Result}
use weavegraph.Kind.{NodeKind}
use weavegraph.State.{Json, Channel, VersionedState, NodePartial}
use weavegraph.Reducers.{ReducerError, default_registry, merge_into}
use weavegraph.Barrier.{
  BarrierOutcome, saturating_add, has_pair, same_map, Gathered, gather, bump_messages, bump_extra,
  nothing_gathered, merged_updates, apply_barrier,
}
use weavegraph.Barrier.Default.{reduced}
use weavegraph.Barrier.Effect.{items-non_empty, after_reducers, apply_barrier-default}
use weavegraph.Barrier.Writes.{
  AreMaps, last_write, entry_after, or_else, gather-extra, gather-IsMap, get-merge_into,
  merge_into-IsMap,
}

module _ {V : Type 0} ⦃json : Json V⦄ where
  all-Within :
      (a b : Map String V) (k : String) (v : V)
      → all (has_pair b) a ≡ true
      → get k a ≡ some v
      → get k b ≡ some v
  unfolding get
  all-Within [] b k v h e = cc
  all-Within ((j, w) ∷ a) b k v h e = ground (arith, all-Within a b k v)

  Within-rest :
      (j : String) (w : V) (a b : Map String V)
      → ¬ In j (keys a)
      → Within ((j, w) ∷ a) b
      → Within a b
  unfolding get
  Within-rest j w a b new h k v e = ground (arith, h k v, get-in k v a)

  Within-all : (a b : Map String V) → IsMap a → Within a b → all (has_pair b) a ≡ true
  unfolding get
  Within-all [] b m h = refl
  Within-all ((j, w) ∷ a) b m h =
      ground (arith, Within-all a b m.1 (Within-rest j w a b m.0 h), h j w (head_pair j w a))

  or_else-none : (o : Option V) → or_else o none ≡ o
  or_else-none none = refl
  or_else-none (some v) = refl

  bump_messages-extra : (b a : VersionedState V) → (bump_messages b a).extra ≡ a.extra
  unfolding bump_messages
  bump_messages-extra b a = ground arith

  bump_extra-value : (b a : VersionedState V) → (bump_extra b a).extra.value ≡ a.extra.value
  unfolding bump_extra
  bump_extra-value b a = ground arith

  bump_extra-version :
      (b a : VersionedState V)
      → (bump_extra b a).extra.version ≡ (
          if same_map a.extra.value b.extra.value
          then a.extra.version
          else saturating_add b.extra.version 1)
  unfolding bump_extra
  bump_extra-version b a = ground arith

  pub same_map-agree :
      (a b : Map String V)
      → IsMap a
      → IsMap b
      → (same_map a b ≡ true) ↔ ((k : String) → get k a ≡ get k b)
  unfolding same_map
  same_map-agree a b ha hb = (
    λ e k. agree_of_Within a b ha hb (λ j v. all-Within a b j v (ground arith)) (ground arith) k,
    λ h. ground (arith, length_of_agree a b ha hb h, Within-all a b ha (λ k v e. sym (h k) ∙ e)),
  )

module _ {V : Type 0} ⦃json : Json V⦄ (s : VersionedState V) (ids : List NodeKind)
    (ps : List (NodePartial V)) where
  abbrev after : VersionedState V
  after = (apply_barrier default_registry s ids ps).0

  abbrev merged : VersionedState V
  merged = after_reducers s ids ps

  abbrev collected : Gathered V
  collected = gather ids ps nothing_gathered

  merged_version :
      (if same_map merged.extra.value s.extra.value
        then merged.extra.version
        else saturating_add s.extra.version 1)
      ≡ (if same_map merged.extra.value s.extra.value
          then s.extra.version
          else saturating_add s.extra.version 1)
  unfolding reduced
  merged_version = refl

  merged_entry :
      (k : String)
      → AreMaps ps
      → get k merged.extra.value ≡ entry_after (last_write k ps) (get k s.extra.value)
  unfolding reduced merged_updates get
  merged_entry k h =
      ap (λ u. get k (merge_into u s.extra.value)) (items-non_empty collected.extra_all)
      ∙ get-merge_into k collected.extra_all s.extra.value (gather-IsMap ids ps nothing_gathered tt)
      ∙ ap (λ o. entry_after o (get k s.extra.value))
          (gather-extra k ids ps nothing_gathered h ∙ or_else-none _)

  merged-IsMap : IsMap s.extra.value → IsMap merged.extra.value
  unfolding reduced
  merged-IsMap h = merge_into-IsMap _ s.extra.value h

  default_extra : after.extra ≡ (bump_extra s (bump_messages s merged)).extra
  default_extra =
      ap (λ (r : VersionedState V × Result ReducerError (BarrierOutcome V)). r.0.extra)
        (apply_barrier-default s ids ps)

  default_extra_value : after.extra.value ≡ merged.extra.value
  default_extra_value =
      ap (λ (c : Channel (Map String V)). c.value) default_extra
      ∙ bump_extra-value s (bump_messages s merged)
      ∙ ap (λ (c : Channel (Map String V)). c.value) (bump_messages-extra s merged)

  -- With hash maps for the extras of the partials: a key that no partial writes keeps its entry;
  -- else the last of the partials that write it decides, and a null deletes the entry.
  pub apply_barrier-extra :
      (k : String)
      → AreMaps ps
      → get k after.extra.value ≡ entry_after (last_write k ps) (get k s.extra.value)
  apply_barrier-extra k h = ap (get k) default_extra_value ∙ merged_entry k h

  -- Both states' extras answer alike at every key.
  abbrev pub AgreesAfter : Type 0
  AgreesAfter = (k : String) → get k after.extra.value ≡ get k s.extra.value

  default_extra_version : after.extra.version ≡ (
      if same_map merged.extra.value s.extra.value
      then s.extra.version
      else saturating_add s.extra.version 1)
  default_extra_version =
      ap (λ (c : Channel (Map String V)). c.version) default_extra
      ∙ bump_extra-version s (bump_messages s merged)
      ∙ ap
          (λ (c : Channel (Map String V)).
            if same_map c.value s.extra.value then c.version else saturating_add s.extra.version 1)
          (bump_messages-extra s merged)
      ∙ merged_version

  agrees :
      (k : String)
      → get k merged.extra.value ≡ get k s.extra.value
      → get k after.extra.value ≡ get k s.extra.value
  agrees k e = ap (get k) default_extra_value ∙ e

  agrees_merged :
      (k : String)
      → get k after.extra.value ≡ get k s.extra.value
      → get k merged.extra.value ≡ get k s.extra.value
  agrees_merged k e = sym (ap (get k) default_extra_value) ∙ e

  -- When the extras of the state are a hash map: either every key has its old entry after the
  -- barrier and the version of the extra channel stays, or some key has not and the version is
  -- raised by one, up to the largest `u32`.
  pub apply_barrier-extra_version :
      IsMap s.extra.value
      → (AgreesAfter × (after.extra.version ≡ s.extra.version))
        ⊎ ((¬ AgreesAfter) × (after.extra.version ≡ saturating_add s.extra.version 1))
  apply_barrier-extra_version h = elim (Bool-cases (same_map merged.extra.value s.extra.value)) [
    | inl same ↦ inl (
      λ k. agrees k ((same_map-agree _ _ (merged-IsMap h) h).0 same k),
      default_extra_version
          ∙ ap (λ b. if b then s.extra.version else saturating_add s.extra.version 1) same,
    )
    | inr other ↦ inr (
      λ all_agree.
          let same =
            (same_map-agree _ _ (merged-IsMap h) h).1 (λ k. agrees_merged k (all_agree k)) in
          cc,
      default_extra_version
          ∙ ap (λ b. if b then s.extra.version else saturating_add s.extra.version 1) other,
    )
  ]
