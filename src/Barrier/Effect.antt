-- ===== src/Barrier/Effect.antt =====
-- What `apply_barrier` does to the state under the default registry.
use mathlib.Core.List.{append-nil, append_assoc}
use weavegraph.Base.{
  ◌≡◌, refl, sym, ap, ◌∙◌, List, [], ◌∷◌, ◌++◌, length, length-append, is_empty, if◌then◌else◌,
  ℕ-key, arith, List-cases, inl, inr,
}
use weavegraph.Base.Result.{Result, ok}
use weavegraph.Base.Sort.{sort}
use weavegraph.Kind.{NodeKind}
use weavegraph.State.{Json, Message, ErrorEvent, Channel, VersionedState, NodePartial}
use weavegraph.Reducers.{ReducerError, default_registry}
use weavegraph.Barrier.{
  BarrierOutcome, saturating_add, items, non_empty, error_le, Gathered, gather_one, gather,
  nothing_gathered, merged_updates, bump_messages, bump_extra, updated_channels, conclude,
  apply_barrier,
}
use weavegraph.Barrier.Sorted.{IsSorting, sort-IsSorting}
use weavegraph.Barrier.Default.{reduced, apply_all-default}

pub items-non_empty : {A : Type 0} (xs : List A) → items (non_empty xs) ≡ xs
items-non_empty [] = refl
items-non_empty (x ∷ xs) = refl

module _ {V : Type 0} where
  -- The messages of all partials, in the order of the partials.
  unfoldable pub all_messages : List (NodePartial V) → List Message
  all_messages [] = []
  all_messages (p ∷ ps) = items p.messages ++ all_messages ps

  unfoldable pub all_errors : List (NodePartial V) → List (ErrorEvent V)
  all_errors [] = []
  all_errors (p ∷ ps) = items p.errors ++ all_errors ps

  pub gather-messages :
      (ids : List NodeKind) (ps : List (NodePartial V)) (g : Gathered V)
      → (gather ids ps g).msgs_all ≡ g.msgs_all ++ all_messages ps
  unfolding gather gather_one all_messages
  gather-messages ids [] g = sym (append-nil g.msgs_all)
  gather-messages [] (p ∷ ps) g =
      gather-messages [] ps (gather_one _ p g)
      ∙ append_assoc g.msgs_all (items p.messages) (all_messages ps)
  gather-messages (i ∷ ids) (p ∷ ps) g =
      gather-messages ids ps (gather_one i p g)
      ∙ append_assoc g.msgs_all (items p.messages) (all_messages ps)

  pub gather-errors :
      (ids : List NodeKind) (ps : List (NodePartial V)) (g : Gathered V)
      → (gather ids ps g).errors_all ≡ g.errors_all ++ all_errors ps
  unfolding gather gather_one all_errors
  gather-errors ids [] g = sym (append-nil g.errors_all)
  gather-errors [] (p ∷ ps) g =
      gather-errors [] ps (gather_one _ p g)
      ∙ append_assoc g.errors_all (items p.errors) (all_errors ps)
  gather-errors (i ∷ ids) (p ∷ ps) g =
      gather-errors ids ps (gather_one i p g)
      ∙ append_assoc g.errors_all (items p.errors) (all_errors ps)

module _ {V : Type 0} ⦃json : Json V⦄ where
  bump_extra-messages : (b a : VersionedState V) → (bump_extra b a).messages ≡ a.messages
  unfolding bump_extra
  bump_extra-messages b a = ground arith

  bump_extra-errors : (b a : VersionedState V) → (bump_extra b a).errors ≡ a.errors
  unfolding bump_extra
  bump_extra-errors b a = ground arith

  bump_messages-errors : (b a : VersionedState V) → (bump_messages b a).errors ≡ a.errors
  unfolding bump_messages
  bump_messages-errors b a = ground arith

  bump_messages-value :
      (b a : VersionedState V) → (bump_messages b a).messages.value ≡ a.messages.value
  unfolding bump_messages
  bump_messages-value b a = ground arith

  bump_messages-version :
      (b a : VersionedState V) (new : List Message)
      → a.messages.value ≡ b.messages.value ++ new
      → a.messages.version ≡ b.messages.version
      → (bump_messages b a).messages.version
        ≡ (if is_empty new then b.messages.version else saturating_add b.messages.version 1)
  unfolding bump_messages
  bump_messages-version b a new e v = elim (List-cases new) [
    | inl empty ↦ ground (arith, length-append b.messages.value new, ap length e)
    | inr (m, rest, more) ↦ ground (arith, length-append b.messages.value new, ap length e)
  ]

module _ {V : Type 0} ⦃json : Json V⦄ (s : VersionedState V) (ids : List NodeKind)
    (ps : List (NodePartial V)) where
  abbrev pub gathered : Gathered V
  gathered = gather ids ps nothing_gathered

  abbrev pub after_reducers : VersionedState V
  after_reducers = reduced s (merged_updates gathered)

  pub apply_barrier-default : apply_barrier default_registry s ids ps ≡ (
    bump_extra s (bump_messages s after_reducers),
    ok (record {
      updated_channels = updated_channels s after_reducers;
      errors = sort error_le gathered.errors_all;
      frontier_commands = gathered.frontier_commands;
    }),
  )
  unfolding apply_barrier
  apply_barrier-default = ap (conclude s gathered) (apply_all-default s (merged_updates gathered))

  pub default_messages :
      (apply_barrier default_registry s ids ps).0.messages
      ≡ (bump_messages s after_reducers).messages
  default_messages =
      ap (λ (r : VersionedState V × Result ReducerError (BarrierOutcome V)). r.0.messages)
        apply_barrier-default
      ∙ bump_extra-messages s (bump_messages s after_reducers)

  default_errors : (apply_barrier default_registry s ids ps).0.errors ≡ after_reducers.errors
  default_errors =
      ap (λ (r : VersionedState V × Result ReducerError (BarrierOutcome V)). r.0.errors)
        apply_barrier-default
      ∙ bump_extra-errors s (bump_messages s after_reducers)
      ∙ bump_messages-errors s after_reducers

  reduced_messages : after_reducers.messages.value ≡ s.messages.value ++ all_messages ps
  unfolding reduced merged_updates
  reduced_messages =
      ap (λ ms. s.messages.value ++ ms)
        (items-non_empty gathered.msgs_all ∙ gather-messages ids ps nothing_gathered)

  reduced_version : after_reducers.messages.version ≡ s.messages.version
  unfolding reduced
  reduced_version = refl

  reduced_error_version : after_reducers.errors.version ≡ s.errors.version
  unfolding reduced
  reduced_error_version = refl

  reduced_errors : after_reducers.errors.value ≡ s.errors.value ++ sort error_le (all_errors ps)
  unfolding reduced merged_updates
  reduced_errors =
      ap (λ es. s.errors.value ++ es)
        (items-non_empty (sort error_le gathered.errors_all)
          ∙ ap (sort error_le) (gather-errors ids ps nothing_gathered))

  -- The messages of the partials are appended, in the order of the partials, and the version of the
  -- channel is raised, up to the largest `u32`, just when there is a message.
  pub apply_barrier-messages :
      ((apply_barrier default_registry s ids ps).0.messages.value
        ≡ s.messages.value ++ all_messages ps)
      × ((apply_barrier default_registry s ids ps).0.messages.version ≡ (
          if is_empty (all_messages ps)
          then s.messages.version
          else saturating_add s.messages.version 1))
  apply_barrier-messages = (
    ap (λ (c : Channel (List Message)). c.value) default_messages
        ∙ bump_messages-value s after_reducers
        ∙ reduced_messages,
    ap (λ (c : Channel (List Message)). c.version) default_messages
        ∙ bump_messages-version s after_reducers (all_messages ps) reduced_messages reduced_version,
  )

  pub errors_appended :
      (apply_barrier default_registry s ids ps).0.errors.value
      ≡ s.errors.value ++ sort error_le (all_errors ps)
  errors_appended =
      ap (λ (c : Channel (List (ErrorEvent V))). c.value) default_errors ∙ reduced_errors

  -- The errors of the partials are put in order: by the rank of their scopes, in one rank by the name
  -- of the scope, then by step, by time and by message, each as often as it is there, and those that
  -- are equal in all of these in the order of the partials. In this order they are appended to the
  -- errors of the state, whose version stays, and reported in the outcome, which is never an error.
  pub apply_barrier-errors :
      (sorted : List (ErrorEvent V)) × IsSorting (all_errors ps) sorted
      × ((apply_barrier default_registry s ids ps).0.errors.value ≡ s.errors.value ++ sorted)
      × ((apply_barrier default_registry s ids ps).0.errors.version ≡ s.errors.version)
      × ((outcome : BarrierOutcome V) × ((apply_barrier default_registry s ids ps).1 ≡ ok outcome)
          × (outcome.errors ≡ sorted))
  apply_barrier-errors = (
    sort error_le (all_errors ps),
    sort-IsSorting (all_errors ps),
    errors_appended,
    ap (λ (c : Channel (List (ErrorEvent V))). c.version) default_errors ∙ reduced_error_version,
    (
      _,
      ap (λ (r : VersionedState V × Result ReducerError (BarrierOutcome V)). r.1)
          apply_barrier-default,
      ap (sort error_le) (gather-errors ids ps nothing_gathered),
    ),
  )
