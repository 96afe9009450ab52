-- ===== src/Barrier.antt =====
-- `App::apply_barrier` of src/app.rs: the outputs of a superstep are merged into the state.
pub mod Default
pub mod Total
pub mod Effect
pub mod Sorted
pub mod Extra
pub mod Writes
use Prim.Native.Nat.{compare}
use Prim.Native.String.{compare as compare_str, then as or_then}
use weavegraph.Base.{
  ℕ, zero, suc, ◌+◌, ◌-◌, ◌^◌, min, String, String-key, ℕ-key, ◌≡◌, Bool, true, false, not, ◌&&◌,
  Option, none, some, List, [], ◌∷◌, ◌++◌, length, is_empty, if◌then◌else◌, ◌==◌, all,
}
use weavegraph.Base.Order.{is_not_greater}
use weavegraph.Base.Map.{Map, get, put}
use weavegraph.Base.Result.{Result, ok, err}
use weavegraph.Base.Sort.{sort}
use weavegraph.Kind.{NodeKind, custom, FrontierCommand}
use weavegraph.State
use weavegraph.State.{
  Json, Message, ErrorScope, ErrorEvent, error_message, Channel, VersionedState, NodePartial,
}
use weavegraph.Reducers.{ReducerRegistry, ReducerError, apply_all}

pub record BarrierOutcome (V : Type 0) : Type 0 where
  pub updated_channels : List String
  pub errors : List (ErrorEvent V)
  pub frontier_commands : List (NodeKind × FrontierCommand)

abbrev pub u32_max : ℕ
u32_max = 4294967295

-- `u32::saturating_add`.
unfoldable pub saturating_add : ℕ → ℕ → ℕ
saturating_add a b = min (a + b) u32_max

-- `scope_sort_key`.
unfoldable pub scope_rank : ErrorScope → ℕ
scope_rank (ErrorScope.node kind step) = 0
scope_rank (ErrorScope.scheduler step) = 1
scope_rank (ErrorScope.runner session step) = 2
scope_rank ErrorScope.app = 3

unfoldable pub scope_name : ErrorScope → String
scope_name (ErrorScope.node kind step) = kind
scope_name (ErrorScope.scheduler step) = ""
scope_name (ErrorScope.runner session step) = session
scope_name ErrorScope.app = ""

unfoldable pub scope_step : ErrorScope → ℕ
scope_step (ErrorScope.node kind step) = step
scope_step (ErrorScope.scheduler step) = step
scope_step (ErrorScope.runner session step) = step
scope_step ErrorScope.app = 0

-- The pairs of an update are sorted by their keys.
unfoldable pub key_le : {V : Type 0} → String × V → String × V → Bool
key_le a b = is_not_greater (compare_str a.0 b.0)

abbrev pub items : {A : Type 0} → Option (List A) → List A
items none = []
items (some xs) = xs

-- `None` for an empty list.
abbrev pub non_empty : {A : Type 0} → List A → Option (List A)
non_empty xs = if is_empty xs then none else some xs

-- What the loop over the partials gathers.
pub record Gathered (V : Type 0) : Type 0 where
  pub msgs_all : List Message
  pub extra_all : Map String V
  pub errors_all : List (ErrorEvent V)
  pub frontier_commands : List (NodeKind × FrontierCommand)

module _ {V : Type 0} where
  -- The order in which errors are reported.
  unfoldable pub error_le : ErrorEvent V → ErrorEvent V → Bool
  unfolding scope_rank scope_name scope_step error_message
  error_le a b = is_not_greater (
      or_then (compare (scope_rank a.scope) (scope_rank b.scope)) (
        or_then (compare_str (scope_name a.scope) (scope_name b.scope)) (
          or_then (compare (scope_step a.scope) (scope_step b.scope)) (
            or_then (compare a.when b.when)
              (compare_str (error_message a.error) (error_message b.error))))))

  unfoldable pub insert_all : Map String V → Map String V → Map String V
  insert_all [] extra = extra
  insert_all ((k, v) ∷ pairs) extra = insert_all pairs (put k v extra)

  -- The body of the loop, for the partial of the node `nid`.
  unfoldable pub gather_one : NodeKind → NodePartial V → Gathered V → Gathered V
  gather_one nid p g = record {
    msgs_all = g.msgs_all ++ items p.messages;
    extra_all = insert_all (sort key_le (items p.extra)) g.extra_all;
    errors_all = g.errors_all ++ items p.errors;
    frontier_commands = elim p.frontier [
      | none ↦ g.frontier_commands
      | some command ↦ g.frontier_commands ++ (nid, command) ∷ []
    ];
  }

  -- A partial with no id of its own goes under the name `?`.
  unfoldable pub gather : List NodeKind → List (NodePartial V) → Gathered V → Gathered V
  gather run_ids [] g = g
  gather [] (p ∷ partials) g = gather [] partials (gather_one (custom "?") p g)
  gather (nid ∷ run_ids) (p ∷ partials) g = gather run_ids partials (gather_one nid p g)

  abbrev pub nothing_gathered : Gathered V
  nothing_gathered = record {
    msgs_all = [];
    extra_all = [];
    errors_all = [];
    frontier_commands = [];
  }

  unfoldable pub merged_updates : Gathered V → NodePartial V
  merged_updates g = record {
    messages = non_empty g.msgs_all;
    extra = non_empty g.extra_all;
    errors = non_empty (sort error_le g.errors_all);
    frontier = none;
  }

  module _ ⦃json : Json V⦄ where
    -- One of the pairs that `PartialEq` of hash maps looks up in the other map.
    abbrev pub has_pair : Map String V → String × V → Bool
    has_pair m (k, v) = elim (get k m) [
      | none ↦ false
      | some w ↦ elim (json.eq? v w) [ yes _ ↦ true | no _ ↦ false ]
    ]

    -- `==` of hash maps.
    unfoldable pub same_map : Map String V → Map String V → Bool
    same_map a b = length a == length b && all (has_pair b) a

    -- After the reducers: a channel that changed has its version raised.
    unfoldable pub bump_messages : VersionedState V → VersionedState V → VersionedState V
    bump_messages before after =
        if length after.messages.value == length before.messages.value
        then after
        else record after {
          messages = record after.messages { version = saturating_add before.messages.version 1 };
        }

    unfoldable pub bump_extra : VersionedState V → VersionedState V → VersionedState V
    bump_extra before after =
        if same_map after.extra.value before.extra.value then after else record after {
          extra = record after.extra { version = saturating_add before.extra.version 1 };
        }

    unfoldable pub updated_channels : VersionedState V → VersionedState V → List String
    updated_channels before after =
        (if length after.messages.value == length before.messages.value
          then []
          else "messages" ∷ [])
        ++ (if same_map after.extra.value before.extra.value then [] else "extra" ∷ [])

    -- What follows the reducers: an error is returned, or the versions are raised and the
    -- outcome is put together.
    abbrev pub conclude :
        VersionedState V
        → Gathered V
        → VersionedState V × Result ReducerError (Unit {0})
        → VersionedState V × Result ReducerError (BarrierOutcome V)
    conclude state g (after, err e) = (after, err e)
    conclude state g (after, ok _) = (
      bump_extra state (bump_messages state after),
      ok (record {
        updated_channels = updated_channels state after;
        errors = sort error_le g.errors_all;
        frontier_commands = g.frontier_commands;
      }),
    )

    unfoldable pub apply_barrier :
        ReducerRegistry V
        → VersionedState V
        → List NodeKind
        → List (NodePartial V)
        → VersionedState V × Result ReducerError (BarrierOutcome V)
    apply_barrier registry state run_ids node_partials =
        let g = gather run_ids node_partials nothing_gathered in
        conclude state g (apply_all registry state (merged_updates g))
