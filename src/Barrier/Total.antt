-- ===== src/Barrier/Total.antt =====
-- The barrier does not fail, whatever reducers are registered.
use weavegraph.Base.{◌≡◌, refl, List}
use weavegraph.Base.Result.{Result, ok, err}
use weavegraph.Kind.{NodeKind}
use weavegraph.State.{Json, VersionedState, NodePartial}
use weavegraph.Reducers.{apply_all, ReducerRegistry, ReducerError}
use weavegraph.Reducers.Registry.{apply_all-ok}
use weavegraph.Barrier.{
  BarrierOutcome, Gathered, gather, nothing_gathered, merged_updates, conclude, apply_barrier,
}

module _ {V : Type 0} ⦃json : Json V⦄ where
  conclude-ok :
      (s : VersionedState V) (g : Gathered V)
      (p : VersionedState V × Result ReducerError (Unit {0}))
      → p.1 ≡ ok tt
      → (outcome : BarrierOutcome V) × ((conclude s g p).1 ≡ ok outcome)
  conclude-ok s g (after, ok u) h = (_, refl)
  conclude-ok s g (after, err e) h = absurd cc

  -- With any registry, even one without a reducer for some channel, the barrier succeeds.
  pub apply_barrier-ok :
      (registry : ReducerRegistry V) (s : VersionedState V) (ids : List NodeKind)
      (ps : List (NodePartial V))
      → (outcome : BarrierOutcome V) × ((apply_barrier registry s ids ps).1 ≡ ok outcome)
  unfolding apply_barrier
  apply_barrier-ok registry s ids ps =
      let g = gather ids ps nothing_gathered in
      conclude-ok s g (apply_all registry s (merged_updates g))
        (apply_all-ok registry (merged_updates g) s)
