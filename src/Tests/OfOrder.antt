-- ===== src/Tests/OfOrder.antt =====
-- The topological sort, and the loop that comes to an end because of it.
use native.Mathlib.Decide.{ℕ_discrete}
use weavegraph.Base.{
  ◌≡◌, sym, ap, ◌↔◌, refl, String, String-key, List, In, IsDistinct, [], ◌∷◌, some, none, arith,
  ◌⊎◌, inl, inr, subst,
}
use weavegraph.Base.Map.{get, put}
use weavegraph.Base.Result.{Result, ok, ok-injective}
use weavegraph.Base.Sort.{sort, insert}
use weavegraph.Kind.{NodeKind, NodeKind-key, start, end}
use weavegraph.State.{VersionedState, NodePartial}
use weavegraph.Scheduler.{Node}
use weavegraph.Graph.Edges.{OnCycle, targets}
use weavegraph.Graph.Topological.{
  topological_sort, sort_loop, begin_sort, take_node, release, zero_in_degree, count_edges,
  count_targets, count_target, add_node, sorts_before,
}
use weavegraph.Graph.Topological.Counted.{IsEndpoint}
use weavegraph.Graph.Topological.Sorted.{InOrder}
use weavegraph.Graph.Topological.Complete.{topological_sort-Sorted}
use weavegraph.Runner.{RunnerError}
use weavegraph.Runner.Advance.{AreSilent}
use weavegraph.Runner.Liveness.{run_until_complete-HasEnded}
use weavegraph.Runner.Life.{run_until_complete}
use weavegraph.Tests.Values.{
  node_a, node_b, line, line-IsMap, loop, loop-IsMap, Value, Value-json, talker, faulty,
  in_order-Delivers,
}
use weavegraph.Tests.OfSessions.{builder, builds}
use weavegraph.Tests.OfRunner.{outside, app, runner, runner-IsSound}

topological_sort-Sorted_example :
    (result : List NodeKind) × (topological_sort loop ≡ some result)
    × IsDistinct result
    × ((v : NodeKind) → In v result → IsEndpoint loop v)
    × InOrder loop [] result
    × (((v : NodeKind) → IsEndpoint loop v → In v result) ↔ ((n : NodeKind) → ¬ OnCycle loop n))
topological_sort-Sorted_example = topological_sort-Sorted loop loop-IsMap

in_line : topological_sort line ≡ some (start ∷ node_a ∷ node_b ∷ end ∷ [])
unfolding topological_sort sort_loop begin_sort take_node release zero_in_degree count_edges
    count_targets count_target add_node sorts_before sort insert targets get put ℕ_discrete
in_line = refl

one_of_two :
    (k : NodeKind) (node : Node Value String)
    → get k app.nodes ≡ some node
    → (talker ≡ node) ⊎ (faulty ≡ node)
unfolding get
one_of_two k node h = ground arith

nodes-AreSilent : AreSilent app.nodes
nodes-AreSilent k node snap ctx p found returns = elim (one_of_two k node found) [
  | inl e ↦ talks (subst (λ (n : Node Value String). n snap ctx ≡ ok p) (sym e) returns)
  | inr e ↦ absurd (fails (subst (λ (n : Node Value String). n snap ctx ≡ ok p) (sym e) returns))
]
  where
    talks : talker snap ctx ≡ ok p → p.frontier ≡ none
    talks h = sym (ap (λ (q : NodePartial Value). q.frontier) (ok-injective String h))

    fails : ¬ (faulty snap ctx ≡ ok p)
    fails h = cc

run_until_complete-HasEnded_example :
    (r : Result (RunnerError String String) (VersionedState Value)) × ((run_until_complete outside 6
        "one" runner).1
      ≡ some r)
run_until_complete-HasEnded_example =
    run_until_complete-HasEnded outside "one" (λ ns. ns) builder runner
      (start ∷ node_a ∷ node_b ∷ end ∷ []) 6 in_order-Delivers (λ ns n. (λ i. i, λ i. i)) line-IsMap
      refl nodes-AreSilent builds runner-IsSound in_line (omega arith)
