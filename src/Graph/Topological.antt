-- ===== src/Graph/Topological.antt =====
-- `topological_sort` of src/graphs/iteration.rs: Kahn's algorithm. The set of all nodes, which only
-- gives the result its capacity, is left out.
pub mod Pending
pub mod Release
pub mod Counted
pub mod Start
pub mod Sorted
pub mod Complete
pub mod Rank
use text.Mathlib.Text.{is_le}
use Prim.Native.String
use weavegraph.Base.{
  ℕ, zero, suc, ◌+◌, ◌-◌, Bool, true, false, Option, none, some, List, [], ◌∷◌, ◌++◌, length,
  if◌then◌else◌, ◌==◌, ℕ-key,
}
use weavegraph.Base.Map.{Map, get, put, keys}
use weavegraph.Base.Sort.{sort}
use weavegraph.Kind.{NodeKind, NodeKind-key, start, end, custom}
use weavegraph.Graph.Edges.{Edges, targets}

-- The comparison of both sorts answers other than `Greater`.
unfoldable pub sorts_before : NodeKind → NodeKind → Bool
sorts_before start b = true
sorts_before end b = false
sorts_before (custom a) start = false
sorts_before (custom a) end = true
sorts_before (custom a) (custom b) = is_le (String.compare a b)

abbrev pub Degrees : Type 0
Degrees = Map NodeKind ℕ

-- `entry(node).or_insert(0)`.
unfoldable pub add_node : NodeKind → Degrees → Degrees
add_node node degrees = elim (get node degrees) [ none ↦ put node 0 degrees | some _ ↦ degrees ]

-- `*entry(to).or_insert(0) += 1`.
unfoldable pub count_target : NodeKind → Degrees → Degrees
count_target to degrees = elim (get to degrees) [
  | none ↦ put to 1 degrees
  | some deg ↦ put to (deg + 1) degrees
]

unfoldable pub count_targets : List NodeKind → Degrees → Degrees
count_targets [] degrees = degrees
count_targets (to ∷ tos) degrees = count_targets tos (count_target to degrees)

unfoldable pub count_edges : Edges → Degrees → Degrees
count_edges [] degrees = degrees
count_edges ((from, tos) ∷ edges) degrees =
    count_edges edges (count_targets tos (add_node from degrees))

unfoldable pub zero_in_degree : Degrees → List NodeKind
zero_in_degree [] = []
zero_in_degree ((node, deg) ∷ degrees) =
    let rest = zero_in_degree degrees in if deg == 0 then node ∷ rest else rest

-- The loop over the neighbours of a node: their degrees fall, and those that reach zero are kept.
unfoldable pub release : List NodeKind → Degrees → Degrees × List NodeKind
release [] degrees = (degrees, [])
release (neighbor ∷ rest) degrees = elim (get neighbor degrees) [
  | none ↦ release rest degrees
  | some deg ↦
      let (degrees', new_zero) = release rest (put neighbor (deg - 1) degrees) in
      (degrees', if deg - 1 == 0 then neighbor ∷ new_zero else new_zero)
]

pub record Sorting : Type 0 where
  pub in_degree : Degrees
  pub queue : List NodeKind
  pub result : List NodeKind

-- One round of the loop, for the node at the front of the queue.
unfoldable pub take_node : Edges → NodeKind → List NodeKind → Sorting → Sorting
take_node edges node rest s =
    let (degrees, new_zero) = release (targets edges node) s.in_degree in
    record {
      in_degree = degrees;
      queue = rest ++ sort sorts_before new_zero;
      result = s.result ++ node ∷ [];
    }

-- `none` where the fuel runs out.
unfoldable pub sort_loop : Edges → ℕ → Sorting → Option (List NodeKind)
sort_loop edges zero s = none
sort_loop edges (suc fuel) s = elim s.queue [
  | [] ↦ some s.result
  | node ∷ rest ↦ sort_loop edges fuel (take_node edges node rest s)
]

-- The nodes that the loop starts with.
unfoldable pub begin_sort : Edges → Sorting
begin_sort edges =
    let degrees = count_edges edges [] in
    record { in_degree = degrees; queue = sort sorts_before (zero_in_degree degrees); result = [] }

-- There is a round for each node, and one to see the empty queue.
unfoldable pub topological_sort : Edges → Option (List NodeKind)
topological_sort edges =
    sort_loop edges (suc (length (keys (count_edges edges [])))) (begin_sort edges)
