-- ===== src/Graph/Compile/Reachable.antt =====
-- The nodes that the two reachability checks report.
use weavegraph.Base.{
  suc, ◌≡◌, ◌⊎◌, ◌↔◌, inl, inr, true, not, List, [], ◌∷◌, ◌++◌, In, if◌then◌else◌, ◌==◌, arith,
  length, in-filter, in-filter_of, in-append, in-append_left, in-append_right, in-concat_self,
  Bool-cases,
}
use weavegraph.Base.Map.{get, get-put, keys, IsMap}
use weavegraph.Base.Sort.{in-sort, in-sort_of}
use weavegraph.Kind.{NodeKind, NodeKind-key, start, end, display_le}
use weavegraph.Graph.Edges.{Edges, targets, Edge, Walk, Walk-trans, source-in-keys}
use weavegraph.Graph.Builder.{push_edge}
use weavegraph.Graph.Reach.{seen, bfs, start_at, Reach}
use weavegraph.Graph.Reach.Correct.{bfs-Reach}
use weavegraph.Graph.Compile.{
  endpoints, missed, detect_unreachable_nodes, push_reversed, reverse_into, reverse_edges,
  detect_no_path_to_end,
}

missed_lem :
    (next : NodeKind → List NodeKind) (root : NodeKind) (all : List NodeKind)
    → ((n m : NodeKind) → In m (next n) → In m all)
    → (nodes : List NodeKind) (n : NodeKind)
    → In n (missed next root (suc (length all)) nodes) ↔ (In n nodes × (¬ Reach next root n))
unfolding missed
missed_lem next root all listed nodes n =
    let unseen = λ (m : NodeKind). not (seen (bfs next (suc (length all)) (start_at root)) m) in
    let walks = bfs-Reach next root all listed (suc (length all)) (omega arith) n in
    (
      λ i.
          let (known, fails) = in-filter unseen n nodes (in-sort display_le n _ i) in
          (known, λ r. ground (arith, walks.1 r, fails)),
      λ h.
          in-sort_of display_le n _
            (in-filter_of unseen n nodes h.0 (not_seen n (λ e. h.1 (walks.0 e)))),
    )
  where
    not_seen :
        (n : NodeKind)
        → ¬ (seen (bfs next (suc (length all)) (start_at root)) n ≡ true)
        → not (seen (bfs next (suc (length all)) (start_at root)) n) ≡ true
    not_seen n h = ground arith

-- A registered node is reported or reached.
missed_or_reached :
    (next : NodeKind → List NodeKind) (root : NodeKind) (all : List NodeKind)
    → ((n m : NodeKind) → In m (next n) → In m all)
    → (nodes : List NodeKind) (n : NodeKind) → In n nodes
    → In n (missed next root (suc (length all)) nodes) ⊎ Reach next root n
unfolding missed
missed_or_reached next root all listed nodes n known =
    let unseen = λ (m : NodeKind). not (seen (bfs next (suc (length all)) (start_at root)) m) in
    let walks = bfs-Reach next root all listed (suc (length all)) (omega arith) n in
    elim (Bool-cases (seen (bfs next (suc (length all)) (start_at root)) n)) [
      | inl e ↦ inr (walks.0 e)
      | inr e ↦ inl (in-sort_of display_le n _ (in-filter_of unseen n nodes known (rw e)))
    ]

Reach→Walk : {edges : Edges} {root n : NodeKind} → Reach (targets edges) root n → Walk edges root n
Reach→Walk Reach.here = Walk.here
Reach→Walk (Reach.step p e) = Walk.step (Reach→Walk p) e

Walk→Reach : {edges : Edges} {root n : NodeKind} → Walk edges root n → Reach (targets edges) root n
Walk→Reach Walk.here = Reach.here
Walk→Reach (Walk.step p e) = Reach.step (Walk→Reach p) e

targets-endpoints : (edges : Edges) (n m : NodeKind) → Edge edges n m → In m (endpoints edges)
unfolding targets get
targets-endpoints [] n m e = absurd e
targets-endpoints ((from, tos) ∷ edges) n m e = ground (
  arith,
  in-append_left m tos (endpoints edges),
  in-append_right m tos (endpoints edges),
  targets-endpoints edges n m,
)

sources-endpoints : (edges : Edges) (n : NodeKind) → In n (keys edges) → In n (endpoints edges)
sources-endpoints [] n i = absurd i
sources-endpoints ((from, tos) ∷ edges) n i =
    ground (arith, in-append_right n tos (endpoints edges), sources-endpoints edges n)

-- The unreachable nodes that are reported are exactly the registered nodes with no walk from Start.
pub detect_unreachable_nodes-exact :
    (nodes : List NodeKind) (edges : Edges) (n : NodeKind)
    → In n (detect_unreachable_nodes nodes edges) ↔ (In n nodes × (¬ Walk edges start n))
unfolding detect_unreachable_nodes
detect_unreachable_nodes-exact nodes edges n =
    let exact =
      missed_lem (targets edges) start (endpoints edges) (targets-endpoints edges) nodes n in
    (
      λ i. ((exact.0 i).0, λ w. (exact.0 i).1 (Walk→Reach w)),
      λ h. exact.1 (h.0, λ r. h.1 (Reach→Walk r)),
    )

pub reported_or_Walk :
    (nodes : List NodeKind) (edges : Edges) (n : NodeKind)
    → In n nodes
    → In n (detect_unreachable_nodes nodes edges) ⊎ Walk edges start n
unfolding detect_unreachable_nodes
reported_or_Walk nodes edges n known =
    elim (missed_or_reached (targets edges) start (endpoints edges) (targets-endpoints edges) nodes
      n known) [ inl i ↦ inl i | inr r ↦ inr (Reach→Walk r) ]

pub targets-push_edge :
    (from to n : NodeKind) (edges : Edges)
    → targets (push_edge from to edges) n
      ≡ (if from == n then targets edges from ++ to ∷ [] else targets edges n)
unfolding targets push_edge
targets-push_edge from to n edges =
    ground (arith, get-put from n (targets edges from ++ to ∷ []) edges)

in-push_reversed :
    (from : NodeKind) (tos : List NodeKind) (reverse : Edges) (u v : NodeKind)
    → In u (targets (push_reversed from tos reverse) v)
      ↔ (In u (targets reverse v) ⊎ (from ≡ u) × In v tos)
unfolding push_reversed
in-push_reversed from [] reverse u v = ground arith
in-push_reversed from (to ∷ tos) reverse u v = ground (
  arith,
  in-push_reversed from tos (push_edge to from reverse) u v,
  targets-push_edge to from v reverse,
  in-append u (targets reverse to) (from ∷ []),
  in-append_left u (targets reverse to) (from ∷ []),
  in-concat_self from (targets reverse to),
)

in-reverse_into :
    (edges reverse : Edges) (u v : NodeKind)
    → IsMap edges
    → In u (targets (reverse_into edges reverse) v) ↔ (In u (targets reverse v) ⊎ Edge edges u v)
unfolding reverse_into targets get
in-reverse_into [] reverse u v h = ground arith
in-reverse_into ((from, tos) ∷ edges) reverse u v h = ground (
  arith,
  in-reverse_into edges (push_reversed from tos reverse) u v,
  in-push_reversed from tos reverse u v,
  source-in-keys edges u v,
)

pub no_targets : (u v : NodeKind) → ¬ In u (targets [] v)
unfolding targets get
no_targets u v i = i

in-reverse_edges :
    (edges : Edges) (u v : NodeKind)
    → IsMap edges
    → In u (targets (reverse_edges edges) v) ↔ Edge edges u v
in-reverse_edges edges u v h =
    let both = in-reverse_into edges [] u v h in
    (
      λ i. elim (both.0 i) [ inl old ↦ absurd (no_targets u v old) | inr e ↦ e ],
      λ e. both.1 (inr e),
    )

-- A step against the edges is an edge in front of a walk.
reversed→Walk :
    {edges : Edges} {n : NodeKind}
    → IsMap edges
    → Reach (targets (reverse_edges edges)) end n
    → Walk edges n end
reversed→Walk h Reach.here = Walk.here
reversed→Walk {edges} h (Reach.step {u} {v} p e) =
    Walk-trans edges (Walk.step Walk.here ((in-reverse_edges edges v u h).0 e)) (reversed→Walk h p)

-- A walk extends a reversed walk backwards.
Walk→reversed :
    {edges : Edges} {n k : NodeKind}
    → IsMap edges
    → Walk edges n k
    → Reach (targets (reverse_edges edges)) end k
    → Reach (targets (reverse_edges edges)) end n
Walk→reversed h Walk.here r = r
Walk→reversed {edges} h (Walk.step {u} {v} p e) r =
    Walk→reversed h p (Reach.step r ((in-reverse_edges edges u v h).1 e))

reversed-endpoints :
    (edges : Edges)
    → IsMap edges
    → (v u : NodeKind) → In u (targets (reverse_edges edges) v)
    → In u (endpoints edges)
reversed-endpoints edges h v u i =
    sources-endpoints edges u (source-in-keys edges u v ((in-reverse_edges edges u v h).0 i))

pub reported_or_Walk_to_end :
    (nodes : List NodeKind) (edges : Edges) (n : NodeKind)
    → IsMap edges
    → In n nodes
    → In n (detect_no_path_to_end nodes edges) ⊎ Walk edges n end
unfolding detect_no_path_to_end
reported_or_Walk_to_end nodes edges n h known =
    elim (missed_or_reached (targets (reverse_edges edges)) end (endpoints edges)
      (reversed-endpoints edges h) nodes n known) [
        | inl i ↦ inl i
        | inr r ↦ inr (reversed→Walk h r)
      ]

-- The nodes that are reported to have no path to End are exactly the registered nodes with no walk
-- to End. The edges are those of a map, in which a source stands once.
pub detect_no_path_to_end-exact :
    (nodes : List NodeKind) (edges : Edges) (n : NodeKind)
    → IsMap edges
    → In n (detect_no_path_to_end nodes edges) ↔ (In n nodes × (¬ Walk edges n end))
unfolding detect_no_path_to_end
detect_no_path_to_end-exact nodes edges n h =
    let exact =
      missed_lem (targets (reverse_edges edges)) end (endpoints edges) (reversed-endpoints edges h)
        nodes n in
    (
      λ i. ((exact.0 i).0, λ w. (exact.0 i).1 (Walk→reversed h w Reach.here)),
      λ k. exact.1 (k.0, λ r. k.1 (reversed→Walk h r)),
    )
