-- ===== src/Graph/Cycle/Whites.antt =====
-- The white nodes: the measure that bounds the depth of the search.
use weavegraph.Base.{ℕ, suc, ◌≡◌, ◌≤◌, ◌<◌, List, [], ◌∷◌, length, if◌then◌else◌, arith, In}
use weavegraph.Kind.{NodeKind, NodeKind-key}
use weavegraph.Graph.Cycle.{white, is_white, Search, color, enter}
use weavegraph.Graph.Cycle.Colors.{Later, color-enter}

pub whites : List NodeKind → Search → ℕ
whites [] s = 0
whites (n ∷ ns) s = if is_white (color s n) then suc (whites ns s) else whites ns s

pub whites-le-length : (ns : List NodeKind) (s : Search) → whites ns s ≤ length ns
unfolding whites
whites-le-length [] s = omega arith
whites-le-length (n ∷ ns) s = ground (arith, whites-le-length ns s)

pub whites-Later : (ns : List NodeKind) (s t : Search) → Later s t → whites ns t ≤ whites ns s
unfolding whites
whites-Later [] s t h = omega arith
whites-Later (n ∷ ns) s t h = ground (arith, h.node n, whites-Later ns s t h)

whites-enter-le :
    (ns : List NodeKind) (n : NodeKind) (s : Search) → whites ns (enter n s) ≤ whites ns s
unfolding whites
whites-enter-le [] n s = omega arith
whites-enter-le (m ∷ ns) n s = ground (arith, color-enter n m s, whites-enter-le ns n s)

pub whites-enter :
    (ns : List NodeKind) (n : NodeKind) (s : Search)
    → In n ns
    → color s n ≡ white
    → whites ns (enter n s) < whites ns s
unfolding whites
whites-enter [] n s i w = absurd i
whites-enter (m ∷ ns) n s i w =
    ground (arith, color-enter n m s, whites-enter-le ns n s, whites-enter ns n s)

pub whites-pos :
    (ns : List NodeKind) (n : NodeKind) (s : Search) → In n ns → color s n ≡ white → 0 < whites ns s
whites-pos ns n s i w = omega (arith, whites-enter ns n s i w)
