-- ===== src/Graph/Edges.antt =====
-- The unconditional edges of a graph (src/graphs/builder.rs), and the walks along them.
use weavegraph.Base.{ℕ, ◌≡◌, none, some, List, [], ◌∷◌, ◌++◌, drop, In, arith, zero, suc}
use weavegraph.Base.Map.{Map, get, keys}
use weavegraph.Kind.{NodeKind, NodeKind-key}

abbrev pub Edges : Type 0
Edges = Map NodeKind (List NodeKind)

-- `edges.get(from).cloned().unwrap_or_default()`.
unfoldable pub targets : Edges → NodeKind → List NodeKind
targets edges from = elim (get from edges) [ none ↦ [] | some tos ↦ tos ]

abbrev pub Edge : Edges → NodeKind → NodeKind → Type 0
Edge edges from to = In to (targets edges from)

-- The walks from `from`, the empty one included.
pub data Walk (edges : Edges) (from : NodeKind) : NodeKind → Type 0 where
  here : Walk edges from from
  step : {u v : NodeKind} → Walk edges from u → Edge edges u v → Walk edges from v

-- A walk of at least one edge back to where it began.
abbrev pub OnCycle : Edges → NodeKind → Type 0
OnCycle edges n = (m : NodeKind) × Edge edges n m × Walk edges m n

abbrev pub first : List NodeKind → NodeKind → NodeKind
first [] n = n
first (x ∷ xs) n = x

-- The list is a walk whose last node has an edge to `n`.
abbrev pub LinksTo : Edges → List NodeKind → NodeKind → Type 0
LinksTo edges [] n = Unit
LinksTo edges (x ∷ xs) n = Edge edges x (first xs n) × LinksTo edges xs n

-- The list begins and ends with one node, and each of its nodes has an edge to the next.
abbrev pub IsCycle : Edges → List NodeKind → Type 0
IsCycle edges cycle =
    (n : NodeKind) × (rest : List NodeKind) × (cycle ≡ n ∷ (rest ++ n ∷ []))
    × LinksTo edges (n ∷ rest) n

module _ (edges : Edges) where
  pub LinksTo-concat :
      (xs : List NodeKind) (a b : NodeKind)
      → LinksTo edges xs a
      → Edge edges a b
      → LinksTo edges (xs ++ a ∷ []) b
  LinksTo-concat [] a b h e = (e, tt)
  LinksTo-concat (x ∷ []) a b h e = (h.0, (e, tt))
  LinksTo-concat (x ∷ y ∷ xs) a b h e = (h.0, LinksTo-concat (y ∷ xs) a b h.1 e)

  pub LinksTo-drop :
      (i : ℕ) (xs : List NodeKind) (n : NodeKind) → LinksTo edges xs n → LinksTo edges (drop i xs) n
  LinksTo-drop zero xs n h = h
  LinksTo-drop (suc i) [] n h = h
  LinksTo-drop (suc i) (x ∷ xs) n h = LinksTo-drop i xs n h.1

  pub Walk-trans : {a b c : NodeKind} → Walk edges a b → Walk edges b c → Walk edges a c
  Walk-trans p here = p
  Walk-trans p (step q e) = step (Walk-trans p q) e

  LinksTo-Walk :
      (n : NodeKind) (xs : List NodeKind) (m : NodeKind)
      → LinksTo edges (n ∷ xs) m
      → (k : NodeKind) × Edge edges n k × Walk edges k m
  LinksTo-Walk n [] m h = (m, h.0, here)
  LinksTo-Walk n (x ∷ xs) m h =
      let (k, e, p) = LinksTo-Walk x xs m h.1 in (x, h.0, Walk-trans (step here e) p)

  -- A node at which a cycle begins has a walk of one edge or more back to itself.
  pub IsCycle-OnCycle :
      (n : NodeKind) (rest : List NodeKind) → LinksTo edges (n ∷ rest) n → OnCycle edges n
  IsCycle-OnCycle n rest h = LinksTo-Walk n rest n h

pub source-in-keys : (edges : Edges) (n m : NodeKind) → Edge edges n m → In n (keys edges)
unfolding targets get
source-in-keys [] n m e = absurd e
source-in-keys ((from, tos) ∷ edges) n m e = ground (arith, source-in-keys edges n m)
