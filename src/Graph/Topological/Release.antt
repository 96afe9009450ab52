-- ===== src/Graph/Topological/Release.antt =====
-- What the loop over the neighbours of a node does to the degrees.
use weavegraph.Base.{
  ℕ, ◌-◌, ◌≤◌, ◌≡◌, ◌↔◌, inl, inr, some, Option-cases, Bool, true, false, List, [], ◌∷◌, In,
  IsDistinct, if◌then◌else◌, ◌==◌, ℕ-key, arith,
}
use weavegraph.Base.Map.{get, put, get-put, keys, get-in, in-keys-put}
use weavegraph.Kind.{NodeKind, NodeKind-key}
use weavegraph.Graph.Topological.{Degrees, release}
use weavegraph.Graph.Topological.Pending.{count, count-zero, count-pos}

-- A degree falls by the number of times that the node stands in the list.
pub get-release :
    (ns : List NodeKind) (m : Degrees) (v : NodeKind) (d : ℕ)
    → get v m ≡ some d
    → get v (release ns m).0 ≡ some (d - count v ns)
unfolding release
get-release [] m v d h = rw h (ground arith)
get-release (n ∷ ns) m v d h = elim (Option-cases (get n m)) [
  | inl absent ↦ rw (absent, release) (ground (arith, get-release ns m v d))
  | inr (deg, found) ↦
      rw (found, release)
        (ground (
          arith,
          get-release ns (put n (deg - 1) m) v (if n == v then deg - 1 else d),
          get-put n v (deg - 1) m,
        ))
]

-- Where no degree is smaller than that number, the kept nodes are those that reach zero.
pub in-release :
    (ns : List NodeKind) (m : Degrees) (v : NodeKind) (d : ℕ)
    → get v m ≡ some d
    → count v ns ≤ d
    → In v (release ns m).1 ↔ (In v ns × (d ≡ count v ns))
unfolding release
in-release [] m v d h le = ground arith
in-release (n ∷ ns) m v d h le = elim (Option-cases (get n m)) [
  | inl absent ↦ rw (absent, release) (ground (arith, in-release ns m v d))
  | inr (deg, found) ↦
      rw (found, release)
        (ground (
          arith,
          in-release ns (put n (deg - 1) m) v (if n == v then deg - 1 else d),
          get-put n v (deg - 1) m,
          count-pos v ns,
          count-zero v ns,
        ))
]

-- No degree of the list's nodes is smaller than the number of times that the node stands there.
abbrev pub Suffices : List NodeKind → Degrees → Type 0
Suffices ns m = (v : NodeKind) (d : ℕ) → get v m ≡ some d → count v ns ≤ d

Suffices-put :
    (n : NodeKind) (ns : List NodeKind) (m : Degrees) (deg : ℕ)
    → get n m ≡ some deg
    → Suffices (n ∷ ns) m
    → Suffices ns (put n (deg - 1) m)
Suffices-put n ns m deg found h v d g = ground (arith, get-put n v (deg - 1) m, h v d, h n deg)

pub release-IsDistinct :
    (ns : List NodeKind) (m : Degrees) → Suffices ns m → IsDistinct (release ns m).1
unfolding release
release-IsDistinct [] m h = tt
release-IsDistinct (n ∷ ns) m h = elim (Option-cases (get n m)) [
  | inl absent ↦ rw (absent, release) (release-IsDistinct ns m (λ v d g. omega (arith, h v d g)))
  | inr (deg, found) ↦
      rw (found, release)
        (ground (
          arith,
          release-IsDistinct ns (put n (deg - 1) m) (Suffices-put n ns m deg found h),
          in-release ns (put n (deg - 1) m) n (deg - 1),
          get-put n n (deg - 1) m,
          Suffices-put n ns m deg found h n (deg - 1),
          count-zero n ns,
        ))
]

-- The nodes that have a degree stay the same, and only nodes of the list are kept.
pub in-keys-release :
    (ns : List NodeKind) (m : Degrees) (v : NodeKind) → In v (keys (release ns m).0) → In v (keys m)
unfolding release
in-keys-release [] m v i = i
in-keys-release (n ∷ ns) m v i = elim (Option-cases (get n m)) [
  | inl absent ↦ in-keys-release ns m v (rw (absent, release) at i)
  | inr (deg, found) ↦ ground (
    arith,
    in-keys-release ns (put n (deg - 1) m) v (rw (found, release) at i),
    in-keys-put n v (deg - 1) m,
    get-in n deg m,
  )
]

pub in-release_list :
    (ns : List NodeKind) (m : Degrees) (v : NodeKind) → In v (release ns m).1 → In v ns
unfolding release
in-release_list [] m v i = i
in-release_list (n ∷ ns) m v i = elim (Option-cases (get n m)) [
  | inl absent ↦ inr (in-release_list ns m v (rw (absent, release) at i))
  | inr (deg, found) ↦
      kept _ (in-release_list ns (put n (deg - 1) m) v) (deg - 1 == 0) (rw (found, release) at i)
]
  where
    kept :
        (zs : List NodeKind)
        → (In v zs → In v ns)
        → (b : Bool) → In v (if b then n ∷ zs else zs)
        → In v (n ∷ ns)
    kept zs f true (inl e) = inl e
    kept zs f true (inr j) = inr (f j)
    kept zs f false j = inr (f j)
