-- ===== src/Graph/Reach/Scan.antt =====
-- One round of the breadth-first search.
use weavegraph.Base.{
  ℕ, suc, ◌+◌, ◌≤◌, ◌≡◌, refl, ◌⊎◌, ◌↔◌, inl, inr, Bool, true, false, List, [], ◌∷◌, ◌++◌, In,
  if◌then◌else◌, ◌==◌, arith, length, length-append, in-append, in-append_left, in-concat_self,
}
use weavegraph.Base.Map.{Map, put, contains_key, get-put}
use weavegraph.Kind.{NodeKind, NodeKind-key}
use weavegraph.Graph.Reach.{Bfs, seen, offer, scan}

pub contains_key-put :
    (k j : NodeKind) (m : Map NodeKind Bool)
    → contains_key j (put k true m) ≡ (if k == j then true else contains_key j m)
unfolding contains_key
contains_key-put k j m = ground (arith, get-put k j true m)

-- The nodes of the list that are not seen yet.
pub unseen : List NodeKind → Bfs → ℕ
unseen [] s = 0
unseen (n ∷ ns) s = if seen s n then unseen ns s else suc (unseen ns s)

pub unseen-le-length : (ns : List NodeKind) (s : Bfs) → unseen ns s ≤ length ns
unfolding unseen
unseen-le-length [] s = omega arith
unseen-le-length (n ∷ ns) s = ground (arith, unseen-le-length ns s)

-- `scan` sees the nodes of the list and no other new ones, and queues those that are new.
pub seen-scan :
    (ns : List NodeKind) (s : Bfs) (m : NodeKind)
    → (seen (scan ns s) m ≡ true) ↔ ((seen s m ≡ true) ⊎ In m ns)
unfolding scan
seen-scan [] s m = ground arith
seen-scan (n ∷ ns) s m =
    ground (arith, seen-scan ns (offer n s) m, contains_key-put n m s.reachable)

pub queue-scan :
    (ns : List NodeKind) (s : Bfs) (m : NodeKind)
    → In m s.queue ⊎ (seen (scan ns s) m ≡ true) × (seen s m ≡ false)
    → In m (scan ns s).queue
unfolding scan
queue-scan [] s m h = ground arith
queue-scan (n ∷ ns) s m h = ground (
  arith,
  queue-scan ns (offer n s) m,
  contains_key-put n m s.reachable,
  in-append_left m s.queue (n ∷ []),
  in-concat_self n s.queue,
)

unseen-put-le :
    (ns : List NodeKind) (n : NodeKind) (s : Bfs) (queue : List NodeKind)
    → unseen ns (record { reachable = put n true s.reachable; queue = queue }) ≤ unseen ns s
unfolding unseen
unseen-put-le [] n s queue = omega arith
unseen-put-le (m ∷ ns) n s queue =
    ground (arith, contains_key-put n m s.reachable, unseen-put-le ns n s queue)

unseen-put :
    (ns : List NodeKind) (n : NodeKind) (s : Bfs) (queue : List NodeKind)
    → In n ns
    → seen s n ≡ false
    → suc (unseen ns (record { reachable = put n true s.reachable; queue = queue })) ≤ unseen ns s
unfolding unseen
unseen-put [] n s queue i h = absurd i
unseen-put (m ∷ ns) n s queue i h =
    ground
      (arith, contains_key-put n m s.reachable, unseen-put-le ns n s queue, unseen-put ns n s queue)

pub same_unseen :
    (ns : List NodeKind) (s : Bfs) (queue : List NodeKind)
    → unseen ns (record s { queue = queue }) ≡ unseen ns s
unfolding unseen
same_unseen [] s queue = refl
same_unseen (n ∷ ns) s queue = ground (arith, same_unseen ns s queue)

-- A node is queued only when it is first seen.
pub work-scan :
    (all ns : List NodeKind) (s : Bfs)
    → ((n : NodeKind) → In n ns → In n all)
    → unseen all (scan ns s) + length (scan ns s).queue ≤ unseen all s + length s.queue
unfolding scan
work-scan all [] s known = omega arith
work-scan all (n ∷ ns) s known = ground (
  arith,
  work-scan all ns (offer n s) (λ m i. known m (inr i)),
  known n (inl refl),
  unseen-put all n s (s.queue ++ n ∷ []),
  length-append s.queue (n ∷ []),
)

pub in-queue-scan :
    (ns : List NodeKind) (s : Bfs) (m : NodeKind) → In m (scan ns s).queue → In m s.queue ⊎ In m ns
unfolding scan
in-queue-scan [] s m h = inl h
in-queue-scan (n ∷ ns) s m h =
    ground (arith, in-queue-scan ns (offer n s) m, in-append m s.queue (n ∷ []))
