-- ===== src/Graph/Reach/Correct.antt =====
-- The search sees exactly the nodes that can be reached.
use weavegraph.Base.{
  ℕ, zero, suc, ◌+◌, ◌≤◌, ◌≡◌, ◌≢◌, refl, subst, sym, ap, ◌⊎◌, ◌↔◌, inl, inr, true, List, [], ◌∷◌,
  In, arith, length, List-cases,
}
use weavegraph.Base.Map.{get, contains_key}
use weavegraph.Kind.{NodeKind, NodeKind-key}
use weavegraph.Graph.Reach.{Bfs, seen, scan, bfs, start_at, Reach, here, step}
use weavegraph.Graph.Reach.Scan.{
  seen-scan, queue-scan, unseen, unseen-le-length, in-queue-scan, same_unseen, work-scan,
  contains_key-put,
}

unseen_elsewhere : (root n : NodeKind) → root ≢ n → seen (start_at root) n ≢ true
unfolding start_at contains_key get
unseen_elsewhere root n other h = ground (arith, contains_key-put root n [])

no_queue : (s : Bfs) → length s.queue ≤ 0 → s.queue ≡ []
no_queue s few = elim (List-cases s.queue) [
  | inl e ↦ e
  | inr (n, rest, e) ↦ absurd (omega (arith, ap length e))
]

length-start : (root : NodeKind) → length (start_at root).queue ≡ 1
unfolding start_at
length-start root = refl

-- `all` holds every node that a step of `next` leads to.
module _ (next : NodeKind → List NodeKind) (root : NodeKind) (all : List NodeKind)
    (listed : (n m : NodeKind) → In m (next n) → In m all) where
  record Inv (s : Bfs) : Type 0 where
    source : seen s root ≡ true
    queued : (n : NodeKind) → In n s.queue → seen s n ≡ true
    sound : (n : NodeKind) → seen s n ≡ true → Reach next root n
    closed : (u v : NodeKind) → seen s u ≡ true → In v (next u) → In u s.queue ⊎ (seen s v ≡ true)

  Inv-start : Inv (start_at root)
  unfolding start_at
  Inv-start = record {
    source = ground (arith, contains_key-put root root []);
    queued = λ n i. ground (arith, contains_key-put root n []);
    sound = λ n h. elim (NodeKind-key.eq? root n) [
      | yes e ↦ subst (Reach next root) e here
      | no other ↦ absurd (unseen_elsewhere root n other h)
    ];
    closed = λ u v h e. elim (NodeKind-key.eq? root u) [
      | yes e ↦ inl (inl e)
      | no other ↦ absurd (unseen_elsewhere root u other h)
    ];
  }

  Inv-round :
      (s : Bfs) (n : NodeKind) (rest : List NodeKind)
      → s.queue ≡ n ∷ rest
      → Inv s
      → Inv (scan (next n) (record s { queue = rest }))
  Inv-round s n rest e h =
      let s' = record s { queue = rest } in
      let flags = λ (m : NodeKind). seen-scan (next n) s' m in
      let known = λ (m : NodeKind) (i : In m (n ∷ rest)). h.queued m (subst (In m) (sym e) i) in
      record {
        source = (flags root).1 (inl h.source);
        queued = λ m i.
            ground
              (arith, flags m, in-queue-scan (next n) s' m i, λ (j : In m rest). known m (inr j));
        sound = λ m k. elim ((flags m).0 k) [
          | inl old ↦ h.sound m old
          | inr edge ↦ step (h.sound n (known n (inl refl))) edge
        ];
        closed = λ u v k edge. ground (
          arith,
          flags u,
          flags v,
          queue-scan (next n) s' u,
          h.closed u v,
          λ (j : In u s.queue). in_queue u j,
          was_last u v edge,
        );
      }
    where
      in_queue : (u : NodeKind) → In u s.queue → In u (n ∷ rest)
      in_queue u j = subst (In u) e j

      was_last : (u v : NodeKind) → In v (next u) → n ≡ u → In v (next n)
      was_last u v edge same = rw same edge

  -- Enough fuel empties the queue.
  bfs-Inv :
      (fuel : ℕ) (s : Bfs)
      → unseen all s + length s.queue ≤ fuel
      → Inv s
      → Inv (bfs next fuel s) × ((bfs next fuel s).queue ≡ [])
  unfolding bfs
  bfs-Inv zero s few h = (h, no_queue s (omega arith))
  bfs-Inv (suc fuel) s few h = elim (List-cases s.queue) [
    | inl e ↦ rw (e, bfs) (h, e)
    | inr (n, rest, e) ↦
        rw (e, bfs)
          (bfs-Inv fuel (scan (next n) (record s { queue = rest }))
            (omega (
              arith,
              work-scan all (next n) (record s { queue = rest }) (listed n),
              ap length e,
              same_unseen all s rest,
            ))
            (Inv-round s n rest e h))
  ]

  complete : (s : Bfs) → Inv s → s.queue ≡ [] → {n : NodeKind} → Reach next root n → seen s n ≡ true
  complete s h e here = h.source
  complete s h e (step {u} {v} p edge) = elim (h.closed u v (complete s h e p) edge) [
    | inl waits ↦ absurd (subst (In u) e waits)
    | inr m ↦ m
  ]

  -- Whoever is seen at the end can be reached, and the other way round.
  pub bfs-Reach :
      (fuel : ℕ)
      → suc (length all) ≤ fuel
      → (n : NodeKind) → (seen (bfs next fuel (start_at root)) n ≡ true) ↔ Reach next root n
  bfs-Reach fuel enough n =
      let (inv, empty) =
        bfs-Inv fuel (start_at root)
          (omega (arith, unseen-le-length all (start_at root), length-start root)) Inv-start in
      (inv.sound n, complete (bfs next fuel (start_at root)) inv empty)
