-- ===== src/Graph/Cycle/Correct.antt =====
-- What the search finds is a cycle, and when it finds none there is none.
use mathlib.Core.WellFounded.{Acc}
use weavegraph.Base.{
  ℕ, zero, suc, ◌≡◌, refl, inl, inr, ◌∙◌, ap, subst, ◌≤◌, some, List, [], ◌∷◌, ◌++◌, drop, position,
  position-in, drop-position, arith, In, in-append, in-append_left, in-concat_self,
}
use weavegraph.Kind.{NodeKind, NodeKind-key}
use weavegraph.Graph.Edges.{Edges, targets, Edge, IsCycle, LinksTo, LinksTo-concat, LinksTo-drop}
use weavegraph.Graph.Cycle.{
  white, gray, black, Search, color, Outcome, found, done, out_of_fuel, ◌>>=◌, explore, dfs, enter,
  leave, search_from,
}
use weavegraph.Graph.Cycle.Whites.{whites, whites-Later, whites-enter, whites-pos}
use weavegraph.Graph.Cycle.Colors.{
  Color-cases, color-enter, color-leave, Later, Later-refl, Later-trans, Later-black, Later-leave,
}

-- `nodes` holds the target of every edge.
module _ (edges : Edges) (nodes : List NodeKind)
    (listed : (n m : NodeKind) → Edge edges n m → In m nodes) where
  -- `m` stands right behind `n`.
  abbrev pub Behind : NodeKind → NodeKind → Type 0
  Behind m n = Edge edges n m

  -- No endless walk leaves a black node, and the gray nodes stand on the path.
  pub record Inv (s : Search) : Type 0 where
    pub settled : (n : NodeKind) → color s n ≡ black → Acc Behind n
    pub on_path : (n : NodeKind) → color s n ≡ gray → In n s.path

  -- What a call says that ends in the state `t`, or that finds a cycle.
  abbrev pub Sound : (P : Search → Type 0) → Outcome → Type 0
  Sound P (found cycle) = IsCycle edges cycle
  Sound P (done t) = P t
  Sound P out_of_fuel = ⊥

  pub Sound-bind :
      (P Q : Search → Type 0) (r : Outcome) (f : Search → Outcome)
      → Sound P r
      → ((t : Search) → P t → Sound Q (f t))
      → Sound Q (r >>= f)
  Sound-bind P Q (found cycle) f h k = h
  Sound-bind P Q (done t) f h k = k t h
  Sound-bind P Q out_of_fuel f h k = h

  Sound-map :
      (P Q : Search → Type 0) (r : Outcome) → ((t : Search) → P t → Q t) → Sound P r → Sound Q r
  Sound-map P Q (found cycle) f h = h
  Sound-map P Q (done t) f h = f t h
  Sound-map P Q out_of_fuel f h = h

  pub record Visited (n : NodeKind) (s t : Search) : Type 0 where
    pub inv : Inv t
    pub later : Later s t
    pub finished : color t n ≡ black

  pub record Explored (ns : List NodeKind) (s t : Search) : Type 0 where
    pub inv : Inv t
    pub later : Later s t
    pub finished : (n : NodeKind) → In n ns → color t n ≡ black

  abbrev pub Visits : ℕ → (NodeKind → Search → Outcome) → Type 0
  Visits fuel visit =
      (n : NodeKind) (s : Search)
      → In n nodes
      → whites nodes s ≤ fuel
      → color s n ≡ white
      → Inv s
      → LinksTo edges s.path n
      → Sound (Visited n s) (visit n s)

  -- A gray neighbour closes a cycle.
  closes :
      (path : List NodeKind) (n : NodeKind) (i : ℕ)
      → LinksTo edges path n
      → position n path ≡ some i
      → IsCycle edges (drop i path ++ n ∷ [])
  closes path n i links e =
      let (rest, d) = drop-position n path i e in
      (n, rest, ap (λ l. l ++ n ∷ []) d, subst_links d (LinksTo-drop edges i path n links))
    where
      subst_links : {xs ys : List NodeKind} → xs ≡ ys → LinksTo edges xs n → LinksTo edges ys n
      subst_links e h = rw e at h

  module _ (fuel : ℕ) (visit : NodeKind → Search → Outcome) (visits : Visits fuel visit) where
    -- One neighbour is black, and the others follow.
    Explored-cons :
        (n : NodeKind) (ns : List NodeKind) (s t u : Search)
        → Visited n s t
        → Explored ns t u
        → Explored (n ∷ ns) s u
    Explored-cons n ns s t u v h = record {
      inv = h.inv;
      later = Later-trans v.later h.later;
      finished = λ m. elim [
        | inl e ↦ rw (← e) (Later-black h.later n v.finished)
        | inr i ↦ h.finished m i
      ];
    }

    LinksTo-Later :
        (ns : List NodeKind) (s t : Search)
        → Later s t
        → ((n : NodeKind) → In n ns → LinksTo edges s.path n)
        → (n : NodeKind) → In n ns
        → LinksTo edges t.path n
    LinksTo-Later ns s t l links n i = rw l.path (links n i)

    explore-Sound :
        (ns : List NodeKind) (s : Search)
        → whites nodes s ≤ fuel
        → ((n : NodeKind) → In n ns → In n nodes)
        → Inv s
        → ((n : NodeKind) → In n ns → LinksTo edges s.path n)
        → Sound (Explored ns s) (explore visit ns s)
    unfolding explore
    explore-Sound [] s few known inv links = record {
      inv = inv;
      later = Later-refl s;
      finished = λ m i. absurd i;
    }
    explore-Sound (n ∷ ns) s few known inv links = elim (Color-cases (color s n)) [
      | inl w ↦
          rw (w, explore)
            (Sound-bind (Visited n s) (Explored (n ∷ ns) s) (visit n s) (explore visit ns)
              (visits n s (known n (inl refl)) few w inv (links n (inl refl)))
              λ t v.
                Sound-map (Explored ns t) (Explored (n ∷ ns) s) (explore visit ns t)
                  (λ u. Explored-cons n ns s t u v)
                  (explore-Sound ns t (omega (arith, whites-Later nodes s t v.later))
                    (λ m i. known m (inr i)) v.inv
                    (LinksTo-Later ns s t v.later (λ m i. links m (inr i)))))
      | inr (inl g) ↦
          let (i, e) = position-in n s.path (inv.on_path n g) in
          rw (g, explore, e) (closes s.path n i (links n (inl refl)) e)
      | inr (inr b) ↦
          rw (b, explore)
            (Sound-map (Explored ns s) (Explored (n ∷ ns) s) (explore visit ns s)
              (λ u.
                Explored-cons n ns s s u (record { inv = inv; later = Later-refl s; finished = b }))
              (explore-Sound ns s few (λ m i. known m (inr i)) inv (λ m i. links m (inr i))))
    ]

  path-enter : (n : NodeKind) (s : Search) → (enter n s).path ≡ s.path ++ n ∷ []
  unfolding enter
  path-enter n s = refl

  Inv-enter : (n : NodeKind) (s : Search) → Inv s → Inv (enter n s)
  Inv-enter n s h = record {
    settled = λ m b. h.settled m (ground (arith, color-enter n m s));
    on_path = λ m g. rw (path-enter n s) (
        ground (
          arith,
          color-enter n m s,
          h.on_path m,
          in-concat_self n s.path,
          in-append_left m s.path (n ∷ []),
        ));
  }

  still_on_path :
      (n : NodeKind) (s t : Search) (m : NodeKind)
      → Explored (targets edges n) (enter n s) t
      → color (leave n t) m ≡ gray
      → In m s.path
  still_on_path n s t m h g = ground (
    arith,
    color-leave n m t,
    in-append m s.path (n ∷ []) (
        subst (In m) (h.later.path ∙ path-enter n s)
          (h.inv.on_path m (ground (arith, color-leave n m t)))),
  )

  Visited-leave :
      (n : NodeKind) (s t : Search)
      → color s n ≡ white
      → Explored (targets edges n) (enter n s) t
      → Visited n s (leave n t)
  Visited-leave n s t w h = record {
    inv = record {
      settled = λ m b. elim (NodeKind-key.eq? n m) [
        | yes e ↦ subst (Acc Behind) e (Acc.intro n (λ y i. h.inv.settled y (h.finished y i)))
        | no other ↦ h.inv.settled m (ground (arith, color-leave n m t))
      ];
      on_path = λ m g. rw (Later-leave n s t w h.later).path (still_on_path n s t m h g);
    };
    later = Later-leave n s t w h.later;
    finished = ground (arith, color-leave n n t);
  }

  pub dfs-Visits : (fuel : ℕ) → Visits fuel (dfs edges fuel)
  unfolding dfs
  dfs-Visits zero n s known few w inv links = absurd (omega (arith, whites-pos nodes n s known w))
  dfs-Visits (suc fuel) n s known few w inv links =
      Sound-bind (Explored (targets edges n) (enter n s)) (Visited n s)
        (explore (dfs edges fuel) (targets edges n) (enter n s)) (λ t. done (leave n t))
        (explore-Sound fuel (dfs edges fuel) (dfs-Visits fuel) (targets edges n) (enter n s)
          (omega (arith, whites-enter nodes n s known w)) (listed n) (Inv-enter n s inv)
          λ m i. rw (path-enter n s) (LinksTo-concat edges s.path n m links i))
        (λ t h. Visited-leave n s t w h)

  -- The loop over the roots: the path is empty between two of them, so no node is gray.
  pub search_from-Sound :
      (fuel : ℕ) (visit : NodeKind → Search → Outcome)
      → Visits fuel visit
      → (ns : List NodeKind) (s : Search) → whites nodes s ≤ fuel
      → ((n : NodeKind) → In n ns → In n nodes)
      → s.path ≡ []
      → Inv s
      → Sound (Explored ns s) (search_from visit ns s)
  unfolding search_from
  search_from-Sound fuel visit visits [] s few known root inv = record {
    inv = inv;
    later = Later-refl s;
    finished = λ m i. absurd i;
  }
  search_from-Sound fuel visit visits (n ∷ ns) s few known root inv =
      elim (Color-cases (color s n)) [
        | inl w ↦
            rw (w, search_from)
              (Sound-bind (Visited n s) (Explored (n ∷ ns) s) (visit n s) (search_from visit ns)
                (visits n s (known n (inl refl)) few w inv (rw root tt))
                λ t v.
                  Sound-map (Explored ns t) (Explored (n ∷ ns) s) (search_from visit ns t)
                    (λ u. Explored-cons fuel visit visits n ns s t u v)
                    (search_from-Sound fuel visit visits ns t
                      (omega (arith, whites-Later nodes s t v.later)) (λ m i. known m (inr i))
                      (v.later.path ∙ root) v.inv))
        | inr (inl g) ↦ absurd (rw root at (inv.on_path n g))
        | inr (inr b) ↦
            rw (b, search_from)
              (Sound-map (Explored ns s) (Explored (n ∷ ns) s) (search_from visit ns s)
                (λ u.
                  Explored-cons fuel visit visits n ns s s u
                    (record { inv = inv; later = Later-refl s; finished = b }))
                (search_from-Sound fuel visit visits ns s few (λ m i. known m (inr i)) root inv))
      ]
