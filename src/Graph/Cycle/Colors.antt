-- ===== src/Graph/Cycle/Colors.antt =====
-- How the colours change.
use weavegraph.Base.{
  ◌≡◌, refl, ◌⊎◌, inl, inr, drop_last, drop_last-concat, if◌then◌else◌, ◌==◌, arith, ap, ◌∙◌,
}
use weavegraph.Base.Map.{get-put}
use weavegraph.Kind.{NodeKind, NodeKind-key}
use weavegraph.Graph.Cycle.{Color, white, gray, black, Search, color, paint, enter, leave}

pub Color-cases : (c : Color) → (c ≡ white) ⊎ ((c ≡ gray) ⊎ (c ≡ black))
Color-cases white = inl refl
Color-cases gray = inr (inl refl)
Color-cases black = inr (inr refl)

pub color-paint :
    (k m : NodeKind) (c : Color) (s : Search)
    → color (paint k c s) m ≡ (if k == m then c else color s m)
unfolding color paint
color-paint k m c s = ground (arith, get-put k m c s.colors)

pub color-enter :
    (k m : NodeKind) (s : Search) → color (enter k s) m ≡ (if k == m then gray else color s m)
unfolding color enter
color-enter k m s = ground (arith, get-put k m gray s.colors)

pub color-leave :
    (k m : NodeKind) (s : Search) → color (leave k s) m ≡ (if k == m then black else color s m)
unfolding color leave
color-leave k m s = ground (arith, get-put k m black s.colors)

-- A call leaves the path alone, and only turns white nodes black.
pub record Later (s t : Search) : Type 0 where
  pub path : t.path ≡ s.path
  pub node : (m : NodeKind) → (color t m ≡ color s m) ⊎ (color s m ≡ white) × (color t m ≡ black)

pub Later-refl : (s : Search) → Later s s
Later-refl s = record { path = refl; node = λ m. inl refl }

pub Later-trans : {s t u : Search} → Later s t → Later t u → Later s u
Later-trans h k = record {
  path = cc (h.path, k.path);
  node = λ m. ground (arith, h.node m, k.node m);
}

pub Later-black :
    {s t : Search} → Later s t → (m : NodeKind) → color s m ≡ black → color t m ≡ black
Later-black h m e = ground (arith, h.node m)

path-leave : (n : NodeKind) (s t : Search) → t.path ≡ (enter n s).path → (leave n t).path ≡ s.path
unfolding enter leave
path-leave n s t h = ap drop_last h ∙ drop_last-concat s.path n

-- Between `enter` and `leave` of a white node lie calls for its neighbours.
pub Later-leave :
    (n : NodeKind) (s t : Search) → color s n ≡ white → Later (enter n s) t → Later s (leave n t)
Later-leave n s t w h = record {
  path = path-leave n s t h.path;
  node = λ m. ground (arith, h.node m, color-enter n m s, color-leave n m t);
}
