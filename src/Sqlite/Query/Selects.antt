-- ===== src/Sqlite/Query/Selects.antt =====
-- The rows that `query_steps` of the SQLite checkpointer selects, and their order.
use Prim.Native.String.{◌++◌ as append_text}
use weavegraph.Base.{
  ℕ, ◌≤◌, ◌<◌, ◌^◌, String, String-key, ◌≡◌, ◌↔◌, refl, sym, ◌∙◌, Bool, true, false, Option, none,
  some, List, ◌&&◌, In, leb, leb_i64, leb_i64-leb, signed_place, same-test, test-same, arith,
}
use weavegraph.Base.Sort.{sort, in-sort, IsOrdered, IsOrdered-of, sort-IsOrdered}
use weavegraph.Kind.{encode}
use weavegraph.Sqlite.{StepRow}
use weavegraph.Sqlite.Query.{StepQuery, HasI64, holds, meets}

-- What a bound or a node that is given demands.
abbrev pub Demands {ℓ} : {A : Type ℓ} → Option A → (A → Type 0) → Type 0
Demands none P = Unit
Demands (some a) P = P a

-- The rows that a query selects.
abbrev pub IsSelected : (String → String → Bool) → String → StepQuery → StepRow → Type 0
IsSelected like id query row =
    (row.session_id ≡ id)
    × Demands query.min_step (λ n. n ≤ row.step)
    × Demands query.max_step (λ n. row.step ≤ n)
    × Demands query.ran_node
        (λ k. like (append_text "%" (append_text (encode k) "%")) row.columns.ran_nodes_json ≡ true)
    × Demands query.skipped_node (λ k.
      like (append_text "%" (append_text (encode k) "%")) row.columns.skipped_nodes_json ≡ true)

and_iff : (a b : Bool) → ((a && b) ≡ true) ↔ ((a ≡ true) × (b ≡ true))
and_iff true b = (λ h. (refl, h), λ h. h.1)
and_iff false b = (λ h. absurd cc, λ h. h.0)

leb_iff : (a b : ℕ) → (leb a b ≡ true) ↔ (a ≤ b)
leb_iff a b = (λ h. ground arith, λ h. ground arith)

leb_i64_iff : (a b : ℕ) → a < 2 ^ 63 → b < 2 ^ 63 → (leb_i64 a b ≡ true) ↔ (a ≤ b)
leb_i64_iff a b ha hb =
    let same = leb_i64-leb a b ha hb in
    (λ h. (leb_iff a b).0 (sym same ∙ h), λ h. same ∙ (leb_iff a b).1 h)

holds_bound :
    (bound : Option ℕ) (f : ℕ → Bool) (P : ℕ → Type 0)
    → HasI64 bound
    → ((n : ℕ) → n < 2 ^ 63 → (f n ≡ true) ↔ P n)
    → (holds bound f ≡ true) ↔ Demands bound P
holds_bound none f P small same = (λ h. tt, λ h. refl)
holds_bound (some n) f P small same = same n small

holds_any :
    {A : Type 0} (o : Option A) (f : A → Bool) → (holds o f ≡ true) ↔ Demands o (λ a. f a ≡ true)
holds_any none f = (λ h. tt, λ h. refl)
holds_any (some a) f = (λ h. h, λ h. h)

pub meets-IsSelected :
    (like : String → String → Bool) (id : String) (query : StepQuery) (row : StepRow)
    → row.step < 2 ^ 63
    → HasI64 query.min_step
    → HasI64 query.max_step
    → (meets like id query row ≡ true) ↔ IsSelected like id query row
unfolding meets
meets-IsSelected like id query row small least most =
    let (min_to, min_of) =
      holds_bound query.min_step (λ n. leb_i64 n row.step) (λ n. n ≤ row.step) least
        (λ n h. leb_i64_iff n row.step h small) in
    let (max_to, max_of) =
      holds_bound query.max_step (λ n. leb_i64 row.step n) (λ n. row.step ≤ n) most
        (λ n h. leb_i64_iff row.step n small h) in
    let (ran_to, ran_of) = holds_any query.ran_node _ in
    let (skipped_to, skipped_of) = holds_any query.skipped_node _ in
    (
      λ h.
          let (rest1, skipped) = (and_iff _ _).0 h in
          let (rest2, ran) = (and_iff _ _).0 rest1 in
          let (rest3, high) = (and_iff _ _).0 rest2 in
          let (session, low) = (and_iff _ _).0 rest3 in
          (
            same-test row.session_id id session,
            min_to low,
            max_to high,
            ran_to ran,
            skipped_to skipped,
          ),
      λ (session, low, high, ran, skipped). (and_iff _ _).1 (
        (and_iff _ _).1 (
          (and_iff _ _).1
              ((and_iff _ _).1 (test-same row.session_id id session, min_of low), max_of high),
          ran_of ran,
        ),
        skipped_of skipped,
      ),
    )

leb_total : (a b : ℕ) → leb a b ≡ false → leb b a ≡ true
leb_total a b h = ground arith

leb_trans : (a b c : ℕ) → leb b a ≡ true → leb c b ≡ true → leb c a ≡ true
leb_trans a b c h k = ground arith

-- The rows that are sorted stand by descending steps.
pub by_step :
    (rows : List StepRow)
    → ((row : StepRow) → In row rows → row.step < 2 ^ 63)
    → IsOrdered
        (λ (a b : StepRow). b.step ≤ a.step)
        (sort (λ (a b : StepRow). leb_i64 b.step a.step) rows)
by_step rows small =
    let order = λ (a b : StepRow). leb_i64 b.step a.step in
    IsOrdered-of (λ a b. order a b ≡ true) (λ a b. b.step ≤ a.step) (sort order rows)
      (λ a b i j.
        (leb_i64_iff b.step a.step (small b (in-sort order b rows j))
          (small a (in-sort order a rows i))).0)
      (sort-IsOrdered order (λ a b. leb_total (signed_place b.step) (signed_place a.step))
        (λ a b c. leb_trans (signed_place a.step) (signed_place b.step) (signed_place c.step)) rows)
