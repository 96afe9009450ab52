-- ===== src/Sqlite/Query/Lengths.antt =====
-- How many rows a page of `query_steps` has, and whether another follows.
use weavegraph.Base.{
  ℕ, zero, suc, ◌+◌, ◌-◌, ◌%◌, ◌^◌, ◌≤◌, ◌<◌, String-key, ◌≡◌, ◌↔◌, refl, ap, ◌∙◌, inl, inr, Bool,
  true, List, [], ◌∷◌, drop, length, min, ltb, Bool-cases, arith, leb_i64,
}
use weavegraph.Base.Sort.{sort, insert}
use weavegraph.Sqlite.{StepRow}
use weavegraph.Sqlite.Query.{StepQuery, take, limit_of, offset_of, page_rows}

length-take : {A : Type 0} (n : ℕ) (xs : List A) → length (take n xs) ≡ min n (length xs)
length-take zero xs = omega arith
length-take (suc n) [] = omega arith
length-take (suc n) (x ∷ xs) = ap suc (length-take n xs) ∙ omega arith

length-drop : {A : Type 0} (n : ℕ) (xs : List A) → length (drop n xs) ≡ length xs - n
length-drop zero xs = omega arith
length-drop (suc n) [] = omega arith
length-drop (suc n) (x ∷ xs) = length-drop n xs ∙ omega arith

length-insert :
    {A : Type 0} (before : A → A → Bool) (x : A) (ys : List A)
    → length (insert before x ys) ≡ suc (length ys)
unfolding insert
length-insert before x [] = refl
length-insert before x (y ∷ ys) = elim (Bool-cases (before x y)) [
  | inl first ↦ rw first refl
  | inr later ↦ rw later (ap suc (length-insert before x ys))
]

pub length-sort :
    {A : Type 0} (before : A → A → Bool) (xs : List A) → length (sort before xs) ≡ length xs
unfolding sort
length-sort before [] = refl
length-sort before (x ∷ xs) =
    length-insert before x (sort before xs) ∙ ap suc (length-sort before xs)

pub length-page_rows :
    (query : StepQuery) (rows : List StepRow)
    → length (page_rows query rows) ≡ min (limit_of query) (length rows - offset_of query)
unfolding page_rows
length-page_rows query rows =
    let order = λ (a b : StepRow). leb_i64 b.step a.step in
    length-take (limit_of query) (drop (offset_of query) (sort order rows))
    ∙ ap (min (limit_of query)) (
        length-drop (offset_of query) (sort order rows)
        ∙ ap (λ n. n - offset_of query) (length-sort order rows))

pub limit_of-le : (query : StepQuery) → limit_of query ≤ 1000
unfolding limit_of
limit_of-le query = omega arith

ltb_iff : (a b : ℕ) → (ltb a b ≡ true) ↔ (a < b)
ltb_iff a b = (λ h. ground arith, λ h. ground arith)

-- Whether there is a next page, by the number of rows on this one.
pub next_page :
    (limit offset total : ℕ)
    → offset + limit < 2 ^ 32
    → total < 2 ^ 32
    → (ltb ((offset + limit) % 2 ^ 32) (total % 2 ^ 32) ≡ true)
      ↔ (offset + min limit (total - offset) < total)
next_page limit offset total small few =
    let (to, of) = ltb_iff ((offset + limit) % 2 ^ 32) (total % 2 ^ 32) in
    (λ h. let less = to h in omega arith, λ h. of (omega arith))
