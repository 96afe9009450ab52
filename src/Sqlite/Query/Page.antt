-- ===== src/Sqlite/Query/Page.antt =====
-- The pages of a query, and what a row gives back of the checkpoint that was saved in it.
use weavegraph.Base.{
  ℕ, suc, ◌+◌, ◌-◌, ◌%◌, ◌^◌, ◌≤◌, ◌<◌, String, String-key, ◌≡◌, ◌↔◌, refl, sym, ap, subst, ◌∙◌,
  Bool, true, List, [], ◌∷◌, map, filter, drop, length, min, ltb, arith, In, in-filter,
  in-filter_of, leb_i64,
}
use weavegraph.Base.Sort.{sort, sort-perm, in-sort, in-sort_of, IsOrdered}
use mathlib.Core.List.{Perm}
use weavegraph.Sqlite.Query.Selects.{IsSelected, meets-IsSelected, by_step}
use weavegraph.Base.Result.{ok, >>=-eq-ok, ok-injective}
use weavegraph.Kind.{encode}
use weavegraph.Checkpoint.{Checkpoint}
use weavegraph.Persistence.{persist_state, restore_state, parsed_or, decode_all}
use weavegraph.Utils.Json.{array}
use weavegraph.Sqlite.{
  StepColumns, StepRow, Database, SqliteError, Serde, Clock, items_of, serialize_checkpoint, row_of,
}
use weavegraph.Sqlite.Latest.{IsExact, serialized_parts, parsed_back, texts_in-items_of}
use weavegraph.Sqlite.Query.{
  StepQuery, StepQueryResult, HasI64, take, meets, limit_of, offset_of, page_rows,
  row_to_checkpoint, rows_to_checkpoints, query_steps,
}
use weavegraph.Sqlite.Query.Lengths.{length-sort, length-page_rows, limit_of-le, next_page}

module _ {V N X : Type 0} (serde : Serde V N X) (clock : Clock) where
  length-rows_to_checkpoints :
      (now : ℕ) (id : String) (rows : List StepRow) (checkpoints : List (Checkpoint V))
      → rows_to_checkpoints serde clock now id rows ≡ ok checkpoints
      → length checkpoints ≡ length rows
  unfolding rows_to_checkpoints
  length-rows_to_checkpoints now id [] checkpoints h =
      ap length (sym (ok-injective (SqliteError X) h))
  length-rows_to_checkpoints now id (row ∷ rows) checkpoints h =
      let (c, made, more) = >>=-eq-ok (row_to_checkpoint serde clock now id row) _ h in
      let (rest, others, same) = >>=-eq-ok (rows_to_checkpoints serde clock now id rows) _ more in
      ap length (sym (ok-injective (SqliteError X) same))
      ∙ ap suc (length-rows_to_checkpoints now id rows rest others)

  -- The checkpoints that the rows give, one by one.
  pub data AreRead (now : ℕ) (id : String) : List StepRow → List (Checkpoint V) → Type 0 where
    none_read : AreRead now id [] []
    one_read :
        (row : StepRow) (rows : List StepRow) (checkpoint : Checkpoint V)
        (checkpoints : List (Checkpoint V))
        → row_to_checkpoint serde clock now id row ≡ ok checkpoint
        → AreRead now id rows checkpoints
        → AreRead now id (row ∷ rows) (checkpoint ∷ checkpoints)

  rows_to_checkpoints-AreRead :
      (now : ℕ) (id : String) (rows : List StepRow) (checkpoints : List (Checkpoint V))
      → rows_to_checkpoints serde clock now id rows ≡ ok checkpoints
      → AreRead now id rows checkpoints
  unfolding rows_to_checkpoints
  rows_to_checkpoints-AreRead now id [] checkpoints h =
      subst (AreRead now id []) (ok-injective (SqliteError X) h) none_read
  rows_to_checkpoints-AreRead now id (row ∷ rows) checkpoints h =
      let (c, made, more) = >>=-eq-ok (row_to_checkpoint serde clock now id row) _ h in
      let (rest, others, same) = >>=-eq-ok (rows_to_checkpoints serde clock now id rows) _ more in
      subst (AreRead now id (row ∷ rows)) (ok-injective (SqliteError X) same)
        (one_read row rows c rest made (rows_to_checkpoints-AreRead now id rows rest others))

  -- What the result says of the rows that a query selects, in their order.
  abbrev pub IsPage :
      (String → String → Bool)
      → ℕ
      → String
      → StepQuery
      → Database
      → StepQueryResult V
      → List StepRow
      → Type 0
  IsPage like now id query db result ordered =
      IsOrdered (λ (a b : StepRow). b.step ≤ a.step) ordered
      × Perm ordered (filter (meets like id query) db.steps)
      × ((row : StepRow) → In row ordered ↔ (In row db.steps × IsSelected like id query row))
      × AreRead now id (take (limit_of query) (drop (offset_of query) ordered)) result.checkpoints
      × (limit_of query ≤ 1000)
      × (result.page_info.total_count ≡ length ordered)
      × (result.page_info.page_size ≡ length result.checkpoints)
      × ((result.page_info.has_next_page ≡ true)
          ↔ (offset_of query + length result.checkpoints < length ordered))

  counted_result :
      (query : StepQuery) (rows : List StepRow) (checkpoints : List (Checkpoint V))
      → offset_of query + limit_of query < 2 ^ 32
      → length rows < 2 ^ 32
      → length checkpoints ≡ min (limit_of query) (length rows - offset_of query)
      → (length checkpoints % 2 ^ 32 ≡ length checkpoints)
        × ((ltb ((offset_of query + limit_of query) % 2 ^ 32) (length rows % 2 ^ 32) ≡ true)
            ↔ (offset_of query + length checkpoints < length rows))
  counted_result query rows checkpoints small few size =
      let least = limit_of-le query in
      let (to, of) = next_page (limit_of query) (offset_of query) (length rows) small few in
      (omega arith, (λ h. let more = to h in omega arith, λ h. of (omega arith)))

  -- Let the steps that are stored and the bounds of the query be below 2 ^ 63, and let 32 bits hold the
  -- end of the page and the number of rows that are selected. Take those rows of the database that are
  -- of the session, within the bounds, and whose node texts are like those asked for, each as often
  -- as it is there, by descending steps. A query that succeeds gives what their rows from the offset
  -- on make, at most the limit, which is at most 1000; it counts all of them, and there is a next page
  -- just when rows follow those given.
  pub query_steps-IsPage :
      (like : String → String → Bool) (now : ℕ) (id : String) (query : StepQuery) (db : Database)
      (result : StepQueryResult V)
      → ((row : StepRow) → In row db.steps → row.step < 2 ^ 63)
      → HasI64 query.min_step
      → HasI64 query.max_step
      → offset_of query + limit_of query < 2 ^ 32
      → length (filter (meets like id query) db.steps) < 2 ^ 32
      → query_steps serde clock like true now id query db ≡ ok result
      → (ordered : List StepRow) × IsPage like now id query db result ordered
  unfolding query_steps page_rows
  query_steps-IsPage like now id query db result stored least most small few h =
      let rows = filter (meets like id query) db.steps in
      let order = λ (a b : StepRow). leb_i64 b.step a.step in
      let (checkpoints, made, same) =
        >>=-eq-ok (rows_to_checkpoints serde clock now id (page_rows query rows)) _ h in
      let long = length-sort order rows in
      let (size, next) = counted_result query rows checkpoints small few (
        length-rows_to_checkpoints now id (page_rows query rows) checkpoints made
        ∙ length-page_rows query rows) in
      (
        sort order rows,
        subst (λ r. IsPage like now id query db r (sort order rows))
            (ok-injective (SqliteError X) same)
            (
              by_step rows (λ row i. stored row (in-filter (meets like id query) row db.steps i).0),
              sort-perm order rows,
              λ row. (
                λ i.
                    let (there, met) =
                      in-filter (meets like id query) row db.steps (in-sort order row rows i) in
                    (
                      there,
                      (meets-IsSelected like id query row (stored row there) least most).0 met,
                    ),
                λ (there, selected). in-sort_of order row rows (
                    in-filter_of (meets like id query) row db.steps there (
                      (meets-IsSelected like id query row (stored row there) least most).1
                        selected)),
              ),
              rows_to_checkpoints-AreRead now id _ checkpoints made,
              limit_of-le query,
              sym long,
              size,
              (
                λ n. subst (λ l. offset_of query + length checkpoints < l) (sym long) (next.0 n),
                λ n. next.1 (subst (λ l. offset_of query + length checkpoints < l) long n),
              ),
            ),
      )

  -- The row of a checkpoint that could be serialised gives it back whole, but for its limit, which is 1,
  -- and its time, which is that of the save.
  pub row_to_checkpoint-row_of :
      (saved now : ℕ) (checkpoint : Checkpoint V) (columns : StepColumns)
      → IsExact serde clock
      → serialize_checkpoint serde clock checkpoint ≡ ok columns
      → row_to_checkpoint serde clock now checkpoint.session_id
          (row_of serde clock (clock.strftime saved) checkpoint columns)
        ≡ ok record checkpoint {
          concurrency_limit = 1;
          created_at = parsed_or now ((clock.time).parse_from_rfc3339 (clock.strftime saved));
        }
  unfolding row_to_checkpoint restore_state persist_state
  row_to_checkpoint-row_of saved now checkpoint columns exact h =
      let (e1, e2, e3, e4, e5, e6) = serialized_parts serde clock checkpoint columns h in
      let (v1, m1, p1) = parsed_back serde clock "state" _ _ exact e1 in
      let (v2, m2, p2) = parsed_back serde clock "frontier" _ _ exact e2 in
      let (v3, m3, p3) = parsed_back serde clock "versions_seen" _ _ exact e3 in
      let (v4, m4, p4) = parsed_back serde clock "ran_nodes" _ _ exact e4 in
      let (v5, m5, p5) = parsed_back serde clock "skipped_nodes" _ _ exact e5 in
      let (v6, m6, p6) = parsed_back serde clock "updated_channels" _ _ exact e6 in
      let frontier : array (items_of serde clock (map encode checkpoint.frontier)) ≡ v2 =
        ok-injective X m2 in
      let ran : array (items_of serde clock (map encode checkpoint.ran_nodes)) ≡ v4 =
        ok-injective X m4 in
      let skipped : array (items_of serde clock (map encode checkpoint.skipped_nodes)) ≡ v5 =
        ok-injective X m5 in
      let updated : array (items_of serde clock checkpoint.updated_channels) ≡ v6 =
        ok-injective X m6 in
      rw
        (
          row_to_checkpoint,
          p1,
          p2,
          p3,
          p4,
          p5,
          p6,
          exact.1 _ v1 m1,
          ← frontier,
          ← ran,
          ← skipped,
          ← updated,
          texts_in-items_of serde clock (map encode checkpoint.frontier),
          texts_in-items_of serde clock (map encode checkpoint.ran_nodes),
          texts_in-items_of serde clock (map encode checkpoint.skipped_nodes),
          texts_in-items_of serde clock checkpoint.updated_channels,
          decode_all checkpoint.frontier,
          decode_all checkpoint.ran_nodes,
          decode_all checkpoint.skipped_nodes,
          exact.2 _ v3 m3,
        )
        refl
