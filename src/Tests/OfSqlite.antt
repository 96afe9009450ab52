-- ===== src/Tests/OfSqlite.antt =====
-- The SQLite checkpointer with a small stand-in for serde_json: it has texts for the null value, for
-- true, and for arrays of no or one text.
use native.Mathlib.Decide.{ℕ_discrete}
use Prim.Native.Char.{Char, code}
use Prim.Native.String.{◌∷◌ as ◌∷ₜ◌}
use weavegraph.Base.{
  ℕ, zero, suc, ℕ-key, String, String-key, str_apart, ◌≡◌, ◌⊎◌, refl, sym, ap, arith, true, some,
  List, [], ◌∷◌, if◌then◌else◌, ◌==◌,
}
use weavegraph.Base.Map.{Map, get}
use weavegraph.Base.Result.{Result, ok, err, ok-injective}
use weavegraph.Kind.{start, custom, encode}
use weavegraph.State.{Message, ErrorEvent, VersionedState}
use weavegraph.Checkpoint.{Checkpoint}
use weavegraph.Persistence.{PersistedState, PersistedVersionsSeen, persist_state}
use weavegraph.Utils.Json.{Value, null, bool, string, array, nil, item}
use weavegraph.Sqlite.{StepColumns, Database, SqliteError, Serde, Clock, save, serialize_checkpoint}
use weavegraph.Sqlite.Rows.{initial_limit}
use weavegraph.Sqlite.Latest.{IsExact, load_latest, latest_of, load_latest-save}
use weavegraph.Sqlite.Checked.{
  save_with_concurrency_check, check_step, insert_new, save_with_concurrency_check-Admitted,
  save_with_concurrency_check_second, Admitted,
}
use weavegraph.Base.Sort.{sort, insert}
use weavegraph.Base.{none, In, ◌<◌, ◌^◌, inl, inr, subst}
use weavegraph.Sqlite.{StepRow}
use weavegraph.Kind.{decode}
use weavegraph.Persistence.{restore_state}
use weavegraph.Sqlite.{row_of}
use weavegraph.Sqlite.Query.{
  StepQuery, StepQueryResult, query_steps, meets, page_rows, rows_to_checkpoints, row_to_checkpoint,
  limit_of, offset_of,
}
use weavegraph.Sqlite.Query.Page.{IsPage, query_steps-IsPage, row_to_checkpoint-row_of}
use weavegraph.Tests.OfPersistence.{strokes, print_time}

abbrev quote : Char
quote = "q"

abbrev print : Value ℕ → Result (Unit {0}) String
print null = ok "null"
print (bool true) = ok "true"
print (array nil) = ok "[]"
print (array (item (string s) nil)) = ok (quote ∷ₜ s)
print v = err tt

abbrev pub parse : String → Result (Unit {0}) (Value ℕ)
parse String.[] = err tt
parse (c ∷ₜ rest) =
    if code c == 113
    then ok (array (item (string rest) nil))
    else if code c == 110
    then ok null
    else if code c == 116
    then ok (bool true)
    else ok (array nil)

abbrev flat :
    List Message → ℕ → Map String ℕ → ℕ → List (ErrorEvent ℕ) → ℕ → Result (Unit {0}) (Value ℕ)
flat [] (suc zero) [] (suc zero) [] (suc zero) = ok (bool true)
flat m mv x xv e ev = err tt

abbrev fresh_state : PersistedState ℕ
fresh_state = record {
  messages = record { version = 1; items = [] };
  extra = record { version = 1; entries = [] };
  errors = record { version = 1; items = [] };
}

abbrev seen_text : Map String (Map String ℕ) → Result (Unit {0}) (Value ℕ)
seen_text [] = ok null
seen_text seen = err tt

abbrev pub serde : Serde ℕ ℕ (Unit {0})
serde = record {
  print = print;
  parse = parse;
  state_value = λ p.
      flat p.messages.items p.messages.version p.extra.entries p.extra.version p.errors.items
        p.errors.version;
  state_of = λ v. ok fresh_state;
  seen_value = λ p. seen_text p.seen;
  seen_of = λ v. ok record { seen = [] };
}

abbrev pub clock : Clock
clock = record { strftime = print_time; time = strokes }

print_exact : (v : Value ℕ) (text : String) → print v ≡ ok text → parse text ≡ ok v
unfolding ℕ_discrete
print_exact null text h = ap parse (sym (ok-injective (Unit {0}) h))
print_exact (bool true) text h = ap parse (sym (ok-injective (Unit {0}) h))
print_exact (array nil) text h = ap parse (sym (ok-injective (Unit {0}) h))
print_exact (array (item (string s) nil)) text h = ap parse (sym (ok-injective (Unit {0}) h))
print_exact v text h = absurd cc

flat_exact :
    (m : List Message) (mv : ℕ) (x : Map String ℕ) (xv : ℕ) (e : List (ErrorEvent ℕ)) (ev : ℕ)
    (v : Value ℕ)
    → flat m mv x xv e ev ≡ ok v
    → ◌≡◌ {A = Result (Unit {0}) (PersistedState ℕ)} (ok fresh_state) (
        ok record {
          messages = record { version = mv; items = m };
          extra = record { version = xv; entries = x };
          errors = record { version = ev; items = e };
        })
flat_exact [] (suc zero) [] (suc zero) [] (suc zero) v h = refl
flat_exact m mv x xv e ev v h = absurd cc

seen_exact :
    (seen : Map String (Map String ℕ)) (v : Value ℕ)
    → seen_text seen ≡ ok v
    → ◌≡◌ {A = Result (Unit {0}) PersistedVersionsSeen}
        (ok record { seen = [] })
        (ok record { seen = seen })
seen_exact [] v h = refl
seen_exact (s ∷ seen) v h = absurd cc

pub serde-IsExact : IsExact serde clock
serde-IsExact = (
  print_exact,
  λ p v h.
      flat_exact p.messages.items p.messages.version p.extra.entries p.extra.version p.errors.items
        p.errors.version v h,
  λ p v h. seen_exact p.seen v h,
)

abbrev plain : VersionedState ℕ
plain = record {
  messages = record { value = []; version = 1 };
  extra = record { value = []; version = 1 };
  errors = record { value = []; version = 1 };
}

abbrev pub at_step : ℕ → Checkpoint ℕ
at_step n = record {
  session_id = "s1";
  step = n;
  state = plain;
  frontier = start ∷ [];
  versions_seen = [];
  concurrency_limit = 8;
  created_at = 2;
  ran_nodes = custom "a" ∷ [];
  skipped_nodes = [];
  updated_channels = [];
}

abbrev empty_db : Database
empty_db = record { sessions = []; steps = [] }

abbrev saved_db : Database
saved_db = (save serde clock true 3 (at_step 1) empty_db).0

at_step_saved : save serde clock true 3 (at_step 1) empty_db ≡ (saved_db, ok tt)
unfolding save serialize_checkpoint persist_state encode
at_step_saved = refl

load_latest-save_example :
    (load_latest serde clock true 9 "s1" saved_db
      ≡ ok (
          some
            (latest_of serde clock 3 9 (initial_limit 8 (get "s1" empty_db.sessions)) (at_step 1))))
    × (load_latest serde clock true 9 "s2" saved_db ≡ load_latest serde clock true 9 "s2" empty_db)
load_latest-save_example =
    load_latest-save serde clock 3 9 (at_step 1) empty_db saved_db "s2" serde-IsExact
      (str_apart "s1" "s2" refl) at_step_saved

save_with_concurrency_check-Admitted_example :
    ((after : Database) × (columns : StepColumns) × (save_with_concurrency_check serde clock true 3
          (at_step 1)
          (some 0)
          empty_db
        ≡ (after, ok tt))
      × Admitted serde clock true 3 (at_step 1) (some 0) empty_db after columns)
    ⊎ ((e : SqliteError (Unit {0})) × (save_with_concurrency_check serde clock true 3
            (at_step 1)
            (some 0)
            empty_db
          ≡ (empty_db, err e)))
save_with_concurrency_check-Admitted_example =
    save_with_concurrency_check-Admitted serde clock true 3 (at_step 1) (some 0) empty_db

abbrev first_db : Database
first_db = (save_with_concurrency_check serde clock true 3 (at_step 1) (some 0) empty_db).0

first_saved :
    save_with_concurrency_check serde clock true 3 (at_step 1) (some 0) empty_db ≡ (first_db, ok tt)
unfolding ℕ_discrete save_with_concurrency_check serialize_checkpoint persist_state encode
    check_step insert_new get
first_saved = refl

save_with_concurrency_check_second_example :
    (e : SqliteError (Unit {0})) × (save_with_concurrency_check serde clock true 4
        (at_step 1)
        (some 0)
        first_db
      ≡ (first_db, err e))
save_with_concurrency_check_second_example =
    save_with_concurrency_check_second serde clock true 3 4 (at_step 1) (at_step 1) 0 empty_db
      first_db refl (λ e. omega arith) first_saved

abbrev columns : StepColumns
columns = record {
  state_json = "true";
  frontier_json = "qStart";
  versions_seen_json = "null";
  ran_nodes_json = "qCustom:a";
  skipped_nodes_json = "[]";
  updated_channels_json = "[]";
}

columns_of_step : serialize_checkpoint serde clock (at_step 1) ≡ ok columns
unfolding serialize_checkpoint persist_state encode
columns_of_step = refl

row_to_checkpoint-row_of_example :
    row_to_checkpoint serde clock 9 "s1" (row_of serde clock (clock.strftime 3) (at_step 1) columns)
    ≡ ok record (at_step 1) { concurrency_limit = 1; created_at = 3 }
row_to_checkpoint-row_of_example =
    row_to_checkpoint-row_of serde clock 3 9 (at_step 1) columns serde-IsExact columns_of_step

abbrev history : Database
history = record {
  sessions = [];
  steps =
      row_of serde clock (clock.strftime 3) (at_step 1) columns
      ∷ row_of serde clock (clock.strftime 4) (at_step 2) columns
      ∷ [];
}

abbrev latest_only : StepQuery
latest_only = record {
  limit = some 1;
  offset = none;
  min_step = some 1;
  max_step = none;
  ran_node = none;
  skipped_node = none;
}

abbrev first_page : StepQueryResult ℕ
first_page = record {
  checkpoints = record (at_step 2) { concurrency_limit = 1; created_at = 4 } ∷ [];
  page_info = record { total_count = 2; page_size = 1; offset = 0; has_next_page = true };
}

first_page_found :
    query_steps serde clock (λ p t. true) true 9 "s1" latest_only history ≡ ok first_page
unfolding ℕ_discrete query_steps meets page_rows rows_to_checkpoints row_to_checkpoint limit_of
    offset_of sort insert restore_state decode
first_page_found = refl

history_small : (row : StepRow) → In row history.steps → row.step < 2 ^ 63
history_small row i = elim i [
  | inl first ↦ subst (λ (r : StepRow). r.step < 2 ^ 63) first (omega arith)
  | inr (inl second) ↦ subst (λ (r : StepRow). r.step < 2 ^ 63) second (omega arith)
  | inr (inr none_left) ↦ absurd none_left
]

query_steps-IsPage_example :
    (ordered : List StepRow) × IsPage serde clock
      (λ p t. true)
      9
      "s1"
      latest_only
      history
      first_page
      ordered
unfolding ℕ_discrete meets limit_of offset_of
query_steps-IsPage_example =
    query_steps-IsPage serde clock (λ p t. true) 9 "s1" latest_only history first_page history_small
      (omega arith) tt (omega arith) (omega arith) first_page_found
