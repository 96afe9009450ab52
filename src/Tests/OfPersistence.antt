-- ===== src/Tests/OfPersistence.antt =====
-- src/runtimes/persistence.rs on a concrete checkpoint.
use Prim.Native.Char.{Char}
use Prim.Native.String.{◌∷◌ as ◌∷ₜ◌}
use weavegraph.Base.{ℕ, zero, suc, String, ◌≡◌, refl, Option, none, some, [], ◌∷◌}
use weavegraph.Base.Result.{ok}
use weavegraph.Kind.{start, custom}
use weavegraph.Checkpoint.{Checkpoint}
use weavegraph.Persistence.{
  TimeText, IsExact, persist_checkpoint, restore_checkpoint, restore_checkpoint-persist_checkpoint,
}
use weavegraph.Tests.Values.{Value, one_user_message}

-- A time as so many strokes.
abbrev pub stroke : Char
stroke = "i"

abbrev pub print_time : ℕ → String
print_time zero = ""
print_time (suc t) = stroke ∷ₜ print_time t

abbrev pub parse_time : String → Option ℕ
parse_time String.[] = some 0
parse_time (c ∷ₜ rest) = elim (parse_time rest) [ some t ↦ some (suc t) | none ↦ none ]

abbrev pub strokes : TimeText
strokes = record { to_rfc3339 = print_time; parse_from_rfc3339 = parse_time }

strokes-IsExact : IsExact strokes
strokes-IsExact zero = refl
strokes-IsExact (suc t) = rw (strokes-IsExact t) refl

abbrev saved : Checkpoint Value
saved = record {
  session_id = "s1";
  step = 3;
  state = one_user_message;
  frontier = custom "a" ∷ custom "Start" ∷ [];
  versions_seen = ("a", ("messages", 1) ∷ []) ∷ [];
  concurrency_limit = 2;
  created_at = 4;
  ran_nodes = start ∷ [];
  skipped_nodes = [];
  updated_channels = "messages" ∷ [];
}

restore_checkpoint-persist_checkpoint_example :
    restore_checkpoint strokes 9 (persist_checkpoint strokes saved) ≡ ok saved
restore_checkpoint-persist_checkpoint_example =
    restore_checkpoint-persist_checkpoint strokes 9 saved strokes-IsExact
