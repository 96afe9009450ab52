-- ===== src/Tests/Values.antt =====
-- Values for the tests: graphs, a small type of JSON values, states, partials and nodes.
use weavegraph.Base.{ℕ, String, String-discrete, ◌≡◌, ◌≢◌, ap, sym, refl, some, List, [], ◌∷◌}
use weavegraph.Base.Map.{IsMap, has_distinct_keys-IsMap}
use weavegraph.Base.Result.{Result, ok, err}
use weavegraph.Scheduler.{Node}
use weavegraph.Scheduler.Superstep.{Delivers}
use weavegraph.Kind.{NodeKind, NodeKind-key, start, end, custom, append, NodeRoute}
use weavegraph.Graph.Edges.{Edges}
use weavegraph.Graph.Builder.{GraphBuilder}
use weavegraph.State.{
  Json, Message, user, assistant, ErrorEvent, ErrorScope, root, VersionedState, NodePartial,
  empty_partial,
}

abbrev pub node_a : NodeKind
node_a = custom "a"

abbrev pub node_b : NodeKind
node_b = custom "b"

abbrev pub node_c : NodeKind
node_c = custom "c"

-- Start, a, b and End in a line.
abbrev pub line : Edges
line = (start, node_a ∷ []) ∷ (node_a, node_b ∷ []) ∷ (node_b, end ∷ []) ∷ []

-- The nodes a and b lead to each other, and c is not reached.
abbrev pub loop : Edges
loop =
    (start, node_a ∷ []) ∷ (node_a, node_b ∷ []) ∷ (node_b, node_a ∷ []) ∷ (node_c, end ∷ []) ∷ []

abbrev pub line_builder : GraphBuilder (Unit {0}) (Unit {0}) (Unit {0}) (Unit {0})
line_builder = record {
  nodes = (node_a, tt) ∷ (node_b, tt) ∷ [];
  edges = line;
  conditional_edges = [];
  runtime_config = tt;
  reducer_registry = tt;
}

-- JSON values without structure.
pub data Value : Type 0 where
  nil : Value
  text : String → Value

pub nil-ne-text : {s : String} → nil ≢ text s
nil-ne-text e = cc

pub text-injective : {s t : String} → text s ≡ text t → s ≡ t
text-injective e = cc

abbrev pub text_cases : {s t : String} → Dec (s ≡ t) → Dec (text s ≡ text t)
text_cases (yes e) = yes (ap text e)
text_cases (no n) = no (λ e. n (text-injective e))

abbrev pub value_eq? : (v w : Value) → Dec (v ≡ w)
value_eq? nil nil = yes refl
value_eq? (text s) (text t) = text_cases (String-discrete s t)
value_eq? nil (text t) = no nil-ne-text
value_eq? (text s) nil = no (λ e. nil-ne-text (sym e))

instance abbrev pub Value-json : Json Value
Value-json = record {
  null = nil;
  text = text;
  array = λ vs. text "array";
  object = λ ps. text "object";
  eq? = value_eq?;
}

abbrev pub said : String → Message
said s = record { role = assistant; content = s }

abbrev pub failure : ErrorEvent Value
failure = record {
  when = 7;
  scope = ErrorScope.node "a" 1;
  error = root "failed" nil;
  tags = [];
  context = nil;
}

abbrev pub one_user_message : VersionedState Value
one_user_message = record {
  messages = record { value = record { role = user; content = "hello" } ∷ []; version = 1 };
  extra = record {
    value = ("topic", text "cats") ∷ ("kept", text "yes") ∷ [];
    version = 4294967295;
  };
  errors = record { value = []; version = 1 };
}

-- The second partial deletes what the first one writes.
abbrev pub two_partials : List (NodePartial Value)
two_partials =
    record empty_partial {
      messages = some (said "one" ∷ []);
      extra = some (("topic", text "dogs") ∷ []);
      errors = some (failure ∷ []);
    }
    ∷ record empty_partial {
      messages = some (said "two" ∷ []);
      extra = some (("topic", nil) ∷ []);
      frontier = some (append (NodeRoute.node node_c ∷ []));
    }
    ∷ []

pub line-IsMap : IsMap line
line-IsMap = has_distinct_keys-IsMap line refl

pub loop-IsMap : IsMap loop
loop-IsMap = has_distinct_keys-IsMap loop refl

-- The derived `Debug` of the kinds of the tests.
abbrev pub show : NodeKind → String
show start = "Start"
show end = "End"
show (custom name) = name

-- A node that says its name, and one that fails.
abbrev pub talker : Node Value String
talker snap ctx = ok (record empty_partial { messages = some (said ctx.node_id ∷ []) })

abbrev pub faulty : Node Value String
faulty snap ctx = err "broken"

-- The results of tasks in the order in which the tasks are made.
abbrev pub in_order :
    ℕ
    → List (NodeKind × Result String (NodePartial Value))
    → List (NodeKind × Result String (NodePartial Value))
in_order limit results = results

pub in_order-Delivers : Delivers in_order
in_order-Delivers limit results r = (λ i. i, λ i. i)
