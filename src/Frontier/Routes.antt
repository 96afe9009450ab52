-- ===== src/Frontier/Routes.antt =====
-- The targets of one node: what the commands, the edges and the predicates come to.
use weavegraph.Base.{
  ◌≡◌, refl, sym, ap, ◌∙◌, Bool, true, false, not, ◌&&◌, Option, none, some, List, [], ◌∷◌, ◌++◌,
  map, is_empty, if◌then◌else◌, ◌==◌, ◌⊎◌, inl, inr, same-test,
}
use mathlib.Core.List.{append-nil, append_assoc}
use weavegraph.Base.Map.{Map, get, get-put}
use weavegraph.Kind.{
  NodeKind, NodeKind-key, NodeRoute, to_node_kind, FrontierCommand, append, replace,
}
use weavegraph.State.{StateSnapshot}
use weavegraph.Graph.Edges.{Edges, targets}
use weavegraph.Graph.Builder.{ConditionalEdge}
use weavegraph.Frontier.{
  EdgePredicate, or_no_commands, add_command, commands_by_node, Routing, apply_command,
  apply_commands, resolve_commands, conditional_targets, node_targets,
}

-- The commands of one node, in the order of emission.
abbrev pub emitted_by : NodeKind → List (NodeKind × FrontierCommand) → List FrontierCommand
emitted_by id [] = []
emitted_by id ((origin, command) ∷ rest) =
    let more = emitted_by id rest in if origin == id then command ∷ more else more

one_emitted :
    (command : FrontierCommand) (rest old : List FrontierCommand)
    (entry entry' : Option (List FrontierCommand)) (is_origin : Bool)
    → entry' ≡ (if is_origin then some (old ++ command ∷ []) else entry)
    → (is_origin ≡ true → old ≡ or_no_commands entry)
    → or_no_commands entry' ++ rest
      ≡ or_no_commands entry ++ (if is_origin then command ∷ rest else rest)
one_emitted command rest old entry entry' true e same =
    ap (λ o. or_no_commands o ++ rest) e
    ∙ append_assoc old (command ∷ []) rest
    ∙ ap (λ l. l ++ command ∷ rest) (same refl)
one_emitted command rest old entry entry' false e same = ap (λ o. or_no_commands o ++ rest) e

commands-emitted :
    (id : NodeKind) (cs : List (NodeKind × FrontierCommand))
    (m : Map NodeKind (List FrontierCommand))
    → or_no_commands (get id (commands_by_node cs m))
      ≡ or_no_commands (get id m) ++ emitted_by id cs
unfolding commands_by_node add_command
commands-emitted id [] m = sym (append-nil _)
commands-emitted id ((origin, command) ∷ cs) m =
    commands-emitted id cs (add_command origin command m)
    ∙ one_emitted command (emitted_by id cs) (or_no_commands (get origin m)) (get id m) _
        (origin == id) (get-put origin id _ m)
        (λ same. ap (λ k. or_no_commands (get k m)) (same-test origin id same))

-- The targets that the `Append`s name.
abbrev pub appended : List FrontierCommand → List NodeKind
appended [] = []
appended (append entries ∷ cs) = map to_node_kind entries ++ appended cs
appended (replace entries ∷ cs) = appended cs

-- The first `Replace` wins and drops what stands before it, the edges and the predicates; only the
-- `Append`s after it add to it. Without one, the edges, the `Append`s and the predicates add up.
abbrev pub routes :
    List NodeKind → List NodeKind → List FrontierCommand → List NodeKind → List NodeKind
routes edges conditional [] before = edges ++ before ++ conditional
routes edges conditional (append entries ∷ cs) before =
    routes edges conditional cs (before ++ map to_node_kind entries)
routes edges conditional (replace entries ∷ cs) before = map to_node_kind entries ++ appended cs

append_replaced :
    (edges : List NodeKind) (entries : List NodeRoute) (ts : List NodeKind)
    → apply_command edges (append entries) (record { next_targets = ts; frontier_replaced = true })
      ≡ record { next_targets = ts ++ map to_node_kind entries; frontier_replaced = true }
unfolding apply_command
append_replaced edges entries [] = refl
append_replaced edges entries (t ∷ ts) = refl

replace_replaced :
    (edges : List NodeKind) (entries : List NodeRoute) (ts : List NodeKind)
    → apply_command edges (replace entries) (record { next_targets = ts; frontier_replaced = true })
      ≡ record { next_targets = ts; frontier_replaced = true }
unfolding apply_command
replace_replaced edges entries ts = refl

after_replace :
    (edges : List NodeKind) (cs : List FrontierCommand) (ts : List NodeKind)
    → apply_commands edges cs (record { next_targets = ts; frontier_replaced = true })
      ≡ record { next_targets = ts ++ appended cs; frontier_replaced = true }
unfolding apply_commands
after_replace edges [] ts =
    ap (λ l. record { next_targets = l; frontier_replaced = true }) (sym (append-nil ts))
after_replace edges (append entries ∷ cs) ts =
    ap (apply_commands edges cs) (append_replaced edges entries ts)
    ∙ after_replace edges cs (ts ++ map to_node_kind entries)
    ∙ ap (λ l. record { next_targets = l; frontier_replaced = true })
        (append_assoc ts (map to_node_kind entries) (appended cs))
after_replace edges (replace entries ∷ cs) ts =
    ap (apply_commands edges cs) (replace_replaced edges entries ts) ∙ after_replace edges cs ts

-- The edges come first, once there is something to add to.
abbrev filled : List NodeKind → List NodeKind → List NodeKind
filled edges ts = if is_empty ts && true then ts ++ edges else ts

Collected : List NodeKind → List NodeKind → List NodeKind → Type 0
Collected edges before ts = (ts ≡ edges ++ before) ⊎ ((ts ≡ []) × (before ≡ []))

filled_lem :
    (edges before ts : List NodeKind)
    → Collected edges before ts
    → filled edges ts ≡ edges ++ before
unfolding Collected
filled_lem edges before [] (inr (e, none_yet)) = rw (none_yet, append-nil)
filled_lem [] before [] (inl e) = e
filled_lem (x ∷ edges) before [] (inl e) = cc
filled_lem edges before (t ∷ ts) (inl e) = e
filled_lem edges before (t ∷ ts) (inr (e, none_yet)) = cc

-- What `node_targets` makes of the commands.
abbrev settle : List NodeKind → List NodeKind → Routing → List NodeKind
settle edges conditional r =
    let r' =
      (if is_empty r.next_targets && not r.frontier_replaced
        then record r { next_targets = r.next_targets ++ edges }
        else r) in
    if r'.frontier_replaced then r'.next_targets else r'.next_targets ++ conditional

settle_open :
    (edges conditional ts : List NodeKind)
    → settle edges conditional (record { next_targets = ts; frontier_replaced = false })
      ≡ filled edges ts ++ conditional
settle_open edges conditional [] = refl
settle_open edges conditional (t ∷ ts) = refl

settle_replaced :
    (edges conditional ts : List NodeKind)
    → settle edges conditional (record { next_targets = ts; frontier_replaced = true }) ≡ ts
settle_replaced edges conditional [] = refl
settle_replaced edges conditional (t ∷ ts) = refl

settle-routes :
    (edges conditional : List NodeKind) (cs : List FrontierCommand) (before ts : List NodeKind)
    → Collected edges before ts
    → settle edges conditional
        (apply_commands edges cs (record { next_targets = ts; frontier_replaced = false }))
      ≡ routes edges conditional cs before
unfolding apply_commands apply_command Collected
settle-routes edges conditional [] before ts h =
    settle_open edges conditional ts ∙ ap (λ l. l ++ conditional) (filled_lem edges before ts h)
settle-routes edges conditional (append entries ∷ cs) before ts h =
    settle-routes edges conditional cs (before ++ map to_node_kind entries) _ (
      inl (
        ap (λ l. l ++ map to_node_kind entries) (filled_lem edges before ts h)
        ∙ append_assoc edges before (map to_node_kind entries)))
settle-routes edges conditional (replace entries ∷ cs) before ts h =
    ap (settle edges conditional) (after_replace edges cs (map to_node_kind entries))
    ∙ settle_replaced edges conditional (map to_node_kind entries ++ appended cs)

resolve-routes :
    (edges conditional : List NodeKind) (commands : Option (List FrontierCommand))
    → (let r = resolve_commands edges commands in
        if r.frontier_replaced then r.next_targets else r.next_targets ++ conditional)
      ≡ routes edges conditional (or_no_commands commands) []
unfolding resolve_commands Collected
resolve-routes edges conditional none = ap (λ l. l ++ conditional) (sym (append-nil edges))
resolve-routes edges conditional (some cs) =
    settle-routes edges conditional cs [] [] (inr (refl, refl))

-- The targets of a node that ran come from the commands that it emitted, in their order. Without a
-- `Replace` they are its edges, the entries of its `Append`s and what its predicates name; else
-- they are the entries of its first `Replace` and those of the `Append`s after it, and nothing else.
pub node_targets-routes :
    {V : Type 0} (edges : Edges) (conditional_edges : List (ConditionalEdge (EdgePredicate V)))
    (snap : StateSnapshot V) (commands : List (NodeKind × FrontierCommand)) (id : NodeKind)
    → node_targets edges conditional_edges snap (commands_by_node commands []) id
      ≡ routes
          (targets edges id)
          (conditional_targets conditional_edges snap id)
          (emitted_by id commands)
          []
unfolding node_targets get
node_targets-routes edges conditional_edges snap commands id =
    resolve-routes (targets edges id) (conditional_targets conditional_edges snap id)
      (get id (commands_by_node commands []))
    ∙ ap (λ cs. routes (targets edges id) (conditional_targets conditional_edges snap id) cs [])
        (commands-emitted id commands [])
