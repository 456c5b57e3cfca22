-- ===== src/Graph/Validate/Accepts.antt =====
-- backend/app/services/graph.py: what a graph is that `validate_graph` accepts.
use mathlib.Core.List.{Memᴰ}
use appbi_integration.Base.{
  ◌≤◌, String, ◌≡◌, ◌≢◌, refl, subst, inl, inr, Bool, true, false, ◌⊎◌, List, [], ◌∷◌, Option, some,
  map, ltb, arith, Bool-cases, ltb-false,
}
use appbi_integration.Base.Lists.{select, length}
use appbi_integration.Json.{Json, arr, Items, Fields, get, elements}
use appbi_integration.Graph.Dict.{Dict}
use appbi_integration.Graph.Issue.{is_nil, Issue, is_error, Definitions, is_ok, max_nodes}
use appbi_integration.Graph.Nodes.{collect, node_id_of, check_nodes}
use appbi_integration.Graph.Cycle.{has_cycle}
use appbi_integration.Graph.Cycle.Total.{has_cycle_decides}
use appbi_integration.Graph.Connections.{
  Edge, edge_of, check_connections, has_outgoing, orphan_issues,
}
use appbi_integration.Graph.Validate.{
  validate_graph, validate_parts, adjacency_of, trigger_issues, cycle_issues, unconnected_issues,
  first_of, validate_lists,
}
use appbi_integration.Graph.Validate.Shape.{
  NoErrors, NoErrors-append, Fresh, AllValid, collect-Fresh, collect-all,
}
use appbi_integration.Graph.Validate.Wires.{
  LinkWalk, IsSound, Separate, check_connections-IsSound, check_connections-all,
  check_connections-Separate, Walk-LinkWalk,
}
use appbi_integration.Graph.Validate.Kinds.{AllSupported, check_nodes-supported}

-- An accepted graph: its nodes are at most `max_nodes`, their ids match the pattern and are pairwise
-- distinct, and their kinds are supported; its connections join known and different nodes, no two of
-- them the same, and no walk along them comes back to its start; and if a trigger is required, there
-- is one, and a connection leaves it.
pub record IsAccepted (definitions : Definitions) (require_trigger : Bool)
    (nodes connections : List Json) : Type 0 where
  pub valid_ids : AllValid (map node_id_of nodes)
  pub distinct_ids : Fresh [] (map node_id_of nodes)
  pub supported : AllSupported definitions (collect [] nodes).by_id
  pub sound : (e : Edge) → Memᴰ e (map edge_of connections) → IsSound (collect [] nodes).by_id e
  pub separate : Separate (map edge_of connections)
  pub acyclic : (u : String) → ¬ LinkWalk (map edge_of connections) u u
  pub one_trigger :
      (require_trigger ≡ false)
      ⊎ ((t : String) × ((check_nodes definitions [] (collect [] nodes).by_id).triggers ≡ t ∷ [])
          × (has_outgoing (map edge_of connections) t ≡ true))

-- The seven stages of the checks, none of which reports an error.
record Stages (definitions : Definitions) (require_trigger : Bool) (nodes connections : List Json)
    : Type 0 where
  ids : NoErrors (collect [] nodes).issues
  kinds : NoErrors (check_nodes definitions [] (collect [] nodes).by_id).issues
  triggers : NoErrors (
      trigger_issues require_trigger (check_nodes definitions [] (collect [] nodes).by_id).triggers)
  wires : NoErrors (check_connections definitions (collect [] nodes).by_id [] connections).issues
  cycles : NoErrors (
      cycle_issues (
        has_cycle (
          adjacency_of
            (collect [] nodes).by_id
            (check_connections definitions (collect [] nodes).by_id [] connections).accepted)))
  started : NoErrors (
      unconnected_issues
        (first_of (check_nodes definitions [] (collect [] nodes).by_id).triggers)
        (check_connections definitions (collect [] nodes).by_id [] connections).accepted)

stages :
    (definitions : Definitions) (require_trigger : Bool) (nodes connections : List Json)
    → NoErrors (validate_parts definitions require_trigger nodes connections).issues
    → Stages definitions require_trigger nodes connections
unfolding validate_parts
stages definitions require_trigger nodes connections h =
    let by_id = (collect [] nodes).by_id in
    let report = check_nodes definitions [] by_id in
    let wiring = check_connections definitions by_id [] connections in
    let (a, h1) = NoErrors-append (collect [] nodes).issues _ h in
    let (b, h2) = NoErrors-append report.issues _ h1 in
    let (c, h3) = NoErrors-append (trigger_issues require_trigger report.triggers) _ h2 in
    let (d, h4) = NoErrors-append wiring.issues _ h3 in
    let (e, h5) =
      NoErrors-append (cycle_issues (has_cycle (adjacency_of by_id wiring.accepted))) _ h4 in
    let (f, h6) = NoErrors-append (orphan_issues definitions by_id wiring.accepted by_id) _ h5 in
    record { ids = a; kinds = b; triggers = c; wires = d; cycles = e; started = h6 }

no_cycle : (r : Option Bool) → NoErrors (cycle_issues r) → r ≢ some true
unfolding cycle_issues
no_cycle r h p = ground arith

one : (ts : List String) → NoErrors (trigger_issues true ts) → (t : String) × (ts ≡ t ∷ [])
unfolding trigger_issues
one [] h = cc
one (t ∷ []) h = (t, refl)
one (t ∷ u ∷ ts) h = cc

started_at :
    (t : String) (accepted : List Edge)
    → NoErrors (unconnected_issues (some t) accepted)
    → has_outgoing accepted t ≡ true
unfolding unconnected_issues
started_at t accepted h = ground arith

LinkWalk-cycle :
    (by_id : Dict Fields) (accepted : List Edge)
    → ((e : Edge) → Memᴰ e accepted → IsSound by_id e)
    → NoErrors (cycle_issues (has_cycle (adjacency_of by_id accepted)))
    → (u : String) → ¬ LinkWalk accepted u u
LinkWalk-cycle by_id accepted sound h u w = elim (has_cycle_decides (adjacency_of by_id accepted)) [
  | inl (yes_cycle, c) ↦ no_cycle (has_cycle (adjacency_of by_id accepted)) h yes_cycle
  | inr (none_found, acyclic) ↦
      acyclic (u, Walk-LinkWalk by_id accepted (λ e m. (sound e m).source_known) w)
]

trigger_of_stages :
    (require_trigger : Bool) (ts : List String) (accepted : List Edge)
    → require_trigger ≡ true
    → NoErrors (trigger_issues require_trigger ts)
    → NoErrors (unconnected_issues (first_of ts) accepted)
    → (t : String) × (ts ≡ t ∷ []) × (has_outgoing accepted t ≡ true)
trigger_of_stages require_trigger ts accepted r h k =
    let (t, e) = one ts (subst (λ (b : Bool). NoErrors (trigger_issues b ts)) r h) in
    (
      t,
      e,
      started_at t accepted
          (subst (λ (l : List String). NoErrors (unconnected_issues (first_of l) accepted)) e k),
    )

IsAccepted-parts :
    (definitions : Definitions) (require_trigger : Bool) (nodes connections : List Json)
    → NoErrors (validate_parts definitions require_trigger nodes connections).issues
    → IsAccepted definitions require_trigger nodes connections
IsAccepted-parts definitions require_trigger nodes connections h =
    let s = stages definitions require_trigger nodes connections h in
    let by_id = (collect [] nodes).by_id in
    let all = check_connections-all definitions by_id [] connections s.wires in
    let ids = collect-all [] nodes s.ids in
    let (fresh, valid) = collect-Fresh [] nodes in
    let sound : ((e : Edge) → Memᴰ e (map edge_of connections) → IsSound by_id e) =
      λ e m. (check_connections-IsSound definitions by_id [] connections e (rw all m)).0 in
    record {
      valid_ids = subst AllValid ids valid;
      distinct_ids = subst (Fresh []) ids fresh;
      supported = check_nodes-supported definitions [] by_id s.kinds;
      sound = sound;
      separate = subst Separate all (check_connections-Separate definitions by_id [] connections);
      acyclic = LinkWalk-cycle by_id (map edge_of connections) sound (
          subst (λ (l : List Edge). NoErrors (cycle_issues (has_cycle (adjacency_of by_id l)))) all
            s.cycles);
      one_trigger = elim (Bool-cases require_trigger) [
        | inr free ↦ inl free
        | inl r ↦ inr (
            trigger_of_stages require_trigger (check_nodes definitions [] by_id).triggers
              (map edge_of connections) r s.triggers
              (subst
                (λ (l : List Edge).
                  NoErrors
                    (unconnected_issues (first_of (check_nodes definitions [] by_id).triggers) l))
                all s.started))
      ];
    }

is_nil-eq : (l : List Issue) → is_nil l ≡ true → l ≡ []
is_nil-eq [] h = refl
is_nil-eq (x ∷ l) h = cc

-- A graph whose validation reports no error has a list of connections and a list of at most
-- `max_nodes` nodes; the ids of the nodes match the pattern and are pairwise distinct, and their kinds are
-- registered, not disabled and not blocked; the connections join known and different nodes, no two
-- of them the same, and no walk along them comes back to its start; and if a trigger is required,
-- there is exactly one, and a connection leaves it.
pub validate_graph-accepts :
    (graph : Fields) (definitions : Definitions) (require_trigger : Bool)
    → is_ok (validate_graph graph definitions require_trigger) ≡ true
    → (nodes : Items) × (connections : Items) × (get "nodes" graph ≡ some (arr nodes))
      × (get "connections" graph ≡ some (arr connections))
      × (length (elements nodes) ≤ max_nodes)
      × IsAccepted definitions require_trigger (elements nodes) (elements connections)
unfolding is_ok validate_graph
validate_graph-accepts graph definitions require_trigger h =
    go (get "nodes" graph) (get "connections" graph) refl refl h
  where
    go :
        (n c : Option Json)
        → get "nodes" graph ≡ n
        → get "connections" graph ≡ c
        → is_nil (select is_error (validate_lists definitions require_trigger n c).issues) ≡ true
        → (nodes : Items) × (connections : Items) × (get "nodes" graph ≡ some (arr nodes))
          × (get "connections" graph ≡ some (arr connections))
          × (length (elements nodes) ≤ max_nodes)
          × IsAccepted definitions require_trigger (elements nodes) (elements connections)
    go (some (arr nodes)) (some (arr connections)) p q k =
        elim (Bool-cases (ltb max_nodes (length (elements nodes)))) [
          | inl big ↦ let k' = rw big at k in cc
          | inr fits ↦ (
            nodes,
            connections,
            p,
            q,
            omega (arith, ltb-false max_nodes (length (elements nodes)) fits),
            IsAccepted-parts definitions require_trigger (elements nodes) (elements connections)
                (is_nil-eq _ (rw fits at k)),
          )
        ]
    go _ _ p q k = cc
