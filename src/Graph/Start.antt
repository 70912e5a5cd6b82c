-- ===== src/Graph/Start.antt =====
-- gateway/src/dgx_moa/execution_graph.py: `start_attempt`.
use mo_e_mo_a_integrated_com.Graph.{
  incoming, outgoing, edge_ids, find_node, then_run, NodeType, NodeState, GraphNode, GraphEdge,
  NodeAttempt, GraphRuntime, Ran, GraphEnv, tool, human_approval, running, waiting_tool,
  waiting_approval, deadline_exceeded, not_ready, provider_pin_mismatch, empty_model,
  model_pin_mismatch, missing_node, raised, returned,
}
use mo_e_mo_a_integrated_com.Graph.Ready.{set_default, ready_node_ids, last_moment, persist}
use mo_e_mo_a_integrated_com.Dict.{Dict, lookup, insert}
use mo_e_mo_a_integrated_com.Base.{
  ℕ, ◌+◌, String, ◌==◌, Bool, false, not, Option, none, some, List, [], ◌∷◌, ◌++◌, map, leb,
  if◌then◌else◌, get_or, keep_if, is_empty, first, codes, contains,
}

-- A provider that is named and not empty is pinned; none where another is pinned.
unfoldable pub pin_to : String → Option String → Dict String → Option (Dict String)
unfolding set_default
pin_to id none pins = some pins
pin_to id (some name) pins =
    if is_empty (codes name)
    then some pins
    else if get_or (lookup id (set_default id name pins)) name == name
    then some (set_default id name pins)
    else none

abbrev pub is_blank_text : Option String → Bool
is_blank_text none = false
is_blank_text (some t) = is_empty (codes t)

abbrev pub started_state : NodeType → NodeState
started_state human_approval = waiting_approval
started_state tool = waiting_tool
started_state _ = running

abbrev pub last_of : List String → Option String
last_of [] = none
last_of (x ∷ []) = some x
last_of (x ∷ y ∷ xs) = last_of (y ∷ xs)

-- The incoming edges that are selected.
abbrev pub taken_edges : GraphRuntime → String → List GraphEdge
taken_edges r id = keep_if (λ e. contains e.edge_id r.selected_edge_ids) (incoming r.graph id)

unfoldable pub new_attempt : GraphEnv → GraphNode → Dict String → ℕ → ℕ → GraphRuntime → NodeAttempt
new_attempt env n models count now r = record {
  node_id = n.node_id;
  attempt_id = env.attempt_name n.node_id count;
  node_type = n.node_type;
  role = n.role;
  provider = n.provider;
  model = lookup n.node_id models;
  state = started_state n.node_type;
  parent_node_ids = map (λ e. e.from_node) (taken_edges r n.node_id);
  parallel_group_id = n.parallel_group_id;
  selected_incoming_edge = last_of (edge_ids (taken_edges r n.node_id));
  available_outgoing_edges = edge_ids (outgoing r.graph n.node_id);
  selected_outgoing_edges = [];
  started_at = now;
  ended_at = none;
  deadline = r.graph.deadline;
  latency_ms = none;
  token_usage = 0;
  cached_tokens = none;
  cost_usd = none;
  failure_code = none;
  failure_fingerprint = none;
  progress_evidence_ids = [];
  generated_evidence_ids = [];
  validated_evidence_ids = [];
  contradicted_evidence_ids = [];
  public_output_ref = none;
  artifact_hash = none;
  checkpoint_id = none;
}

-- The attempt is counted, appended and persisted.
unfoldable pub begin_attempt : GraphEnv → GraphNode → ℕ → GraphRuntime → Ran NodeAttempt
unfolding new_attempt persist
begin_attempt env n now r =
    let count = get_or (lookup n.node_id r.attempt_counts) 0 + 1 in
    let a = new_attempt env n r.model_pins count now r in
    returned a (
      persist env (some a) "attempt_started" now (record r {
        attempt_counts = insert n.node_id count r.attempt_counts;
        node_states = insert n.node_id a.state r.node_states;
        attempts = r.attempts ++ a ∷ [];
      }))

-- The pins are set before the model is looked at, and stay if that is refused.
unfoldable pub start_node :
    GraphEnv → GraphNode → Option String → ℕ → GraphRuntime → Ran NodeAttempt
unfolding pin_to begin_attempt
start_node env n model now r = elim (pin_to n.node_id n.provider r.provider_pins) [
  | none ↦ raised provider_pin_mismatch r
  | some providers ↦
      let r' = record r { provider_pins = providers } in
      if is_blank_text model
      then raised empty_model r'
      else elim (pin_to n.node_id model r.model_pins) [
        | none ↦ raised model_pin_mismatch r'
        | some models ↦ begin_attempt env n now (record r' { model_pins = models })
      ]
]

unfoldable pub start_attempt :
    GraphEnv → String → Option String → ℕ → GraphRuntime → Ran NodeAttempt
unfolding last_moment ready_node_ids start_node find_node
start_attempt env id model now r =
    if leb (last_moment r.graph) now
    then raised deadline_exceeded r
    else if not (contains id (ready_node_ids r))
    then raised not_ready r
    else elim (find_node r.graph id) [
      | none ↦ raised missing_node r
      | some n ↦ start_node env n model now r
    ]

-- ExecutionGraphRuntime.start_node_type; none where the graph has no such node.
unfoldable pub start_node_type :
    GraphEnv → (GraphNode → Bool) → Option String → ℕ → GraphRuntime → Ran (Option NodeAttempt)
unfolding start_attempt then_run
start_node_type env wanted model now r = elim (first wanted r.graph.nodes) [
  | none ↦ returned none r
  | some n ↦ then_run (start_attempt env n.node_id model now r) (λ a r'. returned (some a) r')
]
