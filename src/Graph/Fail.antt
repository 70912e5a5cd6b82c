-- ===== src/Graph/Fail.antt =====
-- gateway/src/dgx_moa/execution_graph.py: `fail_attempt` and `cancel`.
use mo_e_mo_a_integrated_com.Graph.{
  outgoing, edge_ids, last_match, is_terminal, is_edge_type, is_under_way, is_over, EdgeType,
  NodeState, GraphEdge, ExecutionGraph, NodeAttempt, GraphRuntime, Ran, GraphEnv, on_failure,
  on_retryable_failure, on_fallback, waiting_dependency, retrying, fallback, degraded, failed,
  cancelled, not_active, bad_evidence_ids, bad_failure, no_cancellation_edge, raised, returned,
}
use mo_e_mo_a_integrated_com.Graph.Spread.{descendants}
use mo_e_mo_a_integrated_com.Graph.Ready.{set_all, map_states, find_attempt, set_attempt, persist}
use mo_e_mo_a_integrated_com.Graph.Edges.{record_edges, stop_attempts, close_unselected, starts_in}
use mo_e_mo_a_integrated_com.Graph.Finish.{are_bounded, is_sha256, active_attempt}
use mo_e_mo_a_integrated_com.Dict.{lookup, insert}
use mo_e_mo_a_integrated_com.Base.{
  ℕ, ◌+◌, String, ◌==◌, Bool, true, not, ◌&&◌, ◌||◌, Option, none, some, List, [], ◌∷◌, ◌++◌, ltb,
  eqb, if◌then◌else◌, get_or, keep_if, is_empty, first, codes, contains, dedup,
}

pub record FailArgs : Type 0 where
  pub failure_code : String
  pub failure_fingerprint : String
  pub retryable : Bool
  pub generated_evidence_ids : List String

abbrev pub edge_out : GraphRuntime → String → EdgeType → Option GraphEdge
edge_out r id t = first (λ e. is_edge_type e.edge_type t) (outgoing r.graph id)

abbrev pub used_times : GraphEdge → GraphRuntime → ℕ
used_times e r = get_or (lookup e.edge_id r.traversal_counts) 0

-- What is written of a failure before its edge is chosen.
unfoldable pub mark_failed : FailArgs → NodeAttempt → ℕ → GraphRuntime → GraphRuntime
unfolding set_attempt
mark_failed args a now r = record r {
  attempts =
      set_attempt a.attempt_id
        (λ b. record b {
          state = failed;
          ended_at = some now;
          failure_code = some args.failure_code;
          failure_fingerprint = some args.failure_fingerprint;
        })
        r.attempts;
  node_states = insert a.node_id failed r.node_states;
  failure_fingerprints =
      (if contains args.failure_fingerprint r.failure_fingerprints
        then r.failure_fingerprints
        else r.failure_fingerprints ++ args.failure_fingerprint ∷ []);
}

unfoldable pub note_evidence : FailArgs → NodeAttempt → GraphRuntime → GraphRuntime
unfolding set_attempt
note_evidence args a r = record r {
  attempts =
      set_attempt a.attempt_id
        (λ b. record b { generated_evidence_ids = dedup args.generated_evidence_ids }) r.attempts;
}

-- The retry edge, if the failure is retryable and the edge may be taken once more.
unfoldable pub usable_retry : FailArgs → NodeAttempt → GraphRuntime → Option GraphEdge
usable_retry args a r = elim (edge_out r a.node_id on_retryable_failure) [
  | none ↦ none
  | some e ↦ if args.retryable && ltb (used_times e r) e.max_traversals then some e else none
]

unfoldable pub retry_on : GraphEdge → NodeAttempt → GraphRuntime → GraphRuntime
retry_on e a r = record r {
  traversal_counts = insert e.edge_id (used_times e r + 1) r.traversal_counts;
  node_states = insert a.node_id retrying r.node_states;
}

-- The fallback edge, unless it is bounded and used up.
unfoldable pub usable_fallback : NodeAttempt → GraphRuntime → Option GraphEdge
usable_fallback a r = elim (edge_out r a.node_id on_fallback) [
  | none ↦ none
  | some e ↦
      if eqb e.max_traversals 0 || ltb (used_times e r) e.max_traversals then some e else none
]

-- A fallback that may be taken once degrades the node; a bounded one rewinds what follows it.
unfoldable pub fall_back : GraphEdge → NodeAttempt → GraphRuntime → GraphRuntime
unfolding descendants set_all
fall_back e a r =
    let affected = descendants r.graph e.to_node in
    if eqb e.max_traversals 0
    then record r {
      node_states = insert e.to_node fallback (insert a.node_id degraded r.node_states);
    }
    else record r {
      traversal_counts = insert e.edge_id (used_times e r + 1) r.traversal_counts;
      selected_edge_ids = keep_if (λ id. not (starts_in r.graph affected id)) r.selected_edge_ids;
      node_states =
          insert e.to_node fallback (
            insert a.node_id waiting_dependency
              (set_all affected waiting_dependency r.node_states));
    }

-- The selected edges are recorded, what they close is closed, and the attempt is persisted.
unfoldable pub record_failure_edges :
    GraphEnv → List GraphEdge → NodeAttempt → ℕ → GraphRuntime → GraphRuntime
unfolding set_attempt record_edges close_unselected persist find_attempt
record_failure_edges env es a now r =
    let r1 = record r {
      attempts =
          set_attempt a.attempt_id (λ b. record b { selected_outgoing_edges = edge_ids es })
            r.attempts;
      selected_edge_ids = record_edges es r.selected_edge_ids;
    } in
    let r2 = close_unselected es a.node_id now r1 in
    persist env (find_attempt a.attempt_id r2.attempts) "attempt_failed" now r2

unfoldable pub failure_edges : NodeAttempt → GraphRuntime → List GraphEdge
failure_edges a r = keep_if (λ e. is_edge_type e.edge_type on_failure) (outgoing r.graph a.node_id)

unfoldable pub route_failure : GraphEnv → FailArgs → NodeAttempt → ℕ → GraphRuntime → GraphRuntime
unfolding usable_retry retry_on usable_fallback fall_back record_failure_edges failure_edges
route_failure env args a now r = elim (usable_retry args a r) [
  | some e ↦ record_failure_edges env (e ∷ []) a now (retry_on e a r)
  | none ↦ elim (usable_fallback a r) [
    | some e ↦ record_failure_edges env (e ∷ []) a now (fall_back e a r)
    | none ↦ record_failure_edges env (failure_edges a r) a now r
  ]
]

-- The evidence ids are checked only after the failure is written, which stays if they are refused.
unfoldable pub fail_node : GraphEnv → FailArgs → NodeAttempt → ℕ → GraphRuntime → Ran Unit
unfolding mark_failed note_evidence route_failure are_bounded is_sha256
fail_node env args a now r =
    let marked = mark_failed args a now r in
    if is_empty (codes args.failure_code) || not (is_sha256 args.failure_fingerprint)
    then raised bad_failure r
    else if not (are_bounded args.generated_evidence_ids)
    then raised bad_evidence_ids marked
    else returned tt (route_failure env args a now (note_evidence args a marked))

unfoldable pub fail_attempt : GraphEnv → FailArgs → String → ℕ → GraphRuntime → Ran Unit
unfolding active_attempt fail_node
fail_attempt env args attempt_id now r = elim (active_attempt attempt_id r) [
  | none ↦ raised not_active r
  | some a ↦ fail_node env args a now r
]

-- The entry node, by which a run is cancelled when nothing is under way.
abbrev pub first_entry : ExecutionGraph → String
first_entry g = get_or (first (λ id. true) g.entry_nodes) ""

abbrev pub first_terminal : ExecutionGraph → String
first_terminal g = get_or (first (λ id. true) g.terminal_nodes) ""

-- The node of the last attempt under way, unless it is terminal.
unfoldable pub cancel_source : GraphRuntime → String
cancel_source r = elim (last_match (λ a. is_under_way a.state) r.attempts) [
  | none ↦ first_entry r.graph
  | some a ↦ if is_terminal r.graph a.node_id then first_entry r.graph else a.node_id
]

unfoldable pub cancelled_state : String → String → NodeState → NodeState
cancelled_state terminal id state =
    if id == terminal then waiting_dependency else if is_over state then state else cancelled

-- What is written before the edge that ends the run is looked for.
unfoldable pub cancel_all : ℕ → GraphRuntime → GraphRuntime
unfolding stop_attempts map_states cancelled_state
cancel_all now r =
    let r' = stop_attempts (λ a. is_under_way a.state) "GRAPH_CANCELLED" now r in
    record r' { node_states = map_states (cancelled_state (first_terminal r.graph)) r'.node_states }

unfoldable pub end_cancelled : GraphEnv → ℕ → GraphRuntime → Ran Unit
unfolding cancel_source cancel_all record_edges persist
end_cancelled env now r =
    let r' = cancel_all now r in
    elim (first (λ e. is_edge_type e.edge_type on_failure && e.to_node == first_terminal r.graph)
      (outgoing r.graph (cancel_source r))) [
        | none ↦ raised no_cancellation_edge r'
        | some e ↦ returned tt (
            persist env none "cancelled" now (record r' {
              selected_edge_ids = record_edges (e ∷ []) r'.selected_edge_ids;
              terminal_status = none;
            }))
      ]

unfoldable pub cancel : GraphEnv → ℕ → GraphRuntime → Ran Unit
unfolding end_cancelled
cancel env now r = if r.final_emitted then returned tt r else end_cancelled env now r
