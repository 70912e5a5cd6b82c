-- ===== src/Graph/Rerun.antt =====
-- gateway/src/dgx_moa/execution_graph.py: `partial_rerun` and `resume`.
use mo_e_mo_a_integrated_com.Graph.{
  node_ids, edge_ids, last_match, find_node, is_terminal, is_interrupted, is_over, is_succeeded,
  then_run, ExecutionGraph, NodeAttempt, GraphCheckpoint, GraphRuntime, GraphFault, Ran, GraphEnv,
  queued, waiting_dependency, saved_graph, nothing_invalidated, unknown_nodes, not_completed,
  verification_required, hash_mismatch, raised, returned,
}
use mo_e_mo_a_integrated_com.Graph.Spread.{spread, is_forward}
use mo_e_mo_a_integrated_com.Graph.Ready.{set_all, find_attempt, persist}
use mo_e_mo_a_integrated_com.Graph.Edges.{starts_in}
use mo_e_mo_a_integrated_com.Graph.Finish.{is_sha256, is_subset, fault_if}
use mo_e_mo_a_integrated_com.Graph.Fail.{fail_attempt, FailArgs}
use mo_e_mo_a_integrated_com.Dict.{Dict, lookup, values, keys}
use mo_e_mo_a_integrated_com.Base.{
  ℕ, String, ◌==◌, Bool, true, false, not, ◌&&◌, Option, none, some, List, [], ◌∷◌, ◌++◌, map, leb,
  eqb, if◌then◌else◌, is_some, map_some, keep_if, any, all, is_empty, codes, contains,
}

-- node_states[node_id] in {SUCCEEDED, DEGRADED, FAILED}
abbrev pub was_completed : GraphRuntime → String → Bool
was_completed r id = elim (lookup id r.node_states) [ none ↦ false | some state ↦ is_over state ]

abbrev pub has_succeeded : GraphRuntime → String → Bool
has_succeeded r id = elim (lookup id r.node_states) [
  | none ↦ false
  | some state ↦ is_succeeded state
]

-- The artifacts of the nodes that the rerun leaves alone.
abbrev pub preserved_of : GraphRuntime → List String → Dict String → Dict String
preserved_of r affected [] = []
preserved_of r affected ((id, hash) ∷ d) =
    let rest = preserved_of r affected d in
    if not (contains id affected) && has_succeeded r id then (id, hash) ∷ rest else rest

abbrev pub has_hash : Dict String → String → String → Bool
has_hash verified id hash = elim (lookup id verified) [ none ↦ false | some h ↦ h == hash ]

abbrev pub all_hashes : Dict String → Dict String → Bool
all_hashes verified [] = true
all_hashes verified ((id, hash) ∷ d) = has_hash verified id hash && all_hashes verified d

unfoldable pub verification_fault : Dict String → Option (Dict String) → Option GraphFault
verification_fault preserved none = if is_empty preserved then none else some verification_required
verification_fault preserved (some verified) =
    if all_hashes verified preserved then none else some hash_mismatch

unfoldable pub rerun_fault :
    List String → List String → Option (Dict String) → GraphRuntime → Option GraphFault
unfolding verification_fault
rerun_fault invalidated affected verified r = fault_if (is_empty invalidated) nothing_invalidated (
    fault_if (not (all (λ id. is_some (lookup id r.node_states)) invalidated)) unknown_nodes (
      fault_if (not (all (was_completed r) invalidated)) not_completed
        (verification_fault (preserved_of r affected r.artifact_hashes) verified)))

-- The nodes that the invalidated ones lead to, themselves included.
unfoldable pub affected_by : ExecutionGraph → List String → List String
unfolding spread
affected_by g invalidated = spread is_forward g.edges invalidated

unfoldable pub reset_nodes : List String → List String → GraphRuntime → GraphRuntime
unfolding set_all
reset_nodes invalidated affected r =
    let ends = any (is_terminal r.graph) affected in
    record r {
      selected_edge_ids = keep_if (λ id. not (starts_in r.graph affected id)) r.selected_edge_ids;
      node_states = set_all invalidated queued (set_all affected waiting_dependency r.node_states);
      final_emitted = (if ends then false else r.final_emitted);
      terminal_status = (if ends then none else r.terminal_status);
    }

-- ExecutionGraphRuntime.partial_rerun: the affected nodes in the order of the graph.
unfoldable pub partial_rerun :
    GraphEnv → List String → Option (Dict String) → ℕ → GraphRuntime → Ran (List String)
unfolding rerun_fault affected_by reset_nodes persist
partial_rerun env invalidated verified now r =
    let affected = affected_by r.graph invalidated in
    elim (rerun_fault invalidated affected verified r) [
      | some fault ↦ raised fault r
      | none ↦
          returned (keep_if (λ id. contains id affected) (node_ids r.graph))
            (persist env none "partial_rerun" now (reset_nodes invalidated affected r))
    ]

-- The checkpoint is of the graph, and is what was written.
unfoldable pub is_compatible : GraphEnv → ExecutionGraph → GraphCheckpoint → Bool
is_compatible env g cp =
    cp.graph_id == g.graph_id
    && cp.graph_hash == g.graph_hash
    && cp.graph_schema_version == g.graph_schema_version
    && cp.compiler_version == g.compiler_version
    && cp.policy_version == g.policy_version
    && cp.snapshot_hash == env.checkpoint_hash (record cp { snapshot_hash = "" })

-- edge.edge_id: edge.max_traversals for the edges that may be traversed repeatedly
abbrev pub repeat_bound : ExecutionGraph → String → Option ℕ
repeat_bound g id =
    map_some (λ e. e.max_traversals)
      (last_match (λ e. e.edge_id == id && not (eqb e.max_traversals 0)) g.edges)

abbrev pub within_bound : ExecutionGraph → String → ℕ → Bool
within_bound g id count = elim (repeat_bound g id) [ none ↦ false | some most ↦ leb count most ]

abbrev pub all_within : ExecutionGraph → Dict ℕ → Bool
all_within g [] = true
all_within g ((id, count) ∷ d) = within_bound g id count && all_within g d

-- The checks on the fields of a checkpoint; its counts are natural numbers.
unfoldable pub is_consistent : ExecutionGraph → GraphCheckpoint → Bool
unfolding is_sha256
is_consistent g cp =
    is_subset cp.selected_edges (edge_ids g.edges)
    && all_within g cp.traversal_counts
    && is_subset (keys cp.attempt_counts) (node_ids g)
    && is_subset (keys cp.artifact_hashes) (node_ids g)
    && is_subset (keys cp.model_pins) (node_ids g)
    && all (λ t. not (is_empty (codes t))) (values cp.model_pins)
    && all is_sha256 (values cp.artifact_hashes)
    && leb cp.token_usage g.budgets.tokens
    && leb cp.tool_calls g.budgets.tool_calls

abbrev pub is_pin : ExecutionGraph → String → String → Bool
is_pin g id name = elim (find_node g id) [
  | none ↦ false
  | some n ↦ elim n.provider [ none ↦ false | some p ↦ p == name ]
]

abbrev pub all_pins : ExecutionGraph → Dict String → Bool
all_pins g [] = true
all_pins g ((id, name) ∷ d) = is_pin g id name && all_pins g d

-- set(checkpoint.node_states) == {node.node_id for node in graph.nodes}
abbrev pub same_nodes : ExecutionGraph → GraphCheckpoint → Bool
same_nodes g cp =
    is_subset (keys cp.node_states) (node_ids g) && is_subset (node_ids g) (keys cp.node_states)

unfoldable pub restored :
    GraphEnv → ExecutionGraph → GraphCheckpoint → List NodeAttempt → Bool → GraphRuntime
restored env g cp attempts stored = record {
  graph = g;
  stored = stored;
  journal = [];
  node_states = cp.node_states;
  selected_edge_ids = cp.selected_edges;
  traversal_counts = cp.traversal_counts;
  attempt_counts = cp.attempt_counts;
  attempts = attempts;
  provider_pins = cp.provider_pins;
  model_pins = cp.model_pins;
  artifact_hashes = cp.artifact_hashes;
  failure_fingerprints = cp.failure_fingerprints;
  progress_evidence_ids = cp.progress_evidence_ids;
  token_usage = cp.token_usage;
  tool_calls = cp.tool_calls;
  final_emitted = cp.final_emitted;
  terminal_status = cp.terminal_status;
  last_checkpoint_id = some cp.checkpoint_id;
  checkpoint_count = env.checkpoint_number cp.checkpoint_id;
  active_state_object_ref = cp.active_state_object_ref;
  event_cursor = cp.event_cursor;
  checkpoint_size_before = cp.size_before;
  checkpoint_size_after = cp.size_after;
}

abbrev pub restart_args : GraphEnv → FailArgs
restart_args env = record {
  failure_code = "GRAPH_PROCESS_RESTART";
  failure_fingerprint = env.text_hash "GRAPH_PROCESS_RESTART";
  retryable = true;
  generated_evidence_ids = [];
}

-- The attempts that were running when the process ended fail, each unless an earlier failure has
-- cancelled it meanwhile: the list holds the objects, whose states are read again.
unfoldable pub fail_interrupted : GraphEnv → List String → ℕ → GraphRuntime → Ran Unit
unfolding fail_attempt find_attempt then_run
fail_interrupted env [] now r = returned tt r
fail_interrupted env (id ∷ ids) now r = elim (find_attempt id r.attempts) [
  | none ↦ fail_interrupted env ids now r
  | some a ↦ elim (is_interrupted a.state) [
    | false ↦ fail_interrupted env ids now r
    | true ↦
        then_run (fail_attempt env (restart_args env) id now r)
          (λ u r'. fail_interrupted env ids now r')
  ]
]

unfoldable pub resume_with : GraphEnv → ℕ → GraphRuntime → Ran Unit
unfolding fail_interrupted persist then_run
resume_with env now r =
    let interrupted = map (λ a. a.attempt_id) (keep_if (λ a. is_interrupted a.state) r.attempts) in
    then_run (fail_interrupted env interrupted now r) (λ u r'. returned tt (
      persist env none "resumed" now (record r' {
        journal = (if r'.stored then r'.journal ++ saved_graph r'.graph ∷ [] else r'.journal);
      })))

-- ExecutionGraphRuntime.resume: none where the checkpoint is refused as incompatible.
unfoldable pub resume :
    GraphEnv → ExecutionGraph → GraphCheckpoint → List NodeAttempt → Bool → ℕ → Option (Ran Unit)
unfolding is_compatible is_consistent restored resume_with
resume env g cp attempts stored now =
    if is_compatible env g cp
      && same_nodes g cp
      && is_consistent g cp
      && all_pins g cp.provider_pins
    then some (resume_with env now (restored env g cp attempts stored))
    else none
