-- ===== src/Graph/Ready.antt =====
-- gateway/src/dgx_moa/execution_graph.py: the runtime's first state, which nodes are ready, the
-- attempts, and the checkpoints. Each call reads the clock once, as its argument `now`.
use mo_e_mo_a_integrated_com.Graph.{
  incoming, outgoing, edge_ids, last_match, is_entry, is_edge_type, is_under_way, may_start,
  is_complete, NodeState, GraphNode, GraphEdge, ExecutionGraph, NodeAttempt, GraphCheckpoint, Saved,
  GraphRuntime, Ran, GraphEnv, on_failure, on_retryable_failure, queued, waiting_dependency, failed,
  cancelled, saved_graph, saved_attempt, saved_checkpoint, bad_reason, raised, returned,
}
use mo_e_mo_a_integrated_com.Dict.{Dict, lookup, insert}
use mo_e_mo_a_integrated_com.Base.{
  ℕ, ◌+◌, ◌-◌, min, String, ◌==◌, Bool, true, false, not, ◌&&◌, ◌||◌, Option, none, some, List, [],
  ◌∷◌, ◌++◌, map, if◌then◌else◌, is_some, get_or, keep_if, any, all, is_empty, codes, contains,
}

-- d.setdefault(key, value)
unfoldable pub set_default {ℓ} : {V : Type ℓ} → String → V → Dict V → Dict V
set_default key value d = if is_some (lookup key d) then d else insert key value d

-- for node_id in ids: node_states[node_id] = state
unfoldable pub set_all : List String → NodeState → Dict NodeState → Dict NodeState
set_all [] state d = d
set_all (id ∷ ids) state d = set_all ids state (insert id state d)

-- for node_id, state in node_states.items(): node_states[node_id] = f(node_id, state)
unfoldable pub map_states : (String → NodeState → NodeState) → Dict NodeState → Dict NodeState
map_states f [] = []
map_states f ((id, state) ∷ d) = (id, f id state) ∷ map_states f d

unfoldable pub first_states : ExecutionGraph → List GraphNode → Dict NodeState → Dict NodeState
first_states g [] d = d
first_states g (n ∷ ns) d =
    first_states g ns
      (insert n.node_id (if is_entry g n.node_id then queued else waiting_dependency) d)

-- ExecutionGraphRuntime.__init__, on a graph that is valid; a fresh store has an empty journal.
unfoldable pub new_runtime : ExecutionGraph → Bool → GraphRuntime
unfolding first_states
new_runtime g stored = record {
  graph = g;
  stored = stored;
  journal = (if stored then saved_graph g ∷ [] else []);
  node_states = first_states g g.nodes [];
  selected_edge_ids = [];
  traversal_counts = [];
  attempt_counts = [];
  attempts = [];
  provider_pins = [];
  model_pins = [];
  artifact_hashes = [];
  failure_fingerprints = [];
  progress_evidence_ids = [];
  token_usage = 0;
  tool_calls = 0;
  final_emitted = false;
  terminal_status = none;
  last_checkpoint_id = none;
  checkpoint_count = 0;
  active_state_object_ref = "";
  event_cursor = 0;
  checkpoint_size_before = 0;
  checkpoint_size_after = 0;
}

-- The edges that a JOIN waits for.
abbrev pub is_required : GraphEdge → Bool
is_required e =
    not (is_edge_type e.edge_type on_failure || is_edge_type e.edge_type on_retryable_failure)

unfoldable pub join_ready : List GraphEdge → List String → Bool
join_ready es selected =
    let required = keep_if is_required es in
    not (is_empty required) && all (λ e. contains e.edge_id selected) required

-- ExecutionGraphRuntime._is_ready; a node without a state, which no runtime has, is not ready.
unfoldable pub is_ready : GraphRuntime → GraphNode → Bool
unfolding join_ready
is_ready r n =
    let es = incoming r.graph n.node_id in
    elim (lookup n.node_id r.node_states) [
      | none ↦ false
      | some state ↦
          may_start state
          && (if is_empty es
              then is_entry r.graph n.node_id
              else if n.join_all
              then join_ready es r.selected_edge_ids
              else any (λ e. contains e.edge_id r.selected_edge_ids) es)
    ]

-- ExecutionGraphRuntime.ready_node_ids
unfoldable pub ready_node_ids : GraphRuntime → List String
unfolding is_ready
ready_node_ids r = map (λ n. n.node_id) (keep_if (is_ready r) r.graph.nodes)

-- min(deadline, budget_deadline)
unfoldable pub last_moment : ExecutionGraph → ℕ
last_moment g = min g.deadline (g.created_at + g.budgets.wall_clock_seconds)

-- next(item for item in reversed(attempts) if item.attempt_id == attempt_id)
unfoldable pub find_attempt : String → List NodeAttempt → Option NodeAttempt
find_attempt id xs = last_match (λ a. a.attempt_id == id) xs

-- The object that `find_attempt` finds is changed in place.
unfoldable pub set_attempt :
    String → (NodeAttempt → NodeAttempt) → List NodeAttempt → List NodeAttempt
set_attempt id f [] = []
set_attempt id f (a ∷ xs) =
    let rest = set_attempt id f xs in
    if any (λ b. b.attempt_id == id) xs
    then a ∷ rest
    else if a.attempt_id == id
    then f a ∷ xs
    else a ∷ xs

-- The states of {CANCELLED, FAILED} are in no list of a checkpoint.
abbrev pub is_pending : NodeState → Bool
is_pending cancelled = false
is_pending failed = false
is_pending state = not (is_under_way state || is_complete state)

abbrev pub ids_where : (NodeState → Bool) → Dict NodeState → List String
ids_where p [] = []
ids_where p ((id, state) ∷ d) = let rest = ids_where p d in if p state then id ∷ rest else rest

abbrev pub edges_from : ExecutionGraph → List String → List String
edges_from g [] = []
edges_from g (id ∷ ids) = edge_ids (outgoing g id) ++ edges_from g ids

-- The source subtracts the counts without a bound; `finish_attempt` checks them before they grow.
unfoldable pub snapshot_of : GraphEnv → String → ℕ → GraphRuntime → GraphCheckpoint
unfolding ready_node_ids last_moment
snapshot_of env reason now r =
    let raw : GraphCheckpoint = record {
      checkpoint_id = env.checkpoint_name r.checkpoint_count;
      graph_id = r.graph.graph_id;
      graph_hash = r.graph.graph_hash;
      graph_schema_version = r.graph.graph_schema_version;
      compiler_version = r.graph.compiler_version;
      policy_version = r.graph.policy_version;
      parent_checkpoint_id = r.last_checkpoint_id;
      completed_node_ids = ids_where is_complete r.node_states;
      active_node_ids = ids_where is_under_way r.node_states;
      pending_node_ids = ids_where is_pending r.node_states;
      selected_edges = r.selected_edge_ids;
      available_edges = edges_from r.graph (ready_node_ids r);
      provider_pins = r.provider_pins;
      model_pins = r.model_pins;
      artifact_hashes = r.artifact_hashes;
      remaining_budgets = record {
        tokens = r.graph.budgets.tokens - r.token_usage;
        tool_calls = r.graph.budgets.tool_calls - r.tool_calls;
        wall_clock_seconds = last_moment r.graph - now;
      };
      failure_fingerprints = r.failure_fingerprints;
      progress_evidence_ids = r.progress_evidence_ids;
      active_state_object_ref = r.active_state_object_ref;
      event_cursor = r.event_cursor;
      snapshot_hash = "";
      size_before = r.checkpoint_size_before;
      size_after = r.checkpoint_size_after;
      reason = reason;
      created_at = now;
      node_states = r.node_states;
      traversal_counts = r.traversal_counts;
      attempt_counts = r.attempt_counts;
      token_usage = r.token_usage;
      tool_calls = r.tool_calls;
      final_emitted = r.final_emitted;
      terminal_status = r.terminal_status;
    } in
    record raw { snapshot_hash = env.checkpoint_hash raw }

-- What a caller of `checkpoint` may give; the fields left out keep the runtime's values.
pub record CheckpointArgs : Type 0 where
  pub active_state_object_ref : Option String
  pub event_cursor : Option ℕ
  pub size_before : Option ℕ
  pub size_after : Option ℕ
  pub persist : Bool

abbrev pub default_args : CheckpointArgs
default_args = record {
  active_state_object_ref = none;
  event_cursor = none;
  size_before = none;
  size_after = none;
  persist = true;
}

-- The runtime as the checkpoint is taken.
unfoldable pub counted_runtime : CheckpointArgs → GraphRuntime → GraphRuntime
counted_runtime args r = record r {
  active_state_object_ref = get_or args.active_state_object_ref r.active_state_object_ref;
  event_cursor = get_or args.event_cursor r.event_cursor;
  checkpoint_size_before = get_or args.size_before r.checkpoint_size_before;
  checkpoint_size_after = get_or args.size_after r.checkpoint_size_after;
  checkpoint_count = r.checkpoint_count + 1;
}

-- ExecutionGraphRuntime.checkpoint, with a reason that is not empty
unfoldable pub take_checkpoint :
    GraphEnv → CheckpointArgs → String → ℕ → GraphRuntime → GraphCheckpoint × GraphRuntime
unfolding counted_runtime snapshot_of
take_checkpoint env args reason now r =
    let r' = counted_runtime args r in
    let cp = snapshot_of env reason now r' in
    (
      cp,
      record r' {
        last_checkpoint_id = some cp.checkpoint_id;
        journal =
            (if args.persist && r.stored then r.journal ++ saved_checkpoint cp ∷ [] else r.journal);
      },
    )

unfoldable pub checkpoint_for :
    GraphEnv → CheckpointArgs → String → ℕ → GraphRuntime → Ran GraphCheckpoint
unfolding take_checkpoint
checkpoint_for env args reason now r =
    let taken = take_checkpoint env args reason now r in
    if is_empty (codes reason) then raised bad_reason r else returned taken.0 taken.1

abbrev pub save_attempt : Option NodeAttempt → List Saved → List Saved
save_attempt none js = js
save_attempt (some a) js = js ++ saved_attempt a ∷ []

-- ExecutionGraphRuntime._persist
unfoldable pub persist : GraphEnv → Option NodeAttempt → String → ℕ → GraphRuntime → GraphRuntime
unfolding take_checkpoint
persist env attempt reason now r =
    if r.stored
    then (take_checkpoint env default_args reason now
        (record r { journal = save_attempt attempt r.journal })).1
    else r
