-- ===== src/Graph/Finish.antt =====
-- gateway/src/dgx_moa/execution_graph.py: `finish_attempt` and the calls that end in it.
use mo_e_mo_a_integrated_com.Graph.{
  edge_ids, find_node, is_type, is_edge_type, is_active_state, is_completed, EdgeType,
  TerminalStatus, GraphNode, GraphEdge, NodeAttempt, GraphRuntime, GraphFault, Ran, GraphEnv, tool,
  checkpoint, finalize, on_success, on_failure, on_retryable_failure, on_finding, on_approval,
  on_rejection, on_fallback, succeeded, not_active, bad_cached_tokens, token_budget_exhausted,
  tool_budget_exhausted, bad_evidence_ids, bad_artifact_hash, unvalidated_progress,
  unvalidated_approval, wrong_outcome, missing_status, unvalidated_completion, already_emitted,
  status_not_final, no_edge, missing_node, raised, returned,
}
use mo_e_mo_a_integrated_com.Graph.Ready.{
  find_attempt, set_attempt, default_args, take_checkpoint, save_attempt, persist,
}
use mo_e_mo_a_integrated_com.Graph.Edges.{select_outcome_edges, apply_selected_edges, Choice}
use mo_e_mo_a_integrated_com.Dict.{Dict, insert}
use mo_e_mo_a_integrated_com.Base.{
  ℕ, ◌+◌, String, Bool, true, not, ◌&&◌, ◌||◌, Option, none, some, List, [], ◌++◌, ltb, leb, eqb,
  if◌then◌else◌, is_some, length, keep_if, all, is_empty, codes, contains, dedup,
}

-- The arguments of `finish_attempt`, each with the value it has where a caller leaves it out.
pub record FinishArgs : Type 0 where
  pub outcome : EdgeType
  pub token_usage : ℕ
  pub cached_tokens : Option ℕ
  pub cost_usd : Option ℕ
  pub latency_ms : Option ℕ
  pub progress_evidence_ids : List String
  pub generated_evidence_ids : List String
  pub validated_evidence_ids : List String
  pub contradicted_evidence_ids : List String
  pub public_output_ref : Option String
  pub artifact_hash : Option String
  pub terminal_status : Option TerminalStatus

abbrev pub finish_defaults : FinishArgs
finish_defaults = record {
  outcome = on_success;
  token_usage = 0;
  cached_tokens = none;
  cost_usd = none;
  latency_ms = none;
  progress_evidence_ids = [];
  generated_evidence_ids = [];
  validated_evidence_ids = [];
  contradicted_evidence_ids = [];
  public_output_ref = none;
  artifact_hash = none;
  terminal_status = none;
}

abbrev pub at_most : ℕ → Option ℕ → Bool
at_most n none = true
at_most n (some k) = leb k n

-- The ids that _bounded_ids accepts: at most 256 texts of 1 to 256 characters.
unfoldable pub are_bounded : List String → Bool
are_bounded ids =
    leb (length ids) 256 && all (λ t. ltb 0 (length (codes t)) && leb (length (codes t)) 256) ids

abbrev pub is_hex_digit : ℕ → Bool
is_hex_digit c = (leb 48 c && leb c 57) || (leb 97 c && leb c 102)

-- re.fullmatch(r"[0-9a-f]{64}", text)
unfoldable pub is_sha256 : String → Bool
is_sha256 t = eqb (length (codes t)) 64 && all is_hex_digit (codes t)

abbrev pub is_hash_or_none : Option String → Bool
is_hash_or_none none = true
is_hash_or_none (some t) = is_sha256 t

-- set(xs).issubset(ys)
abbrev pub is_subset : List String → List String → Bool
is_subset xs ys = all (λ x. contains x ys) xs

-- The progress ids that the run has not seen.
unfoldable pub new_progress : FinishArgs → GraphRuntime → List String
new_progress args r =
    keep_if (λ id. not (contains id r.progress_evidence_ids)) (dedup args.progress_evidence_ids)

abbrev pub is_decision : EdgeType → Bool
is_decision t = is_edge_type t on_approval || is_edge_type t on_rejection

abbrev pub is_failure_outcome : EdgeType → Bool
is_failure_outcome t =
    is_edge_type t on_failure || is_edge_type t on_retryable_failure || is_edge_type t on_fallback

abbrev pub fault_if : Bool → GraphFault → Option GraphFault → Option GraphFault
fault_if b fault rest = if b then some fault else rest

-- The terminal status that a node may be finished with.
unfoldable pub status_fault : GraphNode → FinishArgs → GraphRuntime → Option GraphFault
status_fault n args r =
    if is_type n.node_type finalize
    then elim args.terminal_status [
      | none ↦ some missing_status
      | some status ↦
          fault_if (is_completed status && is_empty args.validated_evidence_ids)
            unvalidated_completion (fault_if r.final_emitted already_emitted none)
    ]
    else if is_some args.terminal_status
    then some status_not_final
    else none

-- What is asked of the evidence and of the outcome, and then of the terminal status.
unfoldable pub evidence_fault : GraphNode → FinishArgs → GraphRuntime → Option GraphFault
unfolding are_bounded is_sha256 new_progress status_fault
evidence_fault n args r =
    fault_if
      (not (
        are_bounded args.progress_evidence_ids
        && are_bounded args.generated_evidence_ids
        && are_bounded args.validated_evidence_ids
        && are_bounded args.contradicted_evidence_ids))
      bad_evidence_ids
      (fault_if (not (is_hash_or_none args.artifact_hash)) bad_artifact_hash (
        fault_if
          (is_edge_type args.outcome on_finding
            && not (is_subset (new_progress args r) args.validated_evidence_ids))
          unvalidated_progress
          (fault_if (is_decision args.outcome && is_empty args.validated_evidence_ids)
            unvalidated_approval
            (fault_if (is_failure_outcome args.outcome) wrong_outcome (status_fault n args r)))))

-- The checks of `finish_attempt` in their order; costs and latencies are whole numbers here.
unfoldable pub finish_fault : GraphNode → FinishArgs → GraphRuntime → Option GraphFault
unfolding evidence_fault
finish_fault n args r =
    fault_if (not (at_most args.token_usage args.cached_tokens)) bad_cached_tokens (
      fault_if (ltb r.graph.budgets.tokens (r.token_usage + args.token_usage))
        token_budget_exhausted
        (fault_if (is_type n.node_type tool && leb r.graph.budgets.tool_calls r.tool_calls)
          tool_budget_exhausted (evidence_fault n args r)))

unfoldable pub finished_attempt : FinishArgs → List GraphEdge → ℕ → NodeAttempt → NodeAttempt
finished_attempt args es now a = record a {
  state = succeeded;
  ended_at = some now;
  latency_ms = args.latency_ms;
  token_usage = args.token_usage;
  cached_tokens = args.cached_tokens;
  cost_usd = args.cost_usd;
  progress_evidence_ids = dedup args.progress_evidence_ids;
  generated_evidence_ids = dedup args.generated_evidence_ids;
  validated_evidence_ids = dedup args.validated_evidence_ids;
  contradicted_evidence_ids = dedup args.contradicted_evidence_ids;
  public_output_ref = args.public_output_ref;
  artifact_hash = args.artifact_hash;
  selected_outgoing_edges = edge_ids es;
}

abbrev pub add_artifact : String → Option String → Dict String → Dict String
add_artifact id none d = d
add_artifact id (some hash) d = insert id hash d

-- What is written before the selected edges are applied.
unfoldable pub settle : FinishArgs → String → GraphNode → Choice → ℕ → GraphRuntime → GraphRuntime
unfolding finished_attempt set_attempt new_progress
settle args attempt_id n choice now r = record r {
  traversal_counts = choice.counts;
  token_usage = r.token_usage + args.token_usage;
  tool_calls = (if is_type n.node_type tool then r.tool_calls + 1 else r.tool_calls);
  attempts = set_attempt attempt_id (finished_attempt args choice.edges now) r.attempts;
  node_states = insert n.node_id succeeded r.node_states;
  progress_evidence_ids = r.progress_evidence_ids ++ new_progress args r;
  artifact_hashes = add_artifact n.node_id args.artifact_hash r.artifact_hashes;
}

-- A FINALIZE node ends the run with the status given.
unfoldable pub emit : FinishArgs → GraphNode → GraphRuntime → GraphRuntime
emit args n r =
    if is_type n.node_type finalize
    then record r { final_emitted = true; terminal_status = args.terminal_status }
    else r

-- A CHECKPOINT node takes a checkpoint, which its attempt then names and is saved with.
unfoldable pub close_checkpoint : GraphEnv → String → ℕ → GraphRuntime → GraphRuntime
unfolding take_checkpoint set_attempt find_attempt
close_checkpoint env attempt_id now r =
    let taken = take_checkpoint env default_args "checkpoint_node" now r in
    let named =
      set_attempt attempt_id (λ a. record a { checkpoint_id = some taken.0.checkpoint_id })
        taken.1.attempts in
    record (taken.1) {
      attempts = named;
      journal =
          (if r.stored
            then save_attempt (find_attempt attempt_id named) taken.1.journal
            else taken.1.journal);
    }

unfoldable pub record_finish : GraphEnv → String → GraphNode → ℕ → GraphRuntime → GraphRuntime
unfolding close_checkpoint persist find_attempt
record_finish env attempt_id n now r =
    if is_type n.node_type checkpoint
    then close_checkpoint env attempt_id now r
    else persist env (find_attempt attempt_id r.attempts) "attempt_finished" now r

unfoldable pub complete_finish :
    GraphEnv → FinishArgs → String → GraphNode → Choice → ℕ → GraphRuntime → GraphRuntime
unfolding settle apply_selected_edges emit record_finish new_progress
complete_finish env args attempt_id n choice now r = record_finish env attempt_id n now (
    emit args n (
      apply_selected_edges choice.edges n (new_progress args r) now
        (settle args attempt_id n choice now r)))

unfoldable pub finish_node :
    GraphEnv → FinishArgs → String → GraphNode → ℕ → GraphRuntime → Ran Unit
unfolding finish_fault new_progress select_outcome_edges complete_finish
finish_node env args attempt_id n now r = elim (finish_fault n args r) [
  | some fault ↦ raised fault r
  | none ↦ elim (select_outcome_edges r n args.outcome (not (is_empty (new_progress args r)))) [
    | none ↦ raised no_edge r
    | some choice ↦ returned tt (complete_finish env args attempt_id n choice now r)
  ]
]

-- ExecutionGraphRuntime._active_attempt
unfoldable pub active_attempt : String → GraphRuntime → Option NodeAttempt
unfolding find_attempt
active_attempt attempt_id r = elim (find_attempt attempt_id r.attempts) [
  | none ↦ none
  | some a ↦ if is_active_state a.state then some a else none
]

-- ExecutionGraphRuntime.finish_attempt; the attempt it returns is the one in `attempts`.
unfoldable pub finish_attempt : GraphEnv → FinishArgs → String → ℕ → GraphRuntime → Ran Unit
unfolding active_attempt find_node finish_node
finish_attempt env args attempt_id now r = elim (active_attempt attempt_id r) [
  | none ↦ raised not_active r
  | some a ↦ elim (find_node r.graph a.node_id) [
    | none ↦ raised missing_node r
    | some n ↦ finish_node env args attempt_id n now r
  ]
]
