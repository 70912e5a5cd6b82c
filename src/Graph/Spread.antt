-- ===== src/Graph/Spread.antt =====
-- The breadth-first walks of gateway/src/dgx_moa/execution_graph.py: `_descendants`, the walk of
-- `partial_rerun` and the reachability test of `structurally_valid` are one loop, over the edges that
-- each of them follows. A round takes a node off the queue; the rounds are counted by fuel.
pub mod Closure
use mo_e_mo_a_integrated_com.Graph.{
  incoming, outgoing, node_ids, edge_ids, last_match, find_node, find_edge, is_terminal, is_entry,
  node_type_place, is_type, is_one_of, edge_type_place, is_edge_type, is_under_way, is_interrupted,
  is_active_state, is_over, may_start, is_complete, is_succeeded, is_waiting_tool,
  is_waiting_approval, is_completed, then_run, NodeType, EdgeType, NodeState, Purpose,
  TerminalStatus, GraphBudget, GraphNode, GraphEdge, ExecutionGraph, NodeAttempt, RemainingBudgets,
  GraphCheckpoint, Saved, GraphRuntime, GraphFault, Ran, GraphEnv, classify, reasoner, planner,
  frontier_a, executor_select, executor_evidence, executor_primary, executor_fallback, executor,
  tool, test, reviewer, judge, frontier_b, join, policy_gate, human_approval, checkpoint, finalize,
  depends_on, on_success, on_failure, on_retryable_failure, on_finding, on_approval, on_rejection,
  on_budget, on_progress, on_no_progress, on_fallback, on_checkpoint, queued, dispatching, running,
  streaming, waiting_tool, waiting_dependency, waiting_approval, retrying, fallback, succeeded,
  degraded, failed, cancelled, skipped, control, primary, evidence, fallback_purpose, completed,
  ended_failed, ended_cancelled, ended_degraded, saved_graph, saved_attempt, saved_checkpoint,
  deadline_exceeded, not_ready, provider_pin_mismatch, empty_model, model_pin_mismatch, not_active,
  bad_cached_tokens, token_budget_exhausted, tool_budget_exhausted, bad_evidence_ids,
  bad_artifact_hash, unvalidated_progress, unvalidated_approval, wrong_outcome, missing_status,
  unvalidated_completion, already_emitted, status_not_final, no_edge, bad_failure,
  no_cancellation_edge, nothing_invalidated, unknown_nodes, not_completed, verification_required,
  hash_mismatch, incompatible, missing_node, bad_reason, raised, returned,
}
use mo_e_mo_a_integrated_com.Dict.{
  Dict, lookup, remove, insert, values, keys, lookup-insert, lookup-remove, length-insert,
  UniqueKeys, insert-UniqueKeys, remove-UniqueKeys, remove_missing, length-remove, length-remove-le,
  lookup_empty, empty_of_lookup,
}
use mo_e_mo_a_integrated_com.Base.{
  ℕ, zero, suc, ◌+◌, ◌-◌, ◌*◌, ◌≤◌, ◌<◌, min, max, String, ◌==◌, eq_iff, eq_refl, ◌≡◌, refl, sym,
  ap, ◌∙◌, subst, ◌≢◌, ◌↔◌, ◌⊎◌, inl, inr, Bool, true, false, not, ◌&&◌, ◌||◌, Option, none, some,
  List, [], ◌∷◌, ◌++◌, map, arith, ltb, leb, eqb, if◌then◌else◌, ltb→lt, leb→le, Bool-cases,
  is_some, get_or, Option-cases, map_some, length, keep_if, any, all, is_empty, All, length-append,
  nonempty-keep_if, length-keep_if, first, codes, joined, contains, dedup, contains-dedup, NoDup,
  contains-append_one, append_one-NoDup, contains-keep_ne, keep_ne-NoDup, string_same, string_apart,
  joined_not_blank, text_joined_not_blank,
}

-- The edges out of `source`: each target seen for the first time is marked and queued.
unfoldable pub visit :
    (GraphEdge → Bool)
    → String
    → List GraphEdge
    → List String
    → List String
    → List String × List String
visit follows source [] marked queue = (marked, queue)
visit follows source (e ∷ es) marked queue =
    let new = e.from_node == source && follows e && not (contains e.to_node marked) in
    visit follows source es (if new then marked ++ e.to_node ∷ [] else marked)
      (if new then queue ++ e.to_node ∷ [] else queue)

unfoldable pub walk :
    (GraphEdge → Bool) → List GraphEdge → ℕ → List String → List String → List String
unfolding visit
walk follows es zero marked queue = marked
walk follows es (suc fuel) marked [] = marked
walk follows es (suc fuel) marked (source ∷ queue) =
    let seen = visit follows source es marked queue in walk follows es fuel seen.0 seen.1

-- The fuel that is given: a round for each start and one for each edge.
unfoldable pub spread : (GraphEdge → Bool) → List GraphEdge → List String → List String
unfolding walk
spread follows es starts = walk follows es (length starts + length es) starts starts

-- edge_type in {ON_RETRYABLE_FAILURE, ON_FINDING} is passed over
abbrev pub is_forward : GraphEdge → Bool
is_forward e =
    not (is_edge_type e.edge_type on_retryable_failure || is_edge_type e.edge_type on_finding)

-- ExecutionGraphRuntime._descendants
unfoldable pub descendants : ExecutionGraph → String → List String
unfolding spread
descendants g id = spread is_forward g.edges (id ∷ [])
