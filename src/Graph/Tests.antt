-- ===== src/Graph/Tests.antt =====
-- Runs of gateway/src/dgx_moa/execution_graph.py on a small graph.
use mo_e_mo_a_integrated_com.Graph.{
  edge_ids, is_completed, find_node, is_terminal, is_under_way, is_interrupted, then_run, NodeType,
  EdgeType, GraphNode, GraphEdge, ExecutionGraph, NodeAttempt, GraphCheckpoint, GraphRuntime, Ran,
  GraphEnv, executor_primary, finalize, on_success, on_failure, queued, waiting_dependency, control,
  completed, returned,
}
use mo_e_mo_a_integrated_com.Graph.Spread.{visit, walk, spread, is_forward}
use mo_e_mo_a_integrated_com.Graph.Spread.Closure.{LedTo, spread-LedTo}
use mo_e_mo_a_integrated_com.Graph.Ready.{
  set_default, set_all, map_states, first_states, new_runtime, join_ready, is_ready, ready_node_ids,
  last_moment, find_attempt, set_attempt, snapshot_of, default_args, counted_runtime,
  take_checkpoint, persist,
}
use mo_e_mo_a_integrated_com.Graph.Start.{
  pin_to, started_state, new_attempt, begin_attempt, start_node, start_attempt,
}
use mo_e_mo_a_integrated_com.Graph.Edges.{
  record_edges, closing_terminal, cancel_attempts, stop_attempts, other_under_way, close_unselected,
  starts_in, plain_choice, select_outcome_edges, skip_fallbacks, apply_selected_edges,
}
use mo_e_mo_a_integrated_com.Graph.Finish.{
  finish_defaults, are_bounded, is_sha256, is_subset, new_progress, status_fault, evidence_fault,
  finish_fault, finished_attempt, settle, emit, record_finish, complete_finish, finish_node,
  active_attempt, finish_attempt,
}
use mo_e_mo_a_integrated_com.Graph.Fail.{
  cancel_source, cancelled_state, cancel_all, end_cancelled, cancel,
}
use mo_e_mo_a_integrated_com.Graph.Rerun.{
  preserved_of, all_hashes, verification_fault, rerun_fault, affected_by, reset_nodes,
  partial_rerun, is_consistent, all_pins, same_nodes, resume,
}
use mo_e_mo_a_integrated_com.Graph.Driving.{
  attempt_where, waiting_for_external, final_args, run_checkpoint, run_terminal, finalize_ready,
  Observation,
}
use mo_e_mo_a_integrated_com.Graph.Invariant.{most_traversals, Inv}
use mo_e_mo_a_integrated_com.Graph.Finishing.{state_of}
use mo_e_mo_a_integrated_com.Graph.Runs.{
  Reached-Sound, start-Reached, finish-Reached, finalize_ready-Reached, Reached, cancels, created,
}
use mo_e_mo_a_integrated_com.Graph.Restoring.{resume-take_checkpoint, resume-within}
use mo_e_mo_a_integrated_com.Graph.Closing.{close_unselected-Closed}
use mo_e_mo_a_integrated_com.Graph.Cancelling.{cancel-Ended}
use mo_e_mo_a_integrated_com.Graph.Rerunning.{partial_rerun-Exact}
use mo_e_mo_a_integrated_com.Graph.Started.{start_attempt-Begun}
use mo_e_mo_a_integrated_com.Graph.Finality.{finalize_ready-Ends}
use mo_e_mo_a_integrated_com.Graph.Onward.{Onward-SameEnd, Onward, rests, moves}
use mo_e_mo_a_integrated_com.Dict.{lookup, insert}
use mo_e_mo_a_integrated_com.Base.{
  ℕ, zero, suc, ◌+◌, ◌≤◌, ◌<◌, String, ◌==◌, ◌≡◌, refl, ap, ◌↔◌, true, false, not, ◌&&◌, ◌||◌, none,
  some, List, [], ◌∷◌, ◌++◌, if◌then◌else◌, get_or, map_some, length, any, is_empty, codes,
  contains, dedup,
}

-- A text of as many characters.
abbrev tally : ℕ → String
tally zero = ""
tally (suc n) = String.◌∷◌ "x" (tally n)

length-tally : (n : ℕ) → length (codes (tally n)) ≡ n
length-tally zero = refl
length-tally (suc n) = ap suc (length-tally n)

abbrev env : GraphEnv
env = record {
  checkpoint_hash = λ cp. cp.checkpoint_id;
  checkpoint_name = tally;
  checkpoint_number = λ t. length (codes t);
  attempt_name = λ id n. id;
  text_hash = λ t. "0123456789abcdef0123456789abcdef0123456789abcdef0123456789abcdef";
  upper = λ t. t;
  is_validation = λ t. true;
}

abbrev plain_node : String → NodeType → GraphNode
plain_node id t = record {
  node_id = id;
  node_type = t;
  role = none;
  purpose = control;
  parallel_group_id = none;
  provider = none;
  mutation_allowed = false;
  allowed_mutation_paths = [];
  join_all = false;
}

abbrev plain_edge : String → String → String → EdgeType → GraphEdge
plain_edge id from to t = record {
  edge_id = id;
  from_node = from;
  to_node = to;
  edge_type = t;
  max_traversals = 0;
}

abbrev graph : ExecutionGraph
graph = record {
  graph_id = "graph_0";
  graph_hash = "h";
  graph_schema_version = "v1";
  compiler_version = "c1";
  policy_version = "p1";
  created_at = 0;
  deadline = 100;
  budgets = record { tokens = 10; tool_calls = 2; wall_clock_seconds = 50 };
  entry_nodes = "work" ∷ [];
  terminal_nodes = "end" ∷ [];
  nodes = plain_node "work" executor_primary ∷ plain_node "end" finalize ∷ [];
  edges =
      plain_edge "e001" "work" "end" on_success ∷ plain_edge "e002" "work" "end" on_failure ∷ [];
}

abbrev fresh : GraphRuntime
fresh = new_runtime graph false

abbrev started : GraphRuntime
started = state_of (start_attempt env "work" none 1 fresh)

abbrev worked : GraphRuntime
worked = state_of (finish_attempt env (record finish_defaults { token_usage = 3 }) "work" 2 started)

abbrev seen : Observation
seen = record {
  outcome = on_success;
  generated_evidence_ids = [];
  progress_evidence_ids = [];
  validated_evidence_ids = "v1" ∷ [];
  contradicted_evidence_ids = [];
}

abbrev ended : GraphRuntime
ended = state_of (finalize_ready env completed seen 3 worked)

worked-Reached : Reached env worked
worked-Reached =
    finish-Reached env (record finish_defaults { token_usage = 3 }) "work" 2 started
      (start-Reached env "work" none 1 fresh (created graph false))

ended-Reached : Reached env ended
ended-Reached = finalize_ready-Reached env completed seen 3 worked worked-Reached

-- The run ends as completed, with its tokens counted.
ended_run : (ended.terminal_status ≡ some completed) × (ended.token_usage ≡ 3)
unfolding new_runtime first_states start_attempt start_node begin_attempt new_attempt pin_to persist
    finish_attempt finish_node finish_fault evidence_fault status_fault complete_finish settle
    record_finish emit apply_selected_edges select_outcome_edges plain_choice finalize_ready
    run_checkpoint run_terminal final_args ready_node_ids is_ready find_node find_attempt
    set_attempt active_attempt waiting_for_external attempt_where then_run close_unselected
    closing_terminal record_edges skip_fallbacks are_bounded is_sha256 new_progress finished_attempt
    dedup lookup insert last_moment join_ready set_default
ended_run = (refl, refl)

finalize_ready-Ends_example :
    (worked.final_emitted ≡ false)
    × (ended.final_emitted ≡ true)
    × (ended.terminal_status ≡ some completed)
    × (is_completed completed && is_empty seen.validated_evidence_ids ≡ false)
unfolding new_runtime first_states start_attempt start_node begin_attempt new_attempt pin_to persist
    finish_attempt finish_node finish_fault evidence_fault status_fault complete_finish settle
    record_finish emit apply_selected_edges select_outcome_edges plain_choice finalize_ready
    run_checkpoint run_terminal final_args ready_node_ids is_ready find_node find_attempt
    set_attempt active_attempt waiting_for_external attempt_where then_run close_unselected
    closing_terminal record_edges skip_fallbacks are_bounded is_sha256 new_progress finished_attempt
    dedup lookup insert last_moment join_ready set_default
finalize_ready-Ends_example = finalize_ready-Ends env completed seen 3 worked ended refl refl

Reached-Sound_example : Inv ended
Reached-Sound_example = Reached-Sound env ended ended-Reached

spread-LedTo_example :
    (contains "end" (spread is_forward graph.edges ("work" ∷ [])) ≡ true)
    ↔ LedTo is_forward graph.edges ("work" ∷ []) "end"
spread-LedTo_example = spread-LedTo is_forward graph.edges ("work" ∷ []) "end"

abbrev noted : GraphCheckpoint × GraphRuntime
noted = take_checkpoint env default_args "note" 3 worked

-- The runtime that continues from the checkpoint.
abbrev continued : Ran Unit
continued = returned tt (persist env none "resumed" 4 (record (noted.1) { journal = [] }))

noted_fits :
    (same_nodes graph noted.0 && is_consistent graph noted.0 && all_pins graph worked.provider_pins)
    ≡ true
unfolding new_runtime first_states start_attempt start_node begin_attempt new_attempt pin_to persist
    finish_attempt finish_node finish_fault evidence_fault status_fault complete_finish settle
    record_finish emit apply_selected_edges select_outcome_edges plain_choice ready_node_ids
    is_ready find_node find_attempt set_attempt active_attempt close_unselected closing_terminal
    record_edges skip_fallbacks are_bounded is_sha256 new_progress finished_attempt dedup lookup
    insert last_moment join_ready set_default take_checkpoint snapshot_of counted_runtime
    is_consistent
noted_fits = refl

worked_still : any (λ a. is_interrupted a.state) worked.attempts ≡ false
unfolding new_runtime first_states start_attempt start_node begin_attempt new_attempt pin_to persist
    finish_attempt finish_node finish_fault evidence_fault status_fault complete_finish settle
    record_finish emit apply_selected_edges select_outcome_edges plain_choice ready_node_ids
    is_ready find_node find_attempt set_attempt active_attempt close_unselected closing_terminal
    record_edges skip_fallbacks are_bounded is_sha256 new_progress finished_attempt dedup lookup
    insert last_moment join_ready set_default
worked_still = refl

resume-take_checkpoint_example :
    resume env worked.graph noted.0 worked.attempts worked.stored 4 ≡ some continued
unfolding finish_attempt take_checkpoint is_consistent start_attempt new_runtime lookup insert
resume-take_checkpoint_example =
    resume-take_checkpoint env default_args "note" 3 4 worked length-tally worked_still noted_fits

resume-within_example :
    ((noted.0).token_usage ≤ 10)
    × ((noted.0).tool_calls ≤ 2)
    × (get_or (lookup "e001" (noted.0).traversal_counts) 0 ≤ most_traversals graph.edges "e001")
    × (is_subset (noted.0).selected_edges (edge_ids graph.edges) ≡ true)
unfolding finish_attempt take_checkpoint is_consistent start_attempt new_runtime lookup insert
resume-within_example =
    resume-within env graph noted.0 worked.attempts worked.stored 4 continued "e001" (
      resume-take_checkpoint env default_args "note" 3 4 worked length-tally worked_still
        noted_fits)

abbrev failing : List GraphEdge
failing = plain_edge "e002" "work" "end" on_failure ∷ []

failing_closes : closing_terminal graph failing ≡ some "end"
unfolding closing_terminal
failing_closes = refl

close_unselected-Closed_example :
    ((not (contains "work" (ready_node_ids (close_unselected failing "work" 3 fresh)))
        || "work" == "work"
        || "work" == "end")
      ≡ true)
    × (any (other_under_way "work") (close_unselected failing "work" 3 fresh).attempts ≡ false)
unfolding new_runtime
close_unselected-Closed_example =
    close_unselected-Closed failing "work" "end" 3 fresh "work" failing_closes

abbrev stopped_run : GraphRuntime
stopped_run = state_of (cancel env 4 started)

cancels_now : cancel env 4 started ≡ returned tt stopped_run
unfolding new_runtime first_states start_attempt start_node begin_attempt new_attempt pin_to persist
    finish_attempt finish_node finish_fault evidence_fault status_fault complete_finish settle
    record_finish emit apply_selected_edges select_outcome_edges plain_choice ready_node_ids
    is_ready find_node find_attempt set_attempt active_attempt close_unselected closing_terminal
    record_edges skip_fallbacks are_bounded is_sha256 new_progress finished_attempt dedup lookup
    insert last_moment join_ready set_default cancel end_cancelled cancel_source cancel_all
    stop_attempts cancel_attempts map_states cancelled_state
cancels_now = refl

started_open : started.final_emitted ≡ false
unfolding new_runtime first_states start_attempt start_node begin_attempt new_attempt pin_to persist
    finish_attempt finish_node finish_fault evidence_fault status_fault complete_finish settle
    record_finish emit apply_selected_edges select_outcome_edges plain_choice ready_node_ids
    is_ready find_node find_attempt set_attempt active_attempt close_unselected closing_terminal
    record_edges skip_fallbacks are_bounded is_sha256 new_progress finished_attempt dedup lookup
    insert last_moment join_ready set_default
started_open = refl

cancel-Ended_example :
    ((not (contains "end" (ready_node_ids stopped_run)) || "end" == "end") ≡ true)
    × (any (λ a. is_under_way a.state) stopped_run.attempts ≡ false)
    × (any (λ e. e.to_node == "end" && contains e.edge_id stopped_run.selected_edge_ids) graph.edges
        ≡ true)
unfolding start_attempt cancel new_runtime lookup insert
cancel-Ended_example = cancel-Ended env 4 started stopped_run "end" started_open cancels_now

abbrev rerun : GraphRuntime
rerun = state_of (partial_rerun env ("work" ∷ []) none 5 ended)

reruns_now : partial_rerun env ("work" ∷ []) none 5 ended ≡ returned ("work" ∷ "end" ∷ []) rerun
unfolding new_runtime first_states start_attempt start_node begin_attempt new_attempt pin_to persist
    finish_attempt finish_node finish_fault evidence_fault status_fault complete_finish settle
    record_finish emit apply_selected_edges select_outcome_edges plain_choice ready_node_ids
    is_ready find_node find_attempt set_attempt active_attempt close_unselected closing_terminal
    record_edges skip_fallbacks are_bounded is_sha256 new_progress finished_attempt dedup lookup
    insert last_moment join_ready set_default finalize_ready run_checkpoint run_terminal final_args
    waiting_for_external attempt_where then_run partial_rerun affected_by spread walk visit
    rerun_fault verification_fault reset_nodes set_all
reruns_now = refl

partial_rerun-Exact_example :
    (lookup "end" rerun.node_states ≡ (
      if contains "end" ("work" ∷ [])
      then some queued
      else if contains "end" (affected_by ended.graph ("work" ∷ []))
      then some waiting_dependency
      else lookup "end" ended.node_states))
    × (contains "e001" rerun.selected_edge_ids
        ≡ contains "e001" ended.selected_edge_ids
          && not (starts_in ended.graph (affected_by ended.graph ("work" ∷ [])) "e001"))
    × (rerun.final_emitted
        ≡ ended.final_emitted
          && not (any (is_terminal ended.graph) (affected_by ended.graph ("work" ∷ []))))
    × (rerun.artifact_hashes ≡ ended.artifact_hashes)
    × (all_hashes
          (get_or none [])
          (preserved_of ended (affected_by ended.graph ("work" ∷ [])) ended.artifact_hashes)
        ≡ true)
partial_rerun-Exact_example =
    partial_rerun-Exact env ("work" ∷ []) none 5 ended rerun ("work" ∷ "end" ∷ []) "end" "e001"
      reruns_now

abbrev first_attempt : NodeAttempt
first_attempt = new_attempt env (plain_node "work" executor_primary) [] 1 1 fresh

starts_now : start_attempt env "work" none 1 fresh ≡ returned first_attempt started
unfolding new_runtime first_states start_attempt start_node begin_attempt new_attempt pin_to persist
    finish_attempt finish_node finish_fault evidence_fault status_fault complete_finish settle
    record_finish emit apply_selected_edges select_outcome_edges plain_choice ready_node_ids
    is_ready find_node find_attempt set_attempt active_attempt close_unselected closing_terminal
    record_edges skip_fallbacks are_bounded is_sha256 new_progress finished_attempt dedup lookup
    insert last_moment join_ready set_default
starts_now = refl

start_attempt-Begun_example :
    (1 < 100)
    × (1 < 0 + 50)
    × (contains "work" (ready_node_ids fresh) ≡ true)
    × (first_attempt.node_id ≡ "work")
    × (map_some started_state (map_some (λ n. n.node_type) (find_node graph "work"))
        ≡ lookup "work" started.node_states)
    × (lookup "work" started.attempt_counts
        ≡ some (get_or (lookup "work" fresh.attempt_counts) 0 + 1))
    × (started.attempts ≡ fresh.attempts ++ first_attempt ∷ [])
unfolding new_runtime
start_attempt-Begun_example =
    start_attempt-Begun env "work" none 1 fresh first_attempt started starts_now

-- The run is cancelled after its end, which changes nothing.
cancel-Onward : Onward env ended (state_of (cancel env 9 ended))
cancel-Onward =
    moves ended ended (state_of (cancel env 9 ended)) (rests ended)
      (cancels ended (state_of (cancel env 9 ended)) 9 refl) refl

ended_now : ended.final_emitted ≡ true
unfolding new_runtime first_states start_attempt start_node begin_attempt new_attempt pin_to persist
    finish_attempt finish_node finish_fault evidence_fault status_fault complete_finish settle
    record_finish emit apply_selected_edges select_outcome_edges plain_choice finalize_ready
    run_checkpoint run_terminal final_args ready_node_ids is_ready find_node find_attempt
    set_attempt active_attempt waiting_for_external attempt_where then_run close_unselected
    closing_terminal record_edges skip_fallbacks are_bounded is_sha256 new_progress finished_attempt
    dedup lookup insert last_moment join_ready set_default
ended_now = refl

Onward-SameEnd_example :
    ((state_of (cancel env 9 ended)).final_emitted ≡ true)
    × ((state_of (cancel env 9 ended)).terminal_status ≡ ended.terminal_status)
Onward-SameEnd_example =
    Onward-SameEnd env ended (state_of (cancel env 9 ended)) ended_now cancel-Onward
