-- ===== src/Graph/Driving.antt =====
-- gateway/src/dgx_moa/execution_graph.py: the calls by which the controller drives a run, each made of
-- `start_attempt`, `finish_attempt` and `fail_attempt`.
use mo_e_mo_a_integrated_com.Graph.{
  last_match, is_type, is_succeeded, is_waiting_tool, is_waiting_approval, then_run, NodeType,
  EdgeType, NodeState, TerminalStatus, GraphNode, NodeAttempt, GraphRuntime, Ran, GraphEnv, tool,
  test, human_approval, checkpoint, on_success, on_finding, on_approval, on_checkpoint, returned,
}
use mo_e_mo_a_integrated_com.Graph.Ready.{ready_node_ids}
use mo_e_mo_a_integrated_com.Graph.Start.{start_attempt}
use mo_e_mo_a_integrated_com.Graph.Finish.{finish_defaults, finish_attempt, FinishArgs}
use mo_e_mo_a_integrated_com.Graph.Fail.{fail_attempt, first_terminal, FailArgs}
use mo_e_mo_a_integrated_com.Base.{
  ℕ, String, Bool, true, false, not, ◌&&◌, ◌||◌, Option, none, some, List, [], ◌∷◌, leb,
  if◌then◌else◌, is_some, get_or, is_empty, first, codes, joined, contains,
}

-- What was measured of a model's call; none where the value is missing or no number.
pub record Invocation : Type 0 where
  pub total_tokens : Option ℕ
  pub cached_tokens : Option ℕ
  pub cost_usd : Option ℕ
  pub latency_ms : Option ℕ

-- The outcome and the evidence that a caller gives.
pub record Observation : Type 0 where
  pub outcome : EdgeType
  pub generated_evidence_ids : List String
  pub progress_evidence_ids : List String
  pub validated_evidence_ids : List String
  pub contradicted_evidence_ids : List String

-- Cached tokens that are more than the total are left out.
unfoldable pub cached_within : ℕ → Option ℕ → Option ℕ
cached_within total none = none
cached_within total (some k) = if leb k total then some k else none

unfoldable pub observed_args : Invocation → Observation → FinishArgs
unfolding cached_within
observed_args call seen =
    let total = get_or call.total_tokens 0 in
    record finish_defaults {
      outcome = seen.outcome;
      token_usage = total;
      cached_tokens = cached_within total call.cached_tokens;
      cost_usd = call.cost_usd;
      latency_ms = call.latency_ms;
      progress_evidence_ids = seen.progress_evidence_ids;
      generated_evidence_ids = seen.generated_evidence_ids;
      validated_evidence_ids = seen.validated_evidence_ids;
      contradicted_evidence_ids = seen.contradicted_evidence_ids;
    }

-- ExecutionGraphRuntime.finish_observed_attempt
unfoldable pub finish_observed_attempt :
    GraphEnv → Invocation → Observation → String → ℕ → GraphRuntime → Ran Unit
unfolding observed_args finish_attempt
finish_observed_attempt env call seen id now r =
    finish_attempt env (observed_args call seen) id now r

-- The failure of a code, which is hashed for its fingerprint; it is not retried.
unfoldable pub final_failure : GraphEnv → String → List String → FailArgs
final_failure env code ids = record {
  failure_code = code;
  failure_fingerprint = env.text_hash code;
  retryable = false;
  generated_evidence_ids = ids;
}

-- ExecutionGraphRuntime.fail_role_attempt, with the name of the error's type
unfoldable pub fail_role_attempt :
    GraphEnv → String → String → List String → String → ℕ → GraphRuntime → Ran Unit
unfolding final_failure fail_attempt
fail_role_attempt env role error ids id now r =
    let code = joined (joined (env.upper role) "_") (env.upper error) in
    fail_attempt env (final_failure env code ids) id now r

-- ExecutionGraphRuntime._attempt
unfoldable pub attempt_where : NodeType → (NodeState → Bool) → GraphRuntime → Option NodeAttempt
attempt_where t wanted r = last_match (λ a. is_type a.node_type t && wanted a.state) r.attempts

-- What is read of an execution: whether its exit code is 0, and its arguments as JSON.
pub record Execution : Type 0 where
  pub exits_zero : Bool
  pub failure_class : Option String
  pub arguments : String

abbrev pub text_or : Option String → String → String
text_or none other = other
text_or (some t) other = if is_empty (codes t) then other else t

-- The evidence that a tool's result gives: progress where it is a finding.
unfoldable pub tool_args : EdgeType → Bool → String → FinishArgs
tool_args outcome is_progress evidence_id = record finish_defaults {
  outcome = outcome;
  progress_evidence_ids = (if is_progress then evidence_id ∷ [] else []);
  generated_evidence_ids = evidence_id ∷ [];
  validated_evidence_ids = evidence_id ∷ [];
}

-- A validation command starts the TEST node and finishes it with a finding.
unfoldable pub run_test : GraphEnv → String → String → ℕ → GraphRuntime → Ran Unit
unfolding start_attempt finish_attempt tool_args then_run
run_test env evidence_id test_id now r =
    then_run (start_attempt env test_id none now r)
      (λ a r'. finish_attempt env (tool_args on_finding true evidence_id) a.attempt_id now r')

unfoldable pub after_tool :
    GraphEnv → String → Bool → Option GraphNode → ℕ → GraphRuntime → Ran Unit
unfolding run_test
after_tool env evidence_id validated none now r = returned tt r
after_tool env evidence_id validated (some n) now r =
    if validated then run_test env evidence_id n.node_id now r else returned tt r

unfoldable pub resume_tool :
    GraphEnv → String → Execution → NodeAttempt → ℕ → GraphRuntime → Ran Unit
unfolding fail_attempt final_failure finish_attempt tool_args after_tool then_run
resume_tool env evidence_id run a now r =
    let test_node = first (λ n. is_type n.node_type test) r.graph.nodes in
    let validated = is_some test_node && env.is_validation run.arguments in
    let code = text_or run.failure_class "TOOL_EXECUTION_FAILED" in
    let outcome = if validated then on_success else on_finding in
    if not run.exits_zero
    then fail_attempt env (final_failure env code (evidence_id ∷ [])) a.attempt_id now r
    else then_run
        (finish_attempt env (tool_args outcome (not validated) evidence_id) a.attempt_id now r)
        (λ u r'. after_tool env evidence_id validated test_node now r')

-- ExecutionGraphRuntime.resume_tool_result: false where no tool is waited for.
unfoldable pub resume_tool_result : GraphEnv → String → Execution → ℕ → GraphRuntime → Ran Bool
unfolding attempt_where resume_tool then_run
resume_tool_result env evidence_id run now r = elim (attempt_where tool is_waiting_tool r) [
  | none ↦ returned false r
  | some a ↦ then_run (resume_tool env evidence_id run a now r) (λ u r'. returned true r')
]

unfoldable pub approval_args : String → FinishArgs
approval_args evidence_id = record finish_defaults {
  outcome = on_approval;
  generated_evidence_ids = evidence_id ∷ [];
  validated_evidence_ids = evidence_id ∷ [];
}

-- ExecutionGraphRuntime.resume_approval
unfoldable pub resume_approval : GraphEnv → String → ℕ → GraphRuntime → Ran Bool
unfolding attempt_where finish_attempt approval_args then_run
resume_approval env evidence_id now r = elim (attempt_where human_approval is_waiting_approval r) [
  | none ↦ returned false r
  | some a ↦
      then_run (finish_attempt env (approval_args evidence_id) a.attempt_id now r)
        (λ u r'. returned true r')
]

-- ExecutionGraphRuntime.waiting_for_external
unfoldable pub waiting_for_external : GraphRuntime → Bool
unfolding attempt_where
waiting_for_external r =
    is_some (attempt_where tool is_waiting_tool r)
    || is_some (attempt_where human_approval is_waiting_approval r)

-- ExecutionGraphRuntime.approval_continuable
unfoldable pub approval_continuable : GraphRuntime → Bool
unfolding attempt_where waiting_for_external ready_node_ids
approval_continuable r =
    is_some (attempt_where human_approval is_succeeded r)
    && not (waiting_for_external r)
    && not r.final_emitted
    && not (is_empty (ready_node_ids r))

-- The evidence with which a run is ended.
unfoldable pub final_args : TerminalStatus → Observation → FinishArgs
final_args status seen = record finish_defaults {
  terminal_status = some status;
  generated_evidence_ids = seen.generated_evidence_ids;
  validated_evidence_ids = seen.validated_evidence_ids;
  contradicted_evidence_ids = seen.contradicted_evidence_ids;
}

-- A CHECKPOINT node that is ready is run first.
unfoldable pub run_checkpoint : GraphEnv → ℕ → GraphRuntime → Ran Unit
unfolding ready_node_ids start_attempt finish_attempt then_run
run_checkpoint env now r =
    let ready = ready_node_ids r in
    elim (first (λ n. is_type n.node_type checkpoint && contains n.node_id ready) r.graph.nodes) [
      | none ↦ returned tt r
      | some n ↦ then_run (start_attempt env n.node_id none now r) (λ a r'.
          finish_attempt env (record finish_defaults { outcome = on_checkpoint }) a.attempt_id now
            r')
    ]

unfoldable pub run_terminal : GraphEnv → FinishArgs → ℕ → GraphRuntime → Ran Unit
unfolding start_attempt finish_attempt then_run
run_terminal env args now r =
    then_run (start_attempt env (first_terminal r.graph) none now r)
      (λ a r'. finish_attempt env args a.attempt_id now r')

-- ExecutionGraphRuntime.finalize_ready
unfoldable pub finalize_ready :
    GraphEnv → TerminalStatus → Observation → ℕ → GraphRuntime → Ran Unit
unfolding waiting_for_external run_checkpoint run_terminal final_args then_run
finalize_ready env status seen now r =
    if waiting_for_external r
    then returned tt r
    else then_run (run_checkpoint env now r)
        (λ u r'. run_terminal env (final_args status seen) now r')
