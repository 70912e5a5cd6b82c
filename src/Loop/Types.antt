-- ===== src/Loop/Types.antt =====
-- The data of gateway/src/dgx_moa/loop_engineering.py. Times and costs, floats in the source, are
-- whole numbers of a smallest unit; an amount that may be negative is an integer.
use mo_e_mo_a_integrated_com.Base.{ℕ, String, Bool, true, false, Option, List}

pub data LoopType : Type 0 where
  implementation debugging review planning recovery validation : LoopType
  skill_evaluation prompt_evaluation policy_evaluation : LoopType
  routing_evaluation dataset_validation : LoopType

pub data CriterionState : Type 0 where
  unknown passed failed waived : CriterionState

abbrev pub is_passed : CriterionState → Bool
is_passed passed = true
is_passed _ = false

abbrev pub is_waived : CriterionState → Bool
is_waived waived = true
is_waived _ = false

pub data ProgressState : Type 0 where
  progressing stalled terminated : ProgressState

pub data TerminationReason : Type 0 where
  success partial_success user_decision_required permission_required : TerminationReason
  policy_blocked no_progress duplicate_failure_limit budget_exhausted : TerminationReason
  provider_unavailable judge_rejected unresolved_high_risk_disagreement : TerminationReason
  internal_failure client_cancelled : TerminationReason

pub data BudgetName : Type 0 where
  iterations tool_calls reasoner_reentries planner_calls : BudgetName
  reviewer_calls frontier_calls judge_calls : BudgetName

pub data UsageBudgetName : Type 0 where
  tokens external_cost_usd : UsageBudgetName

pub data FailureClass : Type 0 where
  test_failure build_failure typecheck_failure lint_failure : FailureClass
  tool_execution_failure unsupported_tool mcp_server_unavailable : FailureClass
  provider_unavailable provider_timeout authentication_failure rate_limited : FailureClass
  invalid_structured_output context_insufficient repository_state_mismatch : FailureClass
  plan_invalidated policy_blocked permission_required no_progress : FailureClass
  duplicate_failure budget_exhausted judge_rejected judge_unavailable : FailureClass
  internal_runtime_error : FailureClass

-- What a caller may charge for: a whole number, negative ones included.
pub data ℤ : Type 0 where
  pos : ℕ → ℤ
  negsuc : ℕ → ℤ

pub record LoopBudget : Type 0 where
  pub iterations : ℕ
  pub tool_calls : ℕ
  pub reasoner_reentries : ℕ
  pub planner_calls : ℕ
  pub reviewer_calls : ℕ
  pub frontier_calls : ℕ
  pub judge_calls : ℕ
  pub tokens : ℕ
  pub external_cost_usd : ℕ
  pub wall_clock_seconds : ℕ

pub record AcceptanceCriterion : Type 0 where
  pub criterion_id : String
  pub description : String
  pub required : Bool
  pub state : CriterionState
  pub evidence_ids : List String
  pub waiver_reason : Option String

pub record LoopFailure : Type 0 where
  pub fingerprint : String
  pub failure_class : FailureClass
  pub occurrence_count : ℕ
  pub attempted_strategies : List String
  pub strategy_change_required : Bool
  pub affected_paths : List String

-- The fields that some operation of the module reads or writes, and those that name the loop.
pub record LoopState : Type 0 where
  pub loop_id : String
  pub request_id : String
  pub loop_type : LoopType
  pub iteration : ℕ
  pub objective : String
  pub observed_evidence_ids : List String
  pub progress_evidence_fingerprints : List String
  pub open_failures : List LoopFailure
  pub acceptance_criteria : List AcceptanceCriterion
  pub remaining_budget : LoopBudget
  pub progress_state : ProgressState
  pub termination_reason : Option TerminationReason
  pub started_at_epoch : ℕ
  pub last_iteration_evidence_count : ℕ
  pub no_progress_iterations : ℕ
  pub no_progress_iteration_limit : ℕ
  pub input_fingerprints : List String

-- getattr(loop.remaining_budget, name)
unfoldable pub remaining : LoopBudget → BudgetName → ℕ
remaining b iterations = b.iterations
remaining b tool_calls = b.tool_calls
remaining b reasoner_reentries = b.reasoner_reentries
remaining b planner_calls = b.planner_calls
remaining b reviewer_calls = b.reviewer_calls
remaining b frontier_calls = b.frontier_calls
remaining b judge_calls = b.judge_calls

-- setattr(loop.remaining_budget, name, value)
unfoldable pub set_remaining : LoopBudget → BudgetName → ℕ → LoopBudget
set_remaining b iterations n = record b { iterations = n }
set_remaining b tool_calls n = record b { tool_calls = n }
set_remaining b reasoner_reentries n = record b { reasoner_reentries = n }
set_remaining b planner_calls n = record b { planner_calls = n }
set_remaining b reviewer_calls n = record b { reviewer_calls = n }
set_remaining b frontier_calls n = record b { frontier_calls = n }
set_remaining b judge_calls n = record b { judge_calls = n }

unfoldable pub remaining_usage : LoopBudget → UsageBudgetName → ℕ
remaining_usage b tokens = b.tokens
remaining_usage b external_cost_usd = b.external_cost_usd

unfoldable pub set_remaining_usage : LoopBudget → UsageBudgetName → ℕ → LoopBudget
set_remaining_usage b tokens n = record b { tokens = n }
set_remaining_usage b external_cost_usd n = record b { external_cost_usd = n }
