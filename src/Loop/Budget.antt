-- ===== src/Loop/Budget.antt =====
-- Every history of operations on a LoopState of gateway/src/dgx_moa/loop_engineering.py.
use mo_e_mo_a_integrated_com.Loop.{
  terminate, register_user_input, record_progress, begin_iteration, consume_budget, consume_usage,
  TerminationReason, BudgetName, UsageBudgetName, FailureClass, ℤ, LoopBudget, AcceptanceCriterion,
  LoopState, iterations, tokens, external_cost_usd,
}
use mo_e_mo_a_integrated_com.Loop.Criteria.{store_criterion}
use mo_e_mo_a_integrated_com.Loop.Failures.{register_failure, resolve_failures}
use mo_e_mo_a_integrated_com.Base.{
  ℕ, ◌+◌, ◌≤◌, String, ◌≡◌, Bool, true, Option, none, some, List, [], ◌∷◌, is_some,
}

-- One operation of the module, called on the loop.
pub data Event : Type 0 where
  inputs : String → Event
  evidence : String → Option String → Event
  begins : ℕ → Event
  consumes : BudgetName → Event
  charges : UsageBudgetName → ℤ → Event
  criteria : AcceptanceCriterion → Event
  fails : String → FailureClass → String → List String → Event
  resolves : List String → Event
  stops : TerminationReason → Event

-- A call that raises leaves the loop as it was.
unfoldable pub charged : LoopState → Option (Bool × LoopState) → LoopState
charged l none = l
charged l (some (b, l')) = l'

unfoldable pub step : (String → String) → LoopState → Event → LoopState
unfolding charged
step sha256 l (inputs content) = (register_user_input sha256 l content).1
step sha256 l (evidence id fp) = (record_progress l id fp).1
step sha256 l (begins now) = (begin_iteration l now).1
step sha256 l (consumes name) = (consume_budget l name).1
step sha256 l (charges name amount) = charged l (consume_usage l name amount)
step sha256 l (criteria c) = (store_criterion l c).1
step sha256 l (fails fp c strategy paths) = (register_failure l fp c strategy paths).1
step sha256 l (resolves paths) = (resolve_failures l paths).1
step sha256 l (stops reason) = terminate l reason

unfoldable pub run : (String → String) → LoopState → List Event → LoopState
run sha256 l [] = l
run sha256 l (e ∷ es) = run sha256 (step sha256 l e) es

-- What a budget allows: no part of `b'` is above that of `b`.
pub record Within (b' b : LoopBudget) : Type 0 where
  pub iterations : b'.iterations ≤ b.iterations
  pub tool_calls : b'.tool_calls ≤ b.tool_calls
  pub reasoner_reentries : b'.reasoner_reentries ≤ b.reasoner_reentries
  pub planner_calls : b'.planner_calls ≤ b.planner_calls
  pub reviewer_calls : b'.reviewer_calls ≤ b.reviewer_calls
  pub frontier_calls : b'.frontier_calls ≤ b.frontier_calls
  pub judge_calls : b'.judge_calls ≤ b.judge_calls
  pub tokens : b'.tokens ≤ b.tokens
  pub external_cost_usd : b'.external_cost_usd ≤ b.external_cost_usd
  pub wall_clock_seconds : b'.wall_clock_seconds ≤ b.wall_clock_seconds

-- What a loop `l'` may have become from `l`: budgets only shrink, each iteration is paid for, and
-- a termination is not taken back.
pub record Spends (l l' : LoopState) : Type 0 where
  pub within : Within l'.remaining_budget l.remaining_budget
  pub paid :
      l'.iteration + l'.remaining_budget.iterations ≤ l.iteration + l.remaining_budget.iterations
  pub ended : is_some l.termination_reason ≡ true → is_some l'.termination_reason ≡ true
