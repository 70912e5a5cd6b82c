-- ===== src/Loop/Tests.antt =====
-- Runs of the loop of gateway/src/dgx_moa/loop_engineering.py on small inputs.
use mathlib.Core.List.{Memᴰ}
use mo_e_mo_a_integrated_com.Loop.Budget.{
  step, run, Event, evidence, begins, consumes, charges, criteria, fails,
}
use mo_e_mo_a_integrated_com.Loop.Stall.{begin_iteration_started, begin_times, stall_terminates}
use mo_e_mo_a_integrated_com.Loop.Strikes.{strike, three_strikes}
use mo_e_mo_a_integrated_com.Loop.Evidence.{completion_ready-run}
use mo_e_mo_a_integrated_com.Loop.Criteria.{
  valid_criterion, find_criterion, store_criterion, completion_ready, Met, find-store_criterion,
}
use mo_e_mo_a_integrated_com.Loop.Failures.{find_failure, register_failure, resolve_failures}
use mo_e_mo_a_integrated_com.Loop.Resolved.{Untouched, resolve_failures_lem}
use mo_e_mo_a_integrated_com.Loop.{
  terminate, new_loop, record_progress, begin_iteration, consume_budget, consume_usage, LoopBudget,
  AcceptanceCriterion, LoopFailure, LoopState, implementation, passed, success, no_progress,
  duplicate_failure_limit, tool_calls, tokens, test_failure, pos,
}
use mo_e_mo_a_integrated_com.Base.{
  ◌+◌, ◌-◌, ◌<◌, String, ◌≡◌, refl, ◌≢◌, ◌⊎◌, ◌↔◌, true, none, some, List, [], ◌∷◌, arith, length,
  any, All,
}

abbrev plain : String → String
plain s = s

abbrev budget : LoopBudget
budget = record {
  iterations = 3;
  tool_calls = 5;
  reasoner_reentries = 1;
  planner_calls = 1;
  reviewer_calls = 1;
  frontier_calls = 1;
  judge_calls = 1;
  tokens = 1000;
  external_cost_usd = 10;
  wall_clock_seconds = 60;
}

abbrev fresh : LoopState
fresh = new_loop plain "loop_1" 100 "r1" "fix the build" implementation budget 2

abbrev history : List Event
history =
    begins 101
    ∷ consumes tool_calls
    ∷ fails "f1" test_failure "retry" ("a.py" ∷ [])
    ∷ evidence "e1" (some "p1")
    ∷ evidence "e1" (some "p1")
    ∷ charges tokens (pos 300)
    ∷ begins 102
    ∷ []

history_iterations :
    ((run plain fresh history).iteration ≡ 2)
    × ((run plain fresh history).remaining_budget.iterations ≡ 1)
    × (length (run plain fresh history).observed_evidence_ids ≡ 1)
unfolding run step new_loop begin_iteration consume_budget consume_usage record_progress
    register_failure
history_iterations = (refl, refl, refl)

abbrev begun : LoopState
begun = (begin_iteration fresh 101).1

begin_iteration_started_example :
    (fresh.termination_reason ≡ none)
    × (101 - fresh.started_at_epoch < fresh.remaining_budget.wall_clock_seconds)
    × ((begin_iteration fresh 101).1.remaining_budget.iterations + 1
        ≡ fresh.remaining_budget.iterations)
    × ((begin_iteration fresh 101).1.iteration ≡ fresh.iteration + 1)
    × ((fresh.iteration ≡ 0)
        ⊎ (length fresh.observed_evidence_ids ≢ fresh.last_iteration_evidence_count))
    × ((begin_iteration fresh 101).1.last_iteration_evidence_count
        ≡ length fresh.observed_evidence_ids)
unfolding new_loop begin_iteration
begin_iteration_started_example = begin_iteration_started fresh 101 refl

abbrev ended : LoopState
ended = terminate fresh success

stall_terminates_example :
    (begin_times 2 begun begun.started_at_epoch).termination_reason ≡ some no_progress
unfolding new_loop begin_iteration
stall_terminates_example = stall_terminates 1 begun (ground arith)

three_strikes_example :
    ((strike fresh "f1" test_failure "retry" [] 2).termination_reason ≡ fresh.termination_reason)
    × ((strike fresh "f1" test_failure "retry" [] 3).termination_reason
        ≡ some duplicate_failure_limit)
unfolding new_loop find_failure
three_strikes_example = three_strikes fresh "f1" test_failure "retry" [] refl

abbrev tests_pass : AcceptanceCriterion
tests_pass = record {
  criterion_id = "ac_1";
  description = "tests pass";
  required = true;
  state = passed;
  evidence_ids = "e1" ∷ [];
  waiver_reason = none;
}

completion_ready-run_example :
    let l =
      run plain
        (new_loop plain "loop_1" 100 "r1" "fix the build" implementation budget 2)
        (criteria tests_pass ∷ []) in
    (any (λ c. c.required) l.acceptance_criteria ≡ true) × All Met l.acceptance_criteria
unfolding run step store_criterion completion_ready new_loop
completion_ready-run_example =
    completion_ready-run plain "loop_1" 100 "r1" "fix the build" implementation budget 2
      (criteria tests_pass ∷ []) refl

find-store_criterion_example :
    find_criterion "tests pass" (store_criterion fresh tests_pass).1.acceptance_criteria
    ≡ some tests_pass
unfolding valid_criterion
find-store_criterion_example = find-store_criterion fresh tests_pass "tests pass" refl

abbrev settled : LoopState
settled = (resolve_failures (run plain fresh history) ("a.py" ∷ [])).1

resolve_failures_lem_example :
    ((f : LoopFailure)
      → Memᴰ f settled.open_failures
        ↔ (Memᴰ f (run plain fresh history).open_failures × Untouched ("a.py" ∷ []) f))
    × ((resolve_failures (run plain fresh history) ("a.py" ∷ [])).0 + length settled.open_failures
        ≡ length (run plain fresh history).open_failures)
    × (record settled { open_failures = (run plain fresh history).open_failures }
        ≡ run plain fresh history)
resolve_failures_lem_example = resolve_failures_lem (run plain fresh history) ("a.py" ∷ [])
