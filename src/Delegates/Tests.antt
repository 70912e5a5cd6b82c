-- ===== src/Delegates/Tests.antt =====
-- Runs of gateway/src/dgx_moa/async_moa.py on small inputs.
use mo_e_mo_a_integrated_com.Delegates.{
  new_moa, should_activate, is_too_deep, fingerprint_of, is_cooling, new_handle, launch, spawn,
  result_of, corrects, decision_of, add_finding, add_findings, relevant_handles, begin_finalize,
  awaited, finish_finalize, finalize, SpawnArgs, staleness_of, default_budget, is_running,
  DelegationSnapshot, AgentFinding, DelegateHandle, Reconciliation, AsyncMoaRuntime, MoaEnv, medium,
  planner, reviewer, returned,
}
use mo_e_mo_a_integrated_com.Delegates.Runs.{
  settle, run-Bounded, Follows, Bounded, spawns, settles, stays, goes,
}
use mo_e_mo_a_integrated_com.Delegates.Cooling.{spawn-Cooling}
use mo_e_mo_a_integrated_com.Delegates.Reconciled.{is_correction, asks_for, finalize-Exact}
use mo_e_mo_a_integrated_com.Dict.{lookup, insert}
use mo_e_mo_a_integrated_com.Base.{
  ◌≡◌, refl, true, false, none, some, List, [], ◌∷◌, map, arith, get_or, length, keep_if, any,
  joined, contains, dedup,
}

abbrev env : MoaEnv
env = record {
  evidence_hash = λ s. s.repository_head;
  fingerprint = λ role key hash. joined key hash;
  handle_name = λ n fingerprint. fingerprint;
  shortened = λ t. t;
}

abbrev snapshot : DelegationSnapshot
snapshot = record {
  task_state_version = 1;
  repository_head = "h1";
  working_tree_hash = "w1";
  decision_version = 1;
  artifact_refs = [];
}

abbrev args : SpawnArgs
args = record {
  role = planner;
  snapshot = snapshot;
  signal_strength = 80;
  semantic_key = "k";
  depth = 1;
  relevant = true;
}

abbrev finding : AgentFinding
finding = record {
  claims = [];
  materially_corrective = true;
  invalidates = [];
  recommended_direction = "d";
  requested_actions = "test" ∷ [];
}

abbrev fresh : AsyncMoaRuntime
fresh = new_moa medium none

abbrev launched_one : AsyncMoaRuntime
launched_one = (spawn env args 5 6 fresh).1

launches : spawn env args 5 6 fresh ≡ (some (new_handle env args fresh), launched_one)
unfolding spawn new_moa default_budget should_activate is_too_deep is_cooling lookup
launches = refl

abbrev settled_one : AsyncMoaRuntime
settled_one = record launched_one { handles = settle "kh1" (returned finding) launched_one.handles }

settled-Follows : Follows env 0 fresh settled_one
settled-Follows =
    goes fresh launched_one settled_one
      (goes fresh fresh launched_one (stays fresh)
        (spawns fresh launched_one args 5 6 (omega arith) refl))
      (settles launched_one settled_one "kh1" (returned finding) refl)

run-Bounded_example :
    (settled_one.effort ≡ medium)
    × (settled_one.budget ≡ get_or none default_budget medium)
    × Bounded settled_one
run-Bounded_example = run-Bounded env 0 medium none settled_one settled-Follows

spawn-Cooling_example : spawn env args 40 41 launched_one ≡ (none, launched_one)
unfolding new_moa default_budget
spawn-Cooling_example =
    spawn-Cooling env args args 5 6 40 41 fresh launched_one launched_one
      (new_handle env args fresh) launches (stays launched_one) refl (omega arith)

abbrev answer : Reconciliation
answer = record {
  results =
      result_of env snapshot (record (new_handle env args fresh) { task = returned finding }) ∷ [];
  decisions = decision_of env (new_handle env args fresh) finding ∷ [];
  reloop_required = true;
  notifies = true;
  requested_actions = "test" ∷ [];
}

-- While the first delegate is awaited a second is launched, which runs on.
abbrev second_args : SpawnArgs
second_args = record args { semantic_key = "j"; role = reviewer }

abbrev launched_two : AsyncMoaRuntime
launched_two = (spawn env second_args 7 8 launched_one).1

abbrev settled_first : AsyncMoaRuntime
settled_first = record launched_two {
  handles = settle "kh1" (returned finding) launched_two.handles;
}

second_runs : any (λ h. is_running h.task) (relevant_handles settled_first) ≡ true
unfolding relevant_handles spawn launch new_handle new_moa default_budget settle insert lookup
    fingerprint_of should_activate is_too_deep is_cooling
second_runs = refl

answers : finalize env snapshot launched_one settled_first ≡ some answer
unfolding finalize begin_finalize awaited finish_finalize add_findings add_finding relevant_handles
    spawn launch new_handle new_moa default_budget settle corrects staleness_of insert lookup dedup
    fingerprint_of should_activate is_too_deep is_cooling decision_of result_of
answers = refl

abbrev first_only : List DelegateHandle
first_only = awaited (begin_finalize launched_one) settled_first

finalize-Exact_example :
    (any (λ h. is_running h.task) first_only ≡ false)
    × (true ≡ any (is_correction snapshot) first_only)
    × (true ≡ any (is_correction snapshot) first_only)
    × (1 ≡ length (keep_if (is_correction snapshot) first_only))
    × (contains "test" answer.requested_actions ≡ any (asks_for "test") first_only)
    × (answer.results ≡ map (result_of env snapshot) first_only)
finalize-Exact_example =
    finalize-Exact env snapshot launched_one settled_first answer "test" answers
