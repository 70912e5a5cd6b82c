-- ===== src/Loop.antt =====
-- gateway/src/dgx_moa/loop_engineering.py: the operations on a LoopState. An operation that mutates
-- the loop returns its result and the new state.
mod Types
pub mod Criteria
pub mod Failures
pub mod Resolved
pub mod Budget
pub mod Stall
pub mod Ended
pub mod Strikes
pub mod Evidence
mod Tests
use mo_e_mo_a_integrated_com.Base.{
  ℕ, zero, suc, ◌+◌, ◌-◌, ◌*◌, ◌≤◌, ◌<◌, min, max, String, ◌==◌, eq_iff, eq_refl, ◌≡◌, refl, sym,
  ap, ◌∙◌, subst, ◌≢◌, ◌↔◌, ◌⊎◌, inl, inr, Bool, true, false, not, ◌&&◌, ◌||◌, Option, none, some,
  List, [], ◌∷◌, ◌++◌, map, arith, ltb, leb, eqb, if◌then◌else◌, ltb→lt, leb→le, Bool-cases,
  is_some, get_or, Option-cases, length, keep_if, any, all, is_empty, All, length-append,
  length-keep_if, first, codes, contains, dedup, NoDup, contains-append_one, append_one-NoDup,
  contains-keep_ne, keep_ne-NoDup, string_same, string_apart,
}
unfoldable pub use Types.*

-- loop.terminate
unfoldable pub terminate : LoopState → TerminationReason → LoopState
terminate l reason = record l { termination_reason = some reason; progress_state = terminated }

-- `sha256` is hashlib's digest of a text, in hexadecimal.
unfoldable pub register_user_input :
    (String → String) → LoopState → String → Option String × LoopState
register_user_input sha256 l content =
    let fingerprint = sha256 content in
    if contains fingerprint l.input_fingerprints then (none, l) else (
      some fingerprint,
      record l { input_fingerprints = l.input_fingerprints ++ fingerprint ∷ [] },
    )

-- `uuid` is the loop's new id, `now` the time.
unfoldable pub new_loop :
    (String → String) → String → ℕ → String → String → LoopType → LoopBudget → ℕ → LoopState
unfolding register_user_input
new_loop sha256 uuid now request_id objective loop_type budget limit =
    (register_user_input sha256
      (record {
        loop_id = uuid;
        request_id = request_id;
        loop_type = loop_type;
        iteration = 0;
        objective = objective;
        observed_evidence_ids = [];
        progress_evidence_fingerprints = [];
        open_failures = [];
        acceptance_criteria = [];
        remaining_budget = budget;
        progress_state = progressing;
        termination_reason = none;
        started_at_epoch = now;
        last_iteration_evidence_count = 0;
        no_progress_iterations = 0;
        no_progress_iteration_limit = limit;
        input_fingerprints = [];
      })
      objective).1

-- fingerprint is not None and fingerprint in fingerprints
abbrev pub known_fingerprint : Option String → List String → Bool
known_fingerprint none fs = false
known_fingerprint (some f) fs = contains f fs

abbrev pub add_fingerprint : Option String → List String → List String
add_fingerprint none fs = fs
add_fingerprint (some f) fs = fs ++ f ∷ []

unfoldable pub record_progress : LoopState → String → Option String → Bool × LoopState
record_progress l evidence_id fingerprint =
    if contains evidence_id l.observed_evidence_ids
      || known_fingerprint fingerprint l.progress_evidence_fingerprints
    then (false, l)
    else (
      true,
      record l {
        observed_evidence_ids = l.observed_evidence_ids ++ evidence_id ∷ [];
        progress_evidence_fingerprints =
            add_fingerprint fingerprint l.progress_evidence_fingerprints;
        progress_state = progressing;
        no_progress_iterations = 0;
      },
    )

unfoldable pub record_no_progress : LoopState → LoopState
unfolding terminate
record_no_progress l =
    let l' = record l {
      no_progress_iterations = l.no_progress_iterations + 1;
      progress_state = stalled;
    } in
    if leb l'.no_progress_iteration_limit l'.no_progress_iterations
    then terminate l' no_progress
    else l'

-- The wall clock is charged first: `-` on ℕ stops at 0, as `max(0.0, ...)` does.
unfoldable pub charge_wall_clock : LoopState → ℕ → LoopState
charge_wall_clock l current =
    let elapsed = current - l.started_at_epoch in
    record l {
      remaining_budget = record (l.remaining_budget) {
        wall_clock_seconds = l.remaining_budget.wall_clock_seconds - elapsed;
      };
      started_at_epoch = current;
    }

unfoldable pub next_iteration : LoopState → LoopState
next_iteration l = record l {
  iteration = l.iteration + 1;
  remaining_budget = record (l.remaining_budget) { iterations = l.remaining_budget.iterations - 1 };
  last_iteration_evidence_count = length l.observed_evidence_ids;
  progress_state = progressing;
}

-- the part of `begin_iteration` after the wall clock is charged
unfoldable pub try_iteration : LoopState → Bool × LoopState
unfolding record_no_progress next_iteration terminate
try_iteration l =
    if eqb l.remaining_budget.wall_clock_seconds 0 || eqb l.remaining_budget.iterations 0
    then (false, terminate l budget_exhausted)
    else if not (eqb l.iteration 0)
        && eqb (length l.observed_evidence_ids) l.last_iteration_evidence_count
    then (false, record_no_progress l)
    else (true, next_iteration l)

unfoldable pub begin_iteration : LoopState → ℕ → Bool × LoopState
unfolding charge_wall_clock try_iteration
begin_iteration l current =
    if is_some l.termination_reason then (false, l) else try_iteration (charge_wall_clock l current)

unfoldable pub consume_budget : LoopState → BudgetName → Bool × LoopState
unfolding remaining set_remaining terminate
consume_budget l name =
    let left = remaining l.remaining_budget name in
    if is_some l.termination_reason
    then (false, l)
    else if eqb left 0
    then (false, terminate l budget_exhausted)
    else (true, record l { remaining_budget = set_remaining l.remaining_budget name (left - 1) })

-- `none` is the ValueError for a negative amount.
unfoldable pub consume_usage : LoopState → UsageBudgetName → ℤ → Option (Bool × LoopState)
unfolding remaining_usage set_remaining_usage terminate
consume_usage l name (negsuc n) = none
consume_usage l name (pos amount) =
    let left = remaining_usage l.remaining_budget name in
    some (
      if is_some l.termination_reason
      then (false, l)
      else if ltb left amount
      then (
        false,
        terminate (record l { remaining_budget = set_remaining_usage l.remaining_budget name 0 })
            budget_exhausted,
      )
      else (
        true,
        record l { remaining_budget = set_remaining_usage l.remaining_budget name (left - amount) },
      ))
