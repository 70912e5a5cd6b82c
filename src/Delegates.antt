-- ===== src/Delegates.antt =====
-- gateway/src/dgx_moa/async_moa.py: the delegates that AsyncMoARuntime launches and the reconciliation of
-- what they find.
mod Types
pub mod Runs
pub mod Cooling
pub mod Reconciled
mod Tests
use mo_e_mo_a_integrated_com.Delegates.Types.{
  is_fast, role_place, is_role, is_evidence, is_stale, same_artifact, same_artifacts, same_snapshot,
  staleness_of, by_role, budget_of, default_budget, is_running, Effort, Role, EvidenceClass,
  Staleness, ArtifactRef, DelegationSnapshot, EvidenceClaim, AgentFinding, EffortBudget, Task,
  DelegateHandle, DelegateResult, Decision, Reconciliation, AsyncMoaRuntime, MoaEnv, fast, low,
  medium, high, xhigh, reasoner, planner, reviewer, frontier, fact, observation,
  executor_hypothesis, agent_recommendation, decision, current, partially_stale, stale, running,
  cancelled, failed, returned,
}
use mo_e_mo_a_integrated_com.Dict.{
  Dict, lookup, remove, insert, values, keys, lookup-insert, lookup-remove, length-insert,
  UniqueKeys, insert-UniqueKeys, remove-UniqueKeys, remove_missing, length-remove, length-remove-le,
  lookup_empty, empty_of_lookup,
}
use mo_e_mo_a_integrated_com.Base.{
  ℕ, zero, suc, ◌+◌, ◌-◌, ◌*◌, ◌≤◌, ◌<◌, min, max, String, ◌==◌, eq_iff, eq_refl, ◌≡◌, refl, sym,
  ap, ◌∙◌, subst, ◌≢◌, ◌↔◌, ◌⊎◌, inl, inr, Bool, true, false, not, ◌&&◌, ◌||◌, Option, none, some,
  List, [], ◌∷◌, ◌++◌, map, arith, ltb, leb, eqb, if◌then◌else◌, ltb→lt, leb→le, Bool-cases,
  is_some, get_or, Option-cases, map_some, length, keep_if, any, all, is_empty, All, length-append,
  nonempty-keep_if, length-keep_if, first, codes, joined, contains, dedup, contains-dedup, NoDup,
  contains-append_one, append_one-NoDup, contains-keep_ne, keep_ne-NoDup, string_same, string_apart,
  joined_not_blank, text_joined_not_blank,
}
unfoldable pub use Types.*

-- AsyncMoARuntime.__init__; the semaphore is asyncio's and not part of the state.
unfoldable pub new_moa : Effort → Option (Effort → EffortBudget) → AsyncMoaRuntime
unfolding default_budget
new_moa effort budgets = record {
  effort = effort;
  budget = get_or budgets default_budget effort;
  handles = [];
  role_counts = λ role. 0;
  recent = [];
  launched = 0;
  useful_work_events = [];
}

-- AsyncMoARuntime.should_activate
unfoldable pub should_activate : Role → ℕ → AsyncMoaRuntime → Bool
should_activate role signal_strength r =
    not (is_fast r.effort)
    && leb (r.budget.activation_thresholds role) signal_strength
    && ltb r.launched r.budget.delegation_budget
    && ltb (r.role_counts role) (r.budget.role_budgets role)

pub record SpawnArgs : Type 0 where
  pub role : Role
  pub snapshot : DelegationSnapshot
  pub signal_strength : ℕ
  pub semantic_key : String
  pub depth : ℕ
  pub relevant : Bool

abbrev pub is_frontier : Role → Bool
is_frontier role = is_role role frontier

-- A delegate may be as deep as the budget allows, one at the frontier only directly below the task.
unfoldable pub is_too_deep : SpawnArgs → AsyncMoaRuntime → Bool
is_too_deep args r =
    ltb r.budget.max_depth args.depth || (is_frontier args.role && not (eqb args.depth 1))

unfoldable pub fingerprint_of : MoaEnv → SpawnArgs → String
fingerprint_of env args =
    env.fingerprint args.role args.semantic_key (env.evidence_hash args.snapshot)

-- clock() - last < cooldown, for the last launch of the fingerprint
unfoldable pub is_cooling : String → ℕ → AsyncMoaRuntime → Bool
is_cooling fingerprint now r = elim (lookup fingerprint r.recent) [
  | none ↦ false
  | some last ↦ ltb now (last + r.budget.semantic_cooldown_seconds)
]

abbrev pub count_role : Role → (Role → ℕ) → Role → ℕ
count_role role counts other = if is_role role other then counts other + 1 else counts other

unfoldable pub new_handle : MoaEnv → SpawnArgs → AsyncMoaRuntime → DelegateHandle
unfolding fingerprint_of
new_handle env args r =
    let fingerprint = fingerprint_of env args in
    record {
      handle_id = env.handle_name (r.launched + 1) fingerprint;
      role = args.role;
      launched_from = args.snapshot;
      fingerprint = fingerprint;
      depth = args.depth;
      relevant = args.relevant;
      task = running;
      is_cancel_requested = false;
    }

unfoldable pub launch : MoaEnv → SpawnArgs → ℕ → AsyncMoaRuntime → AsyncMoaRuntime
unfolding new_handle
launch env args now r =
    let handle = new_handle env args r in
    record r {
      launched = r.launched + 1;
      role_counts = count_role args.role r.role_counts;
      recent = insert handle.fingerprint now r.recent;
      handles = insert handle.handle_id handle r.handles;
    }

-- AsyncMoARuntime.spawn: the clock is read for the cooldown and again for the launch.
unfoldable pub spawn :
    MoaEnv → SpawnArgs → ℕ → ℕ → AsyncMoaRuntime → Option DelegateHandle × AsyncMoaRuntime
unfolding should_activate is_too_deep is_cooling fingerprint_of launch
spawn env args now later r =
    if not (should_activate args.role args.signal_strength r)
      || is_too_deep args r
      || is_cooling (fingerprint_of env args) now r
    then (none, r)
    else (some (new_handle env args r), launch env args later r)

-- AsyncMoARuntime.record_useful_work
unfoldable pub record_useful_work : String → AsyncMoaRuntime → AsyncMoaRuntime
record_useful_work event r = record r { useful_work_events = r.useful_work_events ++ event ∷ [] }

-- A handle that is pending and whose snapshot is stale.
unfoldable pub is_obsolete : DelegationSnapshot → DelegateHandle → Bool
unfolding staleness_of
is_obsolete now h = is_running h.task && is_stale (staleness_of h.launched_from now)

unfoldable pub ask_cancel : DelegationSnapshot → Dict DelegateHandle → Dict DelegateHandle
unfolding is_obsolete
ask_cancel now [] = []
ask_cancel now ((id, h) ∷ d) =
    let rest = ask_cancel now d in
    if is_obsolete now h
    then (id, record h { is_cancel_requested = true }) ∷ rest
    else (id, h) ∷ rest

-- AsyncMoARuntime.cancel_obsolete
unfoldable pub cancel_obsolete :
    DelegationSnapshot → AsyncMoaRuntime → List String × AsyncMoaRuntime
unfolding ask_cancel is_obsolete
cancel_obsolete now r = (
  map (λ h. h.handle_id) (keep_if (is_obsolete now) (values r.handles)),
  record r { handles = ask_cancel now r.handles },
)

-- The finding of a task that has returned one.
abbrev pub finding_of : Task → Option AgentFinding
finding_of (returned finding) = some finding
finding_of _ = none

abbrev pub failure_of : Task → Option String
failure_of cancelled = some "CancelledError"
failure_of (failed name text) = some name
failure_of _ = none

abbrev pub message_of : MoaEnv → Task → Option String
message_of env (failed name text) = some (env.shortened text)
message_of env _ = none

unfoldable pub result_of : MoaEnv → DelegationSnapshot → DelegateHandle → DelegateResult
unfolding staleness_of
result_of env now h = record {
  handle_id = h.handle_id;
  role = h.role;
  launched_from = h.launched_from;
  staleness = staleness_of h.launched_from now;
  finding = finding_of h.task;
  failure_class = failure_of h.task;
  failure_message = message_of env h.task;
}

-- A finding that corrects the direction and whose snapshot is not stale.
unfoldable pub corrects : DelegationSnapshot → DelegateHandle → AgentFinding → Bool
unfolding staleness_of
corrects now h finding =
    finding.materially_corrective && not (is_stale (staleness_of h.launched_from now))

unfoldable pub decision_of : MoaEnv → DelegateHandle → AgentFinding → Decision
decision_of env h finding = record {
  old_assumptions = finding.invalidates;
  new_evidence =
      map (λ c. c.statement) (keep_if (λ c. is_evidence c.classification) finding.claims);
  new_direction = finding.recommended_direction;
  affected_work = finding.requested_actions;
  source_role = h.role;
  snapshot_id = env.evidence_hash h.launched_from;
}

abbrev pub empty_reconciliation : Reconciliation
empty_reconciliation = record {
  results = [];
  decisions = [];
  reloop_required = false;
  notifies = false;
  requested_actions = [];
}

-- What one handle adds.
unfoldable pub add_finding :
    MoaEnv → DelegationSnapshot → DelegateHandle → Reconciliation → Reconciliation
unfolding result_of corrects decision_of
add_finding env now h rec =
    let noted = record rec { results = rec.results ++ result_of env now h ∷ [] } in
    elim (finding_of h.task) [
      | none ↦ noted
      | some finding ↦
          let asked = record noted {
            requested_actions = noted.requested_actions ++ finding.requested_actions;
          } in
          if corrects now h finding
          then record asked {
            reloop_required = true;
            decisions = asked.decisions ++ decision_of env h finding ∷ [];
          }
          else asked
    ]

unfoldable pub add_findings :
    MoaEnv → DelegationSnapshot → List DelegateHandle → Reconciliation → Reconciliation
unfolding add_finding
add_findings env now [] rec = rec
add_findings env now (h ∷ hs) rec = add_findings env now hs (add_finding env now h rec)

unfoldable pub relevant_handles : AsyncMoaRuntime → List DelegateHandle
relevant_handles r = keep_if (λ h. h.relevant) (values r.handles)

-- What `finalize` awaits, fixed before the await: the relevant handles, by their ids.
unfoldable pub begin_finalize : AsyncMoaRuntime → List String
unfolding relevant_handles
begin_finalize r = map (λ h. h.handle_id) (relevant_handles r)

-- The handles of these ids as they are now; those that were spawned since are not among them.
unfoldable pub awaited : List String → AsyncMoaRuntime → List DelegateHandle
awaited ids r = keep_if (λ h. contains h.handle_id ids) (values r.handles)

-- What follows the await; none while a task that is awaited runs.
unfoldable pub finish_finalize :
    MoaEnv → DelegationSnapshot → List DelegateHandle → Option Reconciliation
unfolding add_findings
finish_finalize env now hs =
    let all_found = add_findings env now hs empty_reconciliation in
    if any (λ h. is_running h.task) hs
    then none
    else some (record all_found {
      notifies = all_found.reloop_required;
      requested_actions = dedup all_found.requested_actions;
    })

-- AsyncMoARuntime.finalize: called when the runtime is `before`, going on from the await in `r`.
unfoldable pub finalize :
    MoaEnv → DelegationSnapshot → AsyncMoaRuntime → AsyncMoaRuntime → Option Reconciliation
unfolding begin_finalize awaited finish_finalize
finalize env now before r = finish_finalize env now (awaited (begin_finalize before) r)

abbrev pub event_weight : String → ℕ
event_weight event =
    if event == "unexpected_test_result"
      || event == "new_failure"
      || event == "conflicting_evidence"
    then 100
    else if event == "strategy_changed"
    then 90
    else if event == "delegate_result_arrived"
    then 80
    else if event == "major_tool_output"
    then 70
    else if event == "new_subsystem" || event == "multiple_hypotheses"
    then 60
    else if event == "goal_alignment_check"
    then 50
    else 0

unfoldable pub reasoner_signal : List String → ℕ
reasoner_signal [] = 0
reasoner_signal (event ∷ events) = max (event_weight event) (reasoner_signal events)
