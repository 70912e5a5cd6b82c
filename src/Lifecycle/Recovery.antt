-- ===== src/Lifecycle/Recovery.antt =====
-- gateway/src/dgx_moa/lifecycle.py: `_reconcile_transition`, `reconcile`, `recover_state` and
-- `disable_all`. The driver's answer for a role and the ids drawn are functions of the role.
use mo_e_mo_a_integrated_com.Lifecycle.{
  require_role, read, same_state, LifecycleState, LifecycleRecord, LifecycleStore, LifecycleFault,
  Step, disabled, cold, process_starting, ready, refused, done,
}
use mo_e_mo_a_integrated_com.Lifecycle.Updates.{save, Sanitizers}
use mo_e_mo_a_integrated_com.Lifecycle.Transitions.{transition}
use mo_e_mo_a_integrated_com.Base.{
  ℕ, String, ◌&&◌, Option, none, some, List, [], ◌∷◌, if◌then◌else◌, is_empty, codes,
}

pub data DriverStatus : Type 0 where
  active activating inactive failed : DriverStatus

-- target[status]
abbrev pub target : DriverStatus → LifecycleState
target DriverStatus.active = process_starting
target DriverStatus.activating = process_starting
target DriverStatus.inactive = cold
target DriverStatus.failed = LifecycleState.failed

unfoldable pub reconciled : LifecycleState → String → ℕ → LifecycleRecord → LifecycleRecord
reconciled state new_id now r =
    let starting = same_state state process_starting in
    let broken = same_state state LifecycleState.failed in
    record r {
      state = state;
      transition_id = new_id;
      transitioned_at = now;
      updated_at = now;
      ready_since = none;
      ready_at = none;
      load_started_at = (if starting then some now else if broken then r.load_started_at else none);
      progress_value = none;
      weight_load_percent = none;
      overall_load_percent = (if starting then some 5 else none);
      progress_quality = none;
      eta_seconds = none;
      failure_class = (if broken then some "service_failed" else none);
      failure_detail = none;
      last_error_class = (if broken then some "service_failed" else r.last_error_class);
    }

unfoldable pub reconcile_record :
    LifecycleState → String → ℕ → LifecycleRecord → LifecycleStore → Step LifecycleRecord
unfolding reconciled save
reconcile_record state new_id now r s =
    if same_state r.state state then done r s else save (reconciled state new_id now r) s

unfoldable pub reconcile_transition :
    String → LifecycleState → String → ℕ → LifecycleStore → Step LifecycleRecord
unfolding reconcile_record
reconcile_transition role state new_id now s =
    read s role (λ r. reconcile_record state new_id now r s)

-- Each role is a transaction of its own, so those before a refusal stay written: the store at the
-- end is returned with the first fault.
unfoldable pub reconcile :
    (String → DriverStatus)
    → (String → String)
    → ℕ
    → List String
    → LifecycleStore
    → Option LifecycleFault × LifecycleStore
unfolding reconcile_transition
reconcile status new_ids now [] s = (none, s)
reconcile status new_ids now (k ∷ ks) s =
    elim (reconcile_transition k (target (status k)) (new_ids k) now s) [
      | refused fault ↦ (some fault, s)
      | done r s' ↦ reconcile status new_ids now ks s'
    ]

-- The states `recover_state` accepts.
pub data Recovered : Type 0 where
  to_cold to_ready to_failed : Recovered

abbrev pub recovered_state : Recovered → LifecycleState
recovered_state to_cold = cold
recovered_state to_ready = ready
recovered_state to_failed = LifecycleState.failed

-- failure_class or "service_failed"
abbrev pub or_service_failed : Option String → String
or_service_failed none = "service_failed"
or_service_failed (some t) = if is_empty (codes t) then "service_failed" else t

unfoldable pub recovered :
    Recovered → Option String → String → ℕ → LifecycleRecord → LifecycleRecord
recovered target failure_class new_id now r =
    let state = recovered_state target in
    let same = same_state r.state state in
    let is_ready = same_state state ready in
    let broken = same_state state LifecycleState.failed in
    record r {
      state = state;
      transition_id = (if same then r.transition_id else new_id);
      transitioned_at = (if same then r.transitioned_at else now);
      updated_at = now;
      ready_since =
          (if is_ready && same then r.ready_since else if is_ready then some now else none);
      ready_at = (if is_ready && same then r.ready_at else if is_ready then some now else none);
      load_started_at = (if broken then r.load_started_at else none);
      failure_class = (if broken then some (or_service_failed failure_class) else none);
      failure_detail = none;
      last_error_class =
          (if broken then some (or_service_failed failure_class) else r.last_error_class);
      progress_value = none;
      weight_load_percent = (if is_ready then some 100 else none);
      overall_load_percent = (if is_ready then some 100 else none);
      progress_quality = none;
      eta_seconds = none;
      retry_count = (if broken then r.retry_count else 0);
    }

unfoldable pub recover_state :
    String → Recovered → Option String → String → ℕ → LifecycleStore → Step LifecycleRecord
unfolding recovered save
recover_state role target failure_class new_id now s =
    require_role s role (read s role (λ r. save (recovered target failure_class new_id now r) s))

-- One role of `disable_all`.
unfoldable pub disable_role :
    Sanitizers → String → String → ℕ → LifecycleStore → Step LifecycleRecord
unfolding transition
disable_role clean role new_id now s = require_role s role (
    read s role (λ r.
      if same_state r.state disabled
      then done r s
      else transition clean role disabled r.transition_id new_id [] now s))

unfoldable pub disable_all :
    Sanitizers
    → (String → String)
    → ℕ
    → List String
    → LifecycleStore
    → Option LifecycleFault × LifecycleStore
unfolding disable_role
disable_all clean new_ids now [] s = (none, s)
disable_all clean new_ids now (k ∷ ks) s = elim (disable_role clean k (new_ids k) now s) [
  | refused fault ↦ (some fault, s)
  | done r s' ↦ disable_all clean new_ids now ks s'
]
