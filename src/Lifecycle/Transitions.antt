-- ===== src/Lifecycle/Transitions.antt =====
-- gateway/src/dgx_moa/lifecycle.py: `transition` and what it queues. `new_id` is the text of the
-- uuid4 that the operation draws.
use mo_e_mo_a_integrated_com.Lifecycle.{
  write, require_role, read, same_state, may_follow, LifecycleState, LifecycleRecord, Sample,
  LifecycleStore, Step, disabled, cold, load_queued, process_starting, initializing_engine,
  warming_up, ready, unload_queued, failed, unavailable, load, invalid_transition, invalid_record,
  refused, done,
}
use mo_e_mo_a_integrated_com.Lifecycle.Updates.{
  is_valid, updated_values, current_only, Sanitizers, Change,
}
use mo_e_mo_a_integrated_com.Base.{
  ℕ, ◌+◌, String, Bool, ◌||◌, none, some, List, [], ◌∷◌, ◌++◌, if◌then◌else◌,
}

-- The fields every move to a state sets.
unfoldable pub entered : LifecycleState → String → ℕ → LifecycleRecord → LifecycleRecord
entered state new_id now r = record r {
  state = state;
  transition_id = new_id;
  transitioned_at = now;
  updated_at = now;
}

unfoldable pub load_begun : LifecycleRecord → LifecycleRecord → LifecycleRecord
load_begun current r = record r {
  generation = current.generation + 1;
  load_started_at = none;
  ready_at = none;
  progress_value = none;
  weight_load_percent = none;
  overall_load_percent = some 0;
  progress_quality = some unavailable;
  eta_seconds = none;
}

abbrev pub is_restart : LifecycleState → Bool
is_restart state = same_state state cold || same_state state failed

-- The first chain of cases on the new state.
unfoldable pub with_load : LifecycleRecord → LifecycleState → ℕ → LifecycleRecord → LifecycleRecord
unfolding load_begun
with_load current load_queued now r = if is_restart current.state then load_begun current r else r
with_load current process_starting now r = record r {
  load_started_at = some now;
  overall_load_percent = some 5;
}
with_load current initializing_engine now r = record r { overall_load_percent = some 70 }
with_load current warming_up now r = record r { overall_load_percent = some 90 }
with_load current _ now r = r

unfoldable pub made_ready : LifecycleRecord → ℕ → LifecycleRecord → LifecycleRecord
made_ready current now r =
    let kept = same_state current.state unload_queued in
    record r {
      ready_since = (if kept then current.ready_since else some now);
      ready_at = (if kept then current.ready_at else some now);
      weight_load_percent = some 100;
      overall_load_percent = some 100;
    }

unfoldable pub cleared : LifecycleRecord → LifecycleRecord
cleared r = record r {
  ready_since = none;
  ready_at = none;
  load_started_at = none;
  failure_class = none;
  failure_detail = none;
  progress_value = none;
  weight_load_percent = none;
  overall_load_percent = none;
  progress_quality = none;
  eta_seconds = none;
}

-- The second chain of cases.
unfoldable pub with_rest : LifecycleRecord → LifecycleState → ℕ → LifecycleRecord → LifecycleRecord
unfolding made_ready cleared
with_rest current ready now r = made_ready current now r
with_rest current cold now r = cleared r
with_rest current disabled now r = cleared r
with_rest current failed now r = r
with_rest current _ now r = record r { failure_class = none; failure_detail = none }

unfoldable pub moved :
    LifecycleRecord → LifecycleState → String → ℕ → LifecycleRecord → LifecycleRecord
unfolding entered with_load with_rest
moved current state new_id now r =
    with_rest current state now (with_load current state now (entered state new_id now r))

-- The row added to lifecycle_samples when a load ends.
unfoldable pub load_samples : String → LifecycleState → LifecycleRecord → List Sample
load_samples role state r = elim r.last_load_duration_seconds [
  | none ↦ []
  | some d ↦
      if same_state state ready
      then record {
        role = role;
        kind = load;
        duration_seconds = d;
        memory_before_bytes = r.memory_before_bytes;
        memory_after_bytes = r.memory_after_bytes;
      }
        ∷ []
      else []
]

unfoldable pub save_move :
    String → LifecycleState → LifecycleRecord → LifecycleStore → Step LifecycleRecord
unfolding is_valid write load_samples
save_move role state r s =
    let s' = write r s in
    if is_valid r
    then done r (record s' { samples = s'.samples ++ load_samples role state r })
    else refused invalid_record

unfoldable pub move_record :
    Sanitizers
    → String
    → LifecycleState
    → String
    → List Change
    → ℕ
    → LifecycleRecord
    → LifecycleStore
    → Step LifecycleRecord
unfolding updated_values is_valid moved save_move
move_record clean role state new_id cs now current s =
    let updated = updated_values clean current cs now in
    if is_valid updated
    then save_move role state (moved current state new_id now updated) s
    else refused invalid_record

unfoldable pub transition :
    Sanitizers
    → String
    → LifecycleState
    → String
    → String
    → List Change
    → ℕ
    → LifecycleStore
    → Step LifecycleRecord
unfolding move_record
transition clean role state expected new_id cs now s = require_role s role (
    read s role (λ current. current_only current expected (
      if may_follow current.state state
      then move_record clean role state new_id cs now current s
      else refused invalid_transition)))

unfoldable pub queue_unload :
    Sanitizers → String → String → String → ℕ → LifecycleStore → Step LifecycleRecord
unfolding transition
queue_unload clean role expected new_id now s =
    transition clean role unload_queued expected new_id [] now s

unfoldable pub cancel_queued_unload :
    Sanitizers → String → String → String → ℕ → LifecycleStore → Step LifecycleRecord
unfolding transition
cancel_queued_unload clean role expected new_id now s =
    transition clean role ready expected new_id [] now s
