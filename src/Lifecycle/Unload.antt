-- ===== src/Lifecycle/Unload.antt =====
-- gateway/src/dgx_moa/lifecycle.py: `unload_blockers`, `admit_unload` and `complete_unload`.
use mo_e_mo_a_integrated_com.Lifecycle.{
  write, prune_and_sync, require_role, read, same_state, LeaseKind, GuardKind, LifecycleRecord,
  Sample, LifecycleStore, Step, cold, ready, unload_queued, unloading, active_request, open_stream,
  continuation, evaluation_guard, profile_guard, unload, invalid_value, invalid_transition,
  invalid_record, refused, done,
}
use mo_e_mo_a_integrated_com.Lifecycle.Updates.{
  is_valid, updated_values, current_only, Sanitizers, set_last_unload_duration_seconds,
  set_memory_before_bytes, set_memory_after_bytes,
}
use mo_e_mo_a_integrated_com.Lifecycle.Transitions.{entered, cleared}
use mo_e_mo_a_integrated_com.Base.{
  ℕ, String, ◌==◌, Bool, true, false, not, ◌&&◌, ◌||◌, Option, none, some, List, [], ◌∷◌, ◌++◌, leb,
  eqb, if◌then◌else◌,
}

pub data Blocker : Type 0 where
  lease_blocker : LeaseKind → Blocker
  guard_blocker : GuardKind → Blocker

abbrev pub when : {A : Type 0} → Bool → A → List A
when b a = if b then a ∷ [] else []

-- The set as a list; each of its five members stands in it at most once.
unfoldable pub blockers : LifecycleRecord → List Blocker
blockers r =
    when (not (eqb r.active_request_count 0)) (lease_blocker active_request)
    ++ when (not (eqb r.open_stream_count 0)) (lease_blocker open_stream)
    ++ when (not (eqb r.continuation_lease_count 0)) (lease_blocker continuation)
    ++ when r.evaluation_guard (guard_blocker evaluation_guard)
    ++ when r.profile_guard (guard_blocker profile_guard)

unfoldable pub unload_blockers : String → ℕ → LifecycleStore → Step (List Blocker)
unfolding prune_and_sync blockers
unload_blockers role now s =
    let s' = prune_and_sync now role s in
    require_role s role (read s' role (λ r. done (blockers r) s'))

-- 2**63 - 1
abbrev pub max_memory_sample : ℕ
max_memory_sample = 9223372036854775807

-- current.last_used_at != expected_last_used_at
abbrev pub same_time : Option ℕ → Option ℕ → Bool
same_time none none = true
same_time (some a) (some b) = eqb a b
same_time _ _ = false

abbrev pub as_expected : Option ℕ → Option ℕ → Bool
as_expected none actual = true
as_expected (some t) actual = same_time actual (some t)

-- The condition under which `admit_unload` goes on.
unfoldable pub is_idle : String → Option ℕ → Option ℕ → LifecycleRecord → Bool
is_idle expected ready_since last_used_at r =
    (same_state r.state ready || same_state r.state unload_queued)
    && r.transition_id == expected
    && as_expected ready_since r.ready_since
    && same_time r.last_used_at last_used_at
    && eqb r.active_request_count 0
    && eqb r.open_stream_count 0
    && eqb r.continuation_lease_count 0
    && not r.evaluation_guard
    && not r.profile_guard

unfoldable pub admitted_record : Sanitizers → String → ℕ → ℕ → LifecycleRecord → LifecycleRecord
unfolding updated_values
admitted_record clean new_id memory now r =
    let u = updated_values clean r (set_memory_before_bytes (some memory) ∷ []) now in
    record u {
      state = unloading;
      transition_id = new_id;
      transitioned_at = now;
      updated_at = now;
      failure_class = none;
      failure_detail = none;
    }

-- The admission of a record; a store that is left unchanged by it still keeps the prune.
unfoldable pub admit_record :
    Sanitizers
    → String
    → String
    → ℕ
    → Option ℕ
    → Option ℕ
    → ℕ
    → LifecycleRecord
    → LifecycleStore
    → Step (Option LifecycleRecord)
unfolding is_idle admitted_record is_valid write
admit_record clean expected new_id memory ready_since last_used_at now r s =
    let a = admitted_record clean new_id memory now r in
    if not (is_idle expected ready_since last_used_at r)
    then done none s
    else if is_valid a
    then done (some a) (write a s)
    else refused invalid_record

unfoldable pub admit_unload :
    Sanitizers
    → String
    → String
    → String
    → ℕ
    → Option ℕ
    → Option ℕ
    → ℕ
    → LifecycleStore
    → Step (Option LifecycleRecord)
unfolding prune_and_sync admit_record
admit_unload clean role expected new_id memory ready_since last_used_at now s =
    let s' = prune_and_sync now role s in
    require_role s role (
      if leb memory max_memory_sample
      then read s' role
          (λ r. admit_record clean expected new_id memory ready_since last_used_at now r s')
      else refused invalid_value)

-- The row is added for every unload; SQLite refuses a missing duration, which no caller passes.
unfoldable pub unload_sample : String → ℕ → LifecycleRecord → Sample
unload_sample role duration r = record {
  role = role;
  kind = unload;
  duration_seconds = duration;
  memory_before_bytes = r.memory_before_bytes;
  memory_after_bytes = r.memory_after_bytes;
}

unfoldable pub unloaded_record :
    Sanitizers → String → ℕ → Option ℕ → Option ℕ → ℕ → LifecycleRecord → LifecycleRecord
unfolding updated_values entered cleared
unloaded_record clean new_id duration before after now r = cleared (
    entered cold new_id now (
      updated_values clean r
        (set_last_unload_duration_seconds (some duration)
          ∷ set_memory_before_bytes before
          ∷ set_memory_after_bytes after
          ∷ [])
        now))

unfoldable pub finish_unload : String → ℕ → LifecycleRecord → LifecycleStore → Step LifecycleRecord
unfolding is_valid write unload_sample
finish_unload role duration r s =
    let s' = write r s in
    if is_valid r
    then done r (record s' { samples = s'.samples ++ unload_sample role duration r ∷ [] })
    else refused invalid_record

unfoldable pub complete_unload :
    Sanitizers
    → String
    → String
    → String
    → ℕ
    → Option ℕ
    → Option ℕ
    → ℕ
    → LifecycleStore
    → Step LifecycleRecord
unfolding unloaded_record finish_unload
complete_unload clean role expected new_id duration before after now s = require_role s role (
    read s role (λ r. current_only r expected (
      if same_state r.state unloading
      then finish_unload role duration (unloaded_record clean new_id duration before after now r) s
      else refused invalid_transition)))
