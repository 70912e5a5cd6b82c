-- ===== src/Lifecycle/Quiet.antt =====
-- The record changes of gateway/src/dgx_moa/lifecycle.py that leave a role's request counts alone.
use mo_e_mo_a_integrated_com.Lifecycle.{
  LifecycleState, GuardKind, LifecycleRecord, disabled, cold, load_queued, process_starting,
  loading_weights, initializing_engine, warming_up, ready, sleeping, unload_queued, unloading,
  evaluation_guard, profile_guard,
}
use mo_e_mo_a_integrated_com.Lifecycle.Updates.{
  apply_change, apply_changes, merge_weight, merge_overall, clean_failure, updated_values,
  Sanitizers, Change, set_ready_since, set_last_used_at, set_load_started_at, set_ready_at,
  set_last_requested_at, set_last_completed_at, set_eta_seconds, set_progress_value,
  set_weight_load_percent, set_overall_load_percent, set_last_load_duration_seconds,
  set_last_unload_duration_seconds, set_memory_before_bytes, set_memory_after_bytes,
  set_failure_class, set_failure_detail, set_last_error_class, set_last_error_message_redacted,
  set_retry_count, set_active_request_count, set_open_stream_count, set_continuation_lease_count,
  set_evaluation_guard, set_profile_guard, set_progress_quality,
}
use mo_e_mo_a_integrated_com.Lifecycle.Transitions.{
  entered, load_begun, with_load, made_ready, cleared, with_rest, moved,
}
use mo_e_mo_a_integrated_com.Lifecycle.Unload.{admitted_record, unloaded_record}
use mo_e_mo_a_integrated_com.Lifecycle.Guards.{guard_change}
use mo_e_mo_a_integrated_com.Lifecycle.Recovery.{reconciled, recovered, Recovered}
use mo_e_mo_a_integrated_com.Lifecycle.Invariant.{Quiet}
use mo_e_mo_a_integrated_com.Base.{
  ℕ, String, ◌≡◌, refl, Bool, true, false, Option, some, List, [], ◌∷◌, arith, all,
}

-- The change names neither of the counts of requests.
abbrev pub keeps_counts : Change → Bool
keeps_counts (set_active_request_count v) = false
keeps_counts (set_open_stream_count v) = false
keeps_counts _ = true

apply_change-Quiet :
    (c : Change) (r : LifecycleRecord) → keeps_counts c ≡ true → Quiet r (apply_change c r)
unfolding apply_change
apply_change-Quiet (set_ready_since v) r h = (refl, refl, refl)
apply_change-Quiet (set_last_used_at v) r h = (refl, refl, refl)
apply_change-Quiet (set_load_started_at v) r h = (refl, refl, refl)
apply_change-Quiet (set_ready_at v) r h = (refl, refl, refl)
apply_change-Quiet (set_last_requested_at v) r h = (refl, refl, refl)
apply_change-Quiet (set_last_completed_at v) r h = (refl, refl, refl)
apply_change-Quiet (set_eta_seconds v) r h = (refl, refl, refl)
apply_change-Quiet (set_progress_value v) r h = (refl, refl, refl)
apply_change-Quiet (set_weight_load_percent v) r h = (refl, refl, refl)
apply_change-Quiet (set_overall_load_percent v) r h = (refl, refl, refl)
apply_change-Quiet (set_last_load_duration_seconds v) r h = (refl, refl, refl)
apply_change-Quiet (set_last_unload_duration_seconds v) r h = (refl, refl, refl)
apply_change-Quiet (set_memory_before_bytes v) r h = (refl, refl, refl)
apply_change-Quiet (set_memory_after_bytes v) r h = (refl, refl, refl)
apply_change-Quiet (set_failure_class v) r h = (refl, refl, refl)
apply_change-Quiet (set_failure_detail v) r h = (refl, refl, refl)
apply_change-Quiet (set_last_error_class v) r h = (refl, refl, refl)
apply_change-Quiet (set_last_error_message_redacted v) r h = (refl, refl, refl)
apply_change-Quiet (set_retry_count v) r h = (refl, refl, refl)
apply_change-Quiet (set_active_request_count v) r h = cc
apply_change-Quiet (set_open_stream_count v) r h = cc
apply_change-Quiet (set_continuation_lease_count v) r h = (refl, refl, refl)
apply_change-Quiet (set_evaluation_guard v) r h = (refl, refl, refl)
apply_change-Quiet (set_profile_guard v) r h = (refl, refl, refl)
apply_change-Quiet (set_progress_quality v) r h = (refl, refl, refl)

apply_changes-Quiet :
    (cs : List Change) (r : LifecycleRecord)
    → all keeps_counts cs ≡ true
    → Quiet r (apply_changes cs r)
unfolding apply_changes
apply_changes-Quiet [] r h = (refl, refl, refl)
apply_changes-Quiet (c ∷ cs) r h =
    ground (arith, apply_change-Quiet c r, apply_changes-Quiet cs (apply_change c r))

pub updated_values-Quiet :
    (clean : Sanitizers) (r : LifecycleRecord) (cs : List Change) (now : ℕ)
    → all keeps_counts cs ≡ true
    → Quiet r (updated_values clean r cs now)
unfolding updated_values clean_failure merge_overall merge_weight
updated_values-Quiet clean r cs now h = ground (arith, apply_changes-Quiet cs r h)

pub moved-Quiet :
    (current : LifecycleRecord) (state : LifecycleState) (new_id : String) (now : ℕ)
    (r : LifecycleRecord)
    → Quiet r (moved current state new_id now r)
unfolding moved entered with_load with_rest load_begun made_ready cleared
moved-Quiet current disabled new_id now r = (refl, refl, refl)
moved-Quiet current cold new_id now r = (refl, refl, refl)
moved-Quiet current load_queued new_id now r = ground arith
moved-Quiet current process_starting new_id now r = (refl, refl, refl)
moved-Quiet current loading_weights new_id now r = (refl, refl, refl)
moved-Quiet current initializing_engine new_id now r = (refl, refl, refl)
moved-Quiet current warming_up new_id now r = (refl, refl, refl)
moved-Quiet current ready new_id now r = (refl, refl, refl)
moved-Quiet current sleeping new_id now r = (refl, refl, refl)
moved-Quiet current unload_queued new_id now r = (refl, refl, refl)
moved-Quiet current unloading new_id now r = (refl, refl, refl)
moved-Quiet current LifecycleState.failed new_id now r = (refl, refl, refl)

pub admitted_record-Quiet :
    (clean : Sanitizers) (new_id : String) (memory now : ℕ) (r : LifecycleRecord)
    → Quiet r (admitted_record clean new_id memory now r)
unfolding admitted_record
admitted_record-Quiet clean new_id memory now r =
    updated_values-Quiet clean r (set_memory_before_bytes (some memory) ∷ []) now refl

pub unloaded_record-Quiet :
    (clean : Sanitizers) (new_id : String) (duration : ℕ) (before after : Option ℕ) (now : ℕ)
    (r : LifecycleRecord)
    → Quiet r (unloaded_record clean new_id duration before after now r)
unfolding unloaded_record entered cleared
unloaded_record-Quiet clean new_id duration before after now r =
    updated_values-Quiet clean r
      (set_last_unload_duration_seconds (some duration)
        ∷ set_memory_before_bytes before
        ∷ set_memory_after_bytes after
        ∷ [])
      now refl

pub guard_change-keeps_counts :
    (g : GuardKind) (b : Bool) → all keeps_counts (guard_change g b ∷ []) ≡ true
unfolding guard_change
guard_change-keeps_counts evaluation_guard b = refl
guard_change-keeps_counts profile_guard b = refl

pub reconciled-Quiet :
    (state : LifecycleState) (new_id : String) (now : ℕ) (r : LifecycleRecord)
    → Quiet r (reconciled state new_id now r)
unfolding reconciled
reconciled-Quiet state new_id now r = (refl, refl, refl)

pub recovered-Quiet :
    (t : Recovered) (failure_class : Option String) (new_id : String) (now : ℕ)
    (r : LifecycleRecord)
    → Quiet r (recovered t failure_class new_id now r)
unfolding recovered
recovered-Quiet t failure_class new_id now r = (refl, refl, refl)
