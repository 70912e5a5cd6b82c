-- ===== src/Lifecycle/Clearing.antt =====
-- Which changes of gateway/src/dgx_moa/lifecycle.py take a load percentage back.
use mo_e_mo_a_integrated_com.Lifecycle.{LifecycleRecord}
use mo_e_mo_a_integrated_com.Lifecycle.Updates.{
  apply_change, apply_changes, names_progress, names_weight, names_overall, Change, set_ready_since,
  set_last_used_at, set_load_started_at, set_ready_at, set_last_requested_at, set_last_completed_at,
  set_eta_seconds, set_progress_value, set_weight_load_percent, set_overall_load_percent,
  set_last_load_duration_seconds, set_last_unload_duration_seconds, set_memory_before_bytes,
  set_memory_after_bytes, set_failure_class, set_failure_detail, set_last_error_class,
  set_last_error_message_redacted, set_retry_count, set_active_request_count, set_open_stream_count,
  set_continuation_lease_count, set_evaluation_guard, set_profile_guard, set_progress_quality,
}
use mo_e_mo_a_integrated_com.Base.{
  ◌≡◌, refl, Bool, true, false, not, ◌&&◌, ◌||◌, none, some, List, [], ◌∷◌, arith, if◌then◌else◌,
  is_some, any,
}

-- The change sets the percentage to None.
abbrev pub unsets_progress : Change → Bool
unsets_progress (set_progress_value none) = true
unsets_progress _ = false

abbrev pub unsets_weight : Change → Bool
unsets_weight (set_weight_load_percent none) = true
unsets_weight _ = false

abbrev pub unsets_overall : Change → Bool
unsets_overall (set_overall_load_percent none) = true
unsets_overall _ = false

-- A progress value stands for the weights where they are not named.
abbrev pub clears_weight : List Change → Bool
clears_weight cs = any unsets_weight cs || (not (any names_weight cs) && any unsets_progress cs)

abbrev pub clears_overall : List Change → Bool
clears_overall cs = any unsets_overall cs

-- Which percentages are there after a change.
apply_change-given :
    (c : Change) (r : LifecycleRecord)
    → (is_some (apply_change c r).progress_value
        ≡ (if names_progress c then not (unsets_progress c) else is_some r.progress_value))
      × (is_some (apply_change c r).weight_load_percent
          ≡ (if names_weight c then not (unsets_weight c) else is_some r.weight_load_percent))
      × (is_some (apply_change c r).overall_load_percent
          ≡ (if names_overall c then not (unsets_overall c) else is_some r.overall_load_percent))
unfolding apply_change
apply_change-given (set_ready_since v) r = (refl, refl, refl)
apply_change-given (set_last_used_at v) r = (refl, refl, refl)
apply_change-given (set_load_started_at v) r = (refl, refl, refl)
apply_change-given (set_ready_at v) r = (refl, refl, refl)
apply_change-given (set_last_requested_at v) r = (refl, refl, refl)
apply_change-given (set_last_completed_at v) r = (refl, refl, refl)
apply_change-given (set_eta_seconds v) r = (refl, refl, refl)
apply_change-given (set_progress_value none) r = (refl, refl, refl)
apply_change-given (set_progress_value (some v)) r = (refl, refl, refl)
apply_change-given (set_weight_load_percent none) r = (refl, refl, refl)
apply_change-given (set_weight_load_percent (some v)) r = (refl, refl, refl)
apply_change-given (set_overall_load_percent none) r = (refl, refl, refl)
apply_change-given (set_overall_load_percent (some v)) r = (refl, refl, refl)
apply_change-given (set_last_load_duration_seconds v) r = (refl, refl, refl)
apply_change-given (set_last_unload_duration_seconds v) r = (refl, refl, refl)
apply_change-given (set_memory_before_bytes v) r = (refl, refl, refl)
apply_change-given (set_memory_after_bytes v) r = (refl, refl, refl)
apply_change-given (set_failure_class v) r = (refl, refl, refl)
apply_change-given (set_failure_detail v) r = (refl, refl, refl)
apply_change-given (set_last_error_class v) r = (refl, refl, refl)
apply_change-given (set_last_error_message_redacted v) r = (refl, refl, refl)
apply_change-given (set_retry_count v) r = (refl, refl, refl)
apply_change-given (set_active_request_count v) r = (refl, refl, refl)
apply_change-given (set_open_stream_count v) r = (refl, refl, refl)
apply_change-given (set_continuation_lease_count v) r = (refl, refl, refl)
apply_change-given (set_evaluation_guard v) r = (refl, refl, refl)
apply_change-given (set_profile_guard v) r = (refl, refl, refl)
apply_change-given (set_progress_quality v) r = (refl, refl, refl)

pub given_progress :
    (cs : List Change) (r : LifecycleRecord)
    → any names_progress cs || is_some r.progress_value ≡ true
    → any unsets_progress cs ≡ false
    → is_some (apply_changes cs r).progress_value ≡ true
unfolding apply_changes
given_progress [] r h n = ground (arith, h)
given_progress (c ∷ cs) r h n =
    ground (arith, h, n, apply_change-given c r, given_progress cs (apply_change c r))

pub given_weight :
    (cs : List Change) (r : LifecycleRecord)
    → is_some r.weight_load_percent ≡ true
    → any unsets_weight cs ≡ false
    → is_some (apply_changes cs r).weight_load_percent ≡ true
unfolding apply_changes
given_weight [] r h n = h
given_weight (c ∷ cs) r h n =
    ground (arith, h, n, apply_change-given c r, given_weight cs (apply_change c r))

pub given_overall :
    (cs : List Change) (r : LifecycleRecord)
    → is_some r.overall_load_percent ≡ true
    → any unsets_overall cs ≡ false
    → is_some (apply_changes cs r).overall_load_percent ≡ true
unfolding apply_changes
given_overall [] r h n = h
given_overall (c ∷ cs) r h n =
    ground (arith, h, n, apply_change-given c r, given_overall cs (apply_change c r))
