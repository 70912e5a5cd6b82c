-- ===== src/Lifecycle/Updates.antt =====
-- gateway/src/dgx_moa/lifecycle.py: `_updated_record`, `update` and `transition`. The changes are the
-- keyword arguments, by name; `clean` stands for the two sanitizers of failure texts.
use mo_e_mo_a_integrated_com.Lifecycle.{
  write, require_role, read, ProgressQuality, LifecycleRecord, LifecycleStore, Step,
  stale_transition, invalid_record, refused, done,
}
use mo_e_mo_a_integrated_com.Base.{
  ℕ, max, String, ◌==◌, Bool, true, false, not, ◌&&◌, ◌||◌, Option, none, some, List, [], ◌∷◌, leb,
  if◌then◌else◌, map_some, any,
}

pub record Sanitizers : Type 0 where
  pub clean_class : String → String
  pub clean_detail : String → String

-- A field of MUTABLE_FIELDS with its new value. The fields outside of that set have no constructor.
pub data Change : Type 0 where
  set_ready_since set_last_used_at set_load_started_at set_ready_at : Option ℕ → Change
  set_last_requested_at set_last_completed_at set_eta_seconds : Option ℕ → Change
  set_progress_value set_weight_load_percent set_overall_load_percent : Option ℕ → Change
  set_last_load_duration_seconds set_last_unload_duration_seconds : Option ℕ → Change
  set_memory_before_bytes set_memory_after_bytes : Option ℕ → Change
  set_failure_class set_failure_detail set_last_error_class : Option String → Change
  set_last_error_message_redacted : Option String → Change
  set_retry_count set_active_request_count set_open_stream_count : ℕ → Change
  set_continuation_lease_count : ℕ → Change
  set_evaluation_guard set_profile_guard : Bool → Change
  set_progress_quality : Option ProgressQuality → Change

unfoldable pub apply_change : Change → LifecycleRecord → LifecycleRecord
apply_change (set_ready_since v) r = record r { ready_since = v }
apply_change (set_last_used_at v) r = record r { last_used_at = v }
apply_change (set_load_started_at v) r = record r { load_started_at = v }
apply_change (set_ready_at v) r = record r { ready_at = v }
apply_change (set_last_requested_at v) r = record r { last_requested_at = v }
apply_change (set_last_completed_at v) r = record r { last_completed_at = v }
apply_change (set_eta_seconds v) r = record r { eta_seconds = v }
apply_change (set_progress_value v) r = record r { progress_value = v }
apply_change (set_weight_load_percent v) r = record r { weight_load_percent = v }
apply_change (set_overall_load_percent v) r = record r { overall_load_percent = v }
apply_change (set_last_load_duration_seconds v) r = record r { last_load_duration_seconds = v }
apply_change (set_last_unload_duration_seconds v) r = record r { last_unload_duration_seconds = v }
apply_change (set_memory_before_bytes v) r = record r { memory_before_bytes = v }
apply_change (set_memory_after_bytes v) r = record r { memory_after_bytes = v }
apply_change (set_failure_class v) r = record r { failure_class = v }
apply_change (set_failure_detail v) r = record r { failure_detail = v }
apply_change (set_last_error_class v) r = record r { last_error_class = v }
apply_change (set_last_error_message_redacted v) r = record r { last_error_message_redacted = v }
apply_change (set_retry_count v) r = record r { retry_count = v }
apply_change (set_active_request_count v) r = record r { active_request_count = v }
apply_change (set_open_stream_count v) r = record r { open_stream_count = v }
apply_change (set_continuation_lease_count v) r = record r { continuation_lease_count = v }
apply_change (set_evaluation_guard v) r = record r { evaluation_guard = v }
apply_change (set_profile_guard v) r = record r { profile_guard = v }
apply_change (set_progress_quality v) r = record r { progress_quality = v }

-- values.update(changes)
unfoldable pub apply_changes : List Change → LifecycleRecord → LifecycleRecord
unfolding apply_change
apply_changes [] r = r
apply_changes (c ∷ cs) r = apply_changes cs (apply_change c r)

abbrev pub names_progress : Change → Bool
names_progress (set_progress_value v) = true
names_progress _ = false

abbrev pub names_weight : Change → Bool
names_weight (set_weight_load_percent v) = true
names_weight _ = false

abbrev pub names_overall : Change → Bool
names_overall (set_overall_load_percent v) = true
names_overall _ = false

abbrev pub names_class : Change → Bool
names_class (set_failure_class v) = true
names_class _ = false

abbrev pub names_detail : Change → Bool
names_detail (set_failure_detail v) = true
names_detail _ = false

abbrev pub names_error_class : Change → Bool
names_error_class (set_last_error_class v) = true
names_error_class _ = false

abbrev pub names_error_message : Change → Bool
names_error_message (set_last_error_message_redacted v) = true
names_error_message _ = false

-- max(current, value), where both are there
abbrev pub no_lower : Option ℕ → Option ℕ → Option ℕ
no_lower (some c) (some v) = some (max c v)
no_lower _ v = v

-- A progress value without a weight percentage sets both, and neither goes down.
unfoldable pub merge_weight : LifecycleRecord → List Change → LifecycleRecord → LifecycleRecord
merge_weight current cs r =
    let named = any names_weight cs in
    let weight =
      if any names_progress cs && not named then r.progress_value else r.weight_load_percent in
    let merged = no_lower current.weight_load_percent weight in
    if any names_progress cs || named
    then record r { progress_value = merged; weight_load_percent = merged }
    else r

unfoldable pub merge_overall : LifecycleRecord → List Change → LifecycleRecord → LifecycleRecord
merge_overall current cs r =
    if any names_overall cs
    then record r {
      overall_load_percent = no_lower current.overall_load_percent r.overall_load_percent;
    }
    else r

unfoldable pub clean_failure : Sanitizers → List Change → LifecycleRecord → LifecycleRecord
clean_failure clean cs r =
    let class = map_some clean.clean_class r.failure_class in
    let detail = map_some clean.clean_detail r.failure_detail in
    record r {
      failure_class = class;
      failure_detail = detail;
      last_error_class =
          (if any names_class cs && not (any names_error_class cs)
            then class
            else r.last_error_class);
      last_error_message_redacted =
          (if any names_detail cs && not (any names_error_message cs)
            then detail
            else r.last_error_message_redacted);
    }

abbrev pub is_percent : Option ℕ → Bool
is_percent none = true
is_percent (some p) = leb p 100

-- LifecycleRecord.model_validate: the bounds that natural numbers do not give by themselves.
unfoldable pub is_valid : LifecycleRecord → Bool
is_valid r =
    is_percent r.progress_value
    && is_percent r.weight_load_percent
    && is_percent r.overall_load_percent

-- The values of `_updated_record` before they are validated.
unfoldable pub updated_values : Sanitizers → LifecycleRecord → List Change → ℕ → LifecycleRecord
unfolding clean_failure merge_overall merge_weight apply_changes
updated_values clean current cs now =
    let r =
      clean_failure clean cs
        (merge_overall current cs (merge_weight current cs (apply_changes cs current))) in
    record r { updated_at = now }

-- LifecycleStore._updated_record
unfoldable pub updated_record :
    Sanitizers → LifecycleRecord → List Change → ℕ → Option LifecycleRecord
unfolding updated_values is_valid
updated_record clean current cs now =
    let r = updated_values clean current cs now in if is_valid r then some r else none

-- The record is validated, written and returned.
unfoldable pub save : LifecycleRecord → LifecycleStore → Step LifecycleRecord
unfolding is_valid write
save r s = if is_valid r then done r (write r s) else refused invalid_record

-- current.transition_id != expected_transition_id
abbrev pub current_only : {A : Type 0} → LifecycleRecord → String → Step A → Step A
current_only r expected rest =
    if r.transition_id == expected then rest else refused stale_transition

unfoldable pub update :
    Sanitizers → String → String → List Change → ℕ → LifecycleStore → Step LifecycleRecord
unfolding save updated_values
update clean role expected cs now s =
    require_role s role
      (read s role (λ r. current_only r expected (save (updated_values clean r cs now) s)))
