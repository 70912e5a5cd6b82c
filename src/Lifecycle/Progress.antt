-- ===== src/Lifecycle/Progress.antt =====
-- The load percentages of gateway/src/dgx_moa/lifecycle.py under `update`.
use mo_e_mo_a_integrated_com.Lifecycle.{LifecycleRecord, LifecycleStore, done}
use mo_e_mo_a_integrated_com.Lifecycle.Updates.{
  apply_change, apply_changes, names_progress, names_weight, names_overall, no_lower, merge_weight,
  merge_overall, clean_failure, updated_values, save, update, Sanitizers, Change, set_ready_since,
  set_last_used_at, set_load_started_at, set_ready_at, set_last_requested_at, set_last_completed_at,
  set_eta_seconds, set_progress_value, set_weight_load_percent, set_overall_load_percent,
  set_last_load_duration_seconds, set_last_unload_duration_seconds, set_memory_before_bytes,
  set_memory_after_bytes, set_failure_class, set_failure_detail, set_last_error_class,
  set_last_error_message_redacted, set_retry_count, set_active_request_count, set_open_stream_count,
  set_continuation_lease_count, set_evaluation_guard, set_profile_guard, set_progress_quality,
}
use mo_e_mo_a_integrated_com.Lifecycle.Clearing.{
  clears_weight, clears_overall, given_progress, given_weight, given_overall,
}
use mo_e_mo_a_integrated_com.Dict.{lookup}
use mo_e_mo_a_integrated_com.Base.{
  ℕ, ◌≤◌, String, ◌≡◌, refl, sym, ◌∙◌, subst, inl, inr, Bool, true, false, not, ◌&&◌, ◌||◌, Option,
  none, some, List, [], ◌∷◌, arith, if◌then◌else◌, Bool-cases, is_some, any,
}

-- What was there is still there and no lower, unless it was cleared.
abbrev pub NoLower : Bool → Option ℕ → Option ℕ → Type 0
NoLower cleared none v = Unit
NoLower cleared (some c) none = cleared ≡ true
NoLower cleared (some c) (some v) = c ≤ v

no_lower-NoLower :
    (cleared : Bool) (c v : Option ℕ)
    → (is_some c ≡ true → cleared ≡ false → is_some v ≡ true)
    → NoLower cleared c (no_lower c v)
no_lower-NoLower cleared none v h = tt
no_lower-NoLower true (some c) none h = refl
no_lower-NoLower false (some c) none h = absurd (ground (arith, h refl refl))
no_lower-NoLower cleared (some c) (some v) h = omega arith

same-NoLower : (cleared : Bool) (c : Option ℕ) → NoLower cleared c c
same-NoLower cleared none = tt
same-NoLower cleared (some c) = omega arith

apply_change-weight :
    (c : Change) (r : LifecycleRecord)
    → names_weight c ≡ false
    → (apply_change c r).weight_load_percent ≡ r.weight_load_percent
unfolding apply_change
apply_change-weight (set_ready_since v) r h = refl
apply_change-weight (set_last_used_at v) r h = refl
apply_change-weight (set_load_started_at v) r h = refl
apply_change-weight (set_ready_at v) r h = refl
apply_change-weight (set_last_requested_at v) r h = refl
apply_change-weight (set_last_completed_at v) r h = refl
apply_change-weight (set_eta_seconds v) r h = refl
apply_change-weight (set_progress_value v) r h = refl
apply_change-weight (set_weight_load_percent v) r h = cc
apply_change-weight (set_overall_load_percent v) r h = refl
apply_change-weight (set_last_load_duration_seconds v) r h = refl
apply_change-weight (set_last_unload_duration_seconds v) r h = refl
apply_change-weight (set_memory_before_bytes v) r h = refl
apply_change-weight (set_memory_after_bytes v) r h = refl
apply_change-weight (set_failure_class v) r h = refl
apply_change-weight (set_failure_detail v) r h = refl
apply_change-weight (set_last_error_class v) r h = refl
apply_change-weight (set_last_error_message_redacted v) r h = refl
apply_change-weight (set_retry_count v) r h = refl
apply_change-weight (set_active_request_count v) r h = refl
apply_change-weight (set_open_stream_count v) r h = refl
apply_change-weight (set_continuation_lease_count v) r h = refl
apply_change-weight (set_evaluation_guard v) r h = refl
apply_change-weight (set_profile_guard v) r h = refl
apply_change-weight (set_progress_quality v) r h = refl

apply_changes-weight :
    (cs : List Change) (r : LifecycleRecord)
    → any names_weight cs ≡ false
    → (apply_changes cs r).weight_load_percent ≡ r.weight_load_percent
unfolding apply_changes
apply_changes-weight [] r h = refl
apply_changes-weight (c ∷ cs) r h =
    ground (arith, apply_change-weight c r, apply_changes-weight cs (apply_change c r))

apply_change-overall :
    (c : Change) (r : LifecycleRecord)
    → names_overall c ≡ false
    → (apply_change c r).overall_load_percent ≡ r.overall_load_percent
unfolding apply_change
apply_change-overall (set_ready_since v) r h = refl
apply_change-overall (set_last_used_at v) r h = refl
apply_change-overall (set_load_started_at v) r h = refl
apply_change-overall (set_ready_at v) r h = refl
apply_change-overall (set_last_requested_at v) r h = refl
apply_change-overall (set_last_completed_at v) r h = refl
apply_change-overall (set_eta_seconds v) r h = refl
apply_change-overall (set_progress_value v) r h = refl
apply_change-overall (set_weight_load_percent v) r h = refl
apply_change-overall (set_overall_load_percent v) r h = cc
apply_change-overall (set_last_load_duration_seconds v) r h = refl
apply_change-overall (set_last_unload_duration_seconds v) r h = refl
apply_change-overall (set_memory_before_bytes v) r h = refl
apply_change-overall (set_memory_after_bytes v) r h = refl
apply_change-overall (set_failure_class v) r h = refl
apply_change-overall (set_failure_detail v) r h = refl
apply_change-overall (set_last_error_class v) r h = refl
apply_change-overall (set_last_error_message_redacted v) r h = refl
apply_change-overall (set_retry_count v) r h = refl
apply_change-overall (set_active_request_count v) r h = refl
apply_change-overall (set_open_stream_count v) r h = refl
apply_change-overall (set_continuation_lease_count v) r h = refl
apply_change-overall (set_evaluation_guard v) r h = refl
apply_change-overall (set_profile_guard v) r h = refl
apply_change-overall (set_progress_quality v) r h = refl

apply_changes-overall :
    (cs : List Change) (r : LifecycleRecord)
    → any names_overall cs ≡ false
    → (apply_changes cs r).overall_load_percent ≡ r.overall_load_percent
unfolding apply_changes
apply_changes-overall [] r h = refl
apply_changes-overall (c ∷ cs) r h =
    ground (arith, apply_change-overall c r, apply_changes-overall cs (apply_change c r))

overall-keeps_weight :
    (r x : LifecycleRecord) (cs : List Change)
    → (merge_overall r cs x).weight_load_percent ≡ x.weight_load_percent
unfolding merge_overall
overall-keeps_weight r x cs = ground arith

weight-keeps_overall :
    (r x : LifecycleRecord) (cs : List Change)
    → (merge_weight r cs x).overall_load_percent ≡ x.overall_load_percent
unfolding merge_weight
weight-keeps_overall r x cs = ground arith

merged_weight :
    (r : LifecycleRecord) (cs : List Change)
    → NoLower
        (clears_weight cs)
        r.weight_load_percent
        (merge_weight r cs (apply_changes cs r)).weight_load_percent
unfolding merge_weight
merged_weight r cs =
    let x = apply_changes cs r in
    let weight =
      if any names_progress cs && not (any names_weight cs)
      then x.progress_value
      else x.weight_load_percent in
    elim (Bool-cases (any names_progress cs || any names_weight cs)) [
      | inl h ↦ rw h (
          no_lower-NoLower (clears_weight cs) r.weight_load_percent weight
            (λ there kept. ground (arith, there, kept, h, given_progress cs r, given_weight cs r)))
      | inr h ↦ rw h (
          subst (NoLower (clears_weight cs) r.weight_load_percent)
            (sym (apply_changes-weight cs r (ground arith)))
            (same-NoLower (clears_weight cs) r.weight_load_percent))
    ]

merged_overall :
    (r x : LifecycleRecord) (cs : List Change)
    → x.overall_load_percent ≡ (apply_changes cs r).overall_load_percent
    → NoLower (clears_overall cs) r.overall_load_percent (merge_overall r cs x).overall_load_percent
unfolding merge_overall
merged_overall r x cs e = elim (Bool-cases (any names_overall cs)) [
  | inl h ↦ rw h (
      no_lower-NoLower (clears_overall cs) r.overall_load_percent x.overall_load_percent
        (λ there kept. ground (arith, e, given_overall cs r there kept)))
  | inr h ↦ rw h (
      subst (NoLower (clears_overall cs) r.overall_load_percent)
        (sym (e ∙ apply_changes-overall cs r h))
        (same-NoLower (clears_overall cs) r.overall_load_percent))
]

values-NoLower :
    (clean : Sanitizers) (r : LifecycleRecord) (cs : List Change) (now : ℕ)
    → NoLower
        (clears_weight cs)
        r.weight_load_percent
        (updated_values clean r cs now).weight_load_percent
      × NoLower
          (clears_overall cs)
          r.overall_load_percent
          (updated_values clean r cs now).overall_load_percent
unfolding updated_values clean_failure
values-NoLower clean r cs now =
    let x = merge_weight r cs (apply_changes cs r) in
    (
      subst (NoLower (clears_weight cs) r.weight_load_percent) (sym (overall-keeps_weight r x cs))
          (merged_weight r cs),
      merged_overall r x cs (weight-keeps_overall r (apply_changes cs r) cs),
    )

-- After an update that commits, whatever changes it is given, a load percentage that was set is still
-- set and no lower, unless a change sets it to None: the percentage of the weights also, where no
-- change names it, if one sets the progress value to None.
pub update-NoLower :
    (clean : Sanitizers) (role expected : String) (cs : List Change) (now : ℕ) (s : LifecycleStore)
    (r u : LifecycleRecord) (s' : LifecycleStore)
    → lookup role s.records ≡ some r
    → update clean role expected cs now s ≡ done u s'
    → NoLower (clears_weight cs) r.weight_load_percent u.weight_load_percent
      × NoLower (clears_overall cs) r.overall_load_percent u.overall_load_percent
unfolding update save
update-NoLower clean role expected cs now s r u s' e h =
    let same : updated_values clean r cs now ≡ u = ground (arith, e) in
    subst
      (λ x.
        NoLower (clears_weight cs) r.weight_load_percent x.weight_load_percent
        × NoLower (clears_overall cs) r.overall_load_percent x.overall_load_percent)
      same (values-NoLower clean r cs now)
