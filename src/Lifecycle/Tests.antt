-- ===== src/Lifecycle/Tests.antt =====
-- Runs of the store of gateway/src/dgx_moa/lifecycle.py on small inputs.
use mo_e_mo_a_integrated_com.Lifecycle.Runs.{
  Reached-Inv, Reached, acquires, recovers_state, opened, followed,
}
use mo_e_mo_a_integrated_com.Lifecycle.Admission.{in_use, admit_unload-unused}
use mo_e_mo_a_integrated_com.Lifecycle.Moves.{
  starts_load, transition-MayFollow, transition-once, queue-cancel,
}
use mo_e_mo_a_integrated_com.Lifecycle.Progress.{NoLower, update-NoLower}
use mo_e_mo_a_integrated_com.Lifecycle.Exclusion.{is_guarded, claim-excludes}
use mo_e_mo_a_integrated_com.Lifecycle.{
  update_row, write, counted, sync_lease_counts, roles_where, delete_where, expired_roles,
  prune_expired, prune_and_sync, same_state, may_follow, LifecycleRecord, LifecycleStore, Step,
  load_queued, ready, unload_queued, unloading, active_request, profile_guard, stale_transition,
  refused, done,
}
use mo_e_mo_a_integrated_com.Lifecycle.Opening.{initial_record, initial_rows, open_store}
use mo_e_mo_a_integrated_com.Lifecycle.Leases.{
  request_lease, insert_or_ignore, insert_all, first_request_roles, touch_requested,
  readiness_fault, select_leases, store_request, answer_request, request_in, acquire_request_leases,
  Uuids,
}
use mo_e_mo_a_integrated_com.Lifecycle.Updates.{
  apply_change, apply_changes, merge_weight, merge_overall, clean_failure, is_valid, updated_values,
  save, update, Sanitizers, set_progress_value, set_overall_load_percent,
}
use mo_e_mo_a_integrated_com.Lifecycle.Transitions.{
  entered, load_begun, with_load, made_ready, with_rest, moved, load_samples, save_move,
  move_record, transition, queue_unload, cancel_queued_unload,
}
use mo_e_mo_a_integrated_com.Lifecycle.Unload.{
  blockers, unload_blockers, is_idle, admitted_record, admit_record, admit_unload, complete_unload,
  lease_blocker,
}
use mo_e_mo_a_integrated_com.Lifecycle.Guards.{
  guarded, guard_change, set_guard, read_all, raise_guards, claim_read, claim_guards,
}
use mo_e_mo_a_integrated_com.Lifecycle.Recovery.{recovered, recover_state, to_ready}
use mo_e_mo_a_integrated_com.Lifecycle.Invariant.{Inv}
use mo_e_mo_a_integrated_com.Dict.{Dict, lookup}
use mo_e_mo_a_integrated_com.Base.{
  ◌+◌, String, ◌==◌, eq_iff, ◌≡◌, refl, ◌≢◌, true, false, ◌||◌, Option, none, some, List, [], ◌∷◌,
  arith, if◌then◌else◌, any, joined, dedup,
}

abbrev plain : Sanitizers
plain = record { clean_class = λ t. t; clean_detail = λ t. t }

abbrev text_ids : Uuids
text_ids = record { parse = λ t. some t; uuid5 = λ n t. joined n t }

abbrev both : List String
both = "executor" ∷ "planner" ∷ []

abbrev started : LifecycleStore
started = open_store (λ role. role) 5 none both

abbrev store_of : {A : Type 0} → Step A → LifecycleStore → LifecycleStore
store_of (refused fault) s = s
store_of (done a s') s = s'

abbrev value_of : {A : Type 0} → Step A → A → A
value_of (refused fault) a = a
value_of (done b s') a = b

abbrev missing : LifecycleRecord
missing = initial_record (λ role. role) 0 none "none"

abbrev loaded : LifecycleStore
loaded = store_of (recover_state "executor" to_ready none "id1" 6 started) started

abbrev requested : LifecycleStore
requested =
    store_of (acquire_request_leases text_ids "r1" ("executor" ∷ []) active_request true 7 loaded)
      loaded

abbrev ready_record : LifecycleRecord
ready_record = value_of (recover_state "executor" to_ready none "id1" 6 started) missing

loaded-Reached : Reached loaded
unfolding recover_state recovered open_store initial_rows initial_record dedup lookup save is_valid
    write update_row
loaded-Reached =
    followed started loaded (opened (λ role. role) 5 none both)
      (recovers_state started loaded "executor" to_ready none "id1" 6 ready_record refl)

requested-Reached : Reached requested
unfolding acquire_request_leases request_in readiness_fault answer_request store_request insert_all
    insert_or_ignore request_lease sync_lease_counts counted touch_requested first_request_roles
    select_leases recover_state recovered open_store initial_rows initial_record dedup lookup save
    is_valid write update_row
requested-Reached =
    followed loaded requested loaded-Reached
      (acquires loaded requested text_ids "r1" ("executor" ∷ []) active_request true 7 _ refl)

Reached-Inv_example : Inv requested
Reached-Inv_example = Reached-Inv requested requested-Reached

-- A role in use is not unloaded.
in_use_stays :
    unload_blockers "executor" 8 requested
    ≡ done (lease_blocker active_request ∷ []) (prune_and_sync 8 "executor" requested)
unfolding unload_blockers blockers prune_and_sync prune_expired expired_roles roles_where
    delete_where acquire_request_leases request_in readiness_fault answer_request store_request
    insert_all insert_or_ignore request_lease sync_lease_counts counted touch_requested
    first_request_roles select_leases recover_state recovered open_store initial_rows initial_record
    dedup lookup save is_valid write update_row
in_use_stays = refl

abbrev unload_step : Step (Option LifecycleRecord)
unload_step = admit_unload plain "executor" "id1" "id2" 100 none none 9 loaded

abbrev unloaded : LifecycleRecord
unloaded = admitted_record plain "id2" 100 9 (counted [] "executor" 9 ready_record)

admit_unload-unused_example :
    ((r : LifecycleRecord) × (lookup "executor" loaded.records ≡ some r)
      × (same_state r.state ready || same_state r.state unload_queued ≡ true)
      × (r.transition_id ≡ "id1")
      × (r.evaluation_guard ≡ false)
      × (r.profile_guard ≡ false))
    × (any (in_use 9 "executor") (store_of unload_step loaded).leases ≡ false)
    × (lookup "executor" (store_of unload_step loaded).records ≡ some unloaded)
    × (unloaded.state ≡ unloading)
    × (unloaded.transition_id ≡ "id2")
unfolding admit_unload admit_record is_idle admitted_record updated_values clean_failure
    merge_overall merge_weight apply_changes apply_change prune_and_sync prune_expired expired_roles
    roles_where delete_where sync_lease_counts counted recover_state recovered open_store
    initial_rows initial_record dedup lookup save is_valid write update_row
admit_unload-unused_example =
    admit_unload-unused plain "executor" "id1" "id2" 100 none none 9 loaded unloaded
      (store_of unload_step loaded) loaded-Reached refl

abbrev queue_step : Step LifecycleRecord
queue_step = queue_unload plain "executor" "id1" "id2" 9 loaded

abbrev queued_store : LifecycleStore
queued_store = store_of queue_step loaded

abbrev cancel_step : Step LifecycleRecord
cancel_step = cancel_queued_unload plain "executor" "id2" "id3" 10 queued_store

queue-cancel_example :
    ((value_of cancel_step missing).state ≡ ready)
    × ((value_of cancel_step missing).ready_since ≡ ready_record.ready_since)
    × ((value_of cancel_step missing).ready_at ≡ ready_record.ready_at)
unfolding queue_unload cancel_queued_unload transition move_record save_move load_samples moved
    entered with_load with_rest made_ready updated_values clean_failure merge_overall merge_weight
    apply_changes recover_state recovered open_store initial_rows initial_record dedup lookup save
    is_valid write update_row
queue-cancel_example =
    queue-cancel plain "executor" "id1" "id2" "id3" 9 10 loaded queued_store
      (store_of cancel_step queued_store) ready_record (value_of queue_step missing)
      (value_of cancel_step missing) loaded-Reached refl refl refl

abbrev load_step : Step LifecycleRecord
load_step = transition plain "executor" load_queued "executor" "id1" [] 6 started

abbrev load_record : LifecycleRecord
load_record = value_of load_step missing

transition-MayFollow_example :
    (r : LifecycleRecord) × (lookup "executor" started.records ≡ some r)
    × (r.transition_id ≡ "executor")
    × (may_follow r.state load_queued ≡ true)
    × (lookup "executor" (store_of load_step started).records ≡ some load_record)
    × (load_record.state ≡ load_queued)
    × (load_record.transition_id ≡ "id1")
    × (load_record.service_unit ≡ r.service_unit)
    × (load_record.generation
        ≡ (if starts_load r.state load_queued then r.generation + 1 else r.generation))
    × ((j : String)
        → ("executor" == j) ≡ false
        → lookup j (store_of load_step started).records ≡ lookup j started.records)
    × ((store_of load_step started).leases ≡ started.leases)
unfolding transition move_record save_move load_samples moved entered with_load with_rest load_begun
    updated_values clean_failure merge_overall merge_weight apply_changes open_store initial_rows
    initial_record dedup lookup is_valid write update_row
transition-MayFollow_example =
    transition-MayFollow plain "executor" load_queued "executor" "id1" [] 6 started load_record
      (store_of load_step started) (opened (λ role. role) 5 none both) refl

abbrev after_queue : LifecycleStore
after_queue = store_of load_step started

transition-once_example :
    (transition plain "executor" load_queued "executor" "id2" [] 9 after_queue
      ≡ refused stale_transition)
    × (update plain "executor" "executor" [] 9 after_queue ≡ refused stale_transition)
    × (set_guard plain "executor" profile_guard true "executor" 9 after_queue
        ≡ refused stale_transition)
    × (complete_unload plain "executor" "executor" "id2" 1 none none 9 after_queue
        ≡ refused stale_transition)
unfolding transition move_record save_move load_samples moved entered with_load with_rest load_begun
    updated_values clean_failure merge_overall merge_weight apply_changes open_store initial_rows
    initial_record dedup lookup is_valid write update_row
transition-once_example =
    transition-once plain "executor" "executor" "id1" "id2" load_queued load_queued [] []
      profile_guard true 1 none none 6 9 started load_record after_queue
      (opened (λ role. role) 5 none both) (λ e. ground (arith, eq_iff "executor" "id1")) refl

abbrev progress_step : Step LifecycleRecord
progress_step =
    update plain "executor" "id1"
      (set_progress_value (some 40) ∷ set_overall_load_percent (some 60) ∷ []) 9 after_queue

-- It reports a lower progress, which does not count.
abbrev lower_step : Step LifecycleRecord
lower_step =
    update plain "executor" "id1"
      (set_progress_value (some 30) ∷ set_overall_load_percent (some 20) ∷ []) 10
      (store_of progress_step after_queue)

update-NoLower_example :
    NoLower false
      (value_of progress_step missing).weight_load_percent
      (value_of lower_step missing).weight_load_percent
    × NoLower false
        (value_of progress_step missing).overall_load_percent
        (value_of lower_step missing).overall_load_percent
unfolding transition move_record save_move load_samples moved entered with_load with_rest load_begun
    update updated_values clean_failure merge_overall merge_weight apply_changes apply_change
    open_store initial_rows initial_record dedup lookup save is_valid write update_row
update-NoLower_example =
    update-NoLower plain "executor" "id1"
      (set_progress_value (some 30) ∷ set_overall_load_percent (some 20) ∷ []) 10
      (store_of progress_step after_queue) (value_of progress_step missing)
      (value_of lower_step missing) (store_of lower_step after_queue) refl refl

abbrev claim_step : Step (Dict String)
claim_step = claim_guards plain both profile_guard 9 loaded

claim-excludes_example :
    (is_guarded profile_guard (lookup "planner" loaded.records) ≡ false)
    × (is_guarded profile_guard (lookup "planner" (store_of claim_step loaded).records) ≡ true)
    × ((owned : Dict String) (s : LifecycleStore)
        → claim_guards plain ("planner" ∷ []) profile_guard 10 (store_of claim_step loaded)
          ≢ done owned s)
unfolding claim_guards read_all claim_read raise_guards guarded guard_change updated_values
    clean_failure merge_overall merge_weight apply_changes apply_change recover_state recovered
    open_store initial_rows initial_record dedup lookup save is_valid write update_row
claim-excludes_example =
    claim-excludes plain both ("planner" ∷ []) "planner" profile_guard 9 10 loaded
      (store_of claim_step loaded) (value_of claim_step []) loaded-Reached refl refl refl
