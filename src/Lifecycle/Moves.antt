-- ===== src/Lifecycle/Moves.antt =====
-- What a committed transition of gateway/src/dgx_moa/lifecycle.py changes, and what it keeps.
use mo_e_mo_a_integrated_com.Lifecycle.{
  write, same_state, may_follow, LifecycleState, GuardKind, LifecycleRecord, LifecycleStore,
  disabled, cold, load_queued, process_starting, loading_weights, initializing_engine, warming_up,
  ready, sleeping, unload_queued, unloading, stale_transition, refused, done,
}
use mo_e_mo_a_integrated_com.Lifecycle.Updates.{
  apply_change, apply_changes, merge_weight, merge_overall, clean_failure, updated_values, update,
  Sanitizers, Change, set_ready_since, set_last_used_at, set_load_started_at, set_ready_at,
  set_last_requested_at, set_last_completed_at, set_eta_seconds, set_progress_value,
  set_weight_load_percent, set_overall_load_percent, set_last_load_duration_seconds,
  set_last_unload_duration_seconds, set_memory_before_bytes, set_memory_after_bytes,
  set_failure_class, set_failure_detail, set_last_error_class, set_last_error_message_redacted,
  set_retry_count, set_active_request_count, set_open_stream_count, set_continuation_lease_count,
  set_evaluation_guard, set_profile_guard, set_progress_quality,
}
use mo_e_mo_a_integrated_com.Lifecycle.Transitions.{
  entered, load_begun, is_restart, with_load, made_ready, cleared, with_rest, moved, transition,
  queue_unload, cancel_queued_unload,
}
use mo_e_mo_a_integrated_com.Lifecycle.Unload.{complete_unload}
use mo_e_mo_a_integrated_com.Lifecycle.Guards.{set_guard}
use mo_e_mo_a_integrated_com.Lifecycle.Rows.{lookup-update_row}
use mo_e_mo_a_integrated_com.Lifecycle.Invariant.{Exact}
use mo_e_mo_a_integrated_com.Lifecycle.Saving.{transitioned}
use mo_e_mo_a_integrated_com.Lifecycle.Runs.{Reached-Inv, Reached}
use mo_e_mo_a_integrated_com.Dict.{lookup}
use mo_e_mo_a_integrated_com.Base.{
  ℕ, ◌+◌, String, ◌==◌, eq_iff, ◌≡◌, refl, sym, ap, ◌∙◌, subst, ◌≢◌, inl, inr, Bool, true, false,
  ◌&&◌, Option, some, List, [], ◌∷◌, arith, if◌then◌else◌, Bool-cases, contains,
}

-- The fields outside of MUTABLE_FIELDS, but for the times.
abbrev pub Kept : LifecycleRecord → LifecycleRecord → Type 0
Kept r u =
    (u.role ≡ r.role)
    × (u.generation ≡ r.generation)
    × (u.state ≡ r.state)
    × (u.transition_id ≡ r.transition_id)
    × (u.service_unit ≡ r.service_unit)

apply_change-Kept : (c : Change) (r : LifecycleRecord) → Kept r (apply_change c r)
unfolding apply_change
apply_change-Kept (set_ready_since v) r = (refl, refl, refl, refl, refl)
apply_change-Kept (set_last_used_at v) r = (refl, refl, refl, refl, refl)
apply_change-Kept (set_load_started_at v) r = (refl, refl, refl, refl, refl)
apply_change-Kept (set_ready_at v) r = (refl, refl, refl, refl, refl)
apply_change-Kept (set_last_requested_at v) r = (refl, refl, refl, refl, refl)
apply_change-Kept (set_last_completed_at v) r = (refl, refl, refl, refl, refl)
apply_change-Kept (set_eta_seconds v) r = (refl, refl, refl, refl, refl)
apply_change-Kept (set_progress_value v) r = (refl, refl, refl, refl, refl)
apply_change-Kept (set_weight_load_percent v) r = (refl, refl, refl, refl, refl)
apply_change-Kept (set_overall_load_percent v) r = (refl, refl, refl, refl, refl)
apply_change-Kept (set_last_load_duration_seconds v) r = (refl, refl, refl, refl, refl)
apply_change-Kept (set_last_unload_duration_seconds v) r = (refl, refl, refl, refl, refl)
apply_change-Kept (set_memory_before_bytes v) r = (refl, refl, refl, refl, refl)
apply_change-Kept (set_memory_after_bytes v) r = (refl, refl, refl, refl, refl)
apply_change-Kept (set_failure_class v) r = (refl, refl, refl, refl, refl)
apply_change-Kept (set_failure_detail v) r = (refl, refl, refl, refl, refl)
apply_change-Kept (set_last_error_class v) r = (refl, refl, refl, refl, refl)
apply_change-Kept (set_last_error_message_redacted v) r = (refl, refl, refl, refl, refl)
apply_change-Kept (set_retry_count v) r = (refl, refl, refl, refl, refl)
apply_change-Kept (set_active_request_count v) r = (refl, refl, refl, refl, refl)
apply_change-Kept (set_open_stream_count v) r = (refl, refl, refl, refl, refl)
apply_change-Kept (set_continuation_lease_count v) r = (refl, refl, refl, refl, refl)
apply_change-Kept (set_evaluation_guard v) r = (refl, refl, refl, refl, refl)
apply_change-Kept (set_profile_guard v) r = (refl, refl, refl, refl, refl)
apply_change-Kept (set_progress_quality v) r = (refl, refl, refl, refl, refl)

apply_changes-Kept : (cs : List Change) (r : LifecycleRecord) → Kept r (apply_changes cs r)
unfolding apply_changes
apply_changes-Kept [] r = (refl, refl, refl, refl, refl)
apply_changes-Kept (c ∷ cs) r =
    ground (arith, apply_change-Kept c r, apply_changes-Kept cs (apply_change c r))

pub updated_values-Kept :
    (clean : Sanitizers) (r : LifecycleRecord) (cs : List Change) (now : ℕ)
    → Kept r (updated_values clean r cs now)
unfolding updated_values clean_failure merge_overall merge_weight
updated_values-Kept clean r cs now = ground (arith, apply_changes-Kept cs r)

-- state == "load_queued" and current.state in {"cold", "failed"}
abbrev pub starts_load : LifecycleState → LifecycleState → Bool
starts_load current state = same_state state load_queued && is_restart current

moved_fields :
    (r : LifecycleRecord) (state : LifecycleState) (new_id : String) (now : ℕ) (x : LifecycleRecord)
    → ((moved r state new_id now x).state ≡ state)
      × ((moved r state new_id now x).transition_id ≡ new_id)
      × ((moved r state new_id now x).role ≡ x.role)
      × ((moved r state new_id now x).service_unit ≡ x.service_unit)
      × ((moved r state new_id now x).generation
          ≡ (if starts_load r.state state then r.generation + 1 else x.generation))
unfolding moved entered with_load with_rest load_begun made_ready cleared
moved_fields r disabled new_id now x = (refl, refl, refl, refl, refl)
moved_fields r cold new_id now x = (refl, refl, refl, refl, refl)
moved_fields r load_queued new_id now x = ground arith
moved_fields r process_starting new_id now x = (refl, refl, refl, refl, refl)
moved_fields r loading_weights new_id now x = (refl, refl, refl, refl, refl)
moved_fields r initializing_engine new_id now x = (refl, refl, refl, refl, refl)
moved_fields r warming_up new_id now x = (refl, refl, refl, refl, refl)
moved_fields r ready new_id now x = (refl, refl, refl, refl, refl)
moved_fields r sleeping new_id now x = (refl, refl, refl, refl, refl)
moved_fields r unload_queued new_id now x = (refl, refl, refl, refl, refl)
moved_fields r unloading new_id now x = (refl, refl, refl, refl, refl)
moved_fields r LifecycleState.failed new_id now x = (refl, refl, refl, refl, refl)

-- In a reached store, a transition that commits found the role under the expected transition id, in a
-- state from which the table of transitions allows the new one. The role's row is then the record
-- returned: in the new state, under the new id, with its service unit, and with a generation that is
-- one higher if a load was queued from cold or failed and the same otherwise. Every other row and
-- every lease is as before.
pub transition-MayFollow :
    (clean : Sanitizers) (role : String) (state : LifecycleState) (expected new_id : String)
    (cs : List Change) (now : ℕ) (s : LifecycleStore) (u : LifecycleRecord) (s' : LifecycleStore)
    → Reached s
    → transition clean role state expected new_id cs now s ≡ done u s'
    → (r : LifecycleRecord) × (lookup role s.records ≡ some r)
      × (r.transition_id ≡ expected)
      × (may_follow r.state state ≡ true)
      × (lookup role s'.records ≡ some u)
      × (u.state ≡ state)
      × (u.transition_id ≡ new_id)
      × (u.service_unit ≡ r.service_unit)
      × (u.generation ≡ (if starts_load r.state state then r.generation + 1 else r.generation))
      × ((j : String) → (role == j) ≡ false → lookup j s'.records ≡ lookup j s.records)
      × (s'.leases ≡ s.leases)
unfolding write
transition-MayFollow clean role state expected new_id cs now s u s' reached h =
    let t = transitioned clean role state expected new_id cs now s u s' h in
    let r = t.0 in
    let x = updated_values clean r cs now in
    let kept = updated_values-Kept clean r cs now in
    let f = moved_fields r state new_id now x in
    let v = Reached-Inv s reached in
    let here : Exact s.leases role (some r) = subst (Exact s.leases role) t.1 (v.rows role) in
    let named : u.role ≡ role = ground (arith, t.4, f, kept, here) in
    (
      r,
      t.1,
      t.2,
      t.3,
      ground (
        arith,
        t.1,
        t.5,
        named,
        eq_iff u.role role,
        lookup-update_row u.role role (λ _. u) s.records,
      ),
      ground (arith, t.4, f),
      ground (arith, t.4, f),
      ground (arith, t.4, f, kept),
      ground (arith, t.4, f, kept),
      λ j apart. ground (
        arith,
        apart,
        t.5,
        named,
        eq_iff u.role j,
        eq_iff role j,
        lookup-update_row u.role j (λ _. u) s.records,
      ),
      ground (arith, t.5),
    )

-- An operation that expects another transition id than the row's is refused.
stale-refused :
    (clean : Sanitizers) (role expected new_id : String) (state : LifecycleState) (cs : List Change)
    (g : GuardKind) (b : Bool) (duration : ℕ) (before after : Option ℕ) (now : ℕ)
    (s : LifecycleStore) (r : LifecycleRecord)
    → contains role s.roles ≡ true
    → lookup role s.records ≡ some r
    → r.transition_id ≢ expected
    → (transition clean role state expected new_id cs now s ≡ refused stale_transition)
      × (update clean role expected cs now s ≡ refused stale_transition)
      × (set_guard clean role g b expected now s ≡ refused stale_transition)
      × (complete_unload clean role expected new_id duration before after now s
          ≡ refused stale_transition)
unfolding transition update set_guard complete_unload
stale-refused clean role expected new_id state cs g b duration before after now s r k e d =
    let apart : (r.transition_id == expected) ≡ false =
      ground (arith, eq_iff r.transition_id expected) in
    (
      ground (arith, k, e, apart),
      ground (arith, k, e, apart),
      ground (arith, k, e, apart),
      ground (arith, k, e, apart),
    )

-- The role of a transition that commits is one of the store's, before and after.
moved_known :
    (clean : Sanitizers) (role : String) (state : LifecycleState) (expected new_id : String)
    (cs : List Change) (now : ℕ) (s : LifecycleStore) (u : LifecycleRecord) (s' : LifecycleStore)
    → transition clean role state expected new_id cs now s ≡ done u s'
    → contains role s'.roles ≡ true
unfolding transition write
moved_known clean role state expected new_id cs now s u s' h =
    let t = transitioned clean role state expected new_id cs now s u s' h in
    elim (Bool-cases (contains role s.roles)) [
      | inl y ↦ ap (λ x. contains role x.roles) t.5 ∙ y
      | inr n ↦ absurd (ground (arith, h, n))
    ]

-- A transition that commits in a reached store under a new id uses up the id that it expected: in the
-- store it leaves, a transition, an update, a guard and the end of an unload that still expect it are
-- refused as stale.
pub transition-once :
    (clean : Sanitizers) (role expected new_id next_id : String) (state next : LifecycleState)
    (cs changes : List Change) (g : GuardKind) (b : Bool) (duration : ℕ) (before after : Option ℕ)
    (now later : ℕ) (s : LifecycleStore) (u : LifecycleRecord) (s' : LifecycleStore)
    → Reached s
    → expected ≢ new_id
    → transition clean role state expected new_id cs now s ≡ done u s'
    → (transition clean role next expected next_id changes later s' ≡ refused stale_transition)
      × (update clean role expected changes later s' ≡ refused stale_transition)
      × (set_guard clean role g b expected later s' ≡ refused stale_transition)
      × (complete_unload clean role expected next_id duration before after later s'
          ≡ refused stale_transition)
transition-once clean role expected new_id next_id state next cs changes g b duration before after
      now later s u s' reached d h =
    let a = transition-MayFollow clean role state expected new_id cs now s u s' reached h in
    stale-refused clean role expected next_id next changes g b duration before after later s' u
      (moved_known clean role state expected new_id cs now s u s' h) a.4 (λ e. d (sym e ∙ a.6))

-- In a reached store, an unload that is queued and then cancelled under the id it was given leaves
-- the role ready, with the times at which it became ready as they were.
pub queue-cancel :
    (clean : Sanitizers) (role expected id1 id2 : String) (now later : ℕ) (s s1 s2 : LifecycleStore)
    (r u w : LifecycleRecord)
    → Reached s
    → lookup role s.records ≡ some r
    → queue_unload clean role expected id1 now s ≡ done u s1
    → cancel_queued_unload clean role id1 id2 later s1 ≡ done w s2
    → (w.state ≡ ready) × (w.ready_since ≡ r.ready_since) × (w.ready_at ≡ r.ready_at)
unfolding queue_unload cancel_queued_unload updated_values clean_failure merge_overall merge_weight
    apply_changes moved entered with_load with_rest made_ready
queue-cancel clean role expected id1 id2 now later s s1 s2 r u w reached e q c =
    let a = transition-MayFollow clean role unload_queued expected id1 [] now s u s1 reached q in
    let t = transitioned clean role unload_queued expected id1 [] now s u s1 q in
    let b = transitioned clean role ready id1 id2 [] later s1 w s2 c in
    let same : t.0 ≡ r = ground (arith, t.1) in
    let next : b.0 ≡ u = ground (arith, a.4, b.1) in
    (
      ground (arith, b.4),
      ground (arith, same, next, a.5, t.4, b.4),
      ground (arith, same, next, a.5, t.4, b.4),
    )
