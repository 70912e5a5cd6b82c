-- ===== src/Lifecycle/Admission.antt =====
-- `admit_unload` of gateway/src/dgx_moa/lifecycle.py admits only a role that nothing uses.
use mo_e_mo_a_integrated_com.Lifecycle.{
  write, count_if, held, is_live_continuation, counted, delete_where, expired_roles, prune_expired,
  prune_and_sync, same_state, same_kind, is_request_kind, LeaseKind, LifecycleRecord,
  LifecycleLease, LifecycleStore, ready, unload_queued, unloading, active_request, open_stream,
  continuation, done,
}
use mo_e_mo_a_integrated_com.Lifecycle.Leases.{is_request_of}
use mo_e_mo_a_integrated_com.Lifecycle.Updates.{Sanitizers}
use mo_e_mo_a_integrated_com.Lifecycle.Unload.{is_idle, admitted_record, admit_unload}
use mo_e_mo_a_integrated_com.Lifecycle.Rows.{lookup-update_row, leases-sync, lookup-sync}
use mo_e_mo_a_integrated_com.Lifecycle.Invariant.{Exact, Inv}
use mo_e_mo_a_integrated_com.Lifecycle.Quiet.{admitted_record-Quiet}
use mo_e_mo_a_integrated_com.Lifecycle.Saving.{admitted, prune_and_sync-Inv}
use mo_e_mo_a_integrated_com.Lifecycle.Runs.{Reached-Inv, Reached}
use mo_e_mo_a_integrated_com.Dict.{lookup}
use mo_e_mo_a_integrated_com.Base.{
  ℕ, String, eq_iff, eq_refl, ◌≡◌, refl, subst, inl, inr, Bool, true, false, ◌||◌, Option, some,
  List, [], ◌∷◌, ◌++◌, arith, Option-cases, map_some, any, contains-append_one,
}

-- A request lease of the role, or a continuation of it that has not expired.
abbrev pub in_use : ℕ → String → LifecycleLease → Bool
in_use now role l = is_request_of role l || is_live_continuation now role l

request_kinds :
    (k : LeaseKind) → is_request_kind k ≡ same_kind k active_request || same_kind k open_stream
request_kinds active_request = refl
request_kinds open_stream = refl
request_kinds continuation = refl

not_in_use :
    (now : ℕ) (role : String) (ls : List LifecycleLease)
    → count_if (held role active_request) ls ≡ 0
    → count_if (held role open_stream) ls ≡ 0
    → count_if (is_live_continuation now role) ls ≡ 0
    → any (in_use now role) ls ≡ false
not_in_use now role [] a o c = refl
not_in_use now role (l ∷ ls) a o c = ground (arith, request_kinds l.kind, not_in_use now role ls)

-- The row of the role after the prune and the sync: the old row with the counts of the table.
pub lookup-prune_and_sync :
    (now : ℕ) (role : String) (s : LifecycleStore)
    → lookup role (prune_and_sync now role s).records
      ≡ map_some (counted (prune_and_sync now role s).leases role now) (lookup role s.records)
unfolding prune_and_sync prune_expired delete_where
lookup-prune_and_sync now role s = ground (
  arith,
  lookup-sync (expired_roles now s ++ role ∷ []) now (prune_expired now s) role,
  leases-sync (expired_roles now s ++ role ∷ []) now (prune_expired now s),
  contains-append_one role role (expired_roles now s),
  eq_refl role,
)

idle_row :
    (expected : String) (ready_since last_used_at : Option ℕ) (r : LifecycleRecord)
    → is_idle expected ready_since last_used_at r ≡ true
    → (same_state r.state ready || same_state r.state unload_queued ≡ true)
      × (r.transition_id ≡ expected)
      × (r.active_request_count ≡ 0)
      × (r.open_stream_count ≡ 0)
      × (r.continuation_lease_count ≡ 0)
      × (r.evaluation_guard ≡ false)
      × (r.profile_guard ≡ false)
unfolding is_idle
idle_row expected ready_since last_used_at r h = ground (arith, eq_iff r.transition_id expected)

-- The row that an admission judged, over the row of the store it began with.
judged :
    (now : ℕ) (role : String) (s : LifecycleStore) (r : LifecycleRecord)
    → lookup role (prune_and_sync now role s).records ≡ some r
    → (old : LifecycleRecord) × (lookup role s.records ≡ some old)
      × (r ≡ counted (prune_and_sync now role s).leases role now old)
judged now role s r h = elim (Option-cases (lookup role s.records)) [
  | inl e ↦ ground (arith, e, lookup-prune_and_sync now role s)
  | inr (old, e) ↦ (old, e, ground (arith, e, lookup-prune_and_sync now role s))
]

admitted_row :
    (clean : Sanitizers) (role new_id : String) (memory now : ℕ) (p : LifecycleStore)
    (r : LifecycleRecord)
    → Inv p
    → lookup role p.records ≡ some r
    → lookup role (write (admitted_record clean new_id memory now r) p).records
      ≡ some (admitted_record clean new_id memory now r)
unfolding write
admitted_row clean role new_id memory now p r v e =
    let u = admitted_record clean new_id memory now r in
    let named : Exact p.leases role (some r) = subst (Exact p.leases role) e (v.rows role) in
    ground (
      arith,
      e,
      named,
      admitted_record-Quiet clean new_id memory now r,
      eq_iff u.role role,
      lookup-update_row u.role role (λ _. u) p.records,
    )

admitted_state :
    (clean : Sanitizers) (new_id : String) (memory now : ℕ) (r : LifecycleRecord)
    → ((admitted_record clean new_id memory now r).state ≡ unloading)
      × ((admitted_record clean new_id memory now r).transition_id ≡ new_id)
unfolding admitted_record
admitted_state clean new_id memory now r = (refl, refl)

leases-write : (u : LifecycleRecord) (s : LifecycleStore) → (write u s).leases ≡ s.leases
unfolding write
leases-write u s = refl

-- In a reached store, an admission that returns a record found the role ready, or queued to unload,
-- under the expected transition id and with neither guard set; no lease of the role that is a request
-- or an unexpired continuation is left in the table; and the role's row is the record returned, which
-- is unloading under the new id.
pub admit_unload-unused :
    (clean : Sanitizers) (role expected new_id : String) (memory : ℕ)
    (ready_since last_used_at : Option ℕ) (now : ℕ) (s : LifecycleStore) (a : LifecycleRecord)
    (s' : LifecycleStore)
    → Reached s
    → admit_unload clean role expected new_id memory ready_since last_used_at now s
      ≡ done (some a) s'
    → ((r : LifecycleRecord) × (lookup role s.records ≡ some r)
        × (same_state r.state ready || same_state r.state unload_queued ≡ true)
        × (r.transition_id ≡ expected)
        × (r.evaluation_guard ≡ false)
        × (r.profile_guard ≡ false))
      × (any (in_use now role) s'.leases ≡ false)
      × (lookup role s'.records ≡ some a)
      × (a.state ≡ unloading)
      × (a.transition_id ≡ new_id)
admit_unload-unused clean role expected new_id memory ready_since last_used_at now s a s' reached
      h =
    let d =
      admitted clean role expected new_id memory ready_since last_used_at now s (some a) s' h in
    let r = d.0 in
    let p = prune_and_sync now role s in
    let u = admitted_record clean new_id memory now r in
    let j = judged now role s r d.1 in
    let idle : is_idle expected ready_since last_used_at r ≡ true = ground (arith, d.2) in
    let f = idle_row expected ready_since last_used_at r idle in
    let same : a ≡ u = ground (arith, idle, d.2) in
    let left : s' ≡ write u p = ground (arith, idle, d.3) in
    let zero : any (in_use now role) p.leases ≡ false =
      unfold counted in
      not_in_use now role p.leases (ground (arith, f, j.2)) (ground (arith, f, j.2))
        (ground (arith, f, j.2)) in
    let row =
      admitted_row clean role new_id memory now p r
        (prune_and_sync-Inv now role s (Reached-Inv s reached)) d.1 in
    let state = admitted_state clean new_id memory now r in
    (
      unfold counted in
          (
            j.0,
            j.1,
            ground (arith, f, j.2),
            ground (arith, f, j.2),
            ground (arith, f, j.2),
            ground (arith, f, j.2),
          ),
      ground (arith, zero, left, leases-write u p),
      ground (arith, row, same, left),
      ground (arith, same, state),
      ground (arith, same, state),
    )
