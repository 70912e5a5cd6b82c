-- ===== src/Lifecycle/Saving.antt =====
-- The operations of gateway/src/dgx_moa/lifecycle.py that write a record keep the store's invariant.
use mo_e_mo_a_integrated_com.Lifecycle.{
  write, expired_roles, prune_and_sync, may_follow, LifecycleState, LifecycleRecord, Sample,
  LifecycleStore, done,
}
use mo_e_mo_a_integrated_com.Lifecycle.Updates.{updated_values, save, update, Sanitizers, Change}
use mo_e_mo_a_integrated_com.Lifecycle.Transitions.{
  moved, load_samples, save_move, move_record, transition,
}
use mo_e_mo_a_integrated_com.Lifecycle.Unload.{
  is_idle, admitted_record, admit_record, admit_unload, unload_sample, unloaded_record,
  finish_unload, complete_unload,
}
use mo_e_mo_a_integrated_com.Lifecycle.Invariant.{Quiet, write-Inv, Inv}
use mo_e_mo_a_integrated_com.Lifecycle.Quiet.{
  keeps_counts, updated_values-Quiet, moved-Quiet, admitted_record-Quiet, unloaded_record-Quiet,
}
use mo_e_mo_a_integrated_com.Lifecycle.Preservation.{prune-Inv}
use mo_e_mo_a_integrated_com.Dict.{lookup}
use mo_e_mo_a_integrated_com.Base.{
  ℕ, String, eq_iff, ◌≡◌, sym, subst, inl, inr, true, Option, none, some, List, [], ◌∷◌, ◌++◌,
  arith, if◌then◌else◌, Bool-cases, Option-cases, all,
}

samples-Inv : (xs : List Sample) (s : LifecycleStore) → Inv s → Inv (record s { samples = xs })
samples-Inv xs s v = record { rows = v.rows; known = v.known }

-- What an accepted save leaves.
pub save-written :
    (u x : LifecycleRecord) (s s' : LifecycleStore) → save u s ≡ done x s' → write u s ≡ s'
unfolding save
save-written u x s s' h = ground arith

pub update-Inv :
    (clean : Sanitizers) (role expected : String) (cs : List Change) (now : ℕ) (s : LifecycleStore)
    (u : LifecycleRecord) (s' : LifecycleStore)
    → all keeps_counts cs ≡ true
    → update clean role expected cs now s ≡ done u s'
    → Inv s
    → Inv s'
unfolding update
update-Inv clean role expected cs now s u s' k h v = elim (Option-cases (lookup role s.records)) [
  | inl e ↦ ground arith
  | inr (r, e) ↦
      let saved : save (updated_values clean r cs now) s ≡ done u s' = ground (arith, e) in
      subst Inv (save-written (updated_values clean r cs now) u s s' saved) (
        write-Inv role r (updated_values clean r cs now) s v e
          (updated_values-Quiet clean r cs now k))
]

-- The record that a granted transition read, and what it left.
pub transitioned :
    (clean : Sanitizers) (role : String) (state : LifecycleState) (expected new_id : String)
    (cs : List Change) (now : ℕ) (s : LifecycleStore) (u : LifecycleRecord) (s' : LifecycleStore)
    → transition clean role state expected new_id cs now s ≡ done u s'
    → (r : LifecycleRecord) × (lookup role s.records ≡ some r)
      × (r.transition_id ≡ expected)
      × (may_follow r.state state ≡ true)
      × (u ≡ moved r state new_id now (updated_values clean r cs now))
      × (s' ≡ record (write u s) { samples = s.samples ++ load_samples role state u })
unfolding transition move_record save_move write
transitioned clean role state expected new_id cs now s u s' h =
    elim (Option-cases (lookup role s.records)) [
      | inl e ↦ ground arith
      | inr (r, e) ↦ (
        r,
        e,
        ground (arith, e, eq_iff r.transition_id expected),
        ground (arith, e),
        ground (arith, e),
        ground (arith, e),
      )
    ]

pub transition-Inv :
    (clean : Sanitizers) (role : String) (state : LifecycleState) (expected new_id : String)
    (cs : List Change) (now : ℕ) (s : LifecycleStore) (u : LifecycleRecord) (s' : LifecycleStore)
    → all keeps_counts cs ≡ true
    → transition clean role state expected new_id cs now s ≡ done u s'
    → Inv s
    → Inv s'
transition-Inv clean role state expected new_id cs now s u s' k h v =
    let t = transitioned clean role state expected new_id cs now s u s' h in
    let r = t.0 in
    let m = moved-Quiet r state new_id now (updated_values clean r cs now) in
    let q = updated_values-Quiet clean r cs now k in
    let quiet : Quiet r u = ground (arith, t.4, m, q) in
    subst Inv (sym t.5) (
      samples-Inv (s.samples ++ load_samples role state u) (write u s)
        (write-Inv role r u s v t.1 quiet))

-- The outcome of an admission that is not refused.
pub admitted :
    (clean : Sanitizers) (role expected new_id : String) (memory : ℕ)
    (ready_since last_used_at : Option ℕ) (now : ℕ) (s : LifecycleStore)
    (o : Option LifecycleRecord) (s' : LifecycleStore)
    → admit_unload clean role expected new_id memory ready_since last_used_at now s ≡ done o s'
    → (r : LifecycleRecord) × (lookup role (prune_and_sync now role s).records ≡ some r)
      × (o ≡ (
          if is_idle expected ready_since last_used_at r
          then some (admitted_record clean new_id memory now r)
          else none))
      × (s' ≡ (
          if is_idle expected ready_since last_used_at r
          then write (admitted_record clean new_id memory now r) (prune_and_sync now role s)
          else prune_and_sync now role s))
unfolding admit_unload admit_record
admitted clean role expected new_id memory ready_since last_used_at now s o s' h =
    elim (Option-cases (lookup role (prune_and_sync now role s).records)) [
      | inl e ↦ ground arith
      | inr (r, e) ↦ (r, e, ground (arith, e), ground (arith, e))
    ]

pub prune_and_sync-Inv :
    (now : ℕ) (role : String) (s : LifecycleStore) → Inv s → Inv (prune_and_sync now role s)
unfolding prune_and_sync
prune_and_sync-Inv now role s v = prune-Inv (expired_roles now s ++ role ∷ []) now s v

pub admit-Inv :
    (clean : Sanitizers) (role expected new_id : String) (memory : ℕ)
    (ready_since last_used_at : Option ℕ) (now : ℕ) (s : LifecycleStore)
    (o : Option LifecycleRecord) (s' : LifecycleStore)
    → admit_unload clean role expected new_id memory ready_since last_used_at now s ≡ done o s'
    → Inv s
    → Inv s'
admit-Inv clean role expected new_id memory ready_since last_used_at now s o s' h v =
    let a = admitted clean role expected new_id memory ready_since last_used_at now s o s' h in
    let r = a.0 in
    let p = prune_and_sync now role s in
    let pruned : Inv p = prune_and_sync-Inv now role s v in
    let u = admitted_record clean new_id memory now r in
    let wrote : Inv (write u p) =
      write-Inv role r u p pruned a.1 (admitted_record-Quiet clean new_id memory now r) in
    elim (Bool-cases (is_idle expected ready_since last_used_at r)) [
      | inl y ↦ let e : write u p ≡ s' = ground (arith, a.3) in subst Inv e wrote
      | inr n ↦ let e : p ≡ s' = ground (arith, a.3) in subst Inv e pruned
    ]

pub complete-Inv :
    (clean : Sanitizers) (role expected new_id : String) (duration : ℕ) (before after : Option ℕ)
    (now : ℕ) (s : LifecycleStore) (u : LifecycleRecord) (s' : LifecycleStore)
    → complete_unload clean role expected new_id duration before after now s ≡ done u s'
    → Inv s
    → Inv s'
unfolding complete_unload finish_unload
complete-Inv clean role expected new_id duration before after now s u s' h v =
    elim (Option-cases (lookup role s.records)) [
      | inl e ↦ ground arith
      | inr (r, e) ↦
          let c = unloaded_record clean new_id duration before after now r in
          let left : record (write c s) {
            samples = s.samples ++ unload_sample role duration c ∷ [];
          }
              ≡ s' =
            unfold write in ground (arith, e) in
          subst Inv left (
            samples-Inv (s.samples ++ unload_sample role duration c ∷ []) (write c s) (
              write-Inv role r c s v e
                (unloaded_record-Quiet clean new_id duration before after now r)))
    ]
