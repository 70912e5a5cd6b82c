-- ===== src/Lifecycle/Runs.antt =====
-- Histories of the store of gateway/src/dgx_moa/lifecycle.py: its transactions in any order.
use mo_e_mo_a_integrated_com.Lifecycle.{
  expired_roles, prune_and_sync, LifecycleState, LeaseKind, GuardKind, LifecycleRecord,
  LifecycleLease, LifecycleStore, done,
}
use mo_e_mo_a_integrated_com.Lifecycle.Opening.{initial_record, initial_rows, open_store}
use mo_e_mo_a_integrated_com.Lifecycle.Leases.{
  acquire_request_leases, store_continuation, continuation_lease, refresh_with,
  refresh_continuation, prune_expired_continuations, drop_continuation, release_continuation,
  drop_leases, release_leases, recover_leases, Uuids,
}
use mo_e_mo_a_integrated_com.Lifecycle.Updates.{update, Sanitizers, Change}
use mo_e_mo_a_integrated_com.Lifecycle.Transitions.{transition}
use mo_e_mo_a_integrated_com.Lifecycle.Unload.{
  unload_blockers, admit_unload, complete_unload, Blocker,
}
use mo_e_mo_a_integrated_com.Lifecycle.Guards.{set_guard, claim_guards, release_guards}
use mo_e_mo_a_integrated_com.Lifecycle.Recovery.{reconcile_transition, recover_state, Recovered}
use mo_e_mo_a_integrated_com.Lifecycle.Invariant.{Exact, Inv}
use mo_e_mo_a_integrated_com.Lifecycle.Quiet.{keeps_counts}
use mo_e_mo_a_integrated_com.Lifecycle.Preservation.{
  acquire-Inv, prune-Inv, store_continuation-Inv, drop_continuation-Inv, drop_leases-Inv,
  recover_leases-Inv,
}
use mo_e_mo_a_integrated_com.Lifecycle.Saving.{
  update-Inv, transition-Inv, prune_and_sync-Inv, admit-Inv, complete-Inv,
}
use mo_e_mo_a_integrated_com.Lifecycle.Claims.{
  set_guard-Inv, claim-Inv, release_guards-Inv, reconcile_transition-Inv, recover_state-Inv,
}
use mo_e_mo_a_integrated_com.Dict.{Dict, lookup}
use mo_e_mo_a_integrated_com.Base.{
  ℕ, String, eq_iff, ◌≡◌, refl, subst, inl, inr, Bool, true, Option, List, [], ◌∷◌, arith,
  Bool-cases, is_some, Option-cases, all, is_empty, contains, dedup,
}

-- A transaction that commits. Those that take changes leave the counts of requests to the leases.
infix 40 ◌⟶◌
pub data ◌⟶◌ : LifecycleStore → LifecycleStore → Type 0 where
  acquires :
      (s s' : LifecycleStore) (ids : Uuids) (request_id : String) (roles : List String)
      (kind : LeaseKind) (require_ready : Bool) (now : ℕ) (ls : List LifecycleLease)
      → acquire_request_leases ids request_id roles kind require_ready now s ≡ done ls s'
      → s ⟶ s'
  refreshes :
      (s s' : LifecycleStore) (ids : Uuids) (request_id role owner : String) (expires_at now : ℕ)
      (l : LifecycleLease)
      → refresh_continuation ids request_id role owner expires_at now s ≡ done l s'
      → s ⟶ s'
  prunes : (s : LifecycleStore) (now : ℕ) → s ⟶ (prune_expired_continuations now s).1
  drops :
      (s s' : LifecycleStore) (role owner : String) (now : ℕ) (b : Bool)
      → release_continuation role owner now s ≡ done b s'
      → s ⟶ s'
  releases :
      (s s' : LifecycleStore) (ids : Uuids) (lease_ids : List String) (now : ℕ)
      → release_leases ids lease_ids now s ≡ done tt s'
      → s ⟶ s'
  recovers_leases : (s : LifecycleStore) (now : ℕ) → s ⟶ recover_leases now s
  guards :
      (s s' : LifecycleStore) (clean : Sanitizers) (role : String) (g : GuardKind) (b : Bool)
      (expected : String) (now : ℕ) (u : LifecycleRecord)
      → set_guard clean role g b expected now s ≡ done u s'
      → s ⟶ s'
  claims :
      (s s' : LifecycleStore) (clean : Sanitizers) (roles : List String) (g : GuardKind) (now : ℕ)
      (owned : Dict String)
      → claim_guards clean roles g now s ≡ done owned s'
      → s ⟶ s'
  frees :
      (s s' : LifecycleStore) (clean : Sanitizers) (owned : Dict String) (g : GuardKind) (now : ℕ)
      → release_guards clean owned g now s ≡ done tt s'
      → s ⟶ s'
  inspects :
      (s s' : LifecycleStore) (role : String) (now : ℕ) (bs : List Blocker)
      → unload_blockers role now s ≡ done bs s'
      → s ⟶ s'
  admits :
      (s s' : LifecycleStore) (clean : Sanitizers) (role expected new_id : String) (memory : ℕ)
      (ready_since last_used_at : Option ℕ) (now : ℕ) (o : Option LifecycleRecord)
      → admit_unload clean role expected new_id memory ready_since last_used_at now s ≡ done o s'
      → s ⟶ s'
  completes :
      (s s' : LifecycleStore) (clean : Sanitizers) (role expected new_id : String) (duration : ℕ)
      (before after : Option ℕ) (now : ℕ) (u : LifecycleRecord)
      → complete_unload clean role expected new_id duration before after now s ≡ done u s'
      → s ⟶ s'
  updates :
      (s s' : LifecycleStore) (clean : Sanitizers) (role expected : String) (cs : List Change)
      (now : ℕ) (u : LifecycleRecord)
      → all keeps_counts cs ≡ true
      → update clean role expected cs now s ≡ done u s'
      → s ⟶ s'
  transits :
      (s s' : LifecycleStore) (clean : Sanitizers) (role : String) (state : LifecycleState)
      (expected new_id : String) (cs : List Change) (now : ℕ) (u : LifecycleRecord)
      → all keeps_counts cs ≡ true
      → transition clean role state expected new_id cs now s ≡ done u s'
      → s ⟶ s'
  reconciles :
      (s s' : LifecycleStore) (role : String) (state : LifecycleState) (new_id : String) (now : ℕ)
      (u : LifecycleRecord)
      → reconcile_transition role state new_id now s ≡ done u s'
      → s ⟶ s'
  recovers_state :
      (s s' : LifecycleStore) (role : String) (t : Recovered) (failure_class : Option String)
      (new_id : String) (now : ℕ) (u : LifecycleRecord)
      → recover_state role t failure_class new_id now s ≡ done u s'
      → s ⟶ s'

-- A store that some history of transactions leaves.
pub data Reached : LifecycleStore → Type 0 where
  opened :
      (new_ids : String → String) (now : ℕ) (units : Option (Dict String)) (roles : List String)
      → Reached (open_store new_ids now units roles)
  followed : (s s' : LifecycleStore) → Reached s → s ⟶ s' → Reached s'

initial_rows-Exact :
    (new_ids : String → String) (now : ℕ) (units : Option (Dict String)) (ks : List String)
    (j : String)
    → Exact [] j (lookup j (initial_rows new_ids now units ks))
unfolding initial_rows initial_record lookup
initial_rows-Exact new_ids now units [] j = tt
initial_rows-Exact new_ids now units (k ∷ ks) j =
    ground (arith, eq_iff k j, initial_rows-Exact new_ids now units ks j)

lookup-initial_rows :
    (new_ids : String → String) (now : ℕ) (units : Option (Dict String)) (ks : List String)
    (j : String)
    → is_some (lookup j (initial_rows new_ids now units ks)) ≡ contains j ks
unfolding initial_rows lookup
lookup-initial_rows new_ids now units [] j = refl
lookup-initial_rows new_ids now units (k ∷ ks) j =
    ground (arith, lookup-initial_rows new_ids now units ks j)

open_store-Inv :
    (new_ids : String → String) (now : ℕ) (units : Option (Dict String)) (roles : List String)
    → Inv (open_store new_ids now units roles)
unfolding open_store
open_store-Inv new_ids now units roles = record {
  rows = initial_rows-Exact new_ids now units (dedup roles);
  known = λ j h. ground (arith, lookup-initial_rows new_ids now units (dedup roles) j);
}

refresh-Inv :
    (ids : Uuids) (request_id role owner : String) (expires_at now : ℕ) (s : LifecycleStore)
    (l : LifecycleLease) (s' : LifecycleStore)
    → refresh_continuation ids request_id role owner expires_at now s ≡ done l s'
    → Inv s
    → Inv s'
unfolding refresh_continuation refresh_with
refresh-Inv ids request_id role owner expires_at now s l s' h v =
    elim (Option-cases (ids.parse request_id)) [
      | inl e ↦ ground arith
      | inr (namespace, e) ↦
          let n = continuation_lease ids namespace role owner expires_at now in
          let stored : store_continuation n now s ≡ s' = ground (arith, e) in
          subst Inv stored (store_continuation-Inv n now s refl v)
    ]

step-Inv : {s s' : LifecycleStore} → s ⟶ s' → Inv s → Inv s'
step-Inv (acquires s s' ids request_id roles kind require_ready now ls h) v =
    acquire-Inv ids request_id roles kind require_ready now s ls s' h v
step-Inv (refreshes s s' ids request_id role owner expires_at now l h) v =
    refresh-Inv ids request_id role owner expires_at now s l s' h v
step-Inv (prunes s now) v =
    unfold prune_expired_continuations in prune-Inv (expired_roles now s) now s v
step-Inv (drops s s' role owner now b h) v =
    let e : (drop_continuation role owner now s).1 ≡ s' =
      unfold release_continuation in ground arith in
    subst Inv e (drop_continuation-Inv role owner now s v)
step-Inv (releases s s' ids lease_ids now h) v =
    let keep = drop_leases-Inv (dedup lease_ids) now s v in
    elim (Bool-cases (is_empty (dedup lease_ids))) [
      | inl y ↦ let e : s ≡ s' = unfold release_leases in ground (arith, y) in subst Inv e v
      | inr n ↦
          let e : drop_leases (dedup lease_ids) now s ≡ s' =
            unfold release_leases in ground (arith, n) in
          subst Inv e keep
    ]
step-Inv (recovers_leases s now) v = recover_leases-Inv now s v
step-Inv (guards s s' clean role g b expected now u h) v =
    set_guard-Inv clean role g b expected now s u s' h v
step-Inv (claims s s' clean roles g now owned h) v = claim-Inv clean roles g now s owned s' h v
step-Inv (frees s s' clean owned g now h) v = release_guards-Inv clean owned g now s s' h v
step-Inv (inspects s s' role now bs h) v =
    let e : prune_and_sync now role s ≡ s' =
      unfold unload_blockers in
      ground (arith, Option-cases (lookup role (prune_and_sync now role s).records)) in
    subst Inv e (prune_and_sync-Inv now role s v)
step-Inv (admits s s' clean role expected new_id memory ready_since last_used_at now o h) v =
    admit-Inv clean role expected new_id memory ready_since last_used_at now s o s' h v
step-Inv (completes s s' clean role expected new_id duration before after now u h) v =
    complete-Inv clean role expected new_id duration before after now s u s' h v
step-Inv (updates s s' clean role expected cs now u k h) v =
    update-Inv clean role expected cs now s u s' k h v
step-Inv (transits s s' clean role state expected new_id cs now u k h) v =
    transition-Inv clean role state expected new_id cs now s u s' k h v
step-Inv (reconciles s s' role state new_id now u h) v =
    reconcile_transition-Inv role state new_id now s u s' h v
step-Inv (recovers_state s s' role t failure_class new_id now u h) v =
    recover_state-Inv role t failure_class new_id now s u s' h v

-- Every store that a history of transactions reaches satisfies the invariant, if no transaction
-- passes a count of requests as a change: each row bears its role's name and exactly the numbers of
-- active requests and open streams that the leases table holds for the role.
pub Reached-Inv : (s : LifecycleStore) → Reached s → Inv s
Reached-Inv s (opened new_ids now units roles) = open_store-Inv new_ids now units roles
Reached-Inv s (followed s0 s1 past h) = step-Inv h (Reached-Inv s0 past)
