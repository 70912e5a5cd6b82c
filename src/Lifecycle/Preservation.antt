-- ===== src/Lifecycle/Preservation.antt =====
-- The lease operations of gateway/src/dgx_moa/lifecycle.py keep the store's invariant.
use mo_e_mo_a_integrated_com.Lifecycle.{
  is_expired, sync_lease_counts, roles_where, delete_where, expired_roles, prune_expired, LeaseKind,
  LifecycleRecord, LifecycleLease, LifecycleStore, continuation, done,
}
use mo_e_mo_a_integrated_com.Lifecycle.Leases.{
  request_lease, request_leases, insert_all, first_request_roles, touch_requested, store_request,
  answer_request, request_in, acquire_request_leases, store_continuation, drop_continuation,
  is_listed, is_listed_request, completed, touch_completed, drop_leases, recover_leases, Uuids,
}
use mo_e_mo_a_integrated_com.Lifecycle.Counts.{
  prune-SameCounts, delete-SameCounts, insert_all-SameCounts, upsert-SameCounts,
  drop_continuations-SameCounts,
}
use mo_e_mo_a_integrated_com.Lifecycle.Invariant.{sync-Inv, Quiet, update_row-Inv, Inv}
use mo_e_mo_a_integrated_com.Base.{
  ℕ, String, ◌≡◌, refl, sym, ap, ◌∙◌, subst, inl, inr, Bool, false, not, List, [], ◌∷◌, ◌++◌, map,
  arith, Option-cases, keep_if, contains, dedup, contains-dedup,
}

touch_requested-Inv :
    (ks : List String) (now : ℕ) (s : LifecycleStore) → Inv s → Inv (touch_requested ks now s)
unfolding touch_requested
touch_requested-Inv [] now s v = v
touch_requested-Inv (k ∷ ks) now s v =
    touch_requested-Inv ks now _ (update_row-Inv k _ s (λ r. (refl, refl, refl)) v)

completed-Quiet : (now : ℕ) (r : LifecycleRecord) → Quiet r (completed now r)
unfolding completed
completed-Quiet now r = ground arith

touch_completed-Inv :
    (ks : List String) (now : ℕ) (s : LifecycleStore) → Inv s → Inv (touch_completed ks now s)
unfolding touch_completed
touch_completed-Inv [] now s v = v
touch_completed-Inv (k ∷ ks) now s v =
    touch_completed-Inv ks now _ (update_row-Inv k (completed now) s (completed-Quiet now) v)

-- One lease for each role, in their order.
pub roles-request_leases :
    (ids : Uuids) (namespace request_id : String) (kind : LeaseKind) (now : ℕ) (ks : List String)
    → map (λ l. l.role) (request_leases ids namespace request_id kind now ks) ≡ ks
unfolding request_lease
roles-request_leases ids namespace request_id kind now [] = refl
roles-request_leases ids namespace request_id kind now (k ∷ ks) =
    ap (λ rest. k ∷ rest) (roles-request_leases ids namespace request_id kind now ks)

pub store_request-Inv :
    (kind : LeaseKind) (ks : List String) (new : List LifecycleLease) (now : ℕ) (s : LifecycleStore)
    → map (λ l. l.role) new ≡ ks
    → Inv s
    → Inv (store_request kind ks new now s)
unfolding store_request
store_request-Inv kind ks new now s h v =
    touch_requested-Inv (first_request_roles kind ks s) now _ (
      sync-Inv s.leases ks now (record s { leases = insert_all new s.leases }) v
        (λ j out row.
          insert_all-SameCounts new j s.leases (subst (λ xs. contains j xs ≡ false) (sym h) out)))

-- A granted request wrote exactly what `store_request` writes.
pub acquired :
    (ids : Uuids) (request_id : String) (roles : List String) (kind : LeaseKind)
    (require_ready : Bool) (now : ℕ) (s : LifecycleStore) (ls : List LifecycleLease)
    (s' : LifecycleStore)
    → acquire_request_leases ids request_id roles kind require_ready now s ≡ done ls s'
    → (namespace : String) × (s'
        ≡ store_request kind
            (dedup roles)
            (request_leases ids namespace request_id kind now (dedup roles))
            now
            s)
unfolding acquire_request_leases request_in answer_request
acquired ids request_id roles kind require_ready now s ls s' h =
    elim (Option-cases (ids.parse request_id)) [
      | inl e ↦ ground arith
      | inr (namespace, e) ↦ (namespace, ground (arith, e))
    ]

pub acquire-Inv :
    (ids : Uuids) (request_id : String) (roles : List String) (kind : LeaseKind)
    (require_ready : Bool) (now : ℕ) (s : LifecycleStore) (ls : List LifecycleLease)
    (s' : LifecycleStore)
    → acquire_request_leases ids request_id roles kind require_ready now s ≡ done ls s'
    → Inv s
    → Inv s'
acquire-Inv ids request_id roles kind require_ready now s ls s' h v =
    let a = acquired ids request_id roles kind require_ready now s ls s' h in
    subst Inv (sym a.1) (
      store_request-Inv kind (dedup roles) _ now s
        (roles-request_leases ids a.0 request_id kind now (dedup roles)) v)

-- After a prune, a sync of any roles keeps the invariant.
pub prune-Inv :
    (ks : List String) (now : ℕ) (s : LifecycleStore)
    → Inv s
    → Inv (sync_lease_counts ks now (prune_expired now s))
unfolding prune_expired delete_where
prune-Inv ks now s v =
    sync-Inv s.leases ks now (prune_expired now s) v (λ j out row. prune-SameCounts now j s.leases)

pub store_continuation-Inv :
    (l : LifecycleLease) (now : ℕ) (s : LifecycleStore)
    → l.kind ≡ continuation
    → Inv s
    → Inv (store_continuation l now s)
unfolding store_continuation prune_expired delete_where
store_continuation-Inv l now s h v =
    sync-Inv s.leases (expired_roles now s ++ l.role ∷ []) now _ v (λ j out row. ground (
      arith,
      prune-SameCounts now j s.leases,
      upsert-SameCounts l j (keep_if (λ m. not (is_expired now m)) s.leases) h,
    ))

pub drop_continuation-Inv :
    (role owner : String) (now : ℕ) (s : LifecycleStore)
    → Inv s
    → Inv (drop_continuation role owner now s).1
unfolding drop_continuation prune_expired delete_where
drop_continuation-Inv role owner now s v =
    sync-Inv s.leases (expired_roles now s ++ role ∷ []) now _ v (λ j out row. ground (
      arith,
      prune-SameCounts now j s.leases,
      drop_continuations-SameCounts role owner now j
          (keep_if (λ m. not (is_expired now m)) s.leases),
    ))

pub drop_leases-Inv :
    (ids : List String) (now : ℕ) (s : LifecycleStore) → Inv s → Inv (drop_leases ids now s)
unfolding drop_leases delete_where roles_where
drop_leases-Inv ids now s v =
    touch_completed-Inv (roles_where (is_listed_request ids) s.leases) now _ (
      sync-Inv s.leases (roles_where (is_listed ids) s.leases) now _ v (λ j out row.
        delete-SameCounts (is_listed ids) j s.leases
          (sym (contains-dedup j (map (λ l. l.role) (keep_if (is_listed ids) s.leases))) ∙ out)))

pub recover_leases-Inv : (now : ℕ) (s : LifecycleStore) → Inv s → Inv (recover_leases now s)
unfolding recover_leases delete_where prune_expired
recover_leases-Inv now s v =
    sync-Inv s.leases s.roles now _ v (λ j out row. ground (arith, v.known j))
