-- ===== src/Lifecycle/Claims.antt =====
-- The guard and recovery operations of gateway/src/dgx_moa/lifecycle.py keep the store's invariant.
use mo_e_mo_a_integrated_com.Lifecycle.{
  write, same_state, LifecycleState, GuardKind, LifecycleRecord, LifecycleLease, LifecycleStore,
  LifecycleFault, Step, refused, done,
}
use mo_e_mo_a_integrated_com.Lifecycle.Updates.{updated_values, save, Sanitizers}
use mo_e_mo_a_integrated_com.Lifecycle.Guards.{
  guarded, guard_change, same_bool, set_guard, read_all, raise_guards, ownership, answer,
  claim_read, claim_guards, lower_guard, lower_guards, release_guards,
}
use mo_e_mo_a_integrated_com.Lifecycle.Recovery.{
  reconciled, reconcile_record, reconcile_transition, recovered, recover_state, Recovered,
}
use mo_e_mo_a_integrated_com.Lifecycle.Invariant.{Exact, Quiet, put-Inv, write-Inv, Inv}
use mo_e_mo_a_integrated_com.Lifecycle.Quiet.{
  updated_values-Quiet, guard_change-keeps_counts, reconciled-Quiet, recovered-Quiet,
}
use mo_e_mo_a_integrated_com.Lifecycle.Saving.{save-written}
use mo_e_mo_a_integrated_com.Dict.{Dict, lookup}
use mo_e_mo_a_integrated_com.Base.{
  ℕ, String, ◌==◌, ◌≡◌, refl, subst, ◌⊎◌, inl, inr, Bool, true, false, not, ◌||◌, Option, some,
  List, [], ◌∷◌, arith, Bool-cases, Option-cases, any, All, dedup,
}

-- The values that `set_guard`, `claim_guards` and `release_guards` write.
abbrev pub guard_values : Sanitizers → GuardKind → Bool → ℕ → LifecycleRecord → LifecycleRecord
guard_values clean g b now r = updated_values clean r (guard_change g b ∷ []) now

guard_values-Quiet :
    (clean : Sanitizers) (g : GuardKind) (b : Bool) (now : ℕ) (r : LifecycleRecord)
    → Quiet r (guard_values clean g b now r)
guard_values-Quiet clean g b now r =
    updated_values-Quiet clean r (guard_change g b ∷ []) now (guard_change-keeps_counts g b)

pub set_guard-Inv :
    (clean : Sanitizers) (role : String) (g : GuardKind) (b : Bool) (expected : String) (now : ℕ)
    (s : LifecycleStore) (u : LifecycleRecord) (s' : LifecycleStore)
    → set_guard clean role g b expected now s ≡ done u s'
    → Inv s
    → Inv s'
unfolding set_guard
set_guard-Inv clean role g b expected now s u s' h v = elim (Option-cases (lookup role s.records)) [
  | inl e ↦ ground arith
  | inr (r, e) ↦
      let n = guard_values clean g b now r in
      elim (Bool-cases (same_bool (guarded g r) b)) [
        | inl y ↦ let same : s ≡ s' = ground (arith, e, y) in subst Inv same v
        | inr changed ↦
            let saved : save n s ≡ done u s' = ground (arith, e, changed) in
            subst Inv (save-written n u s s' saved)
              (write-Inv role r n s v e (guard_values-Quiet clean g b now r))
      ]
]

-- Records as they stand in a store that satisfies the invariant.
abbrev pub ExactRecord : List LifecycleLease → LifecycleRecord → Type 0
ExactRecord ls r = Exact ls r.role (some r)

read_all-Exact :
    (ks : List String) (s : LifecycleStore) (rs : List LifecycleRecord)
    → read_all ks s ≡ some rs
    → Inv s
    → All (ExactRecord s.leases) rs
unfolding read_all
read_all-Exact [] s rs h v =
    let e : [] ≡ rs = ground arith in subst (All (ExactRecord s.leases)) e tt
read_all-Exact (k ∷ ks) s rs h v = elim (Option-cases (lookup k s.records)) [
  | inl e ↦ ground arith
  | inr (r, e) ↦ elim (Option-cases (read_all ks s)) [
    | inl n ↦ ground (arith, e, n)
    | inr (rest, m) ↦
        let here : Exact s.leases k (some r) = subst (Exact s.leases k) e (v.rows k) in
        let list : r ∷ rest ≡ rs = ground (arith, e, m) in
        subst (All (ExactRecord s.leases)) list (ground (arith, here), read_all-Exact ks s rest m v)
  ]
]

raise_guards-Inv :
    (clean : Sanitizers) (g : GuardKind) (now : ℕ) (rs : List LifecycleRecord)
    (s s' : LifecycleStore)
    → raise_guards clean g now rs s ≡ done tt s'
    → All (ExactRecord s.leases) rs
    → Inv s
    → Inv s'
unfolding raise_guards
raise_guards-Inv clean g now [] s s' h a v = let e : s ≡ s' = ground arith in subst Inv e v
raise_guards-Inv clean g now (r ∷ rs) s s' h a v =
    let n = guard_values clean g true now r in
    let next : raise_guards clean g now rs (write n s) ≡ done tt s' = ground arith in
    let exact : ExactRecord s.leases n =
      ground (arith, a.0, guard_values-Quiet clean g true now r) in
    raise_guards-Inv clean g now rs (write n s) s' next (unfold write in a.1) (put-Inv n s v exact)

answered :
    (own owned : Dict String) (step : Step Unit) (s' : LifecycleStore)
    → answer own step ≡ done owned s'
    → (owned ≡ own) × (step ≡ done tt s')
answered own owned (refused fault) s' h = ground arith
answered own owned (done u s) s' h = ground arith

-- What a granted claim read and wrote.
pub claimed :
    (clean : Sanitizers) (roles : List String) (g : GuardKind) (now : ℕ) (s : LifecycleStore)
    (owned : Dict String) (s' : LifecycleStore)
    → claim_guards clean roles g now s ≡ done owned s'
    → (rs : List LifecycleRecord) × (read_all (dedup roles) s ≡ some rs)
      × (any (guarded g) rs ≡ false)
      × (owned ≡ ownership rs)
      × (raise_guards clean g now rs s ≡ done tt s')
unfolding claim_guards claim_read
claimed clean roles g now s owned s' h = elim (Option-cases (read_all (dedup roles) s)) [
  | inl e ↦ ground arith
  | inr (rs, e) ↦
      let free : any (guarded g) rs ≡ false = ground (arith, e) in
      let raised : answer (ownership rs) (raise_guards clean g now rs s) ≡ done owned s' =
        ground (arith, e, free) in
      let a = answered (ownership rs) owned (raise_guards clean g now rs s) s' raised in
      (rs, e, free, a.0, a.1)
]

pub claim-Inv :
    (clean : Sanitizers) (roles : List String) (g : GuardKind) (now : ℕ) (s : LifecycleStore)
    (owned : Dict String) (s' : LifecycleStore)
    → claim_guards clean roles g now s ≡ done owned s'
    → Inv s
    → Inv s'
claim-Inv clean roles g now s owned s' h v =
    let c = claimed clean roles g now s owned s' h in
    raise_guards-Inv clean g now c.0 s s' c.4 (read_all-Exact (dedup roles) s c.0 c.1 v) v

Step-cases :
    (step : Step Unit)
    → ((fault : LifecycleFault) × (step ≡ refused fault))
      ⊎ ((u : Unit) × (s : LifecycleStore) × (step ≡ done u s))
Step-cases (refused fault) = inl (fault, refl)
Step-cases (done u s) = inr (u, s, refl)

lower_guard-Inv :
    (clean : Sanitizers) (g : GuardKind) (now : ℕ) (k t : String) (r : LifecycleRecord)
    (s s' : LifecycleStore)
    → lookup k s.records ≡ some r
    → lower_guard clean g now t r s ≡ done tt s'
    → Inv s
    → Inv s'
unfolding lower_guard
lower_guard-Inv clean g now k t r s s' e h v =
    let n = guard_values clean g false now r in
    elim (Bool-cases (not (r.transition_id == t) || not (guarded g r))) [
      | inl y ↦ let same : s ≡ s' = ground (arith, y) in subst Inv same v
      | inr changed ↦
          let wrote : write n s ≡ s' = ground (arith, changed) in
          subst Inv wrote (write-Inv k r n s v e (guard_values-Quiet clean g false now r))
    ]

lower_guards-Inv :
    (clean : Sanitizers) (g : GuardKind) (now : ℕ) (owned : Dict String) (s s' : LifecycleStore)
    → lower_guards clean g now owned s ≡ done tt s'
    → Inv s
    → Inv s'
unfolding lower_guards
lower_guards-Inv clean g now [] s s' h v = let e : s ≡ s' = ground arith in subst Inv e v
lower_guards-Inv clean g now ((k, t) ∷ owned) s s' h v = elim (Option-cases (lookup k s.records)) [
  | inl e ↦ ground arith
  | inr (r, e) ↦ elim (Step-cases (lower_guard clean g now t r s)) [
    | inl (fault, m) ↦ ground (arith, e, m)
    | inr (u, s1, m) ↦
        let rest : lower_guards clean g now owned s1 ≡ done tt s' = ground (arith, e, m) in
        lower_guards-Inv clean g now owned s1 s' rest (lower_guard-Inv clean g now k t r s s1 e m v)
  ]
]

pub release_guards-Inv :
    (clean : Sanitizers) (owned : Dict String) (g : GuardKind) (now : ℕ) (s s' : LifecycleStore)
    → release_guards clean owned g now s ≡ done tt s'
    → Inv s
    → Inv s'
unfolding release_guards
release_guards-Inv clean owned g now s s' h v =
    let e : lower_guards clean g now owned s ≡ done tt s' = ground arith in
    lower_guards-Inv clean g now owned s s' e v

pub reconcile_transition-Inv :
    (role : String) (state : LifecycleState) (new_id : String) (now : ℕ) (s : LifecycleStore)
    (u : LifecycleRecord) (s' : LifecycleStore)
    → reconcile_transition role state new_id now s ≡ done u s'
    → Inv s
    → Inv s'
unfolding reconcile_transition reconcile_record
reconcile_transition-Inv role state new_id now s u s' h v =
    elim (Option-cases (lookup role s.records)) [
      | inl e ↦ ground arith
      | inr (r, e) ↦
          let n = reconciled state new_id now r in
          elim (Bool-cases (same_state r.state state)) [
            | inl y ↦ let same : s ≡ s' = ground (arith, e, y) in subst Inv same v
            | inr changed ↦
                let saved : save n s ≡ done u s' = ground (arith, e, changed) in
                subst Inv (save-written n u s s' saved)
                  (write-Inv role r n s v e (reconciled-Quiet state new_id now r))
          ]
    ]

pub recover_state-Inv :
    (role : String) (t : Recovered) (failure_class : Option String) (new_id : String) (now : ℕ)
    (s : LifecycleStore) (u : LifecycleRecord) (s' : LifecycleStore)
    → recover_state role t failure_class new_id now s ≡ done u s'
    → Inv s
    → Inv s'
unfolding recover_state
recover_state-Inv role t failure_class new_id now s u s' h v =
    elim (Option-cases (lookup role s.records)) [
      | inl e ↦ ground arith
      | inr (r, e) ↦
          let n = recovered t failure_class new_id now r in
          let saved : save n s ≡ done u s' = ground (arith, e) in
          subst Inv (save-written n u s s' saved)
            (write-Inv role r n s v e (recovered-Quiet t failure_class new_id now r))
    ]
