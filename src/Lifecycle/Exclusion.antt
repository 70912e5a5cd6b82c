-- ===== src/Lifecycle/Exclusion.antt =====
-- A guard of gateway/src/dgx_moa/lifecycle.py has one owner at a time, and a restart forgets requests.
use mo_e_mo_a_integrated_com.Lifecycle.{
  write, GuardKind, LifecycleRecord, LifecycleStore, evaluation_guard, profile_guard, done,
}
use mo_e_mo_a_integrated_com.Lifecycle.Updates.{
  apply_change, apply_changes, merge_weight, merge_overall, clean_failure, updated_values,
  Sanitizers,
}
use mo_e_mo_a_integrated_com.Lifecycle.Guards.{
  guarded, guard_change, read_all, raise_guards, claim_guards,
}
use mo_e_mo_a_integrated_com.Lifecycle.Rows.{lookup-update_row}
use mo_e_mo_a_integrated_com.Lifecycle.Invariant.{Exact, Inv}
use mo_e_mo_a_integrated_com.Lifecycle.Quiet.{updated_values-Quiet, guard_change-keeps_counts}
use mo_e_mo_a_integrated_com.Lifecycle.Claims.{guard_values, claimed}
use mo_e_mo_a_integrated_com.Lifecycle.Runs.{Reached-Inv, Reached}
use mo_e_mo_a_integrated_com.Dict.{Dict, lookup}
use mo_e_mo_a_integrated_com.Base.{
  ℕ, String, eq_iff, ◌≡◌, refl, sym, ap, subst, ◌≢◌, inl, inr, Bool, true, false, ◌||◌, Option,
  none, some, List, [], ◌∷◌, map, arith, Bool-cases, is_some, Option-cases, any, contains, dedup,
  contains-dedup,
}

-- The row of a role has the guard set.
abbrev pub is_guarded : GuardKind → Option LifecycleRecord → Bool
is_guarded g none = false
is_guarded g (some r) = guarded g r

guard_values-guarded :
    (clean : Sanitizers) (g : GuardKind) (now : ℕ) (r : LifecycleRecord)
    → guarded g (guard_values clean g true now r) ≡ true
unfolding guarded guard_change updated_values clean_failure merge_overall merge_weight apply_changes
    apply_change
guard_values-guarded clean evaluation_guard now r = refl
guard_values-guarded clean profile_guard now r = refl

-- The loop of a claim sets the guard of each record it is given, and takes none back.
raise_guards-guarded :
    (clean : Sanitizers) (g : GuardKind) (now : ℕ) (rs : List LifecycleRecord)
    (s s' : LifecycleStore) (j : String)
    → raise_guards clean g now rs s ≡ done tt s'
    → is_some (lookup j s.records) ≡ true
    → contains j (map (λ r. r.role) rs) || is_guarded g (lookup j s.records) ≡ true
    → is_guarded g (lookup j s'.records) ≡ true
unfolding raise_guards
raise_guards-guarded clean g now [] s s' j h p c = ground arith
raise_guards-guarded clean g now (r ∷ rs) s s' j h p c =
    let n = guard_values clean g true now r in
    let next : raise_guards clean g now rs (write n s) ≡ done tt s' = ground arith in
    let set = guard_values-guarded clean g now r in
    let kept =
      updated_values-Quiet clean r (guard_change g true ∷ []) now
        (guard_change-keeps_counts g true) in
    let row = lookup-update_row n.role j (λ _. n) s.records in
    raise_guards-guarded clean g now rs (write n s) s' j next
      (unfold write in ground (arith, row, Option-cases (lookup j s.records)))
      (unfold write in
        ground (arith, row, set, kept, eq_iff n.role j, Option-cases (lookup j s.records)))

-- What a read of several roles returns, by name.
read_all-roles :
    (ks : List String) (s : LifecycleStore) (rs : List LifecycleRecord)
    → read_all ks s ≡ some rs
    → Inv s
    → map (λ r. r.role) rs ≡ ks
unfolding read_all
read_all-roles [] s rs h v = let e : [] ≡ rs = ground arith in sym (ap (map (λ r. r.role)) e)
read_all-roles (k ∷ ks) s rs h v = elim (Option-cases (lookup k s.records)) [
  | inl e ↦ ground arith
  | inr (r, e) ↦ elim (Option-cases (read_all ks s)) [
    | inl n ↦ ground (arith, e, n)
    | inr (rest, m) ↦
        let here : Exact s.leases k (some r) = subst (Exact s.leases k) e (v.rows k) in
        let list : r ∷ rest ≡ rs = ground (arith, e, m) in
        ground (arith, here, list, read_all-roles ks s rest m v)
  ]
]

-- A member of the list that was read, whose row has the guard set, is seen by the test of a claim.
read_all-guarded :
    (g : GuardKind) (ks : List String) (s : LifecycleStore) (rs : List LifecycleRecord) (j : String)
    → read_all ks s ≡ some rs
    → contains j ks ≡ true
    → is_guarded g (lookup j s.records) ≡ true
    → any (guarded g) rs ≡ true
unfolding read_all
read_all-guarded g [] s rs j h c y = ground arith
read_all-guarded g (k ∷ ks) s rs j h c y = elim (Option-cases (lookup k s.records)) [
  | inl e ↦ ground arith
  | inr (r, e) ↦ elim (Option-cases (read_all ks s)) [
    | inl n ↦ ground (arith, e, n)
    | inr (rest, m) ↦
        let list : r ∷ rest ≡ rs = ground (arith, e, m) in
        ground (arith, e, list, eq_iff k j, read_all-guarded g ks s rest j m)
  ]
]

read_all-present :
    (ks : List String) (s : LifecycleStore) (rs : List LifecycleRecord) (j : String)
    → read_all ks s ≡ some rs
    → contains j ks ≡ true
    → is_some (lookup j s.records) ≡ true
unfolding read_all
read_all-present [] s rs j h c = ground arith
read_all-present (k ∷ ks) s rs j h c = elim (Option-cases (lookup k s.records)) [
  | inl e ↦ ground arith
  | inr (r, e) ↦ elim (Option-cases (read_all ks s)) [
    | inl n ↦ ground (arith, e, n)
    | inr (rest, m) ↦ ground (arith, e, eq_iff k j, read_all-present ks s rest j m)
  ]
]

-- In a reached store, once a claim of a guard is granted, no claim of the same guard that has a role
-- in common with it is granted in the store it leaves; and each role it names was free of the guard
-- and has it now.
pub claim-excludes :
    (clean : Sanitizers) (roles others : List String) (j : String) (g : GuardKind) (now later : ℕ)
    (s s' : LifecycleStore) (owned : Dict String)
    → Reached s
    → claim_guards clean roles g now s ≡ done owned s'
    → contains j roles ≡ true
    → contains j others ≡ true
    → (is_guarded g (lookup j s.records) ≡ false)
      × (is_guarded g (lookup j s'.records) ≡ true)
      × ((owned' : Dict String) (s'' : LifecycleStore)
          → claim_guards clean others g later s' ≢ done owned' s'')
claim-excludes clean roles others j g now later s s' owned reached h c o =
    let a = claimed clean roles g now s owned s' h in
    let listed : contains j (dedup roles) ≡ true = ground (arith, contains-dedup j roles) in
    let there : contains j (dedup others) ≡ true = ground (arith, contains-dedup j others) in
    let names = read_all-roles (dedup roles) s a.0 a.1 (Reached-Inv s reached) in
    let present = read_all-present (dedup roles) s a.0 j a.1 listed in
    let set : is_guarded g (lookup j s'.records) ≡ true =
      raise_guards-guarded clean g now a.0 s s' j a.4 present (ground (arith, listed, names)) in
    (
      ground (
        arith,
        a.2,
        Bool-cases (is_guarded g (lookup j s.records)),
        read_all-guarded g (dedup roles) s a.0 j a.1 listed,
      ),
      set,
      λ owned' s'' again.
          let b = claimed clean others g later s' owned' s'' again in
          ground (arith, b.2, read_all-guarded g (dedup others) s' b.0 j b.1 there set),
    )
