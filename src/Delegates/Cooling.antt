-- ===== src/Delegates/Cooling.antt =====
-- A launch of gateway/src/dgx_moa/async_moa.py keeps another of the same fingerprint away for a while.
use mo_e_mo_a_integrated_com.Delegates.{
  should_activate, is_too_deep, fingerprint_of, is_cooling, new_handle, launch, spawn,
  record_useful_work, cancel_obsolete, SpawnArgs, DelegateHandle, AsyncMoaRuntime, MoaEnv,
}
use mo_e_mo_a_integrated_com.Delegates.Runs.{
  Step, Follows, spawns, works, cancels, settles, stays, goes,
}
use mo_e_mo_a_integrated_com.Dict.{Dict, lookup, insert, lookup-insert}
use mo_e_mo_a_integrated_com.Base.{
  ℕ, ◌+◌, ◌≤◌, ◌<◌, String, ◌==◌, eq_refl, ◌≡◌, refl, ap, subst, inl, inr, Bool, true, false, not,
  ◌||◌, none, some, arith, leb, Bool-cases, Option-cases,
}

-- The last launch of the fingerprint was at this moment or later.
abbrev is_recent : String → ℕ → Dict ℕ → Bool
is_recent key moment d = elim (lookup key d) [ none ↦ false | some last ↦ leb moment last ]

insert_recent :
    (key other : String) (moment now : ℕ) (d : Dict ℕ)
    → moment ≤ now
    → is_recent key moment d ≡ true
    → is_recent key moment (insert other now d) ≡ true
insert_recent key other moment now d m h = elim (Bool-cases (other == key)) [
  | inl t ↦ ground (arith, t, m, lookup-insert other key now d)
  | inr f ↦ ground (arith, f, h, lookup-insert other key now d)
]

-- What the cooldown is measured by.
abbrev Cool : String → ℕ → ℕ → AsyncMoaRuntime → Type 0
Cool key moment cooldown r =
    (is_recent key moment r.recent ≡ true) × (r.budget.semantic_cooldown_seconds ≡ cooldown)

spawn-Cool :
    (env : MoaEnv) (key : String) (moment cooldown : ℕ) (args : SpawnArgs) (now later : ℕ)
    (r : AsyncMoaRuntime)
    → moment ≤ later
    → Cool key moment cooldown r
    → Cool key moment cooldown (spawn env args now later r).1
unfolding spawn launch
spawn-Cool env key moment cooldown args now later r m h =
    elim (Bool-cases (
      not (should_activate args.role args.signal_strength r)
      || is_too_deep args r
      || is_cooling (fingerprint_of env args) now r)) [
        | inl t ↦ rw (t, spawn) h
        | inr f ↦
            rw (f, spawn)
              (
                insert_recent key (new_handle env args r).fingerprint moment later r.recent m h.0,
                h.1,
              )
      ]

step-Cool :
    (env : MoaEnv) (key : String) (moment cooldown : ℕ) (r r' : AsyncMoaRuntime)
    → Step env moment r r'
    → Cool key moment cooldown r
    → Cool key moment cooldown r'
unfolding record_useful_work cancel_obsolete
step-Cool env key moment cooldown r r' (spawns _ _ args now later m h) c =
    subst (Cool key moment cooldown) h (spawn-Cool env key moment cooldown args now later r m c)
step-Cool env key moment cooldown r r' (works _ _ event h) c = subst (Cool key moment cooldown) h c
step-Cool env key moment cooldown r r' (cancels _ _ now h) c = subst (Cool key moment cooldown) h c
step-Cool env key moment cooldown r r' (settles _ _ id task h) c =
    subst (Cool key moment cooldown) h c

run-Cool :
    (env : MoaEnv) (key : String) (moment cooldown : ℕ) (r r' : AsyncMoaRuntime)
    → Follows env moment r r'
    → Cool key moment cooldown r
    → Cool key moment cooldown r'
run-Cool env key moment cooldown r r' (stays _) c = c
run-Cool env key moment cooldown r r' (goes _ before _ run step) c =
    step-Cool env key moment cooldown before r' step
      (run-Cool env key moment cooldown r before run c)

launched-Cool :
    (env : MoaEnv) (args : SpawnArgs) (now later : ℕ) (r r' : AsyncMoaRuntime) (h : DelegateHandle)
    → spawn env args now later r ≡ (some h, r')
    → Cool (fingerprint_of env args) later r.budget.semantic_cooldown_seconds r'
unfolding spawn launch new_handle
launched-Cool env args now later r r' h e =
    elim (Bool-cases (
      not (should_activate args.role args.signal_strength r)
      || is_too_deep args r
      || is_cooling (fingerprint_of env args) now r)) [
        | inl t ↦ absurd (ground (arith, t, ap (λ x. x.0) e))
        | inr f ↦
            let key = fingerprint_of env args in
            let same : launch env args later r ≡ r' = ground (arith, f, ap (λ x. x.1) e) in
            subst (Cool key later r.budget.semantic_cooldown_seconds) same
              (ground (arith, lookup-insert key key later r.recent, eq_refl key), refl)
      ]

-- Once a delegate is launched, another of the same fingerprint is refused, and changes nothing, until
-- the cooldown since that launch has passed, whatever calls lie between, if none of them launches at
-- an earlier moment.
pub spawn-Cooling :
    (env : MoaEnv) (args again : SpawnArgs) (now later now' later' : ℕ) (r r' s : AsyncMoaRuntime)
    (h : DelegateHandle)
    → spawn env args now later r ≡ (some h, r')
    → Follows env later r' s
    → fingerprint_of env again ≡ fingerprint_of env args
    → now' < later + r.budget.semantic_cooldown_seconds
    → spawn env again now' later' s ≡ (none, s)
unfolding spawn is_cooling
spawn-Cooling env args again now later now' later' r r' s h e run same soon =
    let c =
      run-Cool env (fingerprint_of env args) later r.budget.semantic_cooldown_seconds r' s run
        (launched-Cool env args now later r r' h e) in
    elim (Option-cases (lookup (fingerprint_of env args) s.recent)) [
      | inl n ↦ absurd (ground (arith, n, c.0))
      | inr (last, n) ↦
          let cools : is_cooling (fingerprint_of env again) now' s ≡ true =
            ground (arith, n, c.0, c.1, same, soon) in
          ground (arith, cools)
    ]
