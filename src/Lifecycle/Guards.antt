-- ===== src/Lifecycle/Guards.antt =====
-- gateway/src/dgx_moa/lifecycle.py: `set_guard`, `claim_guards` and `release_guards`.
use mo_e_mo_a_integrated_com.Lifecycle.{
  write, require_role, read, GuardKind, LifecycleRecord, LifecycleStore, Step, evaluation_guard,
  profile_guard, unknown_role, guard_active, invalid_record, refused, done,
}
use mo_e_mo_a_integrated_com.Lifecycle.Updates.{
  is_valid, updated_values, save, current_only, Sanitizers, Change, set_evaluation_guard,
  set_profile_guard,
}
use mo_e_mo_a_integrated_com.Lifecycle.Leases.{any_unknown}
use mo_e_mo_a_integrated_com.Dict.{Dict, lookup, keys}
use mo_e_mo_a_integrated_com.Base.{
  ℕ, String, ◌==◌, Bool, true, false, not, ◌||◌, Option, none, some, List, [], ◌∷◌, if◌then◌else◌,
  map_some, any, dedup,
}

-- getattr(record, guard)
unfoldable pub guarded : GuardKind → LifecycleRecord → Bool
guarded evaluation_guard r = r.evaluation_guard
guarded profile_guard r = r.profile_guard

-- {guard: enabled}
unfoldable pub guard_change : GuardKind → Bool → Change
guard_change evaluation_guard b = set_evaluation_guard b
guard_change profile_guard b = set_profile_guard b

abbrev pub same_bool : Bool → Bool → Bool
same_bool true b = b
same_bool false b = not b

unfoldable pub set_guard :
    Sanitizers → String → GuardKind → Bool → String → ℕ → LifecycleStore → Step LifecycleRecord
unfolding guarded guard_change save updated_values
set_guard clean role guard enabled expected now s = require_role s role (
    read s role (λ r. current_only r expected (
      if same_bool (guarded guard r) enabled
      then done r s
      else save (updated_values clean r (guard_change guard enabled ∷ []) now) s)))

-- {role: self._read(database, role) for role in requested_roles}
unfoldable pub read_all : List String → LifecycleStore → Option (List LifecycleRecord)
read_all [] s = some []
read_all (k ∷ ks) s = elim (lookup k s.records) [
  | none ↦ none
  | some r ↦ map_some (λ rs. r ∷ rs) (read_all ks s)
]

-- The records were read before the first write.
unfoldable pub raise_guards :
    Sanitizers → GuardKind → ℕ → List LifecycleRecord → LifecycleStore → Step Unit
unfolding updated_values is_valid write guard_change
raise_guards clean guard now [] s = done tt s
raise_guards clean guard now (r ∷ rs) s =
    let u = updated_values clean r (guard_change guard true ∷ []) now in
    let rest = raise_guards clean guard now rs (write u s) in
    if is_valid u then rest else refused invalid_record

abbrev pub ownership : List LifecycleRecord → Dict String
ownership [] = []
ownership (r ∷ rs) = (r.role, r.transition_id) ∷ ownership rs

abbrev pub answer : {A : Type 0} → A → Step Unit → Step A
answer a (refused fault) = refused fault
answer a (done u s) = done a s

unfoldable pub claim_read :
    Sanitizers → GuardKind → ℕ → List LifecycleRecord → LifecycleStore → Step (Dict String)
unfolding raise_guards guarded
claim_read clean guard now rs s =
    if any (guarded guard) rs
    then refused guard_active
    else answer (ownership rs) (raise_guards clean guard now rs s)

unfoldable pub claim_guards :
    Sanitizers → List String → GuardKind → ℕ → LifecycleStore → Step (Dict String)
unfolding claim_read read_all
claim_guards clean roles guard now s =
    let ks = dedup roles in
    if any_unknown s ks then refused unknown_role else elim (read_all ks s) [
      | none ↦ refused unknown_role
      | some rs ↦ claim_read clean guard now rs s
    ]

-- One turn of the loop of `release_guards`: a role that moved on, or is not guarded, is passed over.
unfoldable pub lower_guard :
    Sanitizers → GuardKind → ℕ → String → LifecycleRecord → LifecycleStore → Step Unit
unfolding updated_values is_valid write guard_change guarded
lower_guard clean guard now expected r s =
    let u = updated_values clean r (guard_change guard false ∷ []) now in
    if not (r.transition_id == expected) || not (guarded guard r)
    then done tt s
    else if is_valid u
    then done tt (write u s)
    else refused invalid_record

unfoldable pub lower_guards : Sanitizers → GuardKind → ℕ → Dict String → LifecycleStore → Step Unit
unfolding lower_guard
lower_guards clean guard now [] s = done tt s
lower_guards clean guard now ((k, t) ∷ owned) s = elim (lookup k s.records) [
  | none ↦ refused unknown_role
  | some r ↦ elim (lower_guard clean guard now t r s) [
    | refused fault ↦ refused fault
    | done u s' ↦ lower_guards clean guard now owned s'
  ]
]

unfoldable pub release_guards :
    Sanitizers → Dict String → GuardKind → ℕ → LifecycleStore → Step Unit
unfolding lower_guards
release_guards clean owned guard now s =
    if any_unknown s (keys owned)
    then refused unknown_role
    else lower_guards clean guard now owned s
