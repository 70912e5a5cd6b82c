-- ===== src/Lifecycle.antt =====
-- gateway/src/dgx_moa/lifecycle.py: the rows of the LifecycleStore and what its operations on leases
-- share. The clock's reading `now` is an argument of each operation. The statements of a transaction
-- run in the order of the source; `Step` is its outcome.
mod Types
pub mod Opening
pub mod Leases
mod Rows
mod Counts
mod Invariant
mod Quiet
mod Preservation
mod Saving
mod Claims
mod Runs
mod Admission
mod Moves
mod Clearing
mod Progress
mod Exclusion
mod Tests
pub mod Updates
pub mod Transitions
pub mod Unload
pub mod Guards
pub mod Recovery
use mo_e_mo_a_integrated_com.Dict.{
  Dict, lookup, insert, remove, values, keys, lookup-insert, lookup-remove, length-insert,
  UniqueKeys, insert-UniqueKeys, remove-UniqueKeys, remove_missing, length-remove, length-remove-le,
  lookup_empty, empty_of_lookup,
}
use mo_e_mo_a_integrated_com.Base.{
  ℕ, zero, suc, ◌+◌, ◌-◌, ◌*◌, ◌≤◌, ◌<◌, min, max, String, ◌==◌, eq_iff, eq_refl, ◌≡◌, refl, sym,
  ap, ◌∙◌, subst, ◌≢◌, ◌↔◌, ◌⊎◌, inl, inr, Bool, true, false, not, ◌&&◌, ◌||◌, Option, none, some,
  List, [], ◌∷◌, ◌++◌, map, arith, ltb, leb, eqb, if◌then◌else◌, ltb→lt, leb→le, Bool-cases,
  is_some, get_or, Option-cases, map_some, length, keep_if, any, all, is_empty, All, length-append,
  nonempty-keep_if, length-keep_if, first, codes, joined, contains, dedup, contains-dedup, NoDup,
  contains-append_one, append_one-NoDup, contains-keep_ne, keep_ne-NoDup, string_same, string_apart,
}
unfoldable pub use Types.*

-- UPDATE model_lifecycle SET ... WHERE role = ?
unfoldable pub update_row :
    String → (LifecycleRecord → LifecycleRecord) → Dict LifecycleRecord → Dict LifecycleRecord
update_row k f [] = []
update_row k f ((j, r) ∷ m) =
    let rest = update_row k f m in if j == k then (j, f r) ∷ rest else (j, r) ∷ rest

-- LifecycleStore._write
unfoldable pub write : LifecycleRecord → LifecycleStore → LifecycleStore
write r s = record s { records = update_row r.role (λ _. r) s.records }

-- COUNT(*) FILTER (WHERE test)
abbrev pub count_if : (LifecycleLease → Bool) → List LifecycleLease → ℕ
count_if test [] = 0
count_if test (l ∷ ls) = let rest = count_if test ls in if test l then suc rest else rest

-- WHERE role = ? AND kind = ?
abbrev pub held : String → LeaseKind → LifecycleLease → Bool
held role kind l = l.role == role && same_kind l.kind kind

-- kind = 'continuation' AND expires_at <= ?
abbrev pub expired_at : ℕ → Option ℕ → Bool
expired_at now none = false
expired_at now (some t) = leb t now

-- expires_at > ?
abbrev pub later_than : ℕ → Option ℕ → Bool
later_than now none = false
later_than now (some t) = ltb now t

abbrev pub is_expired : ℕ → LifecycleLease → Bool
is_expired now l = same_kind l.kind continuation && expired_at now l.expires_at

abbrev pub is_live_continuation : ℕ → String → LifecycleLease → Bool
is_live_continuation now role l = held role continuation l && later_than now l.expires_at

-- The record with the counts of the leases of a role.
unfoldable pub counted : List LifecycleLease → String → ℕ → LifecycleRecord → LifecycleRecord
counted ls role now r = record r {
  active_request_count = count_if (held role active_request) ls;
  open_stream_count = count_if (held role open_stream) ls;
  continuation_lease_count = count_if (is_live_continuation now role) ls;
  updated_at = now;
}

-- LifecycleStore._sync_lease_counts
unfoldable pub sync_lease_counts : List String → ℕ → LifecycleStore → LifecycleStore
unfolding update_row counted
sync_lease_counts [] now s = s
sync_lease_counts (k ∷ ks) now s =
    sync_lease_counts ks now
      (record s { records = update_row k (counted s.leases k now) s.records })

-- SELECT DISTINCT role FROM model_lifecycle_leases WHERE test
unfoldable pub roles_where : (LifecycleLease → Bool) → List LifecycleLease → List String
roles_where test ls = dedup (map (λ l. l.role) (keep_if test ls))

-- DELETE FROM model_lifecycle_leases WHERE test
unfoldable pub delete_where : (LifecycleLease → Bool) → LifecycleStore → LifecycleStore
delete_where test s = record s { leases = keep_if (λ l. not (test l)) s.leases }

-- LifecycleStore._prune_expired_continuations: the roles, and the store without the expired ones.
unfoldable pub expired_roles : ℕ → LifecycleStore → List String
unfolding roles_where
expired_roles now s = roles_where (is_expired now) s.leases

unfoldable pub prune_expired : ℕ → LifecycleStore → LifecycleStore
unfolding delete_where
prune_expired now s = delete_where (is_expired now) s

-- A prune, then the counts of the roles it touched and of `role`.
unfoldable pub prune_and_sync : ℕ → String → LifecycleStore → LifecycleStore
unfolding prune_expired expired_roles sync_lease_counts
prune_and_sync now role s =
    sync_lease_counts (expired_roles now s ++ role ∷ []) now (prune_expired now s)

-- LifecycleStore._require_role
abbrev pub require_role : {A : Type 0} → LifecycleStore → String → Step A → Step A
require_role s role rest = if contains role s.roles then rest else refused unknown_role

-- LifecycleStore._read
abbrev pub read : {A : Type 0} → LifecycleStore → String → (LifecycleRecord → Step A) → Step A
read s role rest = elim (lookup role s.records) [ none ↦ refused unknown_role | some r ↦ rest r ]

-- LifecycleStore.get
unfoldable pub get : LifecycleStore → String → Step LifecycleRecord
get s role = require_role s role (read s role (λ r. done r s))
