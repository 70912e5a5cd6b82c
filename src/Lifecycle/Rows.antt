-- ===== src/Lifecycle/Rows.antt =====
-- The SQL updates of gateway/src/dgx_moa/lifecycle.py, read back row by row.
use mo_e_mo_a_integrated_com.Lifecycle.{
  update_row, counted, sync_lease_counts, LifecycleRecord, LifecycleLease, LifecycleStore,
}
use mo_e_mo_a_integrated_com.Dict.{Dict, lookup}
use mo_e_mo_a_integrated_com.Base.{
  ℕ, String, ◌==◌, eq_iff, ◌≡◌, refl, ◌||◌, Option, none, some, List, [], ◌∷◌, ◌++◌, arith,
  if◌then◌else◌, map_some, contains,
}

pub lookup-update_row :
    (k j : String) (f : LifecycleRecord → LifecycleRecord) (m : Dict LifecycleRecord)
    → lookup j (update_row k f m) ≡ (if k == j then map_some f (lookup j m) else lookup j m)
unfolding lookup update_row
lookup-update_row k j f [] = ground arith
lookup-update_row k j f ((i, r) ∷ m) =
    ground (arith, eq_iff k j, eq_iff i k, eq_iff i j, lookup-update_row k j f m)

-- A sync writes the counts of the listed roles and nothing else.
pub leases-sync :
    (ks : List String) (now : ℕ) (s : LifecycleStore)
    → (sync_lease_counts ks now s).leases ≡ s.leases
unfolding sync_lease_counts
leases-sync [] now s = refl
leases-sync (k ∷ ks) now s =
    leases-sync ks now (record s { records = update_row k (counted s.leases k now) s.records })

pub roles-sync :
    (ks : List String) (now : ℕ) (s : LifecycleStore) → (sync_lease_counts ks now s).roles ≡ s.roles
unfolding sync_lease_counts
roles-sync [] now s = refl
roles-sync (k ∷ ks) now s =
    roles-sync ks now (record s { records = update_row k (counted s.leases k now) s.records })

pub counted_twice :
    (ls : List LifecycleLease) (k : String) (now : ℕ) (o : Option LifecycleRecord)
    → map_some (counted ls k now) (map_some (counted ls k now) o) ≡ map_some (counted ls k now) o
unfolding counted
counted_twice ls k now none = refl
counted_twice ls k now (some r) = refl

pub lookup-sync :
    (ks : List String) (now : ℕ) (s : LifecycleStore) (j : String)
    → lookup j (sync_lease_counts ks now s).records ≡ (
        if contains j ks
        then map_some (counted s.leases j now) (lookup j s.records)
        else lookup j s.records)
unfolding sync_lease_counts
lookup-sync [] now s j = refl
lookup-sync (k ∷ ks) now s j = ground (
  arith,
  lookup-sync ks now (record s { records = update_row k (counted s.leases k now) s.records }) j,
  lookup-update_row k j (counted s.leases k now) s.records,
  counted_twice s.leases j now (lookup j s.records),
  eq_iff k j,
)

pub contains-append :
    (j : String) (xs ys : List String) → contains j (xs ++ ys) ≡ contains j xs || contains j ys
contains-append j [] ys = refl
contains-append j (x ∷ xs) ys = ground (arith, contains-append j xs ys)
