-- ===== src/Lifecycle/Invariant.antt =====
-- What holds of the store of gateway/src/dgx_moa/lifecycle.py between two transactions, and the ways
-- in which a transaction keeps it.
use mo_e_mo_a_integrated_com.Lifecycle.{
  update_row, write, count_if, held, counted, sync_lease_counts, LifecycleRecord, LifecycleLease,
  LifecycleStore, active_request, open_stream,
}
use mo_e_mo_a_integrated_com.Lifecycle.Rows.{
  lookup-update_row, leases-sync, roles-sync, lookup-sync,
}
use mo_e_mo_a_integrated_com.Lifecycle.Counts.{SameCounts}
use mo_e_mo_a_integrated_com.Dict.{lookup}
use mo_e_mo_a_integrated_com.Base.{
  ℕ, String, ◌==◌, eq_iff, ◌≡◌, refl, sym, subst, inl, inr, true, false, Option, none, some, List,
  arith, if◌then◌else◌, Bool-cases, is_some, Option-cases, map_some, contains,
}

-- The row of a role carries its name and the counts of its requests in the leases table.
abbrev pub Exact : List LifecycleLease → String → Option LifecycleRecord → Type 0
Exact ls j none = Unit
Exact ls j (some r) =
    (r.role ≡ j)
    × (r.active_request_count ≡ count_if (held j active_request) ls)
    × (r.open_stream_count ≡ count_if (held j open_stream) ls)

-- Every row is exact and belongs to a role of the store.
pub record Inv (s : LifecycleStore) : Type 0 where
  pub rows : (j : String) → Exact s.leases j (lookup j s.records)
  pub known : (j : String) → is_some (lookup j s.records) ≡ true → contains j s.roles ≡ true

pub SameCounts-Exact :
    (ls ms : List LifecycleLease) (j : String) (o : Option LifecycleRecord)
    → (is_some o ≡ true → SameCounts j ls ms)
    → Exact ls j o
    → Exact ms j o
SameCounts-Exact ls ms j none c e = tt
SameCounts-Exact ls ms j (some r) c e = let same = c refl in ground (arith, same, e)

counted-Exact :
    (ls ms : List LifecycleLease) (now : ℕ) (j : String) (o : Option LifecycleRecord)
    → Exact ls j o
    → Exact ms j (map_some (counted ms j now) o)
unfolding counted
counted-Exact ls ms now j none e = tt
counted-Exact ls ms now j (some r) e = (e.0, refl, refl)

-- A sync of the roles whose counts may have changed makes every row exact again.
pub sync-Inv :
    (ls : List LifecycleLease) (ks : List String) (now : ℕ) (s : LifecycleStore)
    → Inv (record s { leases = ls })
    → ((j : String)
        → contains j ks ≡ false
        → is_some (lookup j s.records) ≡ true
        → SameCounts j ls s.leases)
    → Inv (sync_lease_counts ks now s)
sync-Inv ls ks now s v same = record {
  rows = λ j.
      subst (λ ms. Exact ms j (lookup j (sync_lease_counts ks now s).records))
        (sym (leases-sync ks now s))
        (subst (Exact s.leases j) (sym (lookup-sync ks now s j)) (row j));
  known = λ j h. ground (
    arith,
    v.known j,
    lookup-sync ks now s j,
    roles-sync ks now s,
    Option-cases (lookup j s.records),
  );
}
  where
    row :
        (j : String)
        → Exact s.leases j (
            if contains j ks
            then map_some (counted s.leases j now) (lookup j s.records)
            else lookup j s.records)
    row j = elim (Bool-cases (contains j ks)) [
      | inl h ↦ rw h (counted-Exact ls s.leases now j (lookup j s.records) (v.rows j))
      | inr h ↦ rw h (SameCounts-Exact ls s.leases j (lookup j s.records) (same j h) (v.rows j))
    ]

-- A change of a row that leaves its name and its counts of requests.
abbrev pub Quiet : LifecycleRecord → LifecycleRecord → Type 0
Quiet r u =
    (u.role ≡ r.role)
    × (u.active_request_count ≡ r.active_request_count)
    × (u.open_stream_count ≡ r.open_stream_count)

Quiet-Exact :
    (f : LifecycleRecord → LifecycleRecord) (ls : List LifecycleLease) (j : String)
    (o : Option LifecycleRecord)
    → ((r : LifecycleRecord) → Quiet r (f r))
    → Exact ls j o
    → Exact ls j (map_some f o)
Quiet-Exact f ls j none q e = tt
Quiet-Exact f ls j (some r) q e = ground (arith, q r, e)

pub update_row-Inv :
    (k : String) (f : LifecycleRecord → LifecycleRecord) (s : LifecycleStore)
    → ((r : LifecycleRecord) → Quiet r (f r))
    → Inv s
    → Inv (record s { records = update_row k f s.records })
update_row-Inv k f s q v = record {
  rows = λ j. subst (Exact s.leases j) (sym (lookup-update_row k j f s.records)) (row j);
  known = λ j h.
      ground
        (arith, v.known j, lookup-update_row k j f s.records, Option-cases (lookup j s.records));
}
  where
    row :
        (j : String)
        → Exact s.leases j (if k == j then map_some f (lookup j s.records) else lookup j s.records)
    row j = elim (Bool-cases (k == j)) [
      | inl h ↦ rw h (Quiet-Exact f s.leases j (lookup j s.records) q (v.rows j))
      | inr h ↦ rw h (v.rows j)
    ]

written-Exact :
    (u : LifecycleRecord) (ls : List LifecycleLease) (j : String) (o : Option LifecycleRecord)
    → Exact ls j (some u)
    → Exact ls j (map_some (λ _. u) o)
written-Exact u ls j none e = tt
written-Exact u ls j (some r) e = e

-- A record that is exact for its own role may be written.
pub put-Inv :
    (u : LifecycleRecord) (s : LifecycleStore)
    → Inv s
    → Exact s.leases u.role (some u)
    → Inv (write u s)
unfolding write
put-Inv u s v e = record {
  rows =
      λ i. subst (Exact s.leases i) (sym (lookup-update_row u.role i (λ _. u) s.records)) (row i);
  known = λ i h. ground (
    arith,
    v.known i,
    lookup-update_row u.role i (λ _. u) s.records,
    Option-cases (lookup i s.records),
  );
}
  where
    row :
        (i : String)
        → Exact s.leases i
            (if u.role == i then map_some (λ _. u) (lookup i s.records) else lookup i s.records)
    row i = elim (Bool-cases (u.role == i)) [
      | inl h ↦
          let same : u.role ≡ i = ground (arith, eq_iff u.role i) in
          rw h (
            written-Exact u s.leases i (lookup i s.records)
              (subst (λ k. Exact s.leases k (some u)) same e))
      | inr h ↦ rw h (v.rows i)
    ]

-- So may a quiet change of the record that was read.
pub write-Inv :
    (j : String) (r u : LifecycleRecord) (s : LifecycleStore)
    → Inv s
    → lookup j s.records ≡ some r
    → Quiet r u
    → Inv (write u s)
write-Inv j r u s v e q = put-Inv u s v (ground (arith, q, here))
  where
    here : Exact s.leases j (some r)
    here = subst (Exact s.leases j) e (v.rows j)
