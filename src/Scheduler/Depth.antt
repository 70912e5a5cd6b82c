-- ===== src/Scheduler/Depth.antt =====
-- How many entries the queues of gateway/src/dgx_moa/executor_scheduler.py hold, and whose.
use mo_e_mo_a_integrated_com.Scheduler.{append_entry, total_depth, Queued}
use mo_e_mo_a_integrated_com.Scheduler.Release.{shrink}
use mo_e_mo_a_integrated_com.Dict.{Dict, lookup, insert, remove, lookup-insert, lookup-remove}
use mo_e_mo_a_integrated_com.Base.{
  suc, ◌+◌, ◌≤◌, String, ◌==◌, eq_iff, ◌≡◌, refl, ap, not, some, List, [], ◌∷◌, ◌++◌, arith,
  if◌then◌else◌, get_or, length, keep_if, length-append,
}

abbrev pub queue_of : String → Dict (List Queued) → List Queued
queue_of k queues = get_or (lookup k queues) []

abbrev pub ids : List Queued → List String
ids [] = []
ids (e ∷ es) = e.request_id ∷ ids es

total_depth-insert :
    (k : String) (q : List Queued) (m : Dict (List Queued))
    → total_depth (insert k q m) + length (queue_of k m) ≡ total_depth m + length q
unfolding total_depth lookup insert
total_depth-insert k q [] = omega arith
total_depth-insert k q ((j, w) ∷ m) = ground (arith, total_depth-insert k q m)

total_depth-remove :
    (k : String) (m : Dict (List Queued))
    → total_depth (remove k m) + length (queue_of k m) ≤ total_depth m
unfolding total_depth lookup remove
total_depth-remove k [] = omega arith
total_depth-remove k ((j, w) ∷ m) = ground (arith, total_depth-remove k m)

pub total_depth-append_entry :
    (e : Queued) (m : Dict (List Queued)) → total_depth (append_entry e m) ≡ suc (total_depth m)
unfolding append_entry
total_depth-append_entry e m = omega (
  arith,
  total_depth-insert e.api_key_id (queue_of e.api_key_id m ++ e ∷ []) m,
  length-append (queue_of e.api_key_id m) (e ∷ []),
)

pub total_depth-shrink :
    (k : String) (e : Queued) (rest : List Queued) (m : Dict (List Queued))
    → lookup k m ≡ some (e ∷ rest)
    → suc (total_depth (shrink k rest m)) ≤ total_depth m
unfolding shrink
total_depth-shrink k e rest m h =
    ground (arith, total_depth-insert k rest m, total_depth-remove k m)

pub total_depth-narrow :
    (k : String) (rest : List Queued) (m : Dict (List Queued))
    → length rest ≤ length (queue_of k m)
    → total_depth (insert k rest m) ≤ total_depth m
total_depth-narrow k rest m h = omega (arith, total_depth-insert k rest m)

pub total_depth-drop :
    (k : String) (m : Dict (List Queued)) → total_depth (remove k m) ≤ total_depth m
total_depth-drop k m = omega (arith, total_depth-remove k m)

pub ids-append_one :
    (xs : List Queued) (e : Queued) → ids (xs ++ e ∷ []) ≡ ids xs ++ e.request_id ∷ []
ids-append_one [] e = refl
ids-append_one (x ∷ xs) e = ap (λ r. x.request_id ∷ r) (ids-append_one xs e)

pub ids-keep_ne :
    (r : String) (xs : List Queued)
    → ids (keep_if (λ e. not (e.request_id == r)) xs) ≡ keep_if (λ x. not (x == r)) (ids xs)
ids-keep_ne r [] = refl
ids-keep_ne r (x ∷ xs) = ground (arith, ids-keep_ne r xs)

pub queue_of-append_entry :
    (e : Queued) (k : String) (m : Dict (List Queued))
    → queue_of k (append_entry e m)
      ≡ (if e.api_key_id == k then queue_of k m ++ e ∷ [] else queue_of k m)
unfolding append_entry
queue_of-append_entry e k m = ground (
  arith,
  lookup-insert e.api_key_id k (queue_of e.api_key_id m ++ e ∷ []) m,
  eq_iff e.api_key_id k,
)

pub queue_of-shrink :
    (key k : String) (rest : List Queued) (m : Dict (List Queued))
    → queue_of k (shrink key rest m) ≡ (if key == k then rest else queue_of k m)
unfolding shrink
queue_of-shrink key k rest m = ground (arith, lookup-remove key k m, lookup-insert key k rest m)
