-- ===== src/Scheduler.antt =====
-- gateway/src/dgx_moa/executor_scheduler.py: the operations of ExecutorScheduler.
-- Each method that holds the lock is one function from the state to the state. `acquire` is `admit`
-- (its locked part) and `finish_wait` (what follows the await, run on the state of that moment).
mod Types
pub mod Release
pub mod Ring
pub mod Arrivals
pub mod Depth
pub mod Invariant
pub mod Preservation
pub mod Leaving
pub mod Runs
pub mod Turns
pub mod Routes
mod Tests
use mo_e_mo_a_integrated_com.Dict.{
  Dict, lookup, insert, remove, values, keys, lookup-insert, lookup-remove, length-insert,
  UniqueKeys, insert-UniqueKeys, remove-UniqueKeys, remove_missing, length-remove, length-remove-le,
  lookup_empty, empty_of_lookup,
}
use mo_e_mo_a_integrated_com.Base.{
  ℕ, zero, suc, ◌+◌, ◌-◌, ◌*◌, ◌≤◌, ◌<◌, min, max, String, ◌==◌, eq_iff, eq_refl, ◌≡◌, refl, sym,
  ap, ◌∙◌, subst, ◌≢◌, ◌↔◌, ◌⊎◌, inl, inr, Bool, true, false, not, ◌&&◌, ◌||◌, Option, none, some,
  List, [], ◌∷◌, ◌++◌, map, arith, ltb, leb, eqb, if◌then◌else◌, ltb→lt, leb→le, Bool-cases,
  is_some, get_or, Option-cases, length, keep_if, any, all, is_empty, All, length-append,
  length-keep_if, contains, dedup, NoDup, contains-append_one, append_one-NoDup, contains-keep_ne,
  keep_ne-NoDup, string_same, string_apart,
}
unfoldable pub use Types.*

unfoldable pub set_local_enabled : Bool → Scheduler → Scheduler
set_local_enabled enabled s = record s { local_enabled = enabled }

all_entries : List (List Queued) → List Queued
all_entries [] = []
all_entries (q ∷ qs) = q ++ all_entries qs

-- sorted(..., key=lambda entry: entry.sequence)
place : Queued → List Queued → List Queued
place e [] = e ∷ []
place e (x ∷ xs) = if leb e.sequence x.sequence then e ∷ x ∷ xs else x ∷ place e xs

sort_by_sequence : List Queued → List Queued
unfolding place
sort_by_sequence [] = []
sort_by_sequence (e ∷ es) = place e (sort_by_sequence es)

-- the first index, counted from `index`, of an entry of the request; 0 if there is none
position_from : ℕ → String → List Queued → ℕ
position_from index request_id [] = 0
position_from index request_id (e ∷ es) =
    if e.request_id == request_id then index else position_from (index + 1) request_id es

unfoldable pub queue_position : Dict (List Queued) → String → ℕ
unfolding all_entries sort_by_sequence position_from
queue_position queues request_id =
    position_from 1 request_id (sort_by_sequence (all_entries (values queues)))

unfoldable pub refresh : Scheduler → String → Admission → Admission
refresh s request_id pin = if not (is_queued pin.lease_state) then pin else record pin {
  lease_owner_api_key_id = owner_key s.owners;
  queue_position = queue_position s.queues request_id;
  round_robin_epoch = s.epoch;
}

unfoldable pub current_pin : Scheduler → String → Option Admission
unfolding refresh
current_pin s request_id = elim (lookup request_id s.pins) [
  | none ↦ none
  | some pin ↦ some (refresh s request_id pin)
]

pub record Request : Type 0 where
  pub api_key_id : String
  pub request_id : String
  pub risk : Risk
  pub flash_available : Bool
  pub local_available : Bool

-- What the locked part hands on: the admission itself, or the queued admission to wait under.
pub data Outcome : Type 0 where
  admitted waiting : Admission → Outcome

unfoldable pub remote_admission : Scheduler → Request → String → String → Admission
remote_admission s r now reason = record {
  request_id = r.request_id;
  api_key_id = r.api_key_id;
  selected_executor = remote_overflow;
  lease_owner_api_key_id = owner_key s.owners;
  acquired_at = some now;
  lease_state = overflow;
  queue_position = 0;
  round_robin_epoch = s.epoch;
  reason = reason;
}

unfoldable pub local_admission : String → String → String → ℕ → String → Admission
local_admission request_id api_key_id now epoch reason = record {
  request_id = request_id;
  api_key_id = api_key_id;
  selected_executor = local_primary;
  lease_owner_api_key_id = some api_key_id;
  acquired_at = some now;
  lease_state = acquired;
  queue_position = 0;
  round_robin_epoch = epoch;
  reason = reason;
}

unfoldable pub pin_remote : Scheduler → Request → String → String → Result Outcome × Scheduler
unfolding remote_admission
pin_remote s r now reason =
    let admission = remote_admission s r now reason in
    (ok (admitted admission), record s { pins = insert r.request_id admission s.pins })

unfoldable pub pin_local : Scheduler → Request → String → Result Outcome × Scheduler
unfolding local_admission
pin_local s r now =
    let admission = local_admission r.request_id r.api_key_id now (s.epoch + 1) "local_idle" in
    (
      ok (admitted admission),
      record s {
        owners = insert r.request_id admission s.owners;
        pins = insert r.request_id admission s.pins;
        epoch = s.epoch + 1;
      },
    )

-- The entry goes last in its key's queue; a key with no queue gets one, and goes last in the ring.
unfoldable pub append_entry : Queued → Dict (List Queued) → Dict (List Queued)
append_entry e queues =
    insert e.api_key_id (get_or (lookup e.api_key_id queues) [] ++ e ∷ []) queues

unfoldable pub join_ring : Queued → Dict (List Queued) → List String → List String
join_ring e queues ring =
    if is_some (lookup e.api_key_id queues) then ring else ring ++ e.api_key_id ∷ []

unfoldable pub entry_for : Scheduler → Request → ℕ → Queued
entry_for s r future = record {
  request_id = r.request_id;
  api_key_id = r.api_key_id;
  future = future;
  sequence = s.sequence + 1;
}

unfoldable pub queued_admission : Scheduler → Request → Dict (List Queued) → Admission
queued_admission s r queues = record {
  request_id = r.request_id;
  api_key_id = r.api_key_id;
  selected_executor = local_primary;
  lease_owner_api_key_id = owner_key s.owners;
  acquired_at = none;
  lease_state = queued;
  queue_position = queue_position queues r.request_id;
  round_robin_epoch = s.epoch;
  reason = if is_high_risk r.risk then "high_risk_local_only" else "local_busy_queue";
}

unfoldable pub enqueue : Scheduler → Request → ℕ → Result Outcome × Scheduler
unfolding join_ring entry_for queued_admission
enqueue s r future =
    let e = entry_for s r future in
    let queues = append_entry e s.queues in
    let admission = queued_admission s r queues in
    (
      ok (waiting admission),
      record s {
        queues = queues;
        round_robin = join_ring e s.queues s.round_robin;
        pins = insert r.request_id admission s.pins;
        sequence = s.sequence + 1;
      },
    )

same_key : String → Dict Admission → Bool
same_key key owners = any (λ a. a.api_key_id == key) (values owners)

-- a request with no pin, when no local slot is free
unfoldable pub admit_busy : Scheduler → Request → String → ℕ → Result Outcome × Scheduler
unfolding same_key
admit_busy s r now future =
    let depth = total_depth s.queues in
    if not (is_high_risk r.risk) && r.flash_available && leb s.max_total_local_queue depth
    then pin_remote s r now
        (if same_key r.api_key_id s.owners then "same_key_overflow" else "cross_key_overflow")
    else if leb s.same_key_max_local_queue (length (get_or (lookup r.api_key_id s.queues) []))
        || leb s.max_total_local_queue depth
    then (err (if is_high_risk r.risk then high_risk_queue_full else queue_full), s)
    else enqueue s r future

unfoldable pub admit_new : Scheduler → Request → String → ℕ → Result Outcome × Scheduler
admit_new s r now future =
    if not (r.local_available && s.local_enabled)
    then (if not r.flash_available
        then (err local_unavailable, s)
        else pin_remote s r now "local_unavailable")
    else if ltb (length s.owners) s.max_local_concurrency && is_empty s.queues
    then pin_local s r now
    else admit_busy s r now future

-- a request that is pinned already
unfoldable pub admit_pinned : Scheduler → Request → Admission → Result Outcome × Scheduler
admit_pinned s r existing =
    if not (existing.api_key_id == r.api_key_id)
    then (err other_api_key, s)
    else if is_queued existing.lease_state
    then (err already_queued, s)
    else (ok (admitted existing), s)

unfoldable pub admit_current : Scheduler → Request → String → ℕ → Result Outcome × Scheduler
admit_current s r now future = elim (current_pin s r.request_id) [
  | some existing ↦ admit_pinned s r existing
  | none ↦ admit_new s r now future
]

-- `acquire` up to the await
unfoldable pub admit : Scheduler → Request → String → ℕ → Result Outcome × Scheduler
admit s r now future = elim (validate r.api_key_id r.request_id) [
  | some e ↦ (err e, s)
  | none ↦ admit_current s r now future
]
