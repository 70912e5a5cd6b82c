-- ===== src/Scheduler/Invariant.antt =====
-- What holds of a scheduler between two calls of gateway/src/dgx_moa/executor_scheduler.py.
use mo_e_mo_a_integrated_com.Scheduler.{
  remote_admission, local_admission, pin_remote, pin_local, append_entry, entry_for,
  queued_admission, enqueue, Request, is_queued, is_acquired, initial, new, total_depth, Admission,
  Queued, Scheduler, ok,
}
use mo_e_mo_a_integrated_com.Scheduler.Ring.{append_entry-IsRing, IsRing}
use mo_e_mo_a_integrated_com.Scheduler.Depth.{
  queue_of, ids, total_depth-append_entry, ids-append_one, queue_of-append_entry,
}
use mo_e_mo_a_integrated_com.Scheduler.Arrivals.{in_order, in_order-append_one, in_order-next}
use mo_e_mo_a_integrated_com.Dict.{
  lookup, lookup-insert, length-insert, UniqueKeys, insert-UniqueKeys,
}
use mo_e_mo_a_integrated_com.Base.{
  ℕ, ◌+◌, ◌≤◌, String, ◌==◌, eq_iff, ◌≡◌, refl, subst, Bool, true, false, ◌&&◌, Option, none, some,
  [], ◌∷◌, arith, ltb, leb, if◌then◌else◌, get_or, length, is_empty, length-append, contains, NoDup,
  contains-append_one, append_one-NoDup,
}

-- The pin is that of a request that waits in the queue of the key.
abbrev pub waits_on : String → Option Admission → Bool
waits_on k none = false
waits_on k (some p) = is_queued p.lease_state && p.api_key_id == k

-- The lease of a pin: itself if it was acquired.
abbrev pub owned : Option Admission → Option Admission
owned none = none
owned (some p) = if is_acquired p.lease_state then some p else none

-- Owners stay within the capacity and queues within their bounds; an entry waits only while every
-- slot is taken; the pins are exactly the owners, the entries of the queues and the remote turns; and
-- the entries of each queue stand in the order in which they came.
pub record Inv (s : Scheduler) : Type 0 where
  pub ring : IsRing s.queues s.round_robin
  pub owners_unique : UniqueKeys s.owners
  pub capacity : length s.owners ≤ s.max_local_concurrency
  pub depth : total_depth s.queues ≤ s.max_total_local_queue
  pub key_depth : (k : String) → length (queue_of k s.queues) ≤ s.same_key_max_local_queue
  pub busy : is_empty s.queues ≡ false → length s.owners ≡ s.max_local_concurrency
  pub entries_unique : (k : String) → NoDup (ids (queue_of k s.queues))
  pub waiting :
      (k r : String) → contains r (ids (queue_of k s.queues)) ≡ waits_on k (lookup r s.pins)
  pub owning : (r : String) → lookup r s.owners ≡ owned (lookup r s.pins)
  pub arrivals : (k : String) → in_order s.sequence (queue_of k s.queues) ≡ true

pub initial-Inv : (c k t q : ℕ) → Inv (initial c k t q)
unfolding initial lookup total_depth
initial-Inv c k t q = record {
  ring = record { unique = tt; keys = λ j. refl; live = λ j w h. cc };
  owners_unique = tt;
  capacity = omega arith;
  depth = omega arith;
  key_depth = λ j. omega arith;
  busy = λ h. cc;
  entries_unique = λ j. tt;
  waiting = λ j r. refl;
  owning = λ r. refl;
  arrivals = λ j. refl;
}

pub new-Inv : (c k t q : ℕ) (s : Scheduler) → new c k t q ≡ ok s → Inv s
unfolding new
new-Inv c k t q s h =
    let e : initial c k t q ≡ s = ground arith in subst Inv e (initial-Inv c k t q)

module _ (s : Scheduler) (v : Inv s) (r : Request) (fresh : lookup r.request_id s.pins ≡ none) where
  pub pin_remote-Inv : (now reason : String) → Inv (pin_remote s r now reason).1
  unfolding pin_remote
  pin_remote-Inv now reason = record {
    ring = v.ring;
    owners_unique = v.owners_unique;
    capacity = v.capacity;
    depth = v.depth;
    key_depth = v.key_depth;
    busy = v.busy;
    entries_unique = v.entries_unique;
    arrivals = v.arrivals;
    waiting = λ k j. ground (
      arith,
      v.waiting k j,
      lookup-insert r.request_id j (remote_admission s r now reason) s.pins,
      eq_iff r.request_id j,
    );
    owning = λ j. ground (
      arith,
      v.owning j,
      lookup-insert r.request_id j (remote_admission s r now reason) s.pins,
      eq_iff r.request_id j,
    );
  }

  pub pin_local-Inv :
      (now : String)
      → ltb (length s.owners) s.max_local_concurrency ≡ true
      → is_empty s.queues ≡ true
      → Inv (pin_local s r now).1
  unfolding pin_local
  pin_local-Inv now room idle =
      let a = local_admission r.request_id r.api_key_id now (s.epoch + 1) "local_idle" in
      record {
        ring = v.ring;
        owners_unique = insert-UniqueKeys r.request_id a s.owners v.owners_unique;
        capacity = ground (arith, length-insert r.request_id a s.owners, v.capacity);
        depth = v.depth;
        key_depth = v.key_depth;
        busy = λ e. cc;
        arrivals = v.arrivals;
        entries_unique = v.entries_unique;
        waiting = λ k j.
            ground
              (arith, v.waiting k j, lookup-insert r.request_id j a s.pins, eq_iff r.request_id j);
        owning = λ j. ground (
          arith,
          v.owning j,
          lookup-insert r.request_id j a s.pins,
          lookup-insert r.request_id j a s.owners,
          eq_iff r.request_id j,
        );
      }

module _ (s : Scheduler) (v : Inv s) (r : Request) (fresh : lookup r.request_id s.pins ≡ none) where
  pub enqueue-Inv :
      (future : ℕ)
      → ltb (length s.owners) s.max_local_concurrency && is_empty s.queues ≡ false
      → leb s.same_key_max_local_queue (length (get_or (lookup r.api_key_id s.queues) [])) ≡ false
      → leb s.max_total_local_queue (total_depth s.queues) ≡ false
      → Inv (enqueue s r future).1
  unfolding enqueue entry_for
  enqueue-Inv future full room_key room = record {
    ring = append_entry-IsRing e s.queues s.round_robin v.ring;
    owners_unique = v.owners_unique;
    capacity = v.capacity;
    depth = ground (arith, total_depth-append_entry e s.queues);
    key_depth = λ k. ground (
      arith,
      v.key_depth k,
      queue_of-append_entry e k s.queues,
      length-append (queue_of k s.queues) (e ∷ []),
      eq_iff r.api_key_id k,
    );
    busy = λ h. ground (arith, v.capacity, v.busy);
    arrivals = λ k. ground (
      arith,
      v.arrivals k,
      queue_of-append_entry e k s.queues,
      in_order-append_one s.sequence e (queue_of k s.queues) refl (v.arrivals k),
      in_order-next s.sequence (queue_of k s.queues) (v.arrivals k),
      eq_iff r.api_key_id k,
    );
    entries_unique = λ k. ground (
      arith,
      v.entries_unique k,
      v.waiting k r.request_id,
      queue_of-append_entry e k s.queues,
      ids-append_one (queue_of k s.queues) e,
      append_one-NoDup r.request_id (ids (queue_of k s.queues)) (v.entries_unique k),
    );
    waiting = λ k j. ground (
      arith,
      v.waiting k j,
      v.waiting k r.request_id,
      queue_of-append_entry e k s.queues,
      ids-append_one (queue_of k s.queues) e,
      contains-append_one j r.request_id (ids (queue_of k s.queues)),
      lookup-insert r.request_id j a s.pins,
      eq_iff r.request_id j,
      eq_iff r.api_key_id k,
    );
    owning = λ j.
        ground (arith, v.owning j, lookup-insert r.request_id j a s.pins, eq_iff r.request_id j);
  }
    where
      e : Queued
      e = entry_for s r future

      a : Admission
      a = queued_admission s r (append_entry e s.queues)
