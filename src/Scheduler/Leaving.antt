-- ===== src/Scheduler/Leaving.antt =====
-- A queued request leaves its queue in `release` of gateway/src/dgx_moa/executor_scheduler.py.
use mo_e_mo_a_integrated_com.Scheduler.{is_queued, total_depth, Admission, Queued, Scheduler}
use mo_e_mo_a_integrated_com.Scheduler.Release.{shrink, drop_queued}
use mo_e_mo_a_integrated_com.Scheduler.Ring.{drop-IsRing, narrow-IsRing, IsRing}
use mo_e_mo_a_integrated_com.Scheduler.Depth.{
  queue_of, ids, total_depth-narrow, total_depth-drop, ids-keep_ne, queue_of-shrink,
}
use mo_e_mo_a_integrated_com.Scheduler.Arrivals.{in_order-keep_if}
use mo_e_mo_a_integrated_com.Scheduler.Invariant.{Inv}
use mo_e_mo_a_integrated_com.Dict.{Dict, lookup, insert, remove, lookup-remove, lookup_empty}
use mo_e_mo_a_integrated_com.Base.{
  ◌≤◌, String, ◌==◌, eq_iff, eq_refl, ◌≡◌, inl, inr, true, not, some, List, arith, if◌then◌else◌,
  Bool-cases, Option-cases, keep_if, is_empty, length-keep_if, contains, contains-keep_ne,
  keep_ne-NoDup,
}

abbrev pub left : String → List Queued → List Queued
left rid queue = keep_if (λ e. not (e.request_id == rid)) queue

module _ (s : Scheduler) (v : Inv s) (rid : String) (pin : Admission)
    (held : lookup rid s.pins ≡ some pin) (wait : is_queued pin.lease_state ≡ true) where
  is_entry : contains rid (ids (queue_of pin.api_key_id s.queues)) ≡ true
  is_entry = ground (arith, v.waiting pin.api_key_id rid, eq_refl pin.api_key_id)

  module _ (queue : List Queued) (at : lookup pin.api_key_id s.queues ≡ some queue)
      (queues : Dict (List Queued)) (ring : List String)
      (narrowed : (k : String)
        → queue_of k queues
          ≡ (if pin.api_key_id == k then left rid queue else queue_of k s.queues)) where
    -- Whatever becomes of the ring, as long as only the request's own entry is gone.
    leave-Inv :
        IsRing queues ring
        → total_depth queues ≤ total_depth s.queues
        → Inv (record s { pins = remove rid s.pins; queues = queues; round_robin = ring })
    leave-Inv r shallower = record {
      ring = r;
      owners_unique = v.owners_unique;
      capacity = v.capacity;
      depth = omega (arith, v.depth, shallower);
      key_depth = λ k. ground (
        arith,
        v.key_depth k,
        narrowed k,
        length-keep_if (λ e. not (e.request_id == rid)) queue,
        eq_iff pin.api_key_id k,
      );
      arrivals = λ k. ground (
        arith,
        v.arrivals k,
        narrowed k,
        in_order-keep_if s.sequence (λ e. not (e.request_id == rid)) queue,
        eq_iff pin.api_key_id k,
      );
      busy = λ h. ground (arith, v.busy, lookup_empty pin.api_key_id s.queues);
      entries_unique = λ k. ground (
        arith,
        v.entries_unique k,
        narrowed k,
        ids-keep_ne rid queue,
        keep_ne-NoDup rid (ids queue),
        eq_iff pin.api_key_id k,
      );
      waiting = λ k j. ground (
        arith,
        v.waiting k j,
        narrowed k,
        ids-keep_ne rid queue,
        contains-keep_ne rid j (ids queue),
        lookup-remove rid j s.pins,
        eq_iff pin.api_key_id k,
        eq_iff rid j,
      );
      owning = λ j. ground (arith, v.owning j, lookup-remove rid j s.pins, eq_iff rid j);
    }

  -- The queue that is left: none if it is empty.
  left-queue :
      (queue : List Queued) (k : String)
      → queue_of k (shrink pin.api_key_id (left rid queue) s.queues)
        ≡ (if pin.api_key_id == k then left rid queue else queue_of k s.queues)
  left-queue queue k = queue_of-shrink pin.api_key_id k (left rid queue) s.queues

  pub drop_queued-Inv : Inv (drop_queued rid pin (record s { pins = remove rid s.pins }))
  unfolding drop_queued shrink
  drop_queued-Inv = elim (Option-cases (lookup pin.api_key_id s.queues)) [
    | inl missing ↦ absurd (ground (arith, is_entry))
    | inr (queue, at) ↦ elim (Bool-cases (is_empty (left rid queue))) [
      | inl e ↦
          rw (at, drop_queued)
            (rw e (
              leave-Inv queue at (remove pin.api_key_id s.queues)
                (keep_if (λ key. not (key == pin.api_key_id)) s.round_robin)
                (λ k. rw e at (left-queue queue k))
                (drop-IsRing pin.api_key_id s.round_robin s.queues v.ring)
                (total_depth-drop pin.api_key_id s.queues)))
      | inr n ↦
          rw (at, drop_queued)
            (rw n (
              leave-Inv queue at (insert pin.api_key_id (left rid queue) s.queues) s.round_robin
                (λ k. rw n at (left-queue queue k))
                (narrow-IsRing pin.api_key_id s.round_robin (left rid queue) s.queues v.ring n
                  (ground arith))
                (total_depth-narrow pin.api_key_id (left rid queue) s.queues
                  (ground (arith, length-keep_if (λ e. not (e.request_id == rid)) queue)))))
    ]
  ]
