-- ===== src/Scheduler/Preservation.antt =====
-- `release` of gateway/src/dgx_moa/executor_scheduler.py keeps the scheduler's invariant.
use mo_e_mo_a_integrated_com.Scheduler.{
  local_admission, is_queued, is_acquired, Admission, Queued, Scheduler,
}
use mo_e_mo_a_integrated_com.Scheduler.Release.{
  promoted_admission, hand_slot, promote_key, promote_turn, promoted,
}
use mo_e_mo_a_integrated_com.Scheduler.Ring.{front_entry, shrink-IsRing, IsRing}
use mo_e_mo_a_integrated_com.Scheduler.Depth.{ids, total_depth-shrink, queue_of-shrink}
use mo_e_mo_a_integrated_com.Scheduler.Invariant.{waits_on, Inv}
use mo_e_mo_a_integrated_com.Dict.{
  lookup, remove, lookup-insert, lookup-remove, length-insert, insert-UniqueKeys, remove-UniqueKeys,
  length-remove, lookup_empty, empty_of_lookup,
}
use mo_e_mo_a_integrated_com.Base.{
  suc, String, ◌==◌, eq_iff, eq_refl, ◌≡◌, refl, sym, ◌∙◌, subst, true, false, Option, none, some,
  List, [], ◌∷◌, arith, get_or, length, is_empty, contains, NoDup,
}

-- The state in which `_promote` runs: the request that releases is neither pinned nor an owner.
abbrev pub freed : String → Scheduler → Scheduler
freed rid s = record s { pins = remove rid s.pins; owners = remove rid s.owners }

-- A pin waits on one key only.
waits_on_one :
    (k j : String) (o : Option Admission)
    → waits_on k o ≡ true
    → (k == j) ≡ false
    → waits_on j o ≡ false
waits_on_one k j none h d = refl
waits_on_one k j (some p) h d =
    ground (arith, eq_iff k j, eq_iff p.api_key_id k, eq_iff p.api_key_id j)

module _ (s : Scheduler) (v : Inv s) (rid : String) (owner : Admission)
    (held : lookup rid s.owners ≡ some owner) (now : String) where
  freed_slot : suc (length (remove rid s.owners)) ≡ length s.owners
  freed_slot = length-remove rid s.owners v.owners_unique (ground arith)

  pub owner_acquired : (is_acquired owner.lease_state ≡ true) × (lookup rid s.pins ≡ some owner)
  owner_acquired = ground (arith, v.owning rid)

  waits-freed :
      (k j : String) → waits_on k (lookup j (remove rid s.pins)) ≡ waits_on k (lookup j s.pins)
  waits-freed k j = ground (arith, owner_acquired, lookup-remove rid j s.pins, eq_iff rid j)

  module _ (key : String) (ring : List String) (e : Queued) (rest : List Queued)
      (r : IsRing s.queues (key ∷ ring)) (front : lookup key s.queues ≡ some (e ∷ rest)) where
    pub waits : waits_on key (lookup e.request_id s.pins) ≡ true
    waits = ground (arith, v.waiting key e.request_id, eq_refl e.request_id)

    pub not_owner : lookup e.request_id s.owners ≡ none
    not_owner = ground (arith, waits, v.owning e.request_id)

    pub later_differ : contains e.request_id (ids rest) ≡ false
    later_differ = (subst (λ q. NoDup (ids (get_or q []))) front (v.entries_unique key)).0

    hand_slot-Inv : Inv (hand_slot key ring e rest (freed rid s) now)
    unfolding hand_slot promoted_admission local_admission
    hand_slot-Inv =
        let a = promoted_admission key e (freed rid s) now in
        record {
          ring = shrink-IsRing key ring rest s.queues r;
          owners_unique =
              insert-UniqueKeys e.request_id a (remove rid s.owners)
                (remove-UniqueKeys rid s.owners v.owners_unique);
          capacity =
              ground
                (arith, freed_slot, v.capacity, length-insert e.request_id a (remove rid s.owners));
          depth = omega (arith, total_depth-shrink key e rest s.queues front, v.depth);
          arrivals =
              λ k. ground (arith, v.arrivals k, queue_of-shrink key k rest s.queues, eq_iff key k);
          key_depth =
              λ k. ground (arith, v.key_depth k, queue_of-shrink key k rest s.queues, eq_iff key k);
          busy = λ h. ground (
            arith,
            freed_slot,
            not_owner,
            v.busy,
            lookup_empty key s.queues,
            lookup-remove rid e.request_id s.owners,
            length-insert e.request_id a (remove rid s.owners),
          );
          entries_unique = λ k.
              ground (arith, v.entries_unique k, queue_of-shrink key k rest s.queues, eq_iff key k);
          waiting = λ k j. ground (
            arith,
            waits,
            later_differ,
            waits-freed k j,
            waits_on_one key k (lookup e.request_id s.pins),
            v.waiting k j,
            queue_of-shrink key k rest s.queues,
            lookup-insert e.request_id j a (remove rid s.pins),
            eq_iff key k,
            eq_iff e.request_id j,
          );
          owning = λ j. ground (
            arith,
            v.owning j,
            lookup-remove rid j s.pins,
            lookup-insert e.request_id j a (remove rid s.pins),
            lookup-remove rid j s.owners,
            lookup-insert e.request_id j a (remove rid s.owners),
            eq_iff e.request_id j,
            eq_iff rid j,
          );
        }

    -- With the ring in step with the queues, the promotion finds its entry.
    pub promote_key-eq : promote_key key ring (freed rid s) now ≡ (
      promoted e.future (promoted_admission key e (freed rid s) now),
      hand_slot key ring e rest (freed rid s) now,
    )
    unfolding promote_key
    promote_key-eq = rw (front, promote_key)

  idle-Inv : is_empty s.queues ≡ true → Inv (freed rid s)
  idle-Inv idle = record {
    ring = v.ring;
    owners_unique = remove-UniqueKeys rid s.owners v.owners_unique;
    capacity = omega (arith, freed_slot, v.capacity);
    depth = v.depth;
    key_depth = v.key_depth;
    busy = λ h. cc;
    arrivals = v.arrivals;
    entries_unique = v.entries_unique;
    waiting = λ k j. v.waiting k j ∙ sym (waits-freed k j);
    owning =
        λ j. ground (arith, v.owning j, lookup-remove rid j s.pins, lookup-remove rid j s.owners);
  }

  pub promote_turn-Inv :
      (ring : List String) → IsRing s.queues ring → Inv (promote_turn ring (freed rid s) now).1
  unfolding promote_turn
  promote_turn-Inv [] r = idle-Inv (empty_of_lookup s.queues (λ k. sym (r.keys k)))
  promote_turn-Inv (key ∷ ring) r =
      let (e, rest, front) = front_entry key ring s.queues r in
      rw (promote_key-eq key ring e rest r front) (hand_slot-Inv key ring e rest r front)

module _ (s : Scheduler) (v : Inv s) (rid : String) (pin : Admission)
    (held : lookup rid s.pins ≡ some pin) where
  -- A request that is pinned to the remote Executor leaves.
  pub drop_remote-Inv :
      lookup rid s.owners ≡ none
      → is_queued pin.lease_state ≡ false
      → Inv (record s { pins = remove rid s.pins })
  drop_remote-Inv free other = record {
    ring = v.ring;
    owners_unique = v.owners_unique;
    capacity = v.capacity;
    depth = v.depth;
    key_depth = v.key_depth;
    busy = v.busy;
    arrivals = v.arrivals;
    entries_unique = v.entries_unique;
    waiting = λ k j. ground (arith, v.waiting k j, lookup-remove rid j s.pins, eq_iff rid j);
    owning = λ j. ground (arith, v.owning j, lookup-remove rid j s.pins, eq_iff rid j);
  }
