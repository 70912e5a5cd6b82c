-- ===== src/Scheduler/Turns.antt =====
-- Who gets the slot that `release` of gateway/src/dgx_moa/executor_scheduler.py frees.
use mo_e_mo_a_integrated_com.Scheduler.{local_admission, new, Admission, Queued, Scheduler, ok}
use mo_e_mo_a_integrated_com.Scheduler.Runs.{run-new-Inv}
use mo_e_mo_a_integrated_com.Scheduler.Release.{
  turn, promoted_admission, hand_slot, promote_turn, promote, release_pinned, release, run,
  Released, Event, faulted, promoted, released,
}
use mo_e_mo_a_integrated_com.Scheduler.Ring.{turn-IsRing, front_entry, IsRing}
use mo_e_mo_a_integrated_com.Scheduler.Depth.{queue_of, queue_of-shrink}
use mo_e_mo_a_integrated_com.Scheduler.Arrivals.{precedes, in_order}
use mo_e_mo_a_integrated_com.Scheduler.Invariant.{Inv}
use mo_e_mo_a_integrated_com.Scheduler.Preservation.{freed, owner_acquired, waits, promote_key-eq}
use mo_e_mo_a_integrated_com.Dict.{lookup, remove, lookup-insert, lookup-remove, empty_of_lookup}
use mo_e_mo_a_integrated_com.Base.{
  ℕ, String, ◌==◌, eq_iff, eq_refl, ◌≡◌, refl, sym, ◌∙◌, subst, ◌≢◌, inl, inr, true, false, none,
  some, List, [], ◌∷◌, arith, is_some, get_or, Option-cases, is_empty, contains, NoDup,
}

-- The slot goes to the request that has waited longest among those of its key.
pub record Serves (s : Scheduler) (rid : String) (r : Released × Scheduler) : Type 0 where
  pub future : ℕ
  pub admission : Admission
  pub entry : Queued
  pub rest : List Queued
  pub result : r.0 ≡ released (promoted future admission)
  pub earliest : precedes entry rest ≡ true
  pub front : queue_of admission.api_key_id s.queues ≡ entry ∷ rest
  pub served : (admission.request_id ≡ entry.request_id) × (future ≡ entry.future)
  pub leased : lookup admission.request_id r.1.owners ≡ some admission
  pub gone : lookup rid r.1.pins ≡ none
  pub dequeued : queue_of admission.api_key_id r.1.queues ≡ rest

module _ (s : Scheduler) (v : Inv s) (rid : String) (owner : Admission)
    (held : lookup rid s.owners ≡ some owner) (now : String) where
  release_owner :
      release rid s now
      ≡ (let (p, s') = promote owner.api_key_id (freed rid s) now in (released p, s'))
  unfolding release release_pinned
  release_owner =
      rw ((owner_acquired s v rid owner held now).1, release) (rw (held, release_pinned))

  -- The turn of a key whose queue begins with an entry.
  module _ (key : String) (ring : List String) (e : Queued) (rest : List Queued)
      (r : IsRing s.queues (key ∷ ring)) (front : lookup key s.queues ≡ some (e ∷ rest)) where
    abbrev turned : Released × Scheduler
    turned = let (p, s') = promote_turn (key ∷ ring) (freed rid s) now in (released p, s')

    turned-eq : turned ≡ (
      released (promoted e.future (promoted_admission key e (freed rid s) now)),
      hand_slot key ring e rest (freed rid s) now,
    )
    unfolding promote_turn
    turned-eq = rw (promote_key-eq s v rid owner held now key ring e rest r front)

    Serves-turned : (x : Serves s rid turned) × (x.admission.api_key_id ≡ key)
    unfolding hand_slot promoted_admission local_admission
    Serves-turned = rw turned-eq (
      record {
        future = e.future;
        admission = a;
        entry = e;
        rest = rest;
        result = refl;
        earliest =
            ground
              (arith, subst (λ q. in_order s.sequence (get_or q []) ≡ true) front (v.arrivals key));
        front = rw front;
        served = (refl, refl);
        leased = ground (
          arith,
          lookup-insert e.request_id e.request_id a (remove rid s.owners),
          eq_refl e.request_id,
        );
        gone = ground (
          arith,
          lookup-insert e.request_id rid a (remove rid s.pins),
          lookup-remove rid rid s.pins,
          eq_refl rid,
          eq_iff e.request_id rid,
          owner_acquired s v rid owner held now,
          waits s v rid owner held now key ring e rest r front,
        );
        dequeued = ground (arith, queue_of-shrink key key rest s.queues, eq_refl key);
      },
      refl,
    )
      where
        a : Admission
        a = promoted_admission key e (freed rid s) now

-- The key at the front of the ring, once it has turned, is not the one that released, if the ring
-- has another.
front-turn :
    (last j : String) (ring : List String) (key : String) (rest : List String)
    → NoDup ring
    → contains j ring ≡ true
    → (j == last) ≡ false
    → turn last ring ≡ key ∷ rest
    → (key == last) ≡ false
unfolding turn
front-turn last j [] key rest d c n h = cc
front-turn last j (a ∷ []) key rest d c n h =
    ground (arith, eq_iff a j, eq_iff key last, eq_iff j last)
front-turn last j (a ∷ b ∷ ks) key rest d c n h =
    ground (arith, eq_iff a last, eq_iff b last, eq_iff key last, eq_iff b a)

abbrev Waits : Scheduler → String → Type 0
Waits s key = is_some (lookup key s.queues) ≡ true

turn-nonempty : (last : String) (ring : List String) → is_empty (turn last ring) ≡ is_empty ring
unfolding turn
turn-nonempty last [] = refl
turn-nonempty last (a ∷ []) = refl
turn-nonempty last (a ∷ b ∷ ks) = ground arith

-- The slot goes to a key other than the owner's, if one waits.
abbrev pub ServesFairly : Scheduler → String → Admission → Released × Scheduler → Type 0
ServesFairly s rid owner r =
    (x : Serves s rid r) × ((j : String)
      → Waits s j
      → (j == owner.api_key_id) ≡ false
      → (x.admission.api_key_id == owner.api_key_id) ≡ false)

module _ (s : Scheduler) (v : Inv s) (rid : String) (owner : Admission)
    (held : lookup rid s.owners ≡ some owner) (now : String) where
  serve_ring :
      (ring : List String)
      → turn owner.api_key_id s.round_robin ≡ ring
      → is_empty ring ≡ false
      → ServesFairly s rid owner
          (let (p, s') = promote_turn ring (freed rid s) now in (released p, s'))
  serve_ring [] t n = cc
  serve_ring (key ∷ ring) t n =
      let r = turn-IsRing owner.api_key_id s.queues s.round_robin v.ring in
      let r' = subst (IsRing s.queues) t r in
      let (e, rest, front) = front_entry key ring s.queues r' in
      let (x, k) = Serves-turned s v rid owner held now key ring e rest r' front in
      (
        x,
        λ j w d. rw k (
            front-turn owner.api_key_id j s.round_robin key ring v.ring.unique
              (ground (arith, v.ring.keys j)) d t),
      )

  release_promotes : release rid s now ≡ (
      let (p, s') = promote_turn (turn owner.api_key_id s.round_robin) (freed rid s) now in
      (released p, s'))
  unfolding promote
  release_promotes = release_owner s v rid owner held now

  waiting_ring : is_empty s.queues ≡ false → is_empty (turn owner.api_key_id s.round_robin) ≡ false
  waiting_ring n = turn-nonempty owner.api_key_id s.round_robin ∙ ring_nonempty s.round_robin v.ring
    where
      ring_nonempty : (ring : List String) → IsRing s.queues ring → is_empty ring ≡ false
      ring_nonempty [] r = cc (n, empty_of_lookup s.queues (λ k. sym (r.keys k)))
      ring_nonempty (k ∷ ks) r = refl

  -- When an owner leaves while requests wait, the slot goes to the request that has waited longest
  -- among those of its key, by their sequence numbers, and to a key other than the owner's if one waits.
  pub release_serves : is_empty s.queues ≡ false → ServesFairly s rid owner (release rid s now)
  release_serves n =
      subst (ServesFairly s rid owner) (sym release_promotes)
        (serve_ring (turn owner.api_key_id s.round_robin) refl (waiting_ring n))

  promote_ring-ne-faulted :
      (ring : List String)
      → IsRing s.queues ring
      → (promote_turn ring (freed rid s) now).0 ≢ faulted
  unfolding promote_turn
  promote_ring-ne-faulted [] r h = cc
  promote_ring-ne-faulted (key ∷ ring) r h =
      let (e, rest, front) = front_entry key ring s.queues r in
      cc (promote_key-eq s v rid owner held now key ring e rest r front, h)

  release_owner-ne-faulted : (release rid s now).0 ≢ released faulted
  release_owner-ne-faulted h =
      promote_ring-ne-faulted (turn owner.api_key_id s.round_robin)
        (turn-IsRing owner.api_key_id s.queues s.round_robin v.ring)
        (ground (arith, release_promotes, h))

release-ne-faulted :
    (s : Scheduler) → Inv s → (rid now : String) → (release rid s now).0 ≢ released faulted
unfolding release release_pinned
release-ne-faulted s v rid now h = elim (Option-cases (lookup rid s.owners)) [
  | inl free ↦ ground (arith, h)
  | inr (owner, held) ↦ release_owner-ne-faulted s v rid owner held now h
]

-- After any history of calls, `release` finds what it pops: no KeyError and no IndexError.
pub release-run-ne-faulted :
    (c k t q : ℕ) (s : Scheduler) (es : List Event) (rid now : String)
    → new c k t q ≡ ok s
    → (release rid (run s es) now).0 ≢ released faulted
release-run-ne-faulted c k t q s es rid now h =
    release-ne-faulted (run s es) (run-new-Inv c k t q s es h) rid now
