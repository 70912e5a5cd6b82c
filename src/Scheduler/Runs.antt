-- ===== src/Scheduler/Runs.antt =====
-- Every history of calls of gateway/src/dgx_moa/executor_scheduler.py.
use mo_e_mo_a_integrated_com.Scheduler.{
  set_local_enabled, refresh, admit_busy, admit_new, admit_pinned, admit_current, admit, Request,
  is_queued, is_high_risk, new, validate, total_depth, Admission, Scheduler, ok,
}
use mo_e_mo_a_integrated_com.Scheduler.Routes.{current_pin-none, current_pin-some}
use mo_e_mo_a_integrated_com.Scheduler.Release.{
  turn, promote, release_pinned, release, finish_wait, step, run, WaitEnd, Event, resolved,
  timed_out, was_cancelled, acquires, releases, ends, enables,
}
use mo_e_mo_a_integrated_com.Scheduler.Ring.{turn-IsRing}
use mo_e_mo_a_integrated_com.Scheduler.Invariant.{
  new-Inv, pin_remote-Inv, pin_local-Inv, enqueue-Inv, Inv,
}
use mo_e_mo_a_integrated_com.Scheduler.Preservation.{promote_turn-Inv, drop_remote-Inv}
use mo_e_mo_a_integrated_com.Scheduler.Leaving.{drop_queued-Inv}
use mo_e_mo_a_integrated_com.Dict.{lookup, remove}
use mo_e_mo_a_integrated_com.Base.{
  ℕ, String, ◌≡◌, inl, inr, Bool, false, not, ◌&&◌, ◌||◌, none, some, List, [], ◌∷◌, arith, ltb,
  leb, Bool-cases, get_or, Option-cases, length, is_empty,
}

module _ (s : Scheduler) (v : Inv s) where
  admit_busy-Inv :
      (r : Request) (now : String) (future : ℕ)
      → lookup r.request_id s.pins ≡ none
      → ltb (length s.owners) s.max_local_concurrency && is_empty s.queues ≡ false
      → Inv (admit_busy s r now future).1
  unfolding admit_busy
  admit_busy-Inv r now future fresh full = elim (Bool-cases overflows) [
    | inl o ↦ rw o (pin_remote-Inv s v r fresh now _)
    | inr o ↦ rw o (elim (Bool-cases no_room) [
      | inl h ↦ rw h v
      | inr h ↦ rw h (enqueue-Inv s v r fresh future full (ground arith) (ground arith))
    ])
  ]
    where
      overflows : Bool
      overflows =
          not (is_high_risk r.risk)
          && r.flash_available
          && leb s.max_total_local_queue (total_depth s.queues)

      no_room : Bool
      no_room =
          leb s.same_key_max_local_queue (length (get_or (lookup r.api_key_id s.queues) []))
          || leb s.max_total_local_queue (total_depth s.queues)

  admit_new-Inv :
      (r : Request) (now : String) (future : ℕ)
      → lookup r.request_id s.pins ≡ none
      → Inv (admit_new s r now future).1
  unfolding admit_new
  admit_new-Inv r now future fresh =
      elim (Bool-cases (not (r.local_available && s.local_enabled))) [
        | inl remote ↦ rw remote (elim (Bool-cases (not r.flash_available)) [
          | inl h ↦ rw h v
          | inr h ↦ rw h (pin_remote-Inv s v r fresh now _)
        ])
        | inr here ↦
            rw here
              (elim (Bool-cases
                (ltb (length s.owners) s.max_local_concurrency && is_empty s.queues)) [
                  | inl h ↦ rw h (pin_local-Inv s v r fresh now (ground arith) (ground arith))
                  | inr h ↦ rw h (admit_busy-Inv r now future fresh h)
                ])
      ]

  admit_pinned-Inv : (r : Request) (p : Admission) → Inv (admit_pinned s r p).1
  unfolding admit_pinned
  admit_pinned-Inv r p = ground (arith, v)

  admit_current-Inv :
      (r : Request) (now : String) (future : ℕ) → Inv (admit_current s r now future).1
  unfolding admit_current
  admit_current-Inv r now future = elim (Option-cases (lookup r.request_id s.pins)) [
    | inl fresh ↦
        rw (current_pin-none s r.request_id fresh, admit_current) (admit_new-Inv r now future fresh)
    | inr (p, e) ↦
        rw (current_pin-some s r.request_id p e, admit_current)
          (admit_pinned-Inv r (refresh s r.request_id p))
  ]

  admit-Inv : (r : Request) (now : String) (future : ℕ) → Inv (admit s r now future).1
  unfolding admit
  admit-Inv r now future = elim (Option-cases (validate r.api_key_id r.request_id)) [
    | inl valid ↦ rw (valid, admit) (admit_current-Inv r now future)
    | inr (e, invalid) ↦ rw (invalid, admit) v
  ]

  release_pinned-Inv :
      (rid : String) (pin : Admission) (now : String)
      → lookup rid s.pins ≡ some pin
      → Inv (release_pinned rid pin (record s { pins = remove rid s.pins }) now).1
  unfolding release_pinned promote
  release_pinned-Inv rid pin now held = elim (Option-cases (lookup rid s.owners)) [
    | inl other ↦
        rw (other, release_pinned)
          (elim (Bool-cases (is_queued pin.lease_state)) [
            | inl w ↦ rw w (drop_queued-Inv s v rid pin held w)
            | inr w ↦ rw w (drop_remote-Inv s v rid pin held other w)
          ])
    | inr (owner, o) ↦
        rw (o, release_pinned)
          (promote_turn-Inv s v rid owner o now (turn owner.api_key_id s.round_robin)
            (turn-IsRing owner.api_key_id s.queues s.round_robin v.ring))
  ]

  release-Inv : (rid now : String) → Inv (release rid s now).1
  unfolding release
  release-Inv rid now = elim (Option-cases (lookup rid s.pins)) [
    | inl missing ↦ rw (missing, release) v
    | inr (pin, held) ↦ rw (held, release) (release_pinned-Inv rid pin now held)
  ]

  finish_wait-Inv : (rid : String) (w : WaitEnd) (now : String) → Inv (finish_wait rid w s now).1
  unfolding finish_wait
  finish_wait-Inv rid (resolved a) now = v
  finish_wait-Inv rid timed_out now = release-Inv rid now
  finish_wait-Inv rid was_cancelled now = release-Inv rid now

  set_local_enabled-Inv : (b : Bool) → Inv (set_local_enabled b s)
  unfolding set_local_enabled
  set_local_enabled-Inv b = record {
    ring = v.ring;
    owners_unique = v.owners_unique;
    capacity = v.capacity;
    depth = v.depth;
    key_depth = v.key_depth;
    busy = v.busy;
    arrivals = v.arrivals;
    entries_unique = v.entries_unique;
    waiting = v.waiting;
    owning = v.owning;
  }

  -- Every event keeps the invariant.
  pub step-Inv : (e : Event) → Inv (step s e)
  unfolding step
  step-Inv (acquires r now future) = admit-Inv r now future
  step-Inv (releases rid now) = release-Inv rid now
  step-Inv (ends rid w now) = finish_wait-Inv rid w now
  step-Inv (enables b) = set_local_enabled-Inv b

run-Inv : (s : Scheduler) (es : List Event) → Inv s → Inv (run s es)
unfolding run
run-Inv s [] v = v
run-Inv s (e ∷ es) v = run-Inv (step s e) es (step-Inv s v e)

-- Whatever calls are made of a scheduler that its constructor accepts, the invariant holds after them.
pub run-new-Inv :
    (c k t q : ℕ) (s : Scheduler) (es : List Event) → new c k t q ≡ ok s → Inv (run s es)
run-new-Inv c k t q s es h = run-Inv s es (new-Inv c k t q s h)
