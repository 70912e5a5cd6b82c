-- ===== src/Scheduler/Release.antt =====
-- gateway/src/dgx_moa/executor_scheduler.py: `_promote`, `release`, and how `acquire` ends.
use mo_e_mo_a_integrated_com.Scheduler.{
  set_local_enabled, current_pin, local_admission, admit, Request, is_queued, Admission, Queued,
  Scheduler, Result, queue_timeout, cancelled, ok, err,
}
use mo_e_mo_a_integrated_com.Dict.{Dict, lookup, insert, remove}
use mo_e_mo_a_integrated_com.Base.{
  ℕ, ◌+◌, String, ◌==◌, Bool, not, Option, none, some, List, [], ◌∷◌, ◌++◌, if◌then◌else◌, get_or,
  keep_if, is_empty,
}

-- rotate(-1)
abbrev pub rotate : List String → List String
rotate [] = []
rotate (k ∷ ks) = ks ++ k ∷ []

-- The ring that `_promote` pops from: the key that released goes last, if another key waits.
unfoldable pub turn : String → List String → List String
turn last_key [] = []
turn last_key (k ∷ []) = k ∷ []
turn last_key (k ∷ j ∷ ks) = if k == last_key then rotate (k ∷ j ∷ ks) else k ∷ j ∷ ks

-- `faulted` is the exception of a missing queue (KeyError) or an empty one (IndexError).
pub data Promotion : Type 0 where
  nobody faulted : Promotion
  promoted : ℕ → Admission → Promotion

-- The queues after the first entry of the key's queue is taken, with `rest` left.
unfoldable pub shrink : String → List Queued → Dict (List Queued) → Dict (List Queued)
shrink key rest queues = if is_empty rest then remove key queues else insert key rest queues

unfoldable pub promoted_admission : String → Queued → Scheduler → String → Admission
unfolding local_admission
promoted_admission key e s now =
    local_admission e.request_id key now (s.epoch + 1) "round_robin_promoted"

-- The first entry `e` of the key's queue, followed by `rest`, takes the slot.
unfoldable pub hand_slot :
    String → List String → Queued → List Queued → Scheduler → String → Scheduler
hand_slot key ring e rest s now = record s {
  owners = insert e.request_id (promoted_admission key e s now) s.owners;
  queues = shrink key rest s.queues;
  round_robin = if is_empty rest then ring else ring ++ key ∷ [];
  pins = insert e.request_id (promoted_admission key e s now) s.pins;
  epoch = s.epoch + 1;
}

unfoldable pub promote_key : String → List String → Scheduler → String → Promotion × Scheduler
unfolding shrink promoted_admission hand_slot
promote_key key ring s now = elim (get_or (lookup key s.queues) []) [
  | [] ↦ (faulted, record s { round_robin = ring })
  | e ∷ rest ↦ (promoted e.future (promoted_admission key e s now), hand_slot key ring e rest s now)
]

unfoldable pub promote_turn : List String → Scheduler → String → Promotion × Scheduler
promote_turn [] s now = (nobody, s)
promote_turn (key ∷ ring) s now = promote_key key ring s now

unfoldable pub promote : String → Scheduler → String → Promotion × Scheduler
unfolding promote_turn
promote last_key s now = promote_turn (turn last_key s.round_robin) s now

-- A queued request leaves its queue; a queue that is left empty goes, and its key leaves the ring.
unfoldable pub drop_queued : String → Admission → Scheduler → Scheduler
drop_queued request_id pin s = elim (lookup pin.api_key_id s.queues) [
  | none ↦ s
  | some queue ↦
      let rest = keep_if (λ e. not (e.request_id == request_id)) queue in
      if is_empty rest
      then record s {
        queues = remove pin.api_key_id s.queues;
        round_robin = keep_if (λ key. not (key == pin.api_key_id)) s.round_robin;
      }
      else record s { queues = insert pin.api_key_id rest s.queues }
]

-- The result of `release`, and the promotion whose future the loop resolves.
pub data Released : Type 0 where
  unknown : Released
  released : Promotion → Released

unfoldable pub release_pinned : String → Admission → Scheduler → String → Released × Scheduler
release_pinned request_id pin s now = elim (lookup request_id s.owners) [
  | some owner ↦
      let (p, s') =
        promote owner.api_key_id (record s { owners = remove request_id s.owners }) now in
      (released p, s')
  | none ↦ (released nobody, if is_queued pin.lease_state then drop_queued request_id pin s else s)
]

unfoldable pub release : String → Scheduler → String → Released × Scheduler
unfolding release_pinned
release request_id s now = elim (lookup request_id s.pins) [
  | none ↦ (unknown, s)
  | some pin ↦ release_pinned request_id pin (record s { pins = remove request_id s.pins }) now
]

-- How the await ends: the future's result, the timeout, or the cancellation of the caller.
pub data WaitEnd : Type 0 where
  resolved : Admission → WaitEnd
  timed_out was_cancelled : WaitEnd

unfoldable pub finish_wait : String → WaitEnd → Scheduler → String → Result Admission × Scheduler
finish_wait request_id (resolved a) s now = (ok a, s)
finish_wait request_id timed_out s now = (err queue_timeout, (release request_id s now).1)
finish_wait request_id was_cancelled s now = (err cancelled, (release request_id s now).1)

-- `pinned`
unfoldable pub pinned : Scheduler → String → Option Admission
pinned = current_pin

-- One event at the scheduler: what callers and the event loop can make it do.
pub data Event : Type 0 where
  acquires : Request → String → ℕ → Event
  releases : String → String → Event
  ends : String → WaitEnd → String → Event
  enables : Bool → Event

unfoldable pub step : Scheduler → Event → Scheduler
step s (acquires r now future) = (admit s r now future).1
step s (releases request_id now) = (release request_id s now).1
step s (ends request_id w now) = (finish_wait request_id w s now).1
step s (enables b) = set_local_enabled b s

unfoldable pub run : Scheduler → List Event → Scheduler
run s [] = s
run s (e ∷ es) = run (step s e) es
