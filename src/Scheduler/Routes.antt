-- ===== src/Scheduler/Routes.antt =====
-- What `acquire` of gateway/src/dgx_moa/executor_scheduler.py answers, and what it leaves as it was.
use mo_e_mo_a_integrated_com.Scheduler.{
  refresh, current_pin, remote_admission, local_admission, pin_remote, pin_local, queued_admission,
  enqueue, admit_busy, admit_new, admit_pinned, admit_current, admit, Request, admitted, waiting,
  is_queued, is_high_risk, validate, Admission, Scheduler, SchedulerError, local_primary, ok, err,
}
use mo_e_mo_a_integrated_com.Dict.{lookup, lookup-insert}
use mo_e_mo_a_integrated_com.Base.{
  ℕ, String, ◌==◌, eq_refl, ◌≡◌, ◌∙◌, ◌⊎◌, inl, inr, true, false, ◌&&◌, none, some, arith,
  Option-cases,
}

pub current_pin-none :
    (s : Scheduler) (rid : String) → lookup rid s.pins ≡ none → current_pin s rid ≡ none
unfolding current_pin
current_pin-none s rid e = rw (e, current_pin)

pub current_pin-some :
    (s : Scheduler) (rid : String) (p : Admission)
    → lookup rid s.pins ≡ some p
    → current_pin s rid ≡ some (refresh s rid p)
unfolding current_pin
current_pin-some s rid p e = rw (e, current_pin)

-- A refused request changes nothing.
pub admit_error_unchanged :
    (s : Scheduler) (r : Request) (now : String) (future : ℕ) (e : SchedulerError)
    → (admit s r now future).0 ≡ err e
    → (admit s r now future).1 ≡ s
unfolding admit admit_current admit_pinned admit_new admit_busy pin_remote pin_local enqueue
admit_error_unchanged s r now future e h = ground arith

-- The pin that an admission leaves: settled, and under the request's own key.
abbrev Settled : Scheduler → Request → Admission → Type 0
Settled s r a =
    (lookup r.request_id s.pins ≡ some a)
    × (is_queued a.lease_state ≡ false)
    × ((a.api_key_id == r.api_key_id) ≡ true)

admit_new-Settled :
    (s : Scheduler) (r : Request) (now : String) (future : ℕ) (a : Admission)
    → (admit_new s r now future).0 ≡ ok (admitted a)
    → Settled (admit_new s r now future).1 r a
unfolding admit_new admit_busy pin_remote pin_local enqueue remote_admission local_admission
admit_new-Settled s r now future a h = ground (
  arith,
  eq_refl r.request_id,
  eq_refl r.api_key_id,
  lookup-insert r.request_id r.request_id a s.pins,
)

admit_pinned-Settled :
    (s : Scheduler) (r : Request) (p a : Admission)
    → lookup r.request_id s.pins ≡ some p
    → (admit_pinned s r (refresh s r.request_id p)).0 ≡ ok (admitted a)
    → Settled (admit_pinned s r (refresh s r.request_id p)).1 r a
unfolding admit_pinned refresh
admit_pinned-Settled s r p a l h = ground arith

admit_current-Settled :
    (s : Scheduler) (r : Request) (now : String) (future : ℕ) (a : Admission)
    → (admit_current s r now future).0 ≡ ok (admitted a)
    → Settled (admit_current s r now future).1 r a
unfolding admit_current
admit_current-Settled s r now future a h = elim (Option-cases (lookup r.request_id s.pins)) [
  | inl free ↦
      let c = current_pin-none s r.request_id free in
      rw (c, admit_current) (admit_new-Settled s r now future a (rw (c, admit_current) at h))
  | inr (p, e) ↦
      let c = current_pin-some s r.request_id p e in
      rw (c, admit_current) (admit_pinned-Settled s r p a e (rw (c, admit_current) at h))
]

refresh_settled :
    (s : Scheduler) (rid : String) (a : Admission)
    → is_queued a.lease_state ≡ false
    → refresh s rid a ≡ a
unfolding refresh
refresh_settled s rid a h = ground arith

admit-Settled :
    (s : Scheduler) (r : Request) (a : Admission) (now : String) (future : ℕ)
    → Settled s r a
    → admit_current s r now future ≡ (ok (admitted a), s)
unfolding admit_current admit_pinned
admit-Settled s r a now future k =
    rw (current_pin-some s r.request_id a k.0, admit_current)
      (rw (refresh_settled s r.request_id a k.1) (ground (arith, k)))

admit_valid :
    (s : Scheduler) (r : Request) (now : String) (future : ℕ)
    → validate r.api_key_id r.request_id ≡ none
    → admit s r now future ≡ admit_current s r now future
unfolding admit
admit_valid s r now future valid = rw (valid, admit)

admit_invalid :
    (s : Scheduler) (r : Request) (now : String) (future : ℕ) (e : SchedulerError)
    → validate r.api_key_id r.request_id ≡ some e
    → admit s r now future ≡ (err e, s)
unfolding admit
admit_invalid s r now future e invalid = rw (invalid, admit)

-- Asked again, at any later moment with nothing in between, an admitted request gets the same
-- admission, and nothing changes.
pub admit_again :
    (s : Scheduler) (r : Request) (now now' : String) (future future' : ℕ) (a : Admission)
    → (admit s r now future).0 ≡ ok (admitted a)
    → admit (admit s r now future).1 r now' future' ≡ (ok (admitted a), (admit s r now future).1)
admit_again s r now now' future future' a h =
    elim (Option-cases (validate r.api_key_id r.request_id)) [
      | inl valid ↦
          let c = admit_valid s r now future valid in
          rw c (
            admit_valid (admit_current s r now future).1 r now' future' valid
            ∙ admit-Settled (admit_current s r now future).1 r a now' future'
                (admit_current-Settled s r now future a (rw c at h)))
      | inr (e, invalid) ↦ cc (admit_invalid s r now future e invalid, h)
    ]

admit_fresh :
    (s : Scheduler) (r : Request) (now : String) (future : ℕ)
    → lookup r.request_id s.pins ≡ none
    → admit_current s r now future ≡ admit_new s r now future
unfolding admit_current
admit_fresh s r now future free = rw (current_pin-none s r.request_id free, admit_current)

-- A request of high or critical risk never goes remote while the local Executor is available.
pub admit_high_risk :
    (s : Scheduler) (r : Request) (now : String) (future : ℕ) (a : Admission)
    → is_high_risk r.risk ≡ true
    → r.local_available && s.local_enabled ≡ true
    → lookup r.request_id s.pins ≡ none
    → ((admit s r now future).0 ≡ ok (admitted a)) ⊎ ((admit s r now future).0 ≡ ok (waiting a))
    → a.selected_executor ≡ local_primary
unfolding admit_new admit_busy pin_local enqueue local_admission queued_admission
admit_high_risk s r now future a risky here free h =
    elim (Option-cases (validate r.api_key_id r.request_id)) [
      | inl valid ↦
          ground (arith, admit_valid s r now future valid, admit_fresh s r now future free)
      | inr (e, invalid) ↦ ground (arith, admit_invalid s r now future e invalid)
    ]
