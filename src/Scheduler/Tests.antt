-- ===== src/Scheduler/Tests.antt =====
-- Runs of the scheduler of gateway/src/dgx_moa/executor_scheduler.py on small inputs.
use mo_e_mo_a_integrated_com.Scheduler.Runs.{run-new-Inv}
use mo_e_mo_a_integrated_com.Scheduler.Turns.{ServesFairly, release_serves, release-run-ne-faulted}
use mo_e_mo_a_integrated_com.Scheduler.Routes.{admit_error_unchanged, admit_again, admit_high_risk}
use mo_e_mo_a_integrated_com.Scheduler.{
  queue_position, current_pin, local_admission, pin_local, append_entry, enqueue, admit_busy,
  admit_new, admit_current, admit, Request, admitted, initial, new, validate, total_depth, Risk,
  Admission, Scheduler, local_primary, low, high, high_risk_queue_full, ok,
}
use mo_e_mo_a_integrated_com.Scheduler.Release.{
  release, step, run, Event, faulted, released, acquires,
}
use mo_e_mo_a_integrated_com.Scheduler.Invariant.{Inv}
use mo_e_mo_a_integrated_com.Dict.{lookup, insert, keys}
use mo_e_mo_a_integrated_com.Base.{String, ◌≡◌, refl, ◌≢◌, inl, true, List, [], ◌∷◌}

abbrev ask : String → String → Risk → Request
ask key id risk = record {
  api_key_id = key;
  request_id = id;
  risk = risk;
  flash_available = true;
  local_available = true;
}

abbrev one_slot : Scheduler
one_slot = initial 1 1 2 45

-- `r1` holds the slot; `r2` of the same key and `r3` of another wait.
abbrev morning : List Event
morning =
    acquires (ask "a" "r1" low) "t1" 1
    ∷ acquires (ask "a" "r2" low) "t2" 2
    ∷ acquires (ask "b" "r3" high) "t3" 3
    ∷ []

one_slot-new : new 1 1 2 45 ≡ ok one_slot
unfolding new initial
one_slot-new = refl

morning_state :
    let s = run one_slot morning in
    (keys s.owners ≡ "r1" ∷ []) × (s.round_robin ≡ "a" ∷ "b" ∷ []) × (total_depth s.queues ≡ 2)
unfolding run step admit admit_current current_pin admit_new admit_busy pin_local enqueue
    append_entry validate lookup insert total_depth queue_position initial
morning_state = (refl, refl, refl)

run-new-Inv_example : Inv (run one_slot morning)
run-new-Inv_example = run-new-Inv 1 1 2 45 one_slot morning one_slot-new

release-run-ne-faulted_example : (release "r1" (run one_slot morning) "t4").0 ≢ released faulted
release-run-ne-faulted_example =
    release-run-ne-faulted 1 1 2 45 one_slot morning "r1" "t4" one_slot-new

abbrev first_lease : Admission
first_lease = local_admission "r1" "a" "t1" 1 "local_idle"

release_serves_example :
    ServesFairly (run one_slot morning) "r1" first_lease (release "r1" (run one_slot morning) "t4")
unfolding run step admit admit_current current_pin admit_new admit_busy pin_local enqueue
    append_entry validate lookup insert total_depth queue_position initial local_admission
release_serves_example =
    release_serves (run one_slot morning) (run-new-Inv 1 1 2 45 one_slot morning one_slot-new) "r1"
      first_lease refl "t4" refl

admit_error_unchanged_example :
    (admit (run one_slot morning) (ask "a" "r4" high) "t4" 4).1 ≡ run one_slot morning
unfolding run step admit admit_current current_pin admit_new admit_busy pin_local enqueue
    append_entry validate lookup insert total_depth queue_position initial
admit_error_unchanged_example =
    admit_error_unchanged (run one_slot morning) (ask "a" "r4" high) "t4" 4 high_risk_queue_full
      refl

admit_again_example :
    admit (admit one_slot (ask "a" "r1" low) "t1" 1).1 (ask "a" "r1" low) "t2" 2
    ≡ (ok (admitted first_lease), (admit one_slot (ask "a" "r1" low) "t1" 1).1)
unfolding admit admit_current current_pin admit_new pin_local validate lookup initial
    local_admission
admit_again_example = admit_again one_slot (ask "a" "r1" low) "t1" "t2" 1 2 first_lease refl

admit_high_risk_example : first_lease.selected_executor ≡ local_primary
unfolding admit admit_current current_pin admit_new pin_local validate lookup initial
    local_admission
admit_high_risk_example =
    admit_high_risk one_slot (ask "a" "r1" high) "t1" 1 first_lease refl refl refl (inl refl)
