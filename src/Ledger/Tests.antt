-- ===== src/Ledger/Tests.antt =====
-- Runs of gateway/src/dgx_moa/actions/ledger.py on small inputs.
use mo_e_mo_a_integrated_com.Ledger.{
  Executions, record_failure, record_success, is_blocked, to_dict, from_dict, failed, blocked,
}
use mo_e_mo_a_integrated_com.Ledger.Histories.{
  apply_event, ledger_after, has_failed_last, is_blocked-ledger_after, from_dict-to_dict, Event,
  fails, succeeds,
}
use mo_e_mo_a_integrated_com.Dict.{lookup, remove, insert}
use mo_e_mo_a_integrated_com.Base.{◌≡◌, refl, true, false, List, [], ◌∷◌}

abbrev plain : Executions
plain = λ semantic revision. revision

abbrev history : List Event
history =
    fails "build" "r2" "TIMEOUT" failed
    ∷ succeeds "test"
    ∷ fails "test" "r1" "TOOL_EXECUTION_FAILURE" blocked
    ∷ []

is_blocked-ledger_after_example :
    is_blocked "build" "r2" (ledger_after plain history) ≡ has_failed_last "build" "r2" history
is_blocked-ledger_after_example = is_blocked-ledger_after plain history "build" "r2"

-- The failed action is blocked, the one that has succeeded since is not.
blocks :
    (is_blocked "build" "r2" (ledger_after plain history) ≡ true)
    × (is_blocked "test" "r1" (ledger_after plain history) ≡ false)
unfolding is_blocked ledger_after apply_event record_failure record_success insert lookup remove
blocks = (refl, refl)

from_dict-to_dict_example :
    from_dict (to_dict (ledger_after plain history)) ≡ ledger_after plain history
from_dict-to_dict_example = from_dict-to_dict plain history
