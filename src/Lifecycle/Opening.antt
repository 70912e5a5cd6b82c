-- ===== src/Lifecycle/Opening.antt =====
-- gateway/src/dgx_moa/lifecycle.py: the rows that `LifecycleStore.__init__` writes in a new database.
use mo_e_mo_a_integrated_com.Lifecycle.{LifecycleRecord, LifecycleStore, disabled, cold}
use mo_e_mo_a_integrated_com.Dict.{Dict, lookup}
use mo_e_mo_a_integrated_com.Base.{
  ℕ, String, false, Option, none, some, List, [], ◌∷◌, if◌then◌else◌, is_some, dedup,
}

-- `units` is the unit map, where one is given.
unfoldable pub service_unit_of : Option (Dict String) → String → Option String
service_unit_of none role = none
service_unit_of (some units) role = lookup role units

unfoldable pub initial_record :
    (String → String) → ℕ → Option (Dict String) → String → LifecycleRecord
unfolding service_unit_of
initial_record new_ids now units role = record {
  role = role;
  generation = 0;
  state = (if is_some units then disabled else cold);
  transition_id = new_ids role;
  transitioned_at = now;
  updated_at = now;
  ready_since = none;
  last_used_at = none;
  load_started_at = none;
  ready_at = none;
  last_requested_at = none;
  last_completed_at = none;
  failure_class = none;
  failure_detail = none;
  retry_count = 0;
  active_request_count = 0;
  open_stream_count = 0;
  continuation_lease_count = 0;
  evaluation_guard = false;
  profile_guard = false;
  progress_value = none;
  weight_load_percent = none;
  overall_load_percent = none;
  progress_quality = none;
  eta_seconds = none;
  last_load_duration_seconds = none;
  last_unload_duration_seconds = none;
  memory_before_bytes = none;
  memory_after_bytes = none;
  service_unit = service_unit_of units role;
  last_error_class = none;
  last_error_message_redacted = none;
}

unfoldable pub initial_rows :
    (String → String) → ℕ → Option (Dict String) → List String → Dict LifecycleRecord
unfolding initial_record
initial_rows new_ids now units [] = []
initial_rows new_ids now units (k ∷ ks) =
    (k, initial_record new_ids now units k) ∷ initial_rows new_ids now units ks

-- The rows of a new database; the checks of __init__ on its roles and units are left out.
unfoldable pub open_store :
    (String → String) → ℕ → Option (Dict String) → List String → LifecycleStore
unfolding initial_rows
open_store new_ids now units roles = record {
  roles = dedup roles;
  records = initial_rows new_ids now units (dedup roles);
  leases = [];
  samples = [];
}
