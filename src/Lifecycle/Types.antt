-- ===== src/Lifecycle/Types.antt =====
-- The data of gateway/src/dgx_moa/lifecycle.py: records, leases and the rows of the SQLite store.
-- Times, floats in the source, are whole seconds and percentages are whole numbers.
use mo_e_mo_a_integrated_com.Dict.{Dict}
use mo_e_mo_a_integrated_com.Base.{ℕ, String, Bool, true, false, Option, List, [], ◌∷◌, eqb, any}

pub data LifecycleState : Type 0 where
  disabled cold load_queued process_starting loading_weights : LifecycleState
  initializing_engine warming_up ready sleeping unload_queued unloading failed : LifecycleState

-- Its place in LIFECYCLE_STATES.
abbrev pub state_order : LifecycleState → ℕ
state_order disabled = 0
state_order cold = 1
state_order load_queued = 2
state_order process_starting = 3
state_order loading_weights = 4
state_order initializing_engine = 5
state_order warming_up = 6
state_order ready = 7
state_order sleeping = 8
state_order unload_queued = 9
state_order unloading = 10
state_order failed = 11

abbrev pub same_state : LifecycleState → LifecycleState → Bool
same_state a b = eqb (state_order a) (state_order b)

-- TRANSITIONS
abbrev pub transitions : LifecycleState → List LifecycleState
transitions disabled = cold ∷ []
transitions cold = disabled ∷ load_queued ∷ []
transitions load_queued = disabled ∷ cold ∷ process_starting ∷ failed ∷ []
transitions process_starting = disabled ∷ cold ∷ loading_weights ∷ failed ∷ []
transitions loading_weights = disabled ∷ cold ∷ initializing_engine ∷ failed ∷ []
transitions initializing_engine = disabled ∷ cold ∷ warming_up ∷ failed ∷ []
transitions warming_up = disabled ∷ cold ∷ ready ∷ failed ∷ []
transitions ready = disabled ∷ sleeping ∷ unload_queued ∷ unloading ∷ failed ∷ []
transitions sleeping = disabled ∷ cold ∷ ready ∷ unloading ∷ failed ∷ []
transitions unload_queued = disabled ∷ ready ∷ unloading ∷ failed ∷ []
transitions unloading = disabled ∷ cold ∷ failed ∷ []
transitions failed = disabled ∷ cold ∷ load_queued ∷ []

-- state in TRANSITIONS[current.state]
abbrev pub may_follow : LifecycleState → LifecycleState → Bool
may_follow current state = any (same_state state) (transitions current)

pub data ProgressQuality : Type 0 where
  measured_bytes measured_shards measured_phase estimated unavailable : ProgressQuality

pub data LeaseKind : Type 0 where
  active_request open_stream continuation : LeaseKind

abbrev pub kind_place : LeaseKind → ℕ
kind_place active_request = 0
kind_place open_stream = 1
kind_place continuation = 2

abbrev pub same_kind : LeaseKind → LeaseKind → Bool
same_kind a b = eqb (kind_place a) (kind_place b)

-- kind IN ('active_request', 'open_stream')
abbrev pub is_request_kind : LeaseKind → Bool
is_request_kind active_request = true
is_request_kind open_stream = true
is_request_kind continuation = false

-- f"{kind}" of a lease's name
abbrev pub kind_name : LeaseKind → String
kind_name active_request = "active_request"
kind_name open_stream = "open_stream"
kind_name continuation = "continuation"

pub data GuardKind : Type 0 where
  evaluation_guard profile_guard : GuardKind

pub record LifecycleRecord : Type 0 where
  pub role : String
  pub generation : ℕ
  pub state : LifecycleState
  pub transition_id : String
  pub transitioned_at : ℕ
  pub updated_at : ℕ
  pub ready_since : Option ℕ
  pub last_used_at : Option ℕ
  pub load_started_at : Option ℕ
  pub ready_at : Option ℕ
  pub last_requested_at : Option ℕ
  pub last_completed_at : Option ℕ
  pub failure_class : Option String
  pub failure_detail : Option String
  pub retry_count : ℕ
  pub active_request_count : ℕ
  pub open_stream_count : ℕ
  pub continuation_lease_count : ℕ
  pub evaluation_guard : Bool
  pub profile_guard : Bool
  pub progress_value : Option ℕ
  pub weight_load_percent : Option ℕ
  pub overall_load_percent : Option ℕ
  pub progress_quality : Option ProgressQuality
  pub eta_seconds : Option ℕ
  pub last_load_duration_seconds : Option ℕ
  pub last_unload_duration_seconds : Option ℕ
  pub memory_before_bytes : Option ℕ
  pub memory_after_bytes : Option ℕ
  pub service_unit : Option String
  pub last_error_class : Option String
  pub last_error_message_redacted : Option String

pub record LifecycleLease : Type 0 where
  pub lease_id : String
  pub role : String
  pub kind : LeaseKind
  pub owner_correlation : String
  pub created_at : ℕ
  pub expires_at : Option ℕ

pub data SampleKind : Type 0 where
  load unload : SampleKind

-- A row of lifecycle_samples; a missing duration cannot be stored.
pub record Sample : Type 0 where
  pub role : String
  pub kind : SampleKind
  pub duration_seconds : ℕ
  pub memory_before_bytes : Option ℕ
  pub memory_after_bytes : Option ℕ

-- The roles of the store object, and the tables its operations on records and leases write.
pub record LifecycleStore : Type 0 where
  pub roles : List String
  pub records : Dict LifecycleRecord
  pub leases : List LifecycleLease
  pub samples : List Sample

pub data LifecycleFault : Type 0 where
  unknown_role invalid_value invalid_transition stale_transition not_ready : LifecycleFault
  guard_active invalid_record integrity missing_row : LifecycleFault

-- A transaction: an exception rolls back, so a refusal has no new store.
pub data Step (A : Type 0) : Type 0 where
  refused : LifecycleFault → Step A
  done : A → LifecycleStore → Step A
