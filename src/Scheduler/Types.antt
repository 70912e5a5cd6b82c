-- ===== src/Scheduler/Types.antt =====
-- The data of gateway/src/dgx_moa/executor_scheduler.py: admissions, queue entries, the scheduler's
-- state, and the checks of its constructor and of the identifiers.
use mo_e_mo_a_integrated_com.Dict.{Dict}
use mo_e_mo_a_integrated_com.Base.{
  ℕ, ◌+◌, String, Bool, true, false, not, ◌&&◌, ◌||◌, Option, none, some, List, [], ◌∷◌, ltb, leb,
  eqb, if◌then◌else◌, length, all, is_empty, codes,
}

pub data ExecutorSelection : Type 0 where
  local_primary remote_overflow : ExecutorSelection

pub data LeaseState : Type 0 where
  acquired queued overflow : LeaseState

abbrev pub is_queued : LeaseState → Bool
is_queued queued = true
is_queued _ = false

abbrev pub is_acquired : LeaseState → Bool
is_acquired acquired = true
is_acquired _ = false

pub data Risk : Type 0 where
  low medium high critical : Risk

-- risk in {"high", "critical"}
abbrev pub is_high_risk : Risk → Bool
is_high_risk high = true
is_high_risk critical = true
is_high_risk _ = false

pub record Admission : Type 0 where
  pub request_id : String
  pub api_key_id : String
  pub selected_executor : ExecutorSelection
  pub lease_owner_api_key_id : Option String
  pub acquired_at : Option String
  pub lease_state : LeaseState
  pub queue_position : ℕ
  pub round_robin_epoch : ℕ
  pub reason : String

-- `future` is the handle of the asyncio future that the waiting call awaits.
pub record Queued : Type 0 where
  pub request_id : String
  pub api_key_id : String
  pub future : ℕ
  pub sequence : ℕ

pub record Scheduler : Type 0 where
  pub max_local_concurrency : ℕ
  pub same_key_max_local_queue : ℕ
  pub max_total_local_queue : ℕ
  pub queue_timeout_seconds : ℕ
  pub owners : Dict Admission
  pub queues : Dict (List Queued)
  pub round_robin : List String
  pub pins : Dict Admission
  pub sequence : ℕ
  pub epoch : ℕ
  pub local_enabled : Bool

-- The exceptions, each with the condition or the message that it carries.
pub data SchedulerError : Type 0 where
  concurrency_not_positive queue_limit_not_positive timeout_not_positive : SchedulerError
  invalid_api_key_id invalid_request_id : SchedulerError
  other_api_key already_queued : SchedulerError
  local_unavailable high_risk_queue_full queue_full : SchedulerError
  queue_timeout cancelled : SchedulerError

pub data Result {ℓ} (A : Type ℓ) : Type ℓ where
  ok : A → Result A
  err : SchedulerError → Result A

-- the state that `__init__` sets up
unfoldable pub initial : ℕ → ℕ → ℕ → ℕ → Scheduler
initial max_local_concurrency same_key_max_local_queue max_total_local_queue timeout = record {
  max_local_concurrency = max_local_concurrency;
  same_key_max_local_queue = same_key_max_local_queue;
  max_total_local_queue = max_total_local_queue;
  queue_timeout_seconds = timeout;
  owners = [];
  queues = [];
  round_robin = [];
  pins = [];
  sequence = 0;
  epoch = 0;
  local_enabled = true;
}

-- __init__
unfoldable pub new : ℕ → ℕ → ℕ → ℕ → Result Scheduler
new max_local_concurrency same_key_max_local_queue max_total_local_queue timeout =
    if ltb max_local_concurrency 1
    then err concurrency_not_positive
    else if ltb same_key_max_local_queue 1 || ltb max_total_local_queue 1
    then err queue_limit_not_positive
    else if leb timeout 0
    then err timeout_not_positive
    else ok (initial max_local_concurrency same_key_max_local_queue max_total_local_queue timeout)

is_lower : ℕ → Bool
is_lower c = leb b'a' c && leb c b'z'

-- [a-z0-9_-]
is_key_char : ℕ → Bool
unfolding is_lower
is_key_char c = is_lower c || (leb b'0' c && leb c b'9') || eqb c b'_' || eqb c b'-'

-- [a-z][a-z0-9_-]{0,31}
is_key_id : List ℕ → Bool
unfolding is_key_char
is_key_id [] = false
is_key_id (c ∷ cs) = is_lower c && all is_key_char cs && leb (length cs) 31

unfoldable pub validate : String → String → Option SchedulerError
unfolding is_key_id
validate api_key_id request_id =
    if not (is_key_id (codes api_key_id))
    then some invalid_api_key_id
    else if is_empty (codes request_id) || ltb 256 (length (codes request_id))
    then some invalid_request_id
    else none

-- sum(len(queue) for queue in self._queues.values())
unfoldable pub total_depth : Dict (List Queued) → ℕ
total_depth [] = 0
total_depth ((k, q) ∷ m) = length q + total_depth m

-- next(iter(self._owners.values())).api_key_id if self._owners else None
abbrev pub owner_key : Dict Admission → Option String
owner_key [] = none
owner_key ((r, a) ∷ m) = some a.api_key_id
