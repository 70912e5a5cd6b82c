-- ===== src/Delegates/Types.antt =====
-- The data of gateway/src/dgx_moa/async_moa.py. Times and cooldowns are whole numbers.
use mo_e_mo_a_integrated_com.Dict.{Dict}
use mo_e_mo_a_integrated_com.Base.{
  ℕ, String, ◌==◌, Bool, true, false, ◌&&◌, Option, List, [], ◌∷◌, eqb, if◌then◌else◌,
}

pub data Effort : Type 0 where
  fast low medium high xhigh : Effort

abbrev pub is_fast : Effort → Bool
is_fast fast = true
is_fast _ = false

pub data Role : Type 0 where
  reasoner planner reviewer frontier : Role

abbrev pub role_place : Role → ℕ
role_place reasoner = 0
role_place planner = 1
role_place reviewer = 2
role_place frontier = 3

abbrev pub is_role : Role → Role → Bool
is_role a b = eqb (role_place a) (role_place b)

pub data EvidenceClass : Type 0 where
  fact observation executor_hypothesis agent_recommendation decision : EvidenceClass

-- classification in {FACT, OBSERVATION}
abbrev pub is_evidence : EvidenceClass → Bool
is_evidence fact = true
is_evidence observation = true
is_evidence _ = false

pub data Staleness : Type 0 where
  current partially_stale stale : Staleness

abbrev pub is_stale : Staleness → Bool
is_stale stale = true
is_stale _ = false

pub record ArtifactRef : Type 0 where
  pub artifact_id : String
  pub kind : String
  pub uri : String
  pub content_hash : String

abbrev pub same_artifact : ArtifactRef → ArtifactRef → Bool
same_artifact a b =
    a.artifact_id == b.artifact_id
    && a.kind == b.kind
    && a.uri == b.uri
    && a.content_hash == b.content_hash

abbrev pub same_artifacts : List ArtifactRef → List ArtifactRef → Bool
same_artifacts [] [] = true
same_artifacts (a ∷ xs) (b ∷ ys) = same_artifact a b && same_artifacts xs ys
same_artifacts _ _ = false

pub record DelegationSnapshot : Type 0 where
  pub task_state_version : ℕ
  pub repository_head : String
  pub working_tree_hash : String
  pub decision_version : ℕ
  pub artifact_refs : List ArtifactRef

-- self == current
abbrev pub same_snapshot : DelegationSnapshot → DelegationSnapshot → Bool
same_snapshot a b =
    eqb a.task_state_version b.task_state_version
    && a.repository_head == b.repository_head
    && a.working_tree_hash == b.working_tree_hash
    && eqb a.decision_version b.decision_version
    && same_artifacts a.artifact_refs b.artifact_refs

-- DelegationSnapshot.classify
unfoldable pub staleness_of : DelegationSnapshot → DelegationSnapshot → Staleness
staleness_of a now =
    if same_snapshot a now
    then current
    else if a.repository_head == now.repository_head && a.working_tree_hash == now.working_tree_hash
    then partially_stale
    else stale

pub record EvidenceClaim : Type 0 where
  pub classification : EvidenceClass
  pub statement : String
  pub evidence_refs : List String

pub record AgentFinding : Type 0 where
  pub claims : List EvidenceClaim
  pub materially_corrective : Bool
  pub invalidates : List String
  pub recommended_direction : String
  pub requested_actions : List String

pub record EffortBudget : Type 0 where
  pub max_concurrent_delegates : ℕ
  pub delegation_budget : ℕ
  pub max_depth : ℕ
  pub role_budgets : Role → ℕ
  pub activation_thresholds : Role → ℕ
  pub semantic_cooldown_seconds : ℕ

-- A table with a value for each role.
abbrev pub by_role : ℕ → ℕ → ℕ → ℕ → Role → ℕ
by_role a b c d reasoner = a
by_role a b c d planner = b
by_role a b c d reviewer = c
by_role a b c d frontier = d

abbrev pub budget_of : ℕ → ℕ → ℕ → (Role → ℕ) → (Role → ℕ) → ℕ → EffortBudget
budget_of concurrent delegations depth roles thresholds cooldown = record {
  max_concurrent_delegates = concurrent;
  delegation_budget = delegations;
  max_depth = depth;
  role_budgets = roles;
  activation_thresholds = thresholds;
  semantic_cooldown_seconds = cooldown;
}

-- DEFAULT_EFFORT_BUDGETS
unfoldable pub default_budget : Effort → EffortBudget
default_budget fast = budget_of 0 0 0 (by_role 0 0 0 0) (by_role 101 101 101 101) 0
default_budget low = budget_of 1 1 1 (by_role 1 1 1 0) (by_role 80 90 90 101) 120
default_budget medium = budget_of 3 4 1 (by_role 2 1 1 1) (by_role 50 70 70 90) 60
default_budget high = budget_of 3 6 2 (by_role 3 2 2 1) (by_role 25 45 45 65) 30
default_budget xhigh = budget_of 4 10 2 (by_role 4 3 3 2) (by_role 10 25 25 45) 10

-- A task of asyncio, by how it ended; a failure has the type and the text of its exception.
pub data Task : Type 0 where
  running : Task
  cancelled : Task
  failed : String → String → Task
  returned : AgentFinding → Task

abbrev pub is_running : Task → Bool
is_running running = true
is_running _ = false

-- `is_cancel_requested` is what task.cancel() leaves until the task ends.
pub record DelegateHandle : Type 0 where
  pub handle_id : String
  pub role : Role
  pub launched_from : DelegationSnapshot
  pub fingerprint : String
  pub depth : ℕ
  pub relevant : Bool
  pub task : Task
  pub is_cancel_requested : Bool

pub record DelegateResult : Type 0 where
  pub handle_id : String
  pub role : Role
  pub launched_from : DelegationSnapshot
  pub staleness : Staleness
  pub finding : Option AgentFinding
  pub failure_class : Option String
  pub failure_message : Option String

-- A decision of type `direction_invalidated`.
pub record Decision : Type 0 where
  pub old_assumptions : List String
  pub new_evidence : List String
  pub new_direction : String
  pub affected_work : List String
  pub source_role : Role
  pub snapshot_id : String

-- `notifies` says whether the notification is set; its text is fixed.
pub record Reconciliation : Type 0 where
  pub results : List DelegateResult
  pub decisions : List Decision
  pub reloop_required : Bool
  pub notifies : Bool
  pub requested_actions : List String

pub record AsyncMoaRuntime : Type 0 where
  pub effort : Effort
  pub budget : EffortBudget
  pub handles : Dict DelegateHandle
  pub role_counts : Role → ℕ
  pub recent : Dict ℕ
  pub launched : ℕ
  pub useful_work_events : List String

-- What the runtime takes from hashlib and json, and from Python's formatting and slicing of texts.
pub record MoaEnv : Type 0 where
  pub evidence_hash : DelegationSnapshot → String
  pub fingerprint : Role → String → String → String
  pub handle_name : ℕ → String → String
  pub shortened : String → String
