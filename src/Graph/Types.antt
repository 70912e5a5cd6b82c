-- ===== src/Graph/Types.antt =====
-- The data of gateway/src/dgx_moa/execution_graph.py. Timestamps are whole seconds, costs and
-- latencies whole numbers of a smallest unit.
use mo_e_mo_a_integrated_com.Graph.Kinds.{NodeType, EdgeType, NodeState}
use mo_e_mo_a_integrated_com.Dict.{Dict}
use mo_e_mo_a_integrated_com.Base.{ℕ, String, Bool, true, false, Option, List}

pub data Purpose : Type 0 where
  control primary evidence fallback_purpose : Purpose

pub data TerminalStatus : Type 0 where
  completed ended_failed ended_cancelled ended_degraded : TerminalStatus

abbrev pub is_completed : TerminalStatus → Bool
is_completed completed = true
is_completed _ = false

pub record GraphBudget : Type 0 where
  pub tokens : ℕ
  pub tool_calls : ℕ
  pub wall_clock_seconds : ℕ

pub record GraphNode : Type 0 where
  pub node_id : String
  pub node_type : NodeType
  pub role : Option String
  pub purpose : Purpose
  pub parallel_group_id : Option String
  pub provider : Option String
  pub mutation_allowed : Bool
  pub allowed_mutation_paths : List String
  pub join_all : Bool

pub record GraphEdge : Type 0 where
  pub edge_id : String
  pub from_node : String
  pub to_node : String
  pub edge_type : EdgeType
  pub max_traversals : ℕ

-- The fields that the runtime reads, and those by which a checkpoint knows its graph.
pub record ExecutionGraph : Type 0 where
  pub graph_id : String
  pub graph_hash : String
  pub graph_schema_version : String
  pub compiler_version : String
  pub policy_version : String
  pub created_at : ℕ
  pub deadline : ℕ
  pub budgets : GraphBudget
  pub entry_nodes : List String
  pub terminal_nodes : List String
  pub nodes : List GraphNode
  pub edges : List GraphEdge

pub record NodeAttempt : Type 0 where
  pub node_id : String
  pub attempt_id : String
  pub node_type : NodeType
  pub role : Option String
  pub provider : Option String
  pub model : Option String
  pub state : NodeState
  pub parent_node_ids : List String
  pub parallel_group_id : Option String
  pub selected_incoming_edge : Option String
  pub available_outgoing_edges : List String
  pub selected_outgoing_edges : List String
  pub started_at : ℕ
  pub ended_at : Option ℕ
  pub deadline : ℕ
  pub latency_ms : Option ℕ
  pub token_usage : ℕ
  pub cached_tokens : Option ℕ
  pub cost_usd : Option ℕ
  pub failure_code : Option String
  pub failure_fingerprint : Option String
  pub progress_evidence_ids : List String
  pub generated_evidence_ids : List String
  pub validated_evidence_ids : List String
  pub contradicted_evidence_ids : List String
  pub public_output_ref : Option String
  pub artifact_hash : Option String
  pub checkpoint_id : Option String

pub record RemainingBudgets : Type 0 where
  pub tokens : ℕ
  pub tool_calls : ℕ
  pub wall_clock_seconds : ℕ

pub record GraphCheckpoint : Type 0 where
  pub checkpoint_id : String
  pub graph_id : String
  pub graph_hash : String
  pub graph_schema_version : String
  pub compiler_version : String
  pub policy_version : String
  pub parent_checkpoint_id : Option String
  pub completed_node_ids : List String
  pub active_node_ids : List String
  pub pending_node_ids : List String
  pub selected_edges : List String
  pub available_edges : List String
  pub provider_pins : Dict String
  pub model_pins : Dict String
  pub artifact_hashes : Dict String
  pub remaining_budgets : RemainingBudgets
  pub failure_fingerprints : List String
  pub progress_evidence_ids : List String
  pub active_state_object_ref : String
  pub event_cursor : ℕ
  pub snapshot_hash : String
  pub size_before : ℕ
  pub size_after : ℕ
  pub reason : String
  pub created_at : ℕ
  pub node_states : Dict NodeState
  pub traversal_counts : Dict ℕ
  pub attempt_counts : Dict ℕ
  pub token_usage : ℕ
  pub tool_calls : ℕ
  pub final_emitted : Bool
  pub terminal_status : Option TerminalStatus

-- What the runtime has given its store, in order.
pub data Saved : Type 0 where
  saved_graph : ExecutionGraph → Saved
  saved_attempt : NodeAttempt → Saved
  saved_checkpoint : GraphCheckpoint → Saved

-- `stored` says whether a store is attached; `journal` is what was written to it.
pub record GraphRuntime : Type 0 where
  pub graph : ExecutionGraph
  pub stored : Bool
  pub journal : List Saved
  pub node_states : Dict NodeState
  pub selected_edge_ids : List String
  pub traversal_counts : Dict ℕ
  pub attempt_counts : Dict ℕ
  pub attempts : List NodeAttempt
  pub provider_pins : Dict String
  pub model_pins : Dict String
  pub artifact_hashes : Dict String
  pub failure_fingerprints : List String
  pub progress_evidence_ids : List String
  pub token_usage : ℕ
  pub tool_calls : ℕ
  pub final_emitted : Bool
  pub terminal_status : Option TerminalStatus
  pub last_checkpoint_id : Option String
  pub checkpoint_count : ℕ
  pub active_state_object_ref : String
  pub event_cursor : ℕ
  pub checkpoint_size_before : ℕ
  pub checkpoint_size_after : ℕ

pub data GraphFault : Type 0 where
  deadline_exceeded not_ready provider_pin_mismatch empty_model model_pin_mismatch : GraphFault
  not_active bad_cached_tokens token_budget_exhausted tool_budget_exhausted : GraphFault
  bad_evidence_ids bad_artifact_hash unvalidated_progress unvalidated_approval : GraphFault
  wrong_outcome missing_status unvalidated_completion already_emitted : GraphFault
  status_not_final no_edge bad_failure no_cancellation_edge nothing_invalidated : GraphFault
  unknown_nodes not_completed verification_required hash_mismatch incompatible : GraphFault
  missing_node bad_reason : GraphFault

-- An exception does not undo what was written before it, so it comes with the state it leaves.
pub data Ran (A : Type 0) : Type 0 where
  raised : GraphFault → GraphRuntime → Ran A
  returned : A → GraphRuntime → Ran A

-- A call after another, unless that raised.
unfoldable pub then_run : {A B : Type 0} → Ran A → (A → GraphRuntime → Ran B) → Ran B
then_run (raised fault r) next = raised fault r
then_run (returned x r) next = next x r

-- What the runtime takes from hashlib and json, from Python's formatting of numbers, from str.upper, and
-- from re (whether VALIDATION_COMMAND is found in a text).
pub record GraphEnv : Type 0 where
  pub checkpoint_hash : GraphCheckpoint → String
  pub checkpoint_name : ℕ → String
  pub checkpoint_number : String → ℕ
  pub attempt_name : String → ℕ → String
  pub text_hash : String → String
  pub upper : String → String
  pub is_validation : String → Bool
