-- ===== src/Graph/Kinds.antt =====
-- The kinds of nodes and edges of gateway/src/dgx_moa/execution_graph.py, and the states of nodes.
use mo_e_mo_a_integrated_com.Base.{ℕ, Bool, true, false, List, eqb, any}

pub data NodeType : Type 0 where
  classify reasoner planner frontier_a executor_select executor_evidence : NodeType
  executor_primary executor_fallback executor tool test reviewer judge : NodeType
  frontier_b join policy_gate human_approval checkpoint finalize : NodeType

abbrev pub node_type_place : NodeType → ℕ
node_type_place classify = 0
node_type_place reasoner = 1
node_type_place planner = 2
node_type_place frontier_a = 3
node_type_place executor_select = 4
node_type_place executor_evidence = 5
node_type_place executor_primary = 6
node_type_place executor_fallback = 7
node_type_place executor = 8
node_type_place tool = 9
node_type_place test = 10
node_type_place reviewer = 11
node_type_place judge = 12
node_type_place frontier_b = 13
node_type_place join = 14
node_type_place policy_gate = 15
node_type_place human_approval = 16
node_type_place checkpoint = 17
node_type_place finalize = 18

abbrev pub is_type : NodeType → NodeType → Bool
is_type a b = eqb (node_type_place a) (node_type_place b)

-- node_type in {...}
abbrev pub is_one_of : List NodeType → NodeType → Bool
is_one_of ts t = any (is_type t) ts

pub data EdgeType : Type 0 where
  depends_on on_success on_failure on_retryable_failure on_finding on_approval : EdgeType
  on_rejection on_budget on_progress on_no_progress on_fallback on_checkpoint : EdgeType

abbrev pub edge_type_place : EdgeType → ℕ
edge_type_place depends_on = 0
edge_type_place on_success = 1
edge_type_place on_failure = 2
edge_type_place on_retryable_failure = 3
edge_type_place on_finding = 4
edge_type_place on_approval = 5
edge_type_place on_rejection = 6
edge_type_place on_budget = 7
edge_type_place on_progress = 8
edge_type_place on_no_progress = 9
edge_type_place on_fallback = 10
edge_type_place on_checkpoint = 11

abbrev pub is_edge_type : EdgeType → EdgeType → Bool
is_edge_type a b = eqb (edge_type_place a) (edge_type_place b)

pub data NodeState : Type 0 where
  queued dispatching running streaming waiting_tool waiting_dependency : NodeState
  waiting_approval retrying fallback succeeded degraded failed cancelled skipped : NodeState

-- {DISPATCHING, RUNNING, STREAMING, WAITING_TOOL, WAITING_APPROVAL}
abbrev pub is_under_way : NodeState → Bool
is_under_way dispatching = true
is_under_way running = true
is_under_way streaming = true
is_under_way waiting_tool = true
is_under_way waiting_approval = true
is_under_way _ = false

-- {DISPATCHING, RUNNING, STREAMING}
abbrev pub is_interrupted : NodeState → Bool
is_interrupted dispatching = true
is_interrupted running = true
is_interrupted streaming = true
is_interrupted _ = false

-- {RUNNING, WAITING_APPROVAL, WAITING_TOOL}
abbrev pub is_active_state : NodeState → Bool
is_active_state running = true
is_active_state waiting_approval = true
is_active_state waiting_tool = true
is_active_state _ = false

-- {SUCCEEDED, DEGRADED, FAILED}
abbrev pub is_over : NodeState → Bool
is_over succeeded = true
is_over degraded = true
is_over failed = true
is_over _ = false

-- {QUEUED, WAITING_DEPENDENCY, RETRYING, FALLBACK}
abbrev pub may_start : NodeState → Bool
may_start queued = true
may_start waiting_dependency = true
may_start retrying = true
may_start fallback = true
may_start _ = false

-- {SUCCEEDED, DEGRADED, SKIPPED}
abbrev pub is_complete : NodeState → Bool
is_complete succeeded = true
is_complete degraded = true
is_complete skipped = true
is_complete _ = false

abbrev pub is_succeeded : NodeState → Bool
is_succeeded succeeded = true
is_succeeded _ = false

abbrev pub is_waiting_tool : NodeState → Bool
is_waiting_tool waiting_tool = true
is_waiting_tool _ = false

abbrev pub is_waiting_approval : NodeState → Bool
is_waiting_approval waiting_approval = true
is_waiting_approval _ = false
