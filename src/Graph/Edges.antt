-- ===== src/Graph/Edges.antt =====
-- gateway/src/dgx_moa/execution_graph.py: which edges an outcome selects, and what selecting them does
-- to the nodes.
use mo_e_mo_a_integrated_com.Graph.{
  outgoing, find_node, find_edge, is_terminal, is_type, is_one_of, is_edge_type, is_under_way,
  is_over, EdgeType, NodeState, GraphNode, GraphEdge, ExecutionGraph, NodeAttempt, Saved,
  GraphRuntime, executor_primary, executor, finalize, on_success, on_finding, on_budget,
  on_no_progress, on_fallback, waiting_dependency, retrying, cancelled, skipped, saved_attempt,
}
use mo_e_mo_a_integrated_com.Graph.Spread.{descendants}
use mo_e_mo_a_integrated_com.Graph.Ready.{set_all, map_states}
use mo_e_mo_a_integrated_com.Dict.{Dict, lookup, insert}
use mo_e_mo_a_integrated_com.Base.{
  ℕ, ◌+◌, String, ◌==◌, Bool, false, not, ◌&&◌, ◌||◌, Option, none, some, List, [], ◌∷◌, ◌++◌, ltb,
  if◌then◌else◌, get_or, map_some, keep_if, any, is_empty, first, contains,
}

-- ExecutionGraphRuntime._record_edges
unfoldable pub record_edges : List GraphEdge → List String → List String
record_edges [] ids = ids
record_edges (e ∷ es) ids =
    record_edges es (if contains e.edge_id ids then ids else ids ++ e.edge_id ∷ [])

-- The first selected edge into a terminal node, other than on success.
unfoldable pub closing_terminal : ExecutionGraph → List GraphEdge → Option String
closing_terminal g es =
    map_some (λ e. e.to_node)
      (first (λ e. is_terminal g e.to_node && not (is_edge_type e.edge_type on_success)) es)

unfoldable pub closed_state : String → String → String → NodeState → NodeState
closed_state source terminal id state =
    if id == source || id == terminal
    then state
    else if is_over state
    then state
    else if is_under_way state
    then cancelled
    else skipped

abbrev pub cancelled_attempt : String → ℕ → NodeAttempt → NodeAttempt
cancelled_attempt code now a = record a {
  state = cancelled;
  ended_at = some now;
  failure_code = some code;
}

-- The attempts under way, but for those of `source`, are cancelled in place and saved.
unfoldable pub cancel_attempts :
    (NodeAttempt → Bool) → String → ℕ → List NodeAttempt → List NodeAttempt
cancel_attempts wanted code now [] = []
cancel_attempts wanted code now (a ∷ xs) =
    let rest = cancel_attempts wanted code now xs in
    if wanted a then cancelled_attempt code now a ∷ rest else a ∷ rest

unfoldable pub saved_cancelled : (NodeAttempt → Bool) → String → ℕ → List NodeAttempt → List Saved
saved_cancelled wanted code now [] = []
saved_cancelled wanted code now (a ∷ xs) =
    let rest = saved_cancelled wanted code now xs in
    if wanted a then saved_attempt (cancelled_attempt code now a) ∷ rest else rest

-- `cancel_attempts` on the runtime, with what is saved of it.
unfoldable pub stop_attempts : (NodeAttempt → Bool) → String → ℕ → GraphRuntime → GraphRuntime
unfolding cancel_attempts saved_cancelled
stop_attempts wanted code now r = record r {
  attempts = cancel_attempts wanted code now r.attempts;
  journal =
      (if r.stored then r.journal ++ saved_cancelled wanted code now r.attempts else r.journal);
}

abbrev pub other_under_way : String → NodeAttempt → Bool
other_under_way source a = not (a.node_id == source) && is_under_way a.state

-- ExecutionGraphRuntime._close_unselected_for_terminal
unfoldable pub close_unselected : List GraphEdge → String → ℕ → GraphRuntime → GraphRuntime
unfolding closing_terminal stop_attempts map_states closed_state
close_unselected es source now r = elim (closing_terminal r.graph es) [
  | none ↦ r
  | some terminal ↦
      let r' = stop_attempts (other_under_way source) "GRAPH_FAIL_CLOSED" now r in
      record r' { node_states = map_states (closed_state source terminal) r'.node_states }
]

-- The edges kept by a rewind: those that do not start at an affected node.
abbrev pub starts_in : ExecutionGraph → List String → String → Bool
starts_in g affected id = elim (find_edge g id) [
  | none ↦ false
  | some e ↦ contains e.from_node affected
]

abbrev pub is_repair : ExecutionGraph → GraphEdge → Bool
is_repair g e = is_edge_type e.edge_type on_finding && elim (find_node g e.to_node) [
  | none ↦ false
  | some n ↦ is_one_of (executor ∷ executor_primary ∷ []) n.node_type
]

-- What the choice of the edges is, with the traversals counted; none where no edge fits.
pub record Choice : Type 0 where
  pub edges : List GraphEdge
  pub counts : Dict ℕ

unfoldable pub plain_choice : GraphRuntime → GraphNode → EdgeType → Option Choice
plain_choice r n outcome =
    let es = keep_if (λ e. is_edge_type e.edge_type outcome) (outgoing r.graph n.node_id) in
    if is_empty es && not (is_type n.node_type finalize)
    then none
    else some (record { edges = es; counts = r.traversal_counts })

-- Progress that a repair edge may still carry takes it; if it is used up, the budget edges are taken.
unfoldable pub repair_choice : GraphRuntime → GraphNode → GraphEdge → Option Choice
unfolding plain_choice
repair_choice r n e =
    let used = get_or (lookup e.edge_id r.traversal_counts) 0 in
    if ltb used e.max_traversals
    then some (record { edges = e ∷ []; counts = insert e.edge_id (used + 1) r.traversal_counts })
    else plain_choice r n on_budget

unfoldable pub finding_choice : GraphRuntime → GraphNode → Bool → Option Choice
unfolding repair_choice plain_choice
finding_choice r n has_progress = elim (first (is_repair r.graph) (outgoing r.graph n.node_id)) [
  | none ↦ plain_choice r n on_finding
  | some e ↦ if has_progress then repair_choice r n e else plain_choice r n on_no_progress
]

-- ExecutionGraphRuntime._select_outcome_edges
unfoldable pub select_outcome_edges : GraphRuntime → GraphNode → EdgeType → Bool → Option Choice
unfolding finding_choice plain_choice
select_outcome_edges r n outcome has_progress =
    if is_edge_type outcome on_finding
    then finding_choice r n has_progress
    else plain_choice r n outcome

-- On success, the nodes of the fallback edges are skipped.
unfoldable pub skip_fallbacks : List GraphEdge → Dict NodeState → Dict NodeState
skip_fallbacks [] d = d
skip_fallbacks (e ∷ es) d =
    skip_fallbacks es
      (if is_edge_type e.edge_type on_fallback then insert e.to_node skipped d else d)

unfoldable pub rewind : GraphEdge → String → GraphRuntime → GraphRuntime
unfolding descendants set_all
rewind repair source r =
    let affected = descendants r.graph repair.to_node in
    record r {
      selected_edge_ids =
          keep_if (λ id. not (starts_in r.graph affected id) || id == repair.edge_id)
            r.selected_edge_ids;
      node_states =
          insert source waiting_dependency
            (insert repair.to_node retrying (set_all affected waiting_dependency r.node_states));
    }

-- ExecutionGraphRuntime._apply_selected_edges
unfoldable pub apply_selected_edges :
    List GraphEdge → GraphNode → List String → ℕ → GraphRuntime → GraphRuntime
unfolding record_edges close_unselected skip_fallbacks rewind
apply_selected_edges es n progress now r =
    let r1 =
      close_unselected es n.node_id now
        (record r { selected_edge_ids = record_edges es r.selected_edge_ids }) in
    let r2 =
      if any (λ e. is_edge_type e.edge_type on_success) es
      then record r1 { node_states = skip_fallbacks (outgoing r1.graph n.node_id) r1.node_states }
      else r1 in
    elim (first (λ e. is_edge_type e.edge_type on_finding) es) [
      | none ↦ r2
      | some repair ↦ if is_empty progress then r2 else rewind repair n.node_id r2
    ]
