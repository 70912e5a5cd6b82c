-- ===== src/Graph/Selecting.antt =====
-- The calls of gateway/src/dgx_moa/execution_graph.py that select edges keep the runtime's invariant.
use mo_e_mo_a_integrated_com.Graph.{
  outgoing, is_edge_type, is_under_way, is_succeeded, NodeState, GraphNode, GraphEdge,
  ExecutionGraph, NodeAttempt, GraphRuntime, on_success, on_finding, succeeded,
}
use mo_e_mo_a_integrated_com.Graph.Spread.{descendants}
use mo_e_mo_a_integrated_com.Graph.Edges.{
  record_edges, closing_terminal, cancel_attempts, stop_attempts, other_under_way, close_unselected,
  starts_in, skip_fallbacks, rewind, apply_selected_edges,
}
use mo_e_mo_a_integrated_com.Graph.Invariant.{
  ends_validated, Inv, if_either, attempts-Inv, selected-Inv,
}
use mo_e_mo_a_integrated_com.Graph.Known.{Known, record_edges-Inv}
use mo_e_mo_a_integrated_com.Graph.Attempts.{cancel_attempts_keeps}
use mo_e_mo_a_integrated_com.Base.{
  ℕ, String, ◌==◌, ◌≡◌, refl, inl, inr, Bool, true, false, not, ◌||◌, List, [], ◌∷◌, arith,
  if◌then◌else◌, Option-cases, keep_if, any, is_empty, All, first, contains,
}

-- A run that ended on validated evidence is one afterwards.
abbrev pub Follows : GraphRuntime → GraphRuntime → Type 0
Follows r r' =
    (r'.graph ≡ r.graph)
    × (any (ends_validated r.graph) r.attempts ≡ true
        → any (ends_validated r.graph) r'.attempts ≡ true)

pub succeeded_not_under_way : (s : NodeState) → is_succeeded s ≡ true → is_under_way s ≡ false
succeeded_not_under_way succeeded h = refl
succeeded_not_under_way s h = cc

pub ends_not_under_way :
    (g : ExecutionGraph) (a : NodeAttempt)
    → ends_validated g a ≡ true
    → is_under_way a.state ≡ false
ends_not_under_way g a e = succeeded_not_under_way a.state (ground (arith, e))

pub stop_attempts-Follows :
    (wanted : NodeAttempt → Bool) (code : String) (now : ℕ) (r : GraphRuntime)
    → ((a : NodeAttempt) → is_under_way a.state ≡ false → wanted a ≡ false)
    → Follows r (stop_attempts wanted code now r)
unfolding stop_attempts
stop_attempts-Follows wanted code now r h = (
  refl,
  cancel_attempts_keeps (ends_validated r.graph) wanted code now r.attempts
      (λ a e. h a (ends_not_under_way r.graph a e)),
)

pub stop_attempts-Inv :
    (wanted : NodeAttempt → Bool) (code : String) (now : ℕ) (r : GraphRuntime)
    → ((a : NodeAttempt) → is_under_way a.state ≡ false → wanted a ≡ false)
    → Inv r
    → Inv (stop_attempts wanted code now r)
unfolding stop_attempts
stop_attempts-Inv wanted code now r h v =
    attempts-Inv (cancel_attempts wanted code now r.attempts) r
      (stop_attempts-Follows wanted code now r h).1 v

others_not_wanted :
    (source : String) (a : NodeAttempt)
    → is_under_way a.state ≡ false
    → other_under_way source a ≡ false
others_not_wanted source a h = ground (arith, h)

close_unselected-Follows :
    (es : List GraphEdge) (source : String) (now : ℕ) (r : GraphRuntime)
    → Follows r (close_unselected es source now r)
unfolding close_unselected
close_unselected-Follows es source now r = elim (Option-cases (closing_terminal r.graph es)) [
  | inl e ↦ rw (e, close_unselected) (refl, λ h. h)
  | inr (t, e) ↦
      rw (e, close_unselected)
        (stop_attempts-Follows (other_under_way source) "GRAPH_FAIL_CLOSED" now r
          (others_not_wanted source))
]

pub close_unselected-Inv :
    (es : List GraphEdge) (source : String) (now : ℕ) (r : GraphRuntime)
    → Inv r
    → Inv (close_unselected es source now r)
unfolding close_unselected
close_unselected-Inv es source now r v = elim (Option-cases (closing_terminal r.graph es)) [
  | inl e ↦ rw (e, close_unselected) v
  | inr (t, e) ↦
      rw (e, close_unselected)
        (stop_attempts-Inv (other_under_way source) "GRAPH_FAIL_CLOSED" now r
          (others_not_wanted source) v)
]

pub keep_if-contains :
    (p : String → Bool) (ids : List String) (id : String)
    → contains id (keep_if p ids) ≡ true
    → contains id ids ≡ true
keep_if-contains p [] id h = h
keep_if-contains p (x ∷ ids) id h = ground (arith, h, keep_if-contains p ids id)

-- Fewer edges may be selected.
pub keep_edges-Inv :
    (p : String → Bool) (r : GraphRuntime)
    → Inv r
    → Inv (record r { selected_edge_ids = keep_if p r.selected_edge_ids })
keep_edges-Inv p r v =
    selected-Inv (keep_if p r.selected_edge_ids) r
      (λ id h. v.selected id (keep_if-contains p r.selected_edge_ids id h)) v

rewind-Inv :
    (repair : GraphEdge) (source : String) (r : GraphRuntime) → Inv r → Inv (rewind repair source r)
unfolding rewind
rewind-Inv repair source r v =
    let affected = descendants r.graph repair.to_node in
    keep_edges-Inv (λ id. not (starts_in r.graph affected id) || id == repair.edge_id) r v

-- A success skips the fallbacks.
abbrev pub after_success : List GraphEdge → GraphNode → GraphRuntime → GraphRuntime
after_success es n r =
    if any (λ e. is_edge_type e.edge_type on_success) es
    then record r { node_states = skip_fallbacks (outgoing r.graph n.node_id) r.node_states }
    else r

pub repair-Either :
    (P : GraphRuntime → Type 0) (es : List GraphEdge) (n : GraphNode) (progress : List String)
    (now : ℕ) (r : GraphRuntime)
    → P (
        after_success es n (
          close_unselected es n.node_id now
            (record r { selected_edge_ids = record_edges es r.selected_edge_ids })))
    → ((e : GraphEdge) (x : GraphRuntime) → P x → P (rewind e n.node_id x))
    → P (apply_selected_edges es n progress now r)
unfolding apply_selected_edges
repair-Either P es n progress now r h back =
    let r2 = after_success es n (
      close_unselected es n.node_id now
        (record r { selected_edge_ids = record_edges es r.selected_edge_ids })) in
    elim (Option-cases (first (λ e. is_edge_type e.edge_type on_finding) es)) [
      | inl e ↦ rw (e, apply_selected_edges) h
      | inr (x, e) ↦
          rw (e, apply_selected_edges)
            (if_either P (is_empty progress) r2 (rewind x n.node_id r2) h (back x r2 h))
    ]

pub apply_selected_edges-Inv :
    (es : List GraphEdge) (n : GraphNode) (progress : List String) (now : ℕ) (r : GraphRuntime)
    → All (Known r.graph.edges) es
    → Inv r
    → Inv (apply_selected_edges es n progress now r)
apply_selected_edges-Inv es n progress now r k v =
    let r0 = record r { selected_edge_ids = record_edges es r.selected_edge_ids } in
    let r1 = close_unselected es n.node_id now r0 in
    let v1 = close_unselected-Inv es n.node_id now r0 (record_edges-Inv es r k v) in
    repair-Either Inv es n progress now r
      (if_either Inv (any (λ e. is_edge_type e.edge_type on_success) es)
        (record r1 { node_states = skip_fallbacks (outgoing r1.graph n.node_id) r1.node_states }) r1
        v1 v1)
      (λ e x. rewind-Inv e n.node_id x)

pub apply_selected_edges-Follows :
    (es : List GraphEdge) (n : GraphNode) (progress : List String) (now : ℕ) (r : GraphRuntime)
    → Follows r (apply_selected_edges es n progress now r)
apply_selected_edges-Follows es n progress now r =
    let r0 = record r { selected_edge_ids = record_edges es r.selected_edge_ids } in
    let r1 = close_unselected es n.node_id now r0 in
    let h1 : Follows r r1 = close_unselected-Follows es n.node_id now r0 in
    repair-Either (Follows r) es n progress now r
      (if_either (Follows r) (any (λ e. is_edge_type e.edge_type on_success) es)
        (record r1 { node_states = skip_fallbacks (outgoing r1.graph n.node_id) r1.node_states }) r1
        h1 h1)
      (λ e x h. unfold rewind in h)
