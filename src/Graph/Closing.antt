-- ===== src/Graph/Closing.antt =====
-- What is left to run after gateway/src/dgx_moa/execution_graph.py has closed or cancelled a run.
use mo_e_mo_a_integrated_com.Graph.{
  is_under_way, is_over, may_start, NodeState, GraphNode, GraphEdge, NodeAttempt, GraphRuntime,
  queued, dispatching, running, streaming, waiting_tool, waiting_dependency, waiting_approval,
  retrying, fallback, succeeded, degraded, failed, cancelled, skipped,
}
use mo_e_mo_a_integrated_com.Graph.Ready.{map_states, is_ready, ready_node_ids}
use mo_e_mo_a_integrated_com.Graph.Edges.{
  closing_terminal, closed_state, cancelled_attempt, cancel_attempts, stop_attempts,
  other_under_way, close_unselected,
}
use mo_e_mo_a_integrated_com.Graph.Fail.{cancelled_state}
use mo_e_mo_a_integrated_com.Dict.{Dict, lookup}
use mo_e_mo_a_integrated_com.Base.{
  ℕ, String, ◌==◌, ◌≡◌, refl, subst, inl, inr, Bool, true, false, not, ◌||◌, none, some, List, [],
  ◌∷◌, map, arith, if◌then◌else◌, Bool-cases, Option-cases, keep_if, any, contains, string_same,
}

pub lookup-map_states :
    (f : String → NodeState → NodeState) (d : Dict NodeState) (id : String)
    → lookup id (map_states f d) ≡ elim (lookup id d) [ none ↦ none | some s ↦ some (f id s) ]
unfolding lookup map_states
lookup-map_states f [] id = refl
lookup-map_states f ((key, s) ∷ d) id = elim (Bool-cases (key == id)) [
  | inl t ↦ rw (t, string_same key id t) refl
  | inr n ↦ rw n (lookup-map_states f d id)
]

-- A node that is ready is one of the graph, in a state in which it may start.
ready_found :
    (p : GraphNode → Bool) (ns : List GraphNode) (id : String)
    → contains id (map (λ n. n.node_id) (keep_if p ns)) ≡ true
    → (n : GraphNode) × (p n ≡ true) × (n.node_id ≡ id)
ready_found p [] id h = absurd (cc)
ready_found p (n ∷ ns) id h = elim (Bool-cases (p n)) [
  | inr f ↦ ready_found p ns id (ground (arith, h, f))
  | inl t ↦ elim (Bool-cases (n.node_id == id)) [
    | inl s ↦ (n, t, string_same n.node_id id s)
    | inr s ↦ ready_found p ns id (ground (arith, h, t, s))
  ]
]

pub ready-may_start :
    (r : GraphRuntime) (id : String)
    → contains id (ready_node_ids r) ≡ true
    → (s : NodeState) × (lookup id r.node_states ≡ some s) × (may_start s ≡ true)
unfolding ready_node_ids is_ready
ready-may_start r id h =
    let found = ready_found (is_ready r) r.graph.nodes id h in
    let n = found.0 in
    elim (Option-cases (lookup n.node_id r.node_states)) [
      | inl e ↦ absurd (ground (arith, found.1, e))
      | inr (s, e) ↦
          (s, subst (λ k. lookup k r.node_states ≡ some s) found.2 e, ground (arith, found.1, e))
    ]

-- What `closed_state` and `cancelled_state` do to a state leaves none that may start.
closed_states :
    (s : NodeState)
    → may_start (if is_over s then s else if is_under_way s then cancelled else skipped) ≡ false
closed_states queued = refl
closed_states dispatching = refl
closed_states running = refl
closed_states streaming = refl
closed_states waiting_tool = refl
closed_states waiting_dependency = refl
closed_states waiting_approval = refl
closed_states retrying = refl
closed_states fallback = refl
closed_states succeeded = refl
closed_states degraded = refl
closed_states failed = refl
closed_states cancelled = refl
closed_states skipped = refl

over_not_started : (s : NodeState) → is_over s ≡ true → may_start s ≡ false
over_not_started succeeded h = refl
over_not_started degraded h = refl
over_not_started failed h = refl
over_not_started s h = cc

closed_not_started :
    (source terminal id : String) (s : NodeState)
    → may_start (closed_state source terminal id s) ≡ true
    → (id == source || id == terminal) ≡ true
unfolding closed_state
closed_not_started source terminal id s h = ground (arith, h, closed_states s)

pub cancelled_not_started :
    (terminal id : String) (s : NodeState)
    → may_start (cancelled_state terminal id s) ≡ true
    → (id == terminal) ≡ true
unfolding cancelled_state
cancelled_not_started terminal id s h = ground (arith, h, over_not_started s)

-- None of the attempts that are to be stopped is left.
pub stopped :
    (wanted : NodeAttempt → Bool) (code : String) (now : ℕ) (xs : List NodeAttempt)
    → ((a : NodeAttempt) → wanted (cancelled_attempt code now a) ≡ false)
    → any wanted (cancel_attempts wanted code now xs) ≡ false
unfolding cancel_attempts
stopped wanted code now [] h = refl
stopped wanted code now (a ∷ xs) h = ground (arith, h a, stopped wanted code now xs h)

close_unselected_ready :
    (es : List GraphEdge) (source terminal : String) (now : ℕ) (r : GraphRuntime) (id : String)
    → closing_terminal r.graph es ≡ some terminal
    → contains id (ready_node_ids (close_unselected es source now r)) ≡ true
    → (id == source || id == terminal) ≡ true
unfolding close_unselected stop_attempts
close_unselected_ready es source terminal now r id e h =
    let r' = close_unselected es source now r in
    let ready = ready-may_start r' id h in
    let f = closed_state source terminal in
    let states : r'.node_states ≡ map_states f r.node_states = rw (e, close_unselected) refl in
    let found : lookup id (map_states f r.node_states) ≡ some ready.0 =
      subst (λ d. lookup id d ≡ some ready.0) states ready.1 in
    elim (Option-cases (lookup id r.node_states)) [
      | inl n ↦ absurd (ground (arith, n, found, lookup-map_states f r.node_states id))
      | inr (s, n) ↦
          closed_not_started source terminal id s
            (ground (arith, n, found, ready.2, lookup-map_states f r.node_states id))
    ]

-- After edges are taken of which one closes the run, only the node they leave and the terminal node
-- may be ready, and no attempt of another node is under way.
pub close_unselected-Closed :
    (es : List GraphEdge) (source terminal : String) (now : ℕ) (r : GraphRuntime) (id : String)
    → closing_terminal r.graph es ≡ some terminal
    → ((not (contains id (ready_node_ids (close_unselected es source now r)))
          || id == source
          || id == terminal)
        ≡ true)
      × (any (other_under_way source) (close_unselected es source now r).attempts ≡ false)
unfolding close_unselected stop_attempts
close_unselected-Closed es source terminal now r id e =
    let r' = close_unselected es source now r in
    (
      elim (Bool-cases (contains id (ready_node_ids r'))) [
        | inl t ↦ ground (arith, t, close_unselected_ready es source terminal now r id e t)
        | inr f ↦ ground (arith, f)
      ],
      rw (e, close_unselected)
          (stopped (other_under_way source) "GRAPH_FAIL_CLOSED" now r.attempts (λ a. ground arith)),
    )
