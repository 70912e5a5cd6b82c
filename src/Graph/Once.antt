-- ===== src/Graph/Once.antt =====
-- The end of a run of gateway/src/dgx_moa/execution_graph.py is given once.
use mo_e_mo_a_integrated_com.Graph.{
  outgoing, find_node, is_type, is_edge_type, GraphNode, GraphEdge, NodeAttempt, GraphRuntime,
  GraphEnv, checkpoint, finalize, on_success,
}
use mo_e_mo_a_integrated_com.Graph.Ready.{
  ready_node_ids, last_moment, find_attempt, default_args, counted_runtime, take_checkpoint,
  save_attempt, persist,
}
use mo_e_mo_a_integrated_com.Graph.Start.{
  pin_to, is_blank_text, new_attempt, begin_attempt, start_node, start_attempt,
}
use mo_e_mo_a_integrated_com.Graph.Edges.{
  record_edges, closing_terminal, stop_attempts, close_unselected, select_outcome_edges,
  skip_fallbacks, rewind, apply_selected_edges, Choice,
}
use mo_e_mo_a_integrated_com.Graph.Finish.{
  new_progress, finish_fault, settle, emit, close_checkpoint, record_finish, complete_finish,
  finish_node, active_attempt, finish_attempt, FinishArgs,
}
use mo_e_mo_a_integrated_com.Graph.Invariant.{if_either}
use mo_e_mo_a_integrated_com.Graph.Selecting.{repair-Either}
use mo_e_mo_a_integrated_com.Graph.Finishing.{state_of, finish_fault-Passed, Passed}
use mo_e_mo_a_integrated_com.Dict.{lookup, insert}
use mo_e_mo_a_integrated_com.Base.{
  ℕ, ◌+◌, String, ◌≡◌, refl, inl, inr, true, false, not, Option, some, List, [], ◌∷◌, ◌++◌, arith,
  leb, Bool-cases, get_or, Option-cases, any, is_empty, contains,
}

-- The end of the run is as it was.
abbrev pub SameEnd : GraphRuntime → GraphRuntime → Type 0
SameEnd r x = (x.final_emitted ≡ r.final_emitted) × (x.terminal_status ≡ r.terminal_status)

pub persist-SameEnd :
    (env : GraphEnv) (attempt : Option NodeAttempt) (reason : String) (now : ℕ) (r x : GraphRuntime)
    → SameEnd r x
    → SameEnd r (persist env attempt reason now x)
unfolding persist take_checkpoint counted_runtime
persist-SameEnd env attempt reason now r x h =
    if_either (SameEnd r) x.stored
      (take_checkpoint env default_args reason now
        (record x { journal = save_attempt attempt x.journal })).1
      x h h

pub close_unselected-SameEnd :
    (es : List GraphEdge) (source : String) (now : ℕ) (r x : GraphRuntime)
    → SameEnd r x
    → SameEnd r (close_unselected es source now x)
unfolding close_unselected stop_attempts
close_unselected-SameEnd es source now r x h = elim (Option-cases (closing_terminal x.graph es)) [
  | inl e ↦ rw (e, close_unselected) h
  | inr (t, e) ↦ rw (e, close_unselected) h
]

apply_selected_edges-SameEnd :
    (es : List GraphEdge) (n : GraphNode) (progress : List String) (now : ℕ) (r x : GraphRuntime)
    → SameEnd r x
    → SameEnd r (apply_selected_edges es n progress now x)
apply_selected_edges-SameEnd es n progress now r x h =
    let x0 = record x { selected_edge_ids = record_edges es x.selected_edge_ids } in
    let x1 = close_unselected es n.node_id now x0 in
    let h1 = close_unselected-SameEnd es n.node_id now r x0 h in
    repair-Either (SameEnd r) es n progress now x
      (if_either (SameEnd r) (any (λ e. is_edge_type e.edge_type on_success) es)
        (record x1 { node_states = skip_fallbacks (outgoing x1.graph n.node_id) x1.node_states }) x1
        h1 h1)
      (λ e y k. unfold rewind in k)

record_finish-SameEnd :
    (env : GraphEnv) (id : String) (n : GraphNode) (now : ℕ) (r x : GraphRuntime)
    → SameEnd r x
    → SameEnd r (record_finish env id n now x)
unfolding record_finish close_checkpoint take_checkpoint counted_runtime
record_finish-SameEnd env id n now r x h =
    if_either (SameEnd r) (is_type n.node_type checkpoint) (close_checkpoint env id now x)
      (persist env (find_attempt id x.attempts) "attempt_finished" now x) h
      (persist-SameEnd env (find_attempt id x.attempts) "attempt_finished" now r x h)

complete_finish-SameEnd :
    (env : GraphEnv) (args : FinishArgs) (id : String) (n : GraphNode) (c : Choice) (now : ℕ)
    (r : GraphRuntime)
    → is_type n.node_type finalize ≡ false
    → SameEnd r (complete_finish env args id n c now r)
unfolding complete_finish emit
complete_finish-SameEnd env args id n c now r f =
    let x = apply_selected_edges c.edges n (new_progress args r) now (settle args id n c now r) in
    let h : SameEnd r x =
      apply_selected_edges-SameEnd c.edges n (new_progress args r) now r (settle args id n c now r)
        (unfold settle in (refl, refl)) in
    record_finish-SameEnd env id n now r (emit args n x) (rw (f, emit) h)

pub finish_attempt-SameEnd :
    (env : GraphEnv) (args : FinishArgs) (id : String) (now : ℕ) (r : GraphRuntime)
    → r.final_emitted ≡ true
    → SameEnd r (state_of (finish_attempt env args id now r))
unfolding finish_attempt finish_node
finish_attempt-SameEnd env args id now r t = elim (Option-cases (active_attempt id r)) [
  | inl e ↦ rw (e, finish_attempt) (refl, refl)
  | inr (a, e) ↦ elim (Option-cases (find_node r.graph a.node_id)) [
    | inl f ↦ rw (e, f, finish_attempt) (refl, refl)
    | inr (n, f) ↦ elim (Option-cases (finish_fault n args r)) [
      | inr (x, g) ↦ rw (e, f, g, finish_attempt, finish_node) (refl, refl)
      | inl g ↦
          let other : is_type n.node_type finalize ≡ false =
            not_final n (finish_fault-Passed args n r g) in
          elim (Option-cases
            (select_outcome_edges r n args.outcome (not (is_empty (new_progress args r))))) [
              | inl s ↦ rw (e, f, g, s, finish_attempt, finish_node) (refl, refl)
              | inr (c, s) ↦
                  rw (e, f, g, s, finish_attempt, finish_node)
                    (complete_finish-SameEnd env args id n c now r other)
            ]
    ]
  ]
]
  where
    not_final : (n : GraphNode) → Passed args n r → is_type n.node_type finalize ≡ false
    not_final n p = elim (Bool-cases (is_type n.node_type finalize)) [
      | inl b ↦ absurd (ground (arith, p.first_end b, t))
      | inr b ↦ b
    ]

begin_attempt-SameEnd :
    (env : GraphEnv) (n : GraphNode) (now : ℕ) (r x : GraphRuntime)
    → SameEnd r x
    → SameEnd r (state_of (begin_attempt env n now x))
unfolding begin_attempt
begin_attempt-SameEnd env n now r x h =
    let count = get_or (lookup n.node_id x.attempt_counts) 0 + 1 in
    let a = new_attempt env n x.model_pins count now x in
    persist-SameEnd env (some a) "attempt_started" now r
      (record x {
        attempt_counts = insert n.node_id count x.attempt_counts;
        node_states = insert n.node_id a.state x.node_states;
        attempts = x.attempts ++ a ∷ [];
      })
      h

start_node-SameEnd :
    (env : GraphEnv) (n : GraphNode) (model : Option String) (now : ℕ) (r : GraphRuntime)
    → SameEnd r (state_of (start_node env n model now r))
unfolding start_node
start_node-SameEnd env n model now r =
    elim (Option-cases (pin_to n.node_id n.provider r.provider_pins)) [
      | inl e ↦ rw (e, start_node) (refl, refl)
      | inr (ps, e) ↦ elim (Bool-cases (is_blank_text model)) [
        | inl b ↦ rw (e, b, start_node) (refl, refl)
        | inr b ↦ elim (Option-cases (pin_to n.node_id model r.model_pins)) [
          | inl f ↦ rw (e, b, f, start_node) (refl, refl)
          | inr (ms, f) ↦
              rw (e, b, f, start_node)
                (begin_attempt-SameEnd env n now r
                  (record r { provider_pins = ps; model_pins = ms }) (refl, refl))
        ]
      ]
    ]

pub start_attempt-SameEnd :
    (env : GraphEnv) (id : String) (model : Option String) (now : ℕ) (r : GraphRuntime)
    → SameEnd r (state_of (start_attempt env id model now r))
unfolding start_attempt
start_attempt-SameEnd env id model now r = elim (Bool-cases (leb (last_moment r.graph) now)) [
  | inl b ↦ rw (b, start_attempt) (refl, refl)
  | inr b ↦ elim (Bool-cases (contains id (ready_node_ids r))) [
    | inr c ↦ rw (b, c, start_attempt) (refl, refl)
    | inl c ↦ elim (Option-cases (find_node r.graph id)) [
      | inl f ↦ rw (b, c, f, start_attempt) (refl, refl)
      | inr (n, f) ↦ rw (b, c, f, start_attempt) (start_node-SameEnd env n model now r)
    ]
  ]
]
