-- ===== src/Graph/Cancelling.antt =====
-- A cancelled run of gateway/src/dgx_moa/execution_graph.py is left with its terminal node to run.
use mo_e_mo_a_integrated_com.Graph.{
  outgoing, is_edge_type, is_under_way, GraphEdge, GraphRuntime, GraphEnv, on_failure, returned,
}
use mo_e_mo_a_integrated_com.Graph.Ready.{
  map_states, is_ready, ready_node_ids, default_args, counted_runtime, take_checkpoint,
  save_attempt, persist,
}
use mo_e_mo_a_integrated_com.Graph.Edges.{record_edges, stop_attempts}
use mo_e_mo_a_integrated_com.Graph.Fail.{
  first_terminal, cancel_source, cancelled_state, cancel_all, end_cancelled, cancel,
}
use mo_e_mo_a_integrated_com.Graph.Invariant.{if_either}
use mo_e_mo_a_integrated_com.Graph.Closing.{
  lookup-map_states, ready-may_start, cancelled_not_started, stopped,
}
use mo_e_mo_a_integrated_com.Dict.{lookup}
use mo_e_mo_a_integrated_com.Base.{
  ℕ, String, ◌==◌, eq_refl, ◌≡◌, refl, sym, subst, inl, inr, Bool, true, false, not, ◌&&◌, ◌||◌,
  none, some, List, [], ◌∷◌, arith, Bool-cases, Option-cases, keep_if, any, first, contains,
  contains-append_one,
}

cancelled_ready :
    (now : ℕ) (r x : GraphRuntime) (id : String)
    → x.node_states ≡ (cancel_all now r).node_states
    → contains id (ready_node_ids x) ≡ true
    → (id == first_terminal r.graph) ≡ true
unfolding cancel_all stop_attempts
cancelled_ready now r x id same h =
    let f = cancelled_state (first_terminal r.graph) in
    let ready = ready-may_start x id h in
    let found : lookup id (map_states f r.node_states) ≡ some ready.0 =
      subst (λ d. lookup id d ≡ some ready.0) same ready.1 in
    elim (Option-cases (lookup id r.node_states)) [
      | inl n ↦ absurd (ground (arith, n, found, lookup-map_states f r.node_states id))
      | inr (s, n) ↦
          cancelled_not_started (first_terminal r.graph) id s
            (ground (arith, n, found, ready.2, lookup-map_states f r.node_states id))
    ]

any-first {ℓ} :
    {A : Type ℓ} (p q s : A → Bool) (xs : List A) (x : A)
    → first p (keep_if q xs) ≡ some x
    → (p x ≡ true → s x ≡ true)
    → any s xs ≡ true
any-first p q s [] x h t = absurd (cc)
any-first p q s (y ∷ xs) x h t = elim (Bool-cases (q y && p y)) [
  | inl b ↦
      let same : y ≡ x = ground (arith, h, b) in
      let holds : s y ≡ true =
        subst (λ z. (p z ≡ true → s z ≡ true)) (sym same) t (ground (arith, b)) in
      ground (arith, holds)
  | inr b ↦ ground (arith, any-first p q s xs x (ground (arith, h, b)) t)
]

-- What is left of a cancelled run.
abbrev Ended : GraphRuntime → String → GraphRuntime → Type 0
Ended r id x =
    ((not (contains id (ready_node_ids x)) || id == first_terminal r.graph) ≡ true)
    × (any (λ a. is_under_way a.state) x.attempts ≡ false)
    × (any (λ e. e.to_node == first_terminal r.graph && contains e.edge_id x.selected_edge_ids)
          r.graph.edges
        ≡ true)

cancelled-Ended :
    (now : ℕ) (r : GraphRuntime) (id : String) (e : GraphEdge) (x : GraphRuntime)
    → first
        (λ e. is_edge_type e.edge_type on_failure && e.to_node == first_terminal r.graph)
        (outgoing r.graph (cancel_source r))
      ≡ some e
    → x.node_states ≡ (cancel_all now r).node_states
    → x.attempts ≡ (cancel_all now r).attempts
    → x.selected_edge_ids ≡ record_edges (e ∷ []) (cancel_all now r).selected_edge_ids
    → Ended r id x
unfolding cancel_all stop_attempts record_edges
cancelled-Ended now r id e x h states attempts selected = (
  elim (Bool-cases (contains id (ready_node_ids x))) [
    | inl t ↦ ground (arith, t, cancelled_ready now r x id states t)
    | inr f ↦ ground (arith, f)
  ],
  subst (λ xs. any (λ a. is_under_way a.state) xs ≡ false) (sym attempts)
      (stopped (λ a. is_under_way a.state) "GRAPH_CANCELLED" now r.attempts (λ a. refl)),
  any-first (λ e. is_edge_type e.edge_type on_failure && e.to_node == first_terminal r.graph)
      (λ e. e.from_node == cancel_source r)
      (λ e. e.to_node == first_terminal r.graph && contains e.edge_id x.selected_edge_ids)
      r.graph.edges e h
      (λ t. ground (
        arith,
        t,
        selected,
        eq_refl e.edge_id,
        contains-append_one e.edge_id e.edge_id r.selected_edge_ids,
      )),
)

persist-Ended :
    (env : GraphEnv) (r : GraphRuntime) (id : String) (now : ℕ) (x : GraphRuntime)
    → Ended r id x
    → Ended r id (persist env none "cancelled" now x)
unfolding persist take_checkpoint counted_runtime ready_node_ids is_ready
persist-Ended env r id now x h =
    if_either (Ended r id) x.stored
      (take_checkpoint env default_args "cancelled" now
        (record x { journal = save_attempt none x.journal })).1
      x h h

end_cancelled-Ended :
    (env : GraphEnv) (now : ℕ) (r r' : GraphRuntime) (id : String)
    → end_cancelled env now r ≡ returned tt r'
    → Ended r id r'
unfolding end_cancelled
end_cancelled-Ended env now r r' id h =
    let ends : GraphEdge → Bool =
      λ e. is_edge_type e.edge_type on_failure && e.to_node == first_terminal r.graph in
    let es = outgoing r.graph (cancel_source r) in
    let r1 = cancel_all now r in
    elim (Option-cases (first ends es)) [
      | inl n ↦ absurd (ground (arith, n, h))
      | inr (e, s) ↦
          let x = record r1 {
            selected_edge_ids = record_edges (e ∷ []) r1.selected_edge_ids;
            terminal_status = none;
          } in
          let same : persist env none "cancelled" now x ≡ r' = ground (arith, h, s) in
          subst (Ended r id) same
            (persist-Ended env r id now x (cancelled-Ended now r id e x s refl refl refl))
    ]

-- When a run that has not ended is cancelled without a fault, only its first terminal node may be
-- ready, no attempt is under way, and an edge into that terminal node is selected.
pub cancel-Ended :
    (env : GraphEnv) (now : ℕ) (r r' : GraphRuntime) (id : String)
    → r.final_emitted ≡ false
    → cancel env now r ≡ returned tt r'
    → ((not (contains id (ready_node_ids r')) || id == first_terminal r.graph) ≡ true)
      × (any (λ a. is_under_way a.state) r'.attempts ≡ false)
      × (any
            (λ e. e.to_node == first_terminal r.graph && contains e.edge_id r'.selected_edge_ids)
            r.graph.edges
          ≡ true)
unfolding cancel
cancel-Ended env now r r' id f h = end_cancelled-Ended env now r r' id (ground (arith, f, h))
