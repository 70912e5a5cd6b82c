-- ===== src/Graph/Started.antt =====
-- When `start_attempt` of gateway/src/dgx_moa/execution_graph.py starts a node, and what it leaves.
use mo_e_mo_a_integrated_com.Graph.{
  find_node, GraphNode, NodeAttempt, GraphRuntime, GraphEnv, returned,
}
use mo_e_mo_a_integrated_com.Graph.Ready.{
  ready_node_ids, last_moment, default_args, counted_runtime, take_checkpoint, save_attempt,
  persist,
}
use mo_e_mo_a_integrated_com.Graph.Start.{
  pin_to, is_blank_text, started_state, new_attempt, begin_attempt, start_node, start_attempt,
}
use mo_e_mo_a_integrated_com.Graph.Invariant.{if_either}
use mo_e_mo_a_integrated_com.Graph.Attempts.{last_match-holds}
use mo_e_mo_a_integrated_com.Dict.{lookup, insert, lookup-insert}
use mo_e_mo_a_integrated_com.Base.{
  ℕ, ◌+◌, ◌<◌, String, ◌==◌, eq_refl, ◌≡◌, refl, ◌∙◌, subst, inl, inr, true, Option, some, [], ◌∷◌,
  ◌++◌, arith, Bool-cases, get_or, Option-cases, map_some, contains, string_same,
}

-- What a start leaves of a run.
abbrev Begun : GraphNode → NodeAttempt → GraphRuntime → GraphRuntime → Type 0
Begun n a r x =
    (a.node_id ≡ n.node_id)
    × (lookup n.node_id x.node_states ≡ some (started_state n.node_type))
    × (lookup n.node_id x.attempt_counts ≡ some (get_or (lookup n.node_id r.attempt_counts) 0 + 1))
    × (x.attempts ≡ r.attempts ++ a ∷ [])

begin_attempt-Begun :
    (env : GraphEnv) (n : GraphNode) (now : ℕ) (r : GraphRuntime) (a : NodeAttempt)
    (r' : GraphRuntime)
    → begin_attempt env n now r ≡ returned a r'
    → Begun n a r r'
unfolding begin_attempt new_attempt persist take_checkpoint counted_runtime
begin_attempt-Begun env n now r a r' h =
    let count = get_or (lookup n.node_id r.attempt_counts) 0 + 1 in
    let b = new_attempt env n r.model_pins count now r in
    let x = record r {
      attempt_counts = insert n.node_id count r.attempt_counts;
      node_states = insert n.node_id b.state r.node_states;
      attempts = r.attempts ++ b ∷ [];
    } in
    let fresh : Begun n b r x = (
      refl,
      ground (arith, lookup-insert n.node_id n.node_id b.state r.node_states, eq_refl n.node_id),
      ground (arith, lookup-insert n.node_id n.node_id count r.attempt_counts, eq_refl n.node_id),
      refl,
    ) in
    let kept =
      if_either (Begun n b r) x.stored
        (take_checkpoint env default_args "attempt_started" now
          (record x { journal = save_attempt (some b) x.journal })).1
        x fresh fresh in
    let same : persist env (some b) "attempt_started" now x ≡ r' = ground (arith, h) in
    let who : b ≡ a = ground (arith, h) in
    subst (λ c. Begun n c r r') who (subst (Begun n b r) same kept)

start_node-Begun :
    (env : GraphEnv) (n : GraphNode) (model : Option String) (now : ℕ) (r : GraphRuntime)
    (a : NodeAttempt) (r' : GraphRuntime)
    → start_node env n model now r ≡ returned a r'
    → Begun n a r r'
unfolding start_node
start_node-Begun env n model now r a r' h =
    elim (Option-cases (pin_to n.node_id n.provider r.provider_pins)) [
      | inl e ↦ absurd (ground (arith, h, e))
      | inr (ps, e) ↦ elim (Bool-cases (is_blank_text model)) [
        | inl b ↦ absurd (ground (arith, h, e, b))
        | inr b ↦ elim (Option-cases (pin_to n.node_id model r.model_pins)) [
          | inl f ↦ absurd (ground (arith, h, e, b, f))
          | inr (ms, f) ↦
              begin_attempt-Begun env n now (record r { provider_pins = ps; model_pins = ms }) a r'
                (ground (arith, h, e, b, f))
        ]
      ]
    ]

-- A node is started only while it is ready and the graph's deadline and its time budget have not
-- passed; its attempt is then the last one, is counted, and the node is in the state that its type
-- starts in.
pub start_attempt-Begun :
    (env : GraphEnv) (id : String) (model : Option String) (now : ℕ) (r : GraphRuntime)
    (a : NodeAttempt) (r' : GraphRuntime)
    → start_attempt env id model now r ≡ returned a r'
    → (now < r.graph.deadline)
      × (now < r.graph.created_at + r.graph.budgets.wall_clock_seconds)
      × (contains id (ready_node_ids r) ≡ true)
      × (a.node_id ≡ id)
      × (map_some started_state (map_some (λ n. n.node_type) (find_node r.graph id))
          ≡ lookup id r'.node_states)
      × (lookup id r'.attempt_counts ≡ some (get_or (lookup id r.attempt_counts) 0 + 1))
      × (r'.attempts ≡ r.attempts ++ a ∷ [])
unfolding start_attempt last_moment find_node
start_attempt-Begun env id model now r a r' h = elim (Option-cases (find_node r.graph id)) [
  | inl f ↦ absurd (ground (arith, h, f))
  | inr (n, f) ↦
      let begun : start_node env n model now r ≡ returned a r' = ground (arith, h, f) in
      let b = start_node-Begun env n model now r a r' begun in
      let own : n.node_id ≡ id =
        string_same n.node_id id (last_match-holds (λ n. n.node_id == id) r.graph.nodes n f) in
      (
        ground (arith, h),
        ground (arith, h),
        ground (arith, h),
        b.0 ∙ own,
        ground (arith, f, b.1, own),
        ground (arith, b.2, own),
        b.3,
      )
]
