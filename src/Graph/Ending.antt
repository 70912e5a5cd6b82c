-- ===== src/Graph/Ending.antt =====
-- `finish_attempt` of gateway/src/dgx_moa/execution_graph.py keeps the runtime's invariant: it ends a run
-- as completed only on an attempt with validated evidence.
use mo_e_mo_a_integrated_com.Graph.{
  find_node, is_type, GraphNode, NodeAttempt, GraphRuntime, GraphEnv, checkpoint, finalize,
}
use mo_e_mo_a_integrated_com.Graph.Ready.{
  find_attempt, set_attempt, default_args, counted_runtime, take_checkpoint, persist,
}
use mo_e_mo_a_integrated_com.Graph.Edges.{select_outcome_edges, apply_selected_edges, Choice}
use mo_e_mo_a_integrated_com.Graph.Finish.{
  new_progress, finish_fault, finished_attempt, settle, emit, close_checkpoint, record_finish,
  complete_finish, finish_node, active_attempt, finish_attempt, FinishArgs,
}
use mo_e_mo_a_integrated_com.Graph.Invariant.{
  ends_validated, is_completed_run, Inv, if_either, persist-Inv, attempts-Inv,
}
use mo_e_mo_a_integrated_com.Graph.Known.{Known}
use mo_e_mo_a_integrated_com.Graph.Attempts.{set_attempt_keeps, set_attempt_found}
use mo_e_mo_a_integrated_com.Graph.Selecting.{
  apply_selected_edges-Inv, apply_selected_edges-Follows,
}
use mo_e_mo_a_integrated_com.Graph.Choosing.{select_outcome_edges-Sensible, Sensible}
use mo_e_mo_a_integrated_com.Graph.Finishing.{
  state_of, active-ends, change_active-Follows, finish_fault-Passed, Passed,
}
use mo_e_mo_a_integrated_com.Base.{
  ℕ, String, eq_refl, ◌≡◌, refl, sym, ◌∙◌, subst, inl, inr, true, false, not, some, List, [], ◌∷◌,
  arith, Bool-cases, is_some, Option-cases, any, is_empty, All, contains, dedup, contains-dedup,
}

full : (ys : List String) (k : String) → contains k ys ≡ true → is_empty ys ≡ false
full [] k h = absurd (cc)
full (y ∷ ys) k h = refl

nonempty-dedup : (xs : List String) → is_empty xs ≡ false → is_empty (dedup xs) ≡ false
nonempty-dedup [] h = absurd (cc)
nonempty-dedup (x ∷ xs) h =
    full (dedup (x ∷ xs)) x (ground (arith, contains-dedup x (x ∷ xs), eq_refl x))

module _ (args : FinishArgs) (id : String) (n : GraphNode) (c : Choice) (now : ℕ) where
  settle-Inv :
      (r : GraphRuntime) (a : NodeAttempt)
      → active_attempt id r ≡ some a
      → Passed args n r
      → Sensible r c
      → Inv r
      → Inv (settle args id n c now r)
  unfolding settle
  settle-Inv r a h p s v = record {
    tokens = p.tokens;
    tools = ground (arith, p.tools, v.tools);
    traversed = s.bounded;
    selected = v.selected;
    ended = v.ended;
    validated =
        λ t. change_active-Follows id a (finished_attempt args c.edges now) r h (v.validated t);
  }

  -- A run that may end as completed has an attempt that says so.
  settle_ends :
      (r : GraphRuntime) (a : NodeAttempt)
      → active_attempt id r ≡ some a
      → find_node r.graph a.node_id ≡ some n
      → is_type n.node_type finalize ≡ true
      → is_empty args.validated_evidence_ids ≡ false
      → any (ends_validated r.graph) (settle args id n c now r).attempts ≡ true
  unfolding settle finished_attempt
  settle_ends r a h f t e =
      set_attempt_found (ends_validated r.graph) id (finished_attempt args c.edges now) r.attempts a
        (active-ends id a r h).0
        (ground (arith, f, t, e, nonempty-dedup args.validated_evidence_ids))

emit-Inv :
    (args : FinishArgs) (n : GraphNode) (r : GraphRuntime)
    → (is_type n.node_type finalize ≡ true → is_some args.terminal_status ≡ true)
    → (is_type n.node_type finalize ≡ true
        → is_completed_run args.terminal_status ≡ true
        → any (ends_validated r.graph) r.attempts ≡ true)
    → Inv r
    → Inv (emit args n r)
unfolding emit
emit-Inv args n r s e v = elim (Bool-cases (is_type n.node_type finalize)) [
  | inl t ↦
      rw (t, emit)
        (record {
          tokens = v.tokens;
          tools = v.tools;
          traversed = v.traversed;
          selected = v.selected;
          ended = sym (s t);
          validated = e t;
        })
  | inr f ↦ rw (f, emit) v
]

close_checkpoint-Inv :
    (env : GraphEnv) (id : String) (now : ℕ) (r : GraphRuntime)
    → Inv r
    → Inv (close_checkpoint env id now r)
unfolding close_checkpoint take_checkpoint counted_runtime
close_checkpoint-Inv env id now r v =
    let taken = take_checkpoint env default_args "checkpoint_node" now r in
    let name : NodeAttempt → NodeAttempt =
      λ a. record a { checkpoint_id = some taken.0.checkpoint_id } in
    attempts-Inv (set_attempt id name r.attempts) r
      (set_attempt_keeps (ends_validated r.graph) id name r.attempts (λ a e h. h)) v

record_finish-Inv :
    (env : GraphEnv) (id : String) (n : GraphNode) (now : ℕ) (r : GraphRuntime)
    → Inv r
    → Inv (record_finish env id n now r)
unfolding record_finish
record_finish-Inv env id n now r v =
    if_either Inv (is_type n.node_type checkpoint) (close_checkpoint env id now r)
      (persist env (find_attempt id r.attempts) "attempt_finished" now r)
      (close_checkpoint-Inv env id now r v)
      (persist-Inv env (find_attempt id r.attempts) "attempt_finished" now r v)

complete_finish-Inv :
    (env : GraphEnv) (args : FinishArgs) (id : String) (n : GraphNode) (c : Choice) (now : ℕ)
    (r : GraphRuntime) (a : NodeAttempt)
    → active_attempt id r ≡ some a
    → find_node r.graph a.node_id ≡ some n
    → Passed args n r
    → Sensible r c
    → Inv r
    → Inv (complete_finish env args id n c now r)
unfolding complete_finish
complete_finish-Inv env args id n c now r a h f p s v =
    let r1 = settle args id n c now r in
    let progress = new_progress args r in
    let r2 = apply_selected_edges c.edges n progress now r1 in
    let known : All (Known r1.graph.edges) c.edges = unfold settle in s.known in
    let still = apply_selected_edges-Follows c.edges n progress now r1 in
    let g : r2.graph ≡ r.graph = still.0 ∙ unfold settle in refl in
    record_finish-Inv env id n now (emit args n r2) (
      emit-Inv args n r2 p.status
        (λ t e.
          subst (λ x. any (ends_validated x) r2.attempts ≡ true) (sym g)
            (still.1 (settle_ends args id n c now r a h f t (p.validated t e))))
        (apply_selected_edges-Inv c.edges n progress now r1 known
          (settle-Inv args id n c now r a h p s v)))

finish_node-Inv :
    (env : GraphEnv) (args : FinishArgs) (id : String) (n : GraphNode) (now : ℕ) (r : GraphRuntime)
    (a : NodeAttempt)
    → active_attempt id r ≡ some a
    → find_node r.graph a.node_id ≡ some n
    → Inv r
    → Inv (state_of (finish_node env args id n now r))
unfolding finish_node
finish_node-Inv env args id n now r a h f v = elim (Option-cases (finish_fault n args r)) [
  | inr (x, e) ↦ rw (e, finish_node) v
  | inl e ↦
      let has_progress = not (is_empty (new_progress args r)) in
      elim (Option-cases (select_outcome_edges r n args.outcome has_progress)) [
        | inl s ↦ rw (e, s, finish_node) v
        | inr (c, s) ↦
            rw (e, s, finish_node)
              (complete_finish-Inv env args id n c now r a h f (finish_fault-Passed args n r e)
                (select_outcome_edges-Sensible r n args.outcome has_progress c v s) v)
      ]
]

pub finish_attempt-Inv :
    (env : GraphEnv) (args : FinishArgs) (id : String) (now : ℕ) (r : GraphRuntime)
    → Inv r
    → Inv (state_of (finish_attempt env args id now r))
unfolding finish_attempt
finish_attempt-Inv env args id now r v = elim (Option-cases (active_attempt id r)) [
  | inl e ↦ rw (e, finish_attempt) v
  | inr (a, e) ↦ elim (Option-cases (find_node r.graph a.node_id)) [
    | inl f ↦ rw (e, f, finish_attempt) v
    | inr (n, f) ↦ rw (e, f, finish_attempt) (finish_node-Inv env args id n now r a e f v)
  ]
]
