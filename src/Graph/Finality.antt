-- ===== src/Graph/Finality.antt =====
-- How `finalize_ready` of gateway/src/dgx_moa/execution_graph.py ends a run.
use mo_e_mo_a_integrated_com.Graph.{
  find_node, is_type, is_completed, then_run, TerminalStatus, GraphNode, NodeAttempt, GraphRuntime,
  Ran, GraphEnv, finalize, checkpoint, on_checkpoint, raised, returned,
}
use mo_e_mo_a_integrated_com.Graph.Ready.{ready_node_ids, find_attempt}
use mo_e_mo_a_integrated_com.Graph.Start.{start_attempt}
use mo_e_mo_a_integrated_com.Graph.Edges.{select_outcome_edges, apply_selected_edges}
use mo_e_mo_a_integrated_com.Graph.Finish.{
  new_progress, status_fault, finish_fault, settle, emit, record_finish, complete_finish,
  finish_node, active_attempt, finish_attempt, finish_defaults, FinishArgs,
}
use mo_e_mo_a_integrated_com.Graph.Fail.{first_terminal}
use mo_e_mo_a_integrated_com.Graph.Driving.{
  waiting_for_external, final_args, run_checkpoint, run_terminal, finalize_ready, Observation,
}
use mo_e_mo_a_integrated_com.Graph.Finishing.{state_of, finish_fault-status}
use mo_e_mo_a_integrated_com.Graph.Once.{
  SameEnd, persist-SameEnd, finish_attempt-SameEnd, start_attempt-SameEnd,
}
use mo_e_mo_a_integrated_com.Base.{
  ℕ, String, ◌≡◌, refl, sym, ◌∙◌, subst, inl, inr, Bool, true, false, not, ◌&&◌, none, some, List,
  arith, Bool-cases, Option-cases, first, is_empty, contains,
}

-- What ends a run that had not ended: the status given, if `completed` on validated evidence.
abbrev pub Ends : TerminalStatus → List String → GraphRuntime → GraphRuntime → Type 0
Ends status validated r r' =
    (r.final_emitted ≡ false)
    × (r'.final_emitted ≡ true)
    × (r'.terminal_status ≡ some status)
    × (is_completed status && is_empty validated ≡ false)

-- Only a FINALIZE node is finished with a terminal status.
status_final :
    (args : FinishArgs) (status : TerminalStatus) (n : GraphNode) (r : GraphRuntime)
    → args.terminal_status ≡ some status
    → status_fault n args r ≡ none
    → (is_type n.node_type finalize ≡ true)
      × (r.final_emitted ≡ false)
      × (is_completed status && is_empty args.validated_evidence_ids ≡ false)
unfolding status_fault
status_final args status n r e h = ground (arith, e, h)

complete-Ends :
    (env : GraphEnv) (args : FinishArgs) (status : TerminalStatus) (n : GraphNode) (id : String)
    (now : ℕ) (r x : GraphRuntime)
    → args.terminal_status ≡ some status
    → status_fault n args r ≡ none
    → Ends status args.validated_evidence_ids r (record_finish env id n now (emit args n x))
unfolding record_finish emit
complete-Ends env args status n id now r x e h =
    let s = status_final args status n r e h in
    let ended = record x { final_emitted = true; terminal_status = args.terminal_status } in
    let kept =
      persist-SameEnd env (find_attempt id ended.attempts) "attempt_finished" now ended ended
        (refl, refl) in
    let plain : (is_type n.node_type checkpoint) ≡ false = ground (arith, s.0) in
    rw (s.0, plain, record_finish, emit) (s.1, kept.0, kept.1 ∙ e, s.2)

finish_node-Ends :
    (env : GraphEnv) (args : FinishArgs) (status : TerminalStatus) (n : GraphNode) (id : String)
    (now : ℕ) (r r' : GraphRuntime)
    → args.terminal_status ≡ some status
    → finish_node env args id n now r ≡ returned tt r'
    → Ends status args.validated_evidence_ids r r'
unfolding finish_node complete_finish
finish_node-Ends env args status n id now r r' e h = elim (Option-cases (finish_fault n args r)) [
  | inr (fault, p) ↦ absurd (ground (arith, h, p))
  | inl p ↦
      elim (Option-cases
        (select_outcome_edges r n args.outcome (not (is_empty (new_progress args r))))) [
          | inl q ↦ absurd (ground (arith, h, p, q))
          | inr (c, q) ↦
              let x =
                apply_selected_edges c.edges n (new_progress args r) now
                  (settle args id n c now r) in
              let same : record_finish env id n now (emit args n x) ≡ r' =
                ground (arith, h, p, q) in
              subst (Ends status args.validated_evidence_ids r) same
                (complete-Ends env args status n id now r x e (finish_fault-status args n r p))
        ]
]

-- Whichever node an attempt is at, finishing it with a terminal status ends the run.
finish_attempt-Ends :
    (env : GraphEnv) (args : FinishArgs) (status : TerminalStatus) (id : String) (now : ℕ)
    (r r' : GraphRuntime)
    → args.terminal_status ≡ some status
    → finish_attempt env args id now r ≡ returned tt r'
    → Ends status args.validated_evidence_ids r r'
unfolding finish_attempt
finish_attempt-Ends env args status id now r r' e h = elim (Option-cases (active_attempt id r)) [
  | inl p ↦ absurd (ground (arith, h, p))
  | inr (a, p) ↦ elim (Option-cases (find_node r.graph a.node_id)) [
    | inl q ↦ absurd (ground (arith, h, p, q))
    | inr (n, q) ↦ finish_node-Ends env args status n id now r r' e (ground (arith, h, p, q))
  ]
]

-- A chain of calls that returns has come through each of them.
then_run-returned :
    {A B : Type 0} (x : Ran A) (next : A → GraphRuntime → Ran B) (b : B) (r' : GraphRuntime)
    → then_run x next ≡ returned b r'
    → (a : A) × (y : GraphRuntime) × (x ≡ returned a y) × (next a y ≡ returned b r')
unfolding then_run
then_run-returned (raised fault r) next b r' h = cc
then_run-returned (returned a r) next b r' h = (a, r, refl, h)

-- A run that has ended stays so, so one that has not ended after the call had not before.
not_ended :
    (r x : GraphRuntime)
    → (r.final_emitted ≡ true → SameEnd r x)
    → x.final_emitted ≡ false
    → r.final_emitted ≡ false
not_ended r x h n = elim (Bool-cases r.final_emitted) [
  | inl t ↦ absurd (ground (arith, (h t).0, t, n))
  | inr f ↦ f
]

run_checkpoint-SameEnd :
    (env : GraphEnv) (now : ℕ) (r : GraphRuntime)
    → r.final_emitted ≡ true
    → SameEnd r (state_of (run_checkpoint env now r))
unfolding run_checkpoint then_run
run_checkpoint-SameEnd env now r t =
    let ready = ready_node_ids r in
    let wanted : GraphNode → Bool =
      λ n. is_type n.node_type checkpoint && contains n.node_id ready in
    elim (Option-cases (first wanted r.graph.nodes)) [
      | inl e ↦ rw (e, run_checkpoint) (refl, refl)
      | inr (n, e) ↦
          rw (e, run_checkpoint)
            (chained (start_attempt env n.node_id none now r)
              (start_attempt-SameEnd env n.node_id none now r))
    ]
  where
    chained :
        (x : Ran NodeAttempt)
        → SameEnd r (state_of x)
        → SameEnd r (
            state_of (
              then_run x (λ a r'.
                finish_attempt env
                  (record finish_defaults { outcome = on_checkpoint })
                  a.attempt_id
                  now
                  r')))
    chained (raised fault y) h = h
    chained (returned a y) h =
        let k =
          finish_attempt-SameEnd env (record finish_defaults { outcome = on_checkpoint })
            a.attempt_id now y (h.0 ∙ t) in
        (k.0 ∙ h.0, k.1 ∙ h.1)

run_terminal-Ends :
    (env : GraphEnv) (args : FinishArgs) (status : TerminalStatus) (now : ℕ) (r r' : GraphRuntime)
    → args.terminal_status ≡ some status
    → run_terminal env args now r ≡ returned tt r'
    → Ends status args.validated_evidence_ids r r'
unfolding run_terminal
run_terminal-Ends env args status now r r' e h =
    let (a, y, s, k) =
      then_run-returned (start_attempt env (first_terminal r.graph) none now r)
        (λ a x. finish_attempt env args a.attempt_id now x) tt r' h in
    let z = finish_attempt-Ends env args status a.attempt_id now y r' e k in
    let same =
      subst (λ x. SameEnd r (state_of x)) s
        (start_attempt-SameEnd env (first_terminal r.graph) none now r) in
    (sym same.0 ∙ z.0, z.1, z.2, z.3)

-- A call of finalize_ready that returns while neither a tool nor an approval is waited for has ended a
-- run that had not ended, with the status that it was given; if that is `completed`, validated
-- evidence was given too.
pub finalize_ready-Ends :
    (env : GraphEnv) (status : TerminalStatus) (seen : Observation) (now : ℕ) (r r' : GraphRuntime)
    → waiting_for_external r ≡ false
    → finalize_ready env status seen now r ≡ returned tt r'
    → (r.final_emitted ≡ false)
      × (r'.final_emitted ≡ true)
      × (r'.terminal_status ≡ some status)
      × (is_completed status && is_empty seen.validated_evidence_ids ≡ false)
unfolding finalize_ready final_args
finalize_ready-Ends env status seen now r r' free h =
    let args = final_args status seen in
    let through : then_run (run_checkpoint env now r) (λ u x. run_terminal env args now x)
        ≡ returned tt r' =
      ground (arith, free, h) in
    let (u, y, s, k) =
      then_run-returned (run_checkpoint env now r) (λ u x. run_terminal env args now x) tt r'
        through in
    let z = run_terminal-Ends env args status now y r' refl k in
    let back : r.final_emitted ≡ true → SameEnd r y =
      λ t. subst (λ x. SameEnd r (state_of x)) s (run_checkpoint-SameEnd env now r t) in
    (not_ended r y back z.0, z.1, z.2, z.3)
