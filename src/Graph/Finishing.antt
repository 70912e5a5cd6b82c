-- ===== src/Graph/Finishing.antt =====
-- `start_attempt` and `finish_attempt` of gateway/src/dgx_moa/execution_graph.py keep the runtime's
-- invariant.
use mo_e_mo_a_integrated_com.Graph.{
  is_type, is_active_state, is_succeeded, then_run, NodeState, GraphNode, NodeAttempt, GraphRuntime,
  Ran, tool, finalize, succeeded, raised, returned,
}
use mo_e_mo_a_integrated_com.Graph.Ready.{find_attempt, set_attempt}
use mo_e_mo_a_integrated_com.Graph.Finish.{
  status_fault, evidence_fault, finish_fault, active_attempt, FinishArgs,
}
use mo_e_mo_a_integrated_com.Graph.Invariant.{ends_validated, is_completed_run, Inv}
use mo_e_mo_a_integrated_com.Graph.Attempts.{set_attempt_keeps}
use mo_e_mo_a_integrated_com.Base.{
  ◌+◌, ◌≤◌, ◌<◌, String, ◌≡◌, refl, inl, inr, true, false, none, some, arith, is_some, Option-cases,
  any, is_empty,
}

-- The state that a call leaves, also where it is refused.
abbrev pub state_of : {A : Type 0} → Ran A → GraphRuntime
state_of (raised fault r) = r
state_of (returned x r) = r

pub then_run-Inv :
    {A B : Type 0} (x : Ran A) (next : A → GraphRuntime → Ran B)
    → Inv (state_of x)
    → ((a : A) (r : GraphRuntime) → Inv r → Inv (state_of (next a r)))
    → Inv (state_of (then_run x next))
unfolding then_run
then_run-Inv (raised fault r) next v h = v
then_run-Inv (returned a r) next v h = h a r v

succeeded_not_active : (s : NodeState) → is_succeeded s ≡ true → is_active_state s ≡ false
succeeded_not_active succeeded h = refl
succeeded_not_active s h = cc

-- An attempt that a call finds active has not ended the run.
pub active-ends :
    (id : String) (a : NodeAttempt) (r : GraphRuntime)
    → active_attempt id r ≡ some a
    → (find_attempt id r.attempts ≡ some a) × (ends_validated r.graph a ≡ false)
unfolding active_attempt
active-ends id a r h = elim (Option-cases (find_attempt id r.attempts)) [
  | inl e ↦ absurd (ground (arith, h, e))
  | inr (b, e) ↦ (ground (arith, h, e), ground (arith, h, e, succeeded_not_active b.state))
]

-- A change of the active attempt loses no ended run.
pub change_active-Follows :
    (id : String) (a : NodeAttempt) (f : NodeAttempt → NodeAttempt) (r : GraphRuntime)
    → active_attempt id r ≡ some a
    → any (ends_validated r.graph) r.attempts ≡ true
    → any (ends_validated r.graph) (set_attempt id f r.attempts) ≡ true
change_active-Follows id a f r h =
    set_attempt_keeps (ends_validated r.graph) id f r.attempts
      (λ b e t. absurd (ground (arith, e, t, active-ends id a r h)))

-- What the checks of `finish_attempt` have let through.
pub record Passed (args : FinishArgs) (n : GraphNode) (r : GraphRuntime) : Type 0 where
  pub tokens : r.token_usage + args.token_usage ≤ r.graph.budgets.tokens
  pub tools : is_type n.node_type tool ≡ true → r.tool_calls < r.graph.budgets.tool_calls
  pub status : is_type n.node_type finalize ≡ true → is_some args.terminal_status ≡ true
  pub validated :
      is_type n.node_type finalize ≡ true
      → is_completed_run args.terminal_status ≡ true
      → is_empty args.validated_evidence_ids ≡ false
  pub first_end : is_type n.node_type finalize ≡ true → r.final_emitted ≡ false

status_fault-Passed :
    (args : FinishArgs) (n : GraphNode) (r : GraphRuntime)
    → status_fault n args r ≡ none
    → is_type n.node_type finalize ≡ true
    → (is_some args.terminal_status ≡ true)
      × (is_completed_run args.terminal_status ≡ true
          → is_empty args.validated_evidence_ids ≡ false)
      × (r.final_emitted ≡ false)
unfolding status_fault
status_fault-Passed args n r h t = elim (Option-cases args.terminal_status) [
  | inl e ↦ absurd (ground (arith, h, e, t))
  | inr (s, e) ↦ (ground (arith, e), λ c. ground (arith, h, e, t, c), ground (arith, h, e, t))
]

evidence_fault-status :
    (args : FinishArgs) (n : GraphNode) (r : GraphRuntime)
    → evidence_fault n args r ≡ none
    → status_fault n args r ≡ none
unfolding evidence_fault
evidence_fault-status args n r h = grind (arith, h)

pub finish_fault-status :
    (args : FinishArgs) (n : GraphNode) (r : GraphRuntime)
    → finish_fault n args r ≡ none
    → status_fault n args r ≡ none
unfolding finish_fault
finish_fault-status args n r h = evidence_fault-status args n r (ground (arith, h))

pub finish_fault-Passed :
    (args : FinishArgs) (n : GraphNode) (r : GraphRuntime)
    → finish_fault n args r ≡ none
    → Passed args n r
unfolding finish_fault
finish_fault-Passed args n r h =
    let s = status_fault-Passed args n r (finish_fault-status args n r h) in
    record {
      tokens = ground (arith, h);
      tools = λ t. ground (arith, h, t);
      status = λ t. (s t).0;
      validated = λ t. (s t).1;
      first_end = λ t. (s t).2;
    }
