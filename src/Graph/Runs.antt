-- ===== src/Graph/Runs.antt =====
-- The runs of a graph of gateway/src/dgx_moa/execution_graph.py: the calls that a runtime may be given, in
-- any order, with those that are refused.
use mo_e_mo_a_integrated_com.Graph.{
  is_type, then_run, TerminalStatus, GraphNode, ExecutionGraph, NodeAttempt, GraphRuntime, Ran,
  GraphEnv, checkpoint, on_checkpoint, bad_reason, raised, returned,
}
use mo_e_mo_a_integrated_com.Graph.Ready.{
  new_runtime, ready_node_ids, take_checkpoint, checkpoint_for, CheckpointArgs,
}
use mo_e_mo_a_integrated_com.Graph.Start.{start_attempt}
use mo_e_mo_a_integrated_com.Graph.Finish.{finish_defaults, finish_attempt, FinishArgs}
use mo_e_mo_a_integrated_com.Graph.Fail.{fail_attempt, first_terminal, cancel, FailArgs}
use mo_e_mo_a_integrated_com.Graph.Rerun.{partial_rerun, resume}
use mo_e_mo_a_integrated_com.Graph.Driving.{
  waiting_for_external, final_args, run_checkpoint, run_terminal, finalize_ready, Observation,
}
use mo_e_mo_a_integrated_com.Graph.Invariant.{
  ends_validated, is_completed_run, Inv, new_runtime-Inv, if_cases, take_checkpoint-Inv,
}
use mo_e_mo_a_integrated_com.Graph.Finishing.{state_of}
use mo_e_mo_a_integrated_com.Graph.Ending.{finish_attempt-Inv}
use mo_e_mo_a_integrated_com.Graph.Starting.{start_attempt-Inv}
use mo_e_mo_a_integrated_com.Graph.Failing.{fail_attempt-Inv}
use mo_e_mo_a_integrated_com.Graph.Resuming.{cancel-Inv, partial_rerun-Inv, resume-Inv}
use mo_e_mo_a_integrated_com.Dict.{Dict}
use mo_e_mo_a_integrated_com.Base.{
  ℕ, String, ◌≡◌, refl, subst, inl, inr, Bool, true, ◌&&◌, Option, none, some, List, Option-cases,
  any, is_empty, first, codes, contains,
}

-- One call, and the state it leaves. A runtime is resumed with its graph and a checkpoint of the state
-- it is in, and with any attempts.
pub data ◌⟶◌ (env : GraphEnv) : GraphRuntime → GraphRuntime → Type 0 where
  starts :
      (r r' : GraphRuntime) (id : String) (model : Option String) (now : ℕ)
      → state_of (start_attempt env id model now r) ≡ r'
      → ◌⟶◌ env r r'
  finishes :
      (r r' : GraphRuntime) (args : FinishArgs) (id : String) (now : ℕ)
      → state_of (finish_attempt env args id now r) ≡ r'
      → ◌⟶◌ env r r'
  fails :
      (r r' : GraphRuntime) (args : FailArgs) (id : String) (now : ℕ)
      → state_of (fail_attempt env args id now r) ≡ r'
      → ◌⟶◌ env r r'
  cancels : (r r' : GraphRuntime) (now : ℕ) → state_of (cancel env now r) ≡ r' → ◌⟶◌ env r r'
  reruns :
      (r r' : GraphRuntime) (invalidated : List String) (verified : Option (Dict String)) (now : ℕ)
      → state_of (partial_rerun env invalidated verified now r) ≡ r'
      → ◌⟶◌ env r r'
  checkpoints :
      (r r' : GraphRuntime) (args : CheckpointArgs) (reason : String) (now : ℕ)
      → state_of (checkpoint_for env args reason now r) ≡ r'
      → ◌⟶◌ env r r'
  resumes :
      (r r' : GraphRuntime) (args : CheckpointArgs) (reason : String) (taken now : ℕ)
      (attempts : List NodeAttempt) (stored : Bool) (x : Ran Unit)
      → resume env r.graph (take_checkpoint env args reason taken r).0 attempts stored now ≡ some x
      → state_of x ≡ r'
      → ◌⟶◌ env r r'

-- A completed run is resumed with attempts among which that on which it ended is found.
abbrev pub KeepsEvidence : {env : GraphEnv} {r r' : GraphRuntime} → ◌⟶◌ env r r' → Type 0
KeepsEvidence (starts _ _ _ _ _ _) = Unit
KeepsEvidence (finishes _ _ _ _ _ _) = Unit
KeepsEvidence (fails _ _ _ _ _ _) = Unit
KeepsEvidence (cancels _ _ _ _) = Unit
KeepsEvidence (reruns _ _ _ _ _ _) = Unit
KeepsEvidence (checkpoints _ _ _ _ _ _) = Unit
KeepsEvidence (resumes r _ _ _ _ _ attempts _ _ _ _) =
    is_completed_run r.terminal_status ≡ true → any (ends_validated r.graph) attempts ≡ true

pub data Reached (env : GraphEnv) : GraphRuntime → Type 0 where
  created : (g : ExecutionGraph) (stored : Bool) → Reached env (new_runtime g stored)
  followed :
      (r r' : GraphRuntime)
      → Reached env r
      → (step : ◌⟶◌ env r r') → KeepsEvidence step
      → Reached env r'

checkpoint_for-Inv :
    (env : GraphEnv) (args : CheckpointArgs) (reason : String) (now : ℕ) (r : GraphRuntime)
    → Inv r
    → Inv (state_of (checkpoint_for env args reason now r))
unfolding checkpoint_for
checkpoint_for-Inv env args reason now r v =
    let t = take_checkpoint env args reason now r in
    if_cases (λ x. Inv (state_of x)) (is_empty (codes reason)) (raised bad_reason r)
      (returned t.0 t.1) (λ h. v) (λ h. take_checkpoint-Inv env args reason now r v)

step-Inv :
    (env : GraphEnv) (r r' : GraphRuntime)
    → Inv r
    → (step : ◌⟶◌ env r r') → KeepsEvidence step
    → Inv r'
step-Inv env r r' v (starts _ _ id model now h) k =
    subst Inv h (start_attempt-Inv env id model now r v)
step-Inv env r r' v (finishes _ _ args id now h) k =
    subst Inv h (finish_attempt-Inv env args id now r v)
step-Inv env r r' v (fails _ _ args id now h) k = subst Inv h (fail_attempt-Inv env args id now r v)
step-Inv env r r' v (cancels _ _ now h) k = subst Inv h (cancel-Inv env now r v)
step-Inv env r r' v (reruns _ _ ids verified now h) k =
    subst Inv h (partial_rerun-Inv env ids verified now r v)
step-Inv env r r' v (checkpoints _ _ args reason now h) k =
    subst Inv h (checkpoint_for-Inv env args reason now r v)
step-Inv env r r' v (resumes _ _ args reason taken now attempts stored x e h) k =
    subst Inv h (resume-Inv env args reason taken now r attempts stored x k v e)

-- After any sequence of the calls start_attempt, finish_attempt, fail_attempt, cancel, partial_rerun
-- and checkpoint, refused or not, and of resumes, each from a checkpoint of the state the run is in
-- and, of a run that has completed, with attempts among which one at a FINALIZE node has succeeded
-- with validated evidence: the tokens and tool calls that the runtime counts are at most the budget's;
-- no edge is traversed more often than its bound; each selected edge is one of the graph; the run has
-- ended exactly if it has a terminal status; and if that is `completed`, an attempt at a FINALIZE node
-- has succeeded with validated evidence.
pub Reached-Sound : (env : GraphEnv) (r : GraphRuntime) → Reached env r → Inv r
Reached-Sound env r (created g stored) = new_runtime-Inv g stored
Reached-Sound env r (followed before _ run step k) =
    step-Inv env before r (Reached-Sound env before run) step k

-- The calls made of others are steps one after another.
pub then_run-Reached :
    (env : GraphEnv) {A B : Type 0} (x : Ran A) (next : A → GraphRuntime → Ran B)
    → Reached env (state_of x)
    → ((a : A) (r : GraphRuntime) → Reached env r → Reached env (state_of (next a r)))
    → Reached env (state_of (then_run x next))
unfolding then_run
then_run-Reached env (raised fault r) next v h = v
then_run-Reached env (returned a r) next v h = h a r v

module _ (env : GraphEnv) where
  pub start-Reached :
      (id : String) (model : Option String) (now : ℕ) (r : GraphRuntime)
      → Reached env r
      → Reached env (state_of (start_attempt env id model now r))
  start-Reached id model now r v = followed r _ v (starts r _ id model now refl) tt

  pub finish-Reached :
      (args : FinishArgs) (id : String) (now : ℕ) (r : GraphRuntime)
      → Reached env r
      → Reached env (state_of (finish_attempt env args id now r))
  finish-Reached args id now r v = followed r _ v (finishes r _ args id now refl) tt

  pub fail-Reached :
      (args : FailArgs) (id : String) (now : ℕ) (r : GraphRuntime)
      → Reached env r
      → Reached env (state_of (fail_attempt env args id now r))
  fail-Reached args id now r v = followed r _ v (fails r _ args id now refl) tt

  -- An attempt that is started and then finished.
  pub start_finish-Reached :
      (args : FinishArgs) (id : String) (now : ℕ) (r : GraphRuntime)
      → Reached env r
      → Reached env (
          state_of (
            then_run
              (start_attempt env id none now r)
              (λ a x. finish_attempt env args a.attempt_id now x)))
  start_finish-Reached args id now r v =
      then_run-Reached env (start_attempt env id none now r)
        (λ a x. finish_attempt env args a.attempt_id now x) (start-Reached id none now r v)
        (λ a x w. finish-Reached args a.attempt_id now x w)

  run_checkpoint-Reached :
      (now : ℕ) (r : GraphRuntime)
      → Reached env r
      → Reached env (state_of (run_checkpoint env now r))
  unfolding run_checkpoint
  run_checkpoint-Reached now r v =
      let ready = ready_node_ids r in
      let wanted : GraphNode → Bool =
        λ n. is_type n.node_type checkpoint && contains n.node_id ready in
      elim (Option-cases (first wanted r.graph.nodes)) [
        | inl e ↦ rw (e, run_checkpoint) v
        | inr (n, e) ↦
            rw (e, run_checkpoint)
              (start_finish-Reached (record finish_defaults { outcome = on_checkpoint }) n.node_id
                now r v)
      ]

  pub finalize_ready-Reached :
      (status : TerminalStatus) (seen : Observation) (now : ℕ) (r : GraphRuntime)
      → Reached env r
      → Reached env (state_of (finalize_ready env status seen now r))
  unfolding finalize_ready run_terminal
  finalize_ready-Reached status seen now r v =
      if_cases (λ x. Reached env (state_of x)) (waiting_for_external r) (returned tt r)
        (then_run (run_checkpoint env now r)
          (λ u x. run_terminal env (final_args status seen) now x))
        (λ h. v)
        (λ h.
          then_run-Reached env (run_checkpoint env now r)
            (λ u x. run_terminal env (final_args status seen) now x)
            (run_checkpoint-Reached now r v)
            (λ u x w.
              start_finish-Reached (final_args status seen) (first_terminal x.graph) now x w))
