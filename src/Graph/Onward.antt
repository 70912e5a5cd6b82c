-- ===== src/Graph/Onward.antt =====
-- The calls of gateway/src/dgx_moa/execution_graph.py after the end of a run.
use mo_e_mo_a_integrated_com.Graph.{GraphRuntime, GraphEnv, bad_reason, raised, returned}
use mo_e_mo_a_integrated_com.Graph.Ready.{counted_runtime, take_checkpoint, checkpoint_for}
use mo_e_mo_a_integrated_com.Graph.Fail.{end_cancelled, cancel}
use mo_e_mo_a_integrated_com.Graph.Finishing.{state_of}
use mo_e_mo_a_integrated_com.Graph.Runs.{
  ◌⟶◌, starts, finishes, fails, cancels, reruns, checkpoints, resumes,
}
use mo_e_mo_a_integrated_com.Graph.Once.{SameEnd, finish_attempt-SameEnd, start_attempt-SameEnd}
use mo_e_mo_a_integrated_com.Graph.Ended.{fail_attempt-SameEnd, resume-SameEnd}
use mo_e_mo_a_integrated_com.Graph.Invariant.{if_cases}
use mo_e_mo_a_integrated_com.Base.{◌≡◌, refl, ◌∙◌, subst, Bool, true, false, arith, is_empty, codes}

-- The step is a partial rerun.
abbrev pub is_rerun : {env : GraphEnv} {r r' : GraphRuntime} → ◌⟶◌ env r r' → Bool
is_rerun (starts _ _ _ _ _ _) = false
is_rerun (finishes _ _ _ _ _ _) = false
is_rerun (fails _ _ _ _ _ _) = false
is_rerun (cancels _ _ _ _) = false
is_rerun (reruns _ _ _ _ _ _) = true
is_rerun (checkpoints _ _ _ _ _ _) = false
is_rerun (resumes _ _ _ _ _ _ _ _ _ _ _) = false

-- Steps none of which is a partial rerun.
pub data Onward (env : GraphEnv) : GraphRuntime → GraphRuntime → Type 0 where
  rests : (r : GraphRuntime) → Onward env r r
  moves :
      (r r' r'' : GraphRuntime)
      → Onward env r r'
      → (step : ◌⟶◌ env r' r'') → is_rerun step ≡ false
      → Onward env r r''

step-SameEnd :
    (env : GraphEnv) (r r' : GraphRuntime) (step : ◌⟶◌ env r r')
    → is_rerun step ≡ false
    → r.final_emitted ≡ true
    → SameEnd r r'
unfolding cancel checkpoint_for take_checkpoint counted_runtime
step-SameEnd env r r' (starts _ _ id model now h) n t =
    subst (SameEnd r) h (start_attempt-SameEnd env id model now r)
step-SameEnd env r r' (finishes _ _ args id now h) n t =
    subst (SameEnd r) h (finish_attempt-SameEnd env args id now r t)
step-SameEnd env r r' (fails _ _ args id now h) n t =
    subst (SameEnd r) h (fail_attempt-SameEnd env args id now r)
step-SameEnd env r r' (cancels _ _ now h) n t = subst (SameEnd r) h (
    if_cases (λ x. SameEnd r (state_of x)) r.final_emitted (returned tt r) (end_cancelled env now r)
      (λ b. (refl, refl)) (λ b. absurd (ground (arith, b, t))))
step-SameEnd env r r' (reruns _ _ ids verified now h) n t = absurd (cc)
step-SameEnd env r r' (checkpoints _ _ args reason now h) n t = subst (SameEnd r) h (
    if_cases (λ x. SameEnd r (state_of x)) (is_empty (codes reason)) (raised bad_reason r)
      (returned (take_checkpoint env args reason now r).0 (take_checkpoint env args reason now r).1)
      (λ b. (refl, refl)) (λ b. (refl, refl)))
step-SameEnd env r r' (resumes _ _ args reason taken now attempts stored x e h) n t =
    subst (SameEnd r) h (resume-SameEnd env args reason taken now r attempts stored x e)

-- Once a run has ended, it stays ended with the terminal status that it was given, through any calls
-- but a partial rerun, refused or not, also where it is resumed, with any attempts, from a checkpoint
-- of the state it is in.
pub Onward-SameEnd :
    (env : GraphEnv) (r r' : GraphRuntime)
    → r.final_emitted ≡ true
    → Onward env r r'
    → (r'.final_emitted ≡ true) × (r'.terminal_status ≡ r.terminal_status)
Onward-SameEnd env r r' t (rests _) = (t, refl)
Onward-SameEnd env r r' t (moves _ before _ run step n) =
    let h = Onward-SameEnd env r before t run in
    let k = step-SameEnd env before r' step n h.0 in (k.0 ∙ h.0, k.1 ∙ h.1)
