-- ===== src/Graph/Resuming.antt =====
-- `cancel`, `partial_rerun` and `resume` of gateway/src/dgx_moa/execution_graph.py keep the runtime's
-- invariant.
use mo_e_mo_a_integrated_com.Graph.{
  outgoing, is_terminal, is_edge_type, is_under_way, is_interrupted, GraphEdge, NodeAttempt,
  GraphRuntime, Ran, GraphEnv, on_failure, saved_graph, returned,
}
use mo_e_mo_a_integrated_com.Graph.Ready.{
  find_attempt, snapshot_of, counted_runtime, take_checkpoint, persist, CheckpointArgs,
}
use mo_e_mo_a_integrated_com.Graph.Edges.{record_edges, stop_attempts, starts_in}
use mo_e_mo_a_integrated_com.Graph.Fail.{
  fail_attempt, first_terminal, cancel_source, cancel_all, end_cancelled, cancel,
}
use mo_e_mo_a_integrated_com.Graph.Rerun.{
  rerun_fault, affected_by, reset_nodes, partial_rerun, is_compatible, is_consistent, all_pins,
  same_nodes, restored, restart_args, fail_interrupted, resume_with, resume,
}
use mo_e_mo_a_integrated_com.Graph.Invariant.{
  ends_validated, is_completed_run, Inv, if_cases, persist-Inv,
}
use mo_e_mo_a_integrated_com.Graph.Known.{Known, first-All, outgoing-Known, record_edges-Inv}
use mo_e_mo_a_integrated_com.Graph.Selecting.{stop_attempts-Inv, keep_edges-Inv}
use mo_e_mo_a_integrated_com.Graph.Finishing.{state_of, then_run-Inv}
use mo_e_mo_a_integrated_com.Graph.Failing.{fail_attempt-Inv}
use mo_e_mo_a_integrated_com.Dict.{Dict}
use mo_e_mo_a_integrated_com.Base.{
  ℕ, String, ◌==◌, ◌≡◌, refl, subst, inl, inr, Bool, true, false, not, ◌&&◌, Option, none, some,
  List, [], ◌∷◌, ◌++◌, map, arith, if◌then◌else◌, Bool-cases, Option-cases, keep_if, any, first,
}

cancel_all-Inv : (now : ℕ) (r : GraphRuntime) → Inv r → Inv (cancel_all now r)
unfolding cancel_all
cancel_all-Inv now r v =
    stop_attempts-Inv (λ a. is_under_way a.state) "GRAPH_CANCELLED" now r (λ a h. h) v

-- A run that ends as cancelled has no status yet.
without_status-Inv :
    (r : GraphRuntime) → r.final_emitted ≡ false → Inv r → Inv (record r { terminal_status = none })
without_status-Inv r h v = record {
  tokens = v.tokens;
  tools = v.tools;
  traversed = v.traversed;
  selected = v.selected;
  ended = h;
  validated = λ t. absurd (cc);
}

end_cancelled-Inv :
    (env : GraphEnv) (now : ℕ) (r : GraphRuntime)
    → r.final_emitted ≡ false
    → Inv r
    → Inv (state_of (end_cancelled env now r))
unfolding end_cancelled
end_cancelled-Inv env now r f v =
    let r' = cancel_all now r in
    let v' = cancel_all-Inv now r v in
    let es = outgoing r.graph (cancel_source r) in
    let ends : GraphEdge → Bool =
      λ e. is_edge_type e.edge_type on_failure && e.to_node == first_terminal r.graph in
    elim (Option-cases (first ends es)) [
      | inl e ↦ rw (e, end_cancelled) v'
      | inr (x, e) ↦
          rw (e, end_cancelled)
            (persist-Inv env none "cancelled" now
              (record r' {
                selected_edge_ids = record_edges (x ∷ []) r'.selected_edge_ids;
                terminal_status = none;
              })
              (without_status-Inv
                (record r' { selected_edge_ids = record_edges (x ∷ []) r'.selected_edge_ids })
                (unfold cancel_all stop_attempts in f)
                (record_edges-Inv (x ∷ []) r'
                  (unfold cancel_all stop_attempts in
                    (
                      first-All (Known r.graph.edges) ends es x
                          (outgoing-Known r.graph (cancel_source r)) e,
                      tt,
                    ))
                  v')))
    ]

pub cancel-Inv :
    (env : GraphEnv) (now : ℕ) (r : GraphRuntime) → Inv r → Inv (state_of (cancel env now r))
unfolding cancel
cancel-Inv env now r v =
    if_cases (λ x. Inv (state_of x)) r.final_emitted (returned tt r) (end_cancelled env now r)
      (λ f. v) (λ f. end_cancelled-Inv env now r f v)

partial_reset-Inv :
    (invalidated affected : List String) (r : GraphRuntime)
    → Inv r
    → Inv (reset_nodes invalidated affected r)
unfolding reset_nodes
partial_reset-Inv invalidated affected r v =
    let left = keep_edges-Inv (λ id. not (starts_in r.graph affected id)) r v in
    elim (Bool-cases (any (is_terminal r.graph) affected)) [
      | inl t ↦
          rw (t, reset_nodes)
            (record {
              tokens = v.tokens;
              tools = v.tools;
              traversed = v.traversed;
              selected = left.selected;
              ended = refl;
              validated = λ t. absurd (cc);
            })
      | inr t ↦ rw (t, reset_nodes) left
    ]

pub partial_rerun-Inv :
    (env : GraphEnv) (invalidated : List String) (verified : Option (Dict String)) (now : ℕ)
    (r : GraphRuntime)
    → Inv r
    → Inv (state_of (partial_rerun env invalidated verified now r))
unfolding partial_rerun
partial_rerun-Inv env invalidated verified now r v =
    let affected = affected_by r.graph invalidated in
    elim (Option-cases (rerun_fault invalidated affected verified r)) [
      | inr (x, e) ↦ rw (e, partial_rerun) v
      | inl e ↦
          rw (e, partial_rerun)
            (persist-Inv env none "partial_rerun" now (reset_nodes invalidated affected r)
              (partial_reset-Inv invalidated affected r v))
    ]

fail_interrupted-Inv :
    (env : GraphEnv) (ids : List String) (now : ℕ) (r : GraphRuntime)
    → Inv r
    → Inv (state_of (fail_interrupted env ids now r))
unfolding fail_interrupted
fail_interrupted-Inv env [] now r v = v
fail_interrupted-Inv env (id ∷ ids) now r v = elim (Option-cases (find_attempt id r.attempts)) [
  | inl e ↦ rw (e, fail_interrupted) (fail_interrupted-Inv env ids now r v)
  | inr (a, e) ↦ elim (Bool-cases (is_interrupted a.state)) [
    | inr b ↦ rw (e, b, fail_interrupted) (fail_interrupted-Inv env ids now r v)
    | inl b ↦
        rw (e, b, fail_interrupted)
          (then_run-Inv (fail_attempt env (restart_args env) id now r)
            (λ u r'. fail_interrupted env ids now r')
            (fail_attempt-Inv env (restart_args env) id now r v)
            (λ u r'. fail_interrupted-Inv env ids now r'))
  ]
]

resume_with-Inv :
    (env : GraphEnv) (now : ℕ) (r : GraphRuntime) → Inv r → Inv (state_of (resume_with env now r))
unfolding resume_with
resume_with-Inv env now r v =
    let ids = map (λ a. a.attempt_id) (keep_if (λ a. is_interrupted a.state) r.attempts) in
    let graph_saved : GraphRuntime → GraphRuntime = λ x. record x {
      journal = (if x.stored then x.journal ++ saved_graph x.graph ∷ [] else x.journal);
    } in
    then_run-Inv (fail_interrupted env ids now r)
      (λ u x. returned tt (persist env none "resumed" now (graph_saved x)))
      (fail_interrupted-Inv env ids now r v)
      (λ u x w. persist-Inv env none "resumed" now (graph_saved x) w)

-- The attempts that a run is resumed with.
given_attempts-Inv :
    (xs : List NodeAttempt) (r : GraphRuntime)
    → (is_completed_run r.terminal_status ≡ true → any (ends_validated r.graph) xs ≡ true)
    → Inv r
    → Inv (record r { attempts = xs })
given_attempts-Inv xs r h v = record {
  tokens = v.tokens;
  tools = v.tools;
  traversed = v.traversed;
  selected = v.selected;
  ended = v.ended;
  validated = h;
}

-- A runtime that continues from its own checkpoint; if it has completed, with attempts that say so.
pub resume-Inv :
    (env : GraphEnv) (args : CheckpointArgs) (reason : String) (taken now : ℕ) (r : GraphRuntime)
    (attempts : List NodeAttempt) (stored : Bool) (x : Ran Unit)
    → (is_completed_run r.terminal_status ≡ true → any (ends_validated r.graph) attempts ≡ true)
    → Inv r
    → resume env r.graph (take_checkpoint env args reason taken r).0 attempts stored now ≡ some x
    → Inv (state_of x)
unfolding resume
resume-Inv env args reason taken now r attempts stored x h v e =
    let cp = (take_checkpoint env args reason taken r).0 in
    let from = restored env r.graph cp attempts stored in
    let kept : Inv from =
      unfold restored take_checkpoint counted_runtime snapshot_of in
      given_attempts-Inv attempts r h v in
    let b : (is_compatible env r.graph cp
          && same_nodes r.graph cp
          && is_consistent r.graph cp
          && all_pins r.graph cp.provider_pins)
        ≡ true =
      ground (arith, e) in
    let same : resume_with env now from ≡ x = ground (arith, e, b) in
    subst (λ y. Inv (state_of y)) same (resume_with-Inv env now from kept)
