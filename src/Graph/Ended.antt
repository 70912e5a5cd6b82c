-- ===== src/Graph/Ended.antt =====
-- Once a run of gateway/src/dgx_moa/execution_graph.py has ended, its end stays, until a rerun.
use mo_e_mo_a_integrated_com.Graph.{
  edge_ids, is_interrupted, then_run, GraphEdge, NodeAttempt, GraphRuntime, Ran, GraphEnv,
  saved_graph, bad_evidence_ids, bad_failure, raised, returned,
}
use mo_e_mo_a_integrated_com.Graph.Ready.{
  find_attempt, set_attempt, snapshot_of, counted_runtime, take_checkpoint, persist, CheckpointArgs,
}
use mo_e_mo_a_integrated_com.Graph.Edges.{record_edges, close_unselected}
use mo_e_mo_a_integrated_com.Graph.Finish.{are_bounded, is_sha256, active_attempt}
use mo_e_mo_a_integrated_com.Graph.Fail.{
  mark_failed, note_evidence, usable_retry, retry_on, usable_fallback, fall_back,
  record_failure_edges, failure_edges, route_failure, fail_node, fail_attempt, FailArgs,
}
use mo_e_mo_a_integrated_com.Graph.Rerun.{
  is_compatible, is_consistent, all_pins, same_nodes, restored, restart_args, fail_interrupted,
  resume_with, resume,
}
use mo_e_mo_a_integrated_com.Graph.Invariant.{if_cases}
use mo_e_mo_a_integrated_com.Graph.Finishing.{state_of}
use mo_e_mo_a_integrated_com.Graph.Once.{SameEnd, persist-SameEnd, close_unselected-SameEnd}
use mo_e_mo_a_integrated_com.Base.{
  ℕ, String, ◌≡◌, refl, ◌∙◌, subst, inl, inr, Bool, true, not, ◌&&◌, ◌||◌, none, some, List, [],
  ◌∷◌, ◌++◌, map, arith, eqb, if◌then◌else◌, Bool-cases, Option-cases, keep_if, is_empty, codes,
}

record_failure_edges-SameEnd :
    (env : GraphEnv) (es : List GraphEdge) (a : NodeAttempt) (now : ℕ) (r x : GraphRuntime)
    → SameEnd r x
    → SameEnd r (record_failure_edges env es a now x)
unfolding record_failure_edges
record_failure_edges-SameEnd env es a now r x h =
    let x1 = record x {
      attempts =
          set_attempt a.attempt_id (λ b. record b { selected_outgoing_edges = edge_ids es })
            x.attempts;
      selected_edge_ids = record_edges es x.selected_edge_ids;
    } in
    let x2 = close_unselected es a.node_id now x1 in
    persist-SameEnd env (find_attempt a.attempt_id x2.attempts) "attempt_failed" now r x2
      (close_unselected-SameEnd es a.node_id now r x1 h)

fall_back-SameEnd :
    (e : GraphEdge) (a : NodeAttempt) (r x : GraphRuntime)
    → SameEnd r x
    → SameEnd r (fall_back e a x)
unfolding fall_back
fall_back-SameEnd e a r x h = elim (Bool-cases (eqb e.max_traversals 0)) [
  | inl z ↦ rw (z, fall_back) h
  | inr z ↦ rw (z, fall_back) h
]

route_failure-SameEnd :
    (env : GraphEnv) (args : FailArgs) (a : NodeAttempt) (now : ℕ) (r x : GraphRuntime)
    → SameEnd r x
    → SameEnd r (route_failure env args a now x)
unfolding route_failure
route_failure-SameEnd env args a now r x h = elim (Option-cases (usable_retry args a x)) [
  | inr (e, s) ↦
      rw (s, route_failure)
        (record_failure_edges-SameEnd env (e ∷ []) a now r (retry_on e a x) (unfold retry_on in h))
  | inl s ↦ elim (Option-cases (usable_fallback a x)) [
    | inr (e, f) ↦
        rw (s, f, route_failure)
          (record_failure_edges-SameEnd env (e ∷ []) a now r (fall_back e a x)
            (fall_back-SameEnd e a r x h))
    | inl f ↦
        rw (s, f, route_failure) (record_failure_edges-SameEnd env (failure_edges a x) a now r x h)
  ]
]

fail_node-SameEnd :
    (env : GraphEnv) (args : FailArgs) (a : NodeAttempt) (now : ℕ) (r : GraphRuntime)
    → SameEnd r (state_of (fail_node env args a now r))
unfolding fail_node mark_failed note_evidence
fail_node-SameEnd env args a now r =
    let marked = mark_failed args a now r in
    if_cases (λ x. SameEnd r (state_of x))
      (is_empty (codes args.failure_code) || not (is_sha256 args.failure_fingerprint))
      (raised bad_failure r)
      (if not (are_bounded args.generated_evidence_ids)
        then raised bad_evidence_ids marked
        else returned tt (route_failure env args a now (note_evidence args a marked)))
      (λ b. (refl, refl))
      (λ b.
        if_cases (λ x. SameEnd r (state_of x)) (not (are_bounded args.generated_evidence_ids))
          (raised bad_evidence_ids marked)
          (returned tt (route_failure env args a now (note_evidence args a marked)))
          (λ c. (refl, refl))
          (λ c. route_failure-SameEnd env args a now r (note_evidence args a marked) (refl, refl)))

pub fail_attempt-SameEnd :
    (env : GraphEnv) (args : FailArgs) (id : String) (now : ℕ) (r : GraphRuntime)
    → SameEnd r (state_of (fail_attempt env args id now r))
unfolding fail_attempt
fail_attempt-SameEnd env args id now r = elim (Option-cases (active_attempt id r)) [
  | inl e ↦ rw (e, fail_attempt) (refl, refl)
  | inr (a, e) ↦ rw (e, fail_attempt) (fail_node-SameEnd env args a now r)
]

pub SameEnd-trans : (r x y : GraphRuntime) → SameEnd r x → SameEnd x y → SameEnd r y
SameEnd-trans r x y h k = (k.0 ∙ h.0, k.1 ∙ h.1)

then_run-SameEnd :
    {A B : Type 0} (r : GraphRuntime) (x : Ran A) (next : A → GraphRuntime → Ran B)
    → SameEnd r (state_of x)
    → ((a : A) (y : GraphRuntime) → SameEnd r y → SameEnd r (state_of (next a y)))
    → SameEnd r (state_of (then_run x next))
unfolding then_run
then_run-SameEnd r (raised fault y) next h k = h
then_run-SameEnd r (returned a y) next h k = k a y h

fail_interrupted-SameEnd :
    (env : GraphEnv) (ids : List String) (now : ℕ) (r : GraphRuntime)
    → SameEnd r (state_of (fail_interrupted env ids now r))
unfolding fail_interrupted
fail_interrupted-SameEnd env [] now r = (refl, refl)
fail_interrupted-SameEnd env (id ∷ ids) now r = elim (Option-cases (find_attempt id r.attempts)) [
  | inl e ↦ rw (e, fail_interrupted) (fail_interrupted-SameEnd env ids now r)
  | inr (a, e) ↦ elim (Bool-cases (is_interrupted a.state)) [
    | inr b ↦ rw (e, b, fail_interrupted) (fail_interrupted-SameEnd env ids now r)
    | inl b ↦
        rw (e, b, fail_interrupted)
          (then_run-SameEnd r (fail_attempt env (restart_args env) id now r)
            (λ u y. fail_interrupted env ids now y)
            (fail_attempt-SameEnd env (restart_args env) id now r)
            (λ u y h.
              SameEnd-trans r y (state_of (fail_interrupted env ids now y)) h
                (fail_interrupted-SameEnd env ids now y)))
  ]
]

resume_with-SameEnd :
    (env : GraphEnv) (now : ℕ) (r : GraphRuntime) → SameEnd r (state_of (resume_with env now r))
unfolding resume_with
resume_with-SameEnd env now r =
    let ids = map (λ a. a.attempt_id) (keep_if (λ a. is_interrupted a.state) r.attempts) in
    let graph_saved : GraphRuntime → GraphRuntime = λ x. record x {
      journal = (if x.stored then x.journal ++ saved_graph x.graph ∷ [] else x.journal);
    } in
    then_run-SameEnd r (fail_interrupted env ids now r)
      (λ u x. returned tt (persist env none "resumed" now (graph_saved x)))
      (fail_interrupted-SameEnd env ids now r)
      (λ u x h. persist-SameEnd env none "resumed" now r (graph_saved x) h)

pub resume-SameEnd :
    (env : GraphEnv) (args : CheckpointArgs) (reason : String) (taken now : ℕ) (r : GraphRuntime)
    (attempts : List NodeAttempt) (stored : Bool) (x : Ran Unit)
    → resume env r.graph (take_checkpoint env args reason taken r).0 attempts stored now ≡ some x
    → SameEnd r (state_of x)
unfolding resume
resume-SameEnd env args reason taken now r attempts stored x e =
    let cp = (take_checkpoint env args reason taken r).0 in
    let from = restored env r.graph cp attempts stored in
    let b : (is_compatible env r.graph cp
          && same_nodes r.graph cp
          && is_consistent r.graph cp
          && all_pins r.graph cp.provider_pins)
        ≡ true =
      ground (arith, e) in
    let same : resume_with env now from ≡ x = ground (arith, e, b) in
    subst (λ y. SameEnd r (state_of y)) same
      (SameEnd-trans r from (state_of (resume_with env now from))
        (unfold restored take_checkpoint counted_runtime snapshot_of in (refl, refl))
        (resume_with-SameEnd env now from))
