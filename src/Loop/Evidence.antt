-- ===== src/Loop/Evidence.antt =====
-- What every history of gateway/src/dgx_moa/loop_engineering.py keeps of evidence, failures and
-- criteria.
use mo_e_mo_a_integrated_com.Loop.{
  terminate, register_user_input, new_loop, known_fingerprint, add_fingerprint, record_progress,
  begin_iteration, consume_budget, consume_usage, LoopType, TerminationReason, BudgetName,
  UsageBudgetName, FailureClass, ℤ, LoopBudget, AcceptanceCriterion, LoopFailure, LoopState, pos,
  negsuc,
}
use mo_e_mo_a_integrated_com.Loop.Criteria.{
  store_criterion, completion_ready, IsSupported, store_criterion-IsSupported, Met,
  completion_ready_sound,
}
use mo_e_mo_a_integrated_com.Loop.Failures.{
  find_failure, repeated, register_failure, resolve_failures, IsCounted, Counted,
  register_failure-Counted, resolve_failures-Counted,
}
use mo_e_mo_a_integrated_com.Loop.Budget.{
  charged, step, run, Event, inputs, evidence, begins, consumes, charges, criteria, fails, resolves,
  stops,
}
use mo_e_mo_a_integrated_com.Base.{
  ℕ, String, ◌≡◌, refl, inl, inr, Bool, true, false, ◌||◌, Option, none, some, List, [], ◌∷◌, arith,
  Bool-cases, is_some, Option-cases, any, All, contains, NoDup, append_one-NoDup,
}

-- Nothing is recorded twice, failures are counted right, and criteria are supported.
pub record IsSound (l : LoopState) : Type 0 where
  pub observed : NoDup l.observed_evidence_ids
  pub fingerprints : NoDup l.progress_evidence_fingerprints
  pub inputs : NoDup l.input_fingerprints
  pub counted : Counted l
  pub supported : All IsSupported l.acceptance_criteria

Counted-weaken :
    (b b' : Bool) (xs : List LoopFailure)
    → (b ≡ true → b' ≡ true)
    → All (IsCounted b) xs
    → All (IsCounted b') xs
Counted-weaken b b' [] h k = tt
Counted-weaken b b' (x ∷ xs) h k = ((k.0.0, k.0.1, λ m. h (k.0.2 m)), Counted-weaken b b' xs h k.1)

-- An operation that leaves all lists but the criteria alone, and may end the loop.
record Keeps (l l' : LoopState) : Type 0 where
  observed : l'.observed_evidence_ids ≡ l.observed_evidence_ids
  fingerprints : l'.progress_evidence_fingerprints ≡ l.progress_evidence_fingerprints
  inputs : l'.input_fingerprints ≡ l.input_fingerprints
  open_failures : l'.open_failures ≡ l.open_failures
  ended : is_some l.termination_reason ≡ true → is_some l'.termination_reason ≡ true

module _ (l : LoopState) where
  Keeps-begin : (now : ℕ) → Keeps l (begin_iteration l now).1
  unfolding begin_iteration
  Keeps-begin now = ground arith

  Keeps-consume : (name : BudgetName) → Keeps l (consume_budget l name).1
  unfolding consume_budget
  Keeps-consume name = ground arith

  Keeps-charge : (name : UsageBudgetName) (n : ℤ) → Keeps l (charged l (consume_usage l name n))
  unfolding charged consume_usage
  Keeps-charge name (negsuc n) = ground arith
  Keeps-charge name (pos n) = ground arith

  Keeps-terminate : (reason : TerminationReason) → Keeps l (terminate l reason)
  unfolding terminate
  Keeps-terminate reason = ground arith

  Keeps-store : (c : AcceptanceCriterion) → Keeps l (store_criterion l c).1
  unfolding store_criterion
  Keeps-store c = ground arith

module _ (l : LoopState) (v : IsSound l) where
  register_user_input-IsSound :
      (sha256 : String → String) (content : String)
      → IsSound (register_user_input sha256 l content).1
  unfolding register_user_input
  register_user_input-IsSound sha256 content =
      elim (Bool-cases (contains (sha256 content) l.input_fingerprints)) [
        | inl old ↦ rw old v
        | inr new ↦ rw new (record {
          observed = v.observed;
          fingerprints = v.fingerprints;
          inputs = append_one-NoDup (sha256 content) l.input_fingerprints v.inputs new;
          counted = v.counted;
          supported = v.supported;
        })
      ]

  add_fingerprint-NoDup :
      (fp : Option String)
      → known_fingerprint fp l.progress_evidence_fingerprints ≡ false
      → NoDup (add_fingerprint fp l.progress_evidence_fingerprints)
  add_fingerprint-NoDup none h = v.fingerprints
  add_fingerprint-NoDup (some f) h =
      append_one-NoDup f l.progress_evidence_fingerprints v.fingerprints h

  record_progress-IsSound : (id : String) (fp : Option String) → IsSound (record_progress l id fp).1
  unfolding record_progress
  record_progress-IsSound id fp = elim (Bool-cases known) [
    | inl old ↦ rw old v
    | inr new ↦ rw new (record {
      observed = append_one-NoDup id l.observed_evidence_ids v.observed (ground arith);
      fingerprints = add_fingerprint-NoDup fp (ground arith);
      inputs = v.inputs;
      counted = v.counted;
      supported = v.supported;
    })
  ]
    where
      known : Bool
      known =
          contains id l.observed_evidence_ids
          || known_fingerprint fp l.progress_evidence_fingerprints

  Keeps-IsSound :
      (l' : LoopState) → Keeps l l' → All IsSupported l'.acceptance_criteria → IsSound l'
  Keeps-IsSound l' k supported = record {
    observed = rw k.observed v.observed;
    fingerprints = rw k.fingerprints v.fingerprints;
    inputs = rw k.inputs v.inputs;
    counted = rw k.open_failures (
        Counted-weaken (is_some l.termination_reason) (is_some l'.termination_reason)
          l.open_failures k.ended v.counted);
    supported = supported;
  }

  begin_criteria : (now : ℕ) → (begin_iteration l now).1.acceptance_criteria ≡ l.acceptance_criteria
  unfolding begin_iteration
  begin_criteria now = ground arith

  consume_criteria :
      (n : BudgetName) → (consume_budget l n).1.acceptance_criteria ≡ l.acceptance_criteria
  unfolding consume_budget
  consume_criteria n = ground arith

  charge_criteria :
      (n : UsageBudgetName) (a : ℤ)
      → (charged l (consume_usage l n a)).acceptance_criteria ≡ l.acceptance_criteria
  unfolding charged consume_usage
  charge_criteria n (negsuc a) = refl
  charge_criteria n (pos a) = ground arith

  repeated_lists :
      (s : String) (f : LoopFailure)
      → ((repeated l s f).1.observed_evidence_ids ≡ l.observed_evidence_ids)
        × ((repeated l s f).1.progress_evidence_fingerprints ≡ l.progress_evidence_fingerprints)
        × ((repeated l s f).1.input_fingerprints ≡ l.input_fingerprints)
        × ((repeated l s f).1.acceptance_criteria ≡ l.acceptance_criteria)
  unfolding repeated terminate
  repeated_lists s f = ground arith

  fail_lists :
      (fp : String) (c : FailureClass) (s : String) (paths : List String)
      → let l' = (register_failure l fp c s paths).1 in
        (l'.observed_evidence_ids ≡ l.observed_evidence_ids)
        × (l'.progress_evidence_fingerprints ≡ l.progress_evidence_fingerprints)
        × (l'.input_fingerprints ≡ l.input_fingerprints)
        × (l'.acceptance_criteria ≡ l.acceptance_criteria)
  unfolding register_failure
  fail_lists fp c s paths = elim (Option-cases (find_failure fp l.open_failures)) [
    | inl new ↦ rw (new, register_failure) (refl, refl, refl, refl)
    | inr (f, old) ↦ rw (old, register_failure) (repeated_lists s f)
  ]

  register_failure-IsSound :
      (fp : String) (c : FailureClass) (s : String) (paths : List String)
      → IsSound (register_failure l fp c s paths).1
  register_failure-IsSound fp c s paths =
      let (o, f, i, a) = fail_lists fp c s paths in
      record {
        observed = rw o v.observed;
        fingerprints = rw f v.fingerprints;
        inputs = rw i v.inputs;
        counted = register_failure-Counted l fp c s paths v.counted;
        supported = rw a v.supported;
      }

  resolve_failures-IsSound : (paths : List String) → IsSound (resolve_failures l paths).1
  unfolding resolve_failures
  resolve_failures-IsSound paths = record {
    observed = v.observed;
    fingerprints = v.fingerprints;
    inputs = v.inputs;
    counted = resolve_failures-Counted l paths v.counted;
    supported = v.supported;
  }

  step-IsSound : (sha256 : String → String) (e : Event) → IsSound (step sha256 l e)
  unfolding step
  step-IsSound sha256 (inputs content) = register_user_input-IsSound sha256 content
  step-IsSound sha256 (evidence id fp) = record_progress-IsSound id fp
  step-IsSound sha256 (begins now) =
      Keeps-IsSound _ (Keeps-begin l now) (rw (begin_criteria now) v.supported)
  step-IsSound sha256 (consumes name) =
      Keeps-IsSound _ (Keeps-consume l name) (rw (consume_criteria name) v.supported)
  step-IsSound sha256 (charges name amount) =
      Keeps-IsSound _ (Keeps-charge l name amount) (rw (charge_criteria name amount) v.supported)
  step-IsSound sha256 (criteria c) =
      Keeps-IsSound _ (Keeps-store l c) (store_criterion-IsSupported l c v.supported)
  step-IsSound sha256 (fails fp c s paths) = register_failure-IsSound fp c s paths
  step-IsSound sha256 (resolves paths) = resolve_failures-IsSound paths
  step-IsSound sha256 (stops reason) =
      Keeps-IsSound _ (Keeps-terminate l reason) (unfold terminate in v.supported)

run-IsSound :
    (sha256 : String → String) (l : LoopState) (es : List Event)
    → IsSound l
    → IsSound (run sha256 l es)
unfolding run
run-IsSound sha256 l [] v = v
run-IsSound sha256 l (e ∷ es) v =
    run-IsSound sha256 (step sha256 l e) es (step-IsSound l v sha256 e)

pub run-new_loop-IsSound :
    (sha256 : String → String) (uuid : String) (now : ℕ) (request_id objective : String)
    (t : LoopType) (b : LoopBudget) (limit : ℕ) (es : List Event)
    → IsSound (run sha256 (new_loop sha256 uuid now request_id objective t b limit) es)
unfolding new_loop
run-new_loop-IsSound sha256 uuid now request_id objective t b limit es =
    run-IsSound sha256 (new_loop sha256 uuid now request_id objective t b limit) es (record {
      observed = tt;
      fingerprints = tt;
      inputs = (refl, tt);
      counted = tt;
      supported = tt;
    })

-- So a loop that is ready to complete meets every required criterion, after any history.
pub completion_ready-run :
    (sha256 : String → String) (uuid : String) (now : ℕ) (request_id objective : String)
    (t : LoopType) (b : LoopBudget) (limit : ℕ) (es : List Event)
    → let l = run sha256 (new_loop sha256 uuid now request_id objective t b limit) es in
      completion_ready l ≡ true
      → (any (λ c. c.required) l.acceptance_criteria ≡ true) × All Met l.acceptance_criteria
completion_ready-run sha256 uuid now request_id objective t b limit es h =
    completion_ready_sound _
      (run-new_loop-IsSound sha256 uuid now request_id objective t b limit es).supported h
