-- ===== src/Evolution/Tests.antt =====
-- Runs of the registry of gateway/src/dgx_moa/evolution.py on small inputs.
use mo_e_mo_a_integrated_com.Evolution.{
  is_active, evaluation_passed, find_version, row_of, put, evaluated_copy, evaluate, canary_copy,
  start_canary, record_canary, has_helpful, active_copy, promote_artifact, EvolutionArtifact,
  EvolutionEvaluation, EvolutionRegistry, Result, Formats, policy, candidate, helpful, refused,
  done,
}
use mo_e_mo_a_integrated_com.Evolution.Promotion.{
  empty_registry, Sound, Extends, ◌⟶◌, Reached, puts, evaluates, starts, records, promotes, created,
  followed,
}
use mo_e_mo_a_integrated_com.Evolution.Histories.{active-Earned, versions-Extends}
use mo_e_mo_a_integrated_com.Base.{◌≡◌, refl, true, false, none, some, [], ◌∷◌, map_some}

abbrev formats : Formats
formats = record { dump = λ a. a.payload; digest = λ a. a.created_by; decimal = λ n. "1" }

abbrev draft : EvolutionArtifact
draft = record {
  artifact_id = "policy.x";
  kind = policy;
  version = 1;
  state = candidate;
  payload = "{}";
  high_impact = false;
  source_evidence_ids = "e0" ∷ [];
  evaluation_evidence_ids = [];
  parent_versions = [];
  rollback_target = none;
  approval_id = none;
  created_by = "generator";
  created_at = "t0";
}

abbrev good : EvolutionEvaluation
good = record {
  schema_valid = true;
  historical_replay = true;
  regression_thresholds_passed = true;
  reviewer_approved = true;
  judge_approved = false;
  evidence_ids = "e1" ∷ [];
}

abbrev left_by : {A : Type 0} → Result A → EvolutionRegistry
left_by (refused fault) = empty_registry
left_by (done a s) = s

abbrev drafted : EvolutionRegistry
drafted = left_by (put formats draft empty_registry)

abbrev judged : EvolutionRegistry
judged = left_by (evaluate formats "policy.x" 1 good "op" "t1" drafted)

abbrev tried : EvolutionRegistry
tried = left_by (start_canary formats "policy.x" 2 "policy.x@0" "ok1" "op" "t2" judged)

abbrev measured : EvolutionRegistry
measured = left_by (record_canary "policy.x" 3 helpful ("e2" ∷ []) tried)

abbrev promoted : EvolutionRegistry
promoted = left_by (promote_artifact formats "policy.x" 3 "ok2" "op" "t3" measured)

measured-Reached : Reached measured
unfolding put find_version row_of evaluate evaluated_copy evaluation_passed start_canary canary_copy
    record_canary
measured-Reached =
    followed tried measured
      (followed judged tried
        (followed drafted judged
          (followed empty_registry drafted created
            (puts empty_registry drafted formats draft draft refl) refl)
          (evaluates drafted judged formats "policy.x" 1 good "op" "t1" _ refl) refl)
        (starts judged tried formats "policy.x" 2 "policy.x@0" "ok1" "op" "t2" _ refl) refl)
      (records tried measured "policy.x" 3 helpful ("e2" ∷ []) refl) refl

last_step : measured ⟶ promoted
unfolding put find_version row_of evaluate evaluated_copy evaluation_passed start_canary canary_copy
    record_canary promote_artifact active_copy has_helpful
last_step = promotes measured promoted formats "policy.x" 3 "ok2" "op" "t3" _ refl

active-Earned_example : Sound promoted
unfolding last_step
active-Earned_example =
    active-Earned promoted (followed measured promoted measured-Reached last_step refl)

versions-Extends_example : Extends measured promoted
versions-Extends_example = versions-Extends measured promoted last_step

-- The promoted version is the active one.
promoted_version :
    map_some (λ row. is_active row.artifact.state) (find_version "policy.x" 4 promoted) ≡ some true
unfolding put find_version row_of evaluate evaluated_copy evaluation_passed start_canary canary_copy
    record_canary promote_artifact active_copy has_helpful
promoted_version = refl
