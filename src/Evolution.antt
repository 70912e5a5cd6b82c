-- ===== src/Evolution.antt =====
-- gateway/src/dgx_moa/evolution.py: the EvolutionRegistry. Its two tables are lists of rows; an
-- artifact's payload is its JSON text, and a row keeps the artifact that its text stands for.
-- `formats` stands for pydantic's JSON, SHA-256 and the decimal text of a number.
mod Versions
mod Promotion
mod Histories
mod Tests
use mo_e_mo_a_integrated_com.Base.{
  ℕ, zero, suc, ◌+◌, ◌-◌, ◌*◌, ◌≤◌, ◌<◌, min, max, String, ◌==◌, eq_iff, eq_refl, ◌≡◌, refl, sym,
  ap, ◌∙◌, subst, ◌≢◌, ◌↔◌, ◌⊎◌, inl, inr, Bool, true, false, not, ◌&&◌, ◌||◌, Option, none, some,
  List, [], ◌∷◌, ◌++◌, map, arith, ltb, leb, eqb, if◌then◌else◌, ltb→lt, leb→le, Bool-cases,
  is_some, get_or, Option-cases, map_some, length, keep_if, any, all, is_empty, All, length-append,
  nonempty-keep_if, length-keep_if, first, codes, joined, contains, dedup, contains-dedup, NoDup,
  contains-append_one, append_one-NoDup, contains-keep_ne, keep_ne-NoDup, string_same, string_apart,
  joined_not_blank, text_joined_not_blank,
}

pub data ArtifactKind : Type 0 where
  prompt policy routing failure_handling judge_prompt : ArtifactKind

pub data ArtifactState : Type 0 where
  candidate evaluated canary active deprecated rejected : ArtifactState

abbrev pub is_candidate : ArtifactState → Bool
is_candidate candidate = true
is_candidate _ = false

abbrev pub is_evaluated : ArtifactState → Bool
is_evaluated evaluated = true
is_evaluated _ = false

abbrev pub is_canary : ArtifactState → Bool
is_canary canary = true
is_canary _ = false

abbrev pub is_active : ArtifactState → Bool
is_active active = true
is_active _ = false

pub record EvolutionArtifact : Type 0 where
  pub artifact_id : String
  pub kind : ArtifactKind
  pub version : ℕ
  pub state : ArtifactState
  pub payload : String
  pub high_impact : Bool
  pub source_evidence_ids : List String
  pub evaluation_evidence_ids : List String
  pub parent_versions : List String
  pub rollback_target : Option String
  pub approval_id : Option String
  pub created_by : String
  pub created_at : String

-- The fields that `passed` reads and the evidence.
pub record EvolutionEvaluation : Type 0 where
  pub schema_valid : Bool
  pub historical_replay : Bool
  pub regression_thresholds_passed : Bool
  pub reviewer_approved : Bool
  pub judge_approved : Bool
  pub evidence_ids : List String

unfoldable pub evaluation_passed : EvolutionEvaluation → Bool → Bool
evaluation_passed e high_impact =
    e.schema_valid
    && e.historical_replay
    && e.regression_thresholds_passed
    && e.reviewer_approved
    && (not high_impact || e.judge_approved)
    && not (is_empty e.evidence_ids)

pub record ArtifactRow : Type 0 where
  pub content_hash : String
  pub text : String
  pub artifact : EvolutionArtifact

pub data CanaryOutcome : Type 0 where
  helpful neutral harmful : CanaryOutcome

abbrev pub is_helpful : CanaryOutcome → Bool
is_helpful helpful = true
is_helpful _ = false

pub record CanaryRow : Type 0 where
  pub artifact_id : String
  pub version : ℕ
  pub outcome : CanaryOutcome
  pub evidence_ids : List String

pub record EvolutionRegistry : Type 0 where
  pub artifacts : List ArtifactRow
  pub canaries : List CanaryRow

pub data RegistryFault : Type 0 where
  key_error value_error permission_error : RegistryFault

pub data Result (A : Type 0) : Type 0 where
  refused : RegistryFault → Result A
  done : A → EvolutionRegistry → Result A

pub record Formats : Type 0 where
  pub dump : EvolutionArtifact → String
  pub digest : EvolutionArtifact → String
  pub decimal : ℕ → String

-- WHERE artifact_id = ? AND version = ?
abbrev pub is_version : String → ℕ → ArtifactRow → Bool
is_version id v row = row.artifact.artifact_id == id && eqb row.artifact.version v

unfoldable pub find_version : String → ℕ → EvolutionRegistry → Option ArtifactRow
find_version id v s = first (is_version id v) s.artifacts

unfoldable pub row_of : Formats → EvolutionArtifact → ArtifactRow
row_of f a = record { content_hash = f.digest a; text = f.dump a; artifact = a }

-- EvolutionRegistry.put; each caller returns the artifact that it put.
unfoldable pub put : Formats → EvolutionArtifact → EvolutionRegistry → Result EvolutionArtifact
unfolding find_version row_of
put f a s = elim (find_version a.artifact_id a.version s) [
  | none ↦ done a (record s { artifacts = s.artifacts ++ row_of f a ∷ [] })
  | some row ↦
      if row.content_hash == f.digest a && row.text == f.dump a
      then done a s
      else refused value_error
]

-- EvolutionRegistry.get
abbrev pub get_artifact :
    {A : Type 0} → EvolutionRegistry → String → ℕ → (EvolutionArtifact → Result A) → Result A
get_artifact s id v rest = elim (find_version id v s) [
  | none ↦ refused key_error
  | some row ↦ rest row.artifact
]

-- f"{artifact_id}@{version}"
abbrev pub version_name : Formats → String → ℕ → String
version_name f id v = joined id (joined "@" (f.decimal v))

-- not text, for a text that may be absent
abbrev pub is_blank : Option String → Bool
is_blank none = true
is_blank (some t) = is_empty (codes t)

unfoldable pub evaluated_copy :
    Formats
    → EvolutionEvaluation
    → String
    → ℕ
    → String
    → String
    → EvolutionArtifact
    → EvolutionArtifact
unfolding evaluation_passed
evaluated_copy f e id v created_by now a = record a {
  version = v + 1;
  state = (if evaluation_passed e a.high_impact then evaluated else rejected);
  evaluation_evidence_ids = e.evidence_ids;
  parent_versions = version_name f id v ∷ [];
  created_by = created_by;
  created_at = now;
}

unfoldable pub evaluate :
    Formats
    → String
    → ℕ
    → EvolutionEvaluation
    → String
    → String
    → EvolutionRegistry
    → Result EvolutionArtifact
unfolding evaluated_copy put
evaluate f id v e created_by now s = get_artifact s id v (λ a.
    if is_candidate a.state
    then put f (evaluated_copy f e id v created_by now a) s
    else refused value_error)

unfoldable pub canary_copy :
    Formats → String → ℕ → String → String → String → String → EvolutionArtifact → EvolutionArtifact
canary_copy f id v rollback_target approval_id created_by now a = record a {
  version = v + 1;
  state = canary;
  parent_versions = version_name f id v ∷ [];
  rollback_target = some rollback_target;
  approval_id = some approval_id;
  created_by = created_by;
  created_at = now;
}

unfoldable pub start_canary :
    Formats
    → String
    → ℕ
    → String
    → String
    → String
    → String
    → EvolutionRegistry
    → Result EvolutionArtifact
unfolding canary_copy put
start_canary f id v rollback_target approval_id created_by now s = get_artifact s id v (λ a.
    if not (is_evaluated a.state) || is_empty a.evaluation_evidence_ids
    then refused value_error
    else if is_blank (some approval_id) || is_blank (some rollback_target)
    then refused permission_error
    else put f (canary_copy f id v rollback_target approval_id created_by now a) s)

unfoldable pub record_canary :
    String → ℕ → CanaryOutcome → List String → EvolutionRegistry → Result Unit
record_canary id v outcome evidence_ids s = get_artifact s id v (λ a.
    if not (is_canary a.state) || is_empty evidence_ids
    then refused value_error
    else done tt (record s {
      canaries =
          s.canaries
          ++ record {
            artifact_id = id;
            version = v;
            outcome = outcome;
            evidence_ids = evidence_ids;
          }
            ∷ [];
    }))

-- The row of a helpful outcome of the version.
abbrev pub is_helpful_row : String → ℕ → CanaryRow → Bool
is_helpful_row id v row = row.artifact_id == id && eqb row.version v && is_helpful row.outcome

unfoldable pub has_helpful : String → ℕ → EvolutionRegistry → Bool
has_helpful id v s = any (is_helpful_row id v) s.canaries

unfoldable pub active_copy :
    Formats → String → ℕ → String → String → String → EvolutionArtifact → EvolutionArtifact
active_copy f id v approval_id created_by now a = record a {
  version = v + 1;
  state = active;
  parent_versions = version_name f id v ∷ [];
  approval_id = some approval_id;
  created_by = created_by;
  created_at = now;
}

unfoldable pub promote_artifact :
    Formats → String → ℕ → String → String → String → EvolutionRegistry → Result EvolutionArtifact
unfolding active_copy has_helpful put
promote_artifact f id v approval_id created_by now s = get_artifact s id v (λ a.
    if not (is_canary a.state)
      || not (has_helpful id v s)
      || is_blank (some approval_id)
      || is_blank a.rollback_target
    then refused permission_error
    else put f (active_copy f id v approval_id created_by now a) s)

unfoldable pub rolled_back_copy :
    Formats → String → ℕ → ℕ → String → String → String → EvolutionArtifact → EvolutionArtifact
rolled_back_copy f id v target_version approval_id created_by now target = record target {
  version = v + 1;
  state = active;
  parent_versions = version_name f id v ∷ version_name f id target_version ∷ [];
  rollback_target = some (version_name f id v);
  approval_id = some approval_id;
  created_by = created_by;
  created_at = now;
}

unfoldable pub rollback :
    Formats
    → String
    → ℕ
    → ℕ
    → String
    → String
    → String
    → EvolutionRegistry
    → Result EvolutionArtifact
unfolding rolled_back_copy put
rollback f id v target_version approval_id created_by now s = get_artifact s id v (λ a.
    get_artifact s id target_version (λ target.
      if not (is_active a.state) || is_blank (some approval_id)
      then refused permission_error
      else put f (rolled_back_copy f id v target_version approval_id created_by now target) s))
