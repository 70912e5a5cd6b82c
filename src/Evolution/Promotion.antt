-- ===== src/Evolution/Promotion.antt =====
-- What makes a version of gateway/src/dgx_moa/evolution.py active, over histories of the registry.
use mo_e_mo_a_integrated_com.Evolution.{
  is_canary, is_active, is_version, find_version, row_of, put, is_blank, evaluate, start_canary,
  record_canary, has_helpful, promote_artifact, rollback, EvolutionArtifact, EvolutionEvaluation,
  ArtifactRow, CanaryOutcome, EvolutionRegistry, Formats, done,
}
use mo_e_mo_a_integrated_com.Evolution.Versions.{first-append, put_outcome, put_immutable}
use mo_e_mo_a_integrated_com.Base.{
  ℕ, ◌+◌, String, eq_iff, ◌≡◌, sym, subst, ◌⊎◌, inl, inr, Bool, true, false, some, List, [], ◌∷◌,
  arith, Bool-cases, is_some, Option-cases, first,
}

-- A call that commits.
infix 40 ◌⟶◌
pub data ◌⟶◌ : EvolutionRegistry → EvolutionRegistry → Type 0 where
  puts :
      (s s' : EvolutionRegistry) (f : Formats) (a b : EvolutionArtifact)
      → put f a s ≡ done b s'
      → s ⟶ s'
  evaluates :
      (s s' : EvolutionRegistry) (f : Formats) (id : String) (v : ℕ) (e : EvolutionEvaluation)
      (created_by now : String) (b : EvolutionArtifact)
      → evaluate f id v e created_by now s ≡ done b s'
      → s ⟶ s'
  starts :
      (s s' : EvolutionRegistry) (f : Formats) (id : String) (v : ℕ)
      (target approval_id created_by now : String) (b : EvolutionArtifact)
      → start_canary f id v target approval_id created_by now s ≡ done b s'
      → s ⟶ s'
  records :
      (s s' : EvolutionRegistry) (id : String) (v : ℕ) (outcome : CanaryOutcome)
      (evidence_ids : List String)
      → record_canary id v outcome evidence_ids s ≡ done tt s'
      → s ⟶ s'
  promotes :
      (s s' : EvolutionRegistry) (f : Formats) (id : String) (v : ℕ)
      (approval_id created_by now : String) (b : EvolutionArtifact)
      → promote_artifact f id v approval_id created_by now s ≡ done b s'
      → s ⟶ s'
  rolls_back :
      (s s' : EvolutionRegistry) (f : Formats) (id : String) (v target : ℕ)
      (approval_id created_by now : String) (b : EvolutionArtifact)
      → rollback f id v target approval_id created_by now s ≡ done b s'
      → s ⟶ s'

abbrev pub empty_registry : EvolutionRegistry
empty_registry = record { artifacts = []; canaries = [] }

-- The step puts an active artifact directly.
abbrev pub puts_active : {s s' : EvolutionRegistry} → s ⟶ s' → Bool
puts_active (puts _ _ f a b _) = is_active a.state
puts_active (evaluates _ _ f id v e created_by now b _) = false
puts_active (starts _ _ f id v target approval_id created_by now b _) = false
puts_active (records _ _ id v outcome evidence_ids _) = false
puts_active (promotes _ _ f id v approval_id created_by now b _) = false
puts_active (rolls_back _ _ f id v target approval_id created_by now b _) = false

-- The histories in which no active artifact is put directly; those that the generator puts are not.
pub data Reached : EvolutionRegistry → Type 0 where
  created : Reached empty_registry
  followed :
      (s s' : EvolutionRegistry)
      → Reached s
      → (step : s ⟶ s') → puts_active step ≡ false
      → Reached s'

-- The version before is a canary with a helpful outcome, or is active itself.
abbrev pub Earns : EvolutionRegistry → String → ℕ → ArtifactRow → Type 0
Earns s id u prev =
    ((is_canary prev.artifact.state ≡ true) × (has_helpful id u s ≡ true))
    ⊎ (is_active prev.artifact.state ≡ true)

-- An active version follows one that earned it, and has an approval and a rollback target.
abbrev pub Earned : EvolutionRegistry → String → ℕ → EvolutionArtifact → Type 0
Earned s id v a =
    (u : ℕ) × (prev : ArtifactRow) × (v ≡ u + 1)
    × (find_version id u s ≡ some prev)
    × Earns s id u prev
    × (is_blank a.approval_id ≡ false)
    × (is_blank a.rollback_target ≡ false)

abbrev pub Sound : EvolutionRegistry → Type 0
Sound s =
    (id : String) (v : ℕ) (row : ArtifactRow)
    → find_version id v s ≡ some row
    → is_active row.artifact.state ≡ true
    → Earned s id v row.artifact

-- The second registry has every row and every helpful outcome of the first.
abbrev pub Extends : EvolutionRegistry → EvolutionRegistry → Type 0
Extends s s' =
    ((id : String) (v : ℕ) (row : ArtifactRow)
      → find_version id v s ≡ some row
      → find_version id v s' ≡ some row)
    × ((id : String) (v : ℕ) → has_helpful id v s ≡ true → has_helpful id v s' ≡ true)

pub Earned-Extends :
    (s s' : EvolutionRegistry) (id : String) (v : ℕ) (a : EvolutionArtifact)
    → Extends s s'
    → Earned s id v a
    → Earned s' id v a
Earned-Extends s s' id v a x e = (
  e.0,
  e.1,
  e.2,
  x.0 id e.0 e.1 e.3,
  elim e.4 [ inl h ↦ inl (h.0, x.1 id e.0 h.1) | inr h ↦ inr h ],
  e.5,
  e.6,
)

first_holds :
    (test : ArtifactRow → Bool) (xs : List ArtifactRow) (row : ArtifactRow)
    → first test xs ≡ some row
    → test row ≡ true
first_holds test [] row h = ground arith
first_holds test (x ∷ xs) row h = ground (arith, first_holds test xs row)

-- The row found bears the id and the version looked for.
pub found_named :
    (id : String) (v : ℕ) (s : EvolutionRegistry) (row : ArtifactRow)
    → find_version id v s ≡ some row
    → (row.artifact.artifact_id ≡ id) × (row.artifact.version ≡ v)
unfolding find_version
found_named id v s row h =
    ground
      (arith, first_holds (is_version id v) s.artifacts row h, eq_iff row.artifact.artifact_id id)

pub put-Extends :
    (f : Formats) (a b : EvolutionArtifact) (s s' : EvolutionRegistry)
    → put f a s ≡ done b s'
    → Extends s s'
unfolding has_helpful
put-Extends f a b s s' h = (
  λ id v row e. put_immutable f a b s s' id v row h e,
  λ id v y. ground (arith, put_outcome f a b s s' h),
)

-- A row of the registry after a put was there before, or is the artifact's.
put_rows :
    (f : Formats) (a b : EvolutionArtifact) (s s' : EvolutionRegistry) (id : String) (v : ℕ)
    (row : ArtifactRow)
    → put f a s ≡ done b s'
    → find_version id v s' ≡ some row
    → (find_version id v s ≡ some row)
      ⊎ ((a.artifact_id ≡ id) × (a.version ≡ v) × (row.artifact ≡ a))
unfolding find_version row_of
put_rows f a b s s' id v row h e = elim (Option-cases (first (is_version id v) s.artifacts)) [
  | inr (old, o) ↦ inl (
      ground (
        arith,
        o,
        e,
        put_outcome f a b s s' h,
        first-append (is_version id v) s.artifacts (row_of f a),
      ))
  | inl n ↦ elim (Bool-cases (is_some (find_version a.artifact_id a.version s))) [
    | inl old ↦ ground (arith, n, e, old, put_outcome f a b s s' h)
    | inr new ↦ inr (
      ground (
        arith,
        n,
        e,
        new,
        put_outcome f a b s s' h,
        eq_iff a.artifact_id id,
        first-append (is_version id v) s.artifacts (row_of f a),
      ),
      ground (
        arith,
        n,
        e,
        new,
        put_outcome f a b s s' h,
        eq_iff a.artifact_id id,
        first-append (is_version id v) s.artifacts (row_of f a),
      ),
      ground (
        arith,
        n,
        e,
        new,
        put_outcome f a b s s' h,
        eq_iff a.artifact_id id,
        first-append (is_version id v) s.artifacts (row_of f a),
      ),
    )
  ]
]

pub put-Sound :
    (f : Formats) (a b : EvolutionArtifact) (s s' : EvolutionRegistry)
    → put f a s ≡ done b s'
    → (is_active a.state ≡ true → Earned s a.artifact_id a.version a)
    → Sound s
    → Sound s'
put-Sound f a b s s' h earned sound id v row e y =
    let x = put-Extends f a b s s' h in
    elim (put_rows f a b s s' id v row h e) [
      | inl old ↦ Earned-Extends s s' id v row.artifact x (sound id v row old y)
      | inr new ↦
          let mine : Earned s a.artifact_id a.version a = earned (ground (arith, new, y)) in
          subst (λ i. Earned s' i v row.artifact) new.0
            (subst (λ w. Earned s' a.artifact_id w row.artifact) new.1
              (subst (λ c. Earned s' a.artifact_id a.version c) (sym new.2)
                (Earned-Extends s s' a.artifact_id a.version a x mine)))
    ]
