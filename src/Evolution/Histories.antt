-- ===== src/Evolution/Histories.antt =====
-- Histories of the registry of gateway/src/dgx_moa/evolution.py: what becomes active, and what stays.
use mo_e_mo_a_integrated_com.Evolution.{
  is_canary, is_active, find_version, put, version_name, is_blank, evaluated_copy, evaluate,
  canary_copy, start_canary, record_canary, is_helpful_row, has_helpful, active_copy,
  promote_artifact, rolled_back_copy, rollback, EvolutionArtifact, EvolutionEvaluation, ArtifactRow,
  CanaryOutcome, CanaryRow, EvolutionRegistry, Formats, done,
}
use mo_e_mo_a_integrated_com.Evolution.Promotion.{
  puts_active, Sound, Extends, Earned-Extends, found_named, put-Extends, put-Sound, ◌⟶◌, Reached,
  puts, evaluates, starts, records, promotes, rolls_back, created, followed,
}
use mo_e_mo_a_integrated_com.Base.{
  ℕ, String, ◌≡◌, refl, sym, subst, inl, inr, Bool, true, false, some, List, [], ◌∷◌, ◌++◌, arith,
  Option-cases, any, joined, joined_not_blank, text_joined_not_blank,
}

-- The artifact that each call puts, with what its checks found.
evaluate_puts :
    (f : Formats) (id : String) (v : ℕ) (e : EvolutionEvaluation) (created_by now : String)
    (b : EvolutionArtifact) (s s' : EvolutionRegistry)
    → evaluate f id v e created_by now s ≡ done b s'
    → (a : EvolutionArtifact) × (put f (evaluated_copy f e id v created_by now a) s ≡ done b s')
unfolding evaluate
evaluate_puts f id v e created_by now b s s' h = elim (Option-cases (find_version id v s)) [
  | inl n ↦ ground arith
  | inr (row, n) ↦ (row.artifact, ground (arith, n))
]

start_puts :
    (f : Formats) (id : String) (v : ℕ) (target approval_id created_by now : String)
    (b : EvolutionArtifact) (s s' : EvolutionRegistry)
    → start_canary f id v target approval_id created_by now s ≡ done b s'
    → (a : EvolutionArtifact) × (put f (canary_copy f id v target approval_id created_by now a) s
        ≡ done b s')
unfolding start_canary
start_puts f id v target approval_id created_by now b s s' h =
    elim (Option-cases (find_version id v s)) [
      | inl n ↦ ground arith
      | inr (row, n) ↦ (row.artifact, ground (arith, n))
    ]

promote_puts :
    (f : Formats) (id : String) (v : ℕ) (approval_id created_by now : String)
    (b : EvolutionArtifact) (s s' : EvolutionRegistry)
    → promote_artifact f id v approval_id created_by now s ≡ done b s'
    → (row : ArtifactRow) × (find_version id v s ≡ some row)
      × (is_canary row.artifact.state ≡ true)
      × (has_helpful id v s ≡ true)
      × (is_blank (some approval_id) ≡ false)
      × (is_blank row.artifact.rollback_target ≡ false)
      × (put f (active_copy f id v approval_id created_by now row.artifact) s ≡ done b s')
unfolding promote_artifact
promote_puts f id v approval_id created_by now b s s' h =
    elim (Option-cases (find_version id v s)) [
      | inl n ↦ ground arith
      | inr (row, n) ↦ (
        row,
        n,
        ground (arith, n),
        ground (arith, n),
        ground (arith, n),
        ground (arith, n),
        ground (arith, n),
      )
    ]

rollback_puts :
    (f : Formats) (id : String) (v target : ℕ) (approval_id created_by now : String)
    (b : EvolutionArtifact) (s s' : EvolutionRegistry)
    → rollback f id v target approval_id created_by now s ≡ done b s'
    → (row : ArtifactRow) × (old : ArtifactRow) × (find_version id v s ≡ some row)
      × (find_version id target s ≡ some old)
      × (is_active row.artifact.state ≡ true)
      × (is_blank (some approval_id) ≡ false)
      × (put f (rolled_back_copy f id v target approval_id created_by now old.artifact) s
          ≡ done b s')
unfolding rollback
rollback_puts f id v target approval_id created_by now b s s' h =
    elim (Option-cases (find_version id v s)) [
      | inl n ↦ ground arith
      | inr (row, n) ↦ elim (Option-cases (find_version id target s)) [
        | inl m ↦ ground (arith, n, m)
        | inr (old, m) ↦
            (row, old, n, m, ground (arith, n, m), ground (arith, n, m), ground (arith, n, m))
      ]
    ]

any-append_one :
    (test : CanaryRow → Bool) (xs : List CanaryRow) (y : CanaryRow)
    → any test xs ≡ true
    → any test (xs ++ y ∷ []) ≡ true
any-append_one test [] y h = ground arith
any-append_one test (x ∷ xs) y h = ground (arith, any-append_one test xs y)

record_outcome :
    (id : String) (v : ℕ) (outcome : CanaryOutcome) (evidence_ids : List String)
    (s s' : EvolutionRegistry)
    → record_canary id v outcome evidence_ids s ≡ done tt s'
    → (row : CanaryRow) × (s' ≡ record s { canaries = s.canaries ++ row ∷ [] })
unfolding record_canary
record_outcome id v outcome evidence_ids s s' h = elim (Option-cases (find_version id v s)) [
  | inl n ↦ ground arith
  | inr (row, n) ↦ (
    record { artifact_id = id; version = v; outcome = outcome; evidence_ids = evidence_ids },
    ground (arith, n),
  )
]

record_Extends :
    (id : String) (v : ℕ) (outcome : CanaryOutcome) (evidence_ids : List String)
    (s s' : EvolutionRegistry)
    → record_canary id v outcome evidence_ids s ≡ done tt s'
    → (s'.artifacts ≡ s.artifacts) × Extends s s'
unfolding find_version has_helpful
record_Extends id v outcome evidence_ids s s' h =
    let r = record_outcome id v outcome evidence_ids s s' h in
    (
      ground (arith, r.1),
      (
        λ i w row e. ground (arith, r.1, e),
        λ i w y. ground (arith, r.1, any-append_one (is_helpful_row i w) s.canaries r.0 y),
      ),
    )

-- A name with a version in it is not blank.
name_not_blank : (f : Formats) (id : String) (v : ℕ) → is_blank (some (version_name f id v)) ≡ false
name_not_blank f id v =
    joined_not_blank id (joined "@" (f.decimal v)) (text_joined_not_blank "@" (f.decimal v) refl)

step-Extends : {s s' : EvolutionRegistry} → s ⟶ s' → Extends s s'
step-Extends (puts s s' f a b h) = put-Extends f a b s s' h
step-Extends (evaluates s s' f id v e created_by now b h) =
    let p = evaluate_puts f id v e created_by now b s s' h in put-Extends f _ b s s' p.1
step-Extends (starts s s' f id v target approval_id created_by now b h) =
    let p = start_puts f id v target approval_id created_by now b s s' h in
    put-Extends f _ b s s' p.1
step-Extends (records s s' id v outcome evidence_ids h) =
    (record_Extends id v outcome evidence_ids s s' h).1
step-Extends (promotes s s' f id v approval_id created_by now b h) =
    let p = promote_puts f id v approval_id created_by now b s s' h in put-Extends f _ b s s' p.6
step-Extends (rolls_back s s' f id v target approval_id created_by now b h) =
    let p = rollback_puts f id v target approval_id created_by now b s s' h in
    put-Extends f _ b s s' p.6

step-Sound :
    {s s' : EvolutionRegistry} (step : s ⟶ s') → puts_active step ≡ false → Sound s → Sound s'
unfolding evaluated_copy canary_copy active_copy rolled_back_copy
step-Sound (puts s s' f a b h) n sound = put-Sound f a b s s' h (λ y. ground (arith, n, y)) sound
step-Sound (evaluates s s' f id v e created_by now b h) n sound =
    let p = evaluate_puts f id v e created_by now b s s' h in
    put-Sound f (evaluated_copy f e id v created_by now p.0) b s s' p.1 (λ y. ground (arith, y))
      sound
step-Sound (starts s s' f id v target approval_id created_by now b h) n sound =
    let p = start_puts f id v target approval_id created_by now b s s' h in
    put-Sound f (canary_copy f id v target approval_id created_by now p.0) b s s' p.1
      (λ y. ground (arith, y)) sound
step-Sound (records s s' id v outcome evidence_ids h) n sound =
    let x = record_Extends id v outcome evidence_ids s s' h in
    λ i w row e y.
      let old : find_version i w s ≡ some row = unfold find_version in ground (arith, e, x.0) in
      Earned-Extends s s' i w row.artifact x.1 (sound i w row old y)
step-Sound (promotes s s' f id v approval_id created_by now b h) n sound =
    let p = promote_puts f id v approval_id created_by now b s s' h in
    let named = found_named id v s p.0 p.1 in
    put-Sound f (active_copy f id v approval_id created_by now p.0.artifact) b s s' p.6
      (λ y. (
        v,
        p.0,
        refl,
        subst (λ i. find_version i v s ≡ some p.0) (sym named.0) p.1,
        inl (p.2, subst (λ i. has_helpful i v s ≡ true) (sym named.0) p.3),
        p.4,
        p.5,
      ))
      sound
step-Sound (rolls_back s s' f id v target approval_id created_by now b h) n sound =
    let p = rollback_puts f id v target approval_id created_by now b s s' h in
    let named = found_named id target s p.1 p.3 in
    put-Sound f (rolled_back_copy f id v target approval_id created_by now p.1.artifact) b s s' p.6
      (λ y. (
        v,
        p.0,
        refl,
        subst (λ i. find_version i v s ≡ some p.0) (sym named.0) p.2,
        inr p.4,
        p.5,
        name_not_blank f id v,
      ))
      sound

-- In every history that begins with an empty registry and puts no active artifact directly, an active
-- version has an approval and a rollback target, and follows a version of the same artifact that is
-- either a canary with a helpful outcome on record or active itself.
pub active-Earned : (s : EvolutionRegistry) → Reached s → Sound s
active-Earned s created id v row e y = unfold find_version in ground (arith, e)
active-Earned s (followed s0 s1 past h n) id v row e y =
    step-Sound h n (active-Earned s0 past) id v row e y

-- A call that commits, also one that puts an active artifact directly, leaves every version that was
-- there as it was, and every helpful outcome on record.
pub versions-Extends : (s s' : EvolutionRegistry) → s ⟶ s' → Extends s s'
versions-Extends s s' h = step-Extends h
