-- ===== src/Evolution/Versions.antt =====
-- The rows of gateway/src/dgx_moa/evolution.py: what a put leaves of them.
use mo_e_mo_a_integrated_com.Evolution.{
  is_version, find_version, row_of, put, EvolutionArtifact, ArtifactRow, EvolutionRegistry, Formats,
  done,
}
use mo_e_mo_a_integrated_com.Base.{
  ℕ, String, ◌≡◌, refl, inl, inr, Bool, some, List, [], ◌∷◌, ◌++◌, arith, if◌then◌else◌, is_some,
  Option-cases, first,
}

pub first-append :
    (test : ArtifactRow → Bool) (xs : List ArtifactRow) (y : ArtifactRow)
    → first test (xs ++ y ∷ [])
      ≡ (if is_some (first test xs) then first test xs else first test (y ∷ []))
first-append test [] y = refl
first-append test (x ∷ xs) y = ground (arith, first-append test xs y)

-- What an accepted put leaves: the registry as it was, or with the row of the artifact.
pub put_outcome :
    (f : Formats) (a b : EvolutionArtifact) (s s' : EvolutionRegistry)
    → put f a s ≡ done b s'
    → (b ≡ a)
      × (s' ≡ (
          if is_some (find_version a.artifact_id a.version s)
          then s
          else record s { artifacts = s.artifacts ++ row_of f a ∷ [] }))
unfolding put
put_outcome f a b s s' h = elim (Option-cases (find_version a.artifact_id a.version s)) [
  | inl e ↦ (ground (arith, e), ground (arith, e))
  | inr (row, e) ↦ (ground (arith, e), ground (arith, e))
]

-- A version that is there keeps its row, whatever is put.
pub put_immutable :
    (f : Formats) (a b : EvolutionArtifact) (s s' : EvolutionRegistry) (id : String) (v : ℕ)
    (row : ArtifactRow)
    → put f a s ≡ done b s'
    → find_version id v s ≡ some row
    → find_version id v s' ≡ some row
unfolding find_version
put_immutable f a b s s' id v row h e =
    ground
      (arith, e, put_outcome f a b s s' h, first-append (is_version id v) s.artifacts (row_of f a))
