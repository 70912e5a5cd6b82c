-- ===== src/Loop/Failures.antt =====
-- gateway/src/dgx_moa/loop_engineering.py: the ledger of failures that are still open.
use mo_e_mo_a_integrated_com.Loop.{
  terminate, FailureClass, LoopFailure, LoopState, duplicate_failure_limit,
}
use mo_e_mo_a_integrated_com.Base.{
  ℕ, ◌+◌, ◌≤◌, String, ◌==◌, ◌≡◌, refl, subst, inl, inr, Bool, true, false, not, ◌&&◌, Option, none,
  some, List, [], ◌∷◌, ◌++◌, arith, leb, if◌then◌else◌, Bool-cases, is_some, Option-cases, length,
  keep_if, any, is_empty, All, first, codes, contains,
}

unfoldable pub find_failure : String → List LoopFailure → Option LoopFailure
find_failure fingerprint = first (λ f. f.fingerprint == fingerprint)

-- The existing failure is changed in place.
unfoldable pub update_failure : LoopFailure → List LoopFailure → List LoopFailure
update_failure f [] = []
update_failure f (x ∷ xs) =
    if x.fingerprint == f.fingerprint then f ∷ xs else x ∷ update_failure f xs

-- a failure that is not open yet; `[strategy] if strategy else []`
unfoldable pub first_failure : String → FailureClass → String → List String → LoopFailure
first_failure fingerprint failure_class strategy affected_paths = record {
  fingerprint = fingerprint;
  failure_class = failure_class;
  occurrence_count = 1;
  attempted_strategies = if is_empty (codes strategy) then [] else strategy ∷ [];
  strategy_change_required = false;
  affected_paths = affected_paths;
}

abbrev pub is_new_strategy : String → LoopFailure → Bool
is_new_strategy strategy f =
    not (is_empty (codes strategy)) && not (contains strategy f.attempted_strategies)

unfoldable pub retry_with : String → LoopFailure → LoopFailure
retry_with strategy f = record f {
  attempted_strategies = f.attempted_strategies ++ strategy ∷ [];
  occurrence_count = 1;
  strategy_change_required = false;
}

unfoldable pub repeat_failure : LoopFailure → LoopFailure
repeat_failure f = record f {
  occurrence_count = f.occurrence_count + 1;
  strategy_change_required = leb 2 (f.occurrence_count + 1);
}

unfoldable pub repeated : LoopState → String → LoopFailure → LoopFailure × LoopState
unfolding retry_with repeat_failure update_failure terminate
repeated l strategy f =
    if is_new_strategy strategy f
    then (
      retry_with strategy f,
      record l { open_failures = update_failure (retry_with strategy f) l.open_failures },
    )
    else (
      repeat_failure f,
      (let l' = record l { open_failures = update_failure (repeat_failure f) l.open_failures } in
          if leb 3 (f.occurrence_count + 1) then terminate l' duplicate_failure_limit else l'),
    )

-- `register_failure` with the fingerprint and the list of affected paths that it has computed.
unfoldable pub register_failure :
    LoopState → String → FailureClass → String → List String → LoopFailure × LoopState
unfolding find_failure first_failure repeated
register_failure l fingerprint failure_class strategy affected_paths =
    elim (find_failure fingerprint l.open_failures) [
      | none ↦
          let f = first_failure fingerprint failure_class strategy affected_paths in
          (f, record l { open_failures = l.open_failures ++ f ∷ [] })
      | some f ↦ repeated l strategy f
    ]

-- paths.intersection(failure.affected_paths)
abbrev pub touches : List String → LoopFailure → Bool
touches paths f = any (λ p. contains p paths) f.affected_paths

-- A failure equals a resolved one only if it touches the paths too, so `not in resolved` is
-- `not touches`.
unfoldable pub resolve_failures : LoopState → List String → ℕ × LoopState
resolve_failures l paths = (
  length (keep_if (touches paths) l.open_failures),
  record l { open_failures = keep_if (λ f. not (touches paths f)) l.open_failures },
)

-- A change of strategy is asked for exactly from the second failure in a row, and a third has ended
-- the loop.
abbrev pub IsCounted : Bool → LoopFailure → Type 0
IsCounted ended f =
    (1 ≤ f.occurrence_count)
    × (f.strategy_change_required ≡ leb 2 f.occurrence_count)
    × (leb 3 f.occurrence_count ≡ true → ended ≡ true)

-- That of every open failure of the loop.
abbrev pub Counted : LoopState → Type 0
Counted l = All (IsCounted (is_some l.termination_reason)) l.open_failures

module _ (ended : Bool) where
  Counted-update :
      (f : LoopFailure) (xs : List LoopFailure)
      → IsCounted ended f
      → All (IsCounted ended) xs
      → All (IsCounted ended) (update_failure f xs)
  unfolding update_failure
  Counted-update f [] h k = tt
  Counted-update f (x ∷ xs) h k = elim (Bool-cases (x.fingerprint == f.fingerprint)) [
    | inl e ↦ rw e (h, k.1)
    | inr n ↦ rw n (k.0, Counted-update f xs h k.1)
  ]

  Counted-append_one :
      (f : LoopFailure) (xs : List LoopFailure)
      → IsCounted ended f
      → All (IsCounted ended) xs
      → All (IsCounted ended) (xs ++ f ∷ [])
  Counted-append_one f [] h k = (h, tt)
  Counted-append_one f (x ∷ xs) h k = (k.0, Counted-append_one f xs h k.1)

  Counted-found :
      (fp : String) (f : LoopFailure) (xs : List LoopFailure)
      → find_failure fp xs ≡ some f
      → All (IsCounted ended) xs
      → IsCounted ended f
  unfolding find_failure
  Counted-found fp f [] e k = cc
  Counted-found fp f (x ∷ xs) e k = elim (Bool-cases (x.fingerprint == fp)) [
    | inl y ↦ let p : x ≡ f = ground arith in subst (IsCounted ended) p k.0
    | inr n ↦ Counted-found fp f xs (ground arith) k.1
  ]

  Counted-keep_if :
      (test : LoopFailure → Bool) (xs : List LoopFailure)
      → All (IsCounted ended) xs
      → All (IsCounted ended) (keep_if test xs)
  Counted-keep_if test [] k = tt
  Counted-keep_if test (x ∷ xs) k = elim (Bool-cases (test x)) [
    | inl y ↦ rw y (k.0, Counted-keep_if test xs k.1)
    | inr n ↦ rw n (Counted-keep_if test xs k.1)
  ]

Counted-ended :
    (ended : Bool) (xs : List LoopFailure) → All (IsCounted ended) xs → All (IsCounted true) xs
Counted-ended ended [] k = tt
Counted-ended ended (x ∷ xs) k = ((k.0.0, k.0.1, λ m. refl), Counted-ended ended xs k.1)

retry_with-IsCounted :
    (ended : Bool) (strategy : String) (f : LoopFailure) → IsCounted ended (retry_with strategy f)
unfolding retry_with
retry_with-IsCounted ended strategy f = (omega arith, refl, λ m. cc)

repeat_failure-IsCounted :
    (ended : Bool) (f : LoopFailure)
    → leb 3 (f.occurrence_count + 1) ≡ false
    → IsCounted ended (repeat_failure f)
unfolding repeat_failure
repeat_failure-IsCounted ended f small = (omega arith, refl, λ m. cc)

repeat_failure-ended : (f : LoopFailure) → IsCounted true (repeat_failure f)
unfolding repeat_failure
repeat_failure-ended f = (omega arith, refl, λ m. refl)

repeated-Counted :
    (l : LoopState) (strategy : String) (f : LoopFailure)
    → Counted l
    → Counted (repeated l strategy f).1
unfolding repeated terminate
repeated-Counted l strategy f k = elim (Bool-cases (is_new_strategy strategy f)) [
  | inl new ↦ rw new (
      Counted-update (is_some l.termination_reason) (retry_with strategy f) l.open_failures
        (retry_with-IsCounted (is_some l.termination_reason) strategy f) k)
  | inr old ↦ rw old (elim (Bool-cases (leb 3 (f.occurrence_count + 1))) [
    | inl third ↦ rw third (
        Counted-update true (repeat_failure f) l.open_failures (repeat_failure-ended f)
          (Counted-ended (is_some l.termination_reason) l.open_failures k))
    | inr fewer ↦ rw fewer (
        Counted-update (is_some l.termination_reason) (repeat_failure f) l.open_failures
          (repeat_failure-IsCounted (is_some l.termination_reason) f fewer) k)
  ])
]

-- Every registered failure keeps the counts right.
pub register_failure-Counted :
    (l : LoopState) (fp : String) (c : FailureClass) (strategy : String) (paths : List String)
    → Counted l
    → Counted (register_failure l fp c strategy paths).1
unfolding register_failure first_failure
register_failure-Counted l fp c strategy paths k =
    elim (Option-cases (find_failure fp l.open_failures)) [
      | inl new ↦
          rw (new, register_failure)
            (Counted-append_one (is_some l.termination_reason) (first_failure fp c strategy paths)
              l.open_failures (omega arith, refl, λ m. cc) k)
      | inr (f, old) ↦ rw (old, register_failure) (repeated-Counted l strategy f k)
    ]

pub resolve_failures-Counted :
    (l : LoopState) (paths : List String) → Counted l → Counted (resolve_failures l paths).1
unfolding resolve_failures
resolve_failures-Counted l paths k =
    Counted-keep_if (is_some l.termination_reason) (λ f. not (touches paths f)) l.open_failures k
