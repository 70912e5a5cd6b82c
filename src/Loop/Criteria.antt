-- ===== src/Loop/Criteria.antt =====
-- gateway/src/dgx_moa/loop_engineering.py: acceptance criteria and the readiness to complete.
use mo_e_mo_a_integrated_com.Loop.{
  is_passed, is_waived, CriterionState, AcceptanceCriterion, LoopState,
}
use mo_e_mo_a_integrated_com.Base.{
  String, ◌==◌, eq_iff, ◌≡◌, refl, ◌⊎◌, inl, inr, Bool, true, false, not, ◌&&◌, ◌||◌, Option, none,
  some, List, [], ◌∷◌, ◌++◌, arith, ltb, leb, if◌then◌else◌, Bool-cases, is_some, length, keep_if,
  any, all, is_empty, All, nonempty-keep_if, first, codes,
}

-- not waiver_reason
abbrev pub no_reason : Option String → Bool
no_reason none = true
no_reason (some r) = is_empty (codes r)

abbrev too_long : Option String → Bool
too_long none = false
too_long (some r) = ltb 2000 (length (codes r))

-- The checks of the model: the bounds of its fields and `require_support`.
unfoldable pub valid_criterion : AcceptanceCriterion → Bool
valid_criterion c =
    not (is_empty (codes c.description))
    && leb (length (codes c.description)) 2000
    && not (too_long c.waiver_reason)
    && not (is_passed c.state && is_empty c.evidence_ids)
    && not (is_waived c.state && no_reason c.waiver_reason)

-- The first criterion of that description gives its place to `c`.
unfoldable pub replace_criterion :
    AcceptanceCriterion → List AcceptanceCriterion → List AcceptanceCriterion
replace_criterion c [] = []
replace_criterion c (x ∷ xs) =
    if x.description == c.description then c ∷ xs else x ∷ replace_criterion c xs

unfoldable pub find_criterion : String → List AcceptanceCriterion → Option AcceptanceCriterion
find_criterion description = first (λ c. c.description == description)

abbrev criterion_id : Option AcceptanceCriterion → String → String
criterion_id none uuid = uuid
criterion_id (some c) uuid = c.criterion_id

unfoldable pub make_criterion :
    LoopState
    → String
    → String
    → CriterionState
    → List String
    → Option String
    → Bool
    → AcceptanceCriterion
make_criterion l uuid description state evidence_ids waiver_reason required = record {
  criterion_id = criterion_id (find_criterion description l.acceptance_criteria) uuid;
  description = description;
  required = required;
  state = state;
  evidence_ids = evidence_ids;
  waiver_reason = waiver_reason;
}

-- The criterion is validated before the loop is touched; `none` is the validation error.
unfoldable pub store_criterion :
    LoopState → AcceptanceCriterion → Option AcceptanceCriterion × LoopState
unfolding valid_criterion replace_criterion find_criterion
store_criterion l c = if not (valid_criterion c) then (none, l) else (
  some c,
  record l {
    acceptance_criteria =
        if is_some (find_criterion c.description l.acceptance_criteria)
        then replace_criterion c l.acceptance_criteria
        else l.acceptance_criteria ++ c ∷ [];
  },
)

unfoldable pub set_criterion :
    LoopState
    → String
    → String
    → CriterionState
    → List String
    → Option String
    → Bool
    → Option AcceptanceCriterion × LoopState
unfolding make_criterion store_criterion
set_criterion l uuid description state evidence_ids waiver_reason required =
    store_criterion l (make_criterion l uuid description state evidence_ids waiver_reason required)

unfoldable pub completion_ready : LoopState → Bool
completion_ready l =
    let required = keep_if (λ c. c.required) l.acceptance_criteria in
    not (is_empty required) && all (λ c. is_passed c.state || is_waived c.state) required

-- A criterion that is passed has evidence, and one that is waived has a reason.
abbrev pub IsSupported : AcceptanceCriterion → Type 0
IsSupported c =
    (is_passed c.state ≡ true → is_empty c.evidence_ids ≡ false)
    × (is_waived c.state ≡ true → no_reason c.waiver_reason ≡ false)

valid_criterion-IsSupported : (c : AcceptanceCriterion) → valid_criterion c ≡ true → IsSupported c
unfolding valid_criterion
valid_criterion-IsSupported c h = (λ p. ground arith, λ w. ground arith)

All-append_one :
    (c : AcceptanceCriterion) (xs : List AcceptanceCriterion)
    → IsSupported c
    → All IsSupported xs
    → All IsSupported (xs ++ c ∷ [])
All-append_one c [] h k = (h, tt)
All-append_one c (x ∷ xs) h k = (k.0, All-append_one c xs h k.1)

All-replace_criterion :
    (c : AcceptanceCriterion) (xs : List AcceptanceCriterion)
    → IsSupported c
    → All IsSupported xs
    → All IsSupported (replace_criterion c xs)
unfolding replace_criterion
All-replace_criterion c [] h k = tt
All-replace_criterion c (x ∷ xs) h k = elim (Bool-cases (x.description == c.description)) [
  | inl e ↦ rw e (h, k.1)
  | inr n ↦ rw n (k.0, All-replace_criterion c xs h k.1)
]

-- Whatever is asked of `set_criterion`, the criteria of the loop stay supported.
pub store_criterion-IsSupported :
    (l : LoopState) (c : AcceptanceCriterion)
    → All IsSupported l.acceptance_criteria
    → All IsSupported (store_criterion l c).1.acceptance_criteria
unfolding store_criterion
store_criterion-IsSupported l c k = elim (Bool-cases (valid_criterion c)) [
  | inr bad ↦ rw bad k
  | inl good ↦
      let h = valid_criterion-IsSupported c good in
      rw good (elim (Bool-cases (is_some (find_criterion c.description l.acceptance_criteria))) [
        | inl old ↦ rw old (All-replace_criterion c l.acceptance_criteria h k)
        | inr new ↦ rw new (All-append_one c l.acceptance_criteria h k)
      ])
]

-- What a required criterion must show for the loop to be complete.
abbrev pub Met : AcceptanceCriterion → Type 0
Met c =
    c.required ≡ true
    → ((is_passed c.state ≡ true) × (is_empty c.evidence_ids ≡ false))
      ⊎ ((is_waived c.state ≡ true) × (no_reason c.waiver_reason ≡ false))

all-Met :
    (cs : List AcceptanceCriterion)
    → All IsSupported cs
    → all (λ c. is_passed c.state || is_waived c.state) (keep_if (λ c. c.required) cs) ≡ true
    → All Met cs
all-Met [] k h = tt
all-Met (c ∷ cs) k h = (λ r. ground (arith, k.0), all-Met cs k.1 (ground arith))

-- A loop that is ready to complete has a required criterion, and each of these is passed on
-- evidence or waived for a reason.
pub completion_ready_sound :
    (l : LoopState)
    → All IsSupported l.acceptance_criteria
    → completion_ready l ≡ true
    → (any (λ c. c.required) l.acceptance_criteria ≡ true) × All Met l.acceptance_criteria
unfolding completion_ready
completion_ready_sound l k h = (
  ground (arith, nonempty-keep_if (λ c. c.required) l.acceptance_criteria),
  all-Met l.acceptance_criteria k (ground arith),
)

find-replace_criterion :
    (c : AcceptanceCriterion) (xs : List AcceptanceCriterion) (d : String)
    → is_some (find_criterion c.description xs) ≡ true
    → find_criterion d (replace_criterion c xs)
      ≡ (if c.description == d then some c else find_criterion d xs)
unfolding find_criterion replace_criterion
find-replace_criterion c [] d h = cc
find-replace_criterion c (x ∷ xs) d h = ground (
  arith,
  find-replace_criterion c xs d,
  eq_iff c.description d,
  eq_iff x.description c.description,
  eq_iff x.description d,
)

find-append_one :
    (c : AcceptanceCriterion) (xs : List AcceptanceCriterion) (d : String)
    → is_some (find_criterion c.description xs) ≡ false
    → find_criterion d (xs ++ c ∷ []) ≡ (if c.description == d then some c else find_criterion d xs)
unfolding find_criterion
find-append_one c [] d h = refl
find-append_one c (x ∷ xs) d h = ground (
  arith,
  find-append_one c xs d,
  eq_iff c.description d,
  eq_iff x.description c.description,
  eq_iff x.description d,
)

-- A stored criterion is the one found under its description, and no other is touched.
pub find-store_criterion :
    (l : LoopState) (c : AcceptanceCriterion) (d : String)
    → valid_criterion c ≡ true
    → find_criterion d (store_criterion l c).1.acceptance_criteria
      ≡ (if c.description == d then some c else find_criterion d l.acceptance_criteria)
unfolding store_criterion
find-store_criterion l c d valid = ground (
  arith,
  find-replace_criterion c l.acceptance_criteria d,
  find-append_one c l.acceptance_criteria d,
)
