-- ===== src/Loop/Strikes.antt =====
-- Repeated failures and repeated evidence in gateway/src/dgx_moa/loop_engineering.py.
use mo_e_mo_a_integrated_com.Loop.{
  terminate, FailureClass, LoopFailure, LoopState, duplicate_failure_limit,
}
use mo_e_mo_a_integrated_com.Loop.Failures.{
  find_failure, update_failure, first_failure, is_new_strategy, repeat_failure, repeated,
  register_failure,
}
use mo_e_mo_a_integrated_com.Base.{
  ℕ, zero, suc, ◌+◌, String, eq_iff, eq_refl, ◌≡◌, refl, ◌∙◌, true, false, none, some, List, [],
  ◌∷◌, ◌++◌, arith, leb, if◌then◌else◌, is_some,
}

find-update_failure :
    (f : LoopFailure) (xs : List LoopFailure)
    → is_some (find_failure f.fingerprint xs) ≡ true
    → find_failure f.fingerprint (update_failure f xs) ≡ some f
unfolding find_failure update_failure
find-update_failure f [] h = cc
find-update_failure f (x ∷ xs) h = ground (arith, find-update_failure f xs, eq_refl f.fingerprint)

find-append_one :
    (f : LoopFailure) (xs : List LoopFailure)
    → find_failure f.fingerprint xs ≡ none
    → find_failure f.fingerprint (xs ++ f ∷ []) ≡ some f
unfolding find_failure
find-append_one f [] h = ground (arith, eq_refl f.fingerprint)
find-append_one f (x ∷ xs) h = ground (arith, find-append_one f xs)

find_failure-fingerprint :
    (fp : String) (xs : List LoopFailure) (f : LoopFailure)
    → find_failure fp xs ≡ some f
    → f.fingerprint ≡ fp
unfolding find_failure
find_failure-fingerprint fp [] f h = cc
find_failure-fingerprint fp (x ∷ xs) f h =
    ground (arith, find_failure-fingerprint fp xs f, eq_iff x.fingerprint fp)

module _ (l : LoopState) (fp : String) (c : FailureClass) (strategy : String)
    (paths : List String) where
  abbrev registered : LoopFailure × LoopState
  registered = register_failure l fp c strategy paths

  -- The first time the failure is opened, with a count of one.
  register_first :
      find_failure fp l.open_failures ≡ none
      → (find_failure fp registered.1.open_failures ≡ some (first_failure fp c strategy paths))
        × (registered.1.termination_reason ≡ l.termination_reason)
  unfolding register_failure first_failure
  register_first new =
      rw (new, register_failure)
        (find-append_one (first_failure fp c strategy paths) l.open_failures new, refl)

  -- Again with nothing new to try, the count goes up, and from three on the loop ends.
  register_again :
      (f : LoopFailure)
      → find_failure fp l.open_failures ≡ some f
      → is_new_strategy strategy f ≡ false
      → (find_failure fp registered.1.open_failures ≡ some (repeat_failure f))
        × (registered.1.termination_reason ≡ (
            if leb 3 (f.occurrence_count + 1)
            then some duplicate_failure_limit
            else l.termination_reason))
  unfolding register_failure repeated terminate
  register_again f old same =
      rw (old, register_failure)
        (rw same (
          ground (
            arith,
            find-update_failure (repeat_failure f) l.open_failures,
            find_failure-fingerprint fp l.open_failures f old,
          )))

-- registered three times with the same strategy
unfoldable pub strike : LoopState → String → FailureClass → String → List String → ℕ → LoopState
strike l fp c strategy paths zero = l
strike l fp c strategy paths (suc n) =
    (register_failure (strike l fp c strategy paths n) fp c strategy paths).1

first_strategy_known :
    (fp : String) (c : FailureClass) (strategy : String) (paths : List String)
    → is_new_strategy strategy (first_failure fp c strategy paths) ≡ false
unfolding first_failure
first_strategy_known fp c strategy paths = ground (arith, eq_refl strategy)

-- A failure that was not open, registered with one strategy only, leaves the loop's fate open
-- twice and ends it the third time.
pub three_strikes :
    (l : LoopState) (fp : String) (c : FailureClass) (strategy : String) (paths : List String)
    → find_failure fp l.open_failures ≡ none
    → ((strike l fp c strategy paths 2).termination_reason ≡ l.termination_reason)
      × ((strike l fp c strategy paths 3).termination_reason ≡ some duplicate_failure_limit)
unfolding strike repeat_failure first_failure
three_strikes l fp c strategy paths new =
    let one = register_first l fp c strategy paths new in
    let f = first_failure fp c strategy paths in
    let known = first_strategy_known fp c strategy paths in
    let two = register_again (strike l fp c strategy paths 1) fp c strategy paths f one.0 known in
    let three =
      register_again (strike l fp c strategy paths 2) fp c strategy paths (repeat_failure f) two.0
        known in
    (two.1 ∙ one.1, three.1)
