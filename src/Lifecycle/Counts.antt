-- ===== src/Lifecycle/Counts.antt =====
-- The counts of the leases table of gateway/src/dgx_moa/lifecycle.py under each way it is written.
use mo_e_mo_a_integrated_com.Lifecycle.{
  count_if, held, is_expired, LifecycleLease, active_request, open_stream, continuation,
}
use mo_e_mo_a_integrated_com.Lifecycle.Leases.{
  insert_or_ignore, insert_all, upsert, is_continuation_of,
}
use mo_e_mo_a_integrated_com.Base.{
  ℕ, ◌+◌, String, ◌==◌, eq_iff, ◌≡◌, refl, Bool, false, not, List, [], ◌∷◌, ◌++◌, map, arith,
  keep_if, contains,
}

-- The two counts agree for a role.
abbrev pub SameCounts : String → List LifecycleLease → List LifecycleLease → Type 0
SameCounts j ls ms =
    (count_if (held j active_request) ls ≡ count_if (held j active_request) ms)
    × (count_if (held j open_stream) ls ≡ count_if (held j open_stream) ms)

pub prune-SameCounts :
    (now : ℕ) (j : String) (ls : List LifecycleLease)
    → SameCounts j ls (keep_if (λ l. not (is_expired now l)) ls)
prune-SameCounts now j [] = (refl, refl)
prune-SameCounts now j (l ∷ ls) = ground (arith, prune-SameCounts now j ls)

pub delete-SameCounts :
    (test : LifecycleLease → Bool) (j : String) (ls : List LifecycleLease)
    → contains j (map (λ l. l.role) (keep_if test ls)) ≡ false
    → SameCounts j ls (keep_if (λ l. not (test l)) ls)
delete-SameCounts test j [] h = (refl, refl)
delete-SameCounts test j (l ∷ ls) h = ground (arith, delete-SameCounts test j ls, eq_iff l.role j)

pub count-append_one :
    (test : LifecycleLease → Bool) (ls : List LifecycleLease) (l : LifecycleLease)
    → count_if test (ls ++ l ∷ []) ≡ count_if test ls + count_if test (l ∷ [])
count-append_one test [] l = omega arith
count-append_one test (m ∷ ls) l = ground (arith, count-append_one test ls l)

pub insert_or_ignore-SameCounts :
    (l : LifecycleLease) (j : String) (ls : List LifecycleLease)
    → (l.role == j) ≡ false
    → SameCounts j ls (insert_or_ignore l ls)
unfolding insert_or_ignore
insert_or_ignore-SameCounts l j ls h = ground (
  arith,
  count-append_one (held j active_request) ls l,
  count-append_one (held j open_stream) ls l,
)

pub insert_all-SameCounts :
    (ns : List LifecycleLease) (j : String) (ls : List LifecycleLease)
    → contains j (map (λ l. l.role) ns) ≡ false
    → SameCounts j ls (insert_all ns ls)
unfolding insert_all
insert_all-SameCounts [] j ls h = (refl, refl)
insert_all-SameCounts (n ∷ ns) j ls h =
    ground (
      arith,
      insert_all-SameCounts ns j (insert_or_ignore n ls),
      insert_or_ignore-SameCounts n j ls,
    )

pub upsert-SameCounts :
    (l : LifecycleLease) (j : String) (ls : List LifecycleLease)
    → l.kind ≡ continuation
    → SameCounts j ls (upsert l ls)
upsert-SameCounts l j [] h = ground arith
upsert-SameCounts l j (m ∷ ls) h = ground (arith, upsert-SameCounts l j ls)

pub drop_continuations-SameCounts :
    (role owner : String) (now : ℕ) (j : String) (ls : List LifecycleLease)
    → SameCounts j ls (keep_if (λ l. not (is_continuation_of role owner now l)) ls)
drop_continuations-SameCounts role owner now j [] = (refl, refl)
drop_continuations-SameCounts role owner now j (l ∷ ls) =
    ground (arith, drop_continuations-SameCounts role owner now j ls)
