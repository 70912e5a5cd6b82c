-- ===== src/Loop/Resolved.antt =====
-- `resolve_failures` of gateway/src/dgx_moa/loop_engineering.py: which failures it closes.
use mathlib.Core.List.{Memᴰ}
use mathlib.Core.List.Memᴰ
use mo_e_mo_a_integrated_com.Loop.{LoopFailure, LoopState}
use mo_e_mo_a_integrated_com.Loop.Failures.{touches, resolve_failures}
use mo_e_mo_a_integrated_com.Base.{
  ◌+◌, String, eq_iff, eq_refl, ◌≡◌, refl, sym, ap, ◌∙◌, ◌↔◌, inl, inr, Bool, true, false, not,
  List, [], ◌∷◌, arith, Bool-cases, length, keep_if, any, contains,
}

-- None of the failure's paths is among these.
abbrev pub Untouched : List String → LoopFailure → Type 0
Untouched paths f = (p : String) → contains p f.affected_paths ≡ true → contains p paths ≡ false

no_common :
    (paths xs : List String)
    → any (λ p. contains p paths) xs ≡ false
    → (p : String) → contains p xs ≡ true
    → contains p paths ≡ false
no_common paths [] n p c = absurd (ground (arith, c))
no_common paths (x ∷ xs) n p c =
    ground (arith, n, c, eq_iff x p, no_common paths xs (ground (arith, n)) p)

some_common :
    (paths xs : List String)
    → any (λ p. contains p paths) xs ≡ true
    → (p : String) × (contains p xs ≡ true) × (contains p paths ≡ true)
some_common paths [] n = absurd (ground (arith, n))
some_common paths (x ∷ xs) n = elim (Bool-cases (contains x paths)) [
  | inl y ↦ (x, ground (arith, eq_refl x), y)
  | inr o ↦ let r = some_common paths xs (ground (arith, n, o)) in (r.0, ground (arith, r.1), r.2)
]

touches_common :
    (paths : List String) (f : LoopFailure) → (touches paths f ≡ false) ↔ Untouched paths f
touches_common paths f = (
  λ n. no_common paths f.affected_paths n,
  λ u. elim (Bool-cases (touches paths f)) [
    | inr n ↦ n
    | inl y ↦
        let c = some_common paths f.affected_paths y in absurd (ground (arith, u c.0 c.1, c.2))
  ],
)

module _ (t : LoopFailure → Bool) where
  kept_of :
      (f : LoopFailure) (xs : List LoopFailure) → Memᴰ f (keep_if t xs) → Memᴰ f xs × (t f ≡ true)
  kept_of f [] m = absurd (Memᴰ.not-nil m)
  kept_of f (x ∷ xs) m = elim (Bool-cases (t x)) [
    | inl y ↦ elim (Memᴰ.cases_cons (rw y at m)) [
      | inl e ↦ (Memᴰ.head e, ap t e ∙ y)
      | inr rest ↦ let r = kept_of f xs rest in (Memᴰ.tail r.0, r.1)
    ]
    | inr n ↦ let r = kept_of f xs (rw n at m) in (Memᴰ.tail r.0, r.1)
  ]

  of_kept :
      (f : LoopFailure) (xs : List LoopFailure) → Memᴰ f xs → t f ≡ true → Memᴰ f (keep_if t xs)
  of_kept f [] m y = absurd (Memᴰ.not-nil m)
  of_kept f (x ∷ xs) m y = elim (Memᴰ.cases_cons m) [
    | inl e ↦ rw (sym (ap t e) ∙ y) (Memᴰ.head e)
    | inr rest ↦ elim (Bool-cases (t x)) [
      | inl z ↦ rw z (Memᴰ.tail (of_kept f xs rest y))
      | inr n ↦ rw n (of_kept f xs rest y)
    ]
  ]

  kept_count :
      (xs : List LoopFailure)
      → length (keep_if t xs) + length (keep_if (λ f. not (t f)) xs) ≡ length xs
  kept_count [] = refl
  kept_count (x ∷ xs) = ground (arith, kept_count xs)

-- After `resolve_failures` exactly those failures are open that were open and have none of the paths
-- among their affected paths; it answers how many it has closed, and leaves the rest of the loop as it
-- was.
pub resolve_failures_lem :
    (l : LoopState) (paths : List String)
    → let (closed, l') = resolve_failures l paths in
      ((f : LoopFailure) → Memᴰ f l'.open_failures ↔ (Memᴰ f l.open_failures × Untouched paths f))
      × (closed + length l'.open_failures ≡ length l.open_failures)
      × (record l' { open_failures = l.open_failures } ≡ l)
unfolding resolve_failures
resolve_failures_lem l paths =
    let t : LoopFailure → Bool = λ f. not (touches paths f) in
    (
      λ f. (
        λ m.
            let k = kept_of t f l.open_failures m in
            (k.0, (touches_common paths f).0 (ground (arith, k.1))),
        λ k. of_kept t f l.open_failures k.0 (ground (arith, (touches_common paths f).1 k.1)),
      ),
      kept_count (touches paths) l.open_failures,
      refl,
    )
