-- ===== src/Scheduler/Arrivals.antt =====
-- The order in which the entries of a queue of gateway/src/dgx_moa/executor_scheduler.py came, which
-- their sequence numbers tell.
use mo_e_mo_a_integrated_com.Scheduler.{Queued}
use mo_e_mo_a_integrated_com.Base.{
  ℕ, ◌+◌, ◌≡◌, refl, Bool, true, ◌&&◌, List, [], ◌∷◌, ◌++◌, arith, ltb, leb, keep_if, all,
}

-- The entry came before every one of these.
abbrev pub precedes : Queued → List Queued → Bool
precedes e xs = all (λ x. ltb e.sequence x.sequence) xs

-- The entries stand in the order in which they came, and the last number given is `newest`.
abbrev pub in_order : ℕ → List Queued → Bool
in_order newest [] = true
in_order newest (e ∷ es) = leb e.sequence newest && precedes e es && in_order newest es

precedes-append_one :
    (x e : Queued) (xs : List Queued)
    → precedes x (xs ++ e ∷ []) ≡ precedes x xs && ltb x.sequence e.sequence
precedes-append_one x e [] = ground arith
precedes-append_one x e (y ∷ ys) = ground (arith, precedes-append_one x e ys)

-- The next entry goes to the end.
pub in_order-append_one :
    (newest : ℕ) (e : Queued) (xs : List Queued)
    → e.sequence ≡ newest + 1
    → in_order newest xs ≡ true
    → in_order (newest + 1) (xs ++ e ∷ []) ≡ true
in_order-append_one newest e [] n h = ground (arith, n)
in_order-append_one newest e (x ∷ xs) n h =
    ground (arith, n, precedes-append_one x e xs, in_order-append_one newest e xs n)

pub in_order-next :
    (newest : ℕ) (xs : List Queued) → in_order newest xs ≡ true → in_order (newest + 1) xs ≡ true
in_order-next newest [] h = refl
in_order-next newest (x ∷ xs) h = ground (arith, in_order-next newest xs)

precedes-keep_if :
    (x : Queued) (t : Queued → Bool) (xs : List Queued)
    → precedes x xs ≡ true
    → precedes x (keep_if t xs) ≡ true
precedes-keep_if x t [] h = refl
precedes-keep_if x t (y ∷ ys) h = ground (arith, precedes-keep_if x t ys)

-- Those that stay keep their order.
pub in_order-keep_if :
    (newest : ℕ) (t : Queued → Bool) (xs : List Queued)
    → in_order newest xs ≡ true
    → in_order newest (keep_if t xs) ≡ true
in_order-keep_if newest t [] h = refl
in_order-keep_if newest t (x ∷ xs) h =
    ground (arith, precedes-keep_if x t xs, in_order-keep_if newest t xs)
