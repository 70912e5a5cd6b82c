-- ===== src/Graph/Attempts.antt =====
-- What changing the attempts in place, as gateway/src/dgx_moa/execution_graph.py does, leaves of them.
use mo_e_mo_a_integrated_com.Graph.{last_match, NodeAttempt}
use mo_e_mo_a_integrated_com.Graph.Ready.{find_attempt, set_attempt}
use mo_e_mo_a_integrated_com.Graph.Edges.{cancel_attempts}
use mo_e_mo_a_integrated_com.Base.{
  ℕ, String, ◌==◌, ◌≡◌, refl, subst, inl, inr, Bool, true, false, some, List, [], ◌∷◌, arith,
  is_some, Option-cases, any,
}

pub last_match-any {ℓ} :
    {A : Type ℓ} (p : A → Bool) (xs : List A) → is_some (last_match p xs) ≡ any p xs
last_match-any p [] = refl
last_match-any p (x ∷ xs) = elim (Option-cases (last_match p xs)) [
  | inl e ↦ ground (arith, e, last_match-any p xs)
  | inr (y, e) ↦ ground (arith, e, last_match-any p xs)
]

pub last_match-holds {ℓ} :
    {A : Type ℓ} (p : A → Bool) (xs : List A) (y : A) → last_match p xs ≡ some y → p y ≡ true
last_match-holds p [] y h = absurd (cc)
last_match-holds p (x ∷ xs) y h = elim (Option-cases (last_match p xs)) [
  | inl n ↦
      let b : p x ≡ true = ground (arith, h, n) in
      let same : x ≡ y = ground (arith, h, n, b) in subst (λ z. p z ≡ true) same b
  | inr (z, e) ↦ last_match-holds p xs y (ground (arith, h, e))
]

-- An attempt that ended the run is still there if the change keeps it so.
pub set_attempt_keeps :
    (p : NodeAttempt → Bool) (id : String) (f : NodeAttempt → NodeAttempt) (xs : List NodeAttempt)
    → ((a : NodeAttempt) → find_attempt id xs ≡ some a → p a ≡ true → p (f a) ≡ true)
    → any p xs ≡ true
    → any p (set_attempt id f xs) ≡ true
unfolding set_attempt find_attempt
set_attempt_keeps p id f [] h e = e
set_attempt_keeps p id f (a ∷ xs) h e =
    let same : NodeAttempt → Bool = λ b. b.attempt_id == id in
    elim (Option-cases (last_match same xs)) [
      | inl n ↦ ground (arith, n, e, h a, last_match-any same xs)
      | inr (y, s) ↦ ground (
        arith,
        s,
        e,
        last_match-any same xs,
        set_attempt_keeps p id f xs (λ b t. h b (ground (arith, t, s))),
      )
    ]

-- The changed attempt is among the attempts.
pub set_attempt_found :
    (p : NodeAttempt → Bool) (id : String) (f : NodeAttempt → NodeAttempt) (xs : List NodeAttempt)
    (a : NodeAttempt)
    → find_attempt id xs ≡ some a
    → p (f a) ≡ true
    → any p (set_attempt id f xs) ≡ true
unfolding set_attempt find_attempt
set_attempt_found p id f [] a s h = absurd (cc)
set_attempt_found p id f (b ∷ xs) a s h =
    let same : NodeAttempt → Bool = λ b. b.attempt_id == id in
    elim (Option-cases (last_match same xs)) [
      | inl n ↦ ground (arith, n, s, h, last_match-any same xs)
      | inr (y, t) ↦ ground (
        arith,
        t,
        s,
        last_match-any same xs,
        set_attempt_found p id f xs a (ground (arith, t, s)) h,
      )
    ]

pub cancel_attempts_keeps :
    (p wanted : NodeAttempt → Bool) (code : String) (now : ℕ) (xs : List NodeAttempt)
    → ((a : NodeAttempt) → p a ≡ true → wanted a ≡ false)
    → any p xs ≡ true
    → any p (cancel_attempts wanted code now xs) ≡ true
unfolding cancel_attempts
cancel_attempts_keeps p wanted code now [] h e = e
cancel_attempts_keeps p wanted code now (a ∷ xs) h e =
    ground (arith, h a, e, cancel_attempts_keeps p wanted code now xs h)
