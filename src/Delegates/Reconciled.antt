-- ===== src/Delegates/Reconciled.antt =====
-- What `finalize` of gateway/src/dgx_moa/async_moa.py makes of the findings.
use mo_e_mo_a_integrated_com.Delegates.{
  finding_of, result_of, corrects, decision_of, empty_reconciliation, add_finding, add_findings,
  begin_finalize, awaited, finish_finalize, finalize, is_running, DelegationSnapshot,
  DelegateHandle, Reconciliation, AsyncMoaRuntime, MoaEnv,
}
use mo_e_mo_a_integrated_com.Base.{
  ◌+◌, String, ◌≡◌, refl, sym, ap, ◌∙◌, subst, inl, inr, Bool, true, false, ◌||◌, none, some, List,
  [], ◌∷◌, ◌++◌, map, arith, if◌then◌else◌, Bool-cases, Option-cases, length, keep_if, any,
  length-append, append_nil, append_assoc, contains, dedup, contains-dedup,
}

-- The handle brings a finding that corrects the direction.
abbrev pub is_correction : DelegationSnapshot → DelegateHandle → Bool
is_correction now h = elim (finding_of h.task) [ none ↦ false | some f ↦ corrects now h f ]

-- The handle brings a finding that asks for the action.
abbrev pub asks_for : String → DelegateHandle → Bool
asks_for action h = elim (finding_of h.task) [
  | none ↦ false
  | some f ↦ contains action f.requested_actions
]

contains-append :
    (k : String) (xs ys : List String) → contains k (xs ++ ys) ≡ contains k xs || contains k ys
contains-append k [] ys = refl
contains-append k (x ∷ xs) ys = ground (arith, contains-append k xs ys)

-- What one handle adds to the parts of the answer.
abbrev Adds :
    MoaEnv → DelegationSnapshot → DelegateHandle → String → Reconciliation → Reconciliation → Type 0
Adds env now h action rec x =
    (x.reloop_required ≡ rec.reloop_required || is_correction now h)
    × (length x.decisions ≡ length rec.decisions + (if is_correction now h then 1 else 0))
    × (contains action x.requested_actions
        ≡ contains action rec.requested_actions || asks_for action h)
    × (x.results ≡ rec.results ++ result_of env now h ∷ [])

add_finding-Adds :
    (env : MoaEnv) (now : DelegationSnapshot) (h : DelegateHandle) (rec : Reconciliation)
    (action : String)
    → Adds env now h action rec (add_finding env now h rec)
unfolding add_finding
add_finding-Adds env now h rec action =
    let noted = record rec { results = rec.results ++ result_of env now h ∷ [] } in
    elim (Option-cases (finding_of h.task)) [
      | inl n ↦
          let same : noted ≡ add_finding env now h rec = ground (arith, n) in
          subst (Adds env now h action rec) same
            (ground (arith, n), ground (arith, n), ground (arith, n), refl)
      | inr (f, s) ↦
          let asked = record noted {
            requested_actions = rec.requested_actions ++ f.requested_actions;
          } in
          let adds = contains-append action rec.requested_actions f.requested_actions in
          elim (Bool-cases (corrects now h f)) [
            | inl c ↦
                let same : (record asked {
                  reloop_required = true;
                  decisions = rec.decisions ++ decision_of env h f ∷ [];
                })
                    ≡ add_finding env now h rec =
                  ground (arith, s, c) in
                subst (Adds env now h action rec) same (
                  ground (arith, s, c),
                  ground (arith, s, c, length-append rec.decisions (decision_of env h f ∷ [])),
                  ground (arith, s, adds),
                  refl,
                )
            | inr c ↦
                let same : asked ≡ add_finding env now h rec = ground (arith, s, c) in
                subst (Adds env now h action rec) same
                  (ground (arith, s, c), ground (arith, s, c), ground (arith, s, adds), refl)
          ]
    ]

-- What all handles add.
abbrev Collected :
    MoaEnv
    → DelegationSnapshot
    → List DelegateHandle
    → String
    → Reconciliation
    → Reconciliation
    → Type 0
Collected env now hs action rec x =
    (x.reloop_required ≡ rec.reloop_required || any (is_correction now) hs)
    × (length x.decisions ≡ length rec.decisions + length (keep_if (is_correction now) hs))
    × (contains action x.requested_actions
        ≡ contains action rec.requested_actions || any (asks_for action) hs)
    × (x.results ≡ rec.results ++ map (result_of env now) hs)

add_findings-Collected :
    (env : MoaEnv) (now : DelegationSnapshot) (hs : List DelegateHandle) (rec : Reconciliation)
    (action : String)
    → Collected env now hs action rec (add_findings env now hs rec)
unfolding add_findings
add_findings-Collected env now [] rec action =
    (ground arith, ground arith, ground arith, sym (append_nil rec.results))
add_findings-Collected env now (h ∷ hs) rec action =
    let one = add_finding-Adds env now h rec action in
    let rest = add_findings-Collected env now hs (add_finding env now h rec) action in
    (
      ground (arith, one.0, rest.0),
      ground (arith, one.1, rest.1),
      ground (arith, one.2, rest.2),
      rest.3
          ∙ ap (λ xs. xs ++ map (result_of env now) hs) one.3
          ∙ append_assoc rec.results (result_of env now h ∷ []) (map (result_of env now) hs),
    )

-- Of the handles that were relevant when `finalize` was called, as they are when it goes on, and of no
-- other: it answers once none of their tasks runs any more; a further loop is asked for, with its
-- notification, exactly if one has brought a materially corrective finding whose snapshot is not
-- stale; each of these gives one decision; an action is asked for exactly if one of their findings
-- asks for it; and each gives one result, in their order.
pub finalize-Exact :
    (env : MoaEnv) (now : DelegationSnapshot) (before r : AsyncMoaRuntime) (x : Reconciliation)
    (action : String)
    → finalize env now before r ≡ some x
    → let hs = awaited (begin_finalize before) r in
      (any (λ h. is_running h.task) hs ≡ false)
      × (x.reloop_required ≡ any (is_correction now) hs)
      × (x.notifies ≡ any (is_correction now) hs)
      × (length x.decisions ≡ length (keep_if (is_correction now) hs))
      × (contains action x.requested_actions ≡ any (asks_for action) hs)
      × (x.results ≡ map (result_of env now) hs)
unfolding finalize finish_finalize
finalize-Exact env now before r x action h =
    let hs = awaited (begin_finalize before) r in
    let all_found = add_findings env now hs empty_reconciliation in
    let c = add_findings-Collected env now hs empty_reconciliation action in
    elim (Bool-cases (any (λ h. is_running h.task) hs)) [
      | inl t ↦ absurd (ground (arith, h, t))
      | inr f ↦
          let same : (record all_found {
            notifies = all_found.reloop_required;
            requested_actions = dedup all_found.requested_actions;
          })
              ≡ x =
            ground (arith, h, f) in
          (
            f,
            sym (ap (λ y. y.reloop_required) same) ∙ c.0,
            sym (ap (λ y. y.notifies) same) ∙ c.0,
            ground (arith, c.1, ap (λ y. length y.decisions) same),
            sym (ap (λ y. contains action y.requested_actions) same)
                ∙ contains-dedup action all_found.requested_actions
                ∙ c.2,
            sym (ap (λ y. y.results) same) ∙ c.3,
          )
    ]
