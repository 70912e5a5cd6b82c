-- ===== src/Delegates/Runs.antt =====
-- What any sequence of calls of AsyncMoARuntime (gateway/src/dgx_moa/async_moa.py) keeps to, while its
-- tasks end as they will.
use mo_e_mo_a_integrated_com.Delegates.{
  new_moa, should_activate, is_too_deep, fingerprint_of, is_cooling, count_role, new_handle, launch,
  spawn, record_useful_work, ask_cancel, cancel_obsolete, SpawnArgs, is_fast, is_role,
  default_budget, Effort, Role, DelegationSnapshot, EffortBudget, Task, DelegateHandle,
  AsyncMoaRuntime, MoaEnv, reasoner, planner, reviewer, frontier,
}
use mo_e_mo_a_integrated_com.Dict.{Dict, insert, values, length-insert}
use mo_e_mo_a_integrated_com.Base.{
  ℕ, ◌+◌, ◌≤◌, ◌<◌, String, ◌==◌, ◌≡◌, refl, ap, ◌∙◌, subst, inl, inr, Bool, true, false, not, ◌&&◌,
  ◌||◌, Option, [], ◌∷◌, arith, ltb, eqb, if◌then◌else◌, Bool-cases, get_or, length, any,
}

-- A task ends: what asyncio does to a handle.
unfoldable pub settle : String → Task → Dict DelegateHandle → Dict DelegateHandle
settle id task [] = []
settle id task ((key, h) ∷ d) =
    let rest = settle id task d in
    if key == id then (key, record h { task = task }) ∷ rest else (key, h) ∷ rest

-- A call, or the end of a task; no delegate is launched before the moment given.
pub data Step (env : MoaEnv) (moment : ℕ) : AsyncMoaRuntime → AsyncMoaRuntime → Type 0 where
  spawns :
      (r r' : AsyncMoaRuntime) (args : SpawnArgs) (now later : ℕ)
      → moment ≤ later
      → (spawn env args now later r).1 ≡ r'
      → Step env moment r r'
  works :
      (r r' : AsyncMoaRuntime) (event : String)
      → record_useful_work event r ≡ r'
      → Step env moment r r'
  cancels :
      (r r' : AsyncMoaRuntime) (now : DelegationSnapshot)
      → (cancel_obsolete now r).1 ≡ r'
      → Step env moment r r'
  settles :
      (r r' : AsyncMoaRuntime) (id : String) (task : Task)
      → record r { handles = settle id task r.handles } ≡ r'
      → Step env moment r r'

pub data Follows (env : MoaEnv) (moment : ℕ) : AsyncMoaRuntime → AsyncMoaRuntime → Type 0 where
  stays : (r : AsyncMoaRuntime) → Follows env moment r r
  goes :
      (r r' r'' : AsyncMoaRuntime)
      → Follows env moment r r'
      → Step env moment r' r''
      → Follows env moment r r''

-- No handle is deeper than the budget allows, and none at the frontier below another delegate.
abbrev pub is_misplaced : EffortBudget → DelegateHandle → Bool
is_misplaced b h = ltb b.max_depth h.depth || (is_role h.role frontier && not (eqb h.depth 1))

abbrev pub all_launched : (Role → ℕ) → ℕ
all_launched counts = counts reasoner + counts planner + counts reviewer + counts frontier

pub record Bounded (r : AsyncMoaRuntime) : Type 0 where
  pub launched : r.launched ≤ r.budget.delegation_budget
  pub roles : (role : Role) → r.role_counts role ≤ r.budget.role_budgets role
  pub counted : all_launched r.role_counts ≡ r.launched
  pub handles : length r.handles ≤ r.launched
  pub placed : any (is_misplaced r.budget) (values r.handles) ≡ false
  pub idle : (is_fast r.effort && ltb 0 r.launched) ≡ false

new_moa-Bounded :
    (effort : Effort) (budgets : Option (Effort → EffortBudget)) → Bounded (new_moa effort budgets)
unfolding new_moa
new_moa-Bounded effort budgets = record {
  launched = omega arith;
  roles = λ role. omega arith;
  counted = refl;
  handles = omega arith;
  placed = refl;
  idle = ground arith;
}

length-settle :
    (id : String) (task : Task) (d : Dict DelegateHandle) → length (settle id task d) ≡ length d
unfolding settle
length-settle id task [] = refl
length-settle id task ((key, h) ∷ d) = ground (arith, length-settle id task d)

placed-settle :
    (b : EffortBudget) (id : String) (task : Task) (d : Dict DelegateHandle)
    → any (is_misplaced b) (values (settle id task d)) ≡ any (is_misplaced b) (values d)
unfolding settle
placed-settle b id task [] = refl
placed-settle b id task ((key, h) ∷ d) = ground (arith, placed-settle b id task d)

length-ask_cancel :
    (now : DelegationSnapshot) (d : Dict DelegateHandle) → length (ask_cancel now d) ≡ length d
unfolding ask_cancel
length-ask_cancel now [] = refl
length-ask_cancel now ((key, h) ∷ d) = ground (arith, length-ask_cancel now d)

placed-ask_cancel :
    (b : EffortBudget) (now : DelegationSnapshot) (d : Dict DelegateHandle)
    → any (is_misplaced b) (values (ask_cancel now d)) ≡ any (is_misplaced b) (values d)
unfolding ask_cancel
placed-ask_cancel b now [] = refl
placed-ask_cancel b now ((key, h) ∷ d) = ground (arith, placed-ask_cancel b now d)

placed-insert :
    (b : EffortBudget) (id : String) (h : DelegateHandle) (d : Dict DelegateHandle)
    → is_misplaced b h ≡ false
    → any (is_misplaced b) (values d) ≡ false
    → any (is_misplaced b) (values (insert id h d)) ≡ false
unfolding insert
placed-insert b id h [] m v = ground (arith, m)
placed-insert b id h ((key, old) ∷ d) m v = ground (arith, m, v, placed-insert b id h d m)

count_role-le :
    (role other : Role) (counts limits : Role → ℕ)
    → counts role < limits role
    → counts other ≤ limits other
    → count_role role counts other ≤ limits other
count_role-le reasoner reasoner counts limits h v = omega (arith, h)
count_role-le planner planner counts limits h v = omega (arith, h)
count_role-le reviewer reviewer counts limits h v = omega (arith, h)
count_role-le frontier frontier counts limits h v = omega (arith, h)
count_role-le a b counts limits h v = v

all_launched-count_role :
    (role : Role) (counts : Role → ℕ)
    → all_launched (count_role role counts) ≡ all_launched counts + 1
all_launched-count_role reasoner counts = omega arith
all_launched-count_role planner counts = omega arith
all_launched-count_role reviewer counts = omega arith
all_launched-count_role frontier counts = omega arith

launch-Bounded :
    (env : MoaEnv) (args : SpawnArgs) (now : ℕ) (r : AsyncMoaRuntime)
    → should_activate args.role args.signal_strength r ≡ true
    → is_too_deep args r ≡ false
    → Bounded r
    → Bounded (launch env args now r)
unfolding launch new_handle should_activate is_too_deep
launch-Bounded env args now r a d v = record {
  launched = ground (arith, a);
  roles = λ role.
      count_role-le args.role role r.role_counts r.budget.role_budgets (ground (arith, a))
        (v.roles role);
  counted = all_launched-count_role args.role r.role_counts ∙ ap (λ n. n + 1) v.counted;
  handles = ground (
    arith,
    v.handles,
    length-insert (new_handle env args r).handle_id (new_handle env args r) r.handles,
  );
  placed =
      placed-insert r.budget (new_handle env args r).handle_id (new_handle env args r) r.handles d
        v.placed;
  idle = ground (arith, a);
}

spawn-Bounded :
    (env : MoaEnv) (args : SpawnArgs) (now later : ℕ) (r : AsyncMoaRuntime)
    → Bounded r
    → Bounded (spawn env args now later r).1
unfolding spawn
spawn-Bounded env args now later r v =
    elim (Bool-cases (
      not (should_activate args.role args.signal_strength r)
      || is_too_deep args r
      || is_cooling (fingerprint_of env args) now r)) [
        | inl t ↦ rw (t, spawn) v
        | inr f ↦
            rw (f, spawn)
              (launch-Bounded env args later r (ground (arith, f)) (ground (arith, f)) v)
      ]

-- What no call changes, with what every call keeps.
abbrev Kept : Effort → EffortBudget → AsyncMoaRuntime → Type 0
Kept effort budget r = (r.effort ≡ effort) × (r.budget ≡ budget) × Bounded r

spawn-Kept :
    (env : MoaEnv) (args : SpawnArgs) (now later : ℕ) (r : AsyncMoaRuntime)
    → ((spawn env args now later r).1.effort ≡ r.effort)
      × ((spawn env args now later r).1.budget ≡ r.budget)
unfolding spawn launch
spawn-Kept env args now later r =
    elim (Bool-cases (
      not (should_activate args.role args.signal_strength r)
      || is_too_deep args r
      || is_cooling (fingerprint_of env args) now r)) [
        | inl t ↦ rw (t, spawn) (refl, refl)
        | inr f ↦ rw (f, spawn) (refl, refl)
      ]

step-Kept :
    (env : MoaEnv) (moment : ℕ) (effort : Effort) (budget : EffortBudget) (r r' : AsyncMoaRuntime)
    → Step env moment r r'
    → Kept effort budget r
    → Kept effort budget r'
unfolding record_useful_work cancel_obsolete
step-Kept env moment effort budget r r' (spawns _ _ args now later m h) v =
    let same = spawn-Kept env args now later r in
    subst (Kept effort budget) h
      (same.0 ∙ v.0, same.1 ∙ v.1, spawn-Bounded env args now later r v.2)
step-Kept env moment effort budget r r' (works _ _ event h) v =
    let b = v.2 in
    subst (Kept effort budget) h (
      v.0,
      v.1,
      record {
        launched = b.launched;
        roles = b.roles;
        counted = b.counted;
        handles = b.handles;
        placed = b.placed;
        idle = b.idle;
      },
    )
step-Kept env moment effort budget r r' (cancels _ _ now h) v =
    let b = v.2 in
    subst (Kept effort budget) h (
      v.0,
      v.1,
      record {
        launched = b.launched;
        roles = b.roles;
        counted = b.counted;
        handles = ground (arith, b.handles, length-ask_cancel now r.handles);
        placed = placed-ask_cancel r.budget now r.handles ∙ b.placed;
        idle = b.idle;
      },
    )
step-Kept env moment effort budget r r' (settles _ _ id task h) v =
    let b = v.2 in
    subst (Kept effort budget) h (
      v.0,
      v.1,
      record {
        launched = b.launched;
        roles = b.roles;
        counted = b.counted;
        handles = ground (arith, b.handles, length-settle id task r.handles);
        placed = placed-settle r.budget id task r.handles ∙ b.placed;
        idle = b.idle;
      },
    )

run-Kept :
    (env : MoaEnv) (moment : ℕ) (effort : Effort) (budget : EffortBudget) (r r' : AsyncMoaRuntime)
    → Follows env moment r r'
    → Kept effort budget r
    → Kept effort budget r'
run-Kept env moment effort budget r r' (stays _) v = v
run-Kept env moment effort budget r r' (goes _ before _ run step) v =
    step-Kept env moment effort budget before r' step
      (run-Kept env moment effort budget r before run v)

-- After any calls of a new runtime, whatever its tasks do, the effort and its budget are those it was
-- made with, and within them: no more delegates are launched than the budget allows, in all and of
-- each role, every launch is counted for its role, no more handles are held than launched, none of
-- them is deeper than the budget allows or at the frontier below another delegate, and with the
-- effort `fast` nothing is launched.
pub run-Bounded :
    (env : MoaEnv) (moment : ℕ) (effort : Effort) (budgets : Option (Effort → EffortBudget))
    (r : AsyncMoaRuntime)
    → Follows env moment (new_moa effort budgets) r
    → (r.effort ≡ effort) × (r.budget ≡ get_or budgets default_budget effort) × Bounded r
unfolding new_moa
run-Bounded env moment effort budgets r run =
    run-Kept env moment effort (get_or budgets default_budget effort) (new_moa effort budgets) r run
      (refl, refl, new_moa-Bounded effort budgets)
