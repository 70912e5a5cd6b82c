-- ===== src/Loop/Stall.antt =====
-- `begin_iteration` of gateway/src/dgx_moa/loop_engineering.py: what it takes to go on.
use mo_e_mo_a_integrated_com.Loop.{begin_iteration, LoopState, no_progress}
use mo_e_mo_a_integrated_com.Base.{
  ℕ, zero, suc, ◌+◌, ◌-◌, ◌<◌, ◌≡◌, subst, ◌≢◌, ◌⊎◌, true, none, some, arith, length,
}

-- An iteration begins only in a loop that has not terminated, with time and iterations left, and
-- after the first only on evidence that is new since the last; it costs one iteration.
pub begin_iteration_started :
    (l : LoopState) (now : ℕ)
    → (begin_iteration l now).0 ≡ true
    → let l' = (begin_iteration l now).1 in
      (l.termination_reason ≡ none)
      × (now - l.started_at_epoch < l.remaining_budget.wall_clock_seconds)
      × (l'.remaining_budget.iterations + 1 ≡ l.remaining_budget.iterations)
      × (l'.iteration ≡ l.iteration + 1)
      × ((l.iteration ≡ 0) ⊎ (length l.observed_evidence_ids ≢ l.last_iteration_evidence_count))
      × (l'.last_iteration_evidence_count ≡ length l.observed_evidence_ids)
unfolding begin_iteration
begin_iteration_started l now h = ground arith

-- A loop that is under way, with time and iterations left, and no evidence since its last
-- iteration; `k` more fruitless calls reach the limit.
pub record IsStuck (k : ℕ) (l : LoopState) : Type 0 where
  pub live : l.termination_reason ≡ none
  pub begun : 0 < l.iteration
  pub same : length l.observed_evidence_ids ≡ l.last_iteration_evidence_count
  pub iterations_left : 0 < l.remaining_budget.iterations
  pub time_left : 0 < l.remaining_budget.wall_clock_seconds
  pub distance : l.no_progress_iterations + suc k ≡ l.no_progress_iteration_limit

-- `begin_iteration` called n times at one moment
unfoldable pub begin_times : ℕ → LoopState → ℕ → LoopState
begin_times zero l now = l
begin_times (suc n) l now = begin_times n (begin_iteration l now).1 now

begin-IsStuck :
    (k : ℕ) (l : LoopState)
    → IsStuck (suc k) l
    → IsStuck k (begin_iteration l l.started_at_epoch).1
      × ((begin_iteration l l.started_at_epoch).1.started_at_epoch ≡ l.started_at_epoch)
unfolding begin_iteration
begin-IsStuck k l s = ground arith

begin_last :
    (l : LoopState)
    → IsStuck zero l
    → (begin_iteration l l.started_at_epoch).1.termination_reason ≡ some no_progress
unfolding begin_iteration
begin_last l s = ground arith

-- A loop that finds nothing new ends: once the calls that its limit still allows are made, the
-- reason is NO_PROGRESS.
pub stall_terminates :
    (k : ℕ) (l : LoopState)
    → IsStuck k l
    → (begin_times (suc k) l l.started_at_epoch).termination_reason ≡ some no_progress
unfolding begin_times
stall_terminates zero l s = begin_last l s
stall_terminates (suc k) l s =
    let (s', e) = begin-IsStuck k l s in
    subst
      (λ t.
        (begin_times (suc k) (begin_iteration l l.started_at_epoch).1 t).termination_reason
        ≡ some no_progress)
      e (stall_terminates k (begin_iteration l l.started_at_epoch).1 s')
