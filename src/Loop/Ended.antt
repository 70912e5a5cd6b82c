-- ===== src/Loop/Ended.antt =====
-- What the operations of gateway/src/dgx_moa/loop_engineering.py leave of a loop that has terminated.
use mo_e_mo_a_integrated_com.Loop.{LoopState}
use mo_e_mo_a_integrated_com.Base.{◌≡◌, true, is_some}

-- Nothing more is spent: the budgets, the iterations begun and the clock are as they were, and the
-- loop is still terminated.
abbrev pub Frozen : LoopState → LoopState → Type 0
Frozen l l' =
    (l'.remaining_budget ≡ l.remaining_budget)
    × (l'.iteration ≡ l.iteration)
    × (l'.started_at_epoch ≡ l.started_at_epoch)
    × (l'.last_iteration_evidence_count ≡ l.last_iteration_evidence_count)
    × (is_some l'.termination_reason ≡ true)
