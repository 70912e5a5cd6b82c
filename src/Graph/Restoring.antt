-- ===== src/Graph/Restoring.antt =====
-- `checkpoint` and `resume` of gateway/src/dgx_moa/execution_graph.py: what a checkpoint brings back, and
-- what `resume` makes sure of.
use mo_e_mo_a_integrated_com.Graph.{
  edge_ids, last_match, is_interrupted, then_run, GraphEdge, ExecutionGraph, NodeAttempt,
  GraphCheckpoint, GraphRuntime, Ran, GraphEnv, saved_graph, returned,
}
use mo_e_mo_a_integrated_com.Graph.Ready.{
  snapshot_of, counted_runtime, take_checkpoint, persist, CheckpointArgs,
}
use mo_e_mo_a_integrated_com.Graph.Finish.{is_subset}
use mo_e_mo_a_integrated_com.Graph.Rerun.{
  is_compatible, all_within, is_consistent, all_pins, same_nodes, restored, fail_interrupted,
  resume_with, resume,
}
use mo_e_mo_a_integrated_com.Graph.Invariant.{most_traversals}
use mo_e_mo_a_integrated_com.Dict.{Dict, lookup}
use mo_e_mo_a_integrated_com.Base.{
  ℕ, ◌+◌, ◌≤◌, String, ◌==◌, eq_iff, eq_refl, ◌≡◌, refl, ap, ◌∙◌, subst, inl, inr, Bool, true,
  false, not, ◌&&◌, none, some, List, [], ◌∷◌, ◌++◌, arith, eqb, if◌then◌else◌, get_or,
  Option-cases, keep_if, any,
}

-- A checkpoint is one of its runtime's graph, with the hash of what it holds.
take_checkpoint-is_compatible :
    (env : GraphEnv) (args : CheckpointArgs) (reason : String) (now : ℕ) (r : GraphRuntime)
    → is_compatible env r.graph (take_checkpoint env args reason now r).0 ≡ true
unfolding take_checkpoint counted_runtime snapshot_of is_compatible
take_checkpoint-is_compatible env args reason now r = ground (
  arith,
  eq_refl r.graph.graph_id,
  eq_refl r.graph.graph_hash,
  eq_refl r.graph.graph_schema_version,
  eq_refl r.graph.compiler_version,
  eq_refl r.graph.policy_version,
  eq_refl ((take_checkpoint env args reason now r).0).snapshot_hash,
)

-- What is restored from a checkpoint is the runtime that took it, but for the journal.
restored-take_checkpoint :
    (env : GraphEnv) (args : CheckpointArgs) (reason : String) (now : ℕ) (r : GraphRuntime)
    → ((n : ℕ) → env.checkpoint_number (env.checkpoint_name n) ≡ n)
    → restored env r.graph (take_checkpoint env args reason now r).0 r.attempts r.stored
      ≡ record (take_checkpoint env args reason now r).1 { journal = [] }
unfolding restored take_checkpoint counted_runtime snapshot_of
restored-take_checkpoint env args reason now r h =
    ap
      (λ k. record (take_checkpoint env args reason now r).1 { journal = []; checkpoint_count = k })
      (h (r.checkpoint_count + 1))

keep_none {ℓ} : {A : Type ℓ} (p : A → Bool) (xs : List A) → any p xs ≡ false → keep_if p xs ≡ []
keep_none p [] h = refl
keep_none p (x ∷ xs) h = ground (arith, h, keep_none p xs)

-- Where no attempt is interrupted, nothing fails.
resume_with_plain :
    (env : GraphEnv) (now : ℕ) (r : GraphRuntime)
    → any (λ a. is_interrupted a.state) r.attempts ≡ false
    → resume_with env now r
      ≡ returned tt (
          persist env none "resumed" now (record r {
            journal = (if r.stored then r.journal ++ saved_graph r.graph ∷ [] else r.journal);
          }))
unfolding resume_with then_run fail_interrupted
resume_with_plain env now r h =
    rw (keep_none (λ a. is_interrupted a.state) r.attempts h, resume_with) refl

-- A runtime none of whose attempts is interrupted is brought back from any of its checkpoints that
-- `resume` accepts: the checkpoint is always compatible, and where its nodes, its state and its pins
-- fit the graph, the result is the runtime as the checkpoint left it, with a fresh journal, that is
-- then persisted as resumed. The numbers in the names of checkpoints are read as they were written.
pub resume-take_checkpoint :
    (env : GraphEnv) (args : CheckpointArgs) (reason : String) (taken now : ℕ) (r : GraphRuntime)
    → ((n : ℕ) → env.checkpoint_number (env.checkpoint_name n) ≡ n)
    → any (λ a. is_interrupted a.state) r.attempts ≡ false
    → (same_nodes r.graph (take_checkpoint env args reason taken r).0
        && is_consistent r.graph (take_checkpoint env args reason taken r).0
        && all_pins r.graph r.provider_pins)
      ≡ true
    → resume env r.graph (take_checkpoint env args reason taken r).0 r.attempts r.stored now
      ≡ some (
          returned tt (
            persist env none "resumed" now (record (take_checkpoint env args reason taken r).1 {
              journal = (if r.stored then saved_graph r.graph ∷ [] else []);
            })))
unfolding resume
resume-take_checkpoint env args reason taken now r names still fit =
    let cp = (take_checkpoint env args reason taken r).0 in
    let left = (take_checkpoint env args reason taken r).1 in
    let from = restored env r.graph cp r.attempts r.stored in
    let ok : (is_compatible env r.graph cp
          && same_nodes r.graph cp
          && is_consistent r.graph cp
          && all_pins r.graph cp.provider_pins)
        ≡ true =
      ground (arith, fit, take_checkpoint-is_compatible env args reason taken r) in
    let accepted : resume env r.graph cp r.attempts r.stored now ≡ some (resume_with env now from) =
      ground (arith, ok) in
    accepted
    ∙ ap some (
        ap (resume_with env now) (restored-take_checkpoint env args reason taken r names)
        ∙ resume_with_plain env now (record left { journal = [] }) still)

within_bound-le :
    (es : List GraphEdge) (id : String) (e : GraphEdge)
    → last_match (λ x. x.edge_id == id && not (eqb x.max_traversals 0)) es ≡ some e
    → e.max_traversals ≤ most_traversals es id
within_bound-le [] id e h = absurd (cc)
within_bound-le (x ∷ es) id e h =
    let p : GraphEdge → Bool = λ x. x.edge_id == id && not (eqb x.max_traversals 0) in
    elim (Option-cases (last_match p es)) [
      | inl n ↦
          let b : p x ≡ true = ground (arith, h, n) in
          let same : x ≡ e = ground (arith, h, n, b) in
          subst (λ y. y.max_traversals ≤ most_traversals (x ∷ es) id) same (ground (arith, b))
      | inr (y, s) ↦ ground (arith, within_bound-le es id e (ground (arith, h, s)))
    ]

all_within-bounded :
    (g : ExecutionGraph) (d : Dict ℕ) (id : String)
    → all_within g d ≡ true
    → get_or (lookup id d) 0 ≤ most_traversals g.edges id
unfolding lookup
all_within-bounded g [] id h = omega arith
all_within-bounded g ((key, count) ∷ d) id h =
    let p : GraphEdge → Bool = λ x. x.edge_id == key && not (eqb x.max_traversals 0) in
    elim (Option-cases (last_match p g.edges)) [
      | inl n ↦ absurd (ground (arith, h, n))
      | inr (e, s) ↦
          ground
            (arith, h, s, within_bound-le g.edges key e s, eq_iff key id, all_within-bounded g d id)
    ]

-- A checkpoint that `resume` accepts, wherever it comes from, holds no more tokens and tool calls than
-- the graph's budgets, no edge traversed more often than its bound, and only edges of the graph.
pub resume-within :
    (env : GraphEnv) (g : ExecutionGraph) (cp : GraphCheckpoint) (attempts : List NodeAttempt)
    (stored : Bool) (now : ℕ) (x : Ran Unit) (id : String)
    → resume env g cp attempts stored now ≡ some x
    → (cp.token_usage ≤ g.budgets.tokens)
      × (cp.tool_calls ≤ g.budgets.tool_calls)
      × (get_or (lookup id cp.traversal_counts) 0 ≤ most_traversals g.edges id)
      × (is_subset cp.selected_edges (edge_ids g.edges) ≡ true)
unfolding resume is_consistent
resume-within env g cp attempts stored now x id h =
    let ok : is_consistent g cp ≡ true = ground (arith, h) in
    (
      ground (arith, ok),
      ground (arith, ok),
      all_within-bounded g cp.traversal_counts id (ground (arith, ok)),
      ground (arith, ok),
    )
