-- ===== src/Graph/Rerunning.antt =====
-- What `partial_rerun` of gateway/src/dgx_moa/execution_graph.py resets, and what it leaves alone.
use mo_e_mo_a_integrated_com.Graph.{
  is_terminal, NodeState, GraphRuntime, GraphEnv, queued, waiting_dependency, returned,
}
use mo_e_mo_a_integrated_com.Graph.Ready.{
  set_all, default_args, counted_runtime, take_checkpoint, save_attempt, persist,
}
use mo_e_mo_a_integrated_com.Graph.Edges.{starts_in}
use mo_e_mo_a_integrated_com.Graph.Rerun.{
  preserved_of, all_hashes, verification_fault, rerun_fault, affected_by, reset_nodes,
  partial_rerun,
}
use mo_e_mo_a_integrated_com.Graph.Invariant.{if_either}
use mo_e_mo_a_integrated_com.Dict.{Dict, lookup, insert, lookup-insert}
use mo_e_mo_a_integrated_com.Base.{
  ℕ, String, eq_iff, ◌≡◌, refl, subst, inl, inr, Bool, true, not, ◌&&◌, Option, none, some, List,
  [], ◌∷◌, arith, if◌then◌else◌, get_or, Option-cases, keep_if, any, contains,
}

lookup-set_all :
    (ids : List String) (s : NodeState) (d : Dict NodeState) (id : String)
    → lookup id (set_all ids s d) ≡ (if contains id ids then some s else lookup id d)
unfolding set_all
lookup-set_all [] s d id = refl
lookup-set_all (x ∷ ids) s d id =
    ground (arith, lookup-insert x id s d, lookup-set_all ids s (insert x s d) id)

contains-keep_if :
    (p : String → Bool) (ids : List String) (id : String)
    → contains id (keep_if p ids) ≡ contains id ids && p id
contains-keep_if p [] id = refl
contains-keep_if p (x ∷ ids) id = ground (arith, contains-keep_if p ids id, eq_iff x id)

verification_fault_lem :
    (preserved : Dict String) (verified : Option (Dict String))
    → verification_fault preserved verified ≡ none
    → all_hashes (get_or verified []) preserved ≡ true
unfolding verification_fault
verification_fault_lem [] none h = refl
verification_fault_lem (x ∷ d) none h = absurd (cc)
verification_fault_lem d (some verified) h = ground (arith, h)

-- What a rerun resets.
abbrev Reset : List String → List String → GraphRuntime → String → String → GraphRuntime → Type 0
Reset invalidated affected r id edge x =
    (lookup id x.node_states ≡ (
      if contains id invalidated
      then some queued
      else if contains id affected
      then some waiting_dependency
      else lookup id r.node_states))
    × (contains edge x.selected_edge_ids
        ≡ contains edge r.selected_edge_ids && not (starts_in r.graph affected edge))
    × (x.final_emitted ≡ r.final_emitted && not (any (is_terminal r.graph) affected))
    × (x.artifact_hashes ≡ r.artifact_hashes)

reset_nodes-Reset :
    (invalidated affected : List String) (r : GraphRuntime) (id edge : String)
    → Reset invalidated affected r id edge (reset_nodes invalidated affected r)
unfolding reset_nodes
reset_nodes-Reset invalidated affected r id edge = (
  ground (
    arith,
    lookup-set_all invalidated queued (set_all affected waiting_dependency r.node_states) id,
    lookup-set_all affected waiting_dependency r.node_states id,
  ),
  contains-keep_if (λ k. not (starts_in r.graph affected k)) r.selected_edge_ids edge,
  ground arith,
  refl,
)

rerun_fault-Verified :
    (invalidated affected : List String) (verified : Option (Dict String)) (r : GraphRuntime)
    → rerun_fault invalidated affected verified r ≡ none
    → all_hashes (get_or verified []) (preserved_of r affected r.artifact_hashes) ≡ true
unfolding rerun_fault
rerun_fault-Verified invalidated affected verified r h =
    verification_fault_lem (preserved_of r affected r.artifact_hashes) verified (ground (arith, h))

-- A partial rerun queues the invalidated nodes, lets the nodes that these lead to wait, and leaves the
-- state of every other node; of the selected edges it drops those that start at an affected node; it
-- takes back the end of the run exactly if a terminal node is affected; it keeps the artifacts, and
-- those of the nodes left alone that have succeeded were given with their hashes.
pub partial_rerun-Exact :
    (env : GraphEnv) (invalidated : List String) (verified : Option (Dict String)) (now : ℕ)
    (r r' : GraphRuntime) (ids : List String) (id edge : String)
    → partial_rerun env invalidated verified now r ≡ returned ids r'
    → (lookup id r'.node_states ≡ (
        if contains id invalidated
        then some queued
        else if contains id (affected_by r.graph invalidated)
        then some waiting_dependency
        else lookup id r.node_states))
      × (contains edge r'.selected_edge_ids
          ≡ contains edge r.selected_edge_ids
            && not (starts_in r.graph (affected_by r.graph invalidated) edge))
      × (r'.final_emitted
          ≡ r.final_emitted && not (any (is_terminal r.graph) (affected_by r.graph invalidated)))
      × (r'.artifact_hashes ≡ r.artifact_hashes)
      × (all_hashes
            (get_or verified [])
            (preserved_of r (affected_by r.graph invalidated) r.artifact_hashes)
          ≡ true)
unfolding partial_rerun persist take_checkpoint counted_runtime
partial_rerun-Exact env invalidated verified now r r' ids id edge h =
    let affected = affected_by r.graph invalidated in
    let x = reset_nodes invalidated affected r in
    elim (Option-cases (rerun_fault invalidated affected verified r)) [
      | inr (fault, e) ↦ absurd (ground (arith, e, h))
      | inl e ↦
          let same : persist env none "partial_rerun" now x ≡ r' = ground (arith, h, e) in
          let left =
            if_either (Reset invalidated affected r id edge) x.stored
              (take_checkpoint env default_args "partial_rerun" now
                (record x { journal = save_attempt none x.journal })).1
              x (reset_nodes-Reset invalidated affected r id edge)
              (reset_nodes-Reset invalidated affected r id edge) in
          let done = subst (Reset invalidated affected r id edge) same left in
          (done.0, done.1, done.2, done.3, rerun_fault-Verified invalidated affected verified r e)
    ]
