-- ===== src/Graph.antt =====
-- gateway/src/dgx_moa/execution_graph.py: the graph of a run, read by its nodes and edges.
mod Kinds
mod Types
pub mod Spread
pub mod Ready
pub mod Start
pub mod Edges
pub mod Finish
pub mod Fail
pub mod Rerun
pub mod Driving
mod Invariant
mod Known
mod Attempts
mod Selecting
mod Choosing
mod Finishing
mod Ending
mod Starting
mod Failing
mod Resuming
pub mod Runs
pub mod Restoring
pub mod Closing
pub mod Cancelling
pub mod Rerunning
pub mod Started
mod Once
mod Ended
pub mod Finality
pub mod Onward
mod Tests
use mo_e_mo_a_integrated_com.Dict.{
  Dict, lookup, remove, insert, values, keys, lookup-insert, lookup-remove, length-insert,
  UniqueKeys, insert-UniqueKeys, remove-UniqueKeys, remove_missing, length-remove, length-remove-le,
  lookup_empty, empty_of_lookup,
}
use mo_e_mo_a_integrated_com.Base.{
  ℕ, zero, suc, ◌+◌, ◌-◌, ◌*◌, ◌≤◌, ◌<◌, min, max, String, ◌==◌, eq_iff, eq_refl, ◌≡◌, refl, sym,
  ap, ◌∙◌, subst, ◌≢◌, ◌↔◌, ◌⊎◌, inl, inr, Bool, true, false, not, ◌&&◌, ◌||◌, Option, none, some,
  List, [], ◌∷◌, ◌++◌, map, arith, ltb, leb, eqb, if◌then◌else◌, ltb→lt, leb→le, Bool-cases,
  is_some, get_or, Option-cases, map_some, length, keep_if, any, all, is_empty, All, length-append,
  nonempty-keep_if, length-keep_if, first, append_nil, append_assoc, codes, joined, contains, dedup,
  contains-dedup, NoDup, contains-append_one, append_one-NoDup, contains-keep_ne, keep_ne-NoDup,
  string_same, string_apart, joined_not_blank, text_joined_not_blank,
}
unfoldable pub use Kinds.*
unfoldable pub use Types.*

-- ExecutionGraphRuntime._incoming
abbrev pub incoming : ExecutionGraph → String → List GraphEdge
incoming g id = keep_if (λ e. e.to_node == id) g.edges

-- ExecutionGraphRuntime._outgoing
abbrev pub outgoing : ExecutionGraph → String → List GraphEdge
outgoing g id = keep_if (λ e. e.from_node == id) g.edges

-- {node.node_id for node in nodes}
abbrev pub node_ids : ExecutionGraph → List String
node_ids g = map (λ n. n.node_id) g.nodes

abbrev pub edge_ids : List GraphEdge → List String
edge_ids es = map (λ e. e.edge_id) es

-- ExecutionGraphRuntime._nodes[node_id]: of two nodes with one id, a dictionary keeps the last.
abbrev pub last_match {ℓ} : {A : Type ℓ} → (A → Bool) → List A → Option A
last_match p [] = none
last_match p (x ∷ xs) = elim (last_match p xs) [
  | some y ↦ some y
  | none ↦ if p x then some x else none
]

unfoldable pub find_node : ExecutionGraph → String → Option GraphNode
find_node g id = last_match (λ n. n.node_id == id) g.nodes

-- ExecutionGraphRuntime._edges[edge_id]
unfoldable pub find_edge : ExecutionGraph → String → Option GraphEdge
find_edge g id = last_match (λ e. e.edge_id == id) g.edges

-- node_id in the terminal nodes, or in the entry nodes
abbrev pub is_terminal : ExecutionGraph → String → Bool
is_terminal g id = contains id g.terminal_nodes

abbrev pub is_entry : ExecutionGraph → String → Bool
is_entry g id = contains id g.entry_nodes
