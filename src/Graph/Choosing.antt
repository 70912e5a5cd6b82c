-- ===== src/Graph/Choosing.antt =====
-- The edges that `finish_attempt` of gateway/src/dgx_moa/execution_graph.py chooses are edges of the
-- graph, and a repair edge among them is not used up.
use mo_e_mo_a_integrated_com.Graph.{
  outgoing, is_edge_type, EdgeType, GraphNode, GraphEdge, GraphRuntime, on_finding, on_budget,
  on_no_progress,
}
use mo_e_mo_a_integrated_com.Graph.Edges.{
  is_repair, plain_choice, repair_choice, finding_choice, select_outcome_edges, Choice,
}
use mo_e_mo_a_integrated_com.Graph.Invariant.{most_traversals, Inv}
use mo_e_mo_a_integrated_com.Graph.Known.{
  Known, keep_if-All, first-All, outgoing-Known, traverse-Inv,
}
use mo_e_mo_a_integrated_com.Dict.{lookup, insert}
use mo_e_mo_a_integrated_com.Base.{
  ◌+◌, ◌≤◌, String, ◌≡◌, subst, inl, inr, Bool, some, [], ◌∷◌, arith, ltb, ltb→lt, Bool-cases,
  get_or, Option-cases, keep_if, All, first,
}

-- The edges are of the graph, and the counts stay within its bounds.
pub record Sensible (r : GraphRuntime) (c : Choice) : Type 0 where
  pub known : All (Known r.graph.edges) c.edges
  pub bounded : (id : String) → get_or (lookup id c.counts) 0 ≤ most_traversals r.graph.edges id

plain_choice-Sensible :
    (r : GraphRuntime) (n : GraphNode) (t : EdgeType) (c : Choice)
    → Inv r
    → plain_choice r n t ≡ some c
    → Sensible r c
unfolding plain_choice
plain_choice-Sensible r n t c v h =
    let es = keep_if (λ e. is_edge_type e.edge_type t) (outgoing r.graph n.node_id) in
    let taken : Choice = record { edges = es; counts = r.traversal_counts } in
    let same : taken ≡ c = ground (arith, h) in
    subst (Sensible r) same (record {
      known =
          keep_if-All (Known r.graph.edges) (λ e. is_edge_type e.edge_type t)
            (outgoing r.graph n.node_id) (outgoing-Known r.graph n.node_id);
      bounded = v.traversed;
    })

repair_choice-Sensible :
    (r : GraphRuntime) (n : GraphNode) (e : GraphEdge) (c : Choice)
    → Inv r
    → Known r.graph.edges e
    → repair_choice r n e ≡ some c
    → Sensible r c
unfolding repair_choice
repair_choice-Sensible r n e c v k h =
    let used = get_or (lookup e.edge_id r.traversal_counts) 0 in
    let taken : Choice = record {
      edges = e ∷ [];
      counts = insert e.edge_id (used + 1) r.traversal_counts;
    } in
    elim (Bool-cases (ltb used e.max_traversals)) [
      | inl t ↦
          let same : taken ≡ c = ground (arith, h, t) in
          subst (Sensible r) same (record {
            known = (k, tt);
            bounded = (traverse-Inv e r k (ltb→lt used e.max_traversals t) v).traversed;
          })
      | inr f ↦ plain_choice-Sensible r n on_budget c v (ground (arith, h, f))
    ]

finding_choice-Sensible :
    (r : GraphRuntime) (n : GraphNode) (has_progress : Bool) (c : Choice)
    → Inv r
    → finding_choice r n has_progress ≡ some c
    → Sensible r c
unfolding finding_choice
finding_choice-Sensible r n has_progress c v h =
    elim (Option-cases (first (is_repair r.graph) (outgoing r.graph n.node_id))) [
      | inl e ↦ plain_choice-Sensible r n on_finding c v (ground (arith, h, e))
      | inr (x, e) ↦ elim (Bool-cases has_progress) [
        | inl t ↦
            repair_choice-Sensible r n x c v
              (first-All (Known r.graph.edges) (is_repair r.graph) (outgoing r.graph n.node_id) x
                (outgoing-Known r.graph n.node_id) e)
              (ground (arith, h, e, t))
        | inr f ↦ plain_choice-Sensible r n on_no_progress c v (ground (arith, h, e, f))
      ]
    ]

pub select_outcome_edges-Sensible :
    (r : GraphRuntime) (n : GraphNode) (outcome : EdgeType) (has_progress : Bool) (c : Choice)
    → Inv r
    → select_outcome_edges r n outcome has_progress ≡ some c
    → Sensible r c
unfolding select_outcome_edges
select_outcome_edges-Sensible r n outcome has_progress c v h =
    elim (Bool-cases (is_edge_type outcome on_finding)) [
      | inl t ↦ finding_choice-Sensible r n has_progress c v (ground (arith, h, t))
      | inr f ↦ plain_choice-Sensible r n outcome c v (ground (arith, h, f))
    ]
