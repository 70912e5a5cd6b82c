-- ===== src/Graph/Known.antt =====
-- The edges that gateway/src/dgx_moa/execution_graph.py selects are edges of the graph, and repeat
-- no more often than the graph allows.
use mo_e_mo_a_integrated_com.Graph.{outgoing, edge_ids, GraphEdge, ExecutionGraph, GraphRuntime}
use mo_e_mo_a_integrated_com.Graph.Edges.{record_edges}
use mo_e_mo_a_integrated_com.Graph.Invariant.{most_traversals, Inv, selected-Inv, counts-Inv}
use mo_e_mo_a_integrated_com.Dict.{lookup, insert, lookup-insert}
use mo_e_mo_a_integrated_com.Base.{
  ◌+◌, ◌≤◌, ◌<◌, String, ◌==◌, eq_iff, eq_refl, ◌≡◌, subst, inl, inr, Bool, true, some, List, [],
  ◌∷◌, ◌++◌, arith, if◌then◌else◌, Bool-cases, get_or, keep_if, All, first, contains,
  contains-append_one,
}

-- An edge of the graph, which may be traversed as often as its id may be.
abbrev pub Known : List GraphEdge → GraphEdge → Type 0
Known es e =
    (contains e.edge_id (edge_ids es) ≡ true) × (e.max_traversals ≤ most_traversals es e.edge_id)

Known-cons :
    (x : GraphEdge) (all_edges es : List GraphEdge)
    → All (Known all_edges) es
    → All (Known (x ∷ all_edges)) es
Known-cons x all_edges [] h = tt
Known-cons x all_edges (e ∷ es) h =
    ((ground (arith, (h.0).0), ground (arith, (h.0).1)), Known-cons x all_edges es h.1)

pub self-Known : (es : List GraphEdge) → All (Known es) es
self-Known [] = tt
self-Known (e ∷ es) = (
  (ground (arith, eq_refl e.edge_id), ground (arith, eq_refl e.edge_id)),
  Known-cons e es es (self-Known es),
)

module _ {ℓ ℓ'} {A : Type ℓ} (P : A → Type ℓ') where
  pub keep_if-All : (p : A → Bool) (xs : List A) → All P xs → All P (keep_if p xs)
  keep_if-All p [] h = tt
  keep_if-All p (x ∷ xs) h = elim (Bool-cases (p x)) [
    | inl e ↦ rw e (h.0, keep_if-All p xs h.1)
    | inr e ↦ rw e (keep_if-All p xs h.1)
  ]

  pub first-All : (p : A → Bool) (xs : List A) (y : A) → All P xs → first p xs ≡ some y → P y
  first-All p [] y h e = absurd (cc)
  first-All p (x ∷ xs) y h e = elim (Bool-cases (p x)) [
    | inl t ↦ subst P (ground (arith, t, e)) h.0
    | inr t ↦ first-All p xs y h.1 (ground (arith, t, e))
  ]

pub outgoing-Known : (g : ExecutionGraph) (id : String) → All (Known g.edges) (outgoing g id)
outgoing-Known g id =
    keep_if-All (Known g.edges) (λ e. e.from_node == id) g.edges (self-Known g.edges)

-- A recorded edge was recorded before or is one of those given.
pub record_edges-Known :
    (es gs : List GraphEdge) (ids : List String) (j : String)
    → All (Known gs) es
    → ((id : String) → contains id ids ≡ true → contains id (edge_ids gs) ≡ true)
    → contains j (record_edges es ids) ≡ true
    → contains j (edge_ids gs) ≡ true
unfolding record_edges
record_edges-Known [] gs ids j k h c = h j c
record_edges-Known (e ∷ es) gs ids j k h c =
    record_edges-Known es gs (if contains e.edge_id ids then ids else ids ++ e.edge_id ∷ []) j k.1
      (λ id m.
        ground (arith, h id, m, (k.0).0, eq_iff e.edge_id id, contains-append_one id e.edge_id ids))
      c

pub record_edges-Inv :
    (es : List GraphEdge) (r : GraphRuntime)
    → All (Known r.graph.edges) es
    → Inv r
    → Inv (record r { selected_edge_ids = record_edges es r.selected_edge_ids })
record_edges-Inv es r k v =
    selected-Inv (record_edges es r.selected_edge_ids) r
      (λ j. record_edges-Known es r.graph.edges r.selected_edge_ids j k v.selected) v

-- One more traversal of an edge that is not used up.
pub traverse-Inv :
    (e : GraphEdge) (r : GraphRuntime)
    → Known r.graph.edges e
    → get_or (lookup e.edge_id r.traversal_counts) 0 < e.max_traversals
    → Inv r
    → Inv (record r {
      traversal_counts =
          insert e.edge_id (get_or (lookup e.edge_id r.traversal_counts) 0 + 1) r.traversal_counts;
    })
traverse-Inv e r k below v =
    let used = get_or (lookup e.edge_id r.traversal_counts) 0 in
    counts-Inv (insert e.edge_id (used + 1) r.traversal_counts) r
      (λ id. ground (
        arith,
        k.1,
        below,
        v.traversed id,
        eq_iff e.edge_id id,
        lookup-insert e.edge_id id (used + 1) r.traversal_counts,
      ))
      v
