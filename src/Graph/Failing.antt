-- ===== src/Graph/Failing.antt =====
-- `fail_attempt` of gateway/src/dgx_moa/execution_graph.py keeps the runtime's invariant.
use mo_e_mo_a_integrated_com.Graph.{
  outgoing, edge_ids, is_edge_type, EdgeType, GraphEdge, NodeAttempt, GraphRuntime, GraphEnv,
  on_failure, on_retryable_failure, on_fallback, failed,
}
use mo_e_mo_a_integrated_com.Graph.Spread.{descendants}
use mo_e_mo_a_integrated_com.Graph.Ready.{find_attempt, set_attempt}
use mo_e_mo_a_integrated_com.Graph.Edges.{record_edges, close_unselected, starts_in}
use mo_e_mo_a_integrated_com.Graph.Finish.{are_bounded, is_sha256, active_attempt}
use mo_e_mo_a_integrated_com.Graph.Fail.{
  edge_out, used_times, mark_failed, note_evidence, usable_retry, retry_on, usable_fallback,
  fall_back, record_failure_edges, failure_edges, route_failure, fail_node, fail_attempt, FailArgs,
}
use mo_e_mo_a_integrated_com.Graph.Invariant.{ends_validated, Inv, persist-Inv, attempts-Inv}
use mo_e_mo_a_integrated_com.Graph.Known.{
  Known, keep_if-All, first-All, outgoing-Known, record_edges-Inv, traverse-Inv,
}
use mo_e_mo_a_integrated_com.Graph.Attempts.{last_match-holds, set_attempt_keeps}
use mo_e_mo_a_integrated_com.Graph.Selecting.{close_unselected-Inv, keep_edges-Inv}
use mo_e_mo_a_integrated_com.Graph.Finishing.{state_of, active-ends, change_active-Follows}
use mo_e_mo_a_integrated_com.Base.{
  ℕ, ◌<◌, String, ◌==◌, ◌≡◌, refl, sym, subst, inl, inr, true, false, not, ◌&&◌, ◌||◌, some, List,
  [], ◌∷◌, arith, ltb, eqb, Bool-cases, Option-cases, keep_if, is_empty, All, codes, dedup,
  string_same,
}

-- An attempt is found by its own id.
active_own_id :
    (id : String) (a : NodeAttempt) (r : GraphRuntime)
    → active_attempt id r ≡ some a
    → active_attempt a.attempt_id r ≡ some a
active_own_id id a r h =
    let found = (active-ends id a r h).0 in
    let own : a.attempt_id ≡ id =
      string_same a.attempt_id id
        (unfold find_attempt in last_match-holds (λ b. b.attempt_id == id) r.attempts a found) in
    subst (λ x. active_attempt x r ≡ some a) (sym own) h

-- Writing a failure to the active attempt loses no ended run.
mark_failed-Inv :
    (args : FailArgs) (id : String) (a : NodeAttempt) (now : ℕ) (r : GraphRuntime)
    → active_attempt id r ≡ some a
    → Inv r
    → Inv (mark_failed args a now r)
unfolding mark_failed
mark_failed-Inv args id a now r h v =
    let failure : NodeAttempt → NodeAttempt = λ b. record b {
      state = failed;
      ended_at = some now;
      failure_code = some args.failure_code;
      failure_fingerprint = some args.failure_fingerprint;
    } in
    attempts-Inv (set_attempt a.attempt_id failure r.attempts) r
      (change_active-Follows a.attempt_id a failure r (active_own_id id a r h)) v

set_plain-Inv :
    (id : String) (f : NodeAttempt → NodeAttempt) (r : GraphRuntime)
    → ((a : NodeAttempt) → ends_validated r.graph a ≡ true → ends_validated r.graph (f a) ≡ true)
    → Inv r
    → Inv (record r { attempts = set_attempt id f r.attempts })
set_plain-Inv id f r h v =
    attempts-Inv (set_attempt id f r.attempts) r
      (set_attempt_keeps (ends_validated r.graph) id f r.attempts (λ a e. h a)) v

note_evidence-Inv :
    (args : FailArgs) (a : NodeAttempt) (r : GraphRuntime) → Inv r → Inv (note_evidence args a r)
unfolding note_evidence
note_evidence-Inv args a r v =
    set_plain-Inv a.attempt_id
      (λ b. record b { generated_evidence_ids = dedup args.generated_evidence_ids }) r (λ b h. h) v

record_failure_edges-Inv :
    (env : GraphEnv) (es : List GraphEdge) (a : NodeAttempt) (now : ℕ) (r : GraphRuntime)
    → All (Known r.graph.edges) es
    → Inv r
    → Inv (record_failure_edges env es a now r)
unfolding record_failure_edges
record_failure_edges-Inv env es a now r k v =
    let name : NodeAttempt → NodeAttempt =
      λ b. record b { selected_outgoing_edges = edge_ids es } in
    let named = record r { attempts = set_attempt a.attempt_id name r.attempts } in
    let r1 = record named { selected_edge_ids = record_edges es named.selected_edge_ids } in
    let r2 = close_unselected es a.node_id now r1 in
    persist-Inv env (find_attempt a.attempt_id r2.attempts) "attempt_failed" now r2 (
      close_unselected-Inv es a.node_id now r1
        (record_edges-Inv es named k (set_plain-Inv a.attempt_id name r (λ b h. h) v)))

edge_out-Known :
    (r : GraphRuntime) (id : String) (t : EdgeType) (e : GraphEdge)
    → edge_out r id t ≡ some e
    → Known r.graph.edges e
edge_out-Known r id t e h =
    first-All (Known r.graph.edges) (λ x. is_edge_type x.edge_type t) (outgoing r.graph id) e
      (outgoing-Known r.graph id) h

usable_retry-Known :
    (args : FailArgs) (a : NodeAttempt) (r : GraphRuntime) (e : GraphEdge)
    → usable_retry args a r ≡ some e
    → Known r.graph.edges e × (used_times e r < e.max_traversals)
unfolding usable_retry
usable_retry-Known args a r e h = elim (Option-cases (edge_out r a.node_id on_retryable_failure)) [
  | inl n ↦ absurd (ground (arith, n, h))
  | inr (x, s) ↦
      let b : (args.retryable && ltb (used_times x r) x.max_traversals) ≡ true =
        ground (arith, s, h) in
      let same : x ≡ e = ground (arith, s, h, b) in
      subst (λ y. Known r.graph.edges y × (used_times y r < y.max_traversals)) same
        (edge_out-Known r a.node_id on_retryable_failure x s, ground (arith, b))
]

usable_fallback-Known :
    (a : NodeAttempt) (r : GraphRuntime) (e : GraphEdge)
    → usable_fallback a r ≡ some e
    → Known r.graph.edges e × (eqb e.max_traversals 0 ≡ false → used_times e r < e.max_traversals)
unfolding usable_fallback
usable_fallback-Known a r e h = elim (Option-cases (edge_out r a.node_id on_fallback)) [
  | inl n ↦ absurd (ground (arith, n, h))
  | inr (x, s) ↦
      let b : (eqb x.max_traversals 0 || ltb (used_times x r) x.max_traversals) ≡ true =
        ground (arith, s, h) in
      let same : x ≡ e = ground (arith, s, h, b) in
      subst
        (λ y.
          Known r.graph.edges y
          × (eqb y.max_traversals 0 ≡ false → used_times y r < y.max_traversals))
        same (edge_out-Known r a.node_id on_fallback x s, λ z. ground (arith, b, z))
]

-- The edge that a failure takes is recorded and its state kept within the bounds.
retry_on-Inv :
    (args : FailArgs) (e : GraphEdge) (a : NodeAttempt) (r : GraphRuntime)
    → usable_retry args a r ≡ some e
    → Inv r
    → Inv (retry_on e a r)
unfolding retry_on
retry_on-Inv args e a r h v = let k = usable_retry-Known args a r e h in traverse-Inv e r k.0 k.1 v

fall_back-Inv :
    (e : GraphEdge) (a : NodeAttempt) (r : GraphRuntime)
    → usable_fallback a r ≡ some e
    → Inv r
    → Inv (fall_back e a r)
unfolding fall_back
fall_back-Inv e a r h v =
    let k = usable_fallback-Known a r e h in
    let affected = descendants r.graph e.to_node in
    elim (Bool-cases (eqb e.max_traversals 0)) [
      | inl z ↦ rw (z, fall_back) v
      | inr z ↦
          rw (z, fall_back)
            (traverse-Inv e
              (record r {
                selected_edge_ids =
                    keep_if (λ id. not (starts_in r.graph affected id)) r.selected_edge_ids;
              })
              k.0 (k.1 z) (keep_edges-Inv (λ id. not (starts_in r.graph affected id)) r v))
    ]

fall_back-graph :
    (e : GraphEdge) (a : NodeAttempt) (r : GraphRuntime) → (fall_back e a r).graph ≡ r.graph
unfolding fall_back
fall_back-graph e a r = elim (Bool-cases (eqb e.max_traversals 0)) [
  | inl z ↦ rw (z, fall_back) refl
  | inr z ↦ rw (z, fall_back) refl
]

route_failure-Inv :
    (env : GraphEnv) (args : FailArgs) (a : NodeAttempt) (now : ℕ) (r : GraphRuntime)
    → Inv r
    → Inv (route_failure env args a now r)
unfolding route_failure
route_failure-Inv env args a now r v = elim (Option-cases (usable_retry args a r)) [
  | inr (e, h) ↦
      rw (h, route_failure)
        (record_failure_edges-Inv env (e ∷ []) a now (retry_on e a r)
          (unfold retry_on in ((usable_retry-Known args a r e h).0, tt))
          (retry_on-Inv args e a r h v))
  | inl h ↦ elim (Option-cases (usable_fallback a r)) [
    | inr (e, f) ↦
        rw (h, f, route_failure)
          (record_failure_edges-Inv env (e ∷ []) a now (fall_back e a r)
            (subst (λ g. All (Known g.edges) (e ∷ [])) (sym (fall_back-graph e a r))
              ((usable_fallback-Known a r e f).0, tt))
            (fall_back-Inv e a r f v))
    | inl f ↦
        rw (h, f, route_failure)
          (record_failure_edges-Inv env (failure_edges a r) a now r
            (unfold failure_edges in
              keep_if-All (Known r.graph.edges) (λ e. is_edge_type e.edge_type on_failure)
                (outgoing r.graph a.node_id) (outgoing-Known r.graph a.node_id))
            v)
  ]
]

fail_node-Inv :
    (env : GraphEnv) (args : FailArgs) (id : String) (a : NodeAttempt) (now : ℕ) (r : GraphRuntime)
    → active_attempt id r ≡ some a
    → Inv r
    → Inv (state_of (fail_node env args a now r))
unfolding fail_node
fail_node-Inv env args id a now r h v =
    let marked = mark_failed args a now r in
    let m = mark_failed-Inv args id a now r h v in
    elim (Bool-cases
      (is_empty (codes args.failure_code) || not (is_sha256 args.failure_fingerprint))) [
        | inl b ↦ rw (b, fail_node) v
        | inr b ↦ elim (Bool-cases (are_bounded args.generated_evidence_ids)) [
          | inr c ↦ rw (b, c, fail_node) m
          | inl c ↦
              rw (b, c, fail_node)
                (route_failure-Inv env args a now (note_evidence args a marked)
                  (note_evidence-Inv args a marked m))
        ]
      ]

pub fail_attempt-Inv :
    (env : GraphEnv) (args : FailArgs) (id : String) (now : ℕ) (r : GraphRuntime)
    → Inv r
    → Inv (state_of (fail_attempt env args id now r))
unfolding fail_attempt
fail_attempt-Inv env args id now r v = elim (Option-cases (active_attempt id r)) [
  | inl e ↦ rw (e, fail_attempt) v
  | inr (a, e) ↦ rw (e, fail_attempt) (fail_node-Inv env args id a now r e v)
]
