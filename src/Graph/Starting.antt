-- ===== src/Graph/Starting.antt =====
-- `start_attempt` of gateway/src/dgx_moa/execution_graph.py keeps the runtime's invariant.
use mo_e_mo_a_integrated_com.Graph.{find_node, GraphNode, GraphRuntime, GraphEnv}
use mo_e_mo_a_integrated_com.Graph.Ready.{ready_node_ids, last_moment}
use mo_e_mo_a_integrated_com.Graph.Start.{
  pin_to, is_blank_text, new_attempt, begin_attempt, start_node, start_attempt,
}
use mo_e_mo_a_integrated_com.Graph.Invariant.{ends_validated, Inv, persist-Inv, attempts-Inv}
use mo_e_mo_a_integrated_com.Graph.Finishing.{state_of}
use mo_e_mo_a_integrated_com.Dict.{lookup, insert}
use mo_e_mo_a_integrated_com.Base.{
  ℕ, ◌+◌, String, ◌≡◌, inl, inr, Bool, true, Option, some, List, [], ◌∷◌, ◌++◌, arith, leb,
  Bool-cases, get_or, Option-cases, any, contains,
}

any-append {ℓ} :
    {A : Type ℓ} (p : A → Bool) (xs ys : List A) → any p xs ≡ true → any p (xs ++ ys) ≡ true
any-append p [] ys h = absurd (cc)
any-append p (x ∷ xs) ys h = ground (arith, h, any-append p xs ys)

begin_attempt-Inv :
    (env : GraphEnv) (n : GraphNode) (now : ℕ) (r : GraphRuntime)
    → Inv r
    → Inv (state_of (begin_attempt env n now r))
unfolding begin_attempt
begin_attempt-Inv env n now r v =
    let count = get_or (lookup n.node_id r.attempt_counts) 0 + 1 in
    let a = new_attempt env n r.model_pins count now r in
    persist-Inv env (some a) "attempt_started" now
      (record r {
        attempt_counts = insert n.node_id count r.attempt_counts;
        node_states = insert n.node_id a.state r.node_states;
        attempts = r.attempts ++ a ∷ [];
      })
      (attempts-Inv (r.attempts ++ a ∷ []) r
        (any-append (ends_validated r.graph) r.attempts (a ∷ [])) v)

start_node-Inv :
    (env : GraphEnv) (n : GraphNode) (model : Option String) (now : ℕ) (r : GraphRuntime)
    → Inv r
    → Inv (state_of (start_node env n model now r))
unfolding start_node
start_node-Inv env n model now r v =
    elim (Option-cases (pin_to n.node_id n.provider r.provider_pins)) [
      | inl e ↦ rw (e, start_node) v
      | inr (ps, e) ↦ elim (Bool-cases (is_blank_text model)) [
        | inl b ↦ rw (e, b, start_node) v
        | inr b ↦ elim (Option-cases (pin_to n.node_id model r.model_pins)) [
          | inl f ↦ rw (e, b, f, start_node) v
          | inr (ms, f) ↦
              rw (e, b, f, start_node)
                (begin_attempt-Inv env n now (record r { provider_pins = ps; model_pins = ms }) v)
        ]
      ]
    ]

pub start_attempt-Inv :
    (env : GraphEnv) (id : String) (model : Option String) (now : ℕ) (r : GraphRuntime)
    → Inv r
    → Inv (state_of (start_attempt env id model now r))
unfolding start_attempt
start_attempt-Inv env id model now r v = elim (Bool-cases (leb (last_moment r.graph) now)) [
  | inl b ↦ rw (b, start_attempt) v
  | inr b ↦ elim (Bool-cases (contains id (ready_node_ids r))) [
    | inr c ↦ rw (b, c, start_attempt) v
    | inl c ↦ elim (Option-cases (find_node r.graph id)) [
      | inl f ↦ rw (b, c, f, start_attempt) v
      | inr (n, f) ↦ rw (b, c, f, start_attempt) (start_node-Inv env n model now r v)
    ]
  ]
]
