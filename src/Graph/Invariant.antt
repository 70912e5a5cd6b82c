-- ===== src/Graph/Invariant.antt =====
-- What holds of a runtime of gateway/src/dgx_moa/execution_graph.py between two calls.
use mo_e_mo_a_integrated_com.Graph.{
  edge_ids, find_node, is_type, is_succeeded, is_completed, TerminalStatus, GraphEdge,
  ExecutionGraph, NodeAttempt, GraphRuntime, GraphEnv, finalize,
}
use mo_e_mo_a_integrated_com.Graph.Ready.{
  new_runtime, default_args, counted_runtime, take_checkpoint, save_attempt, persist,
  CheckpointArgs,
}
use mo_e_mo_a_integrated_com.Dict.{Dict, lookup}
use mo_e_mo_a_integrated_com.Base.{
  ℕ, ◌≤◌, max, String, ◌==◌, ◌≡◌, refl, Bool, true, false, not, ◌&&◌, Option, none, some, List, [],
  ◌∷◌, arith, if◌then◌else◌, is_some, get_or, any, is_empty, contains,
}

-- The most that an edge of this id may be traversed.
abbrev pub most_traversals : List GraphEdge → String → ℕ
most_traversals [] id = 0
most_traversals (e ∷ es) id =
    let rest = most_traversals es id in if e.edge_id == id then max e.max_traversals rest else rest

-- A finished attempt at a FINALIZE node that names validated evidence.
abbrev pub ends_validated : ExecutionGraph → NodeAttempt → Bool
ends_validated g a =
    elim (find_node g a.node_id) [ none ↦ false | some n ↦ is_type n.node_type finalize ]
    && is_succeeded a.state
    && not (is_empty a.validated_evidence_ids)

abbrev pub is_completed_run : Option TerminalStatus → Bool
is_completed_run none = false
is_completed_run (some status) = is_completed status

-- The part of a runtime that the invariant reads; `validated` says whether some attempt ended the
-- run on validated evidence.
pub record RunView : Type 0 where
  pub graph : ExecutionGraph
  pub token_usage : ℕ
  pub tool_calls : ℕ
  pub counts : Dict ℕ
  pub selected : List String
  pub final_emitted : Bool
  pub status : Option TerminalStatus
  pub validated : Bool

abbrev pub view : GraphRuntime → RunView
view r = record {
  graph = r.graph;
  token_usage = r.token_usage;
  tool_calls = r.tool_calls;
  counts = r.traversal_counts;
  selected = r.selected_edge_ids;
  final_emitted = r.final_emitted;
  status = r.terminal_status;
  validated = any (ends_validated r.graph) r.attempts;
}

pub record Sound (r : RunView) : Type 0 where
  pub tokens : r.token_usage ≤ r.graph.budgets.tokens
  pub tools : r.tool_calls ≤ r.graph.budgets.tool_calls
  pub traversed : (id : String) → get_or (lookup id r.counts) 0 ≤ most_traversals r.graph.edges id
  pub selected :
      (id : String) → contains id r.selected ≡ true → contains id (edge_ids r.graph.edges) ≡ true
  pub ended : r.final_emitted ≡ is_some r.status
  pub validated : is_completed_run r.status ≡ true → r.validated ≡ true

abbrev pub Inv : GraphRuntime → Type 0
Inv r = Sound (view r)

pub new_runtime-Inv : (g : ExecutionGraph) (stored : Bool) → Inv (new_runtime g stored)
unfolding new_runtime lookup
new_runtime-Inv g stored = record {
  tokens = omega arith;
  tools = omega arith;
  traversed = λ id. omega arith;
  selected = λ id h. cc;
  ended = refl;
  validated = λ h. cc;
}

pub if_cases {ℓ ℓ'} :
    {A : Type ℓ} (P : A → Type ℓ') (b : Bool) (x y : A)
    → (b ≡ true → P x)
    → (b ≡ false → P y)
    → P (if b then x else y)
if_cases P true x y p q = p refl
if_cases P false x y p q = q refl

pub if_either :
    (P : GraphRuntime → Type 0) (b : Bool) (r r' : GraphRuntime)
    → P r
    → P r'
    → P (if b then r else r')
if_either P b r r' p p' = if_cases P b r r' (λ h. p) (λ h. p')

-- What a checkpoint writes is not read by the invariant.
pub take_checkpoint-Inv :
    (env : GraphEnv) (args : CheckpointArgs) (reason : String) (now : ℕ) (r : GraphRuntime)
    → Inv r
    → Inv (take_checkpoint env args reason now r).1
unfolding take_checkpoint counted_runtime
take_checkpoint-Inv env args reason now r v = v

pub persist-Inv :
    (env : GraphEnv) (attempt : Option NodeAttempt) (reason : String) (now : ℕ) (r : GraphRuntime)
    → Inv r
    → Inv (persist env attempt reason now r)
unfolding persist
persist-Inv env attempt reason now r v =
    let saved = record r { journal = save_attempt attempt r.journal } in
    if_either Inv r.stored (take_checkpoint env default_args reason now saved).1 r
      (take_checkpoint-Inv env default_args reason now saved v) v

-- A set of attempts that is at least as validated may stand in for the runtime's.
pub attempts-Inv :
    (xs : List NodeAttempt) (r : GraphRuntime)
    → (any (ends_validated r.graph) r.attempts ≡ true → any (ends_validated r.graph) xs ≡ true)
    → Inv r
    → Inv (record r { attempts = xs })
attempts-Inv xs r h v = record {
  tokens = v.tokens;
  tools = v.tools;
  traversed = v.traversed;
  selected = v.selected;
  ended = v.ended;
  validated = λ c. h (v.validated c);
}

pub selected-Inv :
    (ids : List String) (r : GraphRuntime)
    → ((id : String) → contains id ids ≡ true → contains id (edge_ids r.graph.edges) ≡ true)
    → Inv r
    → Inv (record r { selected_edge_ids = ids })
selected-Inv ids r h v = record {
  tokens = v.tokens;
  tools = v.tools;
  traversed = v.traversed;
  selected = h;
  ended = v.ended;
  validated = v.validated;
}

pub counts-Inv :
    (counts : Dict ℕ) (r : GraphRuntime)
    → ((id : String) → get_or (lookup id counts) 0 ≤ most_traversals r.graph.edges id)
    → Inv r
    → Inv (record r { traversal_counts = counts })
counts-Inv counts r h v = record {
  tokens = v.tokens;
  tools = v.tools;
  traversed = h;
  selected = v.selected;
  ended = v.ended;
  validated = v.validated;
}
