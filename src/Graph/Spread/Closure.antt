-- ===== src/Graph/Spread/Closure.antt =====
-- The walk of gateway/src/dgx_moa/execution_graph.py ends, and marks exactly what its starts lead to.
use mo_e_mo_a_integrated_com.Graph.{GraphEdge}
use mo_e_mo_a_integrated_com.Graph.Spread.{visit, walk, spread}
use mo_e_mo_a_integrated_com.Base.{
  ℕ, zero, suc, ◌+◌, ◌≤◌, ◌<◌, String, ◌==◌, eq_iff, eq_refl, ◌≡◌, ◌↔◌, inl, inr, Bool, true, false,
  not, ◌&&◌, ◌||◌, List, [], ◌∷◌, ◌++◌, arith, if◌then◌else◌, Bool-cases, length, any, All,
  length-append, contains, contains-append_one,
}

-- Some edge that is followed runs from the one node to the other.
abbrev pub has_step : (GraphEdge → Bool) → List GraphEdge → String → String → Bool
has_step follows es a b = any (λ e. e.from_node == a && follows e && e.to_node == b) es

-- A path of edges that are followed.
pub data Leads (follows : GraphEdge → Bool) (es : List GraphEdge) : String → String → Type 0 where
  stays : (a : String) → Leads follows es a a
  steps :
      (a b c : String)
      → Leads follows es a b
      → has_step follows es b c ≡ true
      → Leads follows es a c

-- A path from one of the starts.
abbrev pub LedTo : (GraphEdge → Bool) → List GraphEdge → List String → String → Type 0
LedTo follows es starts j = (a : String) × (contains a starts ≡ true) × Leads follows es a j

marked-visit :
    (follows : GraphEdge → Bool) (source : String) (es : List GraphEdge)
    (marked queue : List String) (j : String)
    → contains j (visit follows source es marked queue).0
      ≡ contains j marked || has_step follows es source j
unfolding visit
marked-visit follows source [] marked queue j = ground arith
marked-visit follows source (e ∷ es) marked queue j =
    let new = e.from_node == source && follows e && not (contains e.to_node marked) in
    ground (
      arith,
      eq_iff e.to_node j,
      contains-append_one j e.to_node marked,
      marked-visit follows source es (if new then marked ++ e.to_node ∷ [] else marked)
          (if new then queue ++ e.to_node ∷ [] else queue) j,
    )

queue-visit :
    (follows : GraphEdge → Bool) (source : String) (es : List GraphEdge)
    (marked queue : List String) (j : String)
    → contains j (visit follows source es marked queue).1
      ≡ contains j queue || (not (contains j marked) && has_step follows es source j)
unfolding visit
queue-visit follows source [] marked queue j = ground arith
queue-visit follows source (e ∷ es) marked queue j =
    let new = e.from_node == source && follows e && not (contains e.to_node marked) in
    ground (
      arith,
      eq_iff e.to_node j,
      contains-append_one j e.to_node marked,
      contains-append_one j e.to_node queue,
      queue-visit follows source es (if new then marked ++ e.to_node ∷ [] else marked)
          (if new then queue ++ e.to_node ∷ [] else queue) j,
    )

-- The edges whose target is not marked yet.
abbrev pub unmarked : List GraphEdge → List String → ℕ
unmarked [] marked = 0
unmarked (e ∷ es) marked =
    let rest = unmarked es marked in if contains e.to_node marked then rest else suc rest

abbrev aims_at : String → List GraphEdge → Bool
aims_at t es = any (λ e. e.to_node == t) es

unmarked-append :
    (es : List GraphEdge) (marked : List String) (t : String)
    → unmarked es (marked ++ t ∷ []) ≤ unmarked es marked
unmarked-append [] marked t = omega arith
unmarked-append (e ∷ es) marked t =
    ground (arith, contains-append_one e.to_node t marked, unmarked-append es marked t)

unmarked-mark :
    (es : List GraphEdge) (marked : List String) (t : String)
    → aims_at t es ≡ true
    → contains t marked ≡ false
    → unmarked es (marked ++ t ∷ []) < unmarked es marked
unmarked-mark [] marked t h n = ground arith
unmarked-mark (e ∷ es) marked t h n = ground (
  arith,
  eq_iff e.to_node t,
  eq_iff t e.to_node,
  contains-append_one e.to_node t marked,
  unmarked-append es marked t,
  unmarked-mark es marked t,
)

aims_at-cons :
    (e : GraphEdge) (es all_edges : List GraphEdge)
    → All (λ x. aims_at x.to_node all_edges ≡ true) es
    → All (λ x. aims_at x.to_node (e ∷ all_edges) ≡ true) es
aims_at-cons e [] all_edges h = tt
aims_at-cons e (x ∷ es) all_edges h = (ground (arith, h.0), aims_at-cons e es all_edges h.1)

aims_at_self : (es : List GraphEdge) → All (λ x. aims_at x.to_node es ≡ true) es
aims_at_self [] = tt
aims_at_self (e ∷ es) = (ground (arith, eq_refl e.to_node), aims_at-cons e es es (aims_at_self es))

visit_measure :
    (follows : GraphEdge → Bool) (source : String) (all_edges es : List GraphEdge)
    (marked queue : List String)
    → All (λ x. aims_at x.to_node all_edges ≡ true) es
    → length (visit follows source es marked queue).1
        + unmarked all_edges (visit follows source es marked queue).0
      ≤ length queue + unmarked all_edges marked
unfolding visit
visit_measure follows source all_edges [] marked queue h = omega arith
visit_measure follows source all_edges (e ∷ es) marked queue h =
    let new = e.from_node == source && follows e && not (contains e.to_node marked) in
    ground (
      arith,
      h.0,
      length-append queue (e.to_node ∷ []),
      unmarked-mark all_edges marked e.to_node,
      visit_measure follows source all_edges es (if new then marked ++ e.to_node ∷ [] else marked)
          (if new then queue ++ e.to_node ∷ [] else queue) h.1,
    )

unmarked-le-length : (es : List GraphEdge) (marked : List String) → unmarked es marked ≤ length es
unmarked-le-length [] marked = omega arith
unmarked-le-length (e ∷ es) marked = ground (arith, unmarked-le-length es marked)

module _ (follows : GraphEdge → Bool) (es : List GraphEdge) where
  -- A marked node that is not queued has its successors marked.
  abbrev pub Settled : List String → List String → Type 0
  Settled marked queue =
      (j k : String)
      → contains j marked ≡ true
      → has_step follows es j k ≡ true
      → contains k marked || contains j queue ≡ true

  -- What is marked is led to, and what is queued is marked.
  abbrev pub Led : List String → List String → Type 0
  Led starts marked = (j : String) → contains j marked ≡ true → LedTo follows es starts j

  visit-Settled :
      (source : String) (marked queue : List String)
      → Settled marked (source ∷ queue)
      → Settled (visit follows source es marked queue).0 (visit follows source es marked queue).1
  visit-Settled source marked queue h j k m step = ground (
    arith,
    h j k,
    eq_iff source j,
    marked-visit follows source es marked queue j,
    marked-visit follows source es marked queue k,
    queue-visit follows source es marked queue j,
    m,
    step,
  )

  visit-Led :
      (starts : List String) (source : String) (marked queue : List String)
      → contains source marked ≡ true
      → Led starts marked
      → Led starts (visit follows source es marked queue).0
  visit-Led starts source marked queue s h j m = elim (Bool-cases (contains j marked)) [
    | inl old ↦ h j old
    | inr new ↦
        let way = h source s in
        (
          way.0,
          way.1,
          steps way.0 source j way.2
              (ground (arith, new, m, marked-visit follows source es marked queue j)),
        )
  ]

  abbrev pub Within : List String → List String → Type 0
  Within queue marked = (j : String) → contains j queue ≡ true → contains j marked ≡ true

  visit-Within :
      (source : String) (marked queue : List String)
      → Within (source ∷ queue) marked
      → Within (visit follows source es marked queue).1 (visit follows source es marked queue).0
  visit-Within source marked queue h j m = ground (
    arith,
    m,
    h j,
    marked-visit follows source es marked queue j,
    queue-visit follows source es marked queue j,
  )

  -- With a round for each queued node and each edge to an unmarked one, the walk closes its marks.
  walk-Settled :
      (fuel : ℕ) (marked queue : List String)
      → length queue + unmarked es marked ≤ fuel
      → Settled marked queue
      → Settled (walk follows es fuel marked queue) []
  unfolding walk
  walk-Settled zero marked [] m h = h
  walk-Settled zero marked (source ∷ queue) m h = absurd (omega arith)
  walk-Settled (suc fuel) marked [] m h = h
  walk-Settled (suc fuel) marked (source ∷ queue) m h =
      walk-Settled fuel (visit follows source es marked queue).0
        (visit follows source es marked queue).1
        (omega (arith, visit_measure follows source es es marked queue (aims_at_self es)))
        (visit-Settled source marked queue h)

  walk-Led :
      (fuel : ℕ) (starts marked queue : List String)
      → Within queue marked
      → Led starts marked
      → Led starts (walk follows es fuel marked queue)
  unfolding walk
  walk-Led zero starts marked queue w h = h
  walk-Led (suc fuel) starts marked [] w h = h
  walk-Led (suc fuel) starts marked (source ∷ queue) w h =
      walk-Led fuel starts (visit follows source es marked queue).0
        (visit follows source es marked queue).1 (visit-Within source marked queue w)
        (visit-Led starts source marked queue (w source (ground (arith, eq_refl source))) h)

  walk_keeps :
      (fuel : ℕ) (marked queue : List String) (j : String)
      → contains j marked ≡ true
      → contains j (walk follows es fuel marked queue) ≡ true
  unfolding walk
  walk_keeps zero marked queue j h = h
  walk_keeps (suc fuel) marked [] j h = h
  walk_keeps (suc fuel) marked (source ∷ queue) j h =
      walk_keeps fuel (visit follows source es marked queue).0
        (visit follows source es marked queue).1 j
        (ground (arith, h, marked-visit follows source es marked queue j))

  marked-Leads :
      (marked : List String) (a j : String)
      → Settled marked []
      → contains a marked ≡ true
      → Leads follows es a j
      → contains j marked ≡ true
  marked-Leads marked a j s m (stays _) = m
  marked-Leads marked a j s m (steps _ b _ way step) =
      let before = marked-Leads marked a b s m way in ground (arith, before, step, s b j)

-- The walk marks a node exactly if a path of followed edges runs to it from one of the starts.
pub spread-LedTo :
    (follows : GraphEdge → Bool) (es : List GraphEdge) (starts : List String) (j : String)
    → (contains j (spread follows es starts) ≡ true) ↔ LedTo follows es starts j
unfolding spread
spread-LedTo follows es starts j = (
  walk-Led follows es (length starts + length es) starts starts starts (λ k h. h)
      (λ k h. (k, h, stays k)) j,
  λ way.
      marked-Leads follows es (walk follows es (length starts + length es) starts starts) way.0 j
        (walk-Settled follows es (length starts + length es) starts starts
          (omega (arith, unmarked-le-length es starts)) (λ a k m step. ground (arith, m)))
        (walk_keeps follows es (length starts + length es) starts starts way.0 way.1) way.2,
)
