-- ===== src/Scheduler/Ring.antt =====
-- The queues of gateway/src/dgx_moa/executor_scheduler.py and the round-robin ring over their keys.
use mo_e_mo_a_integrated_com.Scheduler.{append_entry, join_ring, Queued}
use mo_e_mo_a_integrated_com.Scheduler.Release.{turn, shrink}
use mo_e_mo_a_integrated_com.Base.{
  if◌then◌else◌, is_some, get_or, Option-cases, keep_if, is_empty, contains, NoDup,
  contains-append_one, append_one-NoDup, contains-keep_ne, keep_ne-NoDup, String, ◌==◌, eq_iff,
  eq_refl, ◌≡◌, refl, ◌∙◌, inl, inr, true, false, not, none, some, List, [], ◌∷◌, ◌++◌, arith,
}
use mo_e_mo_a_integrated_com.Dict.{Dict, lookup, insert, remove, lookup-insert, lookup-remove}

-- The ring holds each key that has a queue, once, and no queue is empty.
pub record IsRing (queues : Dict (List Queued)) (ring : List String) : Type 0 where
  pub unique : NoDup ring
  pub keys : (k : String) → contains k ring ≡ is_some (lookup k queues)
  pub live : (k : String) (q : List Queued) → lookup k queues ≡ some q → is_empty q ≡ false

append-nonempty : (e : Queued) (q : List Queued) → is_empty (q ++ e ∷ []) ≡ false
append-nonempty e [] = refl
append-nonempty e (x ∷ q) = refl

pub append_entry-IsRing :
    (e : Queued) (queues : Dict (List Queued)) (ring : List String)
    → IsRing queues ring
    → IsRing (append_entry e queues) (join_ring e queues ring)
unfolding append_entry join_ring
append_entry-IsRing e queues ring r = record {
  unique =
      ground (arith, r.unique, r.keys e.api_key_id, append_one-NoDup e.api_key_id ring r.unique);
  keys = λ k. ground (
    arith,
    r.keys k,
    r.keys e.api_key_id,
    contains-append_one k e.api_key_id ring,
    lookup-insert e.api_key_id k (get_or (lookup e.api_key_id queues) [] ++ e ∷ []) queues,
    eq_iff e.api_key_id k,
  );
  live = λ k q h. ground (
    arith,
    r.live k q,
    lookup-insert e.api_key_id k (get_or (lookup e.api_key_id queues) [] ++ e ∷ []) queues,
    append-nonempty e (get_or (lookup e.api_key_id queues) []),
  );
}

pub contains-turn :
    (last_key k : String) (ring : List String) → contains k (turn last_key ring) ≡ contains k ring
unfolding turn
contains-turn last_key k [] = refl
contains-turn last_key k (a ∷ []) = refl
contains-turn last_key k (a ∷ b ∷ ks) = ground (arith, contains-append_one k a ks)

pub turn-NoDup : (last_key : String) (ring : List String) → NoDup ring → NoDup (turn last_key ring)
unfolding turn
turn-NoDup last_key [] d = d
turn-NoDup last_key (a ∷ []) d = d
turn-NoDup last_key (a ∷ b ∷ ks) d = ground (arith, append_one-NoDup a (b ∷ ks) d.1)

pub turn-IsRing :
    (last_key : String) (queues : Dict (List Queued)) (ring : List String)
    → IsRing queues ring
    → IsRing queues (turn last_key ring)
turn-IsRing last_key queues ring r = record {
  unique = turn-NoDup last_key ring r.unique;
  keys = λ k. contains-turn last_key k ring ∙ r.keys k;
  live = r.live;
}

pub lookup-shrink :
    (key k : String) (rest : List Queued) (queues : Dict (List Queued))
    → lookup k (shrink key rest queues)
      ≡ (if key == k then (if is_empty rest then none else some rest) else lookup k queues)
unfolding shrink
lookup-shrink key k rest queues =
    ground (arith, lookup-remove key k queues, lookup-insert key k rest queues)

-- The key at the front of the ring has a queue with a first entry.
pub front_entry :
    (key : String) (ring : List String) (queues : Dict (List Queued))
    → IsRing queues (key ∷ ring)
    → (e : Queued) × (rest : List Queued) × (lookup key queues ≡ some (e ∷ rest))
front_entry key ring queues r = elim (Option-cases (lookup key queues)) [
  | inl h ↦ absurd (ground (arith, r.keys key, eq_refl key))
  | inr (q, h) ↦ first q h (r.live key q h)
]
  where
    first :
        (q : List Queued)
        → lookup key queues ≡ some q
        → is_empty q ≡ false
        → (e : Queued) × (rest : List Queued) × (lookup key queues ≡ some (e ∷ rest))
    first [] h l = absurd (ground arith)
    first (e ∷ rest) h l = (e, rest, h)

pub shrink-IsRing :
    (key : String) (ring : List String) (rest : List Queued) (queues : Dict (List Queued))
    → IsRing queues (key ∷ ring)
    → IsRing (shrink key rest queues) (if is_empty rest then ring else ring ++ key ∷ [])
shrink-IsRing key ring rest queues r = record {
  unique = ground (arith, r.unique, append_one-NoDup key ring r.unique.1);
  keys = λ k. ground (
    arith,
    r.keys k,
    r.unique,
    lookup-shrink key k rest queues,
    contains-append_one k key ring,
    eq_iff key k,
  );
  live = λ k q h. ground (arith, r.live k q, lookup-shrink key k rest queues);
}

-- The queue of one key left with what a filter keeps, as `release` drops a queued request.
pub drop-IsRing :
    (key : String) (ring : List String) (queues : Dict (List Queued))
    → IsRing queues ring
    → IsRing (remove key queues) (keep_if (λ k. not (k == key)) ring)
drop-IsRing key ring queues r = record {
  unique = keep_ne-NoDup key ring r.unique;
  keys = λ k. ground (arith, r.keys k, contains-keep_ne key k ring, lookup-remove key k queues);
  live = λ k q h. ground (arith, r.live k q, lookup-remove key k queues);
}

pub narrow-IsRing :
    (key : String) (ring : List String) (rest : List Queued) (queues : Dict (List Queued))
    → IsRing queues ring
    → is_empty rest ≡ false
    → is_some (lookup key queues) ≡ true
    → IsRing (insert key rest queues) ring
narrow-IsRing key ring rest queues r h p = record {
  unique = r.unique;
  keys = λ k. ground (arith, r.keys k, lookup-insert key k rest queues, eq_iff key k);
  live = λ k q l. ground (arith, r.live k q, lookup-insert key k rest queues);
}
