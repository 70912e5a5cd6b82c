-- ===== src/Lifecycle/Leases.antt =====
-- gateway/src/dgx_moa/lifecycle.py: the operations on leases. `ids` stands for the uuid library.
use mo_e_mo_a_integrated_com.Lifecycle.{
  update_row, count_if, is_expired, is_live_continuation, sync_lease_counts, roles_where,
  delete_where, expired_roles, prune_expired, require_role, same_state, same_kind, is_request_kind,
  kind_name, LeaseKind, LifecycleRecord, LifecycleLease, LifecycleStore, LifecycleFault, Step,
  ready, continuation, unknown_role, invalid_value, not_ready, integrity, missing_row, refused,
  done,
}
use mo_e_mo_a_integrated_com.Dict.{lookup}
use mo_e_mo_a_integrated_com.Base.{
  ℕ, String, ◌==◌, Bool, false, not, ◌&&◌, ◌||◌, Option, none, some, List, [], ◌∷◌, ◌++◌, leb, eqb,
  if◌then◌else◌, map_some, length, keep_if, any, all, is_empty, first, codes, joined, contains,
  dedup,
}

-- uuid.UUID(text), none where it raises, and uuid.uuid5(namespace, name), both as texts.
pub record Uuids : Type 0 where
  pub parse : String → Option String
  pub uuid5 : String → String → String

abbrev pub is_hex : ℕ → Bool
is_hex c = (leb 48 c && leb c 57) || (leb 97 c && leb c 102)

-- CONTINUATION_CORRELATION.fullmatch
abbrev pub is_correlation : String → Bool
is_correlation t = eqb (length (codes t)) 64 && all is_hex (codes t)

-- role not in roles, for some requested role
abbrev pub any_unknown : LifecycleStore → List String → Bool
any_unknown s [] = false
any_unknown s (k ∷ ks) = not (contains k s.roles) || any_unknown s ks

unfoldable pub request_lease : Uuids → String → String → LeaseKind → ℕ → String → LifecycleLease
request_lease ids namespace request_id kind now role = record {
  lease_id = ids.uuid5 namespace (joined (kind_name kind) (joined ":" role));
  role = role;
  kind = kind;
  owner_correlation = request_id;
  created_at = now;
  expires_at = none;
}

abbrev pub request_leases :
    Uuids → String → String → LeaseKind → ℕ → List String → List LifecycleLease
request_leases ids namespace request_id kind now [] = []
request_leases ids namespace request_id kind now (k ∷ ks) =
    request_lease ids namespace request_id kind now k
    ∷ request_leases ids namespace request_id kind now ks

-- The two rows break a unique index of the table.
abbrev pub same_owner : LifecycleLease → LifecycleLease → Bool
same_owner l m =
    l.role == m.role && same_kind l.kind m.kind && l.owner_correlation == m.owner_correlation

abbrev pub conflicts : LifecycleLease → LifecycleLease → Bool
conflicts l m = l.lease_id == m.lease_id || same_owner l m

-- INSERT OR IGNORE
unfoldable pub insert_or_ignore : LifecycleLease → List LifecycleLease → List LifecycleLease
insert_or_ignore l ls = if any (conflicts l) ls then ls else ls ++ l ∷ []

unfoldable pub insert_all : List LifecycleLease → List LifecycleLease → List LifecycleLease
unfolding insert_or_ignore
insert_all [] ls = ls
insert_all (n ∷ ns) ls = insert_all ns (insert_or_ignore n ls)

-- role = ? AND kind IN ('active_request', 'open_stream')
abbrev pub is_request_of : String → LifecycleLease → Bool
is_request_of role l = l.role == role && is_request_kind l.kind

-- first_request_roles
unfoldable pub first_request_roles : LeaseKind → List String → LifecycleStore → List String
first_request_roles kind ks s =
    keep_if (λ k. is_request_kind kind && not (any (is_request_of k) s.leases)) ks

unfoldable pub touch_requested : List String → ℕ → LifecycleStore → LifecycleStore
unfolding update_row
touch_requested [] now s = s
touch_requested (k ∷ ks) now s = touch_requested ks now (record s {
  records =
      update_row k (λ r. record r { last_requested_at = some now; updated_at = now }) s.records;
})

-- The first role that is missing or not ready, as the fault it raises.
unfoldable pub readiness_fault : List String → LifecycleStore → Option LifecycleFault
readiness_fault [] s = none
readiness_fault (k ∷ ks) s =
    let rest = readiness_fault ks s in
    elim (lookup k s.records) [
      | none ↦ some unknown_role
      | some r ↦ if same_state r.state ready then rest else some not_ready
    ]

-- SELECT ... WHERE lease_id = ?, one for each lease; none where a row is missing.
unfoldable pub select_leases :
    List LifecycleLease → List LifecycleLease → Option (List LifecycleLease)
select_leases [] ls = some []
select_leases (n ∷ ns) ls = elim (first (λ l. l.lease_id == n.lease_id) ls) [
  | none ↦ none
  | some l ↦ map_some (λ xs. l ∷ xs) (select_leases ns ls)
]

-- The writes of `acquire_request_leases` once every check has passed.
unfoldable pub store_request :
    LeaseKind → List String → List LifecycleLease → ℕ → LifecycleStore → LifecycleStore
unfolding insert_all sync_lease_counts touch_requested first_request_roles
store_request kind ks new now s =
    touch_requested (first_request_roles kind ks s) now
      (sync_lease_counts ks now (record s { leases = insert_all new s.leases }))

unfoldable pub answer_request :
    LeaseKind → List String → List LifecycleLease → ℕ → LifecycleStore → Step (List LifecycleLease)
unfolding store_request select_leases
answer_request kind ks new now s =
    let s' = store_request kind ks new now s in
    elim (select_leases new s'.leases) [ none ↦ refused missing_row | some ls ↦ done ls s' ]

unfoldable pub request_in :
    Uuids
    → String
    → String
    → List String
    → LeaseKind
    → Bool
    → ℕ
    → LifecycleStore
    → Step (List LifecycleLease)
unfolding answer_request readiness_fault request_lease
request_in ids namespace request_id ks kind require_ready now s =
    let new = request_leases ids namespace request_id kind now ks in
    if any_unknown s ks
    then refused unknown_role
    else elim (if require_ready then readiness_fault ks s else none) [
      | some fault ↦ refused fault
      | none ↦ answer_request kind ks new now s
    ]

unfoldable pub acquire_request_leases :
    Uuids
    → String
    → List String
    → LeaseKind
    → Bool
    → ℕ
    → LifecycleStore
    → Step (List LifecycleLease)
unfolding request_in
acquire_request_leases ids request_id roles kind require_ready now s = elim (ids.parse request_id) [
  | none ↦ refused invalid_value
  | some namespace ↦ request_in ids namespace request_id (dedup roles) kind require_ready now s
]

-- ON CONFLICT(role, kind, owner_correlation) DO UPDATE
abbrev pub upsert : LifecycleLease → List LifecycleLease → List LifecycleLease
upsert l [] = l ∷ []
upsert l (m ∷ ms) =
    let rest = upsert l ms in
    if same_owner l m
    then record m { lease_id = l.lease_id; created_at = l.created_at; expires_at = l.expires_at }
      ∷ ms
    else m ∷ rest

-- The lease's id stands in the row of another owner: SQLite refuses the insert and the update.
abbrev pub takes_id : LifecycleLease → List LifecycleLease → Bool
takes_id l ls = any (λ m. l.lease_id == m.lease_id && not (same_owner l m)) ls

unfoldable pub store_continuation : LifecycleLease → ℕ → LifecycleStore → LifecycleStore
unfolding sync_lease_counts prune_expired expired_roles
store_continuation l now s =
    let s' = prune_expired now s in
    sync_lease_counts (expired_roles now s ++ l.role ∷ []) now
      (record s' { leases = upsert l s'.leases })

abbrev pub continuation_lease : Uuids → String → String → String → ℕ → ℕ → LifecycleLease
continuation_lease ids namespace role owner expires_at now = record {
  lease_id = ids.uuid5 namespace (joined "continuation:" role);
  role = role;
  kind = continuation;
  owner_correlation = owner;
  created_at = now;
  expires_at = some expires_at;
}

-- The last SELECT by role, kind and owner finds the row just written, which is this lease.
unfoldable pub refresh_with : LifecycleLease → ℕ → LifecycleStore → Step LifecycleLease
unfolding store_continuation prune_expired
refresh_with l now s =
    let s' = store_continuation l now s in
    if takes_id l (prune_expired now s).leases
    then refused integrity
    else elim (first (same_owner l) s'.leases) [ none ↦ refused missing_row | some m ↦ done m s' ]

unfoldable pub refresh_continuation :
    Uuids → String → String → String → ℕ → ℕ → LifecycleStore → Step LifecycleLease
unfolding refresh_with
refresh_continuation ids request_id role owner expires_at now s =
    require_role s role (elim (ids.parse request_id) [
      | none ↦ refused invalid_value
      | some namespace ↦
          if not (is_correlation owner) || leb expires_at now
          then refused invalid_value
          else refresh_with (continuation_lease ids namespace role owner expires_at now) now s
    ])

unfoldable pub prune_expired_continuations : ℕ → LifecycleStore → ℕ × LifecycleStore
unfolding prune_expired expired_roles sync_lease_counts
prune_expired_continuations now s = (
  count_if (is_expired now) s.leases,
  sync_lease_counts (expired_roles now s) now (prune_expired now s),
)

abbrev pub is_continuation_of : String → String → ℕ → LifecycleLease → Bool
is_continuation_of role owner now l =
    is_live_continuation now role l && l.owner_correlation == owner

unfoldable pub drop_continuation : String → String → ℕ → LifecycleStore → Bool × LifecycleStore
unfolding prune_expired expired_roles sync_lease_counts delete_where
drop_continuation role owner now s =
    let s' = prune_expired now s in
    (
      any (is_continuation_of role owner now) s'.leases,
      sync_lease_counts (expired_roles now s ++ role ∷ []) now
          (delete_where (is_continuation_of role owner now) s'),
    )

unfoldable pub release_continuation : String → String → ℕ → LifecycleStore → Step Bool
unfolding drop_continuation
release_continuation role owner now s =
    let dropped = drop_continuation role owner now s in
    require_role s role
      (if is_correlation owner then done dropped.0 dropped.1 else refused invalid_value)

-- lease_id IN (...)
abbrev pub is_listed : List String → LifecycleLease → Bool
is_listed ids l = contains l.lease_id ids

abbrev pub is_listed_request : List String → LifecycleLease → Bool
is_listed_request ids l = is_listed ids l && is_request_kind l.kind

-- The record of a role that has no request left.
unfoldable pub completed : ℕ → LifecycleRecord → LifecycleRecord
completed now r =
    if eqb r.active_request_count 0 && eqb r.open_stream_count 0
    then record r { last_used_at = some now; last_completed_at = some now; updated_at = now }
    else r

unfoldable pub touch_completed : List String → ℕ → LifecycleStore → LifecycleStore
unfolding update_row completed
touch_completed [] now s = s
touch_completed (k ∷ ks) now s =
    touch_completed ks now (record s { records = update_row k (completed now) s.records })

unfoldable pub drop_leases : List String → ℕ → LifecycleStore → LifecycleStore
unfolding touch_completed sync_lease_counts delete_where roles_where
drop_leases ids now s =
    touch_completed (roles_where (is_listed_request ids) s.leases) now (
      sync_lease_counts (roles_where (is_listed ids) s.leases) now (delete_where (is_listed ids) s))

-- str(UUID(lease_id)) != lease_id
abbrev pub is_canonical : Uuids → String → Bool
is_canonical uuids t = elim (uuids.parse t) [ none ↦ false | some u ↦ u == t ]

unfoldable pub release_leases : Uuids → List String → ℕ → LifecycleStore → Step Unit
unfolding drop_leases
release_leases uuids lease_ids now s =
    let ids = dedup lease_ids in
    if is_empty ids
    then done tt s
    else if all (is_canonical uuids) ids
    then done tt (drop_leases ids now s)
    else refused invalid_value

unfoldable pub recover_leases : ℕ → LifecycleStore → LifecycleStore
unfolding delete_where prune_expired sync_lease_counts
recover_leases now s =
    sync_lease_counts s.roles now (prune_expired now (delete_where (λ l. is_request_kind l.kind) s))
