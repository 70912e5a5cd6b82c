-- ===== src/Ledger/Histories.antt =====
-- What the ledger of gateway/src/dgx_moa/actions/ledger.py says after a history of failures and successes.
use mo_e_mo_a_integrated_com.Ledger.{
  is_success, Executions, record_failure, record_success, is_blocked, outcome_text, to_dict,
  outcome_of, entry_of, read_items, from_dict, FailureOutcome, FailureEntry, failed, blocked,
  succeeded,
}
use mo_e_mo_a_integrated_com.Dict.{
  Dict, lookup, remove, insert, lookup-insert, lookup-remove, UniqueKeys, insert-UniqueKeys,
  remove-UniqueKeys,
}
use mo_e_mo_a_integrated_com.Base.{
  String, ◌==◌, ◌≡◌, refl, sym, ap, ◌∙◌, inl, inr, Bool, false, not, ◌&&◌, some, List, [], ◌∷◌,
  ◌++◌, arith, if◌then◌else◌, Bool-cases, is_some, All, append_nil, append_assoc, string_same,
  string_apart,
}

pub data Event : Type 0 where
  fails : String → String → String → FailureOutcome → Event
  succeeds : String → Event

unfoldable pub apply_event : Executions → Event → Dict FailureEntry → Dict FailureEntry
unfolding record_failure record_success
apply_event execution (fails semantic revision failure_class outcome) entries =
    (record_failure execution semantic revision failure_class outcome entries).1
apply_event execution (succeeds semantic) entries = record_success semantic entries

-- The events in the order of the list, its last one first.
unfoldable pub ledger_after : Executions → List Event → Dict FailureEntry
unfolding apply_event
ledger_after execution [] = []
ledger_after execution (e ∷ es) = apply_event execution e (ledger_after execution es)

-- Whether the last event of the action, if there is one, is a failure in this state.
abbrev pub has_failed_last : String → String → List Event → Bool
has_failed_last semantic revision [] = false
has_failed_last semantic revision (fails s r c o ∷ es) =
    let rest = has_failed_last semantic revision es in
    if s == semantic then not (is_success o) && r == revision else rest
has_failed_last semantic revision (succeeds s ∷ es) =
    let rest = has_failed_last semantic revision es in if s == semantic then false else rest

-- After any history of failures and successes, an action is blocked in a state exactly if the last of
-- the events that are about it is a failure, or a block, in that very state.
pub is_blocked-ledger_after :
    (execution : Executions) (es : List Event) (semantic revision : String)
    → is_blocked semantic revision (ledger_after execution es)
      ≡ has_failed_last semantic revision es
unfolding is_blocked ledger_after apply_event record_failure record_success
is_blocked-ledger_after execution [] semantic revision = unfold lookup in refl
is_blocked-ledger_after execution (fails s r c o ∷ es) semantic revision =
    let entries = ledger_after execution es in
    let entry = (record_failure execution s r c o entries).0 in
    ground (
      arith,
      lookup-insert s semantic entry entries,
      is_blocked-ledger_after execution es semantic revision,
    )
is_blocked-ledger_after execution (succeeds s ∷ es) semantic revision =
    let entries = ledger_after execution es in
    ground (
      arith,
      lookup-remove s semantic entries,
      is_blocked-ledger_after execution es semantic revision,
    )

-- Each entry stands under its own fingerprint.
abbrev pub Named : Dict FailureEntry → Type 0
Named [] = Unit
Named ((key, entry) ∷ d) = (entry.semantic_fingerprint ≡ key) × Named d

insert-Named :
    (entry : FailureEntry) (d : Dict FailureEntry)
    → Named d
    → Named (insert entry.semantic_fingerprint entry d)
unfolding insert
insert-Named entry [] h = (refl, tt)
insert-Named entry ((key, old) ∷ d) h = elim (Bool-cases (key == entry.semantic_fingerprint)) [
  | inl t ↦ rw t (sym (string_same key entry.semantic_fingerprint t), h.1)
  | inr f ↦ rw f (h.0, insert-Named entry d h.1)
]

remove-Named : (id : String) (d : Dict FailureEntry) → Named d → Named (remove id d)
unfolding remove
remove-Named id [] h = tt
remove-Named id ((key, old) ∷ d) h = elim (Bool-cases (key == id)) [
  | inl t ↦ rw t (remove-Named id d h.1)
  | inr f ↦ rw f (h.0, remove-Named id d h.1)
]

ledger_after-Named :
    (execution : Executions) (es : List Event)
    → Named (ledger_after execution es) × UniqueKeys (ledger_after execution es)
unfolding ledger_after apply_event record_failure record_success
ledger_after-Named execution [] = (tt, tt)
ledger_after-Named execution (fails s r c o ∷ es) =
    let entries = ledger_after execution es in
    let entry = (record_failure execution s r c o entries).0 in
    let before = ledger_after-Named execution es in
    (insert-Named entry entries before.0, insert-UniqueKeys s entry entries before.1)
ledger_after-Named execution (succeeds s ∷ es) =
    let entries = ledger_after execution es in
    let before = ledger_after-Named execution es in
    (remove-Named s entries before.0, remove-UniqueKeys s entries before.1)

outcome_of_text : (o : FailureOutcome) → outcome_of (some (outcome_text o)) ≡ o
unfolding outcome_of
outcome_of_text failed = refl
outcome_of_text blocked = refl
outcome_of_text succeeded = refl

insert_new :
    (key : String) (entry : FailureEntry) (d : Dict FailureEntry)
    → is_some (lookup key d) ≡ false
    → insert key entry d ≡ d ++ (key, entry) ∷ []
unfolding insert lookup
insert_new key entry [] h = refl
insert_new key entry ((head, old) ∷ d) h = ground (arith, h, insert_new key entry d)

-- None of the keys is found among the entries.
abbrev Apart : Dict FailureEntry → Dict FailureEntry → Type 0
Apart d entries = All (λ x. is_some (lookup x.0 entries) ≡ false) d

Apart-insert :
    (key : String) (entry : FailureEntry) (d entries : Dict FailureEntry)
    → is_some (lookup key d) ≡ false
    → Apart d entries
    → Apart d (insert key entry entries)
unfolding lookup
Apart-insert key entry [] entries n h = tt
Apart-insert key entry ((head, x) ∷ d) entries n h = (
  ground (arith, n, h.0, lookup-insert key head entry entries, string_apart key head),
  Apart-insert key entry d entries (ground (arith, n)) h.1,
)

entry_of-item :
    (key : String) (entry : FailureEntry)
    → entry.semantic_fingerprint ≡ key
    → entry_of key
        (some entry.execution_fingerprint)
        (some entry.state_revision)
        (some entry.failure_class)
        (some (outcome_text entry.outcome))
      ≡ entry
unfolding entry_of
entry_of-item key entry same =
    ap
      (λ k. record entry {
        semantic_fingerprint = k;
        outcome = outcome_of (some (outcome_text entry.outcome));
      })
      (sym same)
    ∙ ap (λ o. record entry { outcome = o }) (outcome_of_text entry.outcome)

read_items-to_dict :
    (d entries : Dict FailureEntry)
    → Named d
    → UniqueKeys d
    → Apart d entries
    → read_items (to_dict d) entries ≡ entries ++ d
unfolding read_items to_dict
read_items-to_dict [] entries n u a = sym (append_nil entries)
read_items-to_dict ((key, entry) ∷ d) entries n u a =
    ap (λ e. read_items (to_dict d) (insert key e entries)) (entry_of-item key entry n.0)
    ∙ read_items-to_dict d (insert key entry entries) n.1 u.1
        (Apart-insert key entry d entries u.0 a.1)
    ∙ ap (λ e. e ++ d) (insert_new key entry entries a.0)
    ∙ append_assoc entries ((key, entry) ∷ []) d

Apart-empty : (d : Dict FailureEntry) → Apart d []
unfolding lookup
Apart-empty [] = tt
Apart-empty (x ∷ d) = (refl, Apart-empty d)

-- After any history of failures and successes, writing the ledger as a mapping and reading it back gives
-- the same ledger.
pub from_dict-to_dict :
    (execution : Executions) (es : List Event)
    → from_dict (to_dict (ledger_after execution es)) ≡ ledger_after execution es
unfolding from_dict
from_dict-to_dict execution es =
    let entries = ledger_after execution es in
    let named = ledger_after-Named execution es in
    read_items-to_dict entries [] named.0 named.1 (Apart-empty entries)
