-- ===== src/Ledger.antt =====
-- gateway/src/dgx_moa/actions/ledger.py: FailureLedger, which keeps an action that failed from being tried
-- again in the same state.
pub mod Histories
mod Tests
use mo_e_mo_a_integrated_com.Dict.{
  Dict, lookup, remove, insert, values, keys, lookup-insert, lookup-remove, length-insert,
  UniqueKeys, insert-UniqueKeys, remove-UniqueKeys, remove_missing, length-remove, length-remove-le,
  lookup_empty, empty_of_lookup,
}
use mo_e_mo_a_integrated_com.Base.{
  ℕ, zero, suc, ◌+◌, ◌-◌, ◌*◌, ◌≤◌, ◌<◌, min, max, String, ◌==◌, eq_iff, eq_refl, ◌≡◌, refl, sym,
  ap, ◌∙◌, subst, ◌≢◌, ◌↔◌, ◌⊎◌, inl, inr, Bool, true, false, not, ◌&&◌, ◌||◌, Option, none, some,
  List, [], ◌∷◌, ◌++◌, map, arith, ltb, leb, eqb, if◌then◌else◌, ltb→lt, leb→le, Bool-cases,
  is_some, get_or, Option-cases, map_some, length, keep_if, any, all, is_empty, All, length-append,
  nonempty-keep_if, length-keep_if, first, append_nil, append_assoc, codes, joined, contains, dedup,
  contains-dedup, NoDup, contains-append_one, append_one-NoDup, contains-keep_ne, keep_ne-NoDup,
  string_same, string_apart, joined_not_blank, text_joined_not_blank,
}

pub data FailureOutcome : Type 0 where
  failed blocked succeeded : FailureOutcome

abbrev pub is_success : FailureOutcome → Bool
is_success succeeded = true
is_success _ = false

pub record FailureEntry : Type 0 where
  pub semantic_fingerprint : String
  pub execution_fingerprint : String
  pub state_revision : String
  pub failure_class : String
  pub outcome : FailureOutcome

-- A revision is given by its text. SHA-256 and JSON, which make the fingerprint of an execution, are the
-- argument of this type.
abbrev pub Executions : Type 0
Executions = String → String → String

-- FailureLedger.record_failure
unfoldable pub record_failure :
    Executions
    → String
    → String
    → String
    → FailureOutcome
    → Dict FailureEntry
    → FailureEntry × Dict FailureEntry
record_failure execution semantic revision failure_class outcome entries =
    let entry : FailureEntry = record {
      semantic_fingerprint = semantic;
      execution_fingerprint = execution semantic revision;
      state_revision = revision;
      failure_class = failure_class;
      outcome = outcome;
    } in
    (entry, insert semantic entry entries)

-- FailureLedger.record_success
unfoldable pub record_success : String → Dict FailureEntry → Dict FailureEntry
record_success semantic entries = remove semantic entries

-- FailureLedger.is_blocked
unfoldable pub is_blocked : String → String → Dict FailureEntry → Bool
is_blocked semantic revision entries = elim (lookup semantic entries) [
  | none ↦ false
  | some entry ↦ not (is_success entry.outcome) && entry.state_revision == revision
]

-- A value of the stored form: a mapping, whose fields may be missing, or something else.
pub data Stored : Type 0 where
  no_mapping : Stored
  item : Option String → Option String → Option String → Option String → Stored

abbrev pub outcome_text : FailureOutcome → String
outcome_text failed = "failed"
outcome_text blocked = "blocked"
outcome_text succeeded = "succeeded"

abbrev pub item_of : FailureEntry → Stored
item_of entry =
    item (some entry.execution_fingerprint) (some entry.state_revision) (some entry.failure_class)
      (some (outcome_text entry.outcome))

-- FailureLedger.to_dict
unfoldable pub to_dict : Dict FailureEntry → Dict Stored
to_dict [] = []
to_dict ((semantic, entry) ∷ entries) = (semantic, item_of entry) ∷ to_dict entries

-- An outcome that is not known counts as failed.
unfoldable pub outcome_of : Option String → FailureOutcome
outcome_of raw =
    let text = get_or raw "failed" in
    if text == "succeeded" then succeeded else if text == "blocked" then blocked else failed

unfoldable pub entry_of :
    String → Option String → Option String → Option String → Option String → FailureEntry
unfolding outcome_of
entry_of semantic execution revision failure_class outcome = record {
  semantic_fingerprint = semantic;
  execution_fingerprint = get_or execution "";
  state_revision = get_or revision "";
  failure_class = get_or failure_class "TOOL_EXECUTION_FAILURE";
  outcome = outcome_of outcome;
}

unfoldable pub read_items : Dict Stored → Dict FailureEntry → Dict FailureEntry
unfolding entry_of
read_items [] entries = entries
read_items ((semantic, no_mapping) ∷ d) entries = read_items d entries
read_items ((semantic, item execution revision failure_class outcome) ∷ d) entries =
    read_items d
      (insert semantic (entry_of semantic execution revision failure_class outcome) entries)

-- FailureLedger.from_dict, of a mapping
unfoldable pub from_dict : Dict Stored → Dict FailureEntry
unfolding read_items
from_dict d = read_items d []
