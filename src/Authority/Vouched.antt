-- ===== src/Authority/Vouched.antt =====
-- What gateway/src/dgx_moa/actions/resources.py authorises is vouched for by an item of the session.
use mo_e_mo_a_integrated_com.Authority.{
  is_blank, note, file_uri_inside_workspace, is_discovered, check_policy, check_reference,
  is_trusted, lists_resources, is_mcp_tool, looks_like_uri, Texts, ResourceAuthority,
  ResourcePolicy, ResourceRef, Item, discovered_only, observed_only,
}
use mo_e_mo_a_integrated_com.Authority.Harvest.{
  note_named, note_servers, note_argument_uris, note_tokens, note_texts, note_listed_uris,
  note_session, harvest_item, harvest, from_session,
}
use mo_e_mo_a_integrated_com.Base.{
  ℕ, String, ◌==◌, eq_iff, ◌≡◌, inl, inr, Bool, true, false, not, ◌&&◌, ◌||◌, Option, none, some,
  List, [], ◌∷◌, ◌++◌, arith, leb, if◌then◌else◌, Option-cases, any, contains, contains-append_one,
}

-- The text, without blanks around it and not blank, is the one that is looked for.
abbrev pub reads_as : Texts → String → String → Bool
reads_as texts id value = texts.strip value == id && not (is_blank (texts.strip value))

abbrev pub names : Texts → String → Option String → Bool
names texts id none = false
names texts id (some value) =
    not (is_blank (texts.strip value)) && reads_as texts id (texts.strip value)

abbrev pub vouches_for_server : Texts → String → Item → Bool
vouches_for_server texts id it = elim it.arguments [
  | none ↦ false
  | some args ↦ is_trusted texts it && (names texts id args.server || names texts id args.server_id)
]

abbrev pub names_uri : Texts → String → Item → Bool
names_uri texts id it = elim it.arguments [
  | none ↦ false
  | some args ↦
      is_trusted texts it
      && is_mcp_tool texts it
      && (names texts id args.uri || names texts id args.resource_uri)
]

abbrev pub has_token : Texts → String → String → Bool
has_token texts id t = any (λ k. looks_like_uri texts k && reads_as texts id k) (texts.uri_tokens t)

abbrev pub vouches_for_uri : Texts → String → Item → Bool
vouches_for_uri texts id it =
    names_uri texts id it
    || (lists_resources it && is_trusted texts it && any (has_token texts id) it.texts)

abbrev pub counts_session : Texts → String → Option ℕ → Bool
counts_session texts id none = false
counts_session texts id (some n) = leb 1 n && reads_as texts id (texts.decimal n)

abbrev pub vouches_for_id : Texts → String → Item → Bool
vouches_for_id texts id it = counts_session texts id it.session_id || names texts id it.tool_call_id

module _ (texts : Texts) (id : String) where
  contains-note :
      (value : String) (ids : List String)
      → contains id (note texts value ids) ≡ contains id ids || reads_as texts id value
  unfolding note
  contains-note value ids =
      ground (arith, eq_iff (texts.strip value) id, contains-append_one id (texts.strip value) ids)

  contains-note_named :
      (value : Option String) (ids : List String)
      → contains id (note_named texts value ids) ≡ contains id ids || names texts id value
  unfolding note_named
  contains-note_named none ids = ground arith
  contains-note_named (some value) ids = ground (arith, contains-note (texts.strip value) ids)

  contains-note_servers :
      (it : Item) (ids : List String)
      → contains id (note_servers texts it ids) ≡ contains id ids || vouches_for_server texts id it
  unfolding note_servers
  contains-note_servers it ids = elim (Option-cases it.arguments) [
    | inl e ↦ ground (arith, e)
    | inr (args, e) ↦ ground (
      arith,
      e,
      contains-note_named args.server ids,
      contains-note_named args.server_id (note_named texts args.server ids),
    )
  ]

  contains-note_argument_uris :
      (it : Item) (ids : List String)
      → contains id (note_argument_uris texts it ids) ≡ contains id ids || names_uri texts id it
  unfolding note_argument_uris
  contains-note_argument_uris it ids = elim (Option-cases it.arguments) [
    | inl e ↦ ground (arith, e)
    | inr (args, e) ↦ ground (
      arith,
      e,
      contains-note_named args.uri ids,
      contains-note_named args.resource_uri (note_named texts args.uri ids),
    )
  ]

  contains-note_tokens :
      (tokens ids : List String)
      → contains id (note_tokens texts tokens ids)
        ≡ contains id ids || any (λ k. looks_like_uri texts k && reads_as texts id k) tokens
  unfolding note_tokens
  contains-note_tokens [] ids = ground arith
  contains-note_tokens (k ∷ tokens) ids = ground (
    arith,
    contains-note k ids,
    contains-note_tokens tokens (if looks_like_uri texts k then note texts k ids else ids),
  )

  contains-note_texts :
      (ts ids : List String)
      → contains id (note_texts texts ts ids) ≡ contains id ids || any (has_token texts id) ts
  unfolding note_texts
  contains-note_texts [] ids = ground arith
  contains-note_texts (t ∷ ts) ids = ground (
    arith,
    contains-note_tokens (texts.uri_tokens t) ids,
    contains-note_texts ts (note_tokens texts (texts.uri_tokens t) ids),
  )

  contains-note_session :
      (n : Option ℕ) (ids : List String)
      → contains id (note_session texts n ids) ≡ contains id ids || counts_session texts id n
  unfolding note_session
  contains-note_session none ids = ground arith
  contains-note_session (some n) ids = ground (arith, contains-note (texts.decimal n) ids)

  harvest_item-Vouched :
      (it : Item) (a : ResourceAuthority)
      → (contains id (harvest_item texts it a).discovered_mcp_servers
          ≡ contains id a.discovered_mcp_servers || vouches_for_server texts id it)
        × (contains id (harvest_item texts it a).discovered_mcp_uris
            ≡ contains id a.discovered_mcp_uris || vouches_for_uri texts id it)
        × (contains id (harvest_item texts it a).observed_runtime_ids
            ≡ contains id a.observed_runtime_ids || vouches_for_id texts id it)
  unfolding harvest_item note_listed_uris
  harvest_item-Vouched it a = (
    contains-note_servers it a.discovered_mcp_servers,
    ground (
      arith,
      contains-note_argument_uris it a.discovered_mcp_uris,
      contains-note_texts it.texts (note_argument_uris texts it a.discovered_mcp_uris),
    ),
    ground (
      arith,
      contains-note_session it.session_id a.observed_runtime_ids,
      contains-note_named it.tool_call_id (note_session texts it.session_id a.observed_runtime_ids),
    ),
  )

  harvest-Vouched :
      (items : List Item) (a : ResourceAuthority)
      → (contains id (harvest texts items a).discovered_mcp_servers
          ≡ contains id a.discovered_mcp_servers || any (vouches_for_server texts id) items)
        × (contains id (harvest texts items a).discovered_mcp_uris
            ≡ contains id a.discovered_mcp_uris || any (vouches_for_uri texts id) items)
        × (contains id (harvest texts items a).observed_runtime_ids
            ≡ contains id a.observed_runtime_ids || any (vouches_for_id texts id) items)
  unfolding harvest
  harvest-Vouched [] a = (ground arith, ground arith, ground arith)
  harvest-Vouched (it ∷ items) a =
      let one = harvest_item-Vouched it a in
      let rest = harvest-Vouched items (harvest_item texts it a) in
      (ground (arith, one.0, rest.0), ground (arith, one.1, rest.1), ground (arith, one.2, rest.2))

any-append : {A : Type 0} (p : A → Bool) (xs ys : List A) → any p (xs ++ ys) ≡ any p xs || any p ys
any-append p [] ys = ground arith
any-append p (x ∷ xs) ys = ground (arith, any-append p xs ys)

abbrev pub reference : String → String → ResourcePolicy → ResourceRef
reference kind value policy = record { kind = kind; value = value; policy = policy }

-- With the authority made of a session, a server is accepted exactly if an item vouches for it, which has
-- succeeded, did not report that nothing was found, and names it among its arguments; a URI exactly if
-- such an item of an MCP tool names it, such an item that lists resources has printed it, or it is a file
-- in the workspace; and a runtime id exactly if an item bears it.
pub check_reference-Vouched :
    (texts : Texts) (executions results : List Item) (roots : List String) (id : String)
    → (check_reference texts
          (reference "mcp_server" id discovered_only)
          (from_session texts executions results roots)
        ≡ any (vouches_for_server texts id) (executions ++ results))
      × (check_reference texts
            (reference "mcp_uri" id discovered_only)
            (from_session texts executions results roots)
          ≡ any (vouches_for_uri texts id) (executions ++ results)
            || file_uri_inside_workspace texts id (from_session texts executions results roots))
      × (check_reference texts
            (reference "runtime_id" id observed_only)
            (from_session texts executions results roots)
          ≡ any (vouches_for_id texts id) (executions ++ results))
unfolding check_reference check_policy is_discovered from_session
check_reference-Vouched texts executions results roots id =
    let fresh : ResourceAuthority = record {
      discovered_mcp_servers = [];
      discovered_mcp_uris = [];
      observed_runtime_ids = [];
      workspace_roots = roots;
      allow_relative_paths = true;
    } in
    let one = harvest-Vouched texts id executions fresh in
    let two = harvest-Vouched texts id results (harvest texts executions fresh) in
    (
      ground (arith, one.0, two.0, any-append (vouches_for_server texts id) executions results),
      ground (arith, one.1, two.1, any-append (vouches_for_uri texts id) executions results),
      ground (arith, one.2, two.2, any-append (vouches_for_id texts id) executions results),
    )
