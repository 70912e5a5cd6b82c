-- ===== src/Authority.antt =====
-- gateway/src/dgx_moa/actions/resources.py: which resources an action may name.
pub mod Harvest
pub mod Vouched
mod Tests
use mo_e_mo_a_integrated_com.Base.{
  ℕ, zero, suc, ◌+◌, ◌-◌, ◌*◌, ◌≤◌, ◌<◌, min, max, String, ◌==◌, eq_iff, eq_refl, ◌≡◌, refl, sym,
  ap, ◌∙◌, subst, ◌≢◌, ◌↔◌, ◌⊎◌, inl, inr, Bool, true, false, not, ◌&&◌, ◌||◌, Option, none, some,
  List, [], ◌∷◌, ◌++◌, map, arith, ltb, leb, eqb, if◌then◌else◌, ltb→lt, leb→le, Bool-cases,
  is_some, get_or, Option-cases, map_some, length, keep_if, any, all, is_empty, All, length-append,
  nonempty-keep_if, length-keep_if, first, append_nil, append_assoc, codes, joined, contains, dedup,
  contains-dedup, NoDup, contains-append_one, append_one-NoDup, contains-keep_ne, keep_ne-NoDup,
  string_same, string_apart, joined_not_blank, text_joined_not_blank,
}

-- The methods of Python's str, posixpath.normpath and urllib.parse that the module calls. `uri_parts` is
-- urlsplit: the scheme, the host and the path, none where it raises; `uri_tokens` are the words of a text,
-- its commas read as blanks, without the blanks, quotes and brackets around them.
pub record Texts : Type 0 where
  pub strip : String → String
  pub lower : String → String
  pub without_file_scheme : String → String
  pub without_last_slashes : String → String
  pub starts_with : String → String → Bool
  pub holds : String → String → Bool
  pub has_parent : String → Bool
  pub normpath : String → String
  pub unquote : String → String
  pub uri_parts : String → Option (String × String × String)
  pub uri_tokens : String → List String
  pub decimal : ℕ → String

pub record ResourceAuthority : Type 0 where
  pub discovered_mcp_servers : List String
  pub discovered_mcp_uris : List String
  pub observed_runtime_ids : List String
  pub workspace_roots : List String
  pub allow_relative_paths : Bool

abbrev pub is_blank : String → Bool
is_blank t = is_empty (codes t)

-- A text that is not blank joins the set.
unfoldable pub note : Texts → String → List String → List String
note texts value ids =
    if is_blank (texts.strip value) || contains (texts.strip value) ids
    then ids
    else ids ++ texts.strip value ∷ []

-- ResourceAuthority.note_discovered_server
unfoldable pub note_discovered_server : Texts → String → ResourceAuthority → ResourceAuthority
unfolding note
note_discovered_server texts server a = record a {
  discovered_mcp_servers = note texts server a.discovered_mcp_servers;
}

-- ResourceAuthority.note_discovered_uri
unfoldable pub note_discovered_uri : Texts → String → ResourceAuthority → ResourceAuthority
unfolding note
note_discovered_uri texts uri a = record a {
  discovered_mcp_uris = note texts uri a.discovered_mcp_uris;
}

-- ResourceAuthority.note_observed_id
unfoldable pub note_observed_id : Texts → String → ResourceAuthority → ResourceAuthority
unfolding note
note_observed_id texts id a = record a {
  observed_runtime_ids = note texts id a.observed_runtime_ids;
}

-- _normalize_path
unfoldable pub normalize_path : Texts → String → String
normalize_path texts value =
    let text = texts.without_file_scheme (texts.strip value) in
    if texts.starts_with "/" text then texts.normpath text else text

-- The root, without its slashes at the end, or a path below it.
unfoldable pub is_under : Texts → String → String → Bool
is_under texts path root =
    let cleaned = texts.without_last_slashes (texts.strip root) in
    not (is_blank cleaned) && (path == cleaned || texts.starts_with (joined cleaned "/") path)

-- ResourceAuthority._workspace_allows
unfoldable pub workspace_allows : Texts → String → ResourceAuthority → Bool
unfolding normalize_path is_under
workspace_allows texts raw_path a =
    let text = texts.without_file_scheme (texts.strip raw_path) in
    if is_blank text || texts.holds "\n" text || texts.holds "\0" text
    then false
    else if texts.starts_with "/" text
    then any (is_under texts (normalize_path texts text)) a.workspace_roots
    else if texts.starts_with "~" text || texts.has_parent text
    then false
    else a.allow_relative_paths

-- ResourceAuthority._file_uri_inside_workspace
unfoldable pub file_uri_inside_workspace : Texts → String → ResourceAuthority → Bool
unfolding workspace_allows
file_uri_inside_workspace texts uri a = elim (texts.uri_parts uri) [
  | none ↦ false
  | some (scheme, host, path) ↦
      let is_file = scheme == "file" in
      let target = if is_file then texts.unquote path else uri in
      (is_file || is_blank scheme)
      && (not is_file || is_blank host || host == "localhost")
      && texts.starts_with "/" target
      && workspace_allows texts target a
]

pub data ResourcePolicy : Type 0 where
  discovered_only observed_only workspace_bounded unknown_policy : ResourcePolicy

pub record ResourceRef : Type 0 where
  pub kind : String
  pub value : String
  pub policy : ResourcePolicy

-- ResourceAuthority.check_reference, of a resource that must have been discovered
unfoldable pub is_discovered : Texts → ResourceRef → ResourceAuthority → Bool
unfolding file_uri_inside_workspace
is_discovered texts ref a =
    if ref.kind == "mcp_server"
    then contains ref.value a.discovered_mcp_servers
    else if ref.kind == "mcp_uri"
    then contains ref.value a.discovered_mcp_uris || file_uri_inside_workspace texts ref.value a
    else false

-- ResourceAuthority.check_reference, without the text of a refusal
unfoldable pub check_policy : Texts → ResourcePolicy → ResourceRef → ResourceAuthority → Bool
unfolding is_discovered workspace_allows
check_policy texts discovered_only ref a = is_discovered texts ref a
check_policy texts observed_only ref a = contains ref.value a.observed_runtime_ids
check_policy texts workspace_bounded ref a = workspace_allows texts ref.value a
check_policy texts unknown_policy ref a = false

unfoldable pub check_reference : Texts → ResourceRef → ResourceAuthority → Bool
unfolding check_policy
check_reference texts ref a = check_policy texts ref.policy ref a

-- ResourceAuthority.check, of the references of an action
unfoldable pub check : Texts → List ResourceRef → ResourceAuthority → Bool
unfolding check_reference
check texts refs a = all (λ ref. check_reference texts ref a) refs

-- What is read of an item of a session: its texts that are not empty, in the order of their keys, whether
-- its exit code is 0 or missing, whether it bears an error, and its arguments, if these are a mapping.
pub record Arguments : Type 0 where
  pub server : Option String
  pub server_id : Option String
  pub uri : Option String
  pub resource_uri : Option String

pub record Item : Type 0 where
  pub texts : List String
  pub exits_zero : Bool
  pub has_error : Bool
  pub tool_name : String
  pub arguments : Option Arguments
  pub session_id : Option ℕ
  pub tool_call_id : Option String

abbrev pub spaced : List String → String
spaced [] = ""
spaced (t ∷ []) = t
spaced (t ∷ u ∷ ts) = joined t (joined " " (spaced (u ∷ ts)))

unfoldable pub failed_discovery : Texts → Item → Bool
failed_discovery texts it =
    let text = texts.lower (spaced it.texts) in
    any (λ marker. texts.holds marker text)
      ("unknown mcp server" ∷ "resources/read failed" ∷ "not found" ∷ "no such" ∷ [])

-- The item succeeded, and does not report that nothing was found.
unfoldable pub is_trusted : Texts → Item → Bool
unfolding failed_discovery
is_trusted texts it = it.exits_zero && not it.has_error && not (failed_discovery texts it)

abbrev pub lists_resources : Item → Bool
lists_resources it =
    it.tool_name == "list_mcp_resources" || it.tool_name == "list_mcp_resource_templates"

unfoldable pub is_mcp_tool : Texts → Item → Bool
is_mcp_tool texts it =
    lists_resources it
    || it.tool_name == "read_mcp_resource"
    || texts.holds "mcp" (texts.lower it.tool_name)

unfoldable pub looks_like_uri : Texts → String → Bool
looks_like_uri texts token =
    texts.starts_with "file://" token
    || texts.starts_with "mcp://" token
    || texts.starts_with "resource://" token
    || (texts.holds "/" token && texts.holds "." token && ltb (length (codes token)) 256)
