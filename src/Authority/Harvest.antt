-- ===== src/Authority/Harvest.antt =====
-- gateway/src/dgx_moa/actions/resources.py: what a session's items authorise.
use mo_e_mo_a_integrated_com.Authority.{
  is_blank, note, is_trusted, lists_resources, is_mcp_tool, looks_like_uri, Texts,
  ResourceAuthority, Item,
}
use mo_e_mo_a_integrated_com.Base.{
  ℕ, String, true, ◌&&◌, Option, none, some, List, [], ◌∷◌, leb, if◌then◌else◌,
}

-- if isinstance(value, str) and value.strip(): note(value.strip())
unfoldable pub note_named : Texts → Option String → List String → List String
unfolding note
note_named texts none ids = ids
note_named texts (some value) ids =
    if is_blank (texts.strip value) then ids else note texts (texts.strip value) ids

unfoldable pub note_servers : Texts → Item → List String → List String
unfolding note_named is_trusted
note_servers texts it ids = elim it.arguments [
  | none ↦ ids
  | some args ↦
      if is_trusted texts it
      then note_named texts args.server_id (note_named texts args.server ids)
      else ids
]

-- A URI among the arguments counts only for an MCP tool.
unfoldable pub note_argument_uris : Texts → Item → List String → List String
unfolding note_named is_trusted is_mcp_tool
note_argument_uris texts it ids = elim it.arguments [
  | none ↦ ids
  | some args ↦
      if is_trusted texts it && is_mcp_tool texts it
      then note_named texts args.resource_uri (note_named texts args.uri ids)
      else ids
]

unfoldable pub note_tokens : Texts → List String → List String → List String
unfolding note looks_like_uri
note_tokens texts [] ids = ids
note_tokens texts (token ∷ tokens) ids =
    note_tokens texts tokens (if looks_like_uri texts token then note texts token ids else ids)

unfoldable pub note_texts : Texts → List String → List String → List String
unfolding note_tokens
note_texts texts [] ids = ids
note_texts texts (t ∷ ts) ids = note_texts texts ts (note_tokens texts (texts.uri_tokens t) ids)

-- The URIs in what a listing of resources has printed.
unfoldable pub note_listed_uris : Texts → Item → List String → List String
unfolding note_texts is_trusted
note_listed_uris texts it ids =
    if lists_resources it && is_trusted texts it then note_texts texts it.texts ids else ids

unfoldable pub note_session : Texts → Option ℕ → List String → List String
unfolding note
note_session texts none ids = ids
note_session texts (some n) ids = if leb 1 n then note texts (texts.decimal n) ids else ids

-- ResourceAuthority._harvest_item
unfoldable pub harvest_item : Texts → Item → ResourceAuthority → ResourceAuthority
unfolding note_servers note_argument_uris note_listed_uris note_session note_named
harvest_item texts it a = record a {
  discovered_mcp_servers = note_servers texts it a.discovered_mcp_servers;
  discovered_mcp_uris =
      note_listed_uris texts it (note_argument_uris texts it a.discovered_mcp_uris);
  observed_runtime_ids =
      note_named texts it.tool_call_id (note_session texts it.session_id a.observed_runtime_ids);
}

unfoldable pub harvest : Texts → List Item → ResourceAuthority → ResourceAuthority
unfolding harvest_item
harvest texts [] a = a
harvest texts (it ∷ items) a = harvest texts items (harvest_item texts it a)

-- ResourceAuthority.from_session, of the executions and the results of a session
unfoldable pub from_session : Texts → List Item → List Item → List String → ResourceAuthority
unfolding harvest
from_session texts executions results roots = harvest texts results (
    harvest texts executions (record {
      discovered_mcp_servers = [];
      discovered_mcp_uris = [];
      observed_runtime_ids = [];
      workspace_roots = roots;
      allow_relative_paths = true;
    }))
