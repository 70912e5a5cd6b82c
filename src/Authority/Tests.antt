-- ===== src/Authority/Tests.antt =====
-- Runs of gateway/src/dgx_moa/actions/resources.py on small inputs.
use mo_e_mo_a_integrated_com.Authority.{
  note, file_uri_inside_workspace, is_discovered, check_policy, check_reference, failed_discovery,
  is_trusted, is_mcp_tool, looks_like_uri, Texts, Item, discovered_only, observed_only,
}
use mo_e_mo_a_integrated_com.Authority.Harvest.{
  note_named, note_servers, note_argument_uris, note_tokens, note_texts, note_listed_uris,
  note_session, harvest_item, harvest, from_session,
}
use mo_e_mo_a_integrated_com.Authority.Vouched.{
  vouches_for_server, vouches_for_uri, vouches_for_id, reference, check_reference-Vouched,
}
use mo_e_mo_a_integrated_com.Base.{
  String, ◌==◌, ◌≡◌, refl, true, false, ◌||◌, none, some, [], ◌∷◌, any,
}

abbrev plain : Texts
plain = record {
  strip = λ t. t;
  lower = λ t. t;
  without_file_scheme = λ t. t;
  without_last_slashes = λ t. t;
  starts_with = λ start t. start == t;
  holds = λ part t. part == t;
  has_parent = λ t. false;
  normpath = λ t. t;
  unquote = λ t. t;
  uri_parts = λ t. none;
  uri_tokens = λ t. t ∷ [];
  decimal = λ n. "1";
}

abbrev reading : String → Item
reading tool_name = record {
  texts = [];
  exits_zero = true;
  has_error = false;
  tool_name = tool_name;
  arguments = some (record {
    server = some "docs";
    server_id = none;
    uri = some "mcp://docs/a";
    resource_uri = none;
  });
  session_id = none;
  tool_call_id = none;
}

check_reference-Vouched_example :
    (check_reference plain
        (reference "mcp_server" "docs" discovered_only)
        (from_session plain (reading "read_mcp_resource" ∷ []) [] [])
      ≡ any (vouches_for_server plain "docs") (reading "read_mcp_resource" ∷ []))
    × (check_reference plain
          (reference "mcp_uri" "docs" discovered_only)
          (from_session plain (reading "read_mcp_resource" ∷ []) [] [])
        ≡ any (vouches_for_uri plain "docs") (reading "read_mcp_resource" ∷ [])
          || file_uri_inside_workspace plain "docs"
              (from_session plain (reading "read_mcp_resource" ∷ []) [] []))
    × (check_reference plain
          (reference "runtime_id" "docs" observed_only)
          (from_session plain (reading "read_mcp_resource" ∷ []) [] [])
        ≡ any (vouches_for_id plain "docs") (reading "read_mcp_resource" ∷ []))
check_reference-Vouched_example =
    check_reference-Vouched plain (reading "read_mcp_resource" ∷ []) [] [] "docs"

-- A URI that a tool other than MCP's was given is not discovered, nor is its file in no workspace.
guessed :
    (check_reference plain
        (reference "mcp_uri" "mcp://docs/a" discovered_only)
        (from_session plain (reading "read_mcp_resource" ∷ []) [] [])
      ≡ true)
    × (check_reference plain
          (reference "mcp_uri" "mcp://docs/a" discovered_only)
          (from_session plain (reading "custom" ∷ []) [] [])
        ≡ false)
unfolding check_reference check_policy is_discovered from_session harvest harvest_item note_servers
    note_argument_uris note_listed_uris note_session note_named note note_texts note_tokens
    is_trusted is_mcp_tool failed_discovery file_uri_inside_workspace looks_like_uri
guessed = (refl, refl)
