-- ===== src/Tests/Sample.antt =====
-- A sample environment and sample engines.
use diff_mem.Prelude.{ℤ, ◌+◌, refl, ◌&&◌, ◌||◌, some, [], ◌∷◌, leb, if◌then◌else◌}
use diff_mem.Text.{
  Text, lit, text_eq, text_lt, byte_length, has_prefix, has_suffix, contains, trim_slash,
  trim_prefix, split_slash, join, trim_space, fields, push_all, push_new, span, sort, runs_from,
}
use diff_mem.Dict.{lookup, insert, remove, keys}
use diff_mem.Model.{Node, CreateOptions, ArchiveOptions}
use diff_mem.Env.{Os, Unicode, Codec, RoundTrips, Env}
use diff_mem.Validator.{
  is_blank, first_segment, field_re, is_path_rune, check_runes, check_segments, check_depth,
  validate_path, validate_create, validate_append, validate_update_field, validate_update_summary,
  validate_archive, validate_summary_drift,
}
use diff_mem.Params.{
  Params, str, obj, Members, end, members, string_at, strings, extract_create, extract_archive,
  extract_lifecycle,
}
use diff_mem.Paths.{normalize_path}
use diff_mem.Links.{
  empty_index, extract_content_links, node_content_links, is_self_or_ancestor, add_links,
  remove_node, referrers_of,
}
use diff_mem.Entity.{disappeared_entities}
use diff_mem.Store.Memory.{
  MemoryStore, new_memory_store, get_node, put_node, delete_node, has_node, build_tag_index,
  build_keyword_index, all_nodes,
}
use diff_mem.Store.Memory.Laws.{memory}
use diff_mem.Engine.{
  Engine, new_engine, take_last, append_event, add_all_links, validate_content_links,
  find_referrers, new_event,
}
use diff_mem.Engine.Write.{
  created_node, create, append, field_updated, update_field, needs_reason, summary_updated,
  update_summary, check_update, apply_fields, update,
}
use diff_mem.Engine.Dispatch.{lifecycle, dispatch}
use diff_mem.Engine.Exec.{
  itoa_from, check_operations, clone_node, clone_nodes, delete_others, put_back, restore_snapshot,
  exec_operation, exec_loop, exec,
}
use diff_mem.Engine.Lifecycle.{
  victims_of, outside_referrers, remove_victims, delete, status_changed, archive,
  dangling_outbound_links, restore,
}

-- Every function that a run calls.
unfoldable pub code : Unit {0}
unfolding lit text_eq text_lt byte_length has_prefix has_suffix contains trim_slash trim_prefix
    split_slash join trim_space fields push_all push_new span sort runs_from lookup insert remove
    keys is_blank first_segment field_re is_path_rune check_runes check_segments check_depth
    validate_path validate_create validate_append validate_update_field validate_update_summary
    validate_archive validate_summary_drift normalize_path extract_content_links node_content_links
    is_self_or_ancestor add_links remove_node referrers_of disappeared_entities get_node put_node
    delete_node has_node build_tag_index build_keyword_index all_nodes new_engine take_last
    append_event add_all_links validate_content_links find_referrers new_event created_node create
    append field_updated update_field needs_reason summary_updated update_summary check_update
    apply_fields update victims_of outside_referrers remove_victims delete status_changed archive
    dangling_outbound_links restore members string_at strings extract_create extract_archive
    extract_lifecycle lifecycle dispatch itoa_from check_operations clone_node clone_nodes
    delete_others put_back restore_snapshot exec_operation exec_loop exec
code = tt

-- ASCII letters and digits.
abbrev pub ascii : Unicode
ascii = record {
  is_letter = λ r. (leb b'a' r && leb r b'z') || (leb b'A' r && leb r b'Z');
  is_digit = λ r. leb b'0' r && leb r b'9';
  to_lower = λ r. if leb b'A' r && leb r b'Z' then r + 32 else r;
}

abbrev pub ticking : Os
ticking = record { now = λ k. k; new_uuid = λ k. k ∷ [] }

-- A codec whose bytes are the nodes themselves.
abbrev pub copying : Codec
copying = record { Bytes = Node; marshal = λ n. some n; unmarshal = λ n. some n }

pub copying-RoundTrips : RoundTrips copying
copying-RoundTrips = record { encode = λ n. n; encodes = λ n. refl; decodes = λ n. refl }

abbrev pub sample : Env
sample = record {
  os = ticking;
  unicode = ascii;
  codec = copying;
  int_of_float = λ n. ℤ.negsuc 9223372036854775807;
}

abbrev pub empty : Engine MemoryStore
empty = record { store = new_memory_store; links = empty_index; calls = 0 }

abbrev pub alpha : Text
alpha = lit "/long-term/alpha"

abbrev pub beta : Text
beta = lit "/long-term/beta"

abbrev pub note : Text → Text → CreateOptions
note path event = record {
  path = path;
  title = lit "t";
  summary = lit "s";
  tags = lit "x" ∷ [];
  initial_events = event ∷ [];
  reason = lit "r";
}

abbrev pub with_alpha : Engine MemoryStore
with_alpha = (create memory sample (note alpha (lit "hello")) empty).0

-- `beta` links to `alpha`.
abbrev pub with_both : Engine MemoryStore
with_both = (create memory sample (note beta (lit "see [[/long-term/alpha]]")) with_alpha).0

abbrev pub at : Text → ArchiveOptions
at path = record { path = path; reason = lit "r" }

-- The parameters of `lifecycle`, for a deletion.
abbrev pub deletion_of : Text → Params
deletion_of path =
    (lit "action", str (lit "delete")) ∷ (lit "path", str path) ∷ (lit "reason", str (lit "r")) ∷ []

-- An operation of a transaction on `path`.
abbrev pub operation : Text → Text → Params
operation name path =
    (lit "op", str name)
    ∷ (
      lit "params",
      obj (
          Members.member (lit "path") (str path) (
            Members.member (lit "title") (str (lit "t")) (
              Members.member (lit "summary") (str (lit "s"))
                (Members.member (lit "reason") (str (lit "r")) end)))),
    )
    ∷ []

abbrev pub creation : Params
creation = operation (lit "CREATE") (lit "/long-term/gamma")

-- Archives a node that is not there.
abbrev pub failing : Params
failing = operation (lit "ARCHIVE") (lit "/long-term/none")

-- An UPDATE_FIELD without a "field".
abbrev pub crashing : Params
crashing = operation (lit "UPDATE_FIELD") alpha
