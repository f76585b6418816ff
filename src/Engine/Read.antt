-- ===== src/Engine/Read.antt =====
-- internal/engine/read.go: List, Search, Show and DeepLoad.
pub mod Entries
pub mod Scoring
pub mod Window
pub mod Search
pub mod Ranking
pub mod Hits
pub mod Exact
pub mod Listing
use diff_mem.Prelude.{
  ℕ, ℤ, pos, negsuc, zero, suc, ◌+◌, Bool, true, false, not, ◌&&◌, ◌||◌, Option, none, some, List,
  [], ◌∷◌, ◌++◌, map, ltb, ◌==◌, if◌then◌else◌, length, drop, take, all, is_some,
}
use diff_mem.Text.{
  Text, lit, slash, text_eq, text_lt, is_empty, has_prefix, contains, trim_slash, trim_prefix,
  split_slash, fields, member, span,
}
use diff_mem.Dict.{Dict, lookup, lookup_or, insert}
use diff_mem.Model.{
  is_archived, is_active, Header, Event, Node, validation_failed, path_not_found, SearchResultEntry,
  EntryType, shown, loaded, listing, hits, ToolResponse, SearchOptions,
}
use diff_mem.Env.{Env, Unicode}
use diff_mem.Validator.{to_lower}
use diff_mem.Links.{node_content_links}
use diff_mem.Store.{Store}
use diff_mem.Engine.{
  Engine, success, fail, path_not_found_at, take_last, did_you_mean, find_referrers,
}
use diff_mem.Engine.Read.Entries.{
  memory_roots, entry_of, insert_entry, sort_entries, is_hidden, root_nodes, child_of, add_child,
  children_of, count_keys, group_entries, aggregate_list,
}
use diff_mem.Engine.Read.Scoring.{
  tag_match, clamp_limit, Scored, ranks_before, insert_ranked, rank, points, keyword_score,
  score_of, result_entry, scored_list,
}

-- The events of a window; `none` for an invalid window.
unfoldable pub window_events : Text → List Event → Option (List Event)
window_events window events =
    if text_eq window (lit "recent")
    then some (take_last events 5)
    else if text_eq window (lit "last_10")
    then some (take_last events 10)
    else if text_eq window (lit "last_50")
    then some (take_last events 50)
    else if text_eq window (lit "last_100")
    then some (take_last events 100)
    else if text_eq window (lit "all")
    then some events
    else none

module _ {Db : Type 0} (st : Store Db) where
  unfoldable pub list_root : Bool → Engine Db → ToolResponse
  unfolding root_nodes
  list_root include_archived e = success (
      listing (slash ∷ [])
        (map (λ r. entry_of r EntryType.group) memory_roots
          ++ root_nodes include_archived (st.all_nodes e.store))
        false)

  unfoldable pub list_children : Text → Bool → Engine Db → ToolResponse
  unfolding children_of
  list_children path include_archived e =
      let base = trim_slash path in
      let entries = children_of base include_archived [] (st.all_nodes e.store) in
      let sorted = sort_entries entries in
      if is_empty entries
      then (if not (st.has_node path e.store)
          then fail path_not_found (path_not_found_at path) (did_you_mean st path e.store)
          else success (listing path [] false))
      else if ltb 50 (length sorted)
      then aggregate_list base sorted (λ x. take 1 (trim_prefix x.path (base ++ slash ∷ [])))
      else success (listing path sorted false)

  unfoldable pub list : Text → Bool → Engine Db → ToolResponse
  unfolding list_root list_children
  list path include_archived e =
      if is_empty path || text_eq path (slash ∷ [])
      then list_root include_archived e
      else list_children path include_archived e

  -- node, ok := GetNode(path), if the node is active
  unfoldable pub active_node : Text → Db → Option Node
  active_node path db = elim (st.get_node path db) [
    | none ↦ none
    | some n ↦ if is_active n.status then some n else none
  ]

  -- The first loop of Search, over the paths under the first tag.
  unfoldable pub tag_results : List Text → List Text → Db → Dict Node → Dict Node
  unfolding active_node
  tag_results required [] db results = results
  tag_results required (p ∷ ps) db results = tag_results required ps db (elim (active_node p db) [
    | none ↦ results
    | some n ↦ if tag_match n.tags required then insert p n results else results
  ])

  -- The loop over the paths under one keyword: a path that is there already stays.
  unfoldable pub keyword_results : List Text → Db → Dict Node → Dict Node
  unfolding active_node
  keyword_results [] db results = results
  keyword_results (p ∷ ps) db results = keyword_results ps db (
      if is_some (lookup p results)
      then results
      else elim (active_node p db) [ none ↦ results | some n ↦ insert p n results ])

  unfoldable pub all_keyword_results : List Text → Dict (List Text) → Db → Dict Node → Dict Node
  unfolding keyword_results
  all_keyword_results [] idx db results = results
  all_keyword_results (kw ∷ kws) idx db results =
      all_keyword_results kws idx db (keyword_results (lookup_or [] kw idx) db results)

  abbrev pub first_tag : List Text → Db → List Text
  first_tag [] db = []
  first_tag (t ∷ ts) db = lookup_or [] t (st.build_tag_index db)

  -- The map `results` of Search.
  unfoldable pub search_results : SearchOptions → Db → Dict Node
  unfolding tag_results all_keyword_results
  search_results opts db =
      let tagged = tag_results opts.tags (first_tag opts.tags db) db [] in
      if is_empty opts.keywords
      then tagged
      else all_keyword_results (fields opts.keywords) (st.build_keyword_index db) db tagged

  unfoldable pub search : Unicode → SearchOptions → Engine Db → ToolResponse
  unfolding search_results scored_list rank
  search u opts e =
      let ranked = rank (scored_list u opts (search_results opts e.store)) in
      success (hits (map result_entry (take (clamp_limit opts.limit) ranked)) (length ranked))

  unfoldable pub show : Env → Text → Engine Db → Engine Db × ToolResponse
  show env path e = elim (st.get_node path e.store) [
    | none ↦ (e, fail path_not_found (path_not_found_at path) [])
    | some n ↦
        let n' : Node = record n {
          header = record n.header { last_accessed = some (env.os.now e.calls) };
        } in
        let e' : Engine Db = record e { store = st.put_node n' e.store; calls = e.calls + 1 } in
        (
          e',
          success (
              shown (record {
                header = n'.header;
                links = node_content_links n';
                backlinks = find_referrers st path path e';
              })),
        )
  ]

  unfoldable pub deep_load : Text → Text → Engine Db → ToolResponse
  unfolding window_events
  deep_load path window e = elim (st.get_node path e.store) [
    | none ↦ fail path_not_found (path_not_found_at path) []
    | some n ↦ elim (window_events window n.events) [
      | none ↦ fail validation_failed (lit "invalid window: " ++ window) []
      | some events ↦ success (
          loaded (record {
            path = path;
            events = events;
            total = n.event_count;
            has_more = ltb (length events) n.event_count;
            links = node_content_links n;
          }))
    ]
  ]
