-- ===== src/Engine.antt =====
-- internal/engine: the state of the engine, its responses, and the link gate of links.go.
pub mod Write
pub mod Lifecycle
pub mod Read
pub mod Dispatch
pub mod Exec
pub mod Effect
pub mod Gate
pub mod Update
pub mod Tools
pub mod Frozen
pub mod Archived
pub mod Consistent
pub mod Guard
pub mod Index
pub mod Drift
use diff_mem.Prelude.{
  ℕ, suc, ◌+◌, ◌-◌, Bool, true, false, not, ◌&&◌, ◌||◌, Option, none, some, List, [], ◌∷◌, ◌++◌,
  map, if◌then◌else◌, length, drop, take, any, select,
}
use diff_mem.Text.{
  Text, lit, slash, text_eq, is_empty, has_prefix, contains, trim_slash, split_slash, join, member,
  push_new, push_all,
}
use diff_mem.Model.{
  Status, active, is_active, Time, Header, Event, EventType, Node, Code, link_target_invalid,
  link_target_not_found, Payload, ToolResponse,
}
use diff_mem.Dict.{Dict}
use diff_mem.Env.{Env}
use diff_mem.Links.{
  LinkIndex, empty_index, add_links, extract_content_links, node_content_links, is_self_or_ancestor,
  referrers_of,
}
use diff_mem.Store.{Store, paths}

-- `calls` counts the calls of the clock and of the uuid generator.
pub record Engine (Db : Type 0) : Type 0 where
  pub store : Db
  pub links : LinkIndex
  pub calls : ℕ

abbrev pub success : Payload → ToolResponse
success result = record { success = true; result = some result; warning = []; error = none }

abbrev pub fail : Code → Text → Text → ToolResponse
fail code message suggestion = record {
  success = false;
  result = none;
  warning = [];
  error = some (record { code = code; message = message; suggestion = suggestion });
}

abbrev pub path_not_found_at : Text → Text
path_not_found_at path = lit "path not found: " ++ path

-- takeLast
unfoldable pub take_last : List Event → ℕ → List Event
take_last events n = drop (length events - n) events

-- node.Events = append(node.Events, ev); EventCount and UpdatedAt follow.
unfoldable pub append_event : Event → Time → Node → Node
append_event ev now node = record node {
  header = record node.header { event_count = length (node.events ++ ev ∷ []); updated_at = now };
  events = node.events ++ ev ∷ [];
}

unfoldable pub add_all_links : List Node → LinkIndex → LinkIndex
add_all_links [] idx = idx
add_all_links (n ∷ ns) idx = add_all_links ns (add_links n.path (node_content_links n) idx)

-- The text after the last "/".
unfoldable pub last_segment : List Text → Text
last_segment [] = []
last_segment (w ∷ []) = w
last_segment (w ∷ v ∷ ws) = last_segment (v ∷ ws)

unfoldable pub all_targets : List Text → List Text
all_targets [] = []
all_targets (c ∷ cs) = extract_content_links c ++ all_targets cs

module _ (env : Env) where
  -- model.Event{ID: uuid.NewString(), …, Timestamp: time.Now()}, from call number `c`
  unfoldable pub new_event : EventType → Text → Dict Text → ℕ → Event
  new_event type content meta c = record {
    id = env.os.new_uuid c;
    type = type;
    content = content;
    meta = meta;
    timestamp = env.os.now (c + 1);
  }

module _ {Db : Type 0} (st : Store Db) where
  -- New
  unfoldable pub new_engine : Db → Engine Db
  unfolding add_all_links
  new_engine db = record {
    store = db;
    links = add_all_links (st.all_nodes db) empty_index;
    calls = 0;
  }

  unfoldable pub is_virtual_dir : Text → Db → Bool
  is_virtual_dir path db =
      any (λ n. has_prefix n.path (trim_slash path ++ slash ∷ [])) (st.all_nodes db)

  unfoldable pub did_you_mean : Text → Db → Text
  unfolding last_segment
  did_you_mean target db =
      let last_seg = last_segment (split_slash target) in
      let hits = take 3 (select (λ p. contains p last_seg) (paths (st.all_nodes db))) in
      if is_empty last_seg || is_empty hits then [] else lit "你可能想链接：" ++ join (lit "、") hits

  -- What one target needs to pass the gate.
  unfoldable pub resolves : Text → Text → Db → Bool
  unfolding is_virtual_dir
  resolves self target db =
      is_self_or_ancestor target self || st.has_node target db || is_virtual_dir target db

  -- The loops of validateContentLinks, over the targets of all contents.
  unfoldable pub gate_targets : Text → Db → List Text → List Text → Option ToolResponse
  unfolding resolves
  gate_targets self db seen [] = none
  gate_targets self db seen (t ∷ ts) =
      let rest = gate_targets self db (t ∷ seen) ts in
      let again = gate_targets self db seen ts in
      if member t seen
      then again
      else if not (has_prefix t (slash ∷ []))
      then some (
          fail link_target_invalid
            (lit "content link [[" ++ (t ++ lit "]] must be a memory path starting with /"))
            (lit "内容链接格式：[[/path/to/node]]"))
      else if resolves self t db
      then rest
      else some (
          fail link_target_not_found (lit "content link target does not exist: " ++ t)
            (did_you_mean t db))

  unfoldable pub validate_content_links : Text → List Text → Db → Option ToolResponse
  unfolding gate_targets all_targets
  validate_content_links self contents db = gate_targets self db [] (all_targets contents)

  -- The node is there and active.
  unfoldable pub is_active_at : Text → Db → Bool
  is_active_at path db = elim (st.get_node path db) [ none ↦ false | some n ↦ is_active n.status ]

  unfoldable pub find_referrers : Text → Text → Engine Db → List Text
  unfolding is_active_at
  find_referrers target exclude e =
      select (λ r. not (text_eq r exclude) && is_active_at r e.store) (referrers_of target e.links)
