-- ===== src/Engine/Write.antt =====
-- internal/engine/write.go: Create, Append, Update, UpdateField and UpdateSummary.
pub mod Cases
pub mod Writes
pub mod Posts
pub mod Interleaved
use diff_mem.Prelude.{
  ℕ, suc, ◌≡◌, refl, ◌⊎◌, inl, inr, ◌+◌, ◌*◌, Bool, true, false, not, ◌&&◌, ◌||◌, Option, none,
  some, List, [], ◌∷◌, ◌++◌, if◌then◌else◌, length,
}
use diff_mem.Text.{Text, lit, text_eq, is_empty, join, sort}
use diff_mem.Dict.{Dict, lookup_or, insert, keys}
use diff_mem.Model.{
  Status, active, archived, is_archived, Header, Event, EventType, user, field_change,
  summary_update, Node, Code, validation_failed, path_exists, path_not_found, node_archived,
  summary_mismatch, summary_drift_detected, Payload, header_of, event_of, fields_of, ToolResponse,
  CreateOptions, AppendOptions, UpdateOptions, UpdateFieldOptions, UpdateSummaryOptions,
}
use diff_mem.Env.{Env}
use diff_mem.Validator.{
  validate_create, validate_append, validate_update_field, validate_update_summary,
  validate_summary_drift,
}
use diff_mem.Links.{add_links, extract_content_links, node_content_links}
use diff_mem.Entity.{disappeared_entities}
use diff_mem.Store.{Store}
use diff_mem.Engine.{
  Engine, success, fail, path_not_found_at, append_event, validate_content_links, new_event,
}

-- What a call of `Update` or `Exec` comes to; `panicked` is a Go panic, which leaves the state as it is.
pub data Outcome : Type 0 where
  replied : ToolResponse → Outcome
  panicked : Outcome

pub Outcome-cases : (o : Outcome) → ((resp : ToolResponse) × (o ≡ replied resp)) ⊎ (o ≡ panicked)
Outcome-cases (replied resp) = inl (resp, refl)
Outcome-cases panicked = inr refl

abbrev pub drift_message : List Text → ToolResponse
drift_message disappeared =
    fail summary_drift_detected
      (lit "entities disappeared from summary: " ++ join (lit ", ") disappeared)
      (lit "请补充 reason 解释为什么这些实体被移除")

abbrev pub field_options : UpdateOptions → Text → UpdateFieldOptions
field_options opts k = record {
  path = opts.path;
  field = k;
  value = lookup_or [] k opts.fields;
  reason = opts.field_reason;
}

abbrev pub summary_options : UpdateOptions → UpdateSummaryOptions
summary_options opts = record {
  path = opts.path;
  old_summary = opts.old_summary;
  new_summary = opts.new_summary;
  reason = opts.summary_reason;
}

-- `resp.Success`, where there is a response.
abbrev pub is_success : Outcome → Bool
is_success (replied resp) = resp.success
is_success panicked = false

module _ (env : Env) where
  -- The events of the loop over InitialEvents.
  unfoldable pub initial_events : List Text → ℕ → List Event
  unfolding new_event
  initial_events [] c = []
  initial_events (ev ∷ evs) c = new_event env user ev [] c ∷ initial_events evs (c + 2)

  -- The node that Create builds. `CreatedAt` and `UpdatedAt` are two readings of the clock.
  unfoldable pub created_node : CreateOptions → ℕ → Node
  unfolding initial_events
  created_node opts c =
      let first =
        new_event env EventType.create (opts.title ++ (lit ": " ++ opts.summary))
          ((lit "reason", opts.reason) ∷ []) (c + 2) in
      let events = first ∷ initial_events opts.initial_events (c + 4) in
      record {
        header = record {
          path = opts.path;
          title = opts.title;
          status = active;
          tags = opts.tags;
          summary = opts.summary;
          fields = [];
          nil_fields = false;
          created_at = env.os.now c;
          updated_at = env.os.now (c + 1);
          event_count = length events;
          last_accessed = none;
        };
        events = events;
      }

  -- The node after UpdateField.
  unfoldable pub field_updated : UpdateFieldOptions → ℕ → Node → Node
  field_updated opts c node =
      let ev =
        new_event env field_change (lit "field " ++ (opts.field ++ lit " updated"))
          ((lit "field", opts.field)
            ∷ (lit "old", lookup_or [] opts.field node.fields)
            ∷ (lit "new", opts.value)
            ∷ (lit "reason", opts.reason)
            ∷ [])
          (c + 1) in
      append_event ev (env.os.now c) (record node {
        header = record node.header { fields = insert opts.field opts.value node.fields };
      })

  -- needsReason, _ := validator.ValidateSummaryDrift(DisappearedEntities(old, new), reason)
  unfoldable pub needs_reason : Text → Text → Text → Bool
  needs_reason old_summary new_summary reason =
      (validate_summary_drift env.unicode (disappeared_entities old_summary new_summary) reason).0

  -- The node after UpdateSummary.
  unfoldable pub summary_updated : UpdateSummaryOptions → ℕ → Node → Node
  summary_updated opts c node =
      let ev =
        new_event env summary_update (lit "summary updated")
          ((lit "old", opts.old_summary)
            ∷ (lit "new", opts.new_summary)
            ∷ (
              lit "removed_entities",
              join (lit ",") (disappeared_entities opts.old_summary opts.new_summary),
            )
            ∷ (lit "reason", opts.reason)
            ∷ [])
          (c + 1) in
      append_event ev (env.os.now c)
        (record node { header = record node.header { summary = opts.new_summary } })

  -- The checks of Update before any write.
  unfoldable pub check_update : UpdateOptions → Node → Option ToolResponse
  check_update opts node =
      if is_archived node.status
      then some (fail node_archived (lit "node is archived, cannot update") [])
      else if is_empty opts.fields && is_empty opts.new_summary
      then some (fail validation_failed (lit "update requires fields and/or summary") [])
      else if is_empty opts.new_summary
      then none
      else if not (text_eq node.summary opts.old_summary)
      then some (fail summary_mismatch (lit "old_summary does not match current summary") [])
      else if needs_reason opts.old_summary opts.new_summary opts.summary_reason
      then some (drift_message (disappeared_entities opts.old_summary opts.new_summary))
      else none

module _ {Db : Type 0} (st : Store Db) (env : Env) where
  unfoldable pub create : CreateOptions → Engine Db → Engine Db × ToolResponse
  create opts e = elim (validate_create env.unicode opts) [
    | some m ↦ (e, fail validation_failed m [])
    | none ↦
        if st.has_node opts.path e.store
        then (
          e,
          fail path_exists (lit "path already exists: " ++ opts.path)
              (lit "use diff_mem_show to inspect existing node"),
        )
        else elim (validate_content_links st opts.path opts.initial_events e.store) [
          | some resp ↦ (e, resp)
          | none ↦
              let node = created_node env opts e.calls in
              (
                record {
                  store = st.put_node node e.store;
                  links = add_links opts.path (node_content_links node) e.links;
                  calls = e.calls + 4 + 2 * length opts.initial_events;
                },
                success (header_of node.header),
              )
        ]
  ]

  unfoldable pub append : AppendOptions → Engine Db → Engine Db × ToolResponse
  append opts e = elim (validate_append env.unicode opts) [
    | some m ↦ (e, fail validation_failed m [])
    | none ↦ elim (st.get_node opts.path e.store) [
      | none ↦ (e, fail path_not_found (path_not_found_at opts.path) [])
      | some node ↦
          if is_archived node.status
          then (e, fail node_archived (lit "node is archived, cannot append events") [])
          else elim (validate_content_links st opts.path (opts.event ∷ []) e.store) [
            | some resp ↦ (e, resp)
            | none ↦
                let ev = new_event env user opts.event ((lit "reason", opts.reason) ∷ []) e.calls in
                (
                  record {
                    store = st.put_node (append_event ev (env.os.now (e.calls + 2)) node) e.store;
                    links = add_links opts.path (extract_content_links opts.event) e.links;
                    calls = e.calls + 3;
                  },
                  success (event_of ev),
                )
          ]
    ]
  ]

  unfoldable pub update_field : UpdateFieldOptions → Engine Db → Engine Db × Outcome
  update_field opts e = elim (validate_update_field env.unicode opts) [
    | some m ↦ (e, replied (fail validation_failed m []))
    | none ↦ elim (st.get_node opts.path e.store) [
      | none ↦ (e, replied (fail path_not_found (path_not_found_at opts.path) []))
      | some node ↦
          if is_archived node.status
          then (e, replied (fail node_archived (lit "node is archived, cannot update fields") []))
          else if node.nil_fields
          then (e, panicked)
          else let node' = field_updated env opts e.calls node in
            (
              record e { store = st.put_node node' e.store; calls = e.calls + 3 },
              replied (success (fields_of node'.fields)),
            )
    ]
  ]

  unfoldable pub update_summary : UpdateSummaryOptions → Engine Db → Engine Db × ToolResponse
  update_summary opts e = elim (validate_update_summary env.unicode opts) [
    | some m ↦ (e, fail validation_failed m [])
    | none ↦ elim (st.get_node opts.path e.store) [
      | none ↦ (e, fail path_not_found (path_not_found_at opts.path) [])
      | some node ↦
          if is_archived node.status
          then (e, fail node_archived (lit "node is archived, cannot update summary") [])
          else if not (text_eq node.summary opts.old_summary)
          then (e, fail summary_mismatch (lit "old_summary does not match current summary") [])
          else if needs_reason env opts.old_summary opts.new_summary opts.reason
          then (e, drift_message (disappeared_entities opts.old_summary opts.new_summary))
          else let node' = summary_updated env opts e.calls node in
            (
              record e { store = st.put_node node' e.store; calls = e.calls + 3 },
              success (header_of node'.header),
            )
    ]
  ]

  -- The loop over the sorted keys, which ends at the first failure or panic.
  unfoldable pub apply_fields : UpdateOptions → List Text → Engine Db → Engine Db × Option Outcome
  apply_fields opts [] e = (e, none)
  apply_fields opts (k ∷ ks) e =
      let (e', o) = update_field (field_options opts k) e in
      let rest = apply_fields opts ks e' in if is_success o then rest else (e', some o)

  -- What Update does once the fields are applied.
  unfoldable pub finish_update : UpdateOptions → Engine Db → Engine Db × Outcome
  finish_update opts e =
      if is_empty opts.new_summary
      then elim (st.get_node opts.path e.store) [
        | none ↦ (e, panicked)
        | some n ↦ (e, replied (success (header_of n.header)))
      ]
      else let (e', resp) = update_summary (summary_options opts) e in (e', replied resp)

  unfoldable pub update : UpdateOptions → Engine Db → Engine Db × Outcome
  unfolding finish_update
  update opts e = elim (st.get_node opts.path e.store) [
    | none ↦ (e, replied (fail path_not_found (path_not_found_at opts.path) []))
    | some node ↦ elim (check_update env opts node) [
      | some resp ↦ (e, replied resp)
      | none ↦
          let (e', stopped) = apply_fields opts (sort (keys opts.fields)) e in
          elim stopped [ some o ↦ (e', o) | none ↦ finish_update opts e' ]
    ]
  ]
