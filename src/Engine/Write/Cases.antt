-- ===== src/Engine/Write/Cases.antt =====
-- The handlers of write.go by cases: a refusal, or a success with the checks it passed.
use diff_mem.Prelude.{
  ◌+◌, ◌*◌, ◌≡◌, false, none, some, [], ◌∷◌, ◌⊎◌, inl, inr, arith, length, Option-cases,
}
use diff_mem.Text.{lit}
use diff_mem.Text.Laws.{text_eq_iff}
use diff_mem.Model.{
  is_archived, Node, Event, user, ToolResponse, CreateOptions, AppendOptions, UpdateFieldOptions,
  UpdateSummaryOptions, header_of, event_of, fields_of,
}
use diff_mem.Env.{Env}
use diff_mem.Validator.{
  validate_create, validate_append, validate_update_field, validate_update_summary,
}
use diff_mem.Links.{add_links, extract_content_links, node_content_links}
use diff_mem.Store.{Store}
use diff_mem.Engine.{Engine, success, append_event, validate_content_links, new_event}
use diff_mem.Engine.Gate.{validate_content_links-fails}
use diff_mem.Engine.Write.{
  Outcome, replied, is_success, created_node, create, append, field_updated, update_field,
  needs_reason, summary_updated, update_summary,
}

-- The engine is as it was, and the response is a failure.
pub record Refused {Db : Type 0} (e : Engine Db) (r : Engine Db × ToolResponse) : Type 0 where
  pub same : r.0 ≡ e
  pub failed : r.1.success ≡ false

module _ {Db : Type 0} (st : Store Db) (env : Env) where
  -- The event that Append builds.
  abbrev pub appended_event : AppendOptions → Engine Db → Event
  appended_event opts e = new_event env user opts.event ((lit "reason", opts.reason) ∷ []) e.calls

  pub record Created (opts : CreateOptions) (e : Engine Db) : Type 0 where
    pub valid : validate_create env.unicode opts ≡ none
    pub free : st.has_node opts.path e.store ≡ false
    pub linked : validate_content_links st opts.path opts.initial_events e.store ≡ none
    pub result : create st env opts e ≡ (
      record {
        store = st.put_node (created_node env opts e.calls) e.store;
        links = add_links opts.path (node_content_links (created_node env opts e.calls)) e.links;
        calls = e.calls + 4 + 2 * length opts.initial_events;
      },
      success (header_of (created_node env opts e.calls).header),
    )

  pub create-cases :
      (opts : CreateOptions) (e : Engine Db) → Refused e (create st env opts e) ⊎ Created opts e
  unfolding create
  create-cases opts e =
      ground (arith, validate_content_links-fails st opts.path e.store opts.initial_events)

  pub record Appended (opts : AppendOptions) (e : Engine Db) : Type 0 where
    pub valid : validate_append env.unicode opts ≡ none
    pub node : Node
    pub found : st.get_node opts.path e.store ≡ some node
    pub active : is_archived node.status ≡ false
    pub linked : validate_content_links st opts.path (opts.event ∷ []) e.store ≡ none
    pub result : append st env opts e ≡ (
      record {
        store =
            st.put_node
              (append_event (appended_event opts e) (env.os.now (e.calls + 2)) node)
              e.store;
        links = add_links opts.path (extract_content_links opts.event) e.links;
        calls = e.calls + 3;
      },
      success (event_of (appended_event opts e)),
    )

  pub append-cases :
      (opts : AppendOptions) (e : Engine Db) → Refused e (append st env opts e) ⊎ Appended opts e
  unfolding append
  append-cases opts e = elim (Option-cases (st.get_node opts.path e.store)) [
    | inl missing ↦ ground arith
    | inr (node, found) ↦
        ground (arith, validate_content_links-fails st opts.path e.store (opts.event ∷ []))
  ]

  -- The engine is as it was, and the call fails or panics.
  pub record Halted (e : Engine Db) (r : Engine Db × Outcome) : Type 0 where
    pub same : r.0 ≡ e
    pub failed : is_success r.1 ≡ false

  pub record FieldUpdated (opts : UpdateFieldOptions) (e : Engine Db) : Type 0 where
    pub valid : validate_update_field env.unicode opts ≡ none
    pub node : Node
    pub found : st.get_node opts.path e.store ≡ some node
    pub active : is_archived node.status ≡ false
    pub result : update_field st env opts e ≡ (
      record e {
        store = st.put_node (field_updated env opts e.calls node) e.store;
        calls = e.calls + 3;
      },
      replied (success (fields_of (field_updated env opts e.calls node).fields)),
    )

  pub update_field-cases :
      (opts : UpdateFieldOptions) (e : Engine Db)
      → Halted e (update_field st env opts e) ⊎ FieldUpdated opts e
  unfolding update_field
  update_field-cases opts e = ground arith

  pub record SummaryUpdated (opts : UpdateSummaryOptions) (e : Engine Db) : Type 0 where
    pub valid : validate_update_summary env.unicode opts ≡ none
    pub node : Node
    pub found : st.get_node opts.path e.store ≡ some node
    pub active : is_archived node.status ≡ false
    pub matching : node.summary ≡ opts.old_summary
    pub explained : needs_reason env opts.old_summary opts.new_summary opts.reason ≡ false
    pub result : update_summary st env opts e ≡ (
      record e {
        store = st.put_node (summary_updated env opts e.calls node) e.store;
        calls = e.calls + 3;
      },
      success (header_of (summary_updated env opts e.calls node).header),
    )

  pub update_summary-cases :
      (opts : UpdateSummaryOptions) (e : Engine Db)
      → Refused e (update_summary st env opts e) ⊎ SummaryUpdated opts e
  unfolding update_summary
  update_summary-cases opts e = elim (Option-cases (st.get_node opts.path e.store)) [
    | inl missing ↦ ground arith
    | inr (node, found) ↦ ground (arith, text_eq_iff node.summary opts.old_summary)
  ]
