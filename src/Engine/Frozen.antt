-- ===== src/Engine/Frozen.antt =====
-- Writes to an archived node, and Archive followed by Restore.
use diff_mem.Prelude.{
  ℕ, ◌+◌, ◌≡◌, refl, Bool, true, false, Option, none, some, [], ◌∷◌, ◌++◌, arith, if◌then◌else◌,
  append_assoc,
}
use diff_mem.Text.{Text, lit}
use diff_mem.Text.Laws.{text_eq_iff}
use diff_mem.Model.{
  active, archived, EventType, Event, Node, ToolResponse, Code, node_archived,
  node_already_archived, validation_failed, AppendOptions, UpdateOptions, ArchiveOptions,
}
use diff_mem.Env.{Env}
use diff_mem.Validator.{validate_append, validate_archive}
use diff_mem.Store.{Store, IsStore}
use diff_mem.Engine.{Engine, fail, append_event, new_event}
use diff_mem.Engine.Write.{replied, append, update, check_update}
use diff_mem.Engine.Lifecycle.{archive, restore, archived_node, restored_node, status_changed}
use diff_mem.Engine.Write.Writes.{IsKeyed}

-- The code of a response; `none` for a success.
abbrev pub code_of : ToolResponse → Option Code
code_of r = elim r.error [ none ↦ none | some info ↦ some info.code ]

abbrev pub is_none : Option Text → Bool
is_none none = true
is_none (some m) = false

module _ {Db : Type 0} (st : Store Db) (env : Env) where
  -- The engine is as it was, and the response is a failure with one of two codes.
  pub record IsRefusal (valid : Bool) (code : Code) (e : Engine Db) (r : Engine Db × ToolResponse)
      : Type 0 where
    pub same : r.0 ≡ e
    pub failed : r.1.success ≡ false
    pub answers : code_of r.1 ≡ some (if valid then code else validation_failed)

  -- Append to an archived node changes nothing, and is refused with NODE_ARCHIVED if the options are
  -- valid.
  pub append-archived :
      (opts : AppendOptions) (e : Engine Db) (n : Node)
      → st.get_node opts.path e.store ≡ some n
      → n.status ≡ archived
      → IsRefusal
          (is_none (validate_append env.unicode opts))
          node_archived
          e
          (append st env opts e)
  unfolding append
  append-archived opts e n found frozen = ground arith

  -- Archiving an archived node changes nothing, and is refused with NODE_ALREADY_ARCHIVED if the
  -- options are valid.
  pub archive-archived :
      (opts : ArchiveOptions) (e : Engine Db) (n : Node)
      → st.get_node opts.path e.store ≡ some n
      → n.status ≡ archived
      → IsRefusal
          (is_none (validate_archive env.unicode opts))
          node_already_archived
          e
          (archive st env opts e)
  unfolding archive
  archive-archived opts e n found frozen = ground arith

  -- Update of an archived node changes nothing and is refused with NODE_ARCHIVED, whatever the fields
  -- and the summary are.
  pub update-archived :
      (opts : UpdateOptions) (e : Engine Db) (n : Node)
      → st.get_node opts.path e.store ≡ some n
      → n.status ≡ archived
      → (r : ToolResponse) × (update st env opts e ≡ (e, replied r))
        × (code_of r ≡ some node_archived)
  unfolding update check_update
  update-archived opts e n found frozen =
      (fail node_archived (lit "node is archived, cannot update") [], ground arith, refl)

module _ {Db : Type 0} (st : Store Db) (laws : IsStore st) (env : Env) where
  -- What Archive and then Restore leave of an active node: all but the two events, the count and the
  -- time of the update.
  pub record IsRestored (n last : Node) : Type 0 where
    pub status : last.status ≡ n.status
    pub title : last.title ≡ n.title
    pub summary : last.summary ≡ n.summary
    pub tags : last.tags ≡ n.tags
    pub fields : last.fields ≡ n.fields
    pub gone : Event
    pub back : Event
    pub events : last.events ≡ n.events ++ gone ∷ back ∷ []
    pub types : (gone.type ≡ EventType.archived) × (back.type ≡ EventType.restored)

  status_changed_twice :
      (a b : ArchiveOptions) (c d : ℕ) (n : Node)
      → n.status ≡ active
      → IsRestored n (restored_node env b d (archived_node env a c n))
  unfolding status_changed append_event new_event
  status_changed_twice a b c d n on = record {
    status = cc;
    title = refl;
    summary = refl;
    tags = refl;
    fields = refl;
    gone =
        new_event env EventType.archived (lit "node archived") ((lit "reason", a.reason) ∷ [])
          (c + 1);
    back =
        new_event env EventType.restored (lit "node restored") ((lit "reason", b.reason) ∷ [])
          (d + 1);
    events = append_assoc n.events _ _;
    types = (refl, refl);
  }

  get-put_at :
      (p : Text) (n : Node) {db last : Db}
      → n.path ≡ p
      → last ≡ st.put_node n db
      → st.get_node p last ≡ some n
  get-put_at p n {db} {last} at_p eq =
      rw eq (ground (arith, laws.get-put n db p, text_eq_iff n.path p))

  archive_lem :
      (opts : ArchiveOptions) (e : Engine Db) (n : Node)
      → st.get_node opts.path e.store ≡ some n
      → n.status ≡ active
      → validate_archive env.unicode opts ≡ none
      → (archive st env opts e).0.store ≡ st.put_node (archived_node env opts e.calls n) e.store
  unfolding archive
  archive_lem opts e n found on valid = ground arith

  restore_lem :
      (opts : ArchiveOptions) (e : Engine Db) (n : Node)
      → st.get_node opts.path e.store ≡ some n
      → n.status ≡ archived
      → validate_archive env.unicode opts ≡ none
      → ((restore st env opts e).1.success ≡ true)
        × ((restore st env opts e).0.store ≡ st.put_node (restored_node env opts e.calls n) e.store)
  unfolding restore
  restore_lem opts e n found off valid = ground arith

  -- Archive, then Restore, with valid options on an active node that stands under its path: the
  -- restore succeeds, and the node has its status, title, summary, tags and fields, and its events
  -- with one of each type behind them.
  pub restore-archive :
      (opts : ArchiveOptions) (back : Text) (e : Engine Db) (n : Node)
      → IsKeyed st laws env e.store
      → st.get_node opts.path e.store ≡ some n
      → n.status ≡ active
      → validate_archive env.unicode opts ≡ none
      → validate_archive env.unicode (record opts { reason = back }) ≡ none
      → ((restore st env (record opts { reason = back }) (archive st env opts e).0).1.success
          ≡ true)
        × (last : Node) × (st.get_node opts.path
              (restore st env (record opts { reason = back }) (archive st env opts e).0).0.store
            ≡ some last)
        × IsRestored n last
  restore-archive opts back e n keyed found on valid valid' =
      let again : ArchiveOptions = record opts { reason = back } in
      let mid = (archive st env opts e).0 in
      let n1 = archived_node env opts e.calls n in
      let place : n1.path ≡ opts.path =
        unfold status_changed append_event in keyed opts.path n found in
      let there = archive_lem opts e n found on valid in
      let found1 : st.get_node opts.path mid.store ≡ some n1 =
        get-put_at opts.path n1 place there in
      let n2 = restored_node env again mid.calls n1 in
      let off : n1.status ≡ archived = unfold status_changed append_event in refl in
      let (ok, stored) = restore_lem again mid n1 found1 off valid' in
      (
        ok,
        n2,
        get-put_at opts.path n2 (unfold status_changed append_event in place) stored,
        status_changed_twice opts again e.calls mid.calls n on,
      )
