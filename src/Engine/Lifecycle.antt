-- ===== src/Engine/Lifecycle.antt =====
-- internal/engine/lifecycle.go: Delete, Archive and Restore.
pub mod Cases
pub mod Writes
use diff_mem.Prelude.{
  ℕ, ◌+◌, Bool, true, false, not, ◌&&◌, ◌||◌, Option, none, some, List, [], ◌∷◌, ◌++◌,
  if◌then◌else◌, select,
}
use diff_mem.Text.{Text, lit, slash, text_eq, is_empty, has_prefix, join, member, push_all}
use diff_mem.Model.{
  Status, active, archived, is_archived, EventType, Node, Code, validation_failed, path_not_found,
  node_already_archived, node_not_archived, linked_by_others, Payload, header_of, deletion,
  ToolResponse, ArchiveOptions,
}
use diff_mem.Env.{Env}
use diff_mem.Validator.{validate_archive}
use diff_mem.Links.{remove_node, node_content_links}
use diff_mem.Store.{Store, paths}
use diff_mem.Engine.{
  Engine, success, fail, path_not_found_at, append_event, is_active_at, find_referrers, new_event,
}

-- resp.Warning = …, if there is something to warn of
abbrev pub warn_if : List Text → Text → Text → ToolResponse → ToolResponse
warn_if [] before after resp = resp
warn_if (w ∷ ws) before after resp = record resp {
  warning = before ++ (join (lit ", ") (w ∷ ws) ++ after);
}

module _ (env : Env) where
  -- The node after a change of status, with its event.
  unfoldable pub status_changed : Status → EventType → Text → Text → ℕ → Node → Node
  status_changed status type content reason c node =
      append_event (new_event env type content ((lit "reason", reason) ∷ []) (c + 1)) (env.os.now c)
        (record node { header = record node.header { status = status } })

  abbrev pub archived_node : ArchiveOptions → ℕ → Node → Node
  archived_node opts c node =
      status_changed archived EventType.archived (lit "node archived") opts.reason c node

  abbrev pub restored_node : ArchiveOptions → ℕ → Node → Node
  restored_node opts c node =
      status_changed active EventType.restored (lit "node restored") opts.reason c node

module _ {Db : Type 0} (st : Store Db) where
  -- The node and all its descendants.
  unfoldable pub victims_of : Text → Db → List Text
  victims_of path db =
      path ∷ select (λ p. has_prefix p (path ++ slash ∷ [])) (paths (st.all_nodes db))

  -- The active nodes outside `victims` that link to one of `vs`.
  unfoldable pub outside_referrers : List Text → List Text → List Text → Engine Db → List Text
  outside_referrers victims refs [] e = refs
  outside_referrers victims refs (v ∷ vs) e =
      outside_referrers victims
        (push_all refs (select (λ r. not (member r victims)) (find_referrers st v v e))) vs e

  unfoldable pub remove_victims : List Text → Engine Db → Engine Db
  remove_victims [] e = e
  remove_victims (v ∷ vs) e =
      remove_victims vs
        (record e { store = st.delete_node v e.store; links = remove_node v e.links })

module _ {Db : Type 0} (st : Store Db) (env : Env) where
  unfoldable pub delete : ArchiveOptions → Engine Db → Engine Db × ToolResponse
  delete opts e = elim (validate_archive env.unicode opts) [
    | some m ↦ (e, fail validation_failed m [])
    | none ↦
        if not (st.has_node opts.path e.store)
        then (e, fail path_not_found (path_not_found_at opts.path) [])
        else let victims = victims_of st opts.path e.store in
          let referrers = outside_referrers st victims [] victims e in
          if not (is_empty referrers)
          then (
            e,
            fail linked_by_others
                (lit "node body is linked by active nodes: " ++ join (lit ", ") referrers)
                (lit "先更新这些节点的 Body，移除或修正 [[链接]] 后再删除"),
          )
          else (remove_victims st victims e, success (deletion opts.path victims opts.reason))
  ]

  unfoldable pub archive : ArchiveOptions → Engine Db → Engine Db × ToolResponse
  archive opts e = elim (validate_archive env.unicode opts) [
    | some m ↦ (e, fail validation_failed m [])
    | none ↦ elim (st.get_node opts.path e.store) [
      | none ↦ (e, fail path_not_found (path_not_found_at opts.path) [])
      | some node ↦
          if is_archived node.status
          then (e, fail node_already_archived (lit "node is already archived") [])
          else let node' = archived_node env opts e.calls node in
            let e' : Engine Db = record e {
              store = st.put_node node' e.store;
              calls = e.calls + 3;
            } in
            (
              e',
              warn_if (find_referrers st opts.path opts.path e')
                  (lit "以下活跃节点的 Body 链接了此节点，归档期间这些链接不可解析：")
                  (lit
                    "。请处置这些 [[链接]]：1) 若有新的承接节点，将链接改指到它；2) 若有意引用历史快照，可保留链接（归档节点仍是有效链接目标）；3) 若链接已无意义，更新对应节点的 Body 移除该链接")
                  (success (header_of node'.header)),
            )
    ]
  ]

  unfoldable pub dangling_outbound_links : Node → Db → List Text
  dangling_outbound_links node db =
      select (λ t. not (text_eq t node.path) && not (is_active_at st t db))
        (node_content_links node)

  unfoldable pub restore : ArchiveOptions → Engine Db → Engine Db × ToolResponse
  restore opts e = elim (validate_archive env.unicode opts) [
    | some m ↦ (e, fail validation_failed m [])
    | none ↦ elim (st.get_node opts.path e.store) [
      | none ↦ (e, fail path_not_found (path_not_found_at opts.path) [])
      | some node ↦
          if not (is_archived node.status)
          then (e, fail node_not_archived (lit "node is not archived, cannot restore") [])
          else let node' = restored_node env opts e.calls node in
            let e' : Engine Db = record e {
              store = st.put_node node' e.store;
              calls = e.calls + 3;
            } in
            (
              e',
              warn_if (dangling_outbound_links node' e'.store) (lit "本节点的 Body 中以下 [[链接]] 目标当前不存在：")
                  (lit "。请更新 Body 修正或移除这些链接") (success (header_of node'.header)),
            )
    ]
  ]
