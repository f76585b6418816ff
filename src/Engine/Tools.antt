-- ===== src/Engine/Tools.antt =====
-- Every tool call at once, over `dispatch`.
use diff_mem.Prelude.{
  ◌≡◌, ◌≢◌, refl, sym, true, none, some, [], ◌⊎◌, inl, inr, arith, Option-cases, Bool-cases,
  append-nil,
}
use diff_mem.Text.{Text, lit, text_eq, is_empty}
use diff_mem.Text.Laws.{text_eq_iff}
use diff_mem.Model.{Node, ToolResponse, CreateOptions, AppendOptions, UpdateOptions, ArchiveOptions}
use diff_mem.Env.{Env}
use diff_mem.Params.{
  Params, string_at, extract_create, extract_append, extract_update, extract_lifecycle,
}
use diff_mem.Paths.{normalize_path}
use diff_mem.Store.{Store, IsStore}
use diff_mem.Engine.{Engine}
use diff_mem.Engine.Effect.{
  Writes, done, IsWellFormed, Writes-IsWellFormed, Writes-Survives, Survives, Extends-refl,
}
use diff_mem.Engine.Write.{Outcome, replied, panicked, create, append, update}
use diff_mem.Engine.Write.Writes.{create-Writes, append-Writes, grown_at}
use diff_mem.Engine.Lifecycle.{delete, archive, restore}
use diff_mem.Engine.Lifecycle.Cases.{delete-cases}
use diff_mem.Engine.Lifecycle.Writes.{
  archive-Writes, restore-Writes, delete-IsWellFormed_engine, delete-exact, is_under,
}
use diff_mem.Engine.Update.{update-Writes, update-replies}
use diff_mem.Engine.Read.{show}
use diff_mem.Engine.Dispatch.{reply, lifecycle, show_window, dispatch}

module _ {Db : Type 0} (st : Store Db) (laws : IsStore st) (env : Env) where
  pub show-Writes :
      (path : Text) (e : Engine Db)
      → IsWellFormed st laws env e.store
      → Writes st env e.store (show st env path e).0.store
  show-Writes path e h = elim (Option-cases (st.get_node path e.store)) [
    | inl missing ↦ unfold show in rw (missing, show) done
    | inr (n, found) ↦
        unfold show in
        rw (found, show)
          (grown_at st laws env path n _ h.keyed found
            (record {
              path = refl;
              title = refl;
              tags = refl;
              created_at = refl;
              added = [];
              events = sym (append-nil n.events);
            })
            (λ g. record {
              valid = g.valid;
              counted = g.counted;
              no_status = g.no_status;
              no_summary = g.no_summary;
              has_fields = g.has_fields;
            }))
  ]

  -- The call is `lifecycle` with the action `delete`, and these options.
  abbrev pub Deletes : Text → Params → ArchiveOptions → Type 0
  Deletes name params o =
      (name ≡ lit "lifecycle")
      × ((extract_lifecycle params).0 ≡ lit "delete")
      × ((extract_lifecycle params).1 ≡ o)

  -- What holds of the result of every handler holds of the result of Dispatch.
  module _ (name : Text) (params : Params) (e : Engine Db) (P : Engine Db × Outcome → Type 0)
      (on_create : (o : CreateOptions) → P (reply (create st env o e)))
      (on_append : (o : AppendOptions) → P (reply (append st env o e)))
      (on_update : (o : UpdateOptions) → P (update st env o e))
      (on_delete : (o : ArchiveOptions) → Deletes name params o → P (reply (delete st env o e)))
      (on_archive : (o : ArchiveOptions) → P (reply (archive st env o e)))
      (on_restore : (o : ArchiveOptions) → P (reply (restore st env o e)))
      (on_show : (p : Text) → P (reply (show st env p e)))
      (on_read : (r : ToolResponse) → P (e, replied r)) where
    lifecycle-rule :
        name ≡ lit "lifecycle"
        → P (reply (lifecycle st env (extract_lifecycle params).0 (extract_lifecycle params).1 e))
    unfolding lifecycle
    lifecycle-rule at =
        let action = (extract_lifecycle params).0 in
        let o = (extract_lifecycle params).1 in
        elim (Bool-cases (text_eq action (lit "delete"))) [
          | inl c ↦
              rw (c, lifecycle) (on_delete o (at, (text_eq_iff action (lit "delete")).0 c, refl))
          | inr n0 ↦ elim (Bool-cases (text_eq action (lit "archive"))) [
            | inl c ↦ rw (n0, c, lifecycle) (on_archive o)
            | inr n1 ↦ elim (Bool-cases (text_eq action (lit "restore"))) [
              | inl c ↦ rw (n0, n1, c, lifecycle) (on_restore o)
              | inr n2 ↦ rw (n0, n1, n2, lifecycle) (on_read _)
            ]
          ]
        ]

    show_window-rule : (path window : Text) → P (reply (show_window st env path window e))
    unfolding show_window
    show_window-rule path window = elim (Bool-cases (is_empty window)) [
      | inl c ↦ rw (c, show_window) (on_show path)
      | inr n ↦ rw (n, show_window) (on_read _)
    ]

    pub dispatch-rule : P (dispatch st env name params e)
    unfolding dispatch
    dispatch-rule = elim (Bool-cases (text_eq name (lit "create"))) [
      | inl c ↦ rw (c, dispatch) (on_create (extract_create params))
      | inr n0 ↦ elim (Bool-cases (text_eq name (lit "append"))) [
        | inl c ↦ rw (n0, c, dispatch) (on_append (extract_append params))
        | inr n1 ↦ elim (Bool-cases (text_eq name (lit "update"))) [
          | inl c ↦ rw (n0, n1, c, dispatch) (on_update (extract_update params))
          | inr n2 ↦ elim (Bool-cases (text_eq name (lit "lifecycle"))) [
            | inl c ↦
                rw (n0, n1, n2, c, dispatch)
                  (lifecycle-rule ((text_eq_iff name (lit "lifecycle")).0 c))
            | inr n3 ↦ elim (Bool-cases (text_eq name (lit "list"))) [
              | inl c ↦ rw (n0, n1, n2, n3, c, dispatch) (on_read _)
              | inr n4 ↦ elim (Bool-cases (text_eq name (lit "search"))) [
                | inl c ↦ rw (n0, n1, n2, n3, n4, c, dispatch) (on_read _)
                | inr n5 ↦ elim (Bool-cases (text_eq name (lit "show"))) [
                  | inl c ↦
                      rw (n0, n1, n2, n3, n4, n5, c, dispatch)
                        (show_window-rule (normalize_path (string_at (lit "path") params))
                          (string_at (lit "window") params))
                  | inr n6 ↦ rw (n0, n1, n2, n3, n4, n5, n6, dispatch) (on_read _)
                ]
              ]
            ]
          ]
        ]
      ]
    ]

  -- Every tool call keeps the store well formed: each node stands under its own valid path, its
  -- event count is the number of its events, it has no custom field named status or summary, and
  -- its map of fields is not nil.
  pub dispatch-IsWellFormed :
      (name : Text) (params : Params) (e : Engine Db)
      → IsWellFormed st laws env e.store
      → IsWellFormed st laws env (dispatch st env name params e).0.store
  dispatch-IsWellFormed name params e h =
      dispatch-rule name params e (λ r. IsWellFormed st laws env r.0.store)
        (λ o. Writes-IsWellFormed st laws env (create-Writes st laws env o e) h)
        (λ o. Writes-IsWellFormed st laws env (append-Writes st laws env o e h.keyed) h)
        (λ o. Writes-IsWellFormed st laws env (update-Writes st laws env o e h) h)
        (λ o d. delete-IsWellFormed_engine st laws env o e h)
        (λ o. Writes-IsWellFormed st laws env (archive-Writes st laws env o e h.keyed) h)
        (λ o. Writes-IsWellFormed st laws env (restore-Writes st laws env o e h.keyed) h)
        (λ p. Writes-IsWellFormed st laws env (show-Writes p e h) h) (λ r. h)

  -- On a well-formed store, in which no node has a nil map of fields, every tool call ends in a
  -- response; none panics.
  pub dispatch-replies :
      (name : Text) (params : Params) (e : Engine Db)
      → IsWellFormed st laws env e.store
      → (dispatch st env name params e).1 ≢ panicked
  dispatch-replies name params e h =
      dispatch-rule name params e (λ r. r.1 ≢ panicked) (λ o p. cc) (λ o p. cc)
        (λ o. update-replies st laws env o e h) (λ o d p. cc) (λ o p. cc) (λ o p. cc) (λ q p. cc)
        (λ r p. cc)

  delete-Survives :
      (o : ArchiveOptions) (e : Engine Db) (p : Text) (n : Node)
      → IsWellFormed st laws env e.store
      → st.get_node p e.store ≡ some n
      → Survives st laws env p n (delete st env o e).0.store
        ⊎ ((is_under o.path p ≡ true) × (st.get_node p (delete st env o e).0.store ≡ none))
  delete-Survives o e p n h found = elim (delete-cases st env o e) [
    | inl r ↦ rw r.same (inl (n, found, Extends-refl n))
    | inr c ↦
        let exact = delete-exact st laws env o e p h.valid (rw c.result) in
        elim (Bool-cases (is_under o.path p)) [
          | inl under ↦ inr (under, ground (arith, exact))
          | inr other ↦ inl (n, ground (arith, exact), Extends-refl n)
        ]
  ]

  -- The call deletes `p`: it is `lifecycle` with the action `delete`, on the path or above it.
  abbrev pub DeletesAt : Text → Params → Text → Type 0
  DeletesAt name params p =
      (o : ArchiveOptions) × Deletes name params o × (is_under o.path p ≡ true)

  -- On a well-formed store, after any tool call each stored node has its path, title, tags and
  -- creation time, and all its events in order with new ones behind them; or it is gone, and the
  -- call was lifecycle with the action delete, on its path or on one above it.
  pub dispatch-Survives :
      (name : Text) (params : Params) (e : Engine Db) (p : Text) (n : Node)
      → IsWellFormed st laws env e.store
      → st.get_node p e.store ≡ some n
      → Survives st laws env p n (dispatch st env name params e).0.store
        ⊎ (DeletesAt name params p × (st.get_node p (dispatch st env name params e).0.store ≡ none))
  dispatch-Survives name params e p n h found =
      dispatch-rule name params e
        (λ r.
          Survives st laws env p n r.0.store
          ⊎ (DeletesAt name params p × (st.get_node p r.0.store ≡ none)))
        (λ o. inl (Writes-Survives st laws env p n (create-Writes st laws env o e) found))
        (λ o. inl (Writes-Survives st laws env p n (append-Writes st laws env o e h.keyed) found))
        (λ o. inl (Writes-Survives st laws env p n (update-Writes st laws env o e h) found))
        (λ o d. elim (delete-Survives o e p n h found) [
          | inl there ↦ inl there
          | inr (under, gone) ↦ inr ((o, d, under), gone)
        ])
        (λ o. inl (Writes-Survives st laws env p n (archive-Writes st laws env o e h.keyed) found))
        (λ o. inl (Writes-Survives st laws env p n (restore-Writes st laws env o e h.keyed) found))
        (λ q. inl (Writes-Survives st laws env p n (show-Writes q e h) found))
        (λ r. inl (n, found, Extends-refl n))
