-- ===== src/Engine/Archived.antt =====
-- An archived node under the tool calls of internal/engine/engine.go.
use diff_mem.Prelude.{
  ◌≡◌, refl, sym, ap, ◌∙◌, subst, true, false, none, some, List, [], ◌∷◌, ◌⊎◌, inl, inr, arith,
  Bool-cases, Option-cases,
}
use diff_mem.Text.{Text, text_eq, is_empty, sort}
use diff_mem.Text.Laws.{text_eq_iff}
use diff_mem.Dict.{keys}
use diff_mem.Model.{
  active, archived, is_archived, Node, CreateOptions, AppendOptions, UpdateOptions,
  UpdateFieldOptions, UpdateSummaryOptions, ArchiveOptions,
}
use diff_mem.Env.{Env}
use diff_mem.Params.{Params}
use diff_mem.Store.{Store, IsStore}
use diff_mem.Engine.{Engine, append_event}
use diff_mem.Engine.Effect.{Extends, IsWellFormed, Writes-IsWellFormed}
use diff_mem.Engine.Write.{
  is_success, created_node, create, append, field_updated, update_field, summary_updated,
  update_summary, apply_fields, finish_update, update, field_options, summary_options,
}
use diff_mem.Engine.Write.Cases.{
  create-cases, append-cases, update_field-cases, update_summary-cases,
}
use diff_mem.Engine.Write.Writes.{IsKeyed, update_field-Writes}
use diff_mem.Engine.Lifecycle.{restored_node, status_changed, archive, restore, delete}
use diff_mem.Engine.Lifecycle.Writes.{status_changed-Extends, is_under, delete-exact}
use diff_mem.Engine.Tools.{DeletesAt, dispatch-rule}
use diff_mem.Engine.Lifecycle.Cases.{archive-cases, restore-cases, delete-cases}
use diff_mem.Engine.Read.{show}
use diff_mem.Engine.Dispatch.{dispatch}
use diff_mem.Engine.Update.{refused, stopped, finished, update-cases, apply_fields-Writes}

module _ {Db : Type 0} (st : Store Db) (laws : IsStore st) (env : Env) (p : Text) (n : Node)
    (off : n.status ≡ archived) where
  same_node :
      (q : Text) (m : Node) {db : Db}
      → IsKeyed st laws env db
      → st.get_node q db ≡ some m
      → text_eq m.path p ≡ true
      → st.get_node p db ≡ some n
      → m ≡ n
  same_node q m {db} keyed found same h =
      let q_is_p : q ≡ p = sym (keyed q m found) ∙ (text_eq_iff m.path p).0 same in
      let m_is_n : some m ≡ some n = sym found ∙ ap (λ r. st.get_node r db) q_is_p ∙ h in cc m_is_n

  -- A write to an active node leaves the archived one alone.
  untouched :
      (q : Text) (m m' : Node) {db : Db}
      → IsKeyed st laws env db
      → st.get_node q db ≡ some m
      → is_archived m.status ≡ false
      → m'.path ≡ m.path
      → st.get_node p db ≡ some n
      → st.get_node p (st.put_node m' db) ≡ some n
  untouched q m m' {db} keyed found on at_m h = elim (Bool-cases (text_eq m'.path p)) [
    | inr other ↦ ground (arith, laws.get-put m' db p)
    | inl same ↦
        let eq = same_node q m keyed found (ap (λ r. text_eq r p) (sym at_m) ∙ same) h in
        absurd (ground (arith, ap (λ (x : Node). x.status) eq, off))
  ]

  create-untouched :
      (o : CreateOptions) (e : Engine Db)
      → st.get_node p e.store ≡ some n
      → st.get_node p (create st env o e).0.store ≡ some n
  unfolding created_node
  create-untouched o e h = elim (create-cases st env o e) [
    | inl r ↦ rw r.same h
    | inr c ↦ rw c.result (elim (Bool-cases (text_eq o.path p)) [
      | inl same ↦
          let clash : st.get_node o.path e.store ≡ some n =
            ap (λ r. st.get_node r e.store) ((text_eq_iff o.path p).0 same) ∙ h in
          absurd (ground (arith, laws.get-has o.path e.store c.free, clash))
      | inr other ↦ ground (arith, laws.get-put (created_node env o e.calls) e.store p)
    ])
  ]

  append-untouched :
      (o : AppendOptions) (e : Engine Db)
      → IsKeyed st laws env e.store
      → st.get_node p e.store ≡ some n
      → st.get_node p (append st env o e).0.store ≡ some n
  unfolding append_event
  append-untouched o e keyed h = elim (append-cases st env o e) [
    | inl r ↦ rw r.same h
    | inr c ↦ rw c.result (untouched o.path c.node _ keyed c.found c.active refl h)
  ]

  update_field-untouched :
      (o : UpdateFieldOptions) (e : Engine Db)
      → IsKeyed st laws env e.store
      → st.get_node p e.store ≡ some n
      → st.get_node p (update_field st env o e).0.store ≡ some n
  unfolding append_event field_updated
  update_field-untouched o e keyed h = elim (update_field-cases st env o e) [
    | inl r ↦ rw r.same h
    | inr c ↦ rw c.result (untouched o.path c.node _ keyed c.found c.active refl h)
  ]

  update_summary-untouched :
      (o : UpdateSummaryOptions) (e : Engine Db)
      → IsKeyed st laws env e.store
      → st.get_node p e.store ≡ some n
      → st.get_node p (update_summary st env o e).0.store ≡ some n
  unfolding append_event summary_updated
  update_summary-untouched o e keyed h = elim (update_summary-cases st env o e) [
    | inl r ↦ rw r.same h
    | inr c ↦ rw c.result (untouched o.path c.node _ keyed c.found c.active refl h)
  ]

  archive-untouched :
      (o : ArchiveOptions) (e : Engine Db)
      → IsKeyed st laws env e.store
      → st.get_node p e.store ≡ some n
      → st.get_node p (archive st env o e).0.store ≡ some n
  unfolding append_event status_changed
  archive-untouched o e keyed h = elim (archive-cases st env o e) [
    | inl r ↦ rw r.same h
    | inr c ↦ rw c.store (untouched o.path c.node _ keyed c.found c.active refl h)
  ]

  apply_fields-untouched :
      (o : UpdateOptions) (ks : List Text) (e : Engine Db)
      → IsWellFormed st laws env e.store
      → st.get_node p e.store ≡ some n
      → st.get_node p (apply_fields st env o ks e).0.store ≡ some n
  unfolding apply_fields
  apply_fields-untouched o [] e w h = h
  apply_fields-untouched o (k ∷ ks) e w h =
      let e' = (update_field st env (field_options o k) e).0 in
      let first = update_field-untouched (field_options o k) e w.keyed h in
      let w' =
        Writes-IsWellFormed st laws env
          (update_field-Writes st laws env (field_options o k) e w.keyed) w in
      let later = apply_fields-untouched o ks e' w' first in
      elim (Bool-cases (is_success (update_field st env (field_options o k) e).1)) [
        | inl ok ↦ rw ok later
        | inr failed ↦ rw failed first
      ]

  finish_update-untouched :
      (o : UpdateOptions) (e : Engine Db)
      → IsKeyed st laws env e.store
      → st.get_node p e.store ≡ some n
      → st.get_node p (finish_update st env o e).0.store ≡ some n
  unfolding finish_update
  finish_update-untouched o e keyed h = elim (Bool-cases (is_empty o.new_summary)) [
    | inl none_given ↦ rw none_given (elim (Option-cases (st.get_node o.path e.store)) [
      | inl missing ↦ rw missing h
      | inr (m, found) ↦ rw found h
    ])
    | inr given ↦ rw given (update_summary-untouched (summary_options o) e keyed h)
  ]

  update-untouched :
      (o : UpdateOptions) (e : Engine Db)
      → IsWellFormed st laws env e.store
      → st.get_node p e.store ≡ some n
      → st.get_node p (update st env o e).0.store ≡ some n
  update-untouched o e w h =
      let ks = sort (keys o.fields) in
      let applied = apply_fields-untouched o ks e w h in
      let w' = Writes-IsWellFormed st laws env (apply_fields-Writes st laws env o ks e w) w in
      elim (update-cases st laws env o e) [
        | refused r eq ↦ rw eq h
        | stopped r failed eq ↦ rw eq applied
        | finished m found eq ↦
            rw eq (finish_update-untouched o (apply_fields st env o ks e).0 w'.keyed applied)
      ]

  -- The node is there, archived, with its events, summary and fields.
  abbrev pub IsKept : Db → Type 0
  IsKept db =
      (n' : Node) × (st.get_node p db ≡ some n')
      × (n'.status ≡ archived)
      × (n'.events ≡ n.events)
      × (n'.summary ≡ n.summary)
      × (n'.fields ≡ n.fields)

  -- The node is there and active again, grown out of the archived one.
  abbrev pub IsBack : Db → Type 0
  IsBack db = (n' : Node) × (st.get_node p db ≡ some n') × (n'.status ≡ active) × Extends n n'

  unchanged-IsKept : {db : Db} → st.get_node p db ≡ some n → IsKept db
  unchanged-IsKept h = (n, h, off, refl, refl, refl)

  abbrev seen_node : Engine Db → Node → Node
  seen_node e m = record m {
    header = record m.header { last_accessed = some (env.os.now e.calls) };
  }

  show-IsKept :
      (q : Text) (e : Engine Db)
      → IsKeyed st laws env e.store
      → st.get_node p e.store ≡ some n
      → IsKept (show st env q e).0.store
  unfolding show
  show-IsKept q e keyed h = elim (Option-cases (st.get_node q e.store)) [
    | inl missing ↦ rw (show, missing) (unchanged-IsKept h)
    | inr (m, found) ↦
        rw (show, found)
          (elim (Bool-cases (text_eq m.path p)) [
            | inr other ↦ unchanged-IsKept (ground (arith, laws.get-put (seen_node e m) e.store p))
            | inl same ↦
                let eq = same_node q m keyed found same h in
                (
                  seen_node e m,
                  ground (arith, laws.get-put (seen_node e m) e.store p),
                  ap (λ (x : Node). x.status) eq ∙ off,
                  ap (λ (x : Node). x.events) eq,
                  ap (λ (x : Node). x.summary) eq,
                  ap (λ (x : Node). x.fields) eq,
                )
          ])
  ]

  restore-IsBack :
      (o : ArchiveOptions) (e : Engine Db)
      → IsKeyed st laws env e.store
      → st.get_node p e.store ≡ some n
      → IsKept (restore st env o e).0.store ⊎ IsBack (restore st env o e).0.store
  unfolding append_event status_changed
  restore-IsBack o e keyed h = elim (restore-cases st env o e) [
    | inl r ↦ rw r.same (inl (unchanged-IsKept h))
    | inr c ↦
        let n' = restored_node env o e.calls c.node in
        rw c.store (elim (Bool-cases (text_eq c.node.path p)) [
          | inr other ↦ inl (unchanged-IsKept (ground (arith, laws.get-put n' e.store p)))
          | inl same ↦ inr (
            n',
            ground (arith, laws.get-put n' e.store p),
            refl,
            subst (λ (x : Node). Extends x n') (same_node o.path c.node keyed c.found same h)
                (status_changed-Extends env _ _ _ o.reason e.calls c.node),
          )
        ])
  ]

  delete-keeps :
      (o : ArchiveOptions) (e : Engine Db)
      → IsWellFormed st laws env e.store
      → st.get_node p e.store ≡ some n
      → IsKept (delete st env o e).0.store
        ⊎ ((is_under o.path p ≡ true) × (st.get_node p (delete st env o e).0.store ≡ none))
  delete-keeps o e w h = elim (delete-cases st env o e) [
    | inl r ↦ rw r.same (inl (unchanged-IsKept h))
    | inr c ↦
        let exact = delete-exact st laws env o e p w.valid (rw c.result) in
        elim (Bool-cases (is_under o.path p)) [
          | inl under ↦ inr (under, ground (arith, exact))
          | inr other ↦ inl (unchanged-IsKept (ground (arith, exact)))
        ]
  ]

  -- On a well-formed store, after any tool call an archived node is still there and archived, with
  -- its events, summary and fields; or it is active again, with its events and new ones behind
  -- them; or it is gone, and the call was lifecycle with the action delete, on its path or on one
  -- above it.
  pub dispatch-keeps_archived :
      (name : Text) (params : Params) (e : Engine Db)
      → IsWellFormed st laws env e.store
      → st.get_node p e.store ≡ some n
      → IsKept (dispatch st env name params e).0.store
        ⊎ IsBack (dispatch st env name params e).0.store
        ⊎ (DeletesAt st laws env name params p
            × (st.get_node p (dispatch st env name params e).0.store ≡ none))
  dispatch-keeps_archived name params e w h =
      dispatch-rule st laws env name params e
        (λ r.
          IsKept r.0.store
          ⊎ IsBack r.0.store
          ⊎ (DeletesAt st laws env name params p × (st.get_node p r.0.store ≡ none)))
        (λ o. inl (unchanged-IsKept (create-untouched o e h)))
        (λ o. inl (unchanged-IsKept (append-untouched o e w.keyed h)))
        (λ o. inl (unchanged-IsKept (update-untouched o e w h)))
        (λ o d. elim (delete-keeps o e w h) [
          | inl k ↦ inl k
          | inr (under, gone) ↦ inr (inr ((o, d, under), gone))
        ])
        (λ o. inl (unchanged-IsKept (archive-untouched o e w.keyed h)))
        (λ o. elim (restore-IsBack o e w.keyed h) [ inl k ↦ inl k | inr back ↦ inr (inl back) ])
        (λ q. inl (show-IsKept q e w.keyed h)) (λ r. inl (unchanged-IsKept h))
