-- ===== src/Engine/Update.antt =====
-- Update of internal/engine/write.go: its cases, and what it writes.
pub mod Partial
use diff_mem.Prelude.{
  refl, ap, ◌∙◌, ◌≡◌, ◌≢◌, false, none, some, List, [], ◌∷◌, inl, inr, arith, Option-cases,
  Bool-cases,
}
use diff_mem.Text.{Text, is_empty, sort}
use diff_mem.Dict.{keys}
use diff_mem.Model.{
  Node, ToolResponse, UpdateOptions, UpdateFieldOptions, path_not_found, validation_failed,
}
use diff_mem.Validator.{validate_update_summary}
use diff_mem.Env.{Env}
use diff_mem.Store.{Store, IsStore}
use diff_mem.Engine.{Engine, fail, path_not_found_at}
use diff_mem.Engine.Effect.{
  Writes, Writes-trans, done, IsWellFormed, Writes-IsWellFormed, Writes-Survives,
}
use diff_mem.Engine.Write.{
  Outcome, replied, panicked, is_success, update, update_field, update_summary, check_update,
  apply_fields, finish_update, field_options, summary_options,
}
use diff_mem.Engine.Write.Writes.{update_field-Writes, update_summary-Writes}

module _ {Db : Type 0} (st : Store Db) (laws : IsStore st) (env : Env) where
  pub apply_fields-Writes :
      (opts : UpdateOptions) (ks : List Text) (e : Engine Db)
      → IsWellFormed st laws env e.store
      → Writes st env e.store (apply_fields st env opts ks e).0.store
  unfolding apply_fields
  apply_fields-Writes opts [] e h = done
  apply_fields-Writes opts (k ∷ ks) e h =
      let e' = (update_field st env (field_options opts k) e).0 in
      let first = update_field-Writes st laws env (field_options opts k) e h.keyed in
      let later = apply_fields-Writes opts ks e' (Writes-IsWellFormed st laws env first h) in
      elim (Bool-cases (is_success (update_field st env (field_options opts k) e).1)) [
        | inl ok ↦ rw ok (Writes-trans st env first later)
        | inr failed ↦ rw failed first
      ]

  finish_update-Writes :
      (opts : UpdateOptions) (e : Engine Db)
      → IsWellFormed st laws env e.store
      → Writes st env e.store (finish_update st env opts e).0.store
  unfolding finish_update
  finish_update-Writes opts e h = elim (Bool-cases (is_empty opts.new_summary)) [
    | inl none_given ↦ rw none_given (elim (Option-cases (st.get_node opts.path e.store)) [
      | inl missing ↦ rw missing done
      | inr (n, found) ↦ rw found done
    ])
    | inr given ↦ rw given (update_summary-Writes st laws env (summary_options opts) e h.keyed)
  ]

  -- Update by cases: a refusal before any write, a field that failed, or the end of the call.
  pub data Updated (opts : UpdateOptions) (e : Engine Db) : Type 0 where
    refused : (r : ToolResponse) → update st env opts e ≡ (e, replied r) → Updated opts e
    stopped :
        (o : Outcome)
        → (apply_fields st env opts (sort (keys opts.fields)) e).1 ≡ some o
        → update st env opts e ≡ ((apply_fields st env opts (sort (keys opts.fields)) e).0, o)
        → Updated opts e
    finished :
        (n : Node)
        → st.get_node opts.path e.store ≡ some n
        → update st env opts e
          ≡ finish_update st env opts (apply_fields st env opts (sort (keys opts.fields)) e).0
        → Updated opts e

  pub update-cases : (opts : UpdateOptions) (e : Engine Db) → Updated opts e
  update-cases opts e = elim (Option-cases (st.get_node opts.path e.store)) [
    | inl missing ↦
        refused (fail path_not_found (path_not_found_at opts.path) [])
          (unfold update in rw (missing, update))
    | inr (n, found) ↦ elim (Option-cases (check_update env opts n)) [
      | inr (r, bad) ↦ refused r (unfold update in rw (found, bad, update))
      | inl good ↦ elim (Option-cases (apply_fields st env opts (sort (keys opts.fields)) e).1) [
        | inr (r, failed) ↦ stopped r failed (unfold update in rw (found, good, failed, update))
        | inl fine ↦ finished n found (unfold update in rw (found, good, fine, update))
      ]
    ]
  ]

  pub update-Writes :
      (opts : UpdateOptions) (e : Engine Db)
      → IsWellFormed st laws env e.store
      → Writes st env e.store (update st env opts e).0.store
  update-Writes opts e h =
      let ks = sort (keys opts.fields) in
      let applied = apply_fields-Writes opts ks e h in
      let later =
        finish_update-Writes opts (apply_fields st env opts ks e).0
          (Writes-IsWellFormed st laws env applied h) in
      elim (update-cases opts e) [
        | refused r eq ↦ rw eq done
        | stopped r failed eq ↦ rw eq applied
        | finished n found eq ↦ rw eq (Writes-trans st env applied later)
      ]

  finish_update-replies :
      (opts : UpdateOptions) (e : Engine Db) (n : Node)
      → st.get_node opts.path e.store ≡ some n
      → (finish_update st env opts e).1 ≢ panicked
  unfolding finish_update
  finish_update-replies opts e n found = ground arith

  update_field-replies :
      (opts : UpdateFieldOptions) (e : Engine Db)
      → IsWellFormed st laws env e.store
      → (update_field st env opts e).1 ≢ panicked
  unfolding update_field
  update_field-replies opts e h = elim (Option-cases (st.get_node opts.path e.store)) [
    | inl missing ↦ ground arith
    | inr (n, found) ↦ let filled = (h.good opts.path n found).has_fields in ground arith
  ]

  -- No assignment to a field panics: the stored nodes have a map of fields.
  apply_fields-replies :
      (opts : UpdateOptions) (ks : List Text) (e : Engine Db)
      → IsWellFormed st laws env e.store
      → (apply_fields st env opts ks e).1 ≢ some panicked
  unfolding apply_fields
  apply_fields-replies opts [] e h = λ p. cc p
  apply_fields-replies opts (k ∷ ks) e h =
      let o = field_options opts k in
      let first = update_field-Writes st laws env o e h.keyed in
      let later =
        apply_fields-replies opts ks (update_field st env o e).0
          (Writes-IsWellFormed st laws env first h) in
      elim (Bool-cases (is_success (update_field st env o e).1)) [
        | inl ok ↦ rw ok later
        | inr failed ↦ rw failed (λ p. update_field-replies o e h (some_inj p))
      ]
    where
      some_inj : {x y : Outcome} → some x ≡ some y → x ≡ y
      some_inj p = cc p

  -- Update always replies: no field panics, and the node that it reads at the end is still there.
  pub update-replies :
      (opts : UpdateOptions) (e : Engine Db)
      → IsWellFormed st laws env e.store
      → (update st env opts e).1 ≢ panicked
  update-replies opts e h =
      let ks = sort (keys opts.fields) in
      elim (update-cases opts e) [
        | refused r eq ↦ rw eq (λ p. cc)
        | stopped o failed eq ↦ rw eq (λ p. apply_fields-replies opts ks e h (failed ∙ ap some p))
        | finished n found eq ↦
            let (n', found', ext) =
              Writes-Survives st laws env opts.path n (apply_fields-Writes opts ks e h) found in
            rw eq (finish_update-replies opts (apply_fields st env opts ks e).0 n' found')
      ]

  update_field-links :
      (opts : UpdateFieldOptions) (e : Engine Db) → (update_field st env opts e).0.links ≡ e.links
  unfolding update_field
  update_field-links opts e = ground arith

  apply_fields-links :
      (opts : UpdateOptions) (ks : List Text) (e : Engine Db)
      → (apply_fields st env opts ks e).0.links ≡ e.links
  unfolding apply_fields
  apply_fields-links opts [] e = refl
  apply_fields-links opts (k ∷ ks) e = ground (
    arith,
    update_field-links (field_options opts k) e,
    apply_fields-links opts ks (update_field st env (field_options opts k) e).0,
  )

  finish_update-links :
      (opts : UpdateOptions) (e : Engine Db) → (finish_update st env opts e).0.links ≡ e.links
  unfolding finish_update update_summary
  finish_update-links opts e = ground arith

  -- Update leaves the link index alone.
  pub update-links :
      (opts : UpdateOptions) (e : Engine Db) → (update st env opts e).0.links ≡ e.links
  update-links opts e =
      let ks = sort (keys opts.fields) in
      let applied = apply_fields-links opts ks e in
      elim (update-cases opts e) [
        | refused r eq ↦ rw eq
        | stopped r failed eq ↦ rw eq applied
        | finished n found eq ↦
            rw eq (finish_update-links opts (apply_fields st env opts ks e).0 ∙ applied)
      ]
