-- ===== src/Engine/Update/Partial.antt =====
-- Update of internal/engine/write.go: what a call that fails has written.
use diff_mem.Prelude.{ℕ, refl, ap, ◌∙◌, ◌≡◌, true, false, none, some, [], ◌∷◌, inl, inr, arith, ltb}
use diff_mem.Text.{Text, is_empty, sort, insert_sorted, byte_length}
use diff_mem.Text.Laws.{text_eq_iff, text_eq_refl}
use diff_mem.Dict.{keys, lookup, lookup_or}
use diff_mem.Dict.Laws.{lookup-insert}
use diff_mem.Model.{Node, is_archived, UpdateOptions, UpdateFieldOptions, UpdateSummaryOptions}
use diff_mem.Validator.{validate_update_field, validate_update_summary, with_path}
use diff_mem.Env.{Env}
use diff_mem.Store.{Store, IsStore}
use diff_mem.Engine.{Engine, append_event}
use diff_mem.Engine.Effect.{IsWellFormed, get-put_self}
use diff_mem.Engine.Write.{
  replied, is_success, update, update_field, update_summary, check_update, apply_fields,
  finish_update, field_options, summary_options, field_updated, needs_reason,
}
use diff_mem.Engine.Write.Cases.{Refused, update_summary-cases}

module _ {Db : Type 0} (st : Store Db) (laws : IsStore st) (env : Env) where
  -- A field that passes the checks is in the node afterwards, and the summary is as it was.
  update_field-stores :
      (opts : UpdateFieldOptions) (e : Engine Db) (n : Node)
      → IsWellFormed st laws env e.store
      → st.get_node opts.path e.store ≡ some n
      → is_archived n.status ≡ false
      → validate_update_field env.unicode opts ≡ none
      → (is_success (update_field st env opts e).1 ≡ true)
        × (st.get_node opts.path (update_field st env opts e).0.store
            ≡ some (field_updated env opts e.calls n))
  unfolding update_field
  update_field-stores opts e n h found active valid =
      let filled = (h.good opts.path n found).has_fields in
      let node' = field_updated env opts e.calls n in
      let at_path : node'.path ≡ opts.path =
        unfold field_updated append_event in h.keyed opts.path n found in
      let stored : st.get_node opts.path (st.put_node node' e.store) ≡ some node' =
        get-put_self st laws env opts.path node' e.store at_path in
      (ground arith, ground arith)

  -- A summary of more than 500 bytes is refused, and nothing is written.
  update_summary-too_long :
      (opts : UpdateSummaryOptions) (e : Engine Db)
      → ltb 500 (byte_length opts.new_summary) ≡ true
      → Refused e (update_summary st env opts e)
  update_summary-too_long opts e long = elim (update_summary-cases st env opts e) [
    | inl r ↦ r
    | inr c ↦ absurd (unfold validate_update_summary with_path in ground (arith, c.valid))
  ]

  is_empty-long : (s : Text) → ltb 500 (byte_length s) ≡ true → is_empty s ≡ false
  unfolding byte_length
  is_empty-long [] long = cc
  is_empty-long (r ∷ s) long = refl

  check_update-passes :
      (opts : UpdateOptions) (n : Node) (f v : Text)
      → is_archived n.status ≡ false
      → opts.fields ≡ (f, v) ∷ []
      → n.summary ≡ opts.old_summary
      → needs_reason env opts.old_summary opts.new_summary opts.summary_reason ≡ false
      → check_update env opts n ≡ none
  unfolding check_update
  check_update-passes opts n f v active one same calm =
      ground (arith, text_eq_iff n.summary opts.old_summary, ap is_empty one)

  sort-keys_one :
      (opts : UpdateOptions) (f v : Text)
      → opts.fields ≡ (f, v) ∷ []
      → sort (keys opts.fields) ≡ f ∷ []
  unfolding keys sort insert_sorted
  sort-keys_one opts f v one = ap (λ m. sort (keys m)) one

  -- The loop over a single field.
  apply_fields-one :
      (opts : UpdateOptions) (e : Engine Db) (f : Text)
      → is_success (update_field st env (field_options opts f) e).1 ≡ true
      → apply_fields st env opts (f ∷ []) e
        ≡ ((update_field st env (field_options opts f) e).0, none)
  unfolding apply_fields
  apply_fields-one opts e f ok = ground arith

  field_updated-lem :
      (fo : UpdateFieldOptions) (c : ℕ) (n : Node)
      → (lookup fo.field (field_updated env fo c n).fields ≡ some fo.value)
        × ((field_updated env fo c n).summary ≡ n.summary)
  unfolding field_updated append_event
  field_updated-lem fo c n = (
    ground (arith, lookup-insert fo.field fo.field fo.value n.fields, text_eq_refl fo.field),
    refl,
  )

  value_lem : (f v : Text) → lookup_or [] f ((f, v) ∷ []) ≡ v
  unfolding lookup
  value_lem f v = rw (lookup_or, text_eq_refl f) refl

  -- On a well-formed store, let Update get one field that passes the checks of UpdateField, for an
  -- active node, with an old summary that is the node's, no drift that needs a reason, and a new
  -- summary of more than 500 bytes. Then it replies with a failure, and yet the stored node has
  -- the new value of the field, and its summary as before.
  pub update-partial :
      (opts : UpdateOptions) (e : Engine Db) (n : Node) (f v : Text)
      → IsWellFormed st laws env e.store
      → st.get_node opts.path e.store ≡ some n
      → is_archived n.status ≡ false
      → opts.fields ≡ (f, v) ∷ []
      → validate_update_field env.unicode (field_options opts f) ≡ none
      → n.summary ≡ opts.old_summary
      → needs_reason env opts.old_summary opts.new_summary opts.summary_reason ≡ false
      → ltb 500 (byte_length opts.new_summary) ≡ true
      → (is_success (update st env opts e).1 ≡ false)
        × (n' : Node) × (st.get_node opts.path (update st env opts e).0.store ≡ some n')
        × (lookup f n'.fields ≡ some v)
        × (n'.summary ≡ n.summary)
  unfolding update finish_update
  update-partial opts e n f v h found active one valid same calm long =
      let fo = field_options opts f in
      let (ok, stored) = update_field-stores fo e n h found active valid in
      let mid = (update_field st env fo e).0 in
      let applied =
        ap (λ ks. apply_fields st env opts ks e) (sort-keys_one opts f v one)
        ∙ apply_fields-one opts e f ok in
      let passes = check_update-passes opts n f v active one same calm in
      let given = is_empty-long opts.new_summary long in
      let so = summary_options opts in
      let r = update_summary-too_long so mid long in
      let (value, kept) = field_updated-lem fo e.calls n in
      let result : update st env opts e
          ≡ ((update_summary st env so mid).0, replied (update_summary st env so mid).1) =
        rw (update, found, passes, applied, given)
          (ap
            (λ (m : Engine Db).
              ((update_summary st env so m).0, replied (update_summary st env so m).1))
            (ap (λ x. x.0) applied)) in
      let at_f : fo.value ≡ v = ap (λ m. lookup_or [] f m) one ∙ value_lem f v in
      rw (result, r.same, r.failed)
        (refl, field_updated env fo e.calls n, stored, value ∙ ap some at_f, kept)
