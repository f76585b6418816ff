-- ===== src/Engine/Write/Writes.antt =====
-- The handlers of write.go as writes of Engine/Effect.
use diff_mem.Prelude.{
  ℕ, ◌+◌, ◌≡◌, refl, ap, ◌∙◌, false, none, some, List, [], ◌∷◌, ◌++◌, inl, inr, arith,
}
use diff_mem.Text.{Text, lit, member}
use diff_mem.Text.Laws.{text_eq_iff}
use diff_mem.Dict.{lookup}
use diff_mem.Dict.Laws.{lookup-insert}
use diff_mem.Model.{
  Event, Node, Time, CreateOptions, AppendOptions, UpdateFieldOptions, UpdateSummaryOptions,
}
use diff_mem.Env.{Env, Unicode}
use diff_mem.Validator.{validate_path, validate_create, validate_update_field, protected_fields}
use diff_mem.Store.{Store, IsStore}
use diff_mem.Engine.{Engine, append_event}
use diff_mem.Engine.Effect.{Extends, IsGood, Writes, Writes-one, born, grown, done}
use diff_mem.Engine.Write.{
  created_node, create, append, field_updated, update_field, summary_updated, update_summary,
}
use diff_mem.Engine.Write.Cases.{
  create-cases, append-cases, update_field-cases, update_summary-cases, appended_event,
}

pub validate_create-path :
    (u : Unicode) (opts : CreateOptions)
    → validate_create u opts ≡ none
    → validate_path u opts.path ≡ none
unfolding validate_create
validate_create-path u opts h = ground arith

-- A field that passes the checks is not protected.
pub validate_update_field-unprotected :
    (u : Unicode) (opts : UpdateFieldOptions)
    → validate_update_field u opts ≡ none
    → member opts.field protected_fields ≡ false
unfolding validate_update_field
validate_update_field-unprotected u opts h = ground arith

-- Appending an event keeps the identity of a node, and its good form.
pub append_event-Extends :
    (ev : Event) (now : Time) (n n' : Node)
    → n'.path ≡ n.path
    → n'.title ≡ n.title
    → n'.tags ≡ n.tags
    → n'.created_at ≡ n.created_at
    → n'.events ≡ n.events
    → Extends n (append_event ev now n')
unfolding append_event
append_event-Extends ev now n n' p t g c evs = record {
  path = p;
  title = t;
  tags = g;
  created_at = c;
  added = ev ∷ [];
  events = ap (λ (xs : List Event). xs ++ ev ∷ []) evs;
}

module _ (env : Env) where
  created_node-IsGood :
      (opts : CreateOptions) (c : ℕ)
      → validate_path env.unicode opts.path ≡ none
      → IsGood env (created_node env opts c)
  unfolding created_node lookup
  created_node-IsGood opts c h = record {
    valid = h;
    counted = refl;
    no_status = refl;
    no_summary = refl;
    has_fields = refl;
  }

  field_updated-IsGood :
      (opts : UpdateFieldOptions) (c : ℕ) (n : Node)
      → member opts.field protected_fields ≡ false
      → IsGood env n
      → IsGood env (field_updated env opts c n)
  unfolding field_updated append_event
  field_updated-IsGood opts c n h g = record {
    valid = g.valid;
    counted = refl;
    no_status = ground (
      arith,
      lookup-insert opts.field (lit "status") opts.value n.fields,
      text_eq_iff (lit "status") opts.field,
      text_eq_iff opts.field (lit "status"),
      g.no_status,
    );
    no_summary = ground (
      arith,
      lookup-insert opts.field (lit "summary") opts.value n.fields,
      text_eq_iff (lit "summary") opts.field,
      text_eq_iff opts.field (lit "summary"),
      g.no_summary,
    );
    has_fields = g.has_fields;
  }

  field_updated-Extends :
      (opts : UpdateFieldOptions) (c : ℕ) (n : Node) → Extends n (field_updated env opts c n)
  unfolding field_updated
  field_updated-Extends opts c n = append_event-Extends _ _ n _ refl refl refl refl refl

  summary_updated-Extends :
      (opts : UpdateSummaryOptions) (c : ℕ) (n : Node) → Extends n (summary_updated env opts c n)
  unfolding summary_updated
  summary_updated-Extends opts c n = append_event-Extends _ _ n _ refl refl refl refl refl

  summary_updated-IsGood :
      (opts : UpdateSummaryOptions) (c : ℕ) (n : Node)
      → IsGood env n
      → IsGood env (summary_updated env opts c n)
  unfolding summary_updated append_event
  summary_updated-IsGood opts c n g = record {
    valid = g.valid;
    counted = refl;
    no_status = g.no_status;
    no_summary = g.no_summary;
    has_fields = g.has_fields;
  }

module _ {Db : Type 0} (st : Store Db) (laws : IsStore st) (env : Env) where
  -- The place of the node that is written is the one that was looked up.
  abbrev pub IsKeyed : Db → Type 0
  IsKeyed db = (p : Text) (n : Node) → st.get_node p db ≡ some n → n.path ≡ p

  pub grown_at :
      {db : Db} (p : Text) (n n' : Node)
      → IsKeyed db
      → st.get_node p db ≡ some n
      → Extends n n'
      → (IsGood env n → IsGood env n')
      → Writes st env db (st.put_node n' db)
  grown_at {db} p n n' keyed found ext keep =
      Writes-one st env (grown n n' (ap (λ q. st.get_node q db) (keyed p n found) ∙ found) ext keep)

  pub create-Writes :
      (opts : CreateOptions) (e : Engine Db) → Writes st env e.store (create st env opts e).0.store
  create-Writes opts e = elim (create-cases st env opts e) [
    | inl r ↦ rw r.same done
    | inr c ↦ rw c.result (
        Writes-one st env (
          born (created_node env opts e.calls)
            (unfold created_node in ground (arith, laws.get-has opts.path e.store c.free))
            (created_node-IsGood env opts e.calls (validate_create-path env.unicode opts c.valid))))
  ]

  pub append-Writes :
      (opts : AppendOptions) (e : Engine Db)
      → IsKeyed e.store
      → Writes st env e.store (append st env opts e).0.store
  append-Writes opts e keyed = elim (append-cases st env opts e) [
    | inl r ↦ rw r.same done
    | inr c ↦ rw c.result (
        grown_at opts.path c.node _ keyed c.found
          (append_event-Extends (appended_event st env opts e) (env.os.now (e.calls + 2)) c.node
            c.node refl refl refl refl refl)
          (λ g. record {
            valid = unfold append_event in g.valid;
            counted = unfold append_event in refl;
            no_status = unfold append_event in g.no_status;
            no_summary = unfold append_event in g.no_summary;
            has_fields = unfold append_event in g.has_fields;
          }))
  ]

  pub update_field-Writes :
      (opts : UpdateFieldOptions) (e : Engine Db)
      → IsKeyed e.store
      → Writes st env e.store (update_field st env opts e).0.store
  update_field-Writes opts e keyed = elim (update_field-cases st env opts e) [
    | inl r ↦ rw r.same done
    | inr c ↦ rw c.result (
        grown_at opts.path c.node _ keyed c.found (field_updated-Extends env opts e.calls c.node) (
          field_updated-IsGood env opts e.calls c.node
            (validate_update_field-unprotected env.unicode opts c.valid)))
  ]

  pub update_summary-Writes :
      (opts : UpdateSummaryOptions) (e : Engine Db)
      → IsKeyed e.store
      → Writes st env e.store (update_summary st env opts e).0.store
  update_summary-Writes opts e keyed = elim (update_summary-cases st env opts e) [
    | inl r ↦ rw r.same done
    | inr c ↦ rw c.result (
        grown_at opts.path c.node _ keyed c.found (summary_updated-Extends env opts e.calls c.node)
          (summary_updated-IsGood env opts e.calls c.node))
  ]
