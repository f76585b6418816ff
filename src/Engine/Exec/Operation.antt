-- ===== src/Engine/Exec/Operation.antt =====
-- One operation of a transaction: what holds of every handler holds of it.
use diff_mem.Prelude.{inl, inr, Option-cases, Bool-cases}
use diff_mem.Text.{Text, lit, text_eq}
use diff_mem.Dict.{lookup}
use diff_mem.Model.{CreateOptions, AppendOptions, UpdateOptions, ArchiveOptions}
use diff_mem.Env.{Env}
use diff_mem.Params.{
  Params, as_string, extract_create, extract_append, extract_update, extract_archive,
}
use diff_mem.Store.{Store}
use diff_mem.Engine.{Engine}
use diff_mem.Engine.Write.{panicked, create, append, update}
use diff_mem.Engine.Lifecycle.{delete, archive, restore}
use diff_mem.Engine.Dispatch.{reply}
use diff_mem.Engine.Exec.{
  Step, ran, skipped, run, with_field, with_summary, exec_update_field, exec_operation,
}

module _ {Db : Type 0} (st : Store Db) (env : Env) (e : Engine Db) (P : Engine Db × Step → Type 0)
    (on_create : (o : CreateOptions) → P (run (reply (create st env o e))))
    (on_append : (o : AppendOptions) → P (run (reply (append st env o e))))
    (on_update : (o : UpdateOptions) → P (run (update st env o e)))
    (on_delete : (o : ArchiveOptions) → P (run (reply (delete st env o e))))
    (on_archive : (o : ArchiveOptions) → P (run (reply (archive st env o e))))
    (on_restore : (o : ArchiveOptions) → P (run (reply (restore st env o e))))
    (on_panic : P (e, ran panicked)) (on_skip : P (e, skipped)) where
  exec_update_field-rule : (params : Params) → P (run (exec_update_field st env params e))
  unfolding exec_update_field
  exec_update_field-rule params = elim (Option-cases (as_string (lookup (lit "field") params))) [
    | inl missing ↦ rw (missing, exec_update_field) on_panic
    | inr (field, found) ↦ elim (Option-cases (as_string (lookup (lit "value") params))) [
      | inl missing ↦ rw (found, missing, exec_update_field) on_panic
      | inr (value, given) ↦
          rw (found, given, exec_update_field)
            (on_update (extract_update (with_field field value params)))
    ]
  ]

  pub exec_operation-rule :
      (name : Text) (params : Params) → P (exec_operation st env name params e)
  unfolding exec_operation
  exec_operation-rule name params = elim (Bool-cases (text_eq name (lit "CREATE"))) [
    | inl c ↦ rw c (on_create (extract_create params))
    | inr n0 ↦ elim (Bool-cases (text_eq name (lit "APPEND"))) [
      | inl c ↦ rw (n0, c) (on_append (extract_append params))
      | inr n1 ↦ elim (Bool-cases (text_eq name (lit "UPDATE_FIELD"))) [
        | inl c ↦ rw (n0, n1, c) (exec_update_field-rule params)
        | inr n2 ↦ elim (Bool-cases (text_eq name (lit "UPDATE_SUMMARY"))) [
          | inl c ↦ rw (n0, n1, n2, c) (on_update (extract_update (with_summary params)))
          | inr n3 ↦ elim (Bool-cases (text_eq name (lit "DELETE"))) [
            | inl c ↦ rw (n0, n1, n2, n3, c) (on_delete (extract_archive params))
            | inr n4 ↦ elim (Bool-cases (text_eq name (lit "ARCHIVE"))) [
              | inl c ↦ rw (n0, n1, n2, n3, n4, c) (on_archive (extract_archive params))
              | inr n5 ↦ elim (Bool-cases (text_eq name (lit "RESTORE"))) [
                | inl c ↦ rw (n0, n1, n2, n3, n4, n5, c) (on_restore (extract_archive params))
                | inr n6 ↦ rw (n0, n1, n2, n3, n4, n5, n6) on_skip
              ]
            ]
          ]
        ]
      ]
    ]
  ]
