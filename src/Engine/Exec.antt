-- ===== src/Engine/Exec.antt =====
-- Exec of internal/engine/engine.go: a transaction with a snapshot and a rollback.
pub mod Rollback
pub mod Atomic
pub mod Panic
pub mod Operation
use Prim.Native.Nat.{◌/◌, ◌%◌}
use diff_mem.Prelude.{
  ℕ, zero, suc, ◌+◌, Bool, true, false, not, ◌&&◌, ◌||◌, Option, none, some, List, [], ◌∷◌, ◌++◌,
  ltb, ◌==◌, if◌then◌else◌, length,
}
use diff_mem.Text.{Text, lit, text_eq, is_empty, member}
use diff_mem.Dict.{Dict, lookup, insert}
use diff_mem.Model.{
  Node, Code, validation_failed, transaction_failed, committed, ErrorInfo, ToolResponse,
}
use diff_mem.Env.{Env, Codec}
use diff_mem.Params.{
  Json, Members, null, str, obj, end, Params, as_string, members_of, extract_create, extract_append,
  extract_update, extract_archive,
}
use diff_mem.Links.{empty_index}
use diff_mem.Store.{Store, paths}
use diff_mem.Engine.{Engine, success, fail, add_all_links}
use diff_mem.Engine.Write.{Outcome, replied, panicked, create, append, update}
use diff_mem.Engine.Lifecycle.{delete, archive, restore}
use diff_mem.Engine.Dispatch.{reply}

-- strconv.Itoa, for a number below 10 ^ fuel
unfoldable pub itoa_from : ℕ → ℕ → Text
itoa_from zero n = []
itoa_from (suc fuel) n =
    let front = itoa_from fuel (n / 10) in
    if ltb n 10 then (b'0' + n) ∷ [] else front ++ (b'0' + n % 10) ∷ []

abbrev pub itoa : ℕ → Text
itoa n = itoa_from (suc n) n

abbrev pub read_operations : List Text
read_operations = lit "SHOW" ∷ lit "LIST" ∷ lit "SEARCH" ∷ lit "DEEP_LOAD" ∷ []

-- The first loop: every operation has a name, and none is a read.
unfoldable pub check_operations : ℕ → List Params → Option ToolResponse
check_operations i [] = none
check_operations i (op ∷ ops) =
    let rest = check_operations (suc i) ops in
    elim (as_string (lookup (lit "op") op)) [
      | none ↦
          some
            (fail validation_failed (lit "operation [" ++ (itoa i ++ lit "] op must be string")) [])
      | some name ↦
          if member name read_operations
          then some (
              fail validation_failed
                (lit "read operation " ++ (name ++ lit " not allowed in transaction")) [])
          else rest
    ]

-- `params["old_summary"]` as an interface value: nil if the key is missing.
abbrev pub value_or_nil : Option Json → Json
value_or_nil none = null
value_or_nil (some v) = v

-- params["summary"] = map[string]interface{}{"old": …, "new": …, "reason": …}
unfoldable pub with_summary : Params → Params
with_summary params =
    insert (lit "summary")
      (obj (
        Members.member (lit "old") (value_or_nil (lookup (lit "old_summary") params)) (
          Members.member (lit "new") (value_or_nil (lookup (lit "new_summary") params))
            (Members.member (lit "reason") (value_or_nil (lookup (lit "reason") params)) end))))
      params

-- params["fields"] = map[string]interface{}{field: value}
unfoldable pub with_field : Text → Text → Params → Params
with_field field value params =
    insert (lit "fields") (obj (Members.member field (str value) end)) params

-- The outcome of one operation; an unknown name does nothing and gives no response.
pub data Step : Type 0 where
  ran : Outcome → Step
  skipped : Step

abbrev pub run {ℓ} : {E : Type ℓ} → E × Outcome → E × Step
run (e, o) = (e, ran o)

-- cloneNode
unfoldable pub clone_node : Codec → Node → Option Node
clone_node c n = elim (c.marshal n) [ none ↦ none | some b ↦ c.unmarshal b ]

unfoldable pub clone_nodes : Codec → List Node → Option (List Node)
unfolding clone_node
clone_nodes c [] = some []
clone_nodes c (n ∷ ns) =
    let rest = clone_nodes c ns in
    elim (clone_node c n) [
      | none ↦ none
      | some n' ↦ elim rest [ none ↦ none | some ns' ↦ some (n' ∷ ns') ]
    ]

abbrev pub error_message : ToolResponse → Text
error_message resp = elim resp.error [ none ↦ [] | some info ↦ info.message ]

abbrev pub rolled_back : ℕ → ToolResponse → ToolResponse
rolled_back i resp =
    fail transaction_failed
      (lit "operation ["
        ++ (itoa i
            ++ (lit "] failed: " ++ (error_message resp ++ lit "; transaction rolled back"))))
      []

-- opName := op["op"].(string), which the first loop has checked
abbrev pub op_name : Params → Text
op_name op = elim (as_string (lookup (lit "op") op)) [ none ↦ [] | some name ↦ name ]

module _ {Db : Type 0} (st : Store Db) where
  -- The loop of restore that deletes what the snapshot does not hold.
  unfoldable pub delete_others : List Text → List Text → Db → Db
  delete_others keep [] db = db
  delete_others keep (p ∷ ps) db =
      delete_others keep ps (if member p keep then db else st.delete_node p db)

  -- The loop of restore that puts the snapshot back; a node that cannot be cloned is passed over.
  unfoldable pub put_back : Codec → List Node → Db → Db
  put_back c [] db = db
  put_back c (n ∷ ns) db =
      put_back c ns (elim (clone_node c n) [ none ↦ db | some n' ↦ st.put_node n' db ])

  unfoldable pub restore_snapshot : Codec → List Node → Engine Db → Engine Db
  unfolding delete_others put_back
  restore_snapshot c snap e = record e {
    store = put_back c snap (delete_others (paths snap) (paths (st.all_nodes e.store)) e.store);
    links = add_all_links snap empty_index;
  }

module _ {Db : Type 0} (st : Store Db) (env : Env) where
  -- `params["field"].(string)` and `params["value"].(string)` panic if the assertion fails.
  unfoldable pub exec_update_field : Params → Engine Db → Engine Db × Outcome
  exec_update_field params e = elim (as_string (lookup (lit "field") params)) [
    | none ↦ (e, panicked)
    | some field ↦ elim (as_string (lookup (lit "value") params)) [
      | none ↦ (e, panicked)
      | some value ↦ update st env (extract_update (with_field field value params)) e
    ]
  ]

  unfoldable pub exec_operation : Text → Params → Engine Db → Engine Db × Step
  unfolding exec_update_field
  exec_operation name params e =
      if text_eq name (lit "CREATE")
      then run (reply (create st env (extract_create params) e))
      else if text_eq name (lit "APPEND")
      then run (reply (append st env (extract_append params) e))
      else if text_eq name (lit "UPDATE_FIELD")
      then run (exec_update_field params e)
      else if text_eq name (lit "UPDATE_SUMMARY")
      then run (update st env (extract_update (with_summary params)) e)
      else if text_eq name (lit "DELETE")
      then run (reply (delete st env (extract_archive params) e))
      else if text_eq name (lit "ARCHIVE")
      then run (reply (archive st env (extract_archive params) e))
      else if text_eq name (lit "RESTORE")
      then run (reply (restore st env (extract_archive params) e))
      else (e, skipped)

  -- What follows one operation: the rest of the transaction, a rollback, or the panic.
  abbrev pub after_step :
      List Node → ℕ → Engine Db × Step → (Engine Db → Engine Db × Outcome) → Engine Db × Outcome
  after_step snap i (e, skipped) next = next e
  after_step snap i (e, ran panicked) next = (e, panicked)
  after_step snap i (e, ran (replied resp)) next = elim resp.success [
    | true ↦ next e
    | false ↦ (restore_snapshot st env.codec snap e, replied (rolled_back i resp))
  ]

  unfoldable pub exec_loop : List Node → ℕ → ℕ → List Params → Engine Db → Engine Db × Outcome
  exec_loop snap total i [] e = (e, replied (success (committed total)))
  exec_loop snap total i (op ∷ ops) e =
      after_step snap i (exec_operation (op_name op) (members_of (lookup (lit "params") op)) e)
        (exec_loop snap total (suc i) ops)

  unfoldable pub exec : List Params → Engine Db → Engine Db × Outcome
  unfolding exec_loop
  exec ops e =
      if is_empty ops || ltb 20 (length ops)
      then (e, replied (fail validation_failed (lit "operations must be 1-20 items") []))
      else elim (check_operations 0 ops) [
        | some resp ↦ (e, replied resp)
        | none ↦ elim (clone_nodes env.codec (st.all_nodes e.store)) [
          | none ↦
              (e, replied (fail transaction_failed (lit "snapshot before transaction failed: ") []))
          | some snap ↦ exec_loop snap (length ops) 0 ops e
        ]
      ]
