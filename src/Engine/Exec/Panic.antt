-- ===== src/Engine/Exec/Panic.antt =====
-- Exec with an operation that panics.
use diff_mem.Prelude.{◌≡◌, refl, true, false, none, some, [], ◌∷◌, arith}
use diff_mem.Text.{Text, lit, text_eq, member}
use diff_mem.Dict.{lookup}
use diff_mem.Model.{ToolResponse}
use diff_mem.Env.{Env, RoundTrips}
use diff_mem.Params.{Params, as_string, members_of}
use diff_mem.Store.{Store}
use diff_mem.Engine.{Engine}
use diff_mem.Engine.Write.{replied, panicked}
use diff_mem.Engine.Exec.{
  ran, read_operations, exec_operation, exec_update_field, exec_loop, exec, check_operations,
}
use diff_mem.Engine.Exec.Rollback.{clone_nodes_lem}
use diff_mem.Engine.Exec.Atomic.{run_operation}

-- An UPDATE_FIELD operation whose "field" is not a string.
pub record LacksField (op : Params) : Type 0 where
  pub named : as_string (lookup (lit "op") op) ≡ some (lit "UPDATE_FIELD")
  pub lacks : as_string (lookup (lit "field") (members_of (lookup (lit "params") op))) ≡ none

module _ {Db : Type 0} (st : Store Db) (env : Env) where
  run_operation-panics :
      (op : Params) (e : Engine Db) → LacksField op → run_operation st env op e ≡ (e, ran panicked)
  unfolding exec_operation exec_update_field text_eq lit
  run_operation-panics op e h = ground (arith, h.named, h.lacks)

  -- With a node codec that round-trips: a transaction of an operation that replies with a success
  -- and an UPDATE_FIELD without a string field panics, and the state is that after the first
  -- operation, with nothing rolled back.
  pub exec-keeps_partial_work :
      (op bad : Params) (e mid : Engine Db) (name : Text) (r : ToolResponse)
      → RoundTrips env.codec
      → as_string (lookup (lit "op") op) ≡ some name
      → member name read_operations ≡ false
      → run_operation st env op e ≡ (mid, ran (replied r))
      → r.success ≡ true
      → LacksField bad
      → exec st env (op ∷ bad ∷ []) e ≡ (mid, panicked)
  unfolding exec exec_loop check_operations
  exec-keeps_partial_work op bad e mid name r trips named write first ok h = ground (
    arith,
    clone_nodes_lem env.codec trips (st.all_nodes e.store),
    run_operation-panics bad mid h,
    write_name,
    h.named,
  )
    where
      write_name : member (lit "UPDATE_FIELD") read_operations ≡ false
      write_name = unfold text_eq lit in refl
