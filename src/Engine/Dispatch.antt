-- ===== src/Engine/Dispatch.antt =====
-- Dispatch of internal/engine/engine.go.
use diff_mem.Prelude.{◌++◌, if◌then◌else◌}
use diff_mem.Prelude.{[]}
use diff_mem.Text.{Text, lit, text_eq, is_empty}
use diff_mem.Dict.{lookup}
use diff_mem.Model.{validation_failed, unknown_tool, ToolResponse, ArchiveOptions}
use diff_mem.Env.{Env}
use diff_mem.Params.{
  Params, string_at, bool_or_false, extract_create, extract_append, extract_update,
  extract_lifecycle, extract_search,
}
use diff_mem.Paths.{normalize_path}
use diff_mem.Store.{Store}
use diff_mem.Engine.{Engine, fail}
use diff_mem.Engine.Write.{Outcome, replied, create, append, update}
use diff_mem.Engine.Lifecycle.{delete, archive, restore}
use diff_mem.Engine.Read.{list, search, show, deep_load}

-- A handler that cannot panic.
abbrev pub reply {ℓ} : {E : Type ℓ} → E × ToolResponse → E × Outcome
reply (e, resp) = (e, replied resp)

module _ {Db : Type 0} (st : Store Db) (env : Env) where
  unfoldable pub lifecycle : Text → ArchiveOptions → Engine Db → Engine Db × ToolResponse
  lifecycle action opts e =
      if text_eq action (lit "delete")
      then delete st env opts e
      else if text_eq action (lit "archive")
      then archive st env opts e
      else if text_eq action (lit "restore")
      then restore st env opts e
      else (e, fail validation_failed (lit "action must be one of: delete, archive, restore") [])

  -- show without a window, or DeepLoad with one
  unfoldable pub show_window : Text → Text → Engine Db → Engine Db × ToolResponse
  show_window path window e =
      if is_empty window then show st env path e else (e, deep_load st path window e)

  unfoldable pub dispatch : Text → Params → Engine Db → Engine Db × Outcome
  unfolding lifecycle show_window
  dispatch name params e =
      if text_eq name (lit "create")
      then reply (create st env (extract_create params) e)
      else if text_eq name (lit "append")
      then reply (append st env (extract_append params) e)
      else if text_eq name (lit "update")
      then update st env (extract_update params) e
      else if text_eq name (lit "lifecycle")
      then (let (action, opts) = extract_lifecycle params in reply (lifecycle action opts e))
      else if text_eq name (lit "list")
      then reply (
        e,
        list st (normalize_path (string_at (lit "path") params))
            (bool_or_false (lookup (lit "include_archived") params)) e,
      )
      else if text_eq name (lit "search")
      then reply (e, search st env.unicode (extract_search env.int_of_float params) e)
      else if text_eq name (lit "show")
      then reply (
          show_window (normalize_path (string_at (lit "path") params))
            (string_at (lit "window") params) e)
      else (e, replied (fail unknown_tool (lit "unknown tool: " ++ name) []))
