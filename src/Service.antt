-- ===== src/Service.antt =====
-- A running service: the HTTP server of internal/api/server.go and the MCP server of
-- internal/mcp/server.go around one engine. Requests are served one after the other.
pub mod Invariant
pub mod Tools
use diff_mem.Prelude.{Option}
use diff_mem.Text.{Text}
use diff_mem.Env.{Env}
use diff_mem.Store.{Store}
use diff_mem.Engine.{Engine, new_engine}
use diff_mem.Api.{Wire, serve}
use diff_mem.Mcp.{call}

module _ (w : Wire) where
  pub data Request : Type 0 where
    http : (pattern : Text) → w.Body → Request
    mcp : (name : Text) → Option w.Body → Request

  module _ {Db : Type 0} (st : Store Db) (env : Env) where
    -- The engine after one request.
    unfoldable pub take_request : Request → Engine Db → Engine Db
    take_request (http pattern body) e = (serve w st env pattern body e).0
    take_request (mcp name args) e = (call w st env name args e).0

    -- The engines that a service which starts on the store `db` passes through.
    pub data Reachable (db : Db) : Engine Db → Type 0 where
      started : Reachable db (new_engine st db)
      served : {e : Engine Db} (r : Request) → Reachable db e → Reachable db (take_request r e)
