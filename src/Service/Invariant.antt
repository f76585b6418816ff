-- ===== src/Service/Invariant.antt =====
-- The state of the engine behind the servers of internal/api and internal/mcp.
use diff_mem.Prelude.{Option, inl, inr, Option-cases}
use diff_mem.Text.{Text}
use diff_mem.Dict.{lookup}
use diff_mem.Env.{Env, RoundTrips}
use diff_mem.Store.{Store, IsStore}
use diff_mem.Engine.{Engine}
use diff_mem.Engine.Effect.{IsWellFormed}
use diff_mem.Engine.Consistent.{
  IsConsistent, dispatch-IsConsistent, new_engine-IsConsistent, exec-IsConsistent,
}
use diff_mem.Api.{
  Decoded-cases, Wire, Handler, tool, transaction, health, routes, handle, handle_exec, run_handler,
  serve,
}
use diff_mem.Mcp.{arguments, engine_name, call_tool, call, register_tools}
use diff_mem.Service.{Request, http, mcp, take_request, Reachable, started, served}

module _ (w : Wire) {Db : Type 0} (st : Store Db) (laws : IsStore st) (env : Env)
    (trips : RoundTrips env.codec) where
  handle-IsConsistent :
      (name : Text) (body : w.Body) (e : Engine Db)
      → IsConsistent st laws env e
      → IsConsistent st laws env (handle w st env name body e).0
  unfolding handle
  handle-IsConsistent name body e h = elim (Decoded-cases (w.decode_params body)) [
    | inl (params, eq) ↦ rw (eq, handle) (dispatch-IsConsistent st laws env name params e h)
    | inr (message, eq) ↦ rw (eq, handle) h
  ]

  handle_exec-IsConsistent :
      (body : w.Body) (e : Engine Db)
      → IsConsistent st laws env e
      → IsConsistent st laws env (handle_exec w st env body e).0
  unfolding handle_exec
  handle_exec-IsConsistent body e h = elim (Decoded-cases (w.decode_operations body)) [
    | inl (ops, eq) ↦ rw (eq, handle_exec) (exec-IsConsistent st laws env trips ops e h)
    | inr (message, eq) ↦ rw (eq, handle_exec) h
  ]

  run_handler-IsConsistent :
      (k : Handler) (body : w.Body) (e : Engine Db)
      → IsConsistent st laws env e
      → IsConsistent st laws env (run_handler w st env k body e).0
  unfolding run_handler
  run_handler-IsConsistent (tool name) body e h = handle-IsConsistent name body e h
  run_handler-IsConsistent transaction body e h = handle_exec-IsConsistent body e h
  run_handler-IsConsistent health body e h = h

  serve-IsConsistent :
      (pattern : Text) (body : w.Body) (e : Engine Db)
      → IsConsistent st laws env e
      → IsConsistent st laws env (serve w st env pattern body e).0
  unfolding serve
  serve-IsConsistent pattern body e h = elim (Option-cases (lookup pattern routes)) [
    | inl unrouted ↦ rw (unrouted, serve) h
    | inr (k, eq) ↦ rw (eq, serve) (run_handler-IsConsistent k body e h)
  ]

  call-IsConsistent :
      (name : Text) (args : Option w.Body) (e : Engine Db)
      → IsConsistent st laws env e
      → IsConsistent st laws env (call w st env name args e).0
  unfolding call call_tool
  call-IsConsistent name args e h = elim (Option-cases register_tools) [
    | inl refused ↦ rw (refused, call) h
    | inr (ts, eq) ↦ elim (Option-cases (lookup name ts)) [
      | inl unknown ↦ rw (eq, unknown, call) h
      | inr (t, found) ↦
          rw (eq, found, call)
            (dispatch-IsConsistent st laws env (engine_name t.name) (arguments w args) e h)
    ]
  ]

  take_request-IsConsistent :
      (r : Request w) (e : Engine Db)
      → IsConsistent st laws env e
      → IsConsistent st laws env (take_request w st env r e)
  unfolding take_request
  take_request-IsConsistent (http pattern body) e h = serve-IsConsistent pattern body e h
  take_request-IsConsistent (mcp name args) e h = call-IsConsistent name args e h

  -- If a node codec round-trips and the store that a service starts on is well formed, then after
  -- any sequence of HTTP requests and MCP calls, transactions and failed requests included, the
  -- store is well formed and the link index is sound for it.
  pub Reachable-IsConsistent :
      (db : Db) (e : Engine Db)
      → IsWellFormed st laws env db
      → Reachable w st env db e
      → IsConsistent st laws env e
  Reachable-IsConsistent db _ h started = new_engine-IsConsistent st laws env db h
  Reachable-IsConsistent db _ h (served {e} r reached) =
      take_request-IsConsistent r e (Reachable-IsConsistent db e h reached)
