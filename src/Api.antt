-- ===== src/Api.antt =====
-- internal/api/server.go: the HTTP server.
use diff_mem.Prelude.{ℕ, ◌≡◌, refl, ◌⊎◌, inl, inr, Bool, none, some, List, [], ◌∷◌}
use diff_mem.Text.{Text, lit}
use diff_mem.Dict.{Dict, lookup}
use diff_mem.Model.{invalid_params, ToolResponse}
use diff_mem.Env.{Env}
use diff_mem.Params.{Params}
use diff_mem.Store.{Store}
use diff_mem.Engine.{Engine, fail}
use diff_mem.Engine.Write.{Outcome, replied, panicked}
use diff_mem.Engine.Dispatch.{dispatch}
use diff_mem.Engine.Exec.{exec}

-- A decoded body, or the decoder's error text.
pub data Decoded (A : Type 0) : Type 0 where
  decoded : A → Decoded A
  malformed : Text → Decoded A

pub Decoded-cases :
    {A : Type 0} (d : Decoded A)
    → ((a : A) × (d ≡ decoded a)) ⊎ ((message : Text) × (d ≡ malformed message))
Decoded-cases (decoded a) = inl (a, refl)
Decoded-cases (malformed message) = inr (message, refl)

-- encoding/json at the types that the servers exchange. A decoded `null` is an empty map, as far as a
-- handler can tell. `success` is what decoding into `struct{ Success bool }` leaves.
pub record Wire : Type 1 where
  pub Body : Type 0
  pub decode_params : Body → Decoded Params
  pub decode_operations : Body → Decoded (List Params)
  pub encode : ToolResponse → Body
  pub encode_status : Dict Text → Body
  pub success : Body → Bool

pub data Handler : Type 0 where
  tool : Text → Handler
  transaction health : Handler

-- RegisterRoutes
abbrev pub routes : Dict Handler
routes =
    (lit "POST /tools/create", tool (lit "create"))
    ∷ (lit "POST /tools/append", tool (lit "append"))
    ∷ (lit "POST /tools/update", tool (lit "update"))
    ∷ (lit "POST /tools/lifecycle", tool (lit "lifecycle"))
    ∷ (lit "POST /tools/list", tool (lit "list"))
    ∷ (lit "POST /tools/search", tool (lit "search"))
    ∷ (lit "POST /tools/show", tool (lit "show"))
    ∷ (lit "POST /tools/exec", transaction)
    ∷ (lit "GET /health", health)
    ∷ []

-- What a client gets: a status with a body, no answer after a panic (net/http drops the connection),
-- or the answer of the ServeMux itself, if no pattern fits.
pub data Reply (Body : Type 0) : Type 0 where
  answered : (status : ℕ) → Body → Reply Body
  aborted unrouted : Reply Body

module _ (w : Wire) where
  -- writeError
  abbrev pub write_error : Text → Reply w.Body
  write_error message = answered 400 (w.encode (fail invalid_params message []))

  -- writeJSON, on the outcome of a handler
  abbrev pub write_json : Outcome → Reply w.Body
  write_json (replied resp) = answered 200 (w.encode resp)
  write_json panicked = aborted

  module _ {Db : Type 0} (st : Store Db) (env : Env) where
    abbrev pub write_outcome : Engine Db × Outcome → Engine Db × Reply w.Body
    write_outcome (e, o) = (e, write_json o)

    unfoldable pub handle : Text → w.Body → Engine Db → Engine Db × Reply w.Body
    handle name body e = elim (w.decode_params body) [
      | malformed message ↦ (e, write_error message)
      | decoded params ↦ write_outcome (dispatch st env name params e)
    ]

    unfoldable pub handle_exec : w.Body → Engine Db → Engine Db × Reply w.Body
    handle_exec body e = elim (w.decode_operations body) [
      | malformed message ↦ (e, write_error message)
      | decoded ops ↦ write_outcome (exec st env ops e)
    ]

    unfoldable pub run_handler : Handler → w.Body → Engine Db → Engine Db × Reply w.Body
    unfolding handle handle_exec
    run_handler (tool name) body e = handle name body e
    run_handler transaction body e = handle_exec body e
    run_handler health body e = (e, answered 200 (w.encode_status ((lit "status", lit "ok") ∷ [])))

    -- One request. The ServeMux matches its method and path against the patterns.
    unfoldable pub serve : Text → w.Body → Engine Db → Engine Db × Reply w.Body
    unfolding run_handler
    serve pattern body e = elim (lookup pattern routes) [
      | none ↦ (e, unrouted)
      | some h ↦ run_handler h body e
    ]
