-- ===== src/Service/Tools.antt =====
-- The tools of internal/mcp/server.go beside the routes of internal/api/server.go.
use diff_mem.Prelude.{◌≡◌, refl, subst, not, none, some, Option, [], ◌++◌, All, inl, inr}
use diff_mem.Text.{Text, lit, text_eq}
use diff_mem.Dict.{Dict, lookup, insert}
use diff_mem.Dict.Laws.{All-lookup}
use diff_mem.Model.{ToolResponse}
use diff_mem.Env.{Env}
use diff_mem.Params.{Params}
use diff_mem.Store.{Store, IsStore}
use diff_mem.Engine.{Engine}
use diff_mem.Engine.Effect.{IsWellFormed}
use diff_mem.Engine.Write.{Outcome-cases, replied}
use diff_mem.Engine.Dispatch.{dispatch}
use diff_mem.Engine.Tools.{dispatch-replies}
use diff_mem.Api.{decoded, Wire, tool, answered, routes, handle, run_handler, serve}
use diff_mem.Mcp.{
  Tool, engine_name, register_tools, add_tool, add_tools, arguments, tool_result, call_tool, call,
  result,
}

abbrev pub route : Text → Text
route name = lit "POST /tools/" ++ engine_name name

-- A tool that is registered under its name, and has a route.
abbrev IsServed : Text → Tool → Type 0
IsServed name t = (t.name ≡ name) × (lookup (route name) routes ≡ some (tool (engine_name name)))

abbrev pub registered : Dict Tool
registered = elim register_tools [ none ↦ [] | some ts ↦ ts ]

pub register_tools_lem : register_tools ≡ some registered
unfolding register_tools add_tools add_tool lookup text_eq lit insert
register_tools_lem = refl

registered-IsServed : All (λ (kt : Text × Tool). IsServed kt.0 kt.1) registered
unfolding register_tools add_tools add_tool lookup text_eq lit insert
registered-IsServed = (
  (refl, refl),
  ((refl, refl), ((refl, refl), ((refl, refl), ((refl, refl), ((refl, refl), ((refl, refl), _)))))),
)

found-IsServed :
    (name : Text) (t : Tool) (ts : Dict Tool)
    → register_tools ≡ some ts
    → lookup name ts ≡ some t
    → IsServed name t
found-IsServed name t ts e found =
    All-lookup IsServed name t ts
      (subst
        (λ (m : Option (Dict Tool)).
          All (λ (kt : Text × Tool). IsServed kt.0 kt.1) (elim m [ none ↦ [] | some x ↦ x ]))
        e registered-IsServed)
      found

module _ (w : Wire) (encodes : (r : ToolResponse) → w.success (w.encode r) ≡ r.success)
    {Db : Type 0} (st : Store Db) (laws : IsStore st) (env : Env) where
  -- The two answers to one tool call, and the engine that both leave.
  abbrev pub Answers : Text → w.Body → Params → Engine Db → ToolResponse → Type 0
  Answers name body params e resp =
      let last = (dispatch st env (engine_name name) params e).0 in
      (call w st env name (some body) e ≡ (last, result (w.encode resp) (not resp.success)))
      × (serve w st env (route name) body e ≡ (last, answered 200 (w.encode resp)))

  answers :
      (name : Text) (t : Tool) (ts : Dict Tool) (body : w.Body) (params : Params) (e : Engine Db)
      (resp : ToolResponse)
      → register_tools ≡ some ts
      → lookup name ts ≡ some t
      → IsServed name t
      → w.decode_params body ≡ decoded params
      → (dispatch st env (engine_name name) params e).1 ≡ replied resp
      → Answers name body params e resp
  unfolding call call_tool serve handle run_handler
  answers name t ts body params e resp all found (same, routed) parsed reply = (
    rw (all, found, same, parsed, reply, encodes resp, call, call_tool, arguments, tool_result)
        refl,
    rw (routed, parsed, reply, serve, run_handler, handle) refl,
  )

  -- If the wire format keeps the success of a response, then on a well-formed store every call of
  -- a registered MCP tool with arguments that can be decoded is answered, and a POST of the same
  -- body to /tools/ and the tool's name without diff_mem_ is answered with status 200: both bodies
  -- encode the same response, both leave the engine of one Dispatch, and the MCP error flag is set
  -- exactly if the response is no success.
  pub call-serve :
      (name : Text) (t : Tool) (ts : Dict Tool) (body : w.Body) (params : Params) (e : Engine Db)
      → register_tools ≡ some ts
      → lookup name ts ≡ some t
      → w.decode_params body ≡ decoded params
      → IsWellFormed st laws env e.store
      → (resp : ToolResponse) × Answers name body params e resp
  call-serve name t ts body params e all found parsed h =
      elim (Outcome-cases (dispatch st env (engine_name name) params e).1) [
        | inr panic ↦ absurd (dispatch-replies st laws env (engine_name name) params e h panic)
        | inl (resp, reply) ↦ (
          resp,
          answers name t ts body params e resp all found (found-IsServed name t ts all found) parsed
              reply,
        )
      ]
