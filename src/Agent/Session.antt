-- ===== src/Agent/Session.antt =====
-- The agent of internal/agent/agent.go on a server of internal/api/server.go.
use diff_mem.Prelude.{
  ◌≡◌, ◌≢◌, refl, sym, ap, ◌∙◌, Bool, true, false, not, ◌&&◌, some, List, [], ◌∷◌, ◌++◌, ◌⊎◌, inl,
  inr, Bool-cases, Option-cases, if◌then◌else◌,
}
use diff_mem.Text.{Text, lit, text_eq, member}
use diff_mem.Dict.{lookup, keys}
use diff_mem.Model.{Node, ToolResponse, AppendOptions, is_archived}
use diff_mem.Env.{Env}
use diff_mem.Params.{Json, str, Params, string_at, path_at, extract_append}
use diff_mem.Paths.{normalize_path}
use diff_mem.Store.{Store, IsStore}
use diff_mem.Mcp.Schema.{object, schema_append, tool_schemas}
use diff_mem.Mcp.Contract.{dispatch-declared}
use diff_mem.Engine.{Engine}
use diff_mem.Engine.Effect.{IsWellFormed}
use diff_mem.Engine.Write.{Outcome-cases, append, replied}
use diff_mem.Engine.Write.Cases.{append-cases}
use diff_mem.Engine.Write.Posts.{contents, append-stores}
use diff_mem.Engine.Dispatch.{reply, dispatch}
use diff_mem.Engine.Tools.{dispatch-replies}
use diff_mem.Api.{
  decoded, Wire, tool, Reply, answered, aborted, unrouted, routes, handle, run_handler, serve,
}
use diff_mem.Agent.{
  Response, Sent, refused, received, Agent, Client, or_default, expect_success, call_tool, store,
}
use diff_mem.Agent.Monad.{done, ok}

-- The keys are different.
unfoldable pub is_distinct : List Text → Bool
is_distinct [] = true
is_distinct (k ∷ ks) = not (member k ks) && is_distinct ks

module _ {Db : Type 0} (st : Store Db) (env : Env) (w : Wire) where
  -- What of the server's answer the client reads.
  abbrev pub arrived : {B : Type 0} → (w.Body → B) → Engine Db × Reply w.Body → Sent B × Engine Db
  arrived to_client (e, answered status body) = (received status (to_client body), e)
  arrived to_client (e, aborted) = (refused (lit "EOF"), e)
  arrived to_client (e, unrouted) = (received 404 (to_client (w.encode_status [])), e)

  -- The agent's client is connected to the server: requests and answers arrive as they were sent, a
  -- map is decoded to the same map, and a response keeps its success.
  pub record Connection (a : Agent) (c : Client (Engine Db)) : Type 0 where
    pub to_server : c.Body → w.Body
    pub to_client : w.Body → c.Body
    pub encode : List (Text × Json) → c.Body
    pub encodes : (ps : List (Text × Json)) → c.marshal (object ps) ≡ some (encode ps)
    pub is_url :
        (name : Text)
        → lookup (lit "POST /tools/" ++ name) routes ≡ some (tool name)
        → c.is_url (a.base_url ++ (lit "/tools/" ++ name)) ≡ true
    pub posts :
        (name : Text) (body : c.Body) (e : Engine Db)
        → lookup (lit "POST /tools/" ++ name) routes ≡ some (tool name)
        → c.post (a.base_url ++ (lit "/tools/" ++ name)) body e
          ≡ arrived to_client (serve w st env (lit "POST /tools/" ++ name) (to_server body) e)
    pub decodes :
        (ps : List (Text × Json))
        → is_distinct (keys ps) ≡ true
        → (params : Params) × (w.decode_params (to_server (encode ps)) ≡ decoded params)
          × ((k : Text) → lookup k params ≡ lookup k ps)
    pub reads :
        (r : ToolResponse)
        → (resp : Response) × (c.as_response (to_client (w.encode r)) ≡ some resp)
          × (resp.success ≡ r.success)

expect_success-fails :
    {W : Type 0} (prefix : Text) (resp : Response) (w : W)
    → resp.success ≡ false
    → ((expect_success prefix resp w).0 ≢ ok done) × ((expect_success prefix resp w).1 ≡ w)
expect_success-fails prefix resp w bad = elim (Option-cases resp.error) [
  | inl nothing ↦ rw (bad, nothing, expect_success) ((λ p. cc), refl)
  | inr (info, there) ↦ rw (bad, there, expect_success) ((λ p. cc), refl)
]

module _ {Db : Type 0} (st : Store Db) (laws : IsStore st) (env : Env) (w : Wire) (a : Agent)
    (c : Client (Engine Db)) (line : Connection st env w a c) where
  -- A call of a tool that is routed and has a schema is one Dispatch, and its response arrives.
  pub call_tool-dispatch :
      (name : Text) (schema : Json) (ps : List (Text × Json)) (e : Engine Db)
      → lookup (lit "POST /tools/" ++ name) routes ≡ some (tool name)
      → lookup name tool_schemas ≡ some schema
      → is_distinct (keys ps) ≡ true
      → IsWellFormed st laws env e.store
      → (r : ToolResponse) × (resp : Response) × ((dispatch st env name ps e).1 ≡ replied r)
        × (resp.success ≡ r.success)
        × (call_tool c a name ps e ≡ (ok resp, (dispatch st env name ps e).0))
  unfolding call_tool serve run_handler handle
  call_tool-dispatch name schema ps e routed known distinct h =
      let (params, parsed, agree) = line.decodes ps distinct in
      let same : dispatch st env name params e ≡ dispatch st env name ps e =
        dispatch-declared st env name schema params ps e known (λ k m. agree k) in
      elim (Outcome-cases (dispatch st env name ps e).1) [
        | inr panics ↦ absurd (dispatch-replies st laws env name ps e h panics)
        | inl (r, reply) ↦
            let (resp, arrives, tells) = line.reads r in
            (
              r,
              resp,
              reply,
              tells,
              rw
                  (
                    line.encodes ps,
                    line.is_url name routed,
                    line.posts name (line.encode ps) e routed,
                    routed,
                    parsed,
                    same,
                    reply,
                    arrives,
                    call_tool,
                    serve,
                    run_handler,
                    handle,
                  )
                  refl,
            )
      ]

  -- The path of the session node, as the engine normalises it.
  abbrev pub session_node : Text
  session_node = normalize_path a.session_path

  -- The session node is active and gets one event with the text; nothing else changes.
  abbrev pub Remembered : Text → Db → Db → Type 0
  Remembered memory db last =
      (n : Node) × (n' : Node) × (st.get_node session_node db ≡ some n)
      × (is_archived n.status ≡ false)
      × (contents n'.events ≡ contents n.events ++ memory ∷ [])
      × ((q : Text)
          → st.get_node q last ≡ (if text_eq session_node q then some n' else st.get_node q db))

  -- The arguments of Store's call, as they are sent and as the engine extracts them.
  abbrev sent : Text → Text → List (Text × Json)
  sent memory reason =
      (lit "path", str a.session_path)
      ∷ (lit "event", str memory)
      ∷ (lit "reason", str (or_default reason (lit "agent 自动记录")))
      ∷ []

  abbrev extracted : Text → Text → AppendOptions
  extracted memory reason = record {
    path = session_node;
    event = memory;
    reason = or_default reason (lit "agent 自动记录");
  }

  dispatch-sent :
      (memory reason : Text) (e : Engine Db)
      → dispatch st env (lit "append") (sent memory reason) e
        ≡ reply (append st env (extracted memory reason) e)
  unfolding dispatch extract_append path_at string_at lookup text_eq lit
  dispatch-sent memory reason e = refl

  append-refused :
      (opts : AppendOptions) (e : Engine Db)
      → (append st env opts e).1.success ≡ false
      → (append st env opts e).0 ≡ e
  append-refused opts e bad = elim (append-cases st env opts e) [
    | inl r ↦ r.same
    | inr x ↦ cc (bad, ap (λ (y : Engine Db × ToolResponse). y.1.success) x.result)
  ]

  -- If the agent's client is connected to a server on a well-formed store, then Store either
  -- returns no error, and the session node was active and has the text as one more event while
  -- every other path finds what it found before, or it returns no success and the engine is as it
  -- was.
  pub store-whole :
      (memory reason : Text) (e : Engine Db)
      → IsWellFormed st laws env e.store
      → (((store c a memory reason e).0 ≡ ok done)
          × Remembered memory e.store (store c a memory reason e).1.store)
        ⊎ (((store c a memory reason e).0 ≢ ok done) × ((store c a memory reason e).1 ≡ e))
  unfolding store lookup text_eq lit is_distinct keys
  store-whole memory reason e h =
      let (r, resp, replies, tells, called) =
        call_tool-dispatch (lit "append") schema_append (sent memory reason) e refl refl refl h in
      let opts = extracted memory reason in
      let same : (append st env opts e).1 ≡ r = cc (replies, dispatch-sent memory reason e) in
      let agrees = ap (λ (x : ToolResponse). x.success) same ∙ sym tells in
      elim (Bool-cases resp.success) [
        | inl good ↦
            let (n, n', found, is_live, others, texts, _, _, _, _) =
              append-stores st laws env opts e h.keyed (agrees ∙ good) in
            inl (
              rw (called, good, dispatch-sent memory reason e, store)
                (refl, (n, n', found, is_live, texts, others)))
        | inr bad ↦ inr (
            rw (called, dispatch-sent memory reason e, store)
              (rw (append-refused opts e (agrees ∙ bad))
                (expect_success-fails (lit "store failed: ") resp e bad)))
      ]
