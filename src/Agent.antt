-- ===== src/Agent.antt =====
-- internal/agent/agent.go: the agent, over the HTTP client and encoding/json.
pub mod Monad
pub mod Recall
pub mod Repl
pub mod Session
pub mod Command
use diff_mem.Prelude.{
  ℕ, Bool, true, false, Option, none, some, List, [], ◌∷◌, ◌++◌, not, if◌then◌else◌, ◌==◌,
}
use diff_mem.Text.{Text, lit, slash, is_empty, trim_right, trim_space, split_slash}
use diff_mem.Dict.{Dict}
use diff_mem.Model.{Time}
use diff_mem.Params.{Json, null, str, arr, Params}
use diff_mem.Mcp.Schema.{object, items_from}
use diff_mem.Engine.{last_segment}
use diff_mem.Engine.Exec.{itoa}
use diff_mem.Agent.Monad.{
  Done, done, Result, ok, err, panic, Action, pure, raise, crash, ◌>>=◌, ◌>>◌, attempt, or_raise,
  raise_if,
}

-- `model.ErrorInfo` and `model.ToolResponse` as they are decoded from a body. `Json.null` is the nil of
-- `interface{}`.
pub record ErrorInfo : Type 0 where
  pub code : Text
  pub message : Text
  pub suggestion : Text

pub record Response : Type 0 where
  pub success : Bool
  pub result : Json
  pub error : Option ErrorInfo

-- `model.Header` as it is decoded from a body: the status may be any text.
pub record Header : Type 0 where
  pub path : Text
  pub title : Text
  pub status : Text
  pub tags : List Text
  pub summary : Text
  pub fields : Dict Text
  pub event_count : ℕ
  pub last_accessed : Option Time

-- `model.Event` as it is decoded from a body.
pub record Event : Type 0 where
  pub type : Text
  pub content : Text
  pub timestamp : Time

pub record EventSummary : Type 0 where
  pub type : Text
  pub content : Text
  pub timestamp : Text

pub record RecallResult : Type 0 where
  pub path : Text
  pub title : Text
  pub status : Text
  pub summary : Text
  pub tags : List Text
  pub events : List EventSummary

pub record AgentStatus : Type 0 where
  pub session_path : Text
  pub profile_path : Text
  pub server_url : Text
  pub session_exists : Bool
  pub profile_exists : Bool
  pub interaction_count : ℕ
  pub last_interaction : Option Text

pub record Agent : Type 0 where
  pub base_url : Text
  pub session_path : Text
  pub profile_path : Text

-- client.Do: an error, or a status and a body.
pub data Sent (Body : Type 0) : Type 0 where
  refused : Text → Sent Body
  received : (status : ℕ) → Body → Sent Body

-- net/http, encoding/json and the format of package time. `W` is the world beyond the connection. The
-- decoders answer `none` for an error; `as_entries` keeps the paths of the `[]SearchResultEntry`, and
-- `as_show` the header of the `ShowResult`.
pub record Client (W : Type 0) : Type 1 where
  pub Body : Type 0
  pub marshal : Json → Option Body
  pub is_url : Text → Bool
  pub post : Text → Body → W → Sent Body × W
  pub body_text : Body → Text
  pub as_response : Body → Option Response
  pub as_entries : Body → Option (List Text)
  pub as_object : Body → Option Params
  pub as_show : Body → Option Header
  pub as_header : Body → Option Header
  pub as_deep_load : Body → Option (List Event)
  pub as_events : Body → Option (List Event)
  pub rfc3339 : Time → Text

-- New; `today` is time.Now().Format("2006-01-02").
unfoldable pub new_agent : Text → Text → Agent
unfolding trim_right
new_agent base_url today = record {
  base_url = trim_right (λ c. c == slash) base_url;
  session_path = lit "/short-term/agent/session-" ++ today;
  profile_path = lit "/long-term/agent/profile";
}

-- `resp.Error.Message`, which panics if the error is nil.
abbrev pub message_of : {W : Type 0} → Response → Action W Text
message_of resp = elim resp.error [ none ↦ crash | some info ↦ pure info.message ]

-- if !resp.Success { return fmt.Errorf("…: %s", resp.Error.Message) }
abbrev pub expect_success : {W : Type 0} → Text → Response → Action W Done
expect_success prefix resp =
    if resp.success then pure done else (message_of resp >>= λ message. raise (prefix ++ message))

abbrev pub succeeded : Option Response → Bool
succeeded none = false
succeeded (some resp) = resp.success

abbrev pub or_default : Text → Text → Text
or_default reason default = if is_empty (trim_space reason) then default else reason

-- var tagArgs []interface{}: nil if there are no tags
abbrev pub tag_args : List Text → Json
tag_args [] = null
tag_args (t ∷ ts) = arr (items_from (t ∷ ts))

module _ {W : Type 0} (c : Client W) where
  -- What callTool makes of the answer.
  abbrev pub read_answer : Text → Sent c.Body → Action W Response
  read_answer url (refused message) =
      raise (lit "HTTP request to " ++ (url ++ (lit ": " ++ message)))
  read_answer url (received status body) =
      if status == 200
      then or_raise (c.as_response body) (lit "decode response")
      else raise (lit "server returned " ++ (itoa status ++ (lit ": " ++ c.body_text body)))

  abbrev pub send : Text → c.Body → Action W Response
  send url body w = let (answer, w') = c.post url body w in read_answer url answer w'

  -- The actions of one agent.
  module _ (a : Agent) where
    -- callTool; the texts of the library's own errors are left out.
    unfoldable pub call_tool : Text → List (Text × Json) → Action W Response
    call_tool name params = do
      body ← or_raise (c.marshal (object params)) (lit "marshal params")
      let url = a.base_url ++ (lit "/tools/" ++ name)
      raise_if (not (c.is_url url)) (lit "create request")
      send url body

    unfoldable pub node_exists : Text → Action W Bool
    node_exists path = do
      resp ← attempt (call_tool (lit "show") ((lit "path", str path) ∷ []))
      pure (succeeded resp)

    -- The call of ensureNode.
    abbrev pub create_call : Text → Text → Text → List Text → Text → Action W Response
    create_call path title summary tags reason = call_tool (lit "create") (
        (lit "path", str path)
        ∷ (lit "title", str title)
        ∷ (lit "summary", str summary)
        ∷ (lit "tags", tag_args tags)
        ∷ (lit "reason", str reason)
        ∷ [])

    unfoldable pub ensure_node : Text → Text → Text → List Text → Text → Action W Done
    ensure_node path title summary tags reason = do
      exists ← node_exists path
      if exists then pure done else (create_call path title summary tags reason >> pure done)

    -- Init; `today` is time.Now().Format("2006-01-02").
    unfoldable pub init : Text → Action W Done
    init today = do
      ensure_node a.profile_path (lit "Agent Profile") (lit "Agent 的配置和元信息") []
          (lit "初始化 agent profile")
      ensure_node a.session_path (lit "Session " ++ last_segment (split_slash a.session_path))
          (lit "Agent 会话记录 — " ++ today) [] (lit "初始化 agent 会话")

    unfoldable pub store : Text → Text → Action W Done
    store memory reason = do
      resp ← call_tool (lit "append") (
          (lit "path", str a.session_path)
          ∷ (lit "event", str memory)
          ∷ (lit "reason", str (or_default reason (lit "agent 自动记录")))
          ∷ [])
      expect_success (lit "store failed: ") resp

    unfoldable pub record_interaction : Text → Text → Action W Done
    record_interaction role content =
        store (lit "[" ++ (role ++ (lit "] " ++ content))) (lit "记录 " ++ (role ++ lit " 轮次"))

    unfoldable pub forget_path : Text → Text → Action W Done
    forget_path path reason = do
      resp ← call_tool (lit "lifecycle") (
          (lit "action", str (lit "archive"))
          ∷ (lit "path", str path)
          ∷ (lit "reason", str (or_default reason (lit "agent 清理旧记忆")))
          ∷ [])
      expect_success (lit "forget failed: ") resp
