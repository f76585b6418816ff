-- ===== src/Mcp.antt =====
-- internal/mcp/server.go: the MCP server and its tools.
pub mod Schema
pub mod Contract
use diff_mem.Prelude.{
  ℕ, ◌≡◌, Bool, true, false, not, Option, none, some, List, [], ◌∷◌, drop, length,
}
use diff_mem.Text.{Text, lit}
use diff_mem.Dict.{Dict, lookup, insert}
use diff_mem.Env.{Env}
use diff_mem.Params.{Json, Params}
use diff_mem.Store.{Store}
use diff_mem.Engine.{Engine}
use diff_mem.Engine.Write.{Outcome, replied, panicked}
use diff_mem.Engine.Dispatch.{dispatch}
use diff_mem.Api.{Decoded, decoded, malformed, Wire}
use diff_mem.Mcp.Schema.{tool_schemas}

pub record Tool : Type 0 where
  pub name : Text
  pub description : Text
  pub input_schema : Option Json

-- The tools of registerTools, in its order.
abbrev pub tools : List Tool
tools =
    record {
      name = lit "diff_mem_create";
      description =
          lit
            "在记忆树中创建新节点。path 必须以 /short-term（短期）或 /long-term（长期）开头；中间目录无需预先创建。Body 事件中可用 [[/path]] 链接其他记忆，链接目标必须已存在（或是指向现有节点的目录路径）。";
      input_schema = lookup (lit "create") tool_schemas;
    }
    ∷ record {
      name = lit "diff_mem_append";
      description = lit "向节点追加事件。仅出现值得记录的新事实时调用。事件中可用 [[/path]] 链接其他记忆，链接目标必须已存在，否则写入被拒绝。";
      input_schema = lookup (lit "append") tool_schemas;
    }
    ∷ record {
      name = lit "diff_mem_update";
      description =
          lit
            "更新节点 Header。fields 传 {字段: 值} 批量改字段；summary 传 {old, new, reason} 刷新摘要（实体消失需解释原因）。两者可同时提交。";
      input_schema = lookup (lit "update") tool_schemas;
    }
    ∷ record {
      name = lit "diff_mem_lifecycle";
      description =
          lit
            "节点生命周期状态转换。action: delete（删除，不可逆，有活跃依赖时拒绝）/ archive（归档，冻结并移出默认搜索，可恢复）/ restore（恢复归档节点）。";
      input_schema = lookup (lit "lifecycle") tool_schemas;
    }
    ∷ record {
      name = lit "diff_mem_list";
      description = lit "列出指定路径下的直接子节点。path 为空或 / 时列出根层级。";
      input_schema = lookup (lit "list") tool_schemas;
    }
    ∷ record {
      name = lit "diff_mem_search";
      description = lit "搜索节点。支持 tags 精确匹配和 keywords 模糊匹配。";
      input_schema = lookup (lit "search") tool_schemas;
    }
    ∷ record {
      name = lit "diff_mem_show";
      description =
          lit
            "查看节点。不传 window：返回 Header + 内容链接（links）与反向链接（backlinks），用于发现相关记忆。传 window（recent/last_10/last_50/last_100/all）：附带 Body 事件流，先看摘要再决定是否深入。";
      input_schema = lookup (lit "show") tool_schemas;
    }
    ∷ []

-- t.Name[len("diff_mem_"):]
abbrev pub engine_name : Text → Text
engine_name name = drop (length (lit "diff_mem_")) name

-- addTool: `none` is the panic on a tool that has no schema.
unfoldable pub add_tool : Tool → Dict Tool → Option (Dict Tool)
add_tool t ts = elim t.input_schema [ none ↦ none | some schema ↦ some (insert t.name t ts) ]

-- The calls of registerTools, one after the other.
unfoldable pub add_tools : List Tool → Dict Tool → Option (Dict Tool)
unfolding add_tool
add_tools [] ts = some ts
add_tools (t ∷ rest) ts = elim (add_tool t ts) [ none ↦ none | some ts' ↦ add_tools rest ts' ]

-- registerTools
unfoldable pub register_tools : Option (Dict Tool)
unfolding add_tools
register_tools = add_tools tools []

-- What a client gets: the text with the error flag, a crash, or the refusal of the library.
pub data Called (Body : Type 0) : Type 0 where
  result : (text : Body) (is_error : Bool) → Called Body
  crashed unknown : Called Body

module _ (w : Wire) where
  -- json.Unmarshal(b, &args), whose error is ignored; `none` stands for no arguments.
  abbrev pub arguments : Option w.Body → Params
  arguments none = []
  arguments (some b) = elim (w.decode_params b) [ decoded params ↦ params | malformed _ ↦ [] ]

  abbrev pub tool_result : Outcome → Called w.Body
  tool_result (replied resp) = result (w.encode resp) (not (w.success (w.encode resp)))
  tool_result panicked = crashed

  module _ {Db : Type 0} (st : Store Db) (env : Env) where
    abbrev pub call_outcome : Engine Db × Outcome → Engine Db × Called w.Body
    call_outcome (e, o) = (e, tool_result o)

    -- The handler that addTool gives to the library.
    unfoldable pub call_tool : Text → Option w.Body → Engine Db → Engine Db × Called w.Body
    call_tool name args e = call_outcome (dispatch st env (engine_name name) (arguments args) e)

    -- One tools/call request.
    unfoldable pub call : Text → Option w.Body → Engine Db → Engine Db × Called w.Body
    unfolding call_tool
    call name args e = elim register_tools [
      | none ↦ (e, unknown)
      | some ts ↦ elim (lookup name ts) [ none ↦ (e, unknown) | some t ↦ call_tool t.name args e ]
    ]
