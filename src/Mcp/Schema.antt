-- ===== src/Mcp/Schema.antt =====
-- internal/mcp/schema.go: the input schemas of the tools, as the JSON values that the texts spell.
use diff_mem.Prelude.{pos, false, List, [], ◌∷◌}
use diff_mem.Text.{Text, lit}
use diff_mem.Dict.{Dict}
use diff_mem.Params.{Json, Items, Members, nil, cons, end, str, num, bool, arr, obj}

unfoldable pub members_from : List (Text × Json) → Members
members_from [] = end
members_from ((k, v) ∷ ms) = Members.member k v (members_from ms)

unfoldable pub object : List (Text × Json) → Json
unfolding members_from
object ms = obj (members_from ms)

unfoldable pub items_from : List Text → Items
items_from [] = nil
items_from (t ∷ ts) = cons (str t) (items_from ts)

unfoldable pub texts : List Text → Json
unfolding items_from
texts ts = arr (items_from ts)

unfoldable pub schema_create : Json
unfolding object texts
schema_create = object (
    (lit "type", str (lit "object"))
    ∷ (
      lit "properties",
      object (
          (
            lit "path",
            object (
                (lit "type", str (lit "string"))
                ∷ (
                  lit "description",
                  str (
                      lit
                        "新节点的完整路径，必须以 /short-term（短期记忆）或 /long-term（长期记忆）开头，如 /long-term/projects/alpha。中间目录无需预先创建；引擎会做规范化（转小写、去特殊字符）。"),
                )
                ∷ []),
          )
          ∷ (
            lit "title",
            object (
                (lit "type", str (lit "string"))
                ∷ (lit "description", str (lit "节点的人类可读标题。"))
                ∷ []),
          )
          ∷ (
            lit "summary",
            object (
                (lit "type", str (lit "string"))
                ∷ (lit "description", str (lit "节点的一句话摘要，用于检索匹配。应包含关键实体（人名/数字/日期/专有名词）。"))
                ∷ []),
          )
          ∷ (
            lit "tags",
            object (
                (lit "type", str (lit "array"))
                ∷ (lit "items", object ((lit "type", str (lit "string")) ∷ []))
                ∷ (lit "description", str (lit "标签列表，用于倒排索引精确搜索。"))
                ∷ []),
          )
          ∷ (
            lit "initial_events",
            object (
                (lit "type", str (lit "array"))
                ∷ (lit "items", object ((lit "type", str (lit "string")) ∷ []))
                ∷ (
                  lit "description",
                  str (lit "初始事件列表。第一条事件会记录节点创建的原因和内容。事件文本中可用 [[/path]] 链接其他节点。"),
                )
                ∷ []),
          )
          ∷ (
            lit "reason",
            object (
                (lit "type", str (lit "string"))
                ∷ (lit "description", str (lit "创建此节点的原因，用于审计追溯。"))
                ∷ []),
          )
          ∷ []),
    )
    ∷ (lit "required", texts (lit "path" ∷ lit "title" ∷ lit "summary" ∷ lit "reason" ∷ []))
    ∷ (lit "additionalProperties", bool false)
    ∷ [])

unfoldable pub schema_append : Json
unfolding object texts
schema_append = object (
    (lit "type", str (lit "object"))
    ∷ (
      lit "properties",
      object (
          (
            lit "path",
            object (
                (lit "type", str (lit "string"))
                ∷ (lit "description", str (lit "目标节点的完整路径。"))
                ∷ []),
          )
          ∷ (
            lit "event",
            object (
                (lit "type", str (lit "string"))
                ∷ (
                  lit "description",
                  str (lit "要追加的事件内容，按时间顺序不可修改或删除。事件文本中可用 [[/path]] 链接其他节点，链接目标必须已存在。"),
                )
                ∷ []),
          )
          ∷ (
            lit "reason",
            object (
                (lit "type", str (lit "string"))
                ∷ (lit "description", str (lit "追加此事件的原因——必须说明为什么值得记，写不出 reason 就说明不该记。"))
                ∷ []),
          )
          ∷ []),
    )
    ∷ (lit "required", texts (lit "path" ∷ lit "event" ∷ lit "reason" ∷ []))
    ∷ (lit "additionalProperties", bool false)
    ∷ [])

unfoldable pub schema_update : Json
unfolding object texts
schema_update = object (
    (lit "type", str (lit "object"))
    ∷ (
      lit "properties",
      object (
          (
            lit "path",
            object (
                (lit "type", str (lit "string"))
                ∷ (lit "description", str (lit "目标节点的完整路径。"))
                ∷ []),
          )
          ∷ (
            lit "fields",
            object (
                (lit "type", str (lit "object"))
                ∷ (lit "additionalProperties", object ((lit "type", str (lit "string")) ∷ []))
                ∷ (
                  lit "description",
                  str (lit "{字段名: 新值} 映射，批量更新字段。字段不存在时自动注册。外层 reason 作为整批字段变更的审计原因。"),
                )
                ∷ []),
          )
          ∷ (
            lit "summary",
            object (
                (lit "type", str (lit "object"))
                ∷ (
                  lit "properties",
                  object (
                      (
                        lit "old",
                        object (
                            (lit "type", str (lit "string"))
                            ∷ (lit "description", str (lit "当前摘要（从 diff_mem_show 获取，供引擎做新旧对比）。"))
                            ∷ []),
                      )
                      ∷ (
                        lit "new",
                        object (
                            (lit "type", str (lit "string"))
                            ∷ (lit "description", str (lit "新摘要。应保留旧摘要中的关键事实，仅更新变化部分。"))
                            ∷ []),
                      )
                      ∷ (
                        lit "reason",
                        object (
                            (lit "type", str (lit "string"))
                            ∷ (lit "description", str (lit "更新摘要的原因。关键实体消失时必须解释，否则拒绝。"))
                            ∷ []),
                      )
                      ∷ []),
                )
                ∷ (lit "required", texts (lit "old" ∷ lit "new" ∷ []))
                ∷ (lit "additionalProperties", bool false)
                ∷ (
                  lit "description",
                  str (lit "摘要刷新。引擎对比 old/new，发现关键实体（人名/数字/日期/专有名词）消失时检查 reason，缺失或过短则拒绝。"),
                )
                ∷ []),
          )
          ∷ (
            lit "reason",
            object (
                (lit "type", str (lit "string"))
                ∷ (lit "description", str (lit "字段变更的审计原因（配合 fields 使用）。"))
                ∷ []),
          )
          ∷ []),
    )
    ∷ (lit "required", texts (lit "path" ∷ []))
    ∷ (lit "additionalProperties", bool false)
    ∷ [])

unfoldable pub schema_lifecycle : Json
unfolding object texts
schema_lifecycle = object (
    (lit "type", str (lit "object"))
    ∷ (
      lit "properties",
      object (
          (
            lit "action",
            object (
                (lit "type", str (lit "string"))
                ∷ (lit "enum", texts (lit "delete" ∷ lit "archive" ∷ lit "restore" ∷ []))
                ∷ (
                  lit "description",
                  str (
                      lit
                        "delete：删除节点及所有子节点，不可逆，被其他活跃节点链接时拒绝。archive：归档节点，冻结并移出默认搜索，可恢复，被链接时返回警告。restore：恢复已归档节点。"),
                )
                ∷ []),
          )
          ∷ (
            lit "path",
            object (
                (lit "type", str (lit "string"))
                ∷ (lit "description", str (lit "目标节点的完整路径。"))
                ∷ []),
          )
          ∷ (
            lit "reason",
            object (
                (lit "type", str (lit "string"))
                ∷ (lit "description", str (lit "操作原因，用于审计。"))
                ∷ []),
          )
          ∷ []),
    )
    ∷ (lit "required", texts (lit "action" ∷ lit "path" ∷ lit "reason" ∷ []))
    ∷ (lit "additionalProperties", bool false)
    ∷ [])

unfoldable pub schema_list : Json
unfolding object texts
schema_list = object (
    (lit "type", str (lit "object"))
    ∷ (
      lit "properties",
      object (
          (
            lit "path",
            object (
                (lit "type", str (lit "string"))
                ∷ (
                  lit "description",
                  str (
                      lit
                        "要列出的路径。空字符串或 / 列出根层级（short-term 与 long-term 两个记忆区）。目录无需真实存在，按前缀聚合返回。每次只返回一层，不会递归展开。子节点超过 50 个时自动按前缀分组并置 has_more=true。"),
                )
                ∷ []),
          )
          ∷ (
            lit "include_archived",
            object (
                (lit "type", str (lit "boolean"))
                ∷ (lit "default", bool false)
                ∷ (lit "description", str (lit "是否包含已归档节点。默认排除。"))
                ∷ []),
          )
          ∷ []),
    )
    ∷ (lit "required", texts (lit "path" ∷ []))
    ∷ (lit "additionalProperties", bool false)
    ∷ [])

unfoldable pub schema_search : Json
unfolding object texts
schema_search = object (
    (lit "type", str (lit "object"))
    ∷ (
      lit "properties",
      object (
          (
            lit "tags",
            object (
                (lit "type", str (lit "array"))
                ∷ (lit "items", object ((lit "type", str (lit "string")) ∷ []))
                ∷ (lit "description", str (lit "按标签精确匹配（倒排索引，快）。传入多个标签时取交集。"))
                ∷ []),
          )
          ∷ (
            lit "keywords",
            object (
                (lit "type", str (lit "string"))
                ∷ (lit "description", str (lit "在 path 层级名和 summary 中做关键词模糊匹配。"))
                ∷ []),
          )
          ∷ (
            lit "limit",
            object (
                (lit "type", str (lit "integer"))
                ∷ (lit "default", num (pos 10))
                ∷ (lit "maximum", num (pos 50))
                ∷ (lit "description", str (lit "最大返回数量，默认 10，硬上限 50。"))
                ∷ []),
          )
          ∷ []),
    )
    ∷ (lit "additionalProperties", bool false)
    ∷ (lit "description", str (lit "tags 与 keywords 可同时传入，结果取并集后按相关性排序。"))
    ∷ [])

unfoldable pub schema_show : Json
unfolding object texts
schema_show = object (
    (lit "type", str (lit "object"))
    ∷ (
      lit "properties",
      object (
          (
            lit "path",
            object
                ((lit "type", str (lit "string")) ∷ (lit "description", str (lit "节点的完整路径。")) ∷ []),
          )
          ∷ (
            lit "window",
            object (
                (lit "type", str (lit "string"))
                ∷ (
                  lit "enum",
                  texts (
                      lit "recent"
                      ∷ lit "last_10"
                      ∷ lit "last_50"
                      ∷ lit "last_100"
                      ∷ lit "all"
                      ∷ []),
                )
                ∷ (
                  lit "description",
                  str (
                      lit
                        "可选。传入时附带 Body 事件流：recent=最近 5 条，last_N=最近 N 条，all=全部（单次封顶 500 条，超过置 has_more=true）。不传则返回轻量结果：Header + links/backlinks。建议先看不带 window 的轻量结果再决定是否深入。"),
                )
                ∷ []),
          )
          ∷ []),
    )
    ∷ (lit "required", texts (lit "path" ∷ []))
    ∷ (lit "additionalProperties", bool false)
    ∷ [])

-- toolSchemas
abbrev pub tool_schemas : Dict Json
tool_schemas =
    (lit "create", schema_create)
    ∷ (lit "append", schema_append)
    ∷ (lit "update", schema_update)
    ∷ (lit "lifecycle", schema_lifecycle)
    ∷ (lit "list", schema_list)
    ∷ (lit "search", schema_search)
    ∷ (lit "show", schema_show)
    ∷ []
