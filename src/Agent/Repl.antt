-- ===== src/Agent/Repl.antt =====
-- internal/agent/repl.go: the interactive loop.
pub mod Loop
use diff_mem.Prelude.{
  ℕ, suc, Bool, true, false, not, ◌&&◌, ◌||◌, Option, none, some, List, [], ◌∷◌, ◌++◌,
  if◌then◌else◌, length, take, drop, ltb, ◌==◌,
}
use diff_mem.Text.{
  Text, lit, text_eq, is_empty, has_prefix, has_suffix, contains, join, span, trim_space,
}
use diff_mem.Dict.{Dict}
use diff_mem.Engine.Exec.{itoa}
use diff_mem.Agent.{
  EventSummary, RecallResult, Header, AgentStatus, Agent, Client, init, store, record_interaction,
  forget_path,
}
use diff_mem.Agent.Recall.{recall, status, show}
use diff_mem.Agent.Monad.{
  Done, done, Result, ok, err, panic, Action, pure, raise, ◌>>=◌, ◌>>◌, attempt, raise_if, Terminal,
  on_world, print, when, on_error, prefixed,
}

abbrev pub Loop : Type 0 → Type 0
Loop W = Action (Terminal W) Done

abbrev pub line_of : Text → Text → Text
line_of label value = label ++ (value ++ lit "\n")

abbrev pub bool_str : Bool → Text
bool_str true = lit "存在"
bool_str false = lit "不存在"

abbrev pub prompt : Text
prompt = lit "diff-mem-agent> "

-- The command word and the trimmed argument: strings.SplitN(line, " ", 2).
unfoldable pub command_word : Text → Text
unfolding span
command_word line = (span (λ c. not (c == 32)) line).0

unfoldable pub command_argument : Text → Text
unfolding span
command_argument line = trim_space (drop 1 (span (λ c. not (c == 32)) line).1)

unfoldable pub needs_recall : Text → Bool
needs_recall line =
    has_suffix line (lit "?")
    || has_suffix line (lit "？")
    || has_prefix line (lit "今天")
    || has_prefix line (lit "昨天")
    || has_prefix line (lit "最近")
    || contains line (lit "做什么")
    || contains line (lit "说过")
    || contains line (lit "记得")
    || contains line (lit "之前")

-- The first 50 runes, and a mark if there are more.
unfoldable pub preview : Text → Text
preview content = if ltb 50 (length content) then take 50 content ++ lit "…" else content

module _ {W : Type 0} where
  -- printHelp
  abbrev pub print_help : Loop W
  print_help = print (
      lit
        "\n  diff-mem-agent — 内置记忆助手\n\n  命令:\n    .recall <query>     检索相关记忆\n    .store <content>    记录新内容\n    .show <path>        查看节点详情\n    .status             显示 agent 状态\n    .forget <path>      归档节点\n    .help               本帮助\n    .quit / .exit       退出\n\n  自然语言:\n    以 '?' 或 '？' 结尾 → 检索\n    其他输入 → 自动存储\n")

  abbrev pub print_if_any : Text → Text → Loop W
  print_if_any label value = when (not (is_empty value)) (print (line_of label value))

  abbrev pub print_tags : Text → List Text → Loop W
  print_tags label tags = when (not (is_empty tags)) (print (line_of label (join (lit ", ") tags)))

  unfoldable pub print_events : List EventSummary → Loop W
  print_events [] = pure done
  print_events (ev ∷ evs) = do
    print (lit "        [" ++ (ev.type ++ line_of (lit "] ") ev.content))
    print_events evs

  unfoldable pub print_fields : Dict Text → Loop W
  print_fields [] = pure done
  print_fields ((k, v) ∷ fs) = do print (lit "    " ++ (k ++ line_of (lit ": ") v)); print_fields fs

  abbrev pub print_section : Bool → Text → Loop W → Loop W
  print_section there label rest = when there (print label >> rest)

  -- The loop of cmdRecall; `i` counts from 0.
  unfoldable pub print_results : ℕ → List RecallResult → Loop W
  print_results i [] = pure done
  print_results i (r ∷ rs) = do
    print (lit "  [" ++ (itoa (suc i) ++ line_of (lit "] ") r.path))
    print_if_any (lit "      标题: ") r.title
    print_if_any (lit "      状态: ") r.status
    print_if_any (lit "      摘要: ") r.summary
    print_tags (lit "      标签: ") r.tags
    print_section (not (is_empty r.events)) (lit "      最近事件:\n") (print_events r.events)
    print (lit "\n")
    print_results (suc i) rs

module _ {W : Type 0} (c : Client W) (a : Agent) where
  -- What cmdRecall prints for the results.
  abbrev pub print_recalled : List RecallResult → Loop W
  print_recalled results =
      if is_empty results then print (lit "  (没有找到相关记忆)\n") else print_results 0 results

  -- The error of RecordInteraction is dropped.
  unfoldable pub cmd_recall : Text → Loop W
  cmd_recall query = do
    on_world (attempt (record_interaction c a (lit "user") (lit "recall: " ++ query)))
    print (lit "\n🔍 检索: " ++ line_of [] query)
    results ← prefixed (lit "recall error: ") (on_world (recall c a query))
    print_recalled results

  unfoldable pub cmd_store : Text → Loop W
  cmd_store content = do
    prefixed (lit "store failed: ") (on_world (store c a content (lit "用户输入: " ++ preview content)))
    print (lit "✓ 已记录 (→ " ++ line_of a.session_path (lit ")"))

  unfoldable pub cmd_show : Text → Loop W
  cmd_show path = do
    header ← on_world (show c a path)
    print (line_of (lit "  路径: ") header.path)
    print (line_of (lit "  标题: ") header.title)
    print (line_of (lit "  状态: ") header.status)
    print_if_any (lit "  摘要: ") header.summary
    print_tags (lit "  标签: ") header.tags
    print (line_of (lit "  事件数: ") (itoa header.event_count))
    print_section (not (is_empty header.fields)) (lit "  字段:\n") (print_fields header.fields)

  abbrev pub node_line : Text → Text → Bool → Loop W
  node_line label path exists =
      print (label ++ (path ++ (lit " [" ++ line_of (bool_str exists) (lit "]"))))

  abbrev pub print_last : Option Text → Loop W
  print_last none = pure done
  print_last (some t) = print (line_of (lit "  最后交互:  ") t)

  unfoldable pub cmd_status : Loop W
  cmd_status = do
    s ← prefixed (lit "status error: ") (on_world (status c a))
    print (lit "  Agent 状态\n")
    print (lit "  ─────────────────────\n")
    print (line_of (lit "  Server:    ") s.server_url)
    node_line (lit "  Session:   ") s.session_path s.session_exists
    node_line (lit "  Profile:   ") s.profile_path s.profile_exists
    print (line_of (lit "  交互次数:  ") (itoa s.interaction_count))
    print_last s.last_interaction

  unfoldable pub cmd_forget : Text → Loop W
  cmd_forget path = do
    on_world (forget_path c a path (lit "用户手动归档"))
    print (line_of (lit "✓ 已归档: ") path)

  -- if arg == "" { return fmt.Errorf(…) }
  abbrev pub with_argument : Text → Text → (Text → Loop W) → Loop W
  with_argument usage arg command = raise_if (is_empty arg) usage >> command arg

  unfoldable pub handle_command : Text → Loop W
  handle_command line =
      let cmd = command_word line in
      let arg = command_argument line in
      if text_eq cmd (lit ".help")
      then print_help
      else if text_eq cmd (lit ".recall")
      then with_argument (lit "usage: .recall <query>") arg cmd_recall
      else if text_eq cmd (lit ".store")
      then with_argument (lit "usage: .store <content>") arg cmd_store
      else if text_eq cmd (lit ".show")
      then with_argument (lit "usage: .show <path>") arg cmd_show
      else if text_eq cmd (lit ".status")
      then cmd_status
      else if text_eq cmd (lit ".forget")
      then with_argument (lit "usage: .forget <path>") arg cmd_forget
      else if text_eq cmd (lit ".quit") || text_eq cmd (lit ".exit")
      then print (lit "goodbye!\n") >> raise (lit "EOF")
      else raise (lit "unknown command: " ++ (cmd ++ lit " (try .help)"))

  unfoldable pub handle_natural_language : Text → Loop W
  handle_natural_language line = if needs_recall line then cmd_recall line else cmd_store line

  unfoldable pub handle_line : Text → Loop W
  handle_line line =
      if has_prefix line (lit ".") then handle_command line else handle_natural_language line

  -- fmt.Fprintf(writer, "✗ %v\n", err)
  abbrev pub print_error : Text → Loop W
  print_error message = print (line_of (lit "✗ ") message)

  -- One round of the loop, on a line that was read.
  unfoldable pub round : Text → Loop W
  round raw =
      let line = trim_space raw in
      if is_empty line then pure done else on_error (handle_line line) print_error

  -- The loop, over the lines that the scanner gives.
  unfoldable pub rounds : List Text → Loop W
  rounds [] = print prompt
  rounds (raw ∷ rest) = do print prompt; round raw; rounds rest

  abbrev pub print_ready : Loop W
  print_ready = print (lit "✓ agent initialized (session: " ++ (a.session_path ++ lit ")\n\n"))

  -- RunREPL; `scan_error` is what scanner.Err() answers after the last line.
  unfoldable pub run_repl : Text → List Text → Option Text → Loop W
  run_repl today lines scan_error = do
    on_error (on_world (init c a today) >> print_ready)
        (λ message. print (line_of (lit "⚠ init warning: ") message))
    rounds lines
    elim scan_error [ none ↦ pure done | some message ↦ raise message ]
