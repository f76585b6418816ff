-- ===== src/Agent/Command.antt =====
-- cmd/agent/main.go: the command line of the agent, after the flags are parsed. What goes to the
-- standard output and to the error output stands in one list, in order.
pub mod Stored
use diff_mem.Prelude.{
  ℕ, zero, suc, ◌-◌, not, ◌||◌, Option, none, some, List, [], ◌∷◌, ◌++◌, if◌then◌else◌, leb,
}
use diff_mem.Text.{Text, lit, text_eq, is_empty, join, rune_length}
use diff_mem.Engine.Exec.{itoa}
use diff_mem.Agent.{
  RecallResult, EventSummary, AgentStatus, Agent, Client, init, store, forget_path,
}
use diff_mem.Agent.Recall.{recall, status}
use diff_mem.Agent.Repl.{
  line_of, bool_str, print_if_any, print_tags, print_section, node_line, print_last, run_repl,
}
use diff_mem.Agent.Monad.{
  Done, done, Result, ok, err, panic, Action, pure, raise, ◌>>=◌, ◌>>◌, Terminal, on_world, print,
  on_error,
}

-- A program that ends with an exit code.
abbrev pub Program : Type 0 → Type 0
Program W = Action (Terminal W) ℕ

abbrev replacements : ℕ → Text
replacements zero = []
replacements (suc n) = 0xfffd ∷ replacements n

-- s[:min(len(s), n)]: the first bytes. A rune that is cut leaves bytes that are no UTF-8, each of which
-- stands here as the replacement rune.
unfoldable first_bytes : ℕ → Text → Text
first_bytes n [] = []
first_bytes n (r ∷ s) =
    let rest = first_bytes (n - rune_length r) s in
    if leb (rune_length r) n then r ∷ rest else replacements n

-- The text of flag.Usage; flag.PrintDefaults is the library's.
abbrev usage : Text
usage =
    lit
      "Diff-Mem Agent — 内置记忆助手\n\n用法:\n  agent [flags] [command]\n\n命令:\n  repl         启动交互式 REPL（默认）\n  init         初始化 agent 记忆节点\n  recall Q     检索记忆: agent recall \"关键词\"\n  store S      存储内容: agent store \"要记的内容\"\n  status       显示 agent 状态\n  forget P     归档节点: agent forget \"/path/to/node\"\n\n示例:\n  agent repl\n  agent -server http://localhost:9090 repl\n  agent recall \"昨天做了什么\"\n  agent store \"明天开会讨论 API 设计\"\n\n标志:\n"

-- args[1], as far as the test `len(args) < 2 || args[1] == ""` passes
abbrev pub first_argument : List Text → Text
first_argument [] = []
first_argument (x ∷ xs) = x

module _ {W : Type 0} where
  -- os.Exit(1), after a message
  abbrev pub give_up : Text → Program W
  give_up message = print message >> pure 1

  abbrev pub or_exited :
      {A : Type 0} → Text → Result A × Terminal W → (A → Program W) → Result ℕ × Terminal W
  or_exited label (ok a, t) next = next a t
  or_exited label (err message, t) next = give_up (line_of label message) t
  or_exited label (panic, t) next = (panic, t)

  -- if err := m; err != nil { fmt.Fprintf(os.Stderr, …); os.Exit(1) }
  abbrev pub or_exit : {A : Type 0} → Text → Action (Terminal W) A → (A → Program W) → Program W
  or_exit label m next t = or_exited label (m t) next

  unfoldable print_recalled_events : List EventSummary → Action (Terminal W) Done
  print_recalled_events [] = pure done
  print_recalled_events (ev ∷ evs) = do
    print (lit "      [" ++ (ev.type ++ line_of (lit "] ") ev.content))
    print_recalled_events evs

  -- The loop of printRecallResults; `i` counts from 0.
  unfoldable print_entries : ℕ → List RecallResult → Action (Terminal W) Done
  print_entries i [] = pure done
  print_entries i (r ∷ rs) = do
    print (lit "[" ++ (itoa (suc i) ++ line_of (lit "] ") r.path))
    print_if_any (lit "    标题: ") r.title
    print_if_any (lit "    状态: ") r.status
    print_if_any (lit "    摘要: ") r.summary
    print_tags (lit "    标签: ") r.tags
    print_section (not (is_empty r.events)) (lit "    最近事件:\n") (print_recalled_events r.events)
    print (lit "\n")
    print_entries (suc i) rs

  abbrev print_recall_results : List RecallResult → Action (Terminal W) Done
  print_recall_results results =
      if is_empty results then print (lit "没有找到相关记忆\n") else print_entries 0 results

  -- if len(args) < 2 || args[1] == "" { …; os.Exit(1) }
  abbrev pub with_words : Text → List Text → Program W → Program W
  with_words message words program =
      if is_empty (first_argument words) then give_up message else program

-- `today` is time.Now().Format("2006-01-02") in Init; `lines` and `scan_error` are the input of the REPL.
module _ {W : Type 0} (c : Client W) (a : Agent) (today : Text) where
  unfoldable run_repl_command : List Text → Option Text → Program W
  run_repl_command lines scan_error =
      or_exit (lit "error: ") (run_repl c a today lines scan_error) (λ _. pure 0)

  unfoldable init_command : Program W
  init_command = do
    print (lit "初始化 agent...\n")
    or_exit (lit "error: ") (on_world (init c a today)) (λ _. print (lit "✓ 初始化完成\n") >> pure 0)

  unfoldable recall_command : Text → Program W
  recall_command query = do
    on_error (on_world (init c a today)) (λ message. print (line_of (lit "init warning: ") message))
    or_exit (lit "error: ") (on_world (recall c a query))
        (λ results. print_recall_results results >> pure 0)

  unfoldable pub store_command : List Text → Program W
  unfolding first_bytes
  store_command words = or_exit (lit "init warning: ") (on_world (init c a today)) (λ _.
      or_exit (lit "error: ") (on_world (store c a (join (lit " ") words) (lit "CLI 单次存储")))
        (λ _. print (line_of (lit "✓ 已记录: ") (first_bytes 40 (join (lit " ") words))) >> pure 0))

  unfoldable status_command : Program W
  status_command = or_exit (lit "error: ") (on_world (status c a)) (λ s. do
    print (lit "Agent 状态\n")
    print (line_of (lit "  Server:    ") s.server_url)
    node_line c a (lit "  Session:   ") s.session_path s.session_exists
    node_line c a (lit "  Profile:   ") s.profile_path s.profile_exists
    print (line_of (lit "  交互次数:  ") (itoa s.interaction_count))
    print_last c a s.last_interaction
    pure 0)

  unfoldable forget_command : Text → Program W
  forget_command path = or_exit (lit "init warning: ") (on_world (init c a today)) (λ _.
      or_exit (lit "error: ") (on_world (forget_path c a path (lit "CLI 单次归档")))
        (λ _. print (line_of (lit "✓ 已归档: ") path) >> pure 0))

  unfoldable pub run_command : Text → List Text → List Text → Option Text → Program W
  unfolding print_recalled_events print_entries run_repl_command init_command recall_command
      store_command status_command forget_command
  run_command name words lines scan_error =
      if text_eq name (lit "repl")
      then run_repl_command lines scan_error
      else if text_eq name (lit "init")
      then init_command
      else if text_eq name (lit "recall")
      then with_words (lit "用法: agent recall <query>\n") words
          (recall_command (first_argument words))
      else if text_eq name (lit "store")
      then with_words (lit "用法: agent store <content>\n") words (store_command words)
      else if text_eq name (lit "status")
      then status_command
      else if text_eq name (lit "forget")
      then with_words (lit "用法: agent forget <path>\n") words
          (forget_command (first_argument words))
      else print (line_of (lit "未知命令: ") name) >> give_up usage

  -- main, on flag.Args()
  unfoldable pub main : List Text → List Text → Option Text → Program W
  unfolding run_repl_command
  main [] lines scan_error = run_repl_command lines scan_error
  main (name ∷ words) lines scan_error = run_command name words lines scan_error
