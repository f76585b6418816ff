-- ===== src/Tests/Services.antt =====
-- The theorems on the servers and the agent at concrete inputs.
use diff_mem.Prelude.{
  ap, ℕ, sym, subst, Bool-cases, suc, ◌≡◌, ◌≢◌, ◌≤◌, ◌⊎◌, inl, inr, refl, true, some, none, List,
  [], ◌∷◌, All, length, drop,
}
use diff_mem.Text.{join, Text, lit, text_eq, member}
use diff_mem.Text.Laws.{text_eq_iff}
use diff_mem.Dict.{lookup, insert, keys}
use diff_mem.Model.{ToolResponse}
use diff_mem.Params.{extract_append, path_at, Json, Params, str, members}
use diff_mem.Store.Memory.{MemoryStore}
use diff_mem.Store.Memory.Laws.{memory}
use diff_mem.Engine.{Engine, new_engine}
use diff_mem.Engine.Dispatch.{dispatch}
use diff_mem.Engine.Consistent.{IsConsistent}
use diff_mem.Api.{serve, run_handler, handle}
use diff_mem.Mcp.{register_tools}
use diff_mem.Mcp.Schema.{schema_list, object, members_from, texts, items_from}
use diff_mem.Mcp.Contract.{Agrees, declared, dispatch-declared}
use diff_mem.Service.{http, take_request, started, served}
use diff_mem.Service.Invariant.{Reachable-IsConsistent}
use diff_mem.Service.Tools.{Answers, registered, register_tools_lem, call-serve}
use diff_mem.Agent.{
  init, ensure_node, node_exists, Client, Event, RecallResult, received, call_tool, store,
}
use diff_mem.Agent.Monad.{done, Result, ok, Terminal}
use diff_mem.Agent.Recall.{extract_paths, show_candidates, load_events, recall}
use diff_mem.Agent.Recall.Bounds.{IsBare, recall-bounds}
use diff_mem.Agent.Repl.{command_word, prompt, rounds}
use diff_mem.Agent.Repl.Loop.{with_printed, rounds-quit}
use diff_mem.Agent.Command.{store_command, run_command, main}
use diff_mem.Agent.Command.Stored.{Stored, main-store}
use diff_mem.Engine.Read.{show}
use diff_mem.Agent.Session.{Remembered, store-whole}
use diff_mem.Tests.Sample.{
  code, sample, alpha, beta, with_alpha, with_both, copying-RoundTrips, deletion_of,
}
use diff_mem.Tests.Servers.{request, wire, agent, client, connection}
use diff_mem.Tests.Engines.{memory_laws, with_alpha-Fine, with_both-Fine}

-- A deletion over HTTP, on an engine that starts with both nodes.
abbrev deleted : Engine MemoryStore
deleted =
    take_request wire memory sample
      (http (lit "POST /tools/lifecycle") (request (deletion_of beta)))
      (new_engine memory with_both.store)

Reachable-IsConsistent_example : IsConsistent memory memory_laws sample deleted
Reachable-IsConsistent_example =
    Reachable-IsConsistent wire memory memory_laws sample copying-RoundTrips with_both.store deleted
      with_both-Fine
      (served (http (lit "POST /tools/lifecycle") (request (deletion_of beta))) started)

abbrev at_alpha : Params
at_alpha = (lit "path", str alpha) ∷ []

call-serve_example :
    (resp : ToolResponse) × Answers wire
      (λ r. refl)
      memory
      memory_laws
      sample
      (lit "diff_mem_show")
      (request at_alpha)
      at_alpha
      with_alpha
      resp
unfolding lookup text_eq lit register_tools insert
call-serve_example =
    call-serve wire (λ r. refl) memory memory_laws sample (lit "diff_mem_show") _ registered
      (request at_alpha) at_alpha with_alpha register_tools_lem refl refl with_alpha-Fine

-- `window` is no property of list.
only_declared : Agrees schema_list ((lit "window", str (lit "all")) ∷ at_alpha) at_alpha
unfolding declared schema_list object members_from texts items_from members keys lookup text_eq lit
only_declared k m = elim (Bool-cases (text_eq (lit "window") k)) [
  | inl same ↦
      let bad =
        subst (λ (t : Text). member t (declared schema_list) ≡ true)
          (sym ((text_eq_iff (lit "window") k).0 same)) m in
      cc (bad)
  | inr other ↦ rw (other, lookup) refl
]

-- A property that the schema of list does not declare changes nothing.
dispatch-declared_example :
    dispatch memory sample (lit "list") ((lit "window", str (lit "all")) ∷ at_alpha) with_both
    ≡ dispatch memory sample (lit "list") at_alpha with_both
unfolding lookup text_eq lit
dispatch-declared_example =
    dispatch-declared memory sample (lit "list") schema_list
      ((lit "window", str (lit "all")) ∷ at_alpha) at_alpha with_both refl only_declared

store-whole_example :
    (((store client agent (lit "m") (lit "worth keeping") with_alpha).0 ≡ ok done)
      × Remembered memory memory_laws sample wire agent client connection
          (lit "m")
          with_alpha.store
          (store client agent (lit "m") (lit "worth keeping") with_alpha).1.store)
    ⊎ (((store client agent (lit "m") (lit "worth keeping") with_alpha).0 ≢ ok done)
        × ((store client agent (lit "m") (lit "worth keeping") with_alpha).1 ≡ with_alpha))
store-whole_example =
    store-whole memory memory_laws sample wire agent client connection (lit "m")
      (lit "worth keeping") with_alpha with_alpha-Fine

abbrev terminal : Terminal (Engine MemoryStore)
terminal = record { world = with_alpha; printed = [] }

rounds-quit_example :
    rounds client agent (lit " .quit now " ∷ lit "still here" ∷ []) terminal
    ≡ rounds client agent
        (lit "still here" ∷ [])
        (with_printed terminal (prompt ∷ lit "goodbye!\n" ∷ lit "✗ EOF\n" ∷ []))
unfolding code command_word
rounds-quit_example =
    rounds-quit client agent (lit " .quit now ") (lit "still here" ∷ []) terminal (inl refl)

abbrev event : Event
event = record { type = lit "user"; content = lit "m"; timestamp = 0 }

-- A client that counts its calls, and finds four paths.
abbrev counting : Client ℕ
counting = record {
  Body = Json;
  marshal = λ v. some v;
  is_url = λ url. true;
  post = λ url body w. (received 200 body, suc w);
  body_text = λ b. [];
  as_response = λ b. some (record { success = true; result = str []; error = none });
  as_entries = λ b. some (alpha ∷ beta ∷ alpha ∷ beta ∷ []);
  as_object = λ b. none;
  as_show = λ b. none;
  as_header = λ b. none;
  as_deep_load = λ b. some (event ∷ []);
  as_events = λ b. none;
  rfc3339 = λ t. lit "now";
}

abbrev values_of : {A : Type 0} → Result (List A) × ℕ → List A
values_of (ok xs, w) = xs
values_of _ = []

abbrev recalled : List RecallResult
recalled = values_of (recall counting agent (lit "q") 0)

recall-bounds_example : (length recalled ≤ 3) × All IsBare (drop 2 recalled)
unfolding recall show_candidates load_events extract_paths call_tool
recall-bounds_example = recall-bounds counting agent (lit "q") 0 recalled 6 refl

abbrev on_both : Terminal (Engine MemoryStore)
on_both = record { world = with_both; printed = [] }

abbrev worth_keeping : List Text
worth_keeping = lit "worth" ∷ lit "keeping" ∷ []

-- The command line `agent store worth keeping`.
abbrev stored : Result ℕ × Terminal (Engine MemoryStore)
stored = main client agent (lit "2026-09-01") (lit "store" ∷ worth_keeping) [] none on_both

stored-ok : stored.0 ≡ ok 0
unfolding code main run_command store_command init ensure_node node_exists store call_tool object
    members_from serve run_handler handle show extract_append path_at
stored-ok = refl

main-store_example :
    Stored memory memory_laws sample wire agent client connection
      (lit "2026-09-01")
      (join (lit " ") worth_keeping)
      with_both
      stored.1.world
main-store_example =
    main-store memory memory_laws sample wire agent client connection (lit "2026-09-01")
      worth_keeping [] none on_both stored.1 with_both-Fine
      (ap (λ (r : Result ℕ). (r, stored.1)) stored-ok)
