-- ===== src/Agent/Recall.antt =====
-- internal/agent/agent.go: Recall, Status and Show, and the extractors that they use.
pub mod Bounds
use diff_mem.Prelude.{
  ℕ, pos, Bool, true, false, Option, none, some, List, [], ◌∷◌, ◌++◌, map, if◌then◌else◌, take,
  drop,
}
use diff_mem.Text.{Text, lit, is_empty}
use diff_mem.Dict.{lookup}
use diff_mem.Params.{Json, null, str, num}
use diff_mem.Agent.{
  ErrorInfo, Response, Header, Event, EventSummary, RecallResult, AgentStatus, Agent, Client,
  expect_success, succeeded, call_tool,
}
use diff_mem.Agent.Monad.{
  Done, Result, ok, err, panic, Action, pure, raise, ◌>>=◌, ◌>>◌, attempt, or_raise,
}

abbrev pub is_nil : Json → Bool
is_nil null = true
is_nil _ = false

module _ {W : Type 0} (c : Client W) where
  -- A value is encoded and decoded again.
  abbrev pub through : {A : Type 0} → (c.Body → Option A) → Json → Option A
  through decode v = elim (c.marshal v) [ none ↦ none | some b ↦ decode b ]

  -- wrapper["results"], decoded again; `none` if the value is no map, has no such key, or holds no
  -- entries.
  abbrev pub wrapped_entries : Json → Option (List Text)
  wrapped_entries v = elim (through c.as_object v) [
    | none ↦ none
    | some wrapper ↦ elim (lookup (lit "results") wrapper) [
      | none ↦ none
      | some results ↦ through c.as_entries results
    ]
  ]

  abbrev pub first_of : {A : Type 0} → Option A → Option A → Option A
  first_of none other = other
  first_of (some x) other = some x

  unfoldable pub extract_paths : Response → Action W (List Text)
  extract_paths resp =
      if is_nil resp.result
      then pure []
      else or_raise (first_of (through c.as_entries resp.result) (wrapped_entries resp.result))
          (lit "cannot extract paths from search result")

  -- show.Header, if a header is there
  abbrev pub header_shown : Json → Option Header
  header_shown v = elim (through c.as_show v) [
    | none ↦ none
    | some h ↦ if is_empty h.path then none else some h
  ]

  -- extractHeader; `none` is an error.
  unfoldable pub extract_header : Json → Option Header
  extract_header v = first_of (header_shown v) (through c.as_header v)

  abbrev pub summary_of : Event → EventSummary
  summary_of ev = record {
    type = ev.type;
    content = ev.content;
    timestamp = c.rfc3339 ev.timestamp;
  }

  -- extractEvents; `none` is an error.
  unfoldable pub extract_events : Json → Option (List EventSummary)
  extract_events v = elim (first_of (through c.as_deep_load v) (through c.as_events v)) [
    | none ↦ none
    | some events ↦ some (map summary_of events)
  ]

  -- What Recall keeps of one shown candidate.
  unfoldable pub result_of : Text → Response → RecallResult
  result_of path resp = elim (if is_nil resp.result then none else extract_header resp.result) [
    | none ↦ record { path = path; title = []; status = []; summary = []; tags = []; events = [] }
    | some h ↦ record {
      path = path;
      title = h.title;
      status = h.status;
      summary = h.summary;
      tags = h.tags;
      events = [];
    }
  ]

  -- r.Events = events, if the window was loaded
  unfoldable pub with_events : Option Response → RecallResult → RecallResult
  with_events none r = r
  with_events (some resp) r =
      if resp.success
      then (elim (if is_nil resp.result then none else extract_events resp.result) [
        | none ↦ r
        | some events ↦ record r { events = events }
      ])
      else r

  abbrev pub kept_result : Text → Option Response → List RecallResult → List RecallResult
  kept_result path none rest = rest
  kept_result path (some resp) rest = if resp.success then result_of path resp ∷ rest else rest

  module _ (a : Agent) where
    abbrev pub show_call : Text → Action W (Option Response)
    show_call path = attempt (call_tool c a (lit "show") ((lit "path", str path) ∷ []))

    -- Step 2 of Recall.
    unfoldable pub show_candidates : List Text → Action W (List RecallResult)
    show_candidates [] = pure []
    show_candidates (path ∷ paths) = do
      resp ← show_call path
      rest ← show_candidates paths
      pure (kept_result path resp rest)

    abbrev pub deep_call : RecallResult → Action W (Option Response)
    deep_call r = attempt (
        call_tool c a (lit "show")
          ((lit "path", str r.path) ∷ (lit "window", str (lit "recent")) ∷ []))

    -- Step 3 of Recall.
    unfoldable pub load_events : List RecallResult → Action W (List RecallResult)
    load_events [] = pure []
    load_events (r ∷ rs) = do
      resp ← deep_call r
      rest ← load_events rs
      pure (with_events resp r ∷ rest)

    abbrev pub search_call : Text → Action W Response
    search_call query =
        call_tool c a (lit "search")
          ((lit "keywords", str query) ∷ (lit "limit", num (pos 10)) ∷ [])

    unfoldable pub recall : Text → Action W (List RecallResult)
    recall query = do
      resp ← search_call query
      expect_success (lit "search failed: ") resp
      candidates ← extract_paths resp
      results ← show_candidates (take 3 candidates)
      loaded ← load_events (take 2 results)
      pure (loaded ++ drop 2 results)

    abbrev pub session_status : Option Response → AgentStatus → AgentStatus
    session_status none status = status
    session_status (some resp) status =
        if resp.success
        then (elim (if is_nil resp.result then none else extract_header resp.result) [
          | none ↦ record status { session_exists = true }
          | some h ↦ record status {
            session_exists = true;
            interaction_count = h.event_count;
            last_interaction = elim h.last_accessed [ none ↦ none | some t ↦ some (c.rfc3339 t) ];
          }
        ])
        else status

    -- Status, whose error is always nil
    unfoldable pub status : Action W AgentStatus
    status = do
      session ← show_call a.session_path
      profile ← show_call a.profile_path
      pure (
          session_status session (record {
            session_path = a.session_path;
            profile_path = a.profile_path;
            server_url = a.base_url;
            session_exists = false;
            profile_exists = succeeded profile;
            interaction_count = 0;
            last_interaction = none;
          }))

    unfoldable pub show : Text → Action W Header
    show path = do
      resp ← call_tool c a (lit "show") ((lit "path", str path) ∷ [])
      expect_success (lit "show failed: ") resp
      or_raise (extract_header resp.result) (lit "cannot decode the header")
