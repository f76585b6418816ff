-- ===== src/Agent/Command/Stored.antt =====
-- What the command `store` of cmd/agent/main.go has done when it exits with 0.
use diff_mem.Prelude.{
  ℕ, ◌≡◌, refl, ap, Bool, if◌then◌else◌, subst, true, false, Option, some, List, [], ◌∷◌, ◌++◌,
  arith, inl, inr, Bool-cases,
}
use diff_mem.Text.{Text, lit, text_eq, is_empty, join}
use diff_mem.Dict.{lookup, keys}
use diff_mem.Env.{Env}
use diff_mem.Params.{Json, str}
use diff_mem.Store.{Store, IsStore}
use diff_mem.Mcp.Schema.{schema_create, schema_show, tool_schemas}
use diff_mem.Engine.{Engine}
use diff_mem.Engine.Effect.{IsWellFormed}
use diff_mem.Engine.Tools.{dispatch-IsWellFormed}
use diff_mem.Api.{Wire, tool, routes}
use diff_mem.Agent.{Agent, Client, create_call, call_tool, node_exists, ensure_node, init, store}
use diff_mem.Agent.Monad.{
  Done, done, Result, ok, err, panic, Action, pure, ◌>>◌, and_then, caught, attempt, Terminal,
  in_terminal, on_world,
}
use diff_mem.Agent.Session.{is_distinct, Connection, call_tool-dispatch, Remembered, store-whole}
use diff_mem.Agent.Command.{
  Program, with_words, or_exited, first_argument, store_command, run_command, main,
}

-- What every step keeps, the whole keeps.
and_then-keeps :
    {W A B : Type 0} (P : W → Type 0) (x : Result A × W) (f : A → Action W B)
    → P x.1
    → ((v : A) (w : W) → P w → P (f v w).1)
    → P (and_then x f).1
and_then-keeps P (ok v, w) f h k = k v w h
and_then-keeps P (err m, w) f h k = h
and_then-keeps P (panic, w) f h k = h

caught-keeps : {W A : Type 0} (P : W → Type 0) (x : Result A × W) → P x.1 → P (caught x).1
caught-keeps P (ok v, w) h = h
caught-keeps P (err m, w) h = h
caught-keeps P (panic, w) h = h

-- A program that exits with 0 has passed its check.
or_exited-ok :
    {W A : Type 0} (label : Text) (x : Result A × Terminal W)
    (next : A → Terminal W → Result ℕ × Terminal W) (t' : Terminal W)
    → or_exited label x next ≡ (ok 0, t')
    → (v : A) × (t : Terminal W) × (x ≡ (ok v, t)) × (next v t ≡ (ok 0, t'))
or_exited-ok label (ok v, t) next t' e = (v, t, refl, e)
or_exited-ok label (err m, t) next t' e = cc
or_exited-ok label (panic, t) next t' e = cc

with_words-ok :
    {W : Type 0} (message : Text) (words : List Text) (program : Program W) (t t' : Terminal W)
    → with_words message words program t ≡ (ok 0, t')
    → program t ≡ (ok 0, t')
with_words-ok message words program t t' e = elim (Bool-cases (is_empty (first_argument words))) [
  | inl none_given ↦ ground (arith, e, none_given)
  | inr given ↦ ground (arith, e, given)
]

in_terminal-ok :
    {W A : Type 0} (printed : List Text) (x : Result A × W) (v : A) (t : Terminal W)
    → in_terminal printed x ≡ (ok v, t)
    → x ≡ (ok v, t.world)
in_terminal-ok printed (ok u, w) v t e = cc
in_terminal-ok printed (err m, w) v t e = cc
in_terminal-ok printed (panic, w) v t e = cc

module _ {Db : Type 0} (st : Store Db) (laws : IsStore st) (env : Env) (w : Wire) (a : Agent)
    (c : Client (Engine Db)) (line : Connection st env w a c) where
  abbrev Fine : Engine Db → Type 0
  Fine e = IsWellFormed st laws env e.store

  call_tool-Fine :
      (name : Text) (schema : Json) (ps : List (Text × Json)) (e : Engine Db)
      → lookup (lit "POST /tools/" ++ name) routes ≡ some (tool name)
      → lookup name tool_schemas ≡ some schema
      → is_distinct (keys ps) ≡ true
      → Fine e
      → Fine (call_tool c a name ps e).1
  call_tool-Fine name schema ps e routed known distinct h =
      let (r, resp, _, _, called) =
        call_tool-dispatch st laws env w a c line name schema ps e routed known distinct h in
      rw called (dispatch-IsWellFormed st laws env name ps e h)

  node_exists-Fine : (path : Text) (e : Engine Db) → Fine e → Fine (node_exists c a path e).1
  unfolding node_exists lookup text_eq lit is_distinct keys
  node_exists-Fine path e h =
      and_then-keeps Fine (attempt (call_tool c a (lit "show") ((lit "path", str path) ∷ [])) e) _
        (caught-keeps Fine (call_tool c a (lit "show") ((lit "path", str path) ∷ []) e) (
          call_tool-Fine (lit "show") schema_show ((lit "path", str path) ∷ []) e refl refl refl h))
        (λ v e' k. k)

  ensure_node-Fine :
      (path title summary : Text) (tags : List Text) (reason : Text) (e : Engine Db)
      → Fine e
      → Fine (ensure_node c a path title summary tags reason e).1
  unfolding ensure_node lookup text_eq lit is_distinct keys
  ensure_node-Fine path title summary tags reason e h =
      and_then-keeps Fine (node_exists c a path e) _ (node_exists-Fine path e h) (λ exists e1 k.
        elim exists
          as (λ (b : Bool).
            Fine
              ((if b
                  then pure done
                  else (create_call c a path title summary tags reason >> pure done))
                e1).1) [
                  | true ↦ k
                  | false ↦
                      and_then-keeps Fine (create_call c a path title summary tags reason e1) _
                        (call_tool-Fine (lit "create") schema_create _ e1 refl refl refl k)
                        (λ v e2 m. m)
                ])

  init-Fine : (today : Text) (e : Engine Db) → Fine e → Fine (init c a today e).1
  unfolding init
  init-Fine today e h =
      and_then-keeps Fine (ensure_node c a _ _ _ _ _ e) _ (ensure_node-Fine _ _ _ _ _ e h)
        (λ v e1 k. ensure_node-Fine _ _ _ _ _ e1 k)

  -- The engine after Init, and what is stored on it.
  abbrev pub Stored : Text → Text → Engine Db → Engine Db → Type 0
  Stored today content before last =
      (e : Engine Db) × (init c a today before ≡ (ok done, e))
      × Remembered st laws env w a c line content e.store last.store

  store-Stored :
      (today content reason : Text) (d d' : Done) (before mid last : Engine Db)
      → Fine before
      → init c a today before ≡ (ok d, mid)
      → store c a content reason mid ≡ (ok d', last)
      → Stored today content before last
  store-Stored today content reason done done before mid last h i s =
      let k = subst Fine (ap (λ (x : Result Done × Engine Db). x.1) i) (init-Fine today before h) in
      elim (store-whole st laws env w a c line content reason mid k) [
        | inl (told, kept) ↦ (
          mid,
          i,
          subst (λ (x : Engine Db). Remembered st laws env w a c line content mid.store x.store)
              (ap (λ (x : Result Done × Engine Db). x.1) s) kept,
        )
        | inr (failed, same) ↦ absurd (failed (ap (λ (x : Result Done × Engine Db). x.0) s))
      ]

  store_command-Stored :
      (today : Text) (words : List Text) (t t' : Terminal (Engine Db))
      → Fine t.world
      → store_command c a today words t ≡ (ok 0, t')
      → Stored today (join (lit " ") words) t.world t'.world
  unfolding store_command
  store_command-Stored today words t t' h e =
      let (d, t1, e1, e2) = or_exited-ok _ (on_world (init c a today) t) _ t' e in
      let (d', t2, e3, e4) =
        or_exited-ok _ (on_world (store c a (join (lit " ") words) (lit "CLI 单次存储")) t1) _ t' e2 in
      let i = in_terminal-ok t.printed (init c a today t.world) d t1 e1 in
      let s =
        in_terminal-ok t1.printed (store c a (join (lit " ") words) (lit "CLI 单次存储") t1.world) d' t2
          e3 in
      subst (λ (x : Engine Db). Stored today (join (lit " ") words) t.world x)
        (ap (λ (x : Result ℕ × Terminal (Engine Db)). x.1.world) e4)
        (store-Stored today (join (lit " ") words) (lit "CLI 单次存储") d d' t.world t1.world t2.world h
          i s)

  -- If the agent's client is connected to a server on a well-formed store and the command line
  -- `store` with some words exits with 0, then Init returned no error, the session node was active
  -- after it, and has the joined words as one more event, while every other path finds what it
  -- found after Init.
  pub main-store :
      (today : Text) (words lines : List Text) (scan_error : Option Text)
      (t t' : Terminal (Engine Db))
      → IsWellFormed st laws env t.world.store
      → main c a today (lit "store" ∷ words) lines scan_error t ≡ (ok 0, t')
      → Stored today (join (lit " ") words) t.world t'.world
  unfolding main run_command store_command text_eq lit
  main-store today words lines scan_error t t' h e = store_command-Stored today words t t' h (
      with_words-ok (lit "用法: agent store <content>\n") words (store_command c a today words) t t'
        e)
