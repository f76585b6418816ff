-- ===== src/Mcp/Contract.antt =====
-- The schemas of internal/mcp/schema.go beside the extractors of internal/engine/extract.go.
use diff_mem.Prelude.{ℤ, ◌≡◌, refl, ap, true, All, some, List}
use diff_mem.Text.{Text, lit, text_eq, member}
use diff_mem.Dict.{lookup, keys}
use diff_mem.Dict.Laws.{All-lookup}
use diff_mem.Model.{ArchiveOptions}
use diff_mem.Env.{Env}
use diff_mem.Params.{
  Json, Params, members, members_of, string_at, path_at, extract_create, extract_append,
  extract_update, extract_archive, extract_lifecycle, extract_search, strings, string_members,
}
use diff_mem.Store.{Store}
use diff_mem.Engine.{Engine}
use diff_mem.Engine.Write.{create, append, update}
use diff_mem.Engine.Read.{search}
use diff_mem.Engine.Dispatch.{reply, lifecycle, dispatch}
use diff_mem.Mcp.Schema.{
  members_from, object, items_from, texts, schema_create, schema_append, schema_update,
  schema_lifecycle, schema_list, schema_search, schema_show, tool_schemas,
}

-- The properties that a schema declares.
unfoldable pub declared : Json → List Text
unfolding members keys
declared schema = keys (members_of (lookup (lit "properties") (members_of (some schema))))

-- Two argument maps that agree on what the schema declares.
abbrev pub Agrees : Json → Params → Params → Type 0
Agrees schema p q = (k : Text) → member k (declared schema) ≡ true → lookup k p ≡ lookup k q

extract_create-Agrees :
    (p q : Params) → Agrees schema_create p q → extract_create p ≡ extract_create q
unfolding extract_create path_at string_at strings declared schema_create object members_from texts
    items_from members keys lookup text_eq lit
extract_create-Agrees p q h =
    rw
      (
        h (lit "path") refl,
        h (lit "title") refl,
        h (lit "summary") refl,
        h (lit "tags") refl,
        h (lit "initial_events") refl,
        h (lit "reason") refl,
        extract_create,
        path_at,
        string_at,
      )
      refl

extract_append-Agrees :
    (p q : Params) → Agrees schema_append p q → extract_append p ≡ extract_append q
unfolding extract_append path_at string_at declared schema_append object members_from texts
    items_from members keys lookup text_eq lit
extract_append-Agrees p q h =
    rw
      (
        h (lit "path") refl,
        h (lit "event") refl,
        h (lit "reason") refl,
        extract_append,
        path_at,
        string_at,
      )
      refl

extract_search-Agrees :
    (f : ℤ → ℤ) (p q : Params) → Agrees schema_search p q → extract_search f p ≡ extract_search f q
unfolding extract_search string_at strings declared schema_search object members_from texts
    items_from members keys lookup text_eq lit
extract_search-Agrees f p q h =
    rw
      (
        h (lit "keywords") refl,
        h (lit "limit") refl,
        h (lit "tags") refl,
        extract_search,
        string_at,
      )
      refl

extract_update-Agrees :
    (p q : Params) → Agrees schema_update p q → extract_update p ≡ extract_update q
unfolding extract_update path_at string_at string_members declared schema_update object members_from
    texts items_from members keys lookup text_eq lit
extract_update-Agrees p q h =
    rw
      (
        h (lit "path") refl,
        h (lit "fields") refl,
        h (lit "reason") refl,
        h (lit "summary") refl,
        extract_update,
        path_at,
        string_at,
      )
      refl

extract_lifecycle-Agrees :
    (p q : Params) → Agrees schema_lifecycle p q → extract_lifecycle p ≡ extract_lifecycle q
unfolding extract_lifecycle extract_archive path_at string_at declared schema_lifecycle object
    members_from texts items_from members keys lookup text_eq lit
extract_lifecycle-Agrees p q h =
    rw
      (
        h (lit "action") refl,
        h (lit "path") refl,
        h (lit "reason") refl,
        extract_lifecycle,
        extract_archive,
        path_at,
        string_at,
      )
      refl

module _ {Db : Type 0} (st : Store Db) (env : Env) where
  -- The tool gives the same for arguments that agree on what its schema declares.
  abbrev Respects : Text → Json → Type 0
  Respects name schema =
      (p q : Params) (e : Engine Db)
      → Agrees schema p q
      → dispatch st env name p e ≡ dispatch st env name q e

  list-Agrees : Respects (lit "list") schema_list
  unfolding dispatch declared schema_list object members_from texts items_from members keys lookup
      text_eq lit string_at
  list-Agrees p q e h = rw (h (lit "path") refl, h (lit "include_archived") refl, string_at) refl

  show-Agrees : Respects (lit "show") schema_show
  unfolding dispatch declared schema_show object members_from texts items_from members keys lookup
      text_eq lit string_at
  show-Agrees p q e h = rw (h (lit "path") refl, h (lit "window") refl, string_at) refl

  tool_schemas-Respects : All (λ (kv : Text × Json). Respects kv.0 kv.1) tool_schemas
  unfolding dispatch text_eq lit
  tool_schemas-Respects = (
    (λ p q e h. ap (λ o. reply (create st env o e)) (extract_create-Agrees p q h)),
    (
      (λ p q e h. ap (λ o. reply (append st env o e)) (extract_append-Agrees p q h)),
      (
        (λ p q e h. ap (λ o. update st env o e) (extract_update-Agrees p q h)),
        (
          (λ p q e h.
              ap (λ (x : Text × ArchiveOptions). reply (lifecycle st env x.0 x.1 e))
                (extract_lifecycle-Agrees p q h)),
          (
            list-Agrees,
            (
              (λ p q e h.
                  ap (λ o. reply (e, search st env.unicode o e))
                    (extract_search-Agrees env.int_of_float p q h)),
              (show-Agrees, _),
            ),
          ),
        ),
      ),
    ),
  )

  -- The schemas declare all that the tools read: for a tool with a schema, two argument maps that
  -- agree on the properties that its schema declares lead Dispatch to the same engine and outcome.
  pub dispatch-declared :
      (name : Text) (schema : Json) (p q : Params) (e : Engine Db)
      → lookup name tool_schemas ≡ some schema
      → Agrees schema p q
      → dispatch st env name p e ≡ dispatch st env name q e
  dispatch-declared name schema p q e found h =
      All-lookup Respects name schema tool_schemas tool_schemas-Respects found p q e h
