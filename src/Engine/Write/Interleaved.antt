-- ===== src/Engine/Write/Interleaved.antt =====
-- Append of internal/engine/write.go in two steps, as two calls at once may run it: the engine takes no
-- lock between GetNode and PutNode.
use diff_mem.Prelude.{
  ◌+◌, ◌≡◌, refl, sym, ap, ◌∙◌, true, Option, none, some, [], ◌∷◌, ◌++◌, arith, if◌then◌else◌,
}
use mathlib.Core.Option.{some-injective}
use diff_mem.Text.{lit}
use diff_mem.Text.Laws.{text_eq_iff}
use diff_mem.Model.{is_archived, Node, user, event_of, ToolResponse, AppendOptions}
use diff_mem.Env.{Env}
use diff_mem.Validator.{validate_append}
use diff_mem.Links.{add_links, extract_content_links}
use diff_mem.Store.{Store, IsStore}
use diff_mem.Engine.{Engine, success, append_event, validate_content_links, new_event}
use diff_mem.Engine.Write.{append}
use diff_mem.Engine.Write.Posts.{contents, contents-append}
use diff_mem.Engine.Write.Writes.{IsKeyed}

module _ {Db : Type 0} (st : Store Db) (env : Env) where
  -- Append up to its checks: the node that it has read, or `none` for a refusal.
  unfoldable pub read_append : AppendOptions → Engine Db → Option Node
  read_append opts e = elim (validate_append env.unicode opts) [
    | some m ↦ none
    | none ↦ elim (st.get_node opts.path e.store) [
      | none ↦ none
      | some node ↦
          if is_archived node.status
          then none
          else elim (validate_content_links st opts.path (opts.event ∷ []) e.store) [
            | some resp ↦ none
            | none ↦ some node
          ]
    ]
  ]

  -- The rest of Append, on the node that was read.
  unfoldable pub write_append : AppendOptions → Node → Engine Db → Engine Db × ToolResponse
  write_append opts node e =
      let ev = new_event env user opts.event ((lit "reason", opts.reason) ∷ []) e.calls in
      (
        record {
          store = st.put_node (append_event ev (env.os.now (e.calls + 2)) node) e.store;
          links = add_links opts.path (extract_content_links opts.event) e.links;
          calls = e.calls + 3;
        },
        success (event_of ev),
      )

  module _ (laws : IsStore st) where
    -- Without another call between them the two steps are Append.
    append-steps :
        (opts : AppendOptions) (e : Engine Db) (n : Node)
        → read_append opts e ≡ some n
        → append st env opts e ≡ write_append opts n e
    unfolding read_append write_append append
    append-steps opts e n h = ground (arith, h)

    read_append-found :
        (opts : AppendOptions) (e : Engine Db) (n : Node)
        → read_append opts e ≡ some n
        → st.get_node opts.path e.store ≡ some n
    unfolding read_append
    read_append-found opts e n h = ground (arith, h)

    -- The node after the write has the event behind the events that were read.
    write_append-found :
        (opts : AppendOptions) (n : Node) (e : Engine Db)
        → n.path ≡ opts.path
        → (node : Node) × (st.get_node opts.path (write_append opts n e).0.store ≡ some node)
          × (contents node.events ≡ contents n.events ++ opts.event ∷ [])
    unfolding write_append append_event new_event
    write_append-found opts n e at_path =
        let ev = new_event env user opts.event ((lit "reason", opts.reason) ∷ []) e.calls in
        let node = append_event ev (env.os.now (e.calls + 2)) n in
        (
          node,
          ground
              (arith, laws.get-put node e.store opts.path, text_eq_iff n.path opts.path, at_path),
          contents-append n.events ev,
        )

    -- In a store whose nodes stand under their own paths and that hands out copies, as the file
    -- and the SQLite stores do: if two Appends to one path both pass their checks before either
    -- writes, then the first does what it does alone, the second replies with a success too, and
    -- afterwards the node has the events that were read and that of the second only.
    pub append-loses :
        (first second : AppendOptions) (e : Engine Db) (n m : Node)
        → IsKeyed st laws env e.store
        → first.path ≡ second.path
        → read_append first e ≡ some n
        → read_append second e ≡ some m
        → (append st env first e ≡ write_append first n e)
          × ((write_append second m (write_append first n e).0).1.success ≡ true)
          × (node : Node) × (st.get_node second.path
                (write_append second m (write_append first n e).0).0.store
              ≡ some node)
          × (contents node.events ≡ contents n.events ++ second.event ∷ [])
    unfolding write_append
    append-loses first second e n m keyed same h k =
        let found = read_append-found second e m k in
        let before : m ≡ n = some-injective m n (
          sym found ∙ ap (λ p. st.get_node p e.store) (sym same) ∙ read_append-found first e n h) in
        let (node, there, texts) =
          write_append-found second m (write_append first n e).0 (keyed second.path m found) in
        (
          append-steps first e n h,
          refl,
          node,
          there,
          texts ∙ ap (λ (x : Node). contents x.events ++ second.event ∷ []) before,
        )
