-- ===== src/Engine/Write/Posts.antt =====
-- The store after Create and Append of internal/engine/write.go.
use diff_mem.Prelude.{
  ℕ, ◌+◌, ◌≡◌, refl, ap, true, false, none, some, List, [], ◌∷◌, ◌++◌, arith, inl, inr, map, length,
  if◌then◌else◌,
}
use diff_mem.Text.{Text, lit, text_eq}
use diff_mem.Model.{active, is_archived, Event, Node, header_of, CreateOptions, AppendOptions}
use diff_mem.Env.{Env}
use diff_mem.Store.{Store, IsStore}
use diff_mem.Engine.{Engine, success, append_event, new_event}
use diff_mem.Engine.Write.{initial_events, created_node, create, append}
use diff_mem.Engine.Write.Cases.{create-cases, append-cases, appended_event}
use diff_mem.Engine.Write.Writes.{IsKeyed}

abbrev pub contents : List Event → List Text
contents evs = map (λ ev. ev.content) evs

pub contents-append :
    (evs : List Event) (ev : Event) → contents (evs ++ ev ∷ []) ≡ contents evs ++ ev.content ∷ []
contents-append [] ev = refl
contents-append (x ∷ evs) ev = ap (λ ts. x.content ∷ ts) (contents-append evs ev)

module _ {Db : Type 0} (st : Store Db) (laws : IsStore st) (env : Env) where
  contents-initial_events : (evs : List Text) (c : ℕ) → contents (initial_events env evs c) ≡ evs
  unfolding initial_events new_event
  contents-initial_events [] c = refl
  contents-initial_events (ev ∷ evs) c = ap (λ ts. ev ∷ ts) (contents-initial_events evs (c + 2))

  -- A successful Create stores one node at a path that found none, and every other path finds what
  -- it found before: the node has the title, summary and tags of the options, is active and
  -- without fields, its events are the one of the creation and the initial ones in order, and its
  -- header is the response.
  pub create-stores :
      (opts : CreateOptions) (e : Engine Db)
      → (create st env opts e).1.success ≡ true
      → (n : Node) × ((q : Text)
          → st.get_node q (create st env opts e).0.store
            ≡ (if text_eq opts.path q then some n else st.get_node q e.store))
        × (st.get_node opts.path e.store ≡ none)
        × (n.title ≡ opts.title)
        × (n.summary ≡ opts.summary)
        × (n.tags ≡ opts.tags)
        × (n.status ≡ active)
        × (n.fields ≡ [])
        × (contents n.events ≡ (opts.title ++ (lit ": " ++ opts.summary)) ∷ opts.initial_events)
        × ((create st env opts e).1 ≡ success (header_of n.header))
  unfolding created_node new_event
  create-stores opts e ok = elim (create-cases st env opts e) [
    | inl r ↦ cc (r.failed, ok)
    | inr c ↦ (
      created_node env opts e.calls,
      λ q. rw c.result (laws.get-put (created_node env opts e.calls) e.store q),
      ground (arith, laws.get-has opts.path e.store c.free),
      refl,
      refl,
      refl,
      refl,
      refl,
      ap (λ ts. (opts.title ++ (lit ": " ++ opts.summary)) ∷ ts)
          (contents-initial_events opts.initial_events (e.calls + 4)),
      rw c.result refl,
    )
  ]

  -- In a store whose nodes stand under their own paths, a successful Append finds an active node
  -- and stores it with the event behind its events, their number as the count, and its summary,
  -- fields and status; every other path finds what it found before.
  pub append-stores :
      (opts : AppendOptions) (e : Engine Db)
      → IsKeyed st laws env e.store
      → (append st env opts e).1.success ≡ true
      → (n n' : Node) × (st.get_node opts.path e.store ≡ some n)
        × (is_archived n.status ≡ false)
        × ((q : Text)
            → st.get_node q (append st env opts e).0.store
              ≡ (if text_eq opts.path q then some n' else st.get_node q e.store))
        × (contents n'.events ≡ contents n.events ++ opts.event ∷ [])
        × (n'.event_count ≡ length n'.events)
        × (n'.summary ≡ n.summary)
        × (n'.fields ≡ n.fields)
        × (n'.status ≡ n.status)
  unfolding append_event new_event
  append-stores opts e keyed ok = elim (append-cases st env opts e) [
    | inl r ↦ cc (r.failed, ok)
    | inr c ↦
        let n' = append_event (appended_event st env opts e) (env.os.now (e.calls + 2)) c.node in
        (
          c.node,
          n',
          c.found,
          c.active,
          λ q.
              rw c.result
                (ground (arith, laws.get-put n' e.store q, keyed opts.path c.node c.found)),
          contents-append c.node.events (appended_event st env opts e),
          refl,
          refl,
          refl,
          refl,
        )
  ]
