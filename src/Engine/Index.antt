-- ===== src/Engine/Index.antt =====
-- The link index of internal/engine/links.go against the stored nodes.
use diff_mem.Prelude.{
  ◌+◌, ◌≡◌, refl, sym, ap, ◌∙◌, subst, true, false, ◌&&◌, ◌||◌, some, List, [], ◌∷◌, ◌⊎◌, inl, inr,
  arith, Bool-cases,
}
use diff_mem.Text.{Text, text_eq, member}
use diff_mem.Text.Laws.{text_eq_iff}
use diff_mem.Model.{Event, Node, ToolResponse, CreateOptions, AppendOptions, ArchiveOptions}
use diff_mem.Env.{Env}
use diff_mem.Params.{Params}
use diff_mem.Links.{LinkIndex, add_links, remove_node, extract_content_links, node_content_links}
use diff_mem.Links.Index.{
  related, add_links-outbound, add_links-inbound, remove_node-outbound, remove_node-inbound,
}
use diff_mem.Links.Extract.{links_in, links_in-append, member-node_content_links}
use diff_mem.Store.{Store, IsStore}
use diff_mem.Engine.{Engine, append_event, new_event}
use diff_mem.Engine.Effect.{Writes, Writes-Survives, IsWellFormed, get-put_self}
use diff_mem.Engine.Write.{created_node, create, append, update}
use diff_mem.Engine.Write.Cases.{create-cases, append-cases, appended_event}
use diff_mem.Engine.Write.Writes.{create-Writes, append-Writes}
use diff_mem.Engine.Lifecycle.{victims_of, remove_victims, delete, archive, restore}
use diff_mem.Engine.Lifecycle.Cases.{delete-cases, archive-cases, restore-cases}
use diff_mem.Engine.Lifecycle.Writes.{archive-Writes, restore-Writes, without}
use diff_mem.Engine.Read.{show}
use diff_mem.Engine.Dispatch.{dispatch}
use diff_mem.Engine.Update.{update-Writes, update-links}
use diff_mem.Engine.Tools.{show-Writes, dispatch-rule}

module _ {Db : Type 0} (st : Store Db) where
  -- A stored node at `r` has a link to `t` in one of its events.
  abbrev pub Links : Db → Text → Text → Type 0
  Links db r t = (n : Node) × (st.get_node r db ≡ some n) × (links_in t n.events ≡ true)

  -- Every referrer on record has its target on record, and a link to it in its body.
  pub record IsSound (db : Db) (idx : LinkIndex) : Type 0 where
    pub backed : (t r : Text) → related t r idx.inbound ≡ true → related r t idx.outbound ≡ true
    pub linked : (r t : Text) → related r t idx.outbound ≡ true → Links db r t

module _ {Db : Type 0} (st : Store Db) (laws : IsStore st) (env : Env) where
  -- Links stay while the nodes only grow.
  Writes-Links :
      {db last : Db} (r t : Text) → Writes st env db last → Links st db r t → Links st last r t
  Writes-Links r t ws (n, found, has) =
      let (n', found', ext) = Writes-Survives st laws env r n ws found in
      (
        n',
        found',
        ap (links_in t) ext.events
            ∙ links_in-append t n.events ext.added
            ∙ ap (λ b. b || links_in t ext.added) has,
      )

  Writes-IsSound :
      {db last : Db} (idx : LinkIndex)
      → Writes st env db last
      → IsSound st db idx
      → IsSound st last idx
  Writes-IsSound idx ws h = record {
    backed = h.backed;
    linked = λ r t e. Writes-Links r t ws (h.linked r t e);
  }

  -- New links may be added for a node that has them.
  pub add_links-IsSound :
      {db : Db} (idx : LinkIndex) (p : Text) (ts : List Text)
      → IsSound st db idx
      → ((t : Text) → member t ts ≡ true → Links st db p t)
      → IsSound st db (add_links p ts idx)
  add_links-IsSound {db} idx p ts h k = record {
    backed = λ t r e.
        ground
          (arith, add_links-inbound p t r ts idx, add_links-outbound p r t ts idx, h.backed t r);
    linked = λ r t e.
        linked_at r t (Bool-cases (related r t idx.outbound))
          (ground (arith, add_links-outbound p r t ts idx));
  }
    where
      linked_at :
          (r t : Text)
          → (related r t idx.outbound ≡ true) ⊎ (related r t idx.outbound ≡ false)
          → (related r t idx.outbound || (text_eq p r && member t ts)) ≡ true
          → Links st db r t
      linked_at r t (inl old) e = h.linked r t old
      linked_at r t (inr new) e =
          subst (λ q. Links st db q t) ((text_eq_iff p r).0 (ground arith)) (k t (ground arith))

  pub create-IsSound :
      (opts : CreateOptions) (e : Engine Db)
      → IsSound st e.store e.links
      → IsSound st (create st env opts e).0.store (create st env opts e).0.links
  create-IsSound opts e h = elim (create-cases st env opts e) [
    | inl r ↦ rw r.same h
    | inr c ↦
        let node = created_node env opts e.calls in
        let grown = Writes-IsSound e.links (create-Writes st laws env opts e) h in
        let stored : (create st env opts e).0.store ≡ st.put_node node e.store =
          ap (λ (x : Engine Db × ToolResponse). x.0.store) c.result in
        rw c.result (
          add_links-IsSound e.links opts.path (node_content_links node)
            (subst (λ db. IsSound st db e.links) stored grown)
            (λ t m. (
              node,
              get-put_self st laws env opts.path node e.store (unfold created_node in refl),
              sym (member-node_content_links t node) ∙ m,
            )))
  ]

  pub append-IsSound :
      (opts : AppendOptions) (e : Engine Db)
      → IsWellFormed st laws env e.store
      → IsSound st e.store e.links
      → IsSound st (append st env opts e).0.store (append st env opts e).0.links
  append-IsSound opts e w h = elim (append-cases st env opts e) [
    | inl r ↦ rw r.same h
    | inr c ↦
        let ev = appended_event st env opts e in
        let node = append_event ev (env.os.now (e.calls + 2)) c.node in
        let grown = Writes-IsSound e.links (append-Writes st laws env opts e w.keyed) h in
        let stored : (append st env opts e).0.store ≡ st.put_node node e.store =
          ap (λ (x : Engine Db × ToolResponse). x.0.store) c.result in
        rw c.result (
          add_links-IsSound e.links opts.path (extract_content_links opts.event)
            (subst (λ db. IsSound st db e.links) stored grown)
            (λ t m. (
              node,
              get-put_self st laws env opts.path node e.store
                  (unfold append_event in w.keyed opts.path c.node c.found),
              has_new t c.node ev (unfold new_event in m),
            )))
  ]
    where
      has_new :
          (t : Text) (n : Node) (x : Event)
          → member t (extract_content_links x.content) ≡ true
          → links_in t (append_event x (env.os.now (e.calls + 2)) n).events ≡ true
      has_new t n x m = unfold append_event in ground (arith, links_in-append t n.events (x ∷ []))

  -- The links are left alone by what does not touch them.
  module _ (e : Engine Db) (h : IsSound st e.store e.links) where
    pub kept :
        (last : Engine Db)
        → Writes st env e.store last.store
        → last.links ≡ e.links
        → IsSound st last.store last.links
    kept last ws same =
        subst (λ idx. IsSound st last.store idx) (sym same) (Writes-IsSound e.links ws h)

    -- One round of the removal of victims.
    removed : (v : Text) → IsSound st (st.delete_node v e.store) (remove_node v e.links)
    removed v = record {
      backed = λ t r eq. ground (
        arith,
        remove_node-inbound v t r e.links,
        remove_node-outbound v r t e.links,
        h.backed t r,
        text_eq_iff v r,
      );
      linked = λ r t eq.
          let out = remove_node-outbound v r t e.links in
          let (n, found, has) = h.linked r t (ground arith) in
          (n, ground (arith, laws.get-delete v e.store r), has);
    }

  remove_victims-IsSound :
      (vs : List Text) (e : Engine Db)
      → IsSound st e.store e.links
      → IsSound st (remove_victims st vs e).store (remove_victims st vs e).links
  unfolding remove_victims
  remove_victims-IsSound [] e h = h
  remove_victims-IsSound (v ∷ vs) e h = remove_victims-IsSound vs (without st v e) (removed e h v)

  pub delete-IsSound :
      (opts : ArchiveOptions) (e : Engine Db)
      → IsSound st e.store e.links
      → IsSound st (delete st env opts e).0.store (delete st env opts e).0.links
  delete-IsSound opts e h = elim (delete-cases st env opts e) [
    | inl r ↦ rw r.same h
    | inr c ↦ rw c.result (remove_victims-IsSound (victims_of st opts.path e.store) e h)
  ]

  pub archive-links :
      (opts : ArchiveOptions) (e : Engine Db) → (archive st env opts e).0.links ≡ e.links
  archive-links opts e = elim (archive-cases st env opts e) [
    | inl r ↦ ap (λ (x : Engine Db). x.links) r.same
    | inr c ↦ c.links
  ]

  pub restore-links :
      (opts : ArchiveOptions) (e : Engine Db) → (restore st env opts e).0.links ≡ e.links
  restore-links opts e = elim (restore-cases st env opts e) [
    | inl r ↦ ap (λ (x : Engine Db). x.links) r.same
    | inr c ↦ c.links
  ]

  show-links : (path : Text) (e : Engine Db) → (show st env path e).0.links ≡ e.links
  unfolding show
  show-links path e = ground arith

  -- On a well-formed store, every tool call keeps the link index sound: each referrer that is
  -- recorded for a target has the target among its recorded targets, and each recorded link stands
  -- in an event of the stored referrer.
  pub dispatch-IsSound :
      (name : Text) (params : Params) (e : Engine Db)
      → IsWellFormed st laws env e.store
      → IsSound st e.store e.links
      → IsSound st (dispatch st env name params e).0.store (dispatch st env name params e).0.links
  dispatch-IsSound name params e w h =
      dispatch-rule st laws env name params e (λ r. IsSound st r.0.store r.0.links)
        (λ o. create-IsSound o e h) (λ o. append-IsSound o e w h)
        (λ o.
          kept e h (update st env o e).0 (update-Writes st laws env o e w)
            (update-links st laws env o e))
        (λ o d. delete-IsSound o e h)
        (λ o.
          kept e h (archive st env o e).0 (archive-Writes st laws env o e w.keyed)
            (archive-links o e))
        (λ o.
          kept e h (restore st env o e).0 (restore-Writes st laws env o e w.keyed)
            (restore-links o e))
        (λ p. kept e h (show st env p e).0 (show-Writes st laws env p e w) (show-links p e))
        (λ r. h)
