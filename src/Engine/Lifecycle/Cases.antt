-- ===== src/Engine/Lifecycle/Cases.antt =====
-- The handlers of lifecycle.go by cases.
use diff_mem.Prelude.{
  ◌≡◌, refl, true, false, none, some, List, [], ◌∷◌, ◌⊎◌, inl, inr, arith, Option-cases,
}
use diff_mem.Text.{Text, is_empty}
use diff_mem.Model.{is_archived, Node, ArchiveOptions, deletion}
use diff_mem.Env.{Env}
use diff_mem.Validator.{validate_archive}
use diff_mem.Store.{Store}
use diff_mem.Engine.{Engine, success}
use diff_mem.Engine.Write.Cases.{Refused}
use diff_mem.Engine.Lifecycle.{
  victims_of, outside_referrers, remove_victims, delete, archived_node, restored_node, archive,
  restore,
}

module _ {Db : Type 0} (st : Store Db) (env : Env) where
  pub record Deleted (opts : ArchiveOptions) (e : Engine Db) : Type 0 where
    pub valid : validate_archive env.unicode opts ≡ none
    pub present : st.has_node opts.path e.store ≡ true
    pub unlinked :
        outside_referrers st
          (victims_of st opts.path e.store)
          []
          (victims_of st opts.path e.store)
          e
        ≡ []
    pub result : delete st env opts e ≡ (
      remove_victims st (victims_of st opts.path e.store) e,
      success (deletion opts.path (victims_of st opts.path e.store) opts.reason),
    )

  nil_of_empty : (us : List Text) → is_empty us ≡ true → us ≡ []
  nil_of_empty [] h = refl
  nil_of_empty (u ∷ us) h = cc

  pub delete-cases :
      (opts : ArchiveOptions) (e : Engine Db) → Refused e (delete st env opts e) ⊎ Deleted opts e
  unfolding delete
  delete-cases opts e =
      let victims = victims_of st opts.path e.store in
      ground (arith, nil_of_empty (outside_referrers st victims [] victims e))

  -- Archive and Restore: the node before, the node after, and where the response comes from.
  pub record Archived (opts : ArchiveOptions) (e : Engine Db) : Type 0 where
    pub valid : validate_archive env.unicode opts ≡ none
    pub node : Node
    pub found : st.get_node opts.path e.store ≡ some node
    pub active : is_archived node.status ≡ false
    pub store :
        (archive st env opts e).0.store ≡ st.put_node (archived_node env opts e.calls node) e.store
    pub links : (archive st env opts e).0.links ≡ e.links
    pub succeeds : (archive st env opts e).1.success ≡ true

  pub archive-cases :
      (opts : ArchiveOptions) (e : Engine Db) → Refused e (archive st env opts e) ⊎ Archived opts e
  unfolding archive
  archive-cases opts e = elim (Option-cases (st.get_node opts.path e.store)) [
    | inl missing ↦ ground arith
    | inr (node, found) ↦ ground arith
  ]

  pub record Restored (opts : ArchiveOptions) (e : Engine Db) : Type 0 where
    pub valid : validate_archive env.unicode opts ≡ none
    pub node : Node
    pub found : st.get_node opts.path e.store ≡ some node
    pub inactive : is_archived node.status ≡ true
    pub store :
        (restore st env opts e).0.store ≡ st.put_node (restored_node env opts e.calls node) e.store
    pub links : (restore st env opts e).0.links ≡ e.links
    pub succeeds : (restore st env opts e).1.success ≡ true

  pub restore-cases :
      (opts : ArchiveOptions) (e : Engine Db) → Refused e (restore st env opts e) ⊎ Restored opts e
  unfolding restore
  restore-cases opts e = elim (Option-cases (st.get_node opts.path e.store)) [
    | inl missing ↦ ground arith
    | inr (node, found) ↦ ground arith
  ]
