-- ===== src/Engine/Lifecycle/Writes.antt =====
-- What the handlers of lifecycle.go write and remove.
use diff_mem.Prelude.{
  ℕ, ◌≡◌, refl, Bool, true, ◌||◌, none, List, [], ◌∷◌, ◌++◌, inl, inr, arith, if◌then◌else◌,
}
use diff_mem.Text.{Text, slash, text_eq, has_prefix, member}
use diff_mem.Text.Laws.{member-select}
use diff_mem.Model.{Status, EventType, Node, ArchiveOptions}
use diff_mem.Env.{Env}
use diff_mem.Store.{Store, IsStore, paths}
use diff_mem.Engine.{Engine, append_event}
use diff_mem.Engine.Effect.{Extends, IsGood, Writes, done, IsWellFormed, delete-IsWellFormed}
use diff_mem.Engine.Write.Writes.{append_event-Extends, grown_at, IsKeyed}
use diff_mem.Engine.Lifecycle.{victims_of, remove_victims, delete, status_changed, archive, restore}
use diff_mem.Links.{remove_node}
use diff_mem.Engine.Lifecycle.Cases.{delete-cases, archive-cases, restore-cases}

module _ (env : Env) (status : Status) (type : EventType) (content reason : Text) where
  pub status_changed-Extends :
      (c : ℕ) (n : Node) → Extends n (status_changed env status type content reason c n)
  unfolding status_changed
  status_changed-Extends c n = append_event-Extends _ _ n _ refl refl refl refl refl

  status_changed-IsGood :
      (c : ℕ) (n : Node)
      → IsGood env n
      → IsGood env (status_changed env status type content reason c n)
  unfolding status_changed append_event
  status_changed-IsGood c n g = record {
    valid = g.valid;
    counted = refl;
    no_status = g.no_status;
    no_summary = g.no_summary;
    has_fields = g.has_fields;
  }

-- The path itself, or a path below it.
abbrev pub is_under : Text → Text → Bool
is_under path p = text_eq path p || has_prefix p (path ++ slash ∷ [])

-- One round of the loop that removes the victims.
abbrev pub without : {Db : Type 0} → Store Db → Text → Engine Db → Engine Db
without st v e = record e { store = st.delete_node v e.store; links = remove_node v e.links }

module _ {Db : Type 0} (st : Store Db) (laws : IsStore st) (env : Env) where
  pub archive-Writes :
      (opts : ArchiveOptions) (e : Engine Db)
      → IsKeyed st laws env e.store
      → Writes st env e.store (archive st env opts e).0.store
  archive-Writes opts e keyed = elim (archive-cases st env opts e) [
    | inl r ↦ rw r.same done
    | inr c ↦ rw c.store (
        grown_at st laws env opts.path c.node _ keyed c.found
          (status_changed-Extends env _ _ _ opts.reason e.calls c.node)
          (status_changed-IsGood env _ _ _ opts.reason e.calls c.node))
  ]

  pub restore-Writes :
      (opts : ArchiveOptions) (e : Engine Db)
      → IsKeyed st laws env e.store
      → Writes st env e.store (restore st env opts e).0.store
  restore-Writes opts e keyed = elim (restore-cases st env opts e) [
    | inl r ↦ rw r.same done
    | inr c ↦ rw c.store (
        grown_at st laws env opts.path c.node _ keyed c.found
          (status_changed-Extends env _ _ _ opts.reason e.calls c.node)
          (status_changed-IsGood env _ _ _ opts.reason e.calls c.node))
  ]

  get-remove_victims :
      (vs : List Text) (e : Engine Db) (p : Text)
      → st.get_node p (remove_victims st vs e).store
        ≡ (if member p vs then none else st.get_node p e.store)
  unfolding remove_victims
  get-remove_victims [] e p = refl
  get-remove_victims (v ∷ vs) e p =
      ground (arith, laws.get-delete v e.store p, get-remove_victims vs (without st v e) p)

  remove_victims-IsWellFormed :
      (vs : List Text) (e : Engine Db)
      → IsWellFormed st laws env e.store
      → IsWellFormed st laws env (remove_victims st vs e).store
  unfolding remove_victims
  remove_victims-IsWellFormed [] e h = h
  remove_victims-IsWellFormed (v ∷ vs) e h =
      remove_victims-IsWellFormed vs _ (delete-IsWellFormed st laws env v h)

  pub delete-IsWellFormed_engine :
      (opts : ArchiveOptions) (e : Engine Db)
      → IsWellFormed st laws env e.store
      → IsWellFormed st laws env (delete st env opts e).0.store
  delete-IsWellFormed_engine opts e h = elim (delete-cases st env opts e) [
    | inl r ↦ rw r.same h
    | inr c ↦ rw c.result (remove_victims-IsWellFormed (victims_of st opts.path e.store) e h)
  ]

  -- On a valid store, a successful Delete removes exactly the node and its descendants: every
  -- other path finds what it found before.
  pub delete-exact :
      (opts : ArchiveOptions) (e : Engine Db) (p : Text)
      → laws.IsValid e.store
      → (delete st env opts e).1.success ≡ true
      → st.get_node p (delete st env opts e).0.store
        ≡ (if is_under opts.path p then none else st.get_node p e.store)
  delete-exact opts e p valid ok = elim (delete-cases st env opts e) [
    | inl r ↦ cc (r.failed, ok)
    | inr c ↦ rw c.result (
        unfold victims_of in
        ground (
          arith,
          get-remove_victims (victims_of st opts.path e.store) e p,
          member-select (λ q. has_prefix q (opts.path ++ slash ∷ [])) p
              (paths (st.all_nodes e.store)),
          laws.member-all p e.store valid,
        ))
  ]
