-- ===== src/Engine/Consistent.antt =====
-- The invariant of the whole engine, over tool calls, transactions and rollbacks.
use diff_mem.Prelude.{
  ℕ, suc, ◌≡◌, refl, sym, ◌∙◌, ◌||◌, some, List, [], ◌∷◌, inl, inr, All, Bool-cases, Option-cases,
  length, ltb,
}
use diff_mem.Text.{Text, lit, is_empty}
use diff_mem.Dict.{lookup}
use diff_mem.Model.{Node}
use diff_mem.Env.{Env, RoundTrips}
use diff_mem.Params.{Params, members_of}
use diff_mem.Links.{LinkIndex, empty_index, node_content_links}
use diff_mem.Links.Extract.{member-node_content_links}
use diff_mem.Store.{Store, IsStore}
use diff_mem.Engine.{Engine, add_all_links, new_engine}
use diff_mem.Engine.Effect.{IsWellFormed}
use diff_mem.Engine.Index.{
  IsSound, add_links-IsSound, create-IsSound, append-IsSound, delete-IsSound, archive-links,
  restore-links, kept, dispatch-IsSound,
}
use diff_mem.Engine.Write.{Outcome, replied, panicked, update}
use diff_mem.Engine.Lifecycle.{archive, restore}
use diff_mem.Engine.Lifecycle.Writes.{archive-Writes, restore-Writes}
use diff_mem.Engine.Update.{update-Writes, update-links}
use diff_mem.Engine.Dispatch.{dispatch}
use diff_mem.Engine.Tools.{dispatch-IsWellFormed}
use diff_mem.Engine.Exec.{
  Step, ran, skipped, after_step, op_name, check_operations, restore_snapshot, exec_operation,
  exec_loop, exec,
}
use diff_mem.Engine.Exec.Operation.{exec_operation-rule}
use diff_mem.Engine.Exec.Rollback.{clone_nodes_lem, get-restore_snapshot, restore_snapshot-IsValid}
use diff_mem.Engine.Exec.Atomic.{exec_operation-IsWellFormed}

module _ {Db : Type 0} (st : Store Db) (laws : IsStore st) (env : Env) where
  -- The store is well formed, and the link index is sound for it.
  pub record IsConsistent (e : Engine Db) : Type 0 where
    pub fine : IsWellFormed st laws env e.store
    pub sound : IsSound st e.store e.links

  pub dispatch-IsConsistent :
      (name : Text) (params : Params) (e : Engine Db)
      → IsConsistent e
      → IsConsistent (dispatch st env name params e).0
  dispatch-IsConsistent name params e h = record {
    fine = dispatch-IsWellFormed st laws env name params e h.fine;
    sound = dispatch-IsSound st laws env name params e h.fine h.sound;
  }

  exec_operation-IsSound :
      (name : Text) (params : Params) (e : Engine Db)
      → IsConsistent e
      → IsSound st
          (exec_operation st env name params e).0.store
          (exec_operation st env name params e).0.links
  exec_operation-IsSound name params e h =
      exec_operation-rule st env e (λ r. IsSound st r.0.store r.0.links)
        (λ o. create-IsSound st laws env o e h.sound)
        (λ o. append-IsSound st laws env o e h.fine h.sound)
        (λ o.
          kept st laws env e h.sound (update st env o e).0 (update-Writes st laws env o e h.fine)
            (update-links st laws env o e))
        (λ o. delete-IsSound st laws env o e h.sound)
        (λ o.
          kept st laws env e h.sound (archive st env o e).0
            (archive-Writes st laws env o e h.fine.keyed) (archive-links st laws env o e))
        (λ o.
          kept st laws env e h.sound (restore st env o e).0
            (restore-Writes st laws env o e h.fine.keyed) (restore-links st laws env o e))
        h.sound h.sound name params

  exec_operation-IsConsistent :
      (name : Text) (params : Params) (e : Engine Db)
      → IsConsistent e
      → IsConsistent (exec_operation st env name params e).0
  exec_operation-IsConsistent name params e h = record {
    fine = exec_operation-IsWellFormed st laws env name params e h.fine;
    sound = exec_operation-IsSound name params e h;
  }

  -- The index of the links of stored nodes is sound.
  add_all_links-IsSound :
      (db : Db) (ns : List Node) (idx : LinkIndex)
      → All (λ n. st.get_node n.path db ≡ some n) ns
      → IsSound st db idx
      → IsSound st db (add_all_links ns idx)
  unfolding add_all_links
  add_all_links-IsSound db [] idx h k = k
  add_all_links-IsSound db (n ∷ ns) idx (found, h) k = add_all_links-IsSound db ns _ h (
      add_links-IsSound st laws env idx n.path (node_content_links n) k
        (λ t m. (n, found, sym (member-node_content_links t n) ∙ m)))

  empty_index-IsSound : (db : Db) → IsSound st db empty_index
  unfolding lookup
  empty_index-IsSound db = record { backed = λ t r h. h; linked = λ r t h. cc }

  pub new_engine-IsConsistent :
      (db : Db) → IsWellFormed st laws env db → IsConsistent (new_engine st db)
  unfolding new_engine
  new_engine-IsConsistent db h = record {
    fine = h;
    sound =
        add_all_links-IsSound db (st.all_nodes db) empty_index (laws.all-get db h.valid)
          (empty_index-IsSound db);
  }

  -- A store that finds the same nodes is as good.
  same-IsConsistent :
      (old last : Engine Db)
      → ((p : Text) → st.get_node p last.store ≡ st.get_node p old.store)
      → laws.IsValid last.store
      → last.links ≡ old.links
      → IsConsistent old
      → IsConsistent last
  same-IsConsistent old last same valid links h = record {
    fine = record {
      valid = valid;
      keyed = λ p n e. h.fine.keyed p n (sym (same p) ∙ e);
      good = λ p n e. h.fine.good p n (sym (same p) ∙ e);
    };
    sound = rw links (record {
      backed = h.sound.backed;
      linked = λ r t e. let (n, found, has) = h.sound.linked r t e in (n, same r ∙ found, has);
    });
  }

  module _ (trips : RoundTrips env.codec) where
    restore_snapshot-IsConsistent :
        (old mid : Engine Db)
        → IsConsistent old
        → IsConsistent mid
        → IsConsistent (restore_snapshot st env.codec (st.all_nodes old.store) mid)
    restore_snapshot-IsConsistent old mid h k =
        same-IsConsistent (new_engine st old.store)
          (restore_snapshot st env.codec (st.all_nodes old.store) mid)
          (λ p.
            unfold new_engine in
            get-restore_snapshot st laws env.codec trips old.store mid p h.fine.valid k.fine.valid)
          (restore_snapshot-IsValid st laws env.codec trips (st.all_nodes old.store) mid
            k.fine.valid)
          (unfold restore_snapshot new_engine in refl) (new_engine-IsConsistent old.store h.fine)

    after_step-IsConsistent :
        (old : Engine Db) (i : ℕ) (x : Engine Db × Step) (next : Engine Db → Engine Db × Outcome)
        → IsConsistent old
        → IsConsistent x.0
        → ((mid : Engine Db) → IsConsistent mid → IsConsistent (next mid).0)
        → IsConsistent (after_step st env (st.all_nodes old.store) i x next).0
    after_step-IsConsistent old i (mid, skipped) next h k later = later mid k
    after_step-IsConsistent old i (mid, ran panicked) next h k later = k
    after_step-IsConsistent old i (mid, ran (replied r)) next h k later =
        elim (Bool-cases r.success) [
          | inl ok ↦ rw ok (later mid k)
          | inr bad ↦ rw bad (restore_snapshot-IsConsistent old mid h k)
        ]

    exec_loop-IsConsistent :
        (old : Engine Db) (total i : ℕ) (ops : List Params) (e : Engine Db)
        → IsConsistent old
        → IsConsistent e
        → IsConsistent (exec_loop st env (st.all_nodes old.store) total i ops e).0
    unfolding exec_loop
    exec_loop-IsConsistent old total i [] e h k = k
    exec_loop-IsConsistent old total i (op ∷ ops) e h k =
        after_step-IsConsistent old i
          (exec_operation st env (op_name op) (members_of (lookup (lit "params") op)) e) _ h
          (exec_operation-IsConsistent (op_name op) (members_of (lookup (lit "params") op)) e k)
          (λ mid m. exec_loop-IsConsistent old total (suc i) ops mid h m)

    pub exec-IsConsistent :
        (ops : List Params) (e : Engine Db) → IsConsistent e → IsConsistent (exec st env ops e).0
    unfolding exec
    exec-IsConsistent ops e h = elim (Bool-cases (is_empty ops || ltb 20 (length ops))) [
      | inl bad ↦ rw bad h
      | inr sized ↦ elim (Option-cases (check_operations 0 ops)) [
        | inr (r, refused) ↦ rw (sized, refused) h
        | inl clear ↦
            rw (sized, clear, clone_nodes_lem env.codec trips (st.all_nodes e.store))
              (exec_loop-IsConsistent e (length ops) 0 ops e h h)
      ]
    ]
