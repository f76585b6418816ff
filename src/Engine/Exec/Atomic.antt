-- ===== src/Engine/Exec/Atomic.antt =====
-- How a transaction of Exec ends: a commit, a rollback or a panic.
use diff_mem.Prelude.{
  ℕ, suc, ◌≡◌, refl, ap, true, false, some, List, [], ◌∷◌, ◌⊎◌, inl, inr, arith, Option-cases,
  Bool-cases, subst, length, ltb, ◌||◌,
}
use diff_mem.Text.{Text, lit, is_empty}
use diff_mem.Dict.{lookup}
use diff_mem.Model.{Node, ToolResponse, committed}
use diff_mem.Env.{Env, RoundTrips}
use diff_mem.Params.{Params, members_of}
use diff_mem.Store.{Store, IsStore}
use diff_mem.Engine.{Engine, success, new_engine}
use diff_mem.Engine.Effect.{IsWellFormed, Writes-IsWellFormed}
use diff_mem.Engine.Write.{Outcome, replied, panicked}
use diff_mem.Engine.Write.Writes.{create-Writes, append-Writes}
use diff_mem.Engine.Lifecycle.Writes.{archive-Writes, restore-Writes, delete-IsWellFormed_engine}
use diff_mem.Engine.Update.{update-Writes}
use diff_mem.Engine.Exec.{
  Step, ran, skipped, exec_operation, exec_loop, exec, op_name, check_operations, restore_snapshot,
  rolled_back, after_step,
}
use diff_mem.Engine.Exec.Operation.{exec_operation-rule}
use diff_mem.Engine.Exec.Rollback.{clone_nodes_lem, get-restore_snapshot}

check_operations-fails :
    (i : ℕ) (ops : List Params) (r : ToolResponse)
    → check_operations i ops ≡ some r
    → r.success ≡ false
unfolding check_operations
check_operations-fails i [] r h = cc
check_operations-fails i (op ∷ ops) r h = ground (arith, check_operations-fails (suc i) ops r)

module _ {Db : Type 0} (st : Store Db) (env : Env) where
  -- One operation of a transaction, from its JSON object.
  abbrev pub run_operation : Params → Engine Db → Engine Db × Step
  run_operation op e = exec_operation st env (op_name op) (members_of (lookup (lit "params") op)) e

  -- An operation that went through: it replied with a success, or it has an unknown name.
  abbrev pub WentThrough : Step → Type 0
  WentThrough skipped = Unit
  WentThrough (ran panicked) = ⊥
  WentThrough (ran (replied r)) = r.success ≡ true

  -- The run of all operations, each of which goes through.
  pub data Runs : Engine Db → List Params → Engine Db → Type 0 where
    finished : (e : Engine Db) → Runs e [] e
    step :
        {e mid last : Engine Db} {ops : List Params} (op : Params)
        → (run_operation op e).0 ≡ mid
        → WentThrough (run_operation op e).1
        → Runs mid ops last
        → Runs e (op ∷ ops) last

module _ {Db : Type 0} (st : Store Db) (laws : IsStore st) (env : Env) where
  abbrev IsFine : Engine Db → Type 0
  IsFine e = IsWellFormed st laws env e.store

  -- Every operation of a transaction keeps the store well formed.
  pub exec_operation-IsWellFormed :
      (name : Text) (params : Params) (e : Engine Db)
      → IsFine e
      → IsFine (exec_operation st env name params e).0
  exec_operation-IsWellFormed name params e h =
      exec_operation-rule st env e (λ r. IsFine r.0)
        (λ o. Writes-IsWellFormed st laws env (create-Writes st laws env o e) h)
        (λ o. Writes-IsWellFormed st laws env (append-Writes st laws env o e h.keyed) h)
        (λ o. Writes-IsWellFormed st laws env (update-Writes st laws env o e h) h)
        (λ o. delete-IsWellFormed_engine st laws env o e h)
        (λ o. Writes-IsWellFormed st laws env (archive-Writes st laws env o e h.keyed) h)
        (λ o. Writes-IsWellFormed st laws env (restore-Writes st laws env o e h.keyed) h) h h name
        params

  -- How a transaction ends, from the snapshot `snap`.
  pub data Ended (snap : List Node) (total : ℕ)
      : List Params → Engine Db → Engine Db × Outcome → Type 0 where
    commit :
        {ops : List Params} {e last : Engine Db}
        → Runs st env e ops last
        → Ended snap total ops e (last, replied (success (committed total)))
    rollback :
        {ops : List Params} {e : Engine Db} (mid : Engine Db) (r : ToolResponse)
        → IsFine mid
        → r.success ≡ false
        → Ended snap total ops e (restore_snapshot st env.codec snap mid, replied r)
    crash :
        {ops : List Params} {e : Engine Db} (mid : Engine Db)
        → Ended snap total ops e (mid, panicked)

  exec_loop-Ended :
      (snap : List Node) (total i : ℕ) (ops : List Params) (e : Engine Db)
      → IsFine e
      → Ended snap total ops e (exec_loop st env snap total i ops e)
  unfolding exec_loop
  exec_loop-Ended snap total i [] e h = commit (finished e)
  exec_loop-Ended snap total i (op ∷ ops) e h =
      after (run_operation st env op e) refl
        (exec_operation-IsWellFormed (op_name op) (members_of (lookup (lit "params") op)) e h)
        (exec_loop-Ended snap total (suc i) ops)
    where
      prepend :
          (mid : Engine Db) {r : Engine Db × Outcome}
          → (run_operation st env op e).0 ≡ mid
          → WentThrough st env (run_operation st env op e).1
          → Ended snap total ops mid r
          → Ended snap total (op ∷ ops) e r
      prepend mid eq ok (commit runs) = commit (step op eq ok runs)
      prepend mid eq ok (rollback m r fine bad) = rollback m r fine bad
      prepend mid eq ok (crash m) = crash m

      after :
          (x : Engine Db × Step)
          → run_operation st env op e ≡ x
          → IsFine x.0
          → ((mid : Engine Db)
              → IsFine mid
              → Ended snap total ops mid (exec_loop st env snap total (suc i) ops mid))
          → Ended snap total
              (op ∷ ops)
              e
              (after_step st env snap i x (exec_loop st env snap total (suc i) ops))
      after (mid, skipped) eq fine later =
          prepend mid (ap (λ (y : Engine Db × Step). y.0) eq) (rw eq tt) (later mid fine)
      after (mid, ran panicked) eq fine later = crash mid
      after (mid, ran (replied r)) eq fine later = elim (Bool-cases r.success) [
        | inl ok ↦
            rw ok (prepend mid (ap (λ (y : Engine Db × Step). y.0) eq) (rw eq ok) (later mid fine))
        | inr bad ↦ rw bad (rollback mid (rolled_back i r) fine refl)
      ]

  -- What a reply of Exec means: a success is the run of all operations, and a failure leaves every path
  -- as it was, with the links as they were or rebuilt from the nodes.
  abbrev Meaning : List Params → Engine Db → Engine Db × Outcome → Type 0
  Meaning ops e (last, panicked) = Unit
  Meaning ops e (last, replied r) =
      (r.success ≡ true) × Runs st env e ops last
      ⊎ (r.success ≡ false)
        × ((p : Text) → st.get_node p last.store ≡ st.get_node p e.store)
        × ((last.links ≡ e.links) ⊎ (last.links ≡ (new_engine st e.store).links))

  module _ (trips : RoundTrips env.codec) where
    Ended-Meaning :
        (total : ℕ) (ops : List Params) (e : Engine Db) {x : Engine Db × Outcome}
        → IsFine e
        → Ended (st.all_nodes e.store) total ops e x
        → Meaning ops e x
    Ended-Meaning total ops e h (commit runs) = inl (refl, runs)
    Ended-Meaning total ops e h (rollback mid r fine bad) = inr (
      bad,
      λ p. get-restore_snapshot st laws env.codec trips e.store mid p h.valid fine.valid,
      inr (unfold restore_snapshot new_engine in refl),
    )
    Ended-Meaning total ops e h (crash mid) = tt

    exec-Meaning :
        (ops : List Params) (e : Engine Db) → IsFine e → Meaning ops e (exec st env ops e)
    unfolding exec
    exec-Meaning ops e h = elim (Bool-cases (is_empty ops || ltb 20 (length ops))) [
      | inl bad ↦ rw bad (inr (refl, (λ p. refl), inl refl))
      | inr sized ↦ elim (Option-cases (check_operations 0 ops)) [
        | inr (r, refused) ↦
            rw (sized, refused)
              (inr (check_operations-fails 0 ops r refused, (λ p. refl), inl refl))
        | inl clear ↦
            rw (sized, clear, clone_nodes_lem env.codec trips (st.all_nodes e.store))
              (Ended-Meaning (length ops) ops e h
                (exec_loop-Ended (st.all_nodes e.store) (length ops) 0 ops e h))
      ]
    ]

    -- On a well-formed store, with a node codec that round-trips: if Exec replies with a success,
    -- its final state is that of running all operations in order, and each of them replied with a
    -- success or has a name that Exec does not know.
    pub exec-commits :
        (ops : List Params) (e last : Engine Db) (r : ToolResponse)
        → IsWellFormed st laws env e.store
        → exec st env ops e ≡ (last, replied r)
        → r.success ≡ true
        → Runs st env e ops last
    exec-commits ops e last r h eq ok = elim (subst (Meaning ops e) eq (exec-Meaning ops e h)) [
      | inl (good, runs) ↦ runs
      | inr (bad, same, links) ↦ cc (bad, ok)
    ]

    -- On a well-formed store, with a node codec that round-trips: if Exec replies with a failure,
    -- every path finds the node that it found before, and the link index is the one before or the
    -- one that New builds from the nodes before.
    pub exec-rolls_back :
        (ops : List Params) (e last : Engine Db) (r : ToolResponse)
        → IsWellFormed st laws env e.store
        → exec st env ops e ≡ (last, replied r)
        → r.success ≡ false
        → ((p : Text) → st.get_node p last.store ≡ st.get_node p e.store)
          × ((last.links ≡ e.links) ⊎ (last.links ≡ (new_engine st e.store).links))
    exec-rolls_back ops e last r h eq bad = elim (subst (Meaning ops e) eq (exec-Meaning ops e h)) [
      | inl (good, runs) ↦ cc (good, bad)
      | inr (_, same, links) ↦ (same, links)
    ]
