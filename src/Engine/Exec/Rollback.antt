-- ===== src/Engine/Exec/Rollback.antt =====
-- The snapshot and its restoration, `snapshot` and `restore` of internal/engine/engine.go.
use diff_mem.Prelude.{
  ◌≡◌, refl, ap, true, not, ◌&&◌, none, some, List, [], ◌∷◌, arith, All, if◌then◌else◌, Bool-cases,
  inl, inr,
}
use diff_mem.Text.{Text, text_eq, member}
use diff_mem.Text.Laws.{text_eq_iff, test_of_text_eq}
use diff_mem.Model.{Node}
use diff_mem.Env.{Codec, RoundTrips}
use diff_mem.Store.{Store, IsStore, paths}
use diff_mem.Engine.{Engine}
use diff_mem.Engine.Exec.{clone_node, clone_nodes, delete_others, put_back, restore_snapshot}

module _ (c : Codec) (trips : RoundTrips c) where
  clone_node_lem : (n : Node) → clone_node c n ≡ some n
  unfolding clone_node
  clone_node_lem n = ground (arith, trips.encodes n, trips.decodes n)

  -- A snapshot is taken, and holds the nodes themselves.
  pub clone_nodes_lem : (ns : List Node) → clone_nodes c ns ≡ some ns
  unfolding clone_nodes
  clone_nodes_lem [] = refl
  clone_nodes_lem (n ∷ ns) = ground (arith, clone_node_lem n, clone_nodes_lem ns)

module _ {Db : Type 0} (st : Store Db) (laws : IsStore st) where
  get-delete_others :
      (keep ps : List Text) (db : Db) (p : Text)
      → st.get_node p (delete_others st keep ps db)
        ≡ (if member p ps && not (member p keep) then none else st.get_node p db)
  unfolding delete_others
  get-delete_others keep [] db p = refl
  get-delete_others keep (q ∷ ps) db p = ground (
    arith,
    text_eq_iff q p,
    test_of_text_eq (λ x. member x keep) q p,
    laws.get-delete q db p,
    get-delete_others keep ps db p,
    get-delete_others keep ps (st.delete_node q db) p,
  )

  delete_others-IsValid :
      (keep ps : List Text) (db : Db) → laws.IsValid db → laws.IsValid (delete_others st keep ps db)
  unfolding delete_others
  delete_others-IsValid keep [] db h = h
  delete_others-IsValid keep (q ∷ ps) db h = elim (Bool-cases (member q keep)) [
    | inl old ↦ rw old (delete_others-IsValid keep ps db h)
    | inr new ↦ rw new (delete_others-IsValid keep ps _ (laws.delete-IsValid q db h))
  ]

  module _ (c : Codec) (trips : RoundTrips c) where
    put_back-IsValid :
        (ns : List Node) (db : Db) → laws.IsValid db → laws.IsValid (put_back st c ns db)
    unfolding put_back
    put_back-IsValid [] db h = h
    put_back-IsValid (n ∷ ns) db h =
        rw (clone_node_lem c trips n) (put_back-IsValid ns _ (laws.put-IsValid n db h))

    -- The nodes that are put back are those that `old` finds.
    get-put_back :
        (old : Db) (ns : List Node) (db : Db) (p : Text)
        → All (λ n. st.get_node n.path old ≡ some n) ns
        → st.get_node p (put_back st c ns db)
          ≡ (if member p (paths ns) then st.get_node p old else st.get_node p db)
    unfolding put_back
    get-put_back old [] db p h = refl
    get-put_back old (n ∷ ns) db p (found, h) = rw (clone_node_lem c trips n) (
        ground (
          arith,
          found,
          test_of_path n,
          laws.get-put n db p,
          get-put_back old ns (st.put_node n db) p h,
        ))
      where
        test_of_path :
            (m : Node) → text_eq m.path p ≡ true → st.get_node m.path old ≡ st.get_node p old
        test_of_path m same = ap (λ q. st.get_node q old) ((text_eq_iff m.path p).0 same)

    -- After the rollback to a snapshot of `old`, every path finds what it found in `old`.
    pub get-restore_snapshot :
        (old : Db) (e : Engine Db) (p : Text)
        → laws.IsValid old
        → laws.IsValid e.store
        → st.get_node p (restore_snapshot st c (st.all_nodes old) e).store ≡ st.get_node p old
    unfolding restore_snapshot
    get-restore_snapshot old e p valid valid' =
        let keep = paths (st.all_nodes old) in
        let ps = paths (st.all_nodes e.store) in
        ground (
          arith,
          get-put_back old (st.all_nodes old) (delete_others st keep ps e.store) p
              (laws.all-get old valid),
          get-delete_others keep ps e.store p,
          laws.member-all p old valid,
          laws.member-all p e.store valid',
        )

    pub restore_snapshot-IsValid :
        (snap : List Node) (e : Engine Db)
        → laws.IsValid e.store
        → laws.IsValid (restore_snapshot st c snap e).store
    unfolding restore_snapshot
    restore_snapshot-IsValid snap e h =
        put_back-IsValid snap _
          (delete_others-IsValid (paths snap) (paths (st.all_nodes e.store)) e.store h)
