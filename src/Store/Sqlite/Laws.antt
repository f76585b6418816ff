-- ===== src/Store/Sqlite/Laws.antt =====
-- SQLiteStore as an instance of the interface.
use diff_mem.Prelude.{
  ◌≡◌, refl, sym, ap, ◌∙◌, subst, Bool, false, ◌||◌, Option, none, some, List, [], ◌∷◌, arith, inl,
  inr, is_some, if◌then◌else◌, Option-cases, Bool-cases,
}
use diff_mem.Text.{Text, lit, text_eq, member}
use diff_mem.Text.Laws.{text_eq_iff}
use diff_mem.Dict.{Dict, lookup}
use diff_mem.Model.{Status, active, archived, is_archived, Node}
use diff_mem.Env.{Codec, RoundTrips}
use diff_mem.Store.Interface.{IsStore}
use diff_mem.Store.Indexing.{index_words, tags_of, words_of, under, is_indexed}
use diff_mem.Store.Indexing.Laws.{
  IsFresh, IsKeyed, IsKeyed-of_IsFresh, member-values, values-All, member-index_words,
}
use diff_mem.Store.Sqlite.{
  Row, Table, IsTable, NeverFails, status_text, where_not_archived, decode_rows, index_nodes,
  or_same, read_node, write_node, live_nodes, row_nodes, sqlite_store,
}

-- Whether the column reads 'archived'.
is_archived-status_text : (s : Status) → text_eq (status_text s) (lit "archived") ≡ is_archived s
unfolding text_eq lit
is_archived-status_text active = refl
is_archived-status_text archived = refl

module _ {B : Type 0} where
  -- The row that a query with the condition still finds.
  abbrev live_row : Option (Row B) → Option (Row B)
  live_row none = none
  live_row (some r) = if text_eq r.status (lit "archived") then none else some r

  lookup-where_not_archived :
      (q : Text) (rs : List (Text × Row B))
      → IsFresh rs
      → lookup q (where_not_archived rs) ≡ live_row (lookup q rs)
  unfolding where_not_archived lookup
  lookup-where_not_archived q [] h = refl
  lookup-where_not_archived q ((k, r) ∷ rs) (f, h) = elim (Bool-cases (text_eq k q)) [
    | inr other ↦ ground (arith, lookup-where_not_archived q rs h)
    | inl here ↦ ground (
      arith,
      lookup-where_not_archived q rs h,
      ap (λ t. lookup t rs) (sym ((text_eq_iff k q).0 here)) ∙ f,
    )
  ]

  where_not_archived-IsFresh :
      (rs : List (Text × Row B)) → IsFresh rs → IsFresh (where_not_archived rs)
  unfolding where_not_archived
  where_not_archived-IsFresh [] h = tt
  where_not_archived-IsFresh ((k, r) ∷ rs) (f, h) =
      elim (Bool-cases (text_eq r.status (lit "archived"))) [
        | inl gone ↦ rw (where_not_archived, gone) (where_not_archived-IsFresh rs h)
        | inr live ↦
            rw (where_not_archived, live)
              (lookup-where_not_archived k rs h ∙ ap live_row f, where_not_archived-IsFresh rs h)
      ]

module _ (c : Codec) where
  abbrev decode_row : Option (Row c.Bytes) → Option Node
  decode_row none = none
  decode_row (some r) = c.unmarshal r.blob

  lookup-decode_rows :
      (q : Text) (rs : List (Text × Row c.Bytes))
      → IsFresh rs
      → lookup q (decode_rows c rs) ≡ decode_row (lookup q rs)
  unfolding decode_rows lookup
  lookup-decode_rows q [] h = refl
  lookup-decode_rows q ((k, r) ∷ rs) (f, h) = elim (Bool-cases (text_eq k q)) [
    | inr other ↦ ground (arith, lookup-decode_rows q rs h)
    | inl here ↦ ground (
      arith,
      lookup-decode_rows q rs h,
      ap (λ t. lookup t rs) (sym ((text_eq_iff k q).0 here)) ∙ f,
    )
  ]

  decode_rows-IsFresh : (rs : List (Text × Row c.Bytes)) → IsFresh rs → IsFresh (decode_rows c rs)
  unfolding decode_rows
  decode_rows-IsFresh [] h = tt
  decode_rows-IsFresh ((k, r) ∷ rs) (f, h) = elim (Option-cases (c.unmarshal r.blob)) [
    | inl broken ↦ rw (decode_rows, broken) (decode_rows-IsFresh rs h)
    | inr (n, fine) ↦
        rw (decode_rows, fine)
          (lookup-decode_rows k rs h ∙ ap decode_row f, decode_rows-IsFresh rs h)
  ]

-- What the index says of a node that is found, without a look at its status.
abbrev has_word : (Text → Node → List Text) → Text → Text → Option Node → Bool
has_word words w q none = false
has_word words w q (some n) = member w (words q n)

member-index_nodes :
    (words : Text → Node → List Text) (q w : Text) (m : Dict Node) (idx : Dict (List Text))
    → IsFresh m
    → member q (under w (index_nodes words m idx))
      ≡ (member q (under w idx) || has_word words w q (lookup q m))
unfolding index_nodes lookup
member-index_nodes words q w [] idx h = ground arith
member-index_nodes words q w ((k, n) ∷ m) idx (fresh, h) = ground (
  arith,
  text_eq_iff k q,
  member-index_words q w k (words k n) idx,
  member-index_nodes words q w m (index_words k (words k n) idx) h,
)

module _ (c : Codec) (trips : RoundTrips c) {Db : Type 0} (t : Table Db c.Bytes) (laws : IsTable t)
    (reliable : NeverFails t) where
  -- A row holds a node with the row's path and status.
  abbrev Holds : Text → Row c.Bytes → Type 0
  Holds p r =
      (n : Node) × (c.unmarshal r.blob ≡ some n) × (n.path ≡ p) × (r.status ≡ status_text n.status)

  abbrev IsClean : Db → Type 0
  IsClean db = (p : Text) (r : Row c.Bytes) → t.row p db ≡ some r → Holds p r

  abbrev row_of : Node → Row c.Bytes
  row_of n = record { status = status_text n.status; blob = trips.encode n }

  row-put :
      (n : Node) (db : Db) (p : Text)
      → t.row p (or_same db (write_node c t n db))
        ≡ (if text_eq n.path p then some (row_of n) else t.row p db)
  unfolding write_node
  row-put n db p = elim (Option-cases (t.upsert n.path (row_of n) db)) [
    | inl failed ↦ absurd (ground (arith, reliable.upserts n.path (row_of n) db))
    | inr (db', written) ↦
        ground (arith, trips.encodes n, written, laws.row-upsert n.path p (row_of n) db db' written)
  ]

  row-delete :
      (q : Text) (db : Db) (p : Text)
      → t.row p (or_same db (t.erase q db)) ≡ (if text_eq q p then none else t.row p db)
  row-delete q db p = elim (Option-cases (t.erase q db)) [
    | inl failed ↦ absurd (ground (arith, reliable.erases q db))
    | inr (db', erased) ↦ ground (arith, erased, laws.row-erase q p db db' erased)
  ]

  path_of_read_node :
      (p : Text) (n : Node) (db : Db) → IsClean db → read_node c t p db ≡ some n → n.path ≡ p
  unfolding read_node
  path_of_read_node p n db h e = elim (Option-cases (t.row p db)) [
    | inl missing ↦ absurd (ground (arith, missing))
    | inr (r, found) ↦
        let (m, fine, at_p, column) = h p r found in
        let is_m : some n ≡ some m = ground (arith, found, fine) in ground (arith, is_m, at_p)
  ]

  put-IsClean : (n : Node) (db : Db) → IsClean db → IsClean (or_same db (write_node c t n db))
  put-IsClean n db h p r e = elim (Bool-cases (text_eq n.path p)) [
    | inr other ↦ h p r (ground (arith, row-put n db p))
    | inl same ↦
        let is_r : r ≡ row_of n = ground (arith, row-put n db p) in
        subst (Holds p) (sym is_r) (n, trips.decodes n, (text_eq_iff n.path p).0 same, refl)
  ]

  read_node-put :
      (n : Node) (db : Db) (p : Text)
      → read_node c t p (or_same db (write_node c t n db))
        ≡ (if text_eq n.path p then some n else read_node c t p db)
  unfolding read_node
  read_node-put n db p = ground (arith, row-put n db p, trips.decodes n)

  read_node-delete :
      (q : Text) (db : Db) (p : Text)
      → read_node c t p (or_same db (t.erase q db))
        ≡ (if text_eq q p then none else read_node c t p db)
  unfolding read_node
  read_node-delete q db p = ground (arith, row-delete q db p)

  has-read_node :
      (p : Text) (db : Db) → IsClean db → is_some (t.row p db) ≡ is_some (read_node c t p db)
  unfolding read_node
  has-read_node p db h = elim (Option-cases (t.row p db)) [
    | inl missing ↦ ground (arith, missing)
    | inr (r, found) ↦ let (n, fine, at_p, column) = h p r found in ground (arith, found, fine)
  ]

  lookup-row_nodes : (q : Text) (db : Db) → lookup q (row_nodes c t db) ≡ read_node c t q db
  unfolding row_nodes read_node
  lookup-row_nodes q db =
      lookup-decode_rows c q (t.rows db) (laws.rows-IsFresh db) ∙ ground (arith, laws.rows-row q db)

  row_nodes-IsKeyed : (db : Db) → IsClean db → IsKeyed (row_nodes c t db)
  unfolding row_nodes
  row_nodes-IsKeyed db h =
      IsKeyed-of_IsFresh (row_nodes c t db)
        (decode_rows-IsFresh c (t.rows db) (laws.rows-IsFresh db))
        (λ p n e. path_of_read_node p n db h (sym (lookup-row_nodes p db) ∙ e))

  -- The condition of the query leaves out the archived nodes.
  has_word-live :
      (words : Text → Node → List Text) (q w : Text) (db : Db)
      → IsClean db
      → has_word words w q (decode_row c (live_row (t.row q db)))
        ≡ is_indexed words w q (read_node c t q db)
  unfolding read_node
  has_word-live words q w db h = elim (Option-cases (t.row q db)) [
    | inl missing ↦ ground (arith, missing)
    | inr (r, found) ↦
        let (n, fine, at_q, column) = h q r found in
        ground (
          arith,
          found,
          fine,
          ap (λ s. text_eq s (lit "archived")) column,
          is_archived-status_text n.status,
        )
  ]

  member-live :
      (words : Text → Node → List Text) (q w : Text) (db : Db)
      → IsClean db
      → member q (under w (index_nodes words (live_nodes c t db) []))
        ≡ is_indexed words w q (read_node c t q db)
  unfolding live_nodes lookup
  member-live words q w db h =
      let kept = where_not_archived-IsFresh (t.rows db) (laws.rows-IsFresh db) in
      member-index_nodes words q w (live_nodes c t db) []
        (decode_rows-IsFresh c (where_not_archived (t.rows db)) kept)
      ∙ ap (has_word words w q) (
          lookup-decode_rows c q (where_not_archived (t.rows db)) kept
          ∙ ap (decode_row c) (
              lookup-where_not_archived q (t.rows db) (laws.rows-IsFresh db)
              ∙ ap live_row (laws.rows-row q db)))
      ∙ has_word-live words q w db h

  -- Over a table that keeps its laws and never fails, with a node codec that round-trips, the
  -- SQLite store satisfies the laws of the interface that the engine relies on, and a table
  -- without rows is a valid state of it.
  pub sqlite_store-IsStore :
      (st : IsStore (sqlite_store c t)) × ((db : Db)
        → ((p : Text) → t.row p db ≡ none)
        → st.IsValid db)
  unfolding read_node
  sqlite_store-IsStore = (
    record {
      IsValid = IsClean;
      put-IsValid = put-IsClean;
      delete-IsValid = λ q db h p r e. h p r (ground (arith, row-delete q db p));
      get-put = read_node-put;
      get-delete = read_node-delete;
      get-has = λ p db h. ground arith;
      has-get = has-read_node;
      all-get = λ db h.
          values-All _ (row_nodes c t db) (row_nodes-IsKeyed db h)
            (λ n f. sym (lookup-row_nodes n.path db) ∙ f);
      member-all = λ p db h.
          member-values p (row_nodes c t db) (row_nodes-IsKeyed db h)
          ∙ ap is_some (lookup-row_nodes p db);
      member-build_tag_index = λ q w db h. member-live tags_of q w db h;
      member-build_keyword_index = λ q w db h. member-live words_of q w db h;
    },
    λ db h p r e. absurd (ground (arith, h p)),
  )
