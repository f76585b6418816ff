-- ===== src/Store/Sqlite.antt =====
-- SQLiteStore of internal/store/sqlitestore.go, over the table `nodes` behind package database/sql.
pub mod Laws
use diff_mem.Prelude.{
  ◌≡◌, Bool, true, not, Option, none, some, List, [], ◌∷◌, is_some, if◌then◌else◌,
}
use diff_mem.Text.{Text, lit, text_eq}
use diff_mem.Dict.{Dict, lookup}
use diff_mem.Model.{Status, active, archived, Node}
use diff_mem.Env.{Codec}
use diff_mem.Store.Interface.{Store, or_same}
use diff_mem.Store.Indexing.{index_words, tags_of, words_of, values}
use diff_mem.Store.Indexing.Laws.{IsFresh}

-- The columns beside the primary key `path`; `blob` is the column `data`.
pub record Row (Bytes : Type 0) : Type 0 where
  pub status : Text
  pub blob : Bytes

-- The table: `row` is a query for one path, `upsert` the `INSERT … ON CONFLICT(path) DO UPDATE`, `erase`
-- the `DELETE … WHERE path = ?`, both with `none` for an error, and `rows` a query for all rows.
pub record Table (Db Bytes : Type 0) : Type 0 where
  pub row : Text → Db → Option (Row Bytes)
  pub upsert : Text → Row Bytes → Db → Option Db
  pub erase : Text → Db → Option Db
  pub rows : Db → List (Text × Row Bytes)

-- What SQL says of a table with a primary key.
pub record IsTable {Db Bytes : Type 0} (t : Table Db Bytes) : Type 0 where
  pub row-upsert :
      (k j : Text) (r : Row Bytes) (db db' : Db)
      → t.upsert k r db ≡ some db'
      → t.row j db' ≡ (if text_eq k j then some r else t.row j db)
  pub row-erase :
      (k j : Text) (db db' : Db)
      → t.erase k db ≡ some db'
      → t.row j db' ≡ (if text_eq k j then none else t.row j db)
  pub rows-IsFresh : (db : Db) → IsFresh (t.rows db)
  pub rows-row : (k : Text) (db : Db) → lookup k (t.rows db) ≡ t.row k db

-- No statement fails.
pub record NeverFails {Db Bytes : Type 0} (t : Table Db Bytes) : Type 0 where
  pub upserts : (k : Text) (r : Row Bytes) (db : Db) → is_some (t.upsert k r db) ≡ true
  pub erases : (k : Text) (db : Db) → is_some (t.erase k db) ≡ true

-- string(node.Header.Status)
abbrev pub status_text : Status → Text
status_text active = lit "active"
status_text archived = lit "archived"

-- WHERE status != 'archived'
unfoldable pub where_not_archived : {B : Type 0} → List (Text × Row B) → List (Text × Row B)
where_not_archived [] = []
where_not_archived ((path, r) ∷ rest) =
    let kept = where_not_archived rest in
    if text_eq r.status (lit "archived") then kept else (path, r) ∷ kept

-- The loop over the rows: data that cannot be decoded is skipped.
unfoldable pub decode_rows : (c : Codec) → List (Text × Row c.Bytes) → Dict Node
decode_rows c [] = []
decode_rows c ((path, r) ∷ rest) =
    let nodes = decode_rows c rest in
    elim (c.unmarshal r.blob) [ none ↦ nodes | some n ↦ (path, n) ∷ nodes ]

unfoldable pub index_nodes :
    (Text → Node → List Text) → Dict Node → Dict (List Text) → Dict (List Text)
unfolding index_words
index_nodes words [] idx = idx
index_nodes words ((path, n) ∷ rest) idx =
    index_nodes words rest (index_words path (words path n) idx)

module _ (c : Codec) {Db : Type 0} (t : Table Db c.Bytes) where
  -- SELECT data FROM nodes WHERE path = ?
  unfoldable pub read_node : Text → Db → Option Node
  read_node path db = elim (t.row path db) [ none ↦ none | some r ↦ c.unmarshal r.blob ]

  unfoldable pub write_node : Node → Db → Option Db
  write_node node db = elim (c.marshal node) [
    | none ↦ none
    | some blob ↦ t.upsert node.path (record { status = status_text node.status; blob = blob }) db
  ]

  -- The nodes of SELECT path, data FROM nodes WHERE status != 'archived', and of SELECT data FROM nodes.
  unfoldable pub live_nodes : Db → Dict Node
  unfolding where_not_archived decode_rows
  live_nodes db = decode_rows c (where_not_archived (t.rows db))

  unfoldable pub row_nodes : Db → Dict Node
  unfolding decode_rows
  row_nodes db = decode_rows c (t.rows db)

  -- The methods of `SQLiteStore` as the interface.
  abbrev pub sqlite_store : Store Db
  sqlite_store = record {
    get_node = read_node;
    put_node = λ node db. or_same db (write_node node db);
    delete_node = λ path db. or_same db (t.erase path db);
    has_node = λ path db. is_some (t.row path db);
    build_tag_index = λ db. index_nodes tags_of (live_nodes db) [];
    build_keyword_index = λ db. index_nodes words_of (live_nodes db) [];
    all_nodes = λ db. values (row_nodes db);
  }
