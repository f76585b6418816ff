-- ===== src/Store/File.antt =====
-- FileStore of internal/store/filestore.go, over the database of package badger.
pub mod Laws
use diff_mem.Prelude.{
  ℕ, ◌≡◌, Bool, true, Option, none, some, List, [], ◌∷◌, ◌++◌, drop, is_some, All, if◌then◌else◌,
}
use diff_mem.Text.{Text, lit, text_eq, has_prefix}
use diff_mem.Dict.{Dict, lookup}
use diff_mem.Model.{Node}
use diff_mem.Env.{Codec}
use diff_mem.Store.Interface.{Store, or_same}
use diff_mem.Store.Indexing.{build_index, tags_of, words_of, values}
use diff_mem.Store.Indexing.Laws.{IsFresh}

-- A badger database: `get` is `txn.Get` in a `View`; `set` and `erase` are `txn.Set` and `txn.Delete` in
-- an `Update`, with `none` for an error; `scan` is the walk of an iterator from `Seek(prefix)` while
-- `ValidForPrefix(prefix)`.
pub record Badger (Db Bytes : Type 0) : Type 0 where
  pub get : Text → Db → Option Bytes
  pub set : Text → Bytes → Db → Option Db
  pub erase : Text → Db → Option Db
  pub scan : Text → Db → List (Text × Bytes)

-- What badger documents of a transaction and an iterator.
pub record IsBadger {Db Bytes : Type 0} (b : Badger Db Bytes) : Type 0 where
  pub get-set :
      (k j : Text) (v : Bytes) (db db' : Db)
      → b.set k v db ≡ some db'
      → b.get j db' ≡ (if text_eq k j then some v else b.get j db)
  pub get-erase :
      (k j : Text) (db db' : Db)
      → b.erase k db ≡ some db'
      → b.get j db' ≡ (if text_eq k j then none else b.get j db)
  pub scan-prefix :
      (prefix : Text) (db : Db)
      → All (λ (kv : Text × Bytes). has_prefix kv.0 prefix ≡ true) (b.scan prefix db)
  pub scan-IsFresh : (prefix : Text) (db : Db) → IsFresh (b.scan prefix db)
  pub scan-get :
      (prefix k : Text) (db : Db)
      → has_prefix k prefix ≡ true
      → lookup k (b.scan prefix db) ≡ b.get k db

-- No transaction fails.
pub record NeverFails {Db Bytes : Type 0} (b : Badger Db Bytes) : Type 0 where
  pub sets : (k : Text) (v : Bytes) (db : Db) → is_some (b.set k v db) ≡ true
  pub erases : (k : Text) (db : Db) → is_some (b.erase k db) ≡ true

-- const nodeKey
abbrev pub node_key : Text
node_key = lit "node:"

-- path := key[len(nodeKey):]
abbrev pub path_of_key : Text → Text
path_of_key key = drop 5 key

-- json.Unmarshal of a value that may be missing.
abbrev pub decode : (c : Codec) → Option c.Bytes → Option Node
decode c none = none
decode c (some val) = c.unmarshal val

-- The walk over the entries: a value that cannot be decoded is skipped.
unfoldable pub decode_entries : (c : Codec) → List (Text × c.Bytes) → Dict Node
decode_entries c [] = []
decode_entries c ((key, val) ∷ rest) =
    let nodes = decode_entries c rest in
    elim (c.unmarshal val) [ none ↦ nodes | some n ↦ (path_of_key key, n) ∷ nodes ]

-- `nil_bytes` is what `json.Marshal` leaves in `val` on an error, which persistNode ignores.
module _ (c : Codec) (nil_bytes : c.Bytes) {Db : Type 0} (b : Badger Db c.Bytes) where
  unfoldable pub persist_node : Node → Db → Option Db
  persist_node node db =
      b.set (node_key ++ node.path) (elim (c.marshal node) [ none ↦ nil_bytes | some val ↦ val ]) db

  unfoldable pub load_node : Text → Db → Option Node
  load_node path db = decode c (b.get (node_key ++ path) db)

  unfoldable pub erase_node : Text → Db → Option Db
  erase_node path db = b.erase (node_key ++ path) db

  unfoldable pub stored_nodes : Db → Dict Node
  unfolding decode_entries
  stored_nodes db = decode_entries c (b.scan node_key db)

  -- The methods of `FileStore` as the interface.
  abbrev pub file_store : Store Db
  file_store = record {
    get_node = load_node;
    put_node = λ node db. or_same db (persist_node node db);
    delete_node = λ path db. or_same db (erase_node path db);
    has_node = λ path db. is_some (load_node path db);
    build_tag_index = λ db. build_index tags_of (stored_nodes db) [];
    build_keyword_index = λ db. build_index words_of (stored_nodes db) [];
    all_nodes = λ db. values (stored_nodes db);
  }
