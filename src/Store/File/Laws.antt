-- ===== src/Store/File/Laws.antt =====
-- FileStore as an instance of the interface.
use diff_mem.Prelude.{
  ◌≡◌, refl, sym, ap, ◌∙◌, true, none, some, List, [], ◌∷◌, ◌++◌, arith, inl, inr, All, is_some,
  if◌then◌else◌, Option-cases, Bool-cases,
}
use diff_mem.Text.{Text, lit, text_eq, has_prefix, member}
use diff_mem.Text.Laws.{text_eq_iff, has_prefix-append, has_prefix_sound}
use diff_mem.Dict.{lookup}
use diff_mem.Model.{Node}
use diff_mem.Env.{Codec, RoundTrips}
use diff_mem.Store.Interface.{IsStore}
use diff_mem.Store.Indexing.{build_index, tags_of, words_of, under, is_indexed}
use diff_mem.Store.Indexing.Laws.{
  IsFresh, IsKeyed, IsKeyed-of_IsFresh, member-values, values-All, member-build_index,
}
use diff_mem.Store.File.{
  Badger, IsBadger, NeverFails, node_key, or_same, path_of_key, decode, decode_entries,
  persist_node, load_node, erase_node, stored_nodes, file_store,
}

text_eq-node_key : (p q : Text) → text_eq (node_key ++ p) (node_key ++ q) ≡ text_eq p q
unfolding text_eq lit
text_eq-node_key p q = refl

path_of_key_lem : (k : Text) → has_prefix k node_key ≡ true → k ≡ node_key ++ path_of_key k
unfolding lit
path_of_key_lem k h =
    let (r, e) = has_prefix_sound k node_key h in
    e ∙ ap (λ t. node_key ++ t) (sym (ap path_of_key e))

module _ (c : Codec) where
  -- What is found among the decoded entries is what decodes from the entry of the key.
  lookup-decode_entries :
      (q : Text) (es : List (Text × c.Bytes))
      → All (λ (kv : Text × c.Bytes). has_prefix kv.0 node_key ≡ true) es
      → IsFresh es
      → lookup q (decode_entries c es) ≡ decode c (lookup (node_key ++ q) es)
  unfolding decode_entries lookup
  lookup-decode_entries q [] ps fs = refl
  lookup-decode_entries q ((k, v) ∷ es) (p, ps) (f, fs) =
      let place = path_of_key_lem k p in
      let same : text_eq k (node_key ++ q) ≡ text_eq (path_of_key k) q =
        ap (λ t. text_eq t (node_key ++ q)) place ∙ text_eq-node_key (path_of_key k) q in
      let rest = lookup-decode_entries q es ps fs in
      elim (Bool-cases (text_eq (path_of_key k) q)) [
        | inr other ↦ ground (arith, same, rest)
        | inl here ↦
            let at_k : node_key ++ q ≡ k =
              sym (place ∙ ap (λ t. node_key ++ t) ((text_eq_iff (path_of_key k) q).0 here)) in
            ground (arith, same, rest, ap (λ t. lookup t es) at_k, f)
      ]

  decode_entries-IsFresh :
      (es : List (Text × c.Bytes))
      → All (λ (kv : Text × c.Bytes). has_prefix kv.0 node_key ≡ true) es
      → IsFresh es
      → IsFresh (decode_entries c es)
  unfolding decode_entries
  decode_entries-IsFresh [] ps fs = tt
  decode_entries-IsFresh ((k, v) ∷ es) (p, ps) (f, fs) =
      let rest = decode_entries-IsFresh es ps fs in
      elim (Option-cases (c.unmarshal v)) [
        | inl broken ↦ rw (decode_entries, broken) rest
        | inr (n, fine) ↦
            rw (decode_entries, fine)
              (
                lookup-decode_entries (path_of_key k) es ps fs
                    ∙ ap (decode c) (ap (λ t. lookup t es) (sym (path_of_key_lem k p)) ∙ f),
                rest,
              )
      ]

module _ (c : Codec) (trips : RoundTrips c) (nil_bytes : c.Bytes) {Db : Type 0}
    (b : Badger Db c.Bytes) (laws : IsBadger b) (reliable : NeverFails b) where
  abbrev Keyed : Db → Type 0
  Keyed db = (p : Text) (n : Node) → load_node c nil_bytes b p db ≡ some n → n.path ≡ p

  persist_node_lem :
      (n : Node) (db : Db)
      → persist_node c nil_bytes b n db ≡ b.set (node_key ++ n.path) (trips.encode n) db
  unfolding persist_node
  persist_node_lem n db = ground (arith, trips.encodes n)

  load_node-put :
      (n : Node) (db : Db) (p : Text)
      → load_node c nil_bytes b p (or_same db (persist_node c nil_bytes b n db))
        ≡ (if text_eq n.path p then some n else load_node c nil_bytes b p db)
  unfolding load_node
  load_node-put n db p = elim (Option-cases (b.set (node_key ++ n.path) (trips.encode n) db)) [
    | inl failed ↦ absurd (ground (arith, reliable.sets (node_key ++ n.path) (trips.encode n) db))
    | inr (db', written) ↦ ground (
      arith,
      persist_node_lem n db,
      written,
      laws.get-set (node_key ++ n.path) (node_key ++ p) (trips.encode n) db db' written,
      text_eq-node_key n.path p,
      trips.decodes n,
    )
  ]

  load_node-erase :
      (q : Text) (db : Db) (p : Text)
      → load_node c nil_bytes b p (or_same db (erase_node c nil_bytes b q db))
        ≡ (if text_eq q p then none else load_node c nil_bytes b p db)
  unfolding load_node erase_node
  load_node-erase q db p = elim (Option-cases (b.erase (node_key ++ q) db)) [
    | inl failed ↦ absurd (ground (arith, reliable.erases (node_key ++ q) db))
    | inr (db', erased) ↦ ground (
      arith,
      erased,
      laws.get-erase (node_key ++ q) (node_key ++ p) db db' erased,
      text_eq-node_key q p,
    )
  ]

  lookup-stored_nodes :
      (q : Text) (db : Db) → lookup q (stored_nodes c nil_bytes b db) ≡ load_node c nil_bytes b q db
  unfolding stored_nodes load_node
  lookup-stored_nodes q db =
      lookup-decode_entries c q (b.scan node_key db) (laws.scan-prefix node_key db)
        (laws.scan-IsFresh node_key db)
      ∙ ap (decode c) (laws.scan-get node_key (node_key ++ q) db (has_prefix-append node_key q))

  stored_nodes-IsFresh : (db : Db) → IsFresh (stored_nodes c nil_bytes b db)
  unfolding stored_nodes
  stored_nodes-IsFresh db =
      decode_entries-IsFresh c (b.scan node_key db) (laws.scan-prefix node_key db)
        (laws.scan-IsFresh node_key db)

  stored_nodes-IsKeyed : (db : Db) → Keyed db → IsKeyed (stored_nodes c nil_bytes b db)
  stored_nodes-IsKeyed db h =
      IsKeyed-of_IsFresh (stored_nodes c nil_bytes b db) (stored_nodes-IsFresh db)
        (λ p n e. h p n (sym (lookup-stored_nodes p db) ∙ e))

  member-index :
      (words : Text → Node → List Text) (q w : Text) (db : Db)
      → member q (under w (build_index words (stored_nodes c nil_bytes b db) []))
        ≡ is_indexed words w q (load_node c nil_bytes b q db)
  unfolding lookup
  member-index words q w db =
      member-build_index words q w (stored_nodes c nil_bytes b db) [] (stored_nodes-IsFresh db)
      ∙ ap (is_indexed words w q) (lookup-stored_nodes q db)

  -- Over a badger database that keeps its laws and never fails, with a node codec that round-
  -- trips, the file store satisfies the laws of the interface that the engine relies on, and a
  -- database without node keys is a valid state of it.
  pub file_store-IsStore :
      (st : IsStore (file_store c nil_bytes b)) × ((db : Db)
        → ((p : Text) → b.get (node_key ++ p) db ≡ none)
        → st.IsValid db)
  unfolding load_node
  file_store-IsStore = (
    record {
      IsValid = Keyed;
      put-IsValid =
          λ n db h p m e. ground (arith, load_node-put n db p, text_eq_iff n.path p, h p m);
      delete-IsValid = λ q db h p m e. h p m (ground (arith, load_node-erase q db p));
      get-put = load_node-put;
      get-delete = load_node-erase;
      get-has = λ p db h. ground arith;
      has-get = λ p db h. refl;
      all-get = λ db h.
          values-All _ (stored_nodes c nil_bytes b db) (stored_nodes-IsKeyed db h)
            (λ n f. sym (lookup-stored_nodes n.path db) ∙ f);
      member-all = λ p db h.
          member-values p (stored_nodes c nil_bytes b db) (stored_nodes-IsKeyed db h)
          ∙ ap is_some (lookup-stored_nodes p db);
      member-build_tag_index = λ q w db h. member-index tags_of q w db;
      member-build_keyword_index = λ q w db h. member-index words_of q w db;
    },
    λ db h p n e. ground (arith, h p),
  )
