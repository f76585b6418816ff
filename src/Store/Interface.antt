-- ===== src/Store/Interface.antt =====
-- The interface `Store` of internal/store/store.go, and what the engine relies on.
use diff_mem.Prelude.{false, ◌≡◌, Bool, Option, none, some, List, map, is_some, All, if◌then◌else◌}
use diff_mem.Text.{Text, text_eq, member}
use diff_mem.Dict.{Dict}
use diff_mem.Model.{Node}
use diff_mem.Store.Indexing.{tags_of, words_of, under, is_indexed}

-- The engine drops the errors of PutNode and DeleteNode, so an operation returns the new state only.
pub record Store (Db : Type 0) : Type 0 where
  pub get_node : Text → Db → Option Node
  pub put_node : Node → Db → Db
  pub delete_node : Text → Db → Db
  pub has_node : Text → Db → Bool
  pub build_tag_index : Db → Dict (List Text)
  pub build_keyword_index : Db → Dict (List Text)
  pub all_nodes : Db → List Node

abbrev pub paths : List Node → List Text
paths ns = map (λ n. n.path) ns

-- The laws hold of the states that satisfy `IsValid`, which every operation keeps.
pub record IsStore {Db : Type 0} (st : Store Db) : Type 1 where
  pub IsValid : Db → Type 0
  pub put-IsValid : (n : Node) (db : Db) → IsValid db → IsValid (st.put_node n db)
  pub delete-IsValid : (p : Text) (db : Db) → IsValid db → IsValid (st.delete_node p db)
  pub get-put :
      (n : Node) (db : Db) (p : Text)
      → st.get_node p (st.put_node n db) ≡ (if text_eq n.path p then some n else st.get_node p db)
  pub get-delete :
      (q : Text) (db : Db) (p : Text)
      → st.get_node p (st.delete_node q db) ≡ (if text_eq q p then none else st.get_node p db)
  pub get-has : (p : Text) (db : Db) → st.has_node p db ≡ false → st.get_node p db ≡ none
  pub has-get : (p : Text) (db : Db) → IsValid db → st.has_node p db ≡ is_some (st.get_node p db)
  -- AllNodes lists the nodes that GetNode finds.
  pub all-get : (db : Db) → IsValid db → All (λ n. st.get_node n.path db ≡ some n) (st.all_nodes db)
  pub member-all :
      (p : Text) (db : Db)
      → IsValid db
      → member p (paths (st.all_nodes db)) ≡ is_some (st.get_node p db)
  -- A path stands under a word exactly if the node there has the word and is not archived.
  pub member-build_tag_index :
      (q w : Text) (db : Db)
      → IsValid db
      → member q (under w (st.build_tag_index db)) ≡ is_indexed tags_of w q (st.get_node q db)
  pub member-build_keyword_index :
      (q w : Text) (db : Db)
      → IsValid db
      → member q (under w (st.build_keyword_index db)) ≡ is_indexed words_of w q (st.get_node q db)

-- The state after an operation whose error is dropped.
abbrev pub or_same {ℓ} : {Db : Type ℓ} → Db → Option Db → Db
or_same db none = db
or_same db (some db') = db'
