-- ===== src/Store/Memory/Index.antt =====
-- The tag and keyword indexes of the in-memory store.
use diff_mem.Prelude.{◌≡◌, [], ◌∷◌}
use diff_mem.Text.{Text, member}
use diff_mem.Dict.{lookup}
use diff_mem.Store.Indexing.{tags_of, tokenize, words_of, under, is_indexed}
use diff_mem.Store.Indexing.Laws.{IsKeyed, IsFresh-of_IsKeyed, member-build_index}
use diff_mem.Store.Memory.{MemoryStore, build_tag_index, build_keyword_index, get_node}

-- In a store whose nodes stand under their own paths, a path stands under a tag in the tag index
-- exactly if it finds a node that has the tag and is not archived.
pub member-build_tag_index :
    (q tag : Text) (s : MemoryStore)
    → IsKeyed s.nodes
    → member q (under tag (build_tag_index s)) ≡ is_indexed (λ path n. n.tags) tag q (get_node q s)
unfolding build_tag_index get_node lookup
member-build_tag_index q tag s h =
    member-build_index tags_of q tag s.nodes [] (IsFresh-of_IsKeyed s.nodes h)

-- In a store whose nodes stand under their own paths, a path stands under a word in the keyword
-- index exactly if it finds a node that is not archived and the word is a token of the path, or of
-- the title or summary of the node.
pub member-build_keyword_index :
    (q word : Text) (s : MemoryStore)
    → IsKeyed s.nodes
    → member q (under word (build_keyword_index s))
      ≡ is_indexed (λ path n. tokenize (path ∷ n.title ∷ n.summary ∷ [])) word q (get_node q s)
unfolding build_keyword_index get_node lookup words_of
member-build_keyword_index q word s h =
    member-build_index words_of q word s.nodes [] (IsFresh-of_IsKeyed s.nodes h)
