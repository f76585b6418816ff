-- ===== src/Store/Memory.antt =====
-- MemoryStore of internal/store/store.go.
pub mod Laws
pub mod Index
use diff_mem.Prelude.{Bool, Option, List, [], ◌∷◌, is_some}
use diff_mem.Text.{Text}
use diff_mem.Dict.{Dict, lookup, insert, remove}
use diff_mem.Model.{Node}
use diff_mem.Store.Indexing.{build_index, tokenize, tags_of, words_of, values}

pub record MemoryStore : Type 0 where
  pub nodes : Dict Node

abbrev pub new_memory_store : MemoryStore
new_memory_store = record { nodes = [] }

unfoldable pub get_node : Text → MemoryStore → Option Node
get_node path s = lookup path s.nodes

unfoldable pub put_node : Node → MemoryStore → MemoryStore
put_node n s = record { nodes = insert n.path n s.nodes }

unfoldable pub delete_node : Text → MemoryStore → MemoryStore
delete_node path s = record { nodes = remove path s.nodes }

unfoldable pub has_node : Text → MemoryStore → Bool
has_node path s = is_some (lookup path s.nodes)

unfoldable pub build_tag_index : MemoryStore → Dict (List Text)
unfolding build_index
build_tag_index s = build_index tags_of s.nodes []

unfoldable pub build_keyword_index : MemoryStore → Dict (List Text)
unfolding build_index
build_keyword_index s = build_index words_of s.nodes []

unfoldable pub all_nodes : MemoryStore → List Node
unfolding values
all_nodes s = values s.nodes
