-- ===== src/Store/Memory/Laws.antt =====
-- The in-memory store as an instance of the interface.
use diff_mem.Prelude.{refl, [], ◌∷◌, arith}
use diff_mem.Text.{Text}
use diff_mem.Text.Laws.{text_eq_iff}
use diff_mem.Dict.{Dict, lookup, insert, remove}
use diff_mem.Dict.Laws.{lookup-insert, lookup-remove}
use diff_mem.Model.{Node}
use diff_mem.Store.Indexing.{tags_of, words_of}
use diff_mem.Store.Indexing.Laws.{
  IsKeyed, IsFresh-of_IsKeyed, member-values, values-All, member-build_index,
}
use diff_mem.Store.Interface.{Store, IsStore}
use diff_mem.Store.Memory.{
  MemoryStore, new_memory_store, get_node, put_node, delete_node, has_node, build_tag_index,
  build_keyword_index, all_nodes,
}

insert-IsKeyed : (n : Node) (m : Dict Node) → IsKeyed m → IsKeyed (insert n.path n m)
unfolding insert lookup
insert-IsKeyed n [] h = (refl, refl, tt)
insert-IsKeyed n ((k, x) ∷ m) (e, fresh, h) = ground (
  arith,
  text_eq_iff k n.path,
  text_eq_iff n.path k,
  lookup-insert n.path k n m,
  insert-IsKeyed n m h,
)

remove-IsKeyed : (p : Text) (m : Dict Node) → IsKeyed m → IsKeyed (remove p m)
unfolding remove
remove-IsKeyed p [] h = tt
remove-IsKeyed p ((k, x) ∷ m) (e, fresh, h) =
    ground (arith, lookup-remove p k m, remove-IsKeyed p m h)

-- The operations of `MemoryStore` as the interface.
abbrev pub memory : Store MemoryStore
memory = record {
  get_node = get_node;
  put_node = put_node;
  delete_node = delete_node;
  has_node = has_node;
  build_tag_index = build_tag_index;
  build_keyword_index = build_keyword_index;
  all_nodes = all_nodes;
}

-- The in-memory store satisfies the laws of the interface that the engine relies on, and the new
-- store is a valid state of it.
pub memory-IsStore : (laws : IsStore memory) × laws.IsValid new_memory_store
unfolding get_node put_node delete_node has_node all_nodes build_tag_index build_keyword_index
    lookup
memory-IsStore = (
  record {
    IsValid = λ s. IsKeyed s.nodes;
    put-IsValid = λ n s h. insert-IsKeyed n s.nodes h;
    delete-IsValid = λ p s h. remove-IsKeyed p s.nodes h;
    get-put = λ n s p. lookup-insert n.path p n s.nodes;
    get-delete = λ q s p. lookup-remove q p s.nodes;
    get-has = λ p s h. ground arith;
    has-get = λ p s h. refl;
    all-get = λ s h. values-All _ s.nodes h (λ n f. f);
    member-all = λ p s h. member-values p s.nodes h;
    member-build_tag_index =
        λ q w s h. member-build_index tags_of q w s.nodes [] (IsFresh-of_IsKeyed s.nodes h);
    member-build_keyword_index =
        λ q w s h. member-build_index words_of q w s.nodes [] (IsFresh-of_IsKeyed s.nodes h);
  },
  tt,
)
