-- ===== src/Store/Indexing/Laws.antt =====
-- Indexes and walks over an association list of nodes.
use diff_mem.Prelude.{
  ◌≡◌, refl, ◌&&◌, ◌||◌, none, some, List, [], ◌∷◌, ◌++◌, arith, All, map, is_some,
}
use diff_mem.Text.{Text, text_eq, member}
use diff_mem.Text.Laws.{text_eq_iff, text_eq_refl, test_of_text_eq, member-append}
use diff_mem.Dict.{Dict, lookup, insert}
use diff_mem.Dict.Laws.{lookup-insert}
use diff_mem.Model.{Node}
use diff_mem.Store.Indexing.{index_words, build_index, values, under, is_indexed}

-- Every node is stored under its own path, and no key occurs twice.
abbrev pub IsKeyed : Dict Node → Type 0
IsKeyed [] = Unit
IsKeyed ((k, n) ∷ m) = (n.path ≡ k) × (lookup k m ≡ none) × IsKeyed m

-- No key occurs twice.
abbrev pub IsFresh {ℓ} : {V : Type ℓ} → Dict V → Type ℓ
IsFresh [] = Unit
IsFresh ((k, v) ∷ m) = (lookup k m ≡ none) × IsFresh m

-- If what is found under a key has the key as its path, the nodes stand under their own paths.
pub IsKeyed-of_IsFresh :
    (m : Dict Node)
    → IsFresh m
    → ((p : Text) (n : Node) → lookup p m ≡ some n → n.path ≡ p)
    → IsKeyed m
unfolding lookup
IsKeyed-of_IsFresh [] f h = tt
IsKeyed-of_IsFresh ((k, n) ∷ m) (fresh, f) h = (
  h k n (ground (arith, text_eq_refl k)),
  fresh,
  IsKeyed-of_IsFresh m f (λ p x e. h p x (ground (arith, text_eq_iff k p))),
)

pub IsFresh-of_IsKeyed : (m : Dict Node) → IsKeyed m → IsFresh m
IsFresh-of_IsKeyed [] h = tt
IsFresh-of_IsKeyed ((k, n) ∷ m) (e, fresh, h) = (fresh, IsFresh-of_IsKeyed m h)

pub member-values :
    (p : Text) (m : Dict Node)
    → IsKeyed m
    → member p (map (λ n. n.path) (values m)) ≡ is_some (lookup p m)
unfolding lookup values
member-values p [] h = refl
member-values p ((k, x) ∷ m) (e, fresh, h) = ground (arith, member-values p m h)

-- What holds of every node that is found under its own path holds of all that are listed.
pub values-All :
    (P : Node → Type 0) (m : Dict Node)
    → IsKeyed m
    → ((n : Node) → lookup n.path m ≡ some n → P n)
    → All P (values m)
unfolding lookup values
values-All P [] h k = tt
values-All P ((p, x) ∷ m) (e, fresh, h) k = (
  k x (ground (arith, text_eq_iff p x.path)),
  values-All P m h
      (λ n f. k n (ground (arith, f, fresh, test_of_text_eq (λ t. is_some (lookup t m)) p n.path))),
)

pub member-index_words :
    (q w path : Text) (ws : List Text) (idx : Dict (List Text))
    → member q (under w (index_words path ws idx))
      ≡ (member q (under w idx) || (text_eq path q && member w ws))
unfolding index_words
member-index_words q w path [] idx = ground arith
member-index_words q w path (v ∷ ws) idx = ground (
  arith,
  text_eq_iff v w,
  lookup-insert v w (under v idx ++ path ∷ []) idx,
  member-append q (under v idx) (path ∷ []),
  member-index_words q w path ws (insert v (under v idx ++ path ∷ []) idx),
)

pub member-build_index :
    (words : Text → Node → List Text) (q w : Text) (m : Dict Node) (idx : Dict (List Text))
    → IsFresh m
    → member q (under w (build_index words m idx))
      ≡ (member q (under w idx) || is_indexed words w q (lookup q m))
unfolding build_index lookup
member-build_index words q w [] idx h = ground arith
member-build_index words q w ((k, n) ∷ m) idx (fresh, h) = ground (
  arith,
  text_eq_iff k q,
  member-index_words q w k (words k n) idx,
  member-build_index words q w m idx h,
  member-build_index words q w m (index_words k (words k n) idx) h,
)
