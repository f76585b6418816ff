-- ===== src/Store/Indexing.antt =====
-- The tag and keyword indexes that every store builds in a walk over its nodes, and the tokenizer of
-- internal/store/filestore.go.
pub mod Laws
use diff_mem.Prelude.{
  ℕ, Bool, true, false, not, ◌&&◌, ◌||◌, Option, none, some, List, [], ◌∷◌, ◌++◌, ◌==◌, any,
}
use diff_mem.Text.{Text, lit, runs_from, member}
use diff_mem.Dict.{Dict, lookup_or, insert}
use diff_mem.Model.{Node, is_archived}

-- for _, word := range words { idx[word] = append(idx[word], path) }
unfoldable pub index_words : Text → List Text → Dict (List Text) → Dict (List Text)
index_words path [] idx = idx
index_words path (w ∷ ws) idx = index_words path ws (insert w (lookup_or [] w idx ++ path ∷ []) idx)

-- The delimiters of `tokenize`.
abbrev pub delimiters : Text
delimiters = lit "/-_ \t\n\r,，、；：.。·（）()"

unfoldable pub tokenize : List Text → List Text
unfolding runs_from
tokenize [] = []
tokenize (f ∷ fs) = runs_from (λ r. not (any (λ d. d == r) delimiters)) [] f ++ tokenize fs

-- The loop of BuildTagIndex and BuildKeywordIndex: archived nodes are skipped.
unfoldable pub build_index :
    (Text → Node → List Text) → Dict Node → Dict (List Text) → Dict (List Text)
unfolding index_words
build_index words [] idx = idx
build_index words ((path, n) ∷ rest) idx =
    build_index words rest
      (elim (is_archived n.status) [ true ↦ idx | false ↦ index_words path (words path n) idx ])

-- The words of a node in the tag index and in the keyword index.
abbrev pub tags_of : Text → Node → List Text
tags_of path n = n.tags

unfoldable pub words_of : Text → Node → List Text
unfolding tokenize
words_of path n = tokenize (path ∷ n.title ∷ n.summary ∷ [])

unfoldable pub values : Dict Node → List Node
values [] = []
values ((path, n) ∷ rest) = n ∷ values rest

-- The paths under a word.
abbrev pub under : Text → Dict (List Text) → List Text
under w idx = lookup_or [] w idx

-- What an index must say of a node that is found.
abbrev pub is_indexed : (Text → Node → List Text) → Text → Text → Option Node → Bool
is_indexed words w q none = false
is_indexed words w q (some n) = not (is_archived n.status) && member w (words q n)
