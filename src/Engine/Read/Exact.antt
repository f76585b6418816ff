-- ===== src/Engine/Read/Exact.antt =====
-- Search of internal/engine/read.go over any store of the interface: the results by the nodes alone.
use diff_mem.Prelude.{
  ◌≡◌, refl, ◌∙◌, Bool, false, not, ◌&&◌, ◌||◌, Option, none, some, List, [], ◌∷◌, arith, inl, inr,
  any, Option-cases, is_some,
}
use diff_mem.Text.{Text, is_empty, fields, member}
use diff_mem.Dict.{lookup, lookup_or}
use diff_mem.Model.{Status, active, archived, is_active, is_archived, Node, SearchOptions}
use diff_mem.Store.{Store, IsStore}
use diff_mem.Store.Indexing.{words_of}
use diff_mem.Engine.Read.{active_node, first_tag, search_results}
use diff_mem.Engine.Read.Scoring.{tag_match}
use diff_mem.Engine.Read.Hits.{lookup-search_results}

-- The node has all the tags, if there are any, or one of the keywords is a word of it.
abbrev pub is_match : SearchOptions → Text → Node → Bool
is_match opts q n =
    (not (is_empty opts.tags) && tag_match n.tags opts.tags)
    || (not (is_empty opts.keywords) && any (λ kw. member kw (words_of q n)) (fields opts.keywords))

abbrev pub matches : SearchOptions → Text → Option Node → Bool
matches opts q none = false
matches opts q (some n) = is_active n.status && is_match opts q n

is_active_or_archived : (s : Status) → is_active s ≡ not (is_archived s)
is_active_or_archived active = refl
is_active_or_archived archived = refl

module _ {Db : Type 0} (st : Store Db) (laws : IsStore st) (db : Db) (valid : laws.IsValid db)
    (q : Text) where
  abbrev in_index : Text → Bool
  in_index kw = member q (lookup_or [] kw (st.build_keyword_index db))

  any-indexed :
      (kws : List Text) (n : Node)
      → st.get_node q db ≡ some n
      → any in_index kws ≡ (not (is_archived n.status) && any (λ kw. member kw (words_of q n)) kws)
  any-indexed [] n found = ground arith
  any-indexed (kw ∷ kws) n found =
      ground (arith, any-indexed kws n found, laws.member-build_keyword_index q kw db valid, found)

  first_tag-indexed :
      (ts : List Text) (n : Node)
      → st.get_node q db ≡ some n
      → (member q (first_tag st ts db) && tag_match n.tags ts)
        ≡ (not (is_archived n.status) && (not (is_empty ts) && tag_match n.tags ts))
  unfolding tag_match
  first_tag-indexed [] n found = ground arith
  first_tag-indexed (t ∷ ts) n found =
      ground (arith, laws.member-build_tag_index q t db valid, found)

  -- On a valid state of any store that keeps the laws of the interface, a path is among the
  -- results of Search exactly if it finds an active node that matches: it has all tags that are
  -- asked for and there is one, or one of the keywords is exactly one of its indexed words.
  pub search_results-exact :
      (opts : SearchOptions)
      → is_some (lookup q (search_results st opts db)) ≡ matches opts q (st.get_node q db)
  unfolding active_node
  search_results-exact opts =
      lookup-search_results st db opts q ∙ elim (Option-cases (st.get_node q db)) [
        | inl missing ↦ ground (arith, missing)
        | inr (n, found) ↦ ground (
          arith,
          found,
          is_active_or_archived n.status,
          first_tag-indexed opts.tags n found,
          any-indexed (fields opts.keywords) n found,
        )
      ]
