-- ===== src/Engine/Read/Hits.antt =====
-- Search of internal/engine/read.go: the map of results.
use diff_mem.Prelude.{
  ◌≡◌, Bool, false, not, ◌&&◌, ◌||◌, none, some, List, [], ◌∷◌, arith, inl, inr, any, Option-cases,
  is_some,
}
use diff_mem.Text.{Text, is_empty, fields, member}
use diff_mem.Text.Laws.{text_eq_iff, test_of_text_eq}
use diff_mem.Dict.{Dict, lookup, lookup_or, insert}
use diff_mem.Dict.Laws.{lookup-insert}
use diff_mem.Model.{Node, SearchOptions}
use diff_mem.Store.{Store}
use diff_mem.Engine.Read.{
  active_node, tag_results, keyword_results, all_keyword_results, first_tag, search_results,
}
use diff_mem.Engine.Read.Scoring.{tag_match}

module _ {Db : Type 0} (st : Store Db) (db : Db) where
  -- The node is stored and active, and has all the tags.
  abbrev pub has_tags : List Text → Text → Bool
  has_tags required q = elim (active_node st q db) [
    | none ↦ false
    | some n ↦ tag_match n.tags required
  ]

  -- The path is a result: by its tags, or by one of the keywords.
  abbrev pub is_hit : SearchOptions → Text → Bool
  is_hit opts q =
      (member q (first_tag st opts.tags db) && has_tags opts.tags q)
      || (not (is_empty opts.keywords)
          && (any (λ kw. member q (lookup_or [] kw (st.build_keyword_index db)))
                (fields opts.keywords)
              && is_some (active_node st q db)))

  lookup-tag_results :
      (required ps : List Text) (m : Dict Node) (q : Text)
      → is_some (lookup q (tag_results st required ps db m))
        ≡ (is_some (lookup q m) || (member q ps && has_tags required q))
  unfolding tag_results
  lookup-tag_results required [] m q = ground arith
  lookup-tag_results required (p ∷ ps) m q = elim (Option-cases (active_node st p db)) [
    | inl missing ↦ ground (
      arith,
      missing,
      lookup-tag_results required ps m q,
      test_of_text_eq (has_tags required) p q,
    )
    | inr (n, found) ↦ ground (
      arith,
      found,
      lookup-tag_results required ps m q,
      lookup-tag_results required ps (insert p n m) q,
      lookup-insert p q n m,
      text_eq_iff p q,
      test_of_text_eq (has_tags required) p q,
    )
  ]

  lookup-keyword_results :
      (ps : List Text) (m : Dict Node) (q : Text)
      → is_some (lookup q (keyword_results st ps db m))
        ≡ (is_some (lookup q m) || (member q ps && is_some (active_node st q db)))
  unfolding keyword_results
  lookup-keyword_results [] m q = ground arith
  lookup-keyword_results (p ∷ ps) m q = elim (Option-cases (active_node st p db)) [
    | inl missing ↦ ground (
      arith,
      missing,
      lookup-keyword_results ps m q,
      test_of_text_eq (λ x. is_some (active_node st x db)) p q,
    )
    | inr (n, found) ↦ ground (
      arith,
      found,
      lookup-keyword_results ps m q,
      lookup-keyword_results ps (insert p n m) q,
      lookup-insert p q n m,
      text_eq_iff p q,
      test_of_text_eq (λ x. is_some (lookup x m)) p q,
      test_of_text_eq (λ x. is_some (active_node st x db)) p q,
    )
  ]

  lookup-all_keyword_results :
      (kws : List Text) (idx : Dict (List Text)) (m : Dict Node) (q : Text)
      → is_some (lookup q (all_keyword_results st kws idx db m)) ≡ (
          is_some (lookup q m)
          || (any (λ kw. member q (lookup_or [] kw idx)) kws && is_some (active_node st q db)))
  unfolding all_keyword_results
  lookup-all_keyword_results [] idx m q = ground arith
  lookup-all_keyword_results (kw ∷ kws) idx m q = ground (
    arith,
    lookup-keyword_results (lookup_or [] kw idx) m q,
    lookup-all_keyword_results kws idx (keyword_results st (lookup_or [] kw idx) db m) q,
  )

  -- A path is a result of Search exactly if it is stored and active, and stands under the first
  -- tag of the tag index and has all the tags, or stands under one of the keywords of the keyword
  -- index.
  pub lookup-search_results :
      (opts : SearchOptions) (q : Text)
      → is_some (lookup q (search_results st opts db)) ≡ is_hit opts q
  unfolding search_results lookup
  lookup-search_results opts q =
      let tagged = tag_results st opts.tags (first_tag st opts.tags db) db [] in
      ground (
        arith,
        lookup-tag_results opts.tags (first_tag st opts.tags db) [] q,
        lookup-all_keyword_results (fields opts.keywords) (st.build_keyword_index db) tagged q,
      )
