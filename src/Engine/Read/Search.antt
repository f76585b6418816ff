-- ===== src/Engine/Read/Search.antt =====
-- Search of internal/engine/read.go: the ranking and the page.
use mathlib.Core.List.{Perm}
use diff_mem.Prelude.{
  subst, [], ℕ, ℤ, pos, negsuc, zero, suc, ◌≤◌, ◌≡◌, refl, ap, ◌∙◌, true, some, List, ◌∷◌, arith,
  inl, inr, All, length, take, map, Bool-cases, Option-cases, is_some,
}
use diff_mem.Text.{Text, text_eq, is_empty, fields}
use diff_mem.Dict.{Dict, lookup, lookup_or, insert}
use diff_mem.Model.{
  Status, active, archived, is_active, Node, hits, SearchOptions, SearchResultEntry,
}
use diff_mem.Env.{Env, Unicode}
use diff_mem.Store.{Store, IsStore}
use diff_mem.Engine.{Engine, success}
use diff_mem.Engine.Effect.{IsWellFormed}
use diff_mem.Engine.Read.{
  active_node, tag_results, keyword_results, all_keyword_results, first_tag, search_results, search,
}
use diff_mem.Engine.Read.Ranking.{
  rank-All, rank-perm, IsRanked, rank-IsRanked, scored_of, scored_list_lem, length-rank-scored_list,
}
use diff_mem.Engine.Read.Scoring.{Scored, rank, result_entry, scored_list, clamp_limit, tag_match}

clamp_limit-bounds : (n : ℤ) → (1 ≤ clamp_limit n) × (clamp_limit n ≤ 50)
unfolding clamp_limit
clamp_limit-bounds (negsuc n) = (ground arith, ground arith)
clamp_limit-bounds (pos zero) = (ground arith, ground arith)
clamp_limit-bounds (pos (suc n)) = (ground arith, ground arith)

take-All {ℓ} : {A : Type ℓ} (P : A → Type 0) (k : ℕ) (xs : List A) → All P xs → All P (take k xs)
take-All P zero xs h = tt
take-All P (suc k) [] h = tt
take-All P (suc k) (x ∷ xs) (p, h) = (p, take-All P k xs h)

module _ (P : Node → Type 0) where
  -- Every node of a map of results has a property.
  abbrev AllResults : Dict Node → Type 0
  AllResults m = All (λ (kv : Text × Node). P kv.1) m

  insert-AllResults :
      (k : Text) (n : Node) (m : Dict Node) → P n → AllResults m → AllResults (insert k n m)
  unfolding insert
  insert-AllResults k n [] p h = (p, tt)
  insert-AllResults k n ((j, x) ∷ m) p (q, h) = elim (Bool-cases (text_eq j k)) [
    | inl same ↦ rw same (p, h)
    | inr other ↦ rw other (q, insert-AllResults k n m p h)
  ]

  scored_list-All :
      (u : Unicode) (opts : SearchOptions) (m : Dict Node)
      → AllResults m
      → All (λ s. P s.node) (scored_list u opts m)
  unfolding scored_list
  scored_list-All u opts [] h = tt
  scored_list-All u opts ((k, n) ∷ m) (p, h) = (p, scored_list-All u opts m h)

  module _ {Db : Type 0} (st : Store Db) (db : Db)
      (found_P : (p : Text) (n : Node)
        → st.get_node p db ≡ some n
        → is_active n.status ≡ true
        → P n) where
    active_node_lem :
        (p : Text) (n : Node)
        → active_node st p db ≡ some n
        → (st.get_node p db ≡ some n) × (is_active n.status ≡ true)
    unfolding active_node
    active_node_lem p n h = ground arith

    active_node-P : (p : Text) (n : Node) → active_node st p db ≡ some n → P n
    active_node-P p n h = let (found, on) = active_node_lem p n h in found_P p n found on

    tag_results-All :
        (required ps : List Text) (m : Dict Node)
        → AllResults m
        → AllResults (tag_results st required ps db m)
    unfolding tag_results
    tag_results-All required [] m h = h
    tag_results-All required (p ∷ ps) m h = elim (Option-cases (active_node st p db)) [
      | inl missing ↦ rw missing (tag_results-All required ps m h)
      | inr (n, found) ↦ rw found (
          tag_results-All required ps _ (elim (Bool-cases (tag_match n.tags required)) [
            | inl hit ↦ rw hit (insert-AllResults p n m (active_node-P p n found) h)
            | inr miss ↦ rw miss h
          ]))
    ]

    keyword_results-All :
        (ps : List Text) (m : Dict Node) → AllResults m → AllResults (keyword_results st ps db m)
    unfolding keyword_results
    keyword_results-All [] m h = h
    keyword_results-All (p ∷ ps) m h = elim (Bool-cases (is_some (lookup p m))) [
      | inl there ↦ rw there (keyword_results-All ps m h)
      | inr new ↦ elim (Option-cases (active_node st p db)) [
        | inl missing ↦ rw (new, missing) (keyword_results-All ps m h)
        | inr (n, found) ↦
            rw (new, found)
              (keyword_results-All ps _ (insert-AllResults p n m (active_node-P p n found) h))
      ]
    ]

    all_keyword_results-All :
        (kws : List Text) (idx : Dict (List Text)) (m : Dict Node)
        → AllResults m
        → AllResults (all_keyword_results st kws idx db m)
    unfolding all_keyword_results
    all_keyword_results-All [] idx m h = h
    all_keyword_results-All (kw ∷ kws) idx m h =
        all_keyword_results-All kws idx _ (keyword_results-All (lookup_or [] kw idx) m h)

    search_results-All : (opts : SearchOptions) → AllResults (search_results st opts db)
    unfolding search_results
    search_results-All opts =
        let tagged = tag_results-All opts.tags (first_tag st opts.tags db) [] tt in
        elim (Bool-cases (is_empty opts.keywords)) [
          | inl blank ↦ rw blank tagged
          | inr some_words ↦
              rw some_words (
                all_keyword_results-All (fields opts.keywords) (st.build_keyword_index db) _ tagged)
        ]

module _ {Db : Type 0} (st : Store Db) (laws : IsStore st) (env : Env) where
  -- An entry of a page describes an active node of the store.
  abbrev pub Describes : Db → SearchResultEntry → Type 0
  Describes db r =
      (n : Node) × (st.get_node r.path db ≡ some n)
      × (n.status ≡ active)
      × (r.summary ≡ n.summary)
      × (r.tags ≡ n.tags)

  active_of : (s : Status) → is_active s ≡ true → s ≡ active
  active_of active h = refl
  active_of archived h = cc

  page-Describes :
      (db : Db) (xs : List Scored)
      → All (λ s. (st.get_node s.node.path db ≡ some s.node) × (s.node.status ≡ active)) xs
      → All (Describes db) (map result_entry xs)
  unfolding result_entry
  page-Describes db [] h = tt
  page-Describes db (x ∷ xs) ((found, on), h) =
      ((x.node, found, on, refl, refl), page-Describes db xs h)

  -- On a well-formed store, Search replies with the front of a ranking, of the length of the
  -- clamped limit, which is 1 to 50, and with the number of all results. The ranking is a
  -- permutation of the results, each with its own score, in which of two neighbours the first has
  -- the higher score, or at equal scores a path that is not after the other's. Each entry
  -- describes an active node of the store.
  pub search-page :
      (u : Unicode) (opts : SearchOptions) (e : Engine Db)
      → IsWellFormed st laws env e.store
      → (ranked : List Scored) × (page : List Scored) × (search st u opts e
          ≡ success (hits (map result_entry page) (length (search_results st opts e.store))))
        × (page ≡ take (clamp_limit opts.limit) ranked)
        × (1 ≤ clamp_limit opts.limit)
        × (clamp_limit opts.limit ≤ 50)
        × IsRanked ranked
        × Perm ranked (map (scored_of u opts) (search_results st opts e.store))
        × All (Describes e.store) (map result_entry page)
  unfolding search
  search-page u opts e w =
      let good =
        search_results-All (λ n. (st.get_node n.path e.store ≡ some n) × (n.status ≡ active)) st
          e.store
          (λ p n found on.
            (ap (λ q. st.get_node q e.store) (w.keyed p n found) ∙ found, active_of n.status on))
          opts in
      let results = search_results st opts e.store in
      let ranked = rank (scored_list u opts results) in
      let counted : length ranked ≡ length results = length-rank-scored_list u opts results in
      let page = take (clamp_limit opts.limit) ranked in
      (
        ranked,
        page,
        ap (λ k. success (hits (map result_entry page) k)) counted,
        refl,
        (clamp_limit-bounds opts.limit).0,
        (clamp_limit-bounds opts.limit).1,
        rank-IsRanked (scored_list u opts results),
        subst (Perm ranked) (scored_list_lem u opts results)
            (rank-perm (scored_list u opts results)),
        page-Describes e.store page (
            take-All _ (clamp_limit opts.limit) ranked
              (rank-All _ _ (scored_list-All _ u opts _ good))),
      )
