-- ===== src/Engine/Read/Ranking.antt =====
-- The ranking of Search, of internal/engine/read.go: its order, and that it keeps all results.
use mathlib.Core.List.{Perm}
use mathlib.Core.List.Perm
use diff_mem.Prelude.{
  suc, ◌<◌, ◌≡◌, refl, ap, ◌∙◌, subst, true, false, List, [], ◌∷◌, arith, ◌⊎◌, inl, inr, All,
  length, map, Bool-cases, ◌==◌, if◌then◌else◌,
}
use diff_mem.Text.{Text, text_lt}
use diff_mem.Text.Sorted.{text_lt_asym}
use diff_mem.Dict.{Dict}
use diff_mem.Model.{Node, SearchOptions}
use diff_mem.Env.{Unicode}
use diff_mem.Engine.Read.Scoring.{Scored, score_of, ranks_before, insert_ranked, rank, scored_list}

module _ (P : Scored → Type 0) where
  insert_ranked-All : (x : Scored) (ys : List Scored) → P x → All P ys → All P (insert_ranked x ys)
  unfolding insert_ranked
  insert_ranked-All x [] p h = (p, tt)
  insert_ranked-All x (y ∷ ys) p (q, h) = elim (Bool-cases (ranks_before y x)) [
    | inl before ↦ rw before (q, insert_ranked-All x ys p h)
    | inr after ↦ rw after (p, (q, h))
  ]

  pub rank-All : (xs : List Scored) → All P xs → All P (rank xs)
  unfolding rank
  rank-All [] h = tt
  rank-All (x ∷ xs) (p, h) = insert_ranked-All x (rank xs) p (rank-All xs h)

length-insert_ranked :
    (x : Scored) (ys : List Scored) → length (insert_ranked x ys) ≡ suc (length ys)
unfolding insert_ranked
length-insert_ranked x [] = refl
length-insert_ranked x (y ∷ ys) = ground (arith, length-insert_ranked x ys)

length-rank : (xs : List Scored) → length (rank xs) ≡ length xs
unfolding rank
length-rank [] = refl
length-rank (x ∷ xs) = ground (arith, length-insert_ranked x (rank xs), length-rank xs)

insert_ranked-perm : (x : Scored) (ys : List Scored) → Perm (insert_ranked x ys) (x ∷ ys)
unfolding insert_ranked
insert_ranked-perm x [] = Perm.refl (x ∷ [])
insert_ranked-perm x (y ∷ ys) = elim (Bool-cases (ranks_before y x)) [
  | inl before ↦ rw before (Perm.trans (Perm.cons y (insert_ranked-perm x ys)) (Perm.swap x y ys))
  | inr after ↦ rw after (Perm.refl (x ∷ y ∷ ys))
]

pub rank-perm : (xs : List Scored) → Perm (rank xs) xs
unfolding rank
rank-perm [] = Perm.refl []
rank-perm (x ∷ xs) = Perm.trans (insert_ranked-perm x (rank xs)) (Perm.cons x (rank-perm xs))

-- A higher score, or an equal one with a path that is not after the other's.
abbrev pub NotAfter : Scored → Scored → Type 0
NotAfter x y =
    (y.score < x.score) ⊎ ((y.score ≡ x.score) × (text_lt y.node.path x.node.path ≡ false))

-- Each one stands before its neighbour by score, and at equal scores by path.
abbrev pub IsRanked : List Scored → Type 0
IsRanked [] = Unit
IsRanked (x ∷ []) = Unit
IsRanked (x ∷ y ∷ ys) = NotAfter x y × IsRanked (y ∷ ys)

not_ranks_before-NotAfter : (x y : Scored) → ranks_before y x ≡ false → NotAfter x y
unfolding ranks_before
not_ranks_before-NotAfter x y h = elim (Bool-cases (y.score == x.score)) [
  | inl same ↦ inr (ground arith, ground arith)
  | inr other ↦ inl (ground arith)
]

ranks_before-NotAfter : (x y : Scored) → ranks_before x y ≡ true → NotAfter x y
unfolding ranks_before
ranks_before-NotAfter x y h =
    not_ranks_before-NotAfter x y (ground (arith, text_lt_asym x.node.path y.node.path))

insert_ranked-IsRanked :
    (x : Scored) (ys : List Scored) → IsRanked ys → IsRanked (insert_ranked x ys)
unfolding insert_ranked
insert_ranked-IsRanked x [] h = tt
insert_ranked-IsRanked x (y ∷ []) h = elim (Bool-cases (ranks_before y x)) [
  | inl before ↦ rw before (ranks_before-NotAfter y x before, tt)
  | inr after ↦ rw after (not_ranks_before-NotAfter x y after, tt)
]
insert_ranked-IsRanked x (y ∷ z ∷ zs) (o, h) =
    let rest = insert_ranked-IsRanked x (z ∷ zs) h in
    elim (Bool-cases (ranks_before y x)) [
      | inr after ↦ rw after (not_ranks_before-NotAfter x y after, (o, h))
      | inl before ↦
          let front = ranks_before-NotAfter y x before in
          elim (Bool-cases (ranks_before z x)) [
            | inl between ↦
                rw (before, between)
                  (
                    o,
                    subst (λ b. IsRanked (if b then z ∷ insert_ranked x zs else x ∷ z ∷ zs)) between
                        rest,
                  )
            | inr last ↦
                rw (before, last)
                  (
                    front,
                    subst (λ b. IsRanked (if b then z ∷ insert_ranked x zs else x ∷ z ∷ zs)) last
                        rest,
                  )
          ]
    ]

pub rank-IsRanked : (xs : List Scored) → IsRanked (rank xs)
unfolding rank
rank-IsRanked [] = tt
rank-IsRanked (x ∷ xs) = insert_ranked-IsRanked x (rank xs) (rank-IsRanked xs)

-- A result with its score.
abbrev pub scored_of : Unicode → SearchOptions → Text × Node → Scored
scored_of u opts (p, n) = record { node = n; score = score_of u opts n }

pub scored_list_lem :
    (u : Unicode) (opts : SearchOptions) (m : Dict Node)
    → scored_list u opts m ≡ map (scored_of u opts) m
unfolding scored_list
scored_list_lem u opts [] = refl
scored_list_lem u opts ((k, n) ∷ m) =
    ap (λ xs. scored_of u opts (k, n) ∷ xs) (scored_list_lem u opts m)

length-scored_list :
    (u : Unicode) (opts : SearchOptions) (m : Dict Node) → length (scored_list u opts m) ≡ length m
unfolding scored_list
length-scored_list u opts [] = refl
length-scored_list u opts ((k, n) ∷ m) = ap suc (length-scored_list u opts m)

pub length-rank-scored_list :
    (u : Unicode) (opts : SearchOptions) (m : Dict Node)
    → length (rank (scored_list u opts m)) ≡ length m
length-rank-scored_list u opts m = length-rank (scored_list u opts m) ∙ length-scored_list u opts m
