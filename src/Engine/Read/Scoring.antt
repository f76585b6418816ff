-- ===== src/Engine/Read/Scoring.antt =====
-- The scoring and the order of Search, of internal/engine/read.go.
use diff_mem.Prelude.{
  ℕ, ℤ, pos, negsuc, zero, suc, ◌+◌, Bool, true, false, not, some, List, [], ◌∷◌, ltb, ◌==◌,
  if◌then◌else◌, all,
}
use diff_mem.Text.{Text, text_lt, is_empty, contains, fields, member}
use diff_mem.Dict.{Dict}
use diff_mem.Model.{Header, Node, SearchResultEntry, EntryType, SearchOptions}
use diff_mem.Env.{Unicode}
use diff_mem.Validator.{to_lower}

-- tagMatch
unfoldable pub tag_match : List Text → List Text → Bool
tag_match node_tags required = all (λ req. member req node_tags) required

-- The page size: 10 for a limit that is not positive, 50 at most.
unfoldable pub clamp_limit : ℤ → ℕ
clamp_limit (negsuc n) = 10
clamp_limit (pos zero) = 10
clamp_limit (pos (suc n)) = if ltb 50 (suc n) then 50 else suc n

pub record Scored : Type 0 where
  pub node : Node
  pub score : ℕ

-- The order of `list`: a higher score first, and a lower path at equal scores.
unfoldable pub ranks_before : Scored → Scored → Bool
ranks_before x y =
    if x.score == y.score then text_lt x.node.path y.node.path else ltb y.score x.score

unfoldable pub insert_ranked : Scored → List Scored → List Scored
insert_ranked x [] = x ∷ []
insert_ranked x (y ∷ ys) = if ranks_before y x then y ∷ insert_ranked x ys else x ∷ y ∷ ys

unfoldable pub rank : List Scored → List Scored
unfolding insert_ranked
rank [] = []
rank (x ∷ xs) = insert_ranked x (rank xs)

abbrev pub points : Bool → ℕ → ℕ
points true n = n
points false n = 0

-- The inner loop of the scoring.
unfoldable pub keyword_score : Unicode → Header → List Text → ℕ
keyword_score u h [] = 0
keyword_score u h (w ∷ ws) =
    let kw = to_lower u w in
    points (contains (to_lower u h.path) kw) 10
    + (points (contains (to_lower u h.title) kw) 7
        + (points (contains (to_lower u h.summary) kw) 5 + keyword_score u h ws))

unfoldable pub score_of : Unicode → SearchOptions → Node → ℕ
unfolding keyword_score
score_of u opts n =
    points (not (is_empty opts.tags)) 100 + keyword_score u n.header (fields opts.keywords)

unfoldable pub result_entry : Scored → SearchResultEntry
result_entry it = record {
  path = it.node.path;
  type = EntryType.node;
  summary = it.node.summary;
  status = some it.node.status;
  tags = it.node.tags;
  count = 0;
}

unfoldable pub scored_list : Unicode → SearchOptions → Dict Node → List Scored
scored_list u opts [] = []
scored_list u opts ((p, n) ∷ rest) =
    record { node = n; score = score_of u opts n } ∷ scored_list u opts rest
