-- ===== src/Agent/Recall/Bounds.antt =====
-- How much Recall of internal/agent/agent.go gives back.
use diff_mem.Prelude.{
  ℕ, zero, suc, ◌≤◌, ◌≡◌, refl, sym, ap, Option, none, some, List, [], ◌∷◌, ◌++◌, arith, All,
  Bool-cases, inl, inr, length, take, drop, length-append, length-take, length-drop,
}
use diff_mem.Text.{Text, lit}
use diff_mem.Agent.{Response, RecallResult, Agent, Client, expect_success}
use diff_mem.Agent.Monad.{Result, ok, err, panic, Action, and_then}
use diff_mem.Agent.Recall.{
  result_of, with_events, kept_result, show_call, deep_call, search_call, extract_paths,
  show_candidates, load_events, recall,
}

-- An action that gives a value has given one at each step.
and_then-ok :
    {W A B : Type 0} (x : Result A × W) (f : A → Action W B) (b : B) (w' : W)
    → and_then x f ≡ (ok b, w')
    → (a : A) × (w : W) × (x ≡ (ok a, w)) × (f a w ≡ (ok b, w'))
and_then-ok (ok a, w) f b w' e = (a, w, refl, e)
and_then-ok (err m, w) f b w' e = cc
and_then-ok (panic, w) f b w' e = cc

pure-ok : {W A : Type 0} {x y : A} {w w' : W} → ◌≡◌ {A = Result A × W} (ok x, w) (ok y, w') → x ≡ y
pure-ok e = cc

-- No events were loaded.
abbrev pub IsBare : RecallResult → Type 0
IsBare r = r.events ≡ []

All-drop : {A : Type 0} (P : A → Type 0) (n : ℕ) (xs : List A) → All P xs → All P (drop n xs)
All-drop P zero xs h = h
All-drop P (suc n) [] h = h
All-drop P (suc n) (x ∷ xs) (p, h) = All-drop P n xs h

All-drop-append :
    {A : Type 0} (P : A → Type 0) (n : ℕ) (xs ys : List A)
    → length xs ≤ n
    → All P ys
    → All P (drop n (xs ++ ys))
All-drop-append P n [] ys short h = All-drop P n ys h
All-drop-append P zero (x ∷ xs) ys short h = absurd (omega (arith, short))
All-drop-append P (suc n) (x ∷ xs) ys short h = All-drop-append P n xs ys (omega (arith, short)) h

-- What Recall puts together at the end.
joined-bounds :
    (results loaded rs : List RecallResult)
    → length results ≤ 3
    → All IsBare results
    → length loaded ≡ length (take 2 results)
    → loaded ++ drop 2 results ≡ rs
    → (length rs ≤ 3) × All IsBare (drop 2 rs)
joined-bounds results loaded rs short bare long same = rw (sym same) (
  omega (
    arith,
    short,
    long,
    length-append loaded (drop 2 results),
    length-take 2 results,
    length-drop 2 results,
  ),
  All-drop-append IsBare 2 loaded (drop 2 results) (omega (arith, long, length-take 2 results))
      (All-drop IsBare 2 results bare),
)

module _ {W : Type 0} (c : Client W) (a : Agent) where
  result_of-IsBare : (path : Text) (resp : Response) → IsBare (result_of c path resp)
  unfolding result_of
  result_of-IsBare path resp = ground arith

  kept_result-bounds :
      (path : Text) (resp : Option Response) (rest : List RecallResult)
      → All IsBare rest
      → (length (kept_result c path resp rest) ≤ suc (length rest))
        × All IsBare (kept_result c path resp rest)
  unfolding result_of
  kept_result-bounds path none rest h = (omega arith, h)
  kept_result-bounds path (some resp) rest h = elim (Bool-cases resp.success) [
    | inl good ↦ rw (good, kept_result) (omega arith, (result_of-IsBare path resp, h))
    | inr bad ↦ rw (bad, kept_result) (omega arith, h)
  ]

  show_candidates-bounds :
      (paths : List Text) (w : W) (rs : List RecallResult) (w' : W)
      → show_candidates c a paths w ≡ (ok rs, w')
      → (length rs ≤ length paths) × All IsBare rs
  unfolding show_candidates
  show_candidates-bounds [] w rs w' e =
      let same : [] ≡ rs = pure-ok e in rw (sym same) (omega arith, tt)
  show_candidates-bounds (path ∷ paths) w rs w' e =
      let (resp, w1, _, e1) = and_then-ok (show_call c a path w) _ rs w' e in
      let (rest, w2, e2, e3) = and_then-ok (show_candidates c a paths w1) _ rs w' e1 in
      let same : kept_result c path resp rest ≡ rs = pure-ok e3 in
      let (short, bare) = show_candidates-bounds paths w1 rest w2 e2 in
      let (shorter, all) = kept_result-bounds path resp rest bare in
      rw (sym same) (omega (arith, short, shorter), all)

  length-load_events :
      (rs : List RecallResult) (w : W) (rs' : List RecallResult) (w' : W)
      → load_events c a rs w ≡ (ok rs', w')
      → length rs' ≡ length rs
  unfolding load_events
  length-load_events [] w rs' w' e = let same : [] ≡ rs' = pure-ok e in rw (sym same) refl
  length-load_events (r ∷ rs) w rs' w' e =
      let (resp, w1, _, e1) = and_then-ok (deep_call c a r w) _ rs' w' e in
      let (rest, w2, e2, e3) = and_then-ok (load_events c a rs w1) _ rs' w' e1 in
      let same : with_events c resp r ∷ rest ≡ rs' = pure-ok e3 in
      rw (sym same) (ap suc (length-load_events rs w1 rest w2 e2))

  -- Whatever the server answers, Recall gives back at most 3 results, and events for the first 2
  -- of them only.
  pub recall-bounds :
      (query : Text) (w : W) (rs : List RecallResult) (w' : W)
      → recall c a query w ≡ (ok rs, w')
      → (length rs ≤ 3) × All IsBare (drop 2 rs)
  unfolding recall
  recall-bounds query w rs w' e =
      let (resp, w1, _, e1) = and_then-ok (search_call c a query w) _ rs w' e in
      let (_, w2, _, e2) =
        and_then-ok (expect_success (lit "search failed: ") resp w1) _ rs w' e1 in
      let (candidates, w3, _, e3) = and_then-ok (extract_paths c resp w2) _ rs w' e2 in
      let (results, w4, shown, e4) =
        and_then-ok (show_candidates c a (take 3 candidates) w3) _ rs w' e3 in
      let (loaded, w5, deep, e5) = and_then-ok (load_events c a (take 2 results) w4) _ rs w' e4 in
      let (short, bare) = show_candidates-bounds (take 3 candidates) w3 results w4 shown in
      joined-bounds results loaded rs (omega (arith, short, length-take 3 candidates)) bare
        (length-load_events (take 2 results) w4 loaded w5 deep) (pure-ok e5)
