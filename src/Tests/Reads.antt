-- ===== src/Tests/Reads.antt =====
-- The theorems on reads at concrete inputs.
use mathlib.Core.List.{Perm}
use diff_mem.Prelude.{
  if◌then◌else◌, inl, ltb, pos, All, map, take, ◌≡◌, ◌≤◌, ◌↔◌, refl, true, false, none, List, [],
  ◌∷◌, ◌++◌, length,
}
use diff_mem.Text.{Text, lit, slash, member, has_prefix}
use diff_mem.Model.{hits, SearchOptions, Event, DeepLoadResult, loaded}
use diff_mem.Store.Memory.Laws.{memory}
use diff_mem.Engine.{success, validate_content_links, all_targets}
use diff_mem.Engine.Read.{search_results, search, deep_load}
use diff_mem.Engine.Read.Scoring.{Scored, result_entry, clamp_limit}
use diff_mem.Engine.Read.Ranking.{IsRanked, scored_of}
use diff_mem.Engine.Read.Search.{Describes, search-page}
use diff_mem.Engine.Read.Window.{deep_load-IsEnd, deep_load-all}
use diff_mem.Engine.Gate.{IsLinkable, validate_content_links_iff}
use diff_mem.Tests.Sample.{ascii, sample, alpha, beta, with_alpha, with_both}
use diff_mem.Tests.Engines.{memory_laws, with_both-Fine, alpha_node, alpha_found}

deep_load-IsEnd_example :
    (r : DeepLoadResult) × (before : List Event) × (deep_load memory alpha (lit "recent") with_both
      ≡ success (loaded r))
    × (alpha_node.events ≡ before ++ r.events)
    × (length r.events ≡ (if ltb (length alpha_node.events) 5 then length alpha_node.events else 5))
    × (r.total ≡ length alpha_node.events)
    × ((r.has_more ≡ false) ↔ (before ≡ []))
deep_load-IsEnd_example =
    deep_load-IsEnd memory memory_laws sample alpha (lit "recent") 5 with_both alpha_node
      with_both-Fine alpha_found (inl (refl, refl))

deep_load-all_example :
    (r : DeepLoadResult) × (deep_load memory alpha (lit "all") with_both ≡ success (loaded r))
    × (r.events ≡ alpha_node.events)
    × (r.total ≡ length alpha_node.events)
    × (r.has_more ≡ false)
deep_load-all_example =
    deep_load-all memory memory_laws sample alpha with_both alpha_node with_both-Fine alpha_found

abbrev by_tag : SearchOptions
by_tag = record {
  tags = lit "x" ∷ [];
  keywords = lit "alpha";
  limit = pos 1;
  include_archived = false;
}

search-page_example :
    (ranked : List Scored) × (page : List Scored) × (search memory ascii by_tag with_both
      ≡ success
          (hits (map result_entry page) (length (search_results memory by_tag with_both.store))))
    × (page ≡ take (clamp_limit (pos 1)) ranked)
    × (1 ≤ clamp_limit (pos 1))
    × (clamp_limit (pos 1) ≤ 50)
    × IsRanked ranked
    × Perm ranked (map (scored_of ascii by_tag) (search_results memory by_tag with_both.store))
    × All (Describes memory memory_laws sample with_both.store) (map result_entry page)
search-page_example = search-page memory memory_laws sample ascii by_tag with_both with_both-Fine

validate_content_links_iff_example :
    (validate_content_links memory beta (lit "see [[/long-term/alpha]]" ∷ []) with_alpha.store
      ≡ none)
    ↔ ((t : Text)
        → member t (all_targets (lit "see [[/long-term/alpha]]" ∷ [])) ≡ true
        → (has_prefix t (slash ∷ []) ≡ true) × IsLinkable memory beta with_alpha.store t)
validate_content_links_iff_example =
    validate_content_links_iff memory beta with_alpha.store (lit "see [[/long-term/alpha]]" ∷ [])
