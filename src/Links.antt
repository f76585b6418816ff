-- ===== src/Links.antt =====
-- internal/engine/links.go: the content links of a text, and the in-memory link index.
pub mod Index
pub mod Extract
use diff_mem.Prelude.{
  ℕ, zero, suc, ◌+◌, Bool, true, false, not, ◌&&◌, ◌||◌, Option, none, some, List, [], ◌∷◌, ◌++◌,
  ◌==◌, if◌then◌else◌, length, drop, select,
}
use diff_mem.Text.{
  Text, slash, text_eq, is_empty, has_prefix, trim_slash, trim_space, member, push_new, push_all,
  span, sort,
}
use diff_mem.Dict.{Dict, lookup, lookup_or, insert, remove}
use diff_mem.Model.{Event, Node}

-- [^\[\]\n]
abbrev pub is_link_rune : ℕ → Bool
is_link_rune r = not (r == b'[' || r == b']' || r == 10)

abbrev pub opening : Text
opening = b'[' ∷ b'[' ∷ []

abbrev pub closing : Text
closing = b']' ∷ b']' ∷ []

-- A match of `linkRe` at the front of the text: its group.
unfoldable pub match_link : Text → Option Text
match_link s =
    let (body, rest) = span is_link_rune (drop 2 s) in
    if has_prefix s opening && not (is_empty body) && has_prefix rest closing
    then some body
    else none

-- How many of the following code points the match covers.
abbrev pub covered : Option Text → ℕ
covered none = 0
covered (some body) = length body + 3

abbrev pub emit : Option Text → List Text → List Text
emit none ms = ms
emit (some body) ms = body ∷ ms

-- linkRe.FindAllStringSubmatch(content, -1), the groups; `skip` code points belong to the last match.
unfoldable pub find_links : ℕ → Text → List Text
unfolding match_link
find_links skip [] = []
find_links zero (r ∷ s) = let m = match_link (r ∷ s) in emit m (find_links (covered m) s)
find_links (suc skip) (r ∷ s) = find_links skip s

-- The loop of ExtractContentLinks over the groups.
unfoldable pub collect_targets : List Text → List Text → List Text
unfolding push_new
collect_targets links [] = links
collect_targets links (m ∷ ms) =
    let target = trim_space m in
    collect_targets (if is_empty target then links else push_new links target) ms

unfoldable pub extract_content_links : Text → List Text
unfolding find_links collect_targets
extract_content_links content = collect_targets [] (find_links 0 content)

unfoldable pub collect_events : List Text → List Event → List Text
unfolding extract_content_links push_all
collect_events links [] = links
collect_events links (ev ∷ evs) =
    collect_events (push_all links (extract_content_links ev.content)) evs

unfoldable pub node_content_links : Node → List Text
unfolding collect_events
node_content_links node = collect_events [] node.events

unfoldable pub is_self_or_ancestor : Text → Text → Bool
is_self_or_ancestor target self =
    text_eq target self || has_prefix self (trim_slash target ++ slash ∷ [])

-- `outbound` has the targets of each referrer, and `inbound` the referrers of each target.
pub record LinkIndex : Type 0 where
  pub outbound : Dict (List Text)
  pub inbound : Dict (List Text)

-- m[k], where a missing set is the empty set
abbrev pub set_at : Text → Dict (List Text) → List Text
set_at k m = lookup_or [] k m

-- newLinkIndex, reset
abbrev pub empty_index : LinkIndex
empty_index = record { outbound = []; inbound = [] }

-- m[k][t] = true, with the inner set made first if it is missing
unfoldable pub add_at : Text → Text → Dict (List Text) → Dict (List Text)
unfolding push_new
add_at k t m = insert k (push_new (set_at k m) t) m

unfoldable pub add_links : Text → List Text → LinkIndex → LinkIndex
unfolding add_at
add_links referrer [] idx = idx
add_links referrer (t ∷ ts) idx =
    add_links referrer ts (record {
      outbound = add_at referrer t idx.outbound;
      inbound = add_at t referrer idx.inbound;
    })

-- delete(m[k], t); if len(m[k]) == 0 { delete(m, k) }
unfoldable pub drop_at : Text → Text → Dict (List Text) → Dict (List Text)
drop_at k t m =
    let left = select (λ u. not (text_eq u t)) (set_at k m) in
    if is_empty left then remove k m else insert k left m

unfoldable pub drop_inbound : Text → List Text → Dict (List Text) → Dict (List Text)
unfolding drop_at
drop_inbound path [] m = m
drop_inbound path (t ∷ ts) m = drop_inbound path ts (drop_at t path m)

unfoldable pub remove_node : Text → LinkIndex → LinkIndex
unfolding drop_inbound
remove_node path idx = record {
  outbound = remove path idx.outbound;
  inbound = remove path (drop_inbound path (set_at path idx.outbound) idx.inbound);
}

unfoldable pub referrers_of : Text → LinkIndex → List Text
unfolding sort
referrers_of target idx = sort (set_at target idx.inbound)
