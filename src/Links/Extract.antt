-- ===== src/Links/Extract.antt =====
-- ExtractContentLinks of internal/engine/links.go against the texts that hold a link.
use diff_mem.Prelude.{
  ℕ, zero, suc, ◌+◌, ◌≡◌, refl, sym, ap, ◌∙◌, Bool, true, false, not, ◌&&◌, ◌||◌, none, some, List,
  [], ◌∷◌, ◌++◌, arith, ◌==◌, all, length, drop, append-nil,
}
use diff_mem.Text.{
  Text, is_empty, member, push_new, push_all, span, has_prefix, trim_space, text_eq,
}
use diff_mem.Links.Index.{member-push_new}
use diff_mem.Links.{
  is_link_rune, opening, closing, match_link, find_links, collect_targets, extract_content_links,
  node_content_links, collect_events,
}
use diff_mem.Model.{Event, Node}

-- The targets of a list of groups: trimmed, and not empty.
pub is_target : Text → List Text → Bool
is_target t [] = false
is_target t (m ∷ ms) = (not (is_empty (trim_space m)) && text_eq (trim_space m) t) || is_target t ms

member-collect_targets :
    (t : Text) (links ms : List Text)
    → member t (collect_targets links ms) ≡ (member t links || is_target t ms)
unfolding collect_targets is_target
member-collect_targets t links [] = ground arith
member-collect_targets t links (m ∷ ms) = ground (
  arith,
  member-push_new t (trim_space m) links,
  member-collect_targets t links ms,
  member-collect_targets t (push_new links (trim_space m)) ms,
)

pub member-push_all :
    (t : Text) (us ts : List Text) → member t (push_all us ts) ≡ (member t us || member t ts)
unfolding push_all
member-push_all t us [] = ground arith
member-push_all t us (u ∷ ts) =
    ground (arith, member-push_new t u us, member-push_all t (push_new us u) ts)

-- Some event of the list links to the target.
abbrev pub links_in : Text → List Event → Bool
links_in t [] = false
links_in t (ev ∷ evs) = member t (extract_content_links ev.content) || links_in t evs

member-collect_events :
    (t : Text) (us : List Text) (evs : List Event)
    → member t (collect_events us evs) ≡ (member t us || links_in t evs)
unfolding collect_events
member-collect_events t us [] = ground arith
member-collect_events t us (ev ∷ evs) = ground (
  arith,
  member-push_all t us (extract_content_links ev.content),
  member-collect_events t (push_all us (extract_content_links ev.content)) evs,
)

-- The links of a node are those of its events.
pub member-node_content_links :
    (t : Text) (n : Node) → member t (node_content_links n) ≡ links_in t n.events
unfolding node_content_links
member-node_content_links t n = member-collect_events t [] n.events

pub links_in-append :
    (t : Text) (xs ys : List Event) → links_in t (xs ++ ys) ≡ (links_in t xs || links_in t ys)
links_in-append t [] ys = refl
links_in-append t (x ∷ xs) ys = ground (arith, links_in-append t xs ys)

-- A link [[body]] at the front is a match.
span-append :
    (p : ℕ → Bool) (body : Text) (r : ℕ) (rest : Text)
    → all p body ≡ true
    → p r ≡ false
    → span p (body ++ r ∷ rest) ≡ (body, r ∷ rest)
unfolding span
span-append p [] r rest h k = ground arith
span-append p (b ∷ body) r rest h k = ground (arith, span-append p body r rest)

match_link-link :
    (body rest : Text)
    → all is_link_rune body ≡ true
    → is_empty body ≡ false
    → match_link (opening ++ (body ++ (closing ++ rest))) ≡ some body
unfolding match_link has_prefix
match_link-link body rest h k = ground (arith, span-append is_link_rune body b']' (b']' ∷ rest))

find_links-drop : (k : ℕ) (s : Text) → find_links k s ≡ find_links 0 (drop k s)
unfolding find_links
find_links-drop zero s = refl
find_links-drop (suc k) [] = refl
find_links-drop (suc k) (r ∷ s) = find_links-drop k s

drop-append : (s t : Text) → drop (length s) (s ++ t) ≡ t
drop-append [] t = refl
drop-append (r ∷ s) t = drop-append s t

drop_link : (body rest : Text) → drop (length body + 3) (b'[' ∷ (body ++ (closing ++ rest))) ≡ rest
drop_link body rest =
    let e : length body + 3 ≡ suc (length body + 2) = omega arith in rw e (drop_closing body)
  where
    drop_closing : (b : Text) → drop (length b + 2) (b ++ (closing ++ rest)) ≡ rest
    drop_closing [] = refl
    drop_closing (r ∷ b) =
        let e : suc (length b) + 2 ≡ suc (length b + 2) = omega arith in rw e (drop_closing b)

-- One link is read, and the search goes on behind it.
find_links-link :
    (body rest : Text)
    → all is_link_rune body ≡ true
    → is_empty body ≡ false
    → find_links 0 (opening ++ (body ++ (closing ++ rest))) ≡ body ∷ find_links 0 rest
unfolding find_links
find_links-link body rest h k = rw (match_link-link body rest h k) (
    ap (λ ms. body ∷ ms)
      (find_links-drop (length body + 3) _ ∙ ap (find_links 0) (drop_link body rest)))

abbrev pub no_bracket : ℕ → Bool
no_bracket r = not (r == b'[')

match_link-no_bracket : (r : ℕ) (s : Text) → no_bracket r ≡ true → match_link (r ∷ s) ≡ none
unfolding match_link has_prefix
match_link-no_bracket r s h = ground arith

find_links-skip :
    (pre s : Text) → all no_bracket pre ≡ true → find_links 0 (pre ++ s) ≡ find_links 0 s
unfolding find_links
find_links-skip [] s h = refl
find_links-skip (r ∷ pre) s h =
    rw (match_link-no_bracket r (pre ++ s) (ground arith)) (find_links-skip pre s (ground arith))

-- A text as plain pieces, each followed by a link, and a plain tail.
abbrev pub render : List (Text × Text) → Text → Text
render [] tail = tail
render ((pre, body) ∷ ps) tail = pre ++ (opening ++ (body ++ (closing ++ render ps tail)))

abbrev pub bodies : List (Text × Text) → List Text
bodies [] = []
bodies ((pre, body) ∷ ps) = body ∷ bodies ps

abbrev pub AreLinks : List (Text × Text) → Type 0
AreLinks [] = Unit
AreLinks ((pre, body) ∷ ps) =
    (all no_bracket pre ≡ true)
    × (all is_link_rune body ≡ true)
    × (is_empty body ≡ false)
    × AreLinks ps

find_links-render :
    (ps : List (Text × Text)) (tail : Text)
    → AreLinks ps
    → all no_bracket tail ≡ true
    → find_links 0 (render ps tail) ≡ bodies ps
unfolding find_links
find_links-render [] tail h k =
    ap (find_links 0) (sym (append-nil tail)) ∙ find_links-skip tail [] k
find_links-render ((pre, body) ∷ ps) tail (p, q, ne, h) k =
    find_links-skip pre _ p
    ∙ find_links-link body _ q ne
    ∙ ap (λ ms. body ∷ ms) (find_links-render ps tail h k)

-- In a text that is made of pieces without an opening bracket, each followed by a [[link]], and
-- such a tail, the extracted targets are exactly the bodies of the links, trimmed, without the
-- blank ones.
pub extract_content_links-render :
    (t : Text) (ps : List (Text × Text)) (tail : Text)
    → AreLinks ps
    → all no_bracket tail ≡ true
    → member t (extract_content_links (render ps tail)) ≡ is_target t (bodies ps)
unfolding extract_content_links
extract_content_links-render t ps tail h k =
    member-collect_targets t [] (find_links 0 (render ps tail))
    ∙ ap (is_target t) (find_links-render ps tail h k)
