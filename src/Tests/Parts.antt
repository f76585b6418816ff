-- ===== src/Tests/Parts.antt =====
-- The theorems on paths, links, indices and digits at concrete inputs.
use diff_mem.Prelude.{◌≡◌, ◌↔◌, refl, true, false, not, ◌&&◌, ◌||◌, none, List, [], ◌∷◌}
use diff_mem.Text.{Text, lit, text_eq, member}
use diff_mem.Validator.{validate_path}
use diff_mem.Validator.Path.{IsPath, validate_path_iff}
use diff_mem.Paths.{normalize_path}
use diff_mem.Paths.Normal.{is_clean, normalize_path_idempotent, normalize_path-is_clean}
use diff_mem.Links.{extract_content_links, add_links, remove_node}
use diff_mem.Links.Extract.{is_target, render, bodies, extract_content_links-render}
use diff_mem.Links.Index.{related, add_links-inbound, remove_node-inbound}
use diff_mem.Tests.Sample.{ascii, code, alpha, beta, with_alpha, with_both}

validate_path_iff_example : (validate_path ascii alpha ≡ none) ↔ IsPath ascii alpha
validate_path_iff_example = validate_path_iff ascii alpha

normalize_path_idempotent_example :
    normalize_path (normalize_path (lit " /A//b!")) ≡ normalize_path (lit " /A//b!")
normalize_path_idempotent_example = normalize_path_idempotent (lit " /A//b!")

normalize_path-is_clean_example : is_clean false (normalize_path (lit " /A//b!")) ≡ true
normalize_path-is_clean_example = normalize_path-is_clean (lit " /A//b!")

abbrev two_links : List (Text × Text)
two_links = (lit "a ", lit "/x") ∷ (lit " b ", lit " /y ") ∷ []

extract_content_links-render_example :
    member (lit "/y") (extract_content_links (render two_links (lit " c")))
    ≡ is_target (lit "/y") (bodies two_links)
unfolding code
extract_content_links-render_example =
    extract_content_links-render (lit "/y") two_links (lit " c")
      (refl, refl, refl, (refl, refl, refl, tt)) refl

add_links-inbound_example :
    related alpha beta (add_links beta (alpha ∷ []) with_alpha.links).inbound ≡ (
      related alpha beta with_alpha.links.inbound
      || (member alpha (alpha ∷ []) && text_eq beta beta))
add_links-inbound_example = add_links-inbound beta alpha beta (alpha ∷ []) with_alpha.links

remove_node-inbound_example : related alpha beta (remove_node beta with_both.links).inbound ≡ (
    related alpha beta with_both.links.inbound
    && not (text_eq beta alpha)
    && not (text_eq beta beta && related beta alpha with_both.links.outbound))
remove_node-inbound_example = remove_node-inbound beta alpha beta with_both.links
