-- ===== src/Tests/Runs.antt =====
-- Runs of the operations at concrete inputs.
use diff_mem.Prelude.{◌≡◌, refl, true, false, [], ◌∷◌}
use diff_mem.Text.{lit}
use diff_mem.Paths.{normalize_path}
use diff_mem.Links.{extract_content_links}
use diff_mem.Entity.{extract_entities}
use diff_mem.Store.Memory.Laws.{memory}
use diff_mem.Engine.{find_referrers}
use diff_mem.Model.{Node}
use diff_mem.Store.Memory.{put_node}
use diff_mem.Engine.Write.{create, created_node, update_field, panicked}
use diff_mem.Engine.Lifecycle.{delete}
use diff_mem.Tests.Sample.{code, sample, empty, alpha, beta, note, with_alpha, with_both, at}

created : (create memory sample (note alpha (lit "hello")) empty).1.success ≡ true
unfolding code
created = refl

linked : find_referrers memory alpha alpha with_both ≡ beta ∷ []
unfolding code
linked = refl

dangling :
    (create memory sample (note beta (lit "see [[/long-term/gamma]]")) with_alpha).1.success ≡ false
unfolding code
dangling = refl

guarded : (delete memory sample (at alpha) with_both).1.success ≡ false
unfolding code
guarded = refl

normalized : normalize_path (lit "  /Long-Term//My Notes!! ") ≡ lit "/long-term/my-notes"
unfolding code
normalized = refl

links_found :
    extract_content_links (lit "a [[/x]] b [[ /y ]] [[/x]] [[]] [[[/z]]")
    ≡ lit "/x" ∷ lit "/y" ∷ lit "/z" ∷ []
unfolding code
links_found = refl

entities_found :
    extract_entities (lit "张三 2026-01-02 abc12")
    ≡ lit "2026" ∷ lit "01" ∷ lit "02" ∷ lit "12" ∷ lit "张三" ∷ lit "2026-01-02" ∷ []
unfolding code extract_entities
entities_found = refl

-- A node whose stored JSON has no fields.
abbrev fieldless : Node
fieldless =
    let n = created_node sample (note alpha (lit "hello")) 0 in
    record n { header = record n.header { nil_fields = true } }

field_of_fieldless :
    (update_field memory sample
      (record { path = alpha; field = lit "k"; value = lit "v"; reason = lit "r" })
      (record empty { store = put_node fieldless empty.store })).1
    ≡ panicked
unfolding code
field_of_fieldless = refl
