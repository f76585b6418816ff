-- ===== src/Links/Index.antt =====
-- The link index as a relation: which referrers stand under which targets.
use diff_mem.Prelude.{◌≡◌, refl, Bool, true, false, not, ◌&&◌, ◌||◌, List, [], ◌∷◌, arith, select}
use diff_mem.Text.{Text, text_eq, is_empty, member, push_new}
use diff_mem.Text.Laws.{text_eq_iff, member-append, member-select}
use diff_mem.Dict.{Dict}
use diff_mem.Dict.Laws.{lookup-insert, lookup-remove}
use diff_mem.Links.{LinkIndex, set_at, add_at, add_links, drop_at, drop_inbound, remove_node}

pub member-push_new :
    (t u : Text) (us : List Text) → member t (push_new us u) ≡ (member t us || text_eq u t)
unfolding push_new
member-push_new t u us = ground (arith, text_eq_iff u t, member-append t us (u ∷ []))

-- m[j] has u
abbrev pub related : Text → Text → Dict (List Text) → Bool
related j u m = member u (set_at j m)

related-add_at :
    (k t j u : Text) (m : Dict (List Text))
    → related j u (add_at k t m) ≡ (related j u m || (text_eq k j && text_eq t u))
unfolding add_at
related-add_at k t j u m = ground (
  arith,
  text_eq_iff k j,
  lookup-insert k j (push_new (set_at k m) t) m,
  member-push_new u t (set_at k m),
)

member-empty : (u : Text) (us : List Text) → is_empty us ≡ true → member u us ≡ false
member-empty u [] h = refl
member-empty u (v ∷ us) h = cc

related-drop_at :
    (k t j u : Text) (m : Dict (List Text))
    → related j u (drop_at k t m) ≡ (related j u m && not (text_eq k j && text_eq t u))
unfolding drop_at
related-drop_at k t j u m =
    let left = select (λ v. not (text_eq v t)) (set_at k m) in
    ground (
      arith,
      text_eq_iff k j,
      text_eq_iff t u,
      text_eq_iff u t,
      lookup-insert k j left m,
      lookup-remove k j m,
      member-select (λ v. not (text_eq v t)) u (set_at k m),
      member-empty u left,
    )

related-drop_inbound :
    (path j u : Text) (ts : List Text) (m : Dict (List Text))
    → related j u (drop_inbound path ts m) ≡ (related j u m && not (text_eq path u && member j ts))
unfolding drop_inbound
related-drop_inbound path j u [] m = ground arith
related-drop_inbound path j u (t ∷ ts) m =
    ground
      (arith, related-drop_at t path j u m, related-drop_inbound path j u ts (drop_at t path m))

module _ (r : Text) where
  -- After add_links the targets of a node are those before, and the new ones if it is the
  -- referrer.
  pub add_links-outbound :
      (j u : Text) (ts : List Text) (idx : LinkIndex)
      → related j u (add_links r ts idx).outbound
        ≡ (related j u idx.outbound || (text_eq r j && member u ts))
  unfolding add_links
  add_links-outbound j u [] idx = ground arith
  add_links-outbound j u (t ∷ ts) idx = ground (
    arith,
    related-add_at r t j u idx.outbound,
    add_links-outbound j u ts
        (record { outbound = add_at r t idx.outbound; inbound = add_at t r idx.inbound }),
  )

  -- After add_links the referrers of a target are those before, and the new referrer if the target
  -- is among its new ones.
  pub add_links-inbound :
      (j u : Text) (ts : List Text) (idx : LinkIndex)
      → related j u (add_links r ts idx).inbound
        ≡ (related j u idx.inbound || (member j ts && text_eq r u))
  unfolding add_links
  add_links-inbound j u [] idx = ground arith
  add_links-inbound j u (t ∷ ts) idx = ground (
    arith,
    related-add_at t r j u idx.inbound,
    add_links-inbound j u ts
        (record { outbound = add_at r t idx.outbound; inbound = add_at t r idx.inbound }),
  )

module _ (p j u : Text) (idx : LinkIndex) where
  -- remove_node clears what the node links to.
  pub remove_node-outbound :
      related j u (remove_node p idx).outbound ≡ (related j u idx.outbound && not (text_eq p j))
  unfolding remove_node
  remove_node-outbound = ground (arith, lookup-remove p j idx.outbound)

  -- After remove_node the referrers of a target are those before, but the removed node has none,
  -- and is no referrer of the targets that were recorded for it.
  pub remove_node-inbound : related j u (remove_node p idx).inbound ≡ (
      related j u idx.inbound && not (text_eq p j) && not (text_eq p u && related p j idx.outbound))
  unfolding remove_node
  remove_node-inbound = ground (
    arith,
    lookup-remove p j (drop_inbound p (set_at p idx.outbound) idx.inbound),
    related-drop_inbound p j u (set_at p idx.outbound) idx.inbound,
  )
