-- ===== src/Engine/Guard.antt =====
-- The guard of Delete in internal/engine/lifecycle.go and the referrers on record.
use diff_mem.Prelude.{
  ◌≡◌, ap, Bool, true, false, not, ◌&&◌, ◌||◌, List, [], ◌∷◌, inl, inr, arith, any, Bool-cases,
  select,
}
use diff_mem.Text.{Text, text_eq, member, push_all}
use diff_mem.Text.Laws.{test_of_text_eq, member-select}
use diff_mem.Text.Sorted.{member-sort}
use diff_mem.Model.{ArchiveOptions}
use diff_mem.Env.{Env}
use diff_mem.Links.{referrers_of, set_at}
use diff_mem.Links.Index.{related}
use diff_mem.Links.Extract.{member-push_all}
use diff_mem.Store.{Store}
use diff_mem.Engine.{Engine, is_active_at, find_referrers}
use diff_mem.Engine.Lifecycle.{victims_of, outside_referrers, delete}
use diff_mem.Engine.Lifecycle.Cases.{delete-cases}

module _ {Db : Type 0} (st : Store Db) where
  -- The referrers that are found for a target are exactly the recorded ones that are stored and
  -- active and not the excluded path.
  pub member-find_referrers :
      (r target exclude : Text) (e : Engine Db)
      → member r (find_referrers st target exclude e) ≡ (
          related target r e.links.inbound
          && (not (text_eq r exclude) && is_active_at st r e.store))
  unfolding find_referrers referrers_of
  member-find_referrers r target exclude e = ground (
    arith,
    member-select (λ x. not (text_eq x exclude) && is_active_at st x e.store) r
        (referrers_of target e.links),
    member-sort r (set_at target e.links.inbound),
  )

  member-outside_referrers :
      (r : Text) (victims refs vs : List Text) (e : Engine Db)
      → member r (outside_referrers st victims refs vs e) ≡ (
          member r refs
          || (not (member r victims) && any (λ v. member r (find_referrers st v v e)) vs))
  unfolding outside_referrers
  member-outside_referrers r victims refs [] e = ground arith
  member-outside_referrers r victims refs (v ∷ vs) e =
      let found = select (λ x. not (member x victims)) (find_referrers st v v e) in
      ground (
        arith,
        member-push_all r refs found,
        member-select (λ x. not (member x victims)) r (find_referrers st v v e),
        member-outside_referrers r victims (push_all refs found) vs e,
      )

  any_of_member :
      (p : Text → Bool) (v : Text) (vs : List Text)
      → member v vs ≡ true
      → p v ≡ true
      → any p vs ≡ true
  any_of_member p v [] h k = cc
  any_of_member p v (u ∷ vs) h k = ground (arith, test_of_text_eq p u v, any_of_member p v vs)

  module _ (env : Env) where
    -- If Delete succeeds, no active node outside the removed ones was recorded as a referrer of a
    -- removed node.
    pub delete-unlinked :
        (opts : ArchiveOptions) (e : Engine Db) (r v : Text)
        → (delete st env opts e).1.success ≡ true
        → member v (victims_of st opts.path e.store) ≡ true
        → member r (victims_of st opts.path e.store) ≡ false
        → is_active_at st r e.store ≡ true
        → related v r e.links.inbound ≡ false
    delete-unlinked opts e r v ok victim stays active = elim (delete-cases st env opts e) [
      | inl x ↦ cc (x.failed, ok)
      | inr c ↦
          let vs = victims_of st opts.path e.store in
          elim (Bool-cases (related v r e.links.inbound)) [
            | inr unrelated ↦ unrelated
            | inl is_related ↦
                let found : member r (find_referrers st v v e) ≡ true =
                  ground (
                    arith,
                    member-find_referrers r v v e,
                    test_of_text_eq (λ x. member x vs) r v,
                  ) in
                absurd (
                  ground (
                    arith,
                    ap (member r) c.unlinked,
                    member-outside_referrers r vs [] vs e,
                    any_of_member (λ x. member r (find_referrers st x x e)) v vs victim found,
                  ))
          ]
    ]
