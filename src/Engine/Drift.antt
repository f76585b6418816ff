-- ===== src/Engine/Drift.antt =====
-- The drift check of summaries in UpdateSummary, internal/engine/write.go and entity.go.
use diff_mem.Prelude.{
  ◌≤◌, ◌≡◌, ◌≢◌, refl, true, false, not, ◌&&◌, List, [], ◌∷◌, ◌⊎◌, inl, inr, arith, Bool-cases,
}
use diff_mem.Text.{Text, byte_length, contains, trim_space, member}
use diff_mem.Text.Laws.{member-select}
use diff_mem.Model.{UpdateSummaryOptions}
use diff_mem.Env.{Env, Unicode}
use diff_mem.Validator.{validate_summary_drift}
use diff_mem.Entity.{extract_entities, disappeared_entities}
use diff_mem.Store.{Store}
use diff_mem.Engine.{Engine}
use diff_mem.Engine.Write.{needs_reason, update_summary}
use diff_mem.Engine.Write.Cases.{update_summary-cases}

-- An entity of the old summary has disappeared exactly if it is no entity of the new one and does not
-- occur in it.
pub member-disappeared_entities :
    (t old_summary new_summary : Text)
    → member t (disappeared_entities old_summary new_summary) ≡ (
        member t (extract_entities old_summary)
        && (not (member t (extract_entities new_summary)) && not (contains new_summary t)))
unfolding disappeared_entities
member-disappeared_entities t old_summary new_summary =
    member-select _ t (extract_entities old_summary)

validate_summary_drift-short :
    (u : Unicode) (ds : List Text) (reason : Text)
    → ds ≢ []
    → (validate_summary_drift u ds reason).0 ≡ false
    → 10 ≤ byte_length (trim_space reason)
unfolding validate_summary_drift
validate_summary_drift-short u [] reason some_left h = absurd (some_left refl)
validate_summary_drift-short u (d ∷ ds) reason some_left h = ground arith

kept_or_disappeared : (t : Text) (ds : List Text) → member t ds ≡ true → ds ≢ []
kept_or_disappeared t [] h = cc
kept_or_disappeared t (d ∷ ds) h = cc

module _ {Db : Type 0} (st : Store Db) (env : Env) where
  -- After a successful UpdateSummary, each entity of the old summary is an entity of the new one,
  -- or occurs in it, or the call came with a reason of at least 10 bytes.
  pub update_summary-keeps_entities :
      (opts : UpdateSummaryOptions) (e : Engine Db) (t : Text)
      → (update_summary st env opts e).1.success ≡ true
      → member t (extract_entities opts.old_summary) ≡ true
      → (member t (extract_entities opts.new_summary) ≡ true)
        ⊎ (contains opts.new_summary t ≡ true)
        ⊎ (10 ≤ byte_length (trim_space opts.reason))
  update_summary-keeps_entities opts e t ok old = elim (update_summary-cases st env opts e) [
    | inl r ↦ cc (r.failed, ok)
    | inr c ↦
        let ds = disappeared_entities opts.old_summary opts.new_summary in
        let gone = member-disappeared_entities t opts.old_summary opts.new_summary in
        elim (Bool-cases (member t ds)) [
          | inl yes_gone ↦ inr (
              inr (
                validate_summary_drift-short env.unicode ds opts.reason
                  (kept_or_disappeared t ds yes_gone) (unfold needs_reason in c.explained)))
          | inr kept ↦ ground arith
        ]
  ]
