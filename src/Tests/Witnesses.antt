-- ===== src/Tests/Witnesses.antt =====
-- The theorems on tool calls and transactions at concrete inputs.
use diff_mem.Prelude.{
  ℕ, zero, suc, ◌≡◌, ◌≢◌, ◌≤◌, ◌⊎◌, refl, true, false, none, some, [], ◌∷◌, ◌++◌, if◌then◌else◌,
  length,
}
use diff_mem.Text.{Text, lit, text_eq, member, byte_length, contains, trim_space}
use diff_mem.Dict.{lookup}
use diff_mem.Model.{
  archived, UpdateOptions, active, is_archived, AppendOptions, committed, header_of,
  transaction_failed, Node, UpdateSummaryOptions,
}
use diff_mem.Store.Memory.{MemoryStore, get_node}
use diff_mem.Store.Memory.Laws.{memory}
use diff_mem.Engine.{Engine, new_engine, success, fail}
use diff_mem.Engine.Effect.{Survives, Writes-IsWellFormed}
use diff_mem.Engine.Write.{is_success, update, append, created_node, panicked, create}
use diff_mem.Engine.Lifecycle.{archived_node, delete, archive, restore}
use diff_mem.Engine.Dispatch.{dispatch}
use diff_mem.Engine.Exec.{exec}
use diff_mem.Engine.Tools.{DeletesAt, dispatch-IsWellFormed, dispatch-replies, dispatch-Survives}
use diff_mem.Engine.Index.{IsSound, dispatch-IsSound}
use diff_mem.Engine.Exec.Atomic.{Runs, run_operation, exec-commits, exec-rolls_back}
use diff_mem.Engine.Exec.Panic.{exec-keeps_partial_work}
use diff_mem.Engine.Lifecycle.Writes.{archive-Writes, is_under, delete-exact}
use diff_mem.Engine.Guard.{delete-unlinked}
use diff_mem.Engine.Write.Posts.{contents, create-stores, append-stores}
use diff_mem.Engine.Archived.{IsKept, IsBack, dispatch-keeps_archived}
use diff_mem.Engine.Update.Partial.{update-partial}
use diff_mem.Params.{Params, str}
use diff_mem.Engine.Frozen.{IsRestored, restore-archive}
use diff_mem.Engine.Drift.{update_summary-keeps_entities}
use diff_mem.Links.Index.{related}
use diff_mem.Entity.{extract_entities}
use diff_mem.Tests.Sample.{
  deletion_of, creation, failing, crashing, code, sample, empty, alpha, beta, note, with_alpha,
  with_both, at, copying-RoundTrips,
}
use diff_mem.Tests.Engines.{
  memory_laws, Fine, with_alpha-Fine, with_both-Fine, alpha_node, alpha_found, with_both-IsSound,
}

dispatch-IsWellFormed_example :
    Fine (dispatch memory sample (lit "lifecycle") (deletion_of beta) with_both).0
dispatch-IsWellFormed_example =
    dispatch-IsWellFormed memory memory_laws sample (lit "lifecycle") (deletion_of beta) with_both
      with_both-Fine

dispatch-replies_example :
    (dispatch memory sample (lit "lifecycle") (deletion_of alpha) with_both).1 ≢ panicked
dispatch-replies_example =
    dispatch-replies memory memory_laws sample (lit "lifecycle") (deletion_of alpha) with_both
      with_both-Fine

dispatch-Survives_example :
    Survives memory memory_laws sample alpha alpha_node
      (dispatch memory sample (lit "lifecycle") (deletion_of beta) with_both).0.store
    ⊎ (DeletesAt memory memory_laws sample (lit "lifecycle") (deletion_of beta) alpha
        × (get_node alpha
              (dispatch memory sample (lit "lifecycle") (deletion_of beta) with_both).0.store
            ≡ none))
dispatch-Survives_example =
    dispatch-Survives memory memory_laws sample (lit "lifecycle") (deletion_of beta) with_both alpha
      alpha_node with_both-Fine alpha_found

dispatch-IsSound_example :
    IsSound memory
      (dispatch memory sample (lit "lifecycle") (deletion_of beta) with_both).0.store
      (dispatch memory sample (lit "lifecycle") (deletion_of beta) with_both).0.links
dispatch-IsSound_example =
    dispatch-IsSound memory memory_laws sample (lit "lifecycle") (deletion_of beta) with_both
      with_both-Fine with_both-IsSound

exec-commits_example :
    Runs memory sample with_alpha (creation ∷ []) (exec memory sample (creation ∷ []) with_alpha).0
unfolding code
exec-commits_example =
    exec-commits memory memory_laws sample copying-RoundTrips (creation ∷ []) with_alpha
      (exec memory sample (creation ∷ []) with_alpha).0 (success (committed 1)) with_alpha-Fine refl
      refl

exec-rolls_back_example :
    ((p : Text)
      → get_node p (exec memory sample (creation ∷ failing ∷ []) with_alpha).0.store
        ≡ get_node p with_alpha.store)
    × (((exec memory sample (creation ∷ failing ∷ []) with_alpha).0.links ≡ with_alpha.links)
        ⊎ ((exec memory sample (creation ∷ failing ∷ []) with_alpha).0.links
            ≡ (new_engine memory with_alpha.store).links))
unfolding code
exec-rolls_back_example =
    exec-rolls_back memory memory_laws sample copying-RoundTrips (creation ∷ failing ∷ [])
      with_alpha (exec memory sample (creation ∷ failing ∷ []) with_alpha).0
      (fail transaction_failed
        (lit "operation [1] failed: path not found: /long-term/none; transaction rolled back") [])
      with_alpha-Fine refl refl

exec-keeps_partial_work_example :
    exec memory sample (creation ∷ crashing ∷ []) with_alpha
    ≡ ((run_operation memory sample creation with_alpha).0, panicked)
unfolding code
exec-keeps_partial_work_example =
    exec-keeps_partial_work memory sample creation crashing with_alpha
      (run_operation memory sample creation with_alpha).0 (lit "CREATE")
      (success (
        header_of
          (created_node sample
            (record {
              path = lit "/long-term/gamma";
              title = lit "t";
              summary = lit "s";
              tags = [];
              initial_events = [];
              reason = lit "r";
            })
            6).header))
      copying-RoundTrips refl refl refl refl (record { named = refl; lacks = refl })

delete-exact_example :
    get_node beta (delete memory sample (at beta) with_both).0.store
    ≡ (if is_under beta beta then none else get_node beta with_both.store)
unfolding code
delete-exact_example =
    delete-exact memory memory_laws sample (at beta) with_both beta with_both-Fine.valid refl

delete-unlinked_example : related beta alpha with_both.links.inbound ≡ false
unfolding code
delete-unlinked_example =
    delete-unlinked memory sample (at beta) with_both alpha beta refl refl refl refl

restore-archive_example :
    ((restore memory sample
        (record (at alpha) { reason = lit "back" })
        (archive memory sample (at alpha) with_both).0).1.success
      ≡ true)
    × (last : Node) × (get_node alpha
          (restore memory sample
            (record (at alpha) { reason = lit "back" })
            (archive memory sample (at alpha) with_both).0).0.store
        ≡ some last)
    × IsRestored memory memory_laws sample alpha_node last
unfolding code
restore-archive_example =
    restore-archive memory memory_laws sample (at alpha) (lit "back") with_both alpha_node
      with_both-Fine.keyed alpha_found refl refl refl

abbrev dated : Engine MemoryStore
dated =
    (create memory sample (record (note alpha (lit "hello")) { summary = lit "in 2026" }) empty).0

abbrev new_summary : UpdateSummaryOptions
new_summary = record {
  path = alpha;
  old_summary = lit "in 2026";
  new_summary = lit "year 2026";
  reason = lit "r";
}

update_summary-keeps_entities_example :
    (member (lit "2026") (extract_entities (lit "year 2026")) ≡ true)
    ⊎ (contains (lit "year 2026") (lit "2026") ≡ true)
    ⊎ (10 ≤ byte_length (trim_space (lit "r")))
unfolding code extract_entities
update_summary-keeps_entities_example =
    update_summary-keeps_entities memory sample new_summary dated (lit "2026") refl refl

create-stores_example :
    (n : Node) × ((q : Text)
      → get_node q with_both.store
        ≡ (if text_eq beta q then some n else get_node q with_alpha.store))
    × (get_node beta with_alpha.store ≡ none)
    × (n.title ≡ lit "t")
    × (n.summary ≡ lit "s")
    × (n.tags ≡ lit "x" ∷ [])
    × (n.status ≡ active)
    × (n.fields ≡ [])
    × (contents n.events ≡ (lit "t" ++ (lit ": " ++ lit "s")) ∷ lit "see [[/long-term/alpha]]" ∷ [])
    × ((create memory sample (note beta (lit "see [[/long-term/alpha]]")) with_alpha).1
        ≡ success (header_of n.header))
unfolding code
create-stores_example =
    create-stores memory memory_laws sample (note beta (lit "see [[/long-term/alpha]]")) with_alpha
      refl

abbrev addition : AppendOptions
addition = record { path = alpha; event = lit "more"; reason = lit "r" }

append-stores_example :
    (n n' : Node) × (get_node alpha with_both.store ≡ some n)
    × (is_archived n.status ≡ false)
    × ((q : Text)
        → get_node q (append memory sample addition with_both).0.store
          ≡ (if text_eq alpha q then some n' else get_node q with_both.store))
    × (contents n'.events ≡ contents n.events ++ lit "more" ∷ [])
    × (n'.event_count ≡ length n'.events)
    × (n'.summary ≡ n.summary)
    × (n'.fields ≡ n.fields)
    × (n'.status ≡ n.status)
unfolding code
append-stores_example =
    append-stores memory memory_laws sample addition with_both with_both-Fine.keyed refl

-- `alpha` is archived.
abbrev frozen : Engine MemoryStore
frozen = (archive memory sample (at alpha) with_both).0

frozen-Fine : Fine frozen
frozen-Fine =
    Writes-IsWellFormed memory memory_laws sample
      (archive-Writes memory memory_laws sample (at alpha) with_both with_both-Fine.keyed)
      with_both-Fine

abbrev frozen_alpha : Node
frozen_alpha = archived_node sample (at alpha) 12 alpha_node

frozen_found : get_node alpha frozen.store ≡ some frozen_alpha
unfolding code
frozen_found = refl

frozen_off : frozen_alpha.status ≡ archived
unfolding code
frozen_off = refl

abbrev restoration : Params
restoration =
    (lit "action", str (lit "restore"))
    ∷ (lit "path", str alpha)
    ∷ (lit "reason", str (lit "r"))
    ∷ []

dispatch-keeps_archived_example :
    IsKept memory memory_laws sample alpha frozen_alpha frozen_off
      (dispatch memory sample (lit "lifecycle") restoration frozen).0.store
    ⊎ IsBack memory memory_laws sample alpha frozen_alpha frozen_off
        (dispatch memory sample (lit "lifecycle") restoration frozen).0.store
    ⊎ (DeletesAt memory memory_laws sample (lit "lifecycle") restoration alpha
        × (get_node alpha (dispatch memory sample (lit "lifecycle") restoration frozen).0.store
            ≡ none))
dispatch-keeps_archived_example =
    dispatch-keeps_archived memory memory_laws sample alpha frozen_alpha frozen_off
      (lit "lifecycle") restoration frozen frozen-Fine frozen_found

-- A text of `n` times the letter a.
abbrev letters : ℕ → Text
letters zero = []
letters (suc n) = 97 ∷ letters n

-- A field, and a summary of 501 bytes.
abbrev half_valid : UpdateOptions
half_valid = record {
  path = alpha;
  fields = (lit "k", lit "v") ∷ [];
  field_reason = lit "r";
  old_summary = lit "s";
  new_summary = letters 501;
  summary_reason = [];
}

update-partial_example :
    (is_success (update memory sample half_valid with_both).1 ≡ false)
    × (n' : Node) × (get_node alpha (update memory sample half_valid with_both).0.store ≡ some n')
    × (lookup (lit "k") n'.fields ≡ some (lit "v"))
    × (n'.summary ≡ alpha_node.summary)
unfolding code
update-partial_example =
    update-partial memory memory_laws sample half_valid with_both alpha_node (lit "k") (lit "v")
      with_both-Fine alpha_found refl refl refl refl refl refl
