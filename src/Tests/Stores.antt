-- ===== src/Tests/Stores.antt =====
-- The theorems on the stores at concrete inputs.
use diff_mem.Prelude.{pos, ◌≡◌, refl, true, false, some, none, [], ◌∷◌, ◌++◌, is_some}
use diff_mem.Text.{Text, lit}
use diff_mem.Dict.{Dict, lookup}
use diff_mem.Model.{AppendOptions, Node, SearchOptions}
use diff_mem.Store.{Store, IsStore}
use diff_mem.Store.File.{load_node, persist_node, node_key, file_store}
use diff_mem.Store.File.Laws.{file_store-IsStore}
use diff_mem.Store.Sqlite.{Row, sqlite_store}
use diff_mem.Store.Sqlite.Laws.{sqlite_store-IsStore}
use diff_mem.Store.Memory.{get_node}
use diff_mem.Store.Memory.Laws.{memory}
use diff_mem.Engine.{Engine}
use diff_mem.Engine.Read.{search_results}
use diff_mem.Engine.Read.Exact.{matches, search_results-exact}
use diff_mem.Links.{empty_index}
use diff_mem.Engine.Write.{create, append}
use diff_mem.Engine.Write.Posts.{contents}
use diff_mem.Engine.Write.Writes.{create-Writes}
use diff_mem.Engine.Effect.{IsWellFormed, Writes-IsWellFormed}
use diff_mem.Engine.Write.Interleaved.{read_append, write_append, append-loses}
use diff_mem.Tests.Sample.{note, code, sample, alpha, with_both, copying, copying-RoundTrips}
use diff_mem.Tests.Databases.{
  badger, badger-IsBadger, badger-NeverFails, table, table-IsTable, table-NeverFails,
}
use diff_mem.Tests.Engines.{memory_laws, with_both-Fine, alpha_node}

file_store-IsStore_example :
    (st : IsStore (file_store copying alpha_node badger)) × ((db : Dict Node)
      → ((p : Text) → badger.get (node_key ++ p) db ≡ none)
      → st.IsValid db)
file_store-IsStore_example =
    file_store-IsStore copying copying-RoundTrips alpha_node badger badger-IsBadger
      badger-NeverFails

sqlite_store-IsStore_example :
    (st : IsStore (sqlite_store copying table)) × ((db : Dict (Row Node))
      → ((p : Text) → table.row p db ≡ none)
      → st.IsValid db)
sqlite_store-IsStore_example =
    sqlite_store-IsStore copying copying-RoundTrips table table-IsTable table-NeverFails

abbrev tagged : SearchOptions
tagged = record { tags = lit "x" ∷ []; keywords = []; limit = pos 10; include_archived = false }

search_results-exact_example :
    is_some (lookup alpha (search_results memory tagged with_both.store))
    ≡ matches tagged alpha (get_node alpha with_both.store)
search_results-exact_example =
    search_results-exact memory memory_laws with_both.store with_both-Fine.valid alpha tagged

abbrev files : Store (Dict Node)
files = file_store copying alpha_node badger

abbrev files_laws : IsStore files
files_laws =
    (file_store-IsStore copying copying-RoundTrips alpha_node badger badger-IsBadger
      badger-NeverFails).0

abbrev no_files : Engine (Dict Node)
no_files = record { store = []; links = empty_index; calls = 0 }

no_files-Fine : IsWellFormed files files_laws sample no_files.store
unfolding load_node lookup
no_files-Fine = record {
  valid =
      (file_store-IsStore copying copying-RoundTrips alpha_node badger badger-IsBadger
          badger-NeverFails).1
        [] (λ p. refl);
  keyed = λ p n h. cc;
  good = λ p n h. cc;
}

abbrev one_file : Engine (Dict Node)
one_file = (create files sample (note alpha (lit "hello")) no_files).0

one_file-Fine : IsWellFormed files files_laws sample one_file.store
one_file-Fine =
    Writes-IsWellFormed files files_laws sample
      (create-Writes files files_laws sample (note alpha (lit "hello")) no_files) no_files-Fine

abbrev event_at_alpha : Text → AppendOptions
event_at_alpha event = record { path = alpha; event = event; reason = lit "worth keeping" }

append-loses_example :
    (append files sample (event_at_alpha (lit "one")) one_file
      ≡ write_append files sample (event_at_alpha (lit "one")) alpha_node one_file)
    × ((write_append files sample
          (event_at_alpha (lit "two"))
          alpha_node
          (write_append files sample (event_at_alpha (lit "one")) alpha_node one_file).0).1.success
        ≡ true)
    × (node : Node) × (files.get_node alpha
          (write_append files sample
            (event_at_alpha (lit "two"))
            alpha_node
            (write_append files sample (event_at_alpha (lit "one")) alpha_node one_file).0).0.store
        ≡ some node)
    × (contents node.events ≡ contents alpha_node.events ++ lit "two" ∷ [])
unfolding code read_append load_node persist_node
append-loses_example =
    append-loses files sample files_laws (event_at_alpha (lit "one")) (event_at_alpha (lit "two"))
      one_file alpha_node alpha_node one_file-Fine.keyed refl refl refl
