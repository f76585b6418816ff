-- ===== src/Tests/Engines.antt =====
-- What holds of the sample engines.
use diff_mem.Prelude.{◌≡◌, refl, some}
use diff_mem.Text.{lit}
use diff_mem.Dict.{lookup}
use diff_mem.Model.{Node}
use diff_mem.Store.Memory.{MemoryStore, get_node}
use diff_mem.Store.{IsStore}
use diff_mem.Store.Memory.Laws.{memory, memory-IsStore}
use diff_mem.Engine.{Engine}
use diff_mem.Engine.Effect.{IsWellFormed, Writes-IsWellFormed}
use diff_mem.Engine.Write.{created_node}
use diff_mem.Engine.Write.Writes.{create-Writes}
use diff_mem.Engine.Index.{IsSound, create-IsSound}
use diff_mem.Tests.Sample.{code, sample, empty, alpha, beta, note, with_alpha, with_both}

abbrev pub memory_laws : IsStore memory
memory_laws = memory-IsStore.0

abbrev pub Fine : Engine MemoryStore → Type 0
Fine e = IsWellFormed memory memory_laws sample e.store

pub empty-Fine : Fine empty
unfolding get_node lookup
empty-Fine = record { valid = memory-IsStore.1; keyed = λ p n h. cc; good = λ p n h. cc }

pub with_alpha-Fine : Fine with_alpha
with_alpha-Fine =
    Writes-IsWellFormed memory memory_laws sample
      (create-Writes memory memory_laws sample (note alpha (lit "hello")) empty) empty-Fine

pub with_both-Fine : Fine with_both
with_both-Fine =
    Writes-IsWellFormed memory memory_laws sample
      (create-Writes memory memory_laws sample (note beta (lit "see [[/long-term/alpha]]"))
        with_alpha)
      with_alpha-Fine

abbrev pub alpha_node : Node
alpha_node = created_node sample (note alpha (lit "hello")) 0

pub alpha_found : get_node alpha with_both.store ≡ some alpha_node
unfolding code
alpha_found = refl

pub empty-IsSound : IsSound memory empty.store empty.links
unfolding lookup
empty-IsSound = record { backed = λ t r h. h; linked = λ r t h. cc }

pub with_both-IsSound : IsSound memory with_both.store with_both.links
with_both-IsSound =
    create-IsSound memory memory_laws sample (note beta (lit "see [[/long-term/alpha]]")) with_alpha
      (create-IsSound memory memory_laws sample (note alpha (lit "hello")) empty empty-IsSound)
