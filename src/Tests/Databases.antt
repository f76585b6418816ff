-- ===== src/Tests/Databases.antt =====
-- A database and a table in memory.
use diff_mem.Prelude.{
  ◌≡◌, refl, sym, ap, ◌∙◌, true, none, some, [], ◌∷◌, arith, All, Bool-cases, inl, inr,
  if◌then◌else◌,
}
use diff_mem.Text.{Text, text_eq, has_prefix}
use diff_mem.Text.Laws.{text_eq_iff}
use diff_mem.Dict.{Dict, lookup, insert, remove}
use diff_mem.Dict.Laws.{lookup-insert, lookup-remove}
use diff_mem.Model.{Node}
use diff_mem.Store.Indexing.Laws.{IsFresh}
use diff_mem.Store.File.{Badger, IsBadger}
use diff_mem.Store.File
use diff_mem.Store.Sqlite.{Table, IsTable, Row}
use diff_mem.Store.Sqlite

module _ {V : Type 0} where
  -- The first entry of each key.
  abbrev pub firsts : Dict V → Dict V
  firsts [] = []
  firsts ((k, v) ∷ m) = (k, v) ∷ remove k (firsts m)

  lookup-firsts : (k : Text) (m : Dict V) → lookup k (firsts m) ≡ lookup k m
  unfolding lookup
  lookup-firsts k [] = refl
  lookup-firsts k ((j, v) ∷ m) = ground (arith, lookup-remove j k (firsts m), lookup-firsts k m)

  IsFresh-remove : (k : Text) (m : Dict V) → IsFresh m → IsFresh (remove k m)
  unfolding remove lookup
  IsFresh-remove k [] h = tt
  IsFresh-remove k ((j, v) ∷ m) (f, h) = elim (Bool-cases (text_eq j k)) [
    | inl same ↦ rw (same, remove) (IsFresh-remove k m h)
    | inr other ↦ rw (other, remove) (ground (arith, lookup-remove k j m, f), IsFresh-remove k m h)
  ]

  firsts-IsFresh : (m : Dict V) → IsFresh (firsts m)
  firsts-IsFresh [] = tt
  firsts-IsFresh ((k, v) ∷ m) = (
    ground (arith, lookup-remove k k (firsts m), text_eq_iff k k),
    IsFresh-remove k (firsts m) (firsts-IsFresh m),
  )

  -- The entries whose key has the prefix.
  abbrev pub under_prefix : Text → Dict V → Dict V
  under_prefix p [] = []
  under_prefix p ((k, v) ∷ m) =
      let rest = under_prefix p m in if has_prefix k p then (k, v) ∷ rest else rest

  lookup-under_prefix :
      (p k : Text) (m : Dict V)
      → lookup k (under_prefix p m) ≡ (if has_prefix k p then lookup k m else none)
  unfolding lookup
  lookup-under_prefix p k [] = ground arith
  lookup-under_prefix p k ((j, v) ∷ m) = elim (Bool-cases (text_eq j k)) [
    | inl same ↦
        ground
          (arith, lookup-under_prefix p k m, ap (λ t. has_prefix t p) ((text_eq_iff j k).0 same))
    | inr other ↦ ground (arith, lookup-under_prefix p k m)
  ]

  under_prefix-IsFresh : (p : Text) (m : Dict V) → IsFresh m → IsFresh (under_prefix p m)
  under_prefix-IsFresh p [] h = tt
  under_prefix-IsFresh p ((k, v) ∷ m) (f, h) = elim (Bool-cases (has_prefix k p)) [
    | inl ok ↦
        rw (ok, under_prefix)
          (ground (arith, lookup-under_prefix p k m, f), under_prefix-IsFresh p m h)
    | inr bad ↦ rw (bad, under_prefix) (under_prefix-IsFresh p m h)
  ]

  under_prefix-All :
      (p : Text) (m : Dict V) → All (λ (kv : Text × V). has_prefix kv.0 p ≡ true) (under_prefix p m)
  under_prefix-All p [] = tt
  under_prefix-All p ((k, v) ∷ m) = elim (Bool-cases (has_prefix k p)) [
    | inl ok ↦ rw (ok, under_prefix) (ok, under_prefix-All p m)
    | inr bad ↦ rw (bad, under_prefix) (under_prefix-All p m)
  ]

abbrev pub badger : Badger (Dict Node) Node
badger = record {
  get = lookup;
  set = λ k v db. some (insert k v db);
  erase = λ k db. some (remove k db);
  scan = λ prefix db. under_prefix prefix (firsts db);
}

some_injective : {A : Type 0} {x y : A} → some x ≡ some y → x ≡ y
some_injective e = cc

pub badger-IsBadger : IsBadger badger
badger-IsBadger = record {
  get-set = λ k j v db db' e. ap (lookup j) (sym (some_injective e)) ∙ lookup-insert k j v db;
  get-erase = λ k j db db' e. ap (lookup j) (sym (some_injective e)) ∙ lookup-remove k j db;
  scan-prefix = λ p db. under_prefix-All p (firsts db);
  scan-IsFresh = λ p db. under_prefix-IsFresh p (firsts db) (firsts-IsFresh db);
  scan-get = λ p k db h. ground (arith, lookup-under_prefix p k (firsts db), lookup-firsts k db);
}

pub badger-NeverFails : File.NeverFails badger
badger-NeverFails = record { sets = λ k v db. refl; erases = λ k db. refl }

abbrev pub table : Table (Dict (Row Node)) Node
table = record {
  row = lookup;
  upsert = λ k r db. some (insert k r db);
  erase = λ k db. some (remove k db);
  rows = firsts;
}

pub table-IsTable : IsTable table
table-IsTable = record {
  row-upsert = λ k j r db db' e. ap (lookup j) (sym (some_injective e)) ∙ lookup-insert k j r db;
  row-erase = λ k j db db' e. ap (lookup j) (sym (some_injective e)) ∙ lookup-remove k j db;
  rows-IsFresh = firsts-IsFresh;
  rows-row = lookup-firsts;
}

pub table-NeverFails : Sqlite.NeverFails table
table-NeverFails = record { upserts = λ k r db. refl; erases = λ k db. refl }
