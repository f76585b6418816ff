-- ===== src/Engine/Read/Listing.antt =====
-- List of internal/engine/read.go: the children of a directory.
use diff_mem.Prelude.{Bool, true, false, not, ◌&&◌, Option, none, some, List, [], ◌∷◌, map}
use diff_mem.Text.{Text, text_eq, member}
use diff_mem.Model.{EntryType, SearchResultEntry}
use diff_mem.Store.{Store}
use diff_mem.Engine.{Engine}

-- The paths of the entries.
abbrev pub entry_paths : List SearchResultEntry → List Text
entry_paths rs = map (λ r. r.path) rs

-- The child that the path gives, if any, is `c`.
abbrev pub is_child : Option (Text × EntryType) → Text → Bool
is_child none c = false
is_child (some (q, type)) c = text_eq q c

-- Every path stands once.
abbrev pub is_distinct : List Text → Bool
is_distinct [] = true
is_distinct (p ∷ ps) = not (member p ps) && is_distinct ps
