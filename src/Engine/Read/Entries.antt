-- ===== src/Engine/Read/Entries.antt =====
-- The entries of a listing, of internal/engine/read.go.
use diff_mem.Prelude.{
  ℕ, ◌+◌, Bool, true, not, ◌&&◌, Option, none, some, List, [], ◌∷◌, ◌++◌, map, ◌==◌, if◌then◌else◌,
  length, drop,
}
use diff_mem.Text.{
  Text, lit, slash, text_lt, is_empty, has_prefix, trim_prefix, split_slash, member, span,
}
use diff_mem.Dict.{Dict, lookup_or, insert}
use diff_mem.Model.{is_archived, Node, SearchResultEntry, EntryType, listing, ToolResponse}
use diff_mem.Engine.{success}

-- memoryRoots
abbrev pub memory_roots : List Text
memory_roots = lit "/short-term" ∷ lit "/long-term" ∷ []

abbrev pub entry_of : Text → EntryType → SearchResultEntry
entry_of path type = record {
  path = path;
  type = type;
  summary = [];
  status = none;
  tags = [];
  count = 0;
}

-- sort.Slice(entries, …) by path
unfoldable pub insert_entry : SearchResultEntry → List SearchResultEntry → List SearchResultEntry
insert_entry x [] = x ∷ []
insert_entry x (y ∷ ys) = if text_lt y.path x.path then y ∷ insert_entry x ys else x ∷ y ∷ ys

unfoldable pub sort_entries : List SearchResultEntry → List SearchResultEntry
unfolding insert_entry
sort_entries [] = []
sort_entries (x ∷ xs) = insert_entry x (sort_entries xs)

-- A node that a listing passes over.
abbrev pub is_hidden : Bool → Node → Bool
is_hidden include_archived n = is_archived n.status && not include_archived

-- The loop of listRoot: nodes of depth 1.
unfoldable pub root_nodes : Bool → List Node → List SearchResultEntry
root_nodes include_archived [] = []
root_nodes include_archived (n ∷ ns) =
    let rest = root_nodes include_archived ns in
    let segs = split_slash (trim_prefix n.path (slash ∷ [])) in
    if is_hidden include_archived n
    then rest
    else if length segs == 1
    then entry_of n.path EntryType.node ∷ rest
    else rest

-- The child of `base` that a path lies in or is: its path and its type; `none` for `base` itself and
-- for what is not below it.
unfoldable pub child_of : Text → Text → Option (Text × EntryType)
child_of base path =
    let rel = drop (length base + 1) path in
    let (dir, deeper) = span (λ r. not (r == slash)) rel in
    if not (has_prefix path (base ++ slash ∷ []))
    then none
    else if is_empty rel
    then none
    else if is_empty deeper
    then some (path, EntryType.node)
    else some (base ++ slash ∷ dir, EntryType.group)

-- if !seen[path] { seen[path] = true; entries = append(entries, …) }
unfoldable pub add_child :
    Option (Text × EntryType) → List SearchResultEntry → List SearchResultEntry
add_child none entries = entries
add_child (some (path, type)) entries =
    if member path (map (λ x. x.path) entries) then entries else entries ++ entry_of path type ∷ []

-- The loop of listChildren.
unfoldable pub children_of :
    Text → Bool → List SearchResultEntry → List Node → List SearchResultEntry
unfolding child_of add_child
children_of base include_archived entries [] = entries
children_of base include_archived entries (n ∷ ns) =
    children_of base include_archived
      (if is_hidden include_archived n then entries else add_child (child_of base n.path) entries)
      ns

-- counts[key]++, over all entries
unfoldable pub count_keys : List Text → Dict ℕ → Dict ℕ
count_keys [] counts = counts
count_keys (k ∷ ks) counts = count_keys ks (insert k (lookup_or 0 k counts + 1) counts)

unfoldable pub group_entries : Text → Dict ℕ → List SearchResultEntry
group_entries base [] = []
group_entries base ((key, n) ∷ rest) =
    let label = key ++ lit "-*" in
    record (entry_of (if is_empty base then label else base ++ slash ∷ label) EntryType.group) {
      count = n;
    }
    ∷ group_entries base rest

unfoldable pub aggregate_list :
    Text → List SearchResultEntry → (SearchResultEntry → Text) → ToolResponse
unfolding count_keys group_entries sort_entries
aggregate_list base entries key_fn =
    success
      (listing base (sort_entries (group_entries base (count_keys (map key_fn entries) []))) true)
