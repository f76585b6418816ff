-- ===== src/Params.antt =====
-- internal/engine/extract.go: the parameters of a tool call, as decoded from JSON.
use diff_mem.Prelude.{ℤ, Bool, false, Option, none, some, List, [], ◌∷◌, ltb, if◌then◌else◌}
use diff_mem.Text.{Text, lit}
use diff_mem.Dict.{Dict, lookup}
use diff_mem.Model.{
  SearchOptions, CreateOptions, ArchiveOptions, UpdateFieldOptions, UpdateOptions, AppendOptions,
}
use diff_mem.Paths.{normalize_path}

-- A decoded JSON value, `interface{}`. A number is a `float64`, of which the program reads the integer
-- part only: `num n` is any number with the integer part `n`.
mutual
  pub data Json : Type 0 where
    null : Json
    bool : Bool → Json
    num : ℤ → Json
    str : Text → Json
    arr : Items → Json
    obj : Members → Json

  pub data Items : Type 0 where
    nil : Items
    cons : Json → Items → Items

  pub data Members : Type 0 where
    end : Members
    member : Text → Json → Members → Members

abbrev pub Params : Type 0
Params = Dict Json

unfoldable pub members : Members → Params
members end = []
members (member k v ms) = (k, v) ∷ members ms

-- v, ok := x.(string)
abbrev pub as_string : Option Json → Option Text
as_string (some (str s)) = some s
as_string _ = none

-- The value that the comma-ok form leaves when the assertion fails.
abbrev pub string_or_empty : Option Text → Text
string_or_empty none = []
string_or_empty (some s) = s

unfoldable pub string_at : Text → Params → Text
string_at k params = string_or_empty (as_string (lookup k params))

unfoldable pub strings : Items → List Text
strings nil = []
strings (cons (str s) xs) = s ∷ strings xs
strings (cons _ xs) = strings xs

abbrev pub strings_of : Option Json → List Text
strings_of (some (arr xs)) = strings xs
strings_of _ = []

abbrev pub normalize_or_empty : Option Text → Text
normalize_or_empty none = []
normalize_or_empty (some v) = normalize_path v

unfoldable pub path_at : Params → Text
path_at params = normalize_or_empty (as_string (lookup (lit "path") params))

unfoldable pub extract_create : Params → CreateOptions
unfolding path_at string_at strings
extract_create params = record {
  path = path_at params;
  title = string_at (lit "title") params;
  summary = string_at (lit "summary") params;
  tags = strings_of (lookup (lit "tags") params);
  initial_events = strings_of (lookup (lit "initial_events") params);
  reason = string_at (lit "reason") params;
}

unfoldable pub extract_append : Params → AppendOptions
unfolding path_at string_at
extract_append params = record {
  path = path_at params;
  event = string_at (lit "event") params;
  reason = string_at (lit "reason") params;
}

unfoldable pub extract_update_field : Params → UpdateFieldOptions
unfolding path_at string_at
extract_update_field params = record {
  path = path_at params;
  field = string_at (lit "field") params;
  value = string_at (lit "value") params;
  reason = string_at (lit "reason") params;
}

unfoldable pub extract_archive : Params → ArchiveOptions
unfolding path_at string_at
extract_archive params = record { path = path_at params; reason = string_at (lit "reason") params }

-- The string values of a map.
unfoldable pub string_members : Members → Dict Text
string_members end = []
string_members (member k (str s) ms) = (k, s) ∷ string_members ms
string_members (member k _ ms) = string_members ms

abbrev pub string_map_of : Option Json → Dict Text
string_map_of (some (obj ms)) = string_members ms
string_map_of _ = []

abbrev pub members_of : Option Json → Params
members_of (some (obj ms)) = members ms
members_of _ = []

unfoldable pub extract_update : Params → UpdateOptions
unfolding path_at string_at string_members members
extract_update params =
    let summary = members_of (lookup (lit "summary") params) in
    record {
      path = path_at params;
      fields = string_map_of (lookup (lit "fields") params);
      field_reason = string_at (lit "reason") params;
      old_summary = string_at (lit "old") summary;
      new_summary = string_at (lit "new") summary;
      summary_reason = string_at (lit "reason") summary;
    }

unfoldable pub extract_lifecycle : Params → Text × ArchiveOptions
unfolding extract_archive string_at
extract_lifecycle params = (string_at (lit "action") params, extract_archive params)

-- Whether an int, of 64 bits, holds the integer part of a float64.
unfoldable is_int : ℤ → Bool
is_int (ℤ.pos n) = ltb n (9223372036854775808)
is_int (ℤ.negsuc n) = ltb n (9223372036854775808)

-- int(v), if the value is a float64
unfoldable pub int_or_zero : (ℤ → ℤ) → Option Json → ℤ
unfolding is_int
int_or_zero int_of_float (some (num n)) = if is_int n then n else int_of_float n
int_or_zero int_of_float _ = ℤ.pos 0

unfoldable pub extract_search : (ℤ → ℤ) → Params → SearchOptions
unfolding string_at strings
extract_search int_of_float params = record {
  tags = strings_of (lookup (lit "tags") params);
  keywords = string_at (lit "keywords") params;
  limit = int_or_zero int_of_float (lookup (lit "limit") params);
  include_archived = false;
}

-- b, _ := x.(bool)
abbrev pub bool_or_false : Option Json → Bool
bool_or_false (some (bool b)) = b
bool_or_false _ = false
