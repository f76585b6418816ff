-- ===== src/Validator.antt =====
-- internal/validator/validator.go. A check returns the message of the rule that fails; `none` is the
-- source's empty string.
pub mod Segments
pub mod Path
use diff_mem.Prelude.{
  ℕ, Bool, true, false, not, ◌&&◌, ◌||◌, Option, none, some, List, [], ◌∷◌, ◌++◌, map, ltb, leb,
  ◌==◌, if◌then◌else◌, length, all, any,
}
use diff_mem.Text.{
  Text, lit, slash, text_eq, is_empty, byte_length, has_prefix, has_suffix, contains, trim_prefix,
  split_slash, trim_space, member,
}
use diff_mem.Env.{Unicode}
use diff_mem.Model.{
  CreateOptions, AppendOptions, UpdateFieldOptions, UpdateSummaryOptions, ArchiveOptions,
}

abbrev pub Check : Type 0
Check = Option Text

-- protectedFields
abbrev pub protected_fields : List Text
protected_fields = lit "status" ∷ lit "summary" ∷ []

-- memoryRoots
abbrev pub memory_roots : List Text
memory_roots = lit "short-term" ∷ lit "long-term" ∷ []

-- strings.TrimSpace(s) == ""
unfoldable pub is_blank : Text → Bool
is_blank s = is_empty (trim_space s)

-- `segments[0]`: a split has at least one part.
unfoldable pub first_segment : List Text → Text
first_segment [] = []
first_segment (w ∷ ws) = w

-- fieldRe: ^[a-z0-9_]+$
unfoldable pub is_field_rune : ℕ → Bool
is_field_rune r = (leb b'a' r && leb r b'z') || (leb b'0' r && leb r b'9') || r == b'_'

unfoldable pub field_re : Text → Bool
unfolding is_field_rune
field_re s = not (is_empty s) && all is_field_rune s

abbrev pub or_check : Check → Check → Check
or_check none k = k
or_check (some m) k = some m

abbrev pub lazy_patterns : List Text
lazy_patterns =
    lit "不需要"
    ∷ lit "没用了"
    ∷ lit "none"
    ∷ lit "n/a"
    ∷ lit "na"
    ∷ lit "ok"
    ∷ lit "yes"
    ∷ lit "no"
    ∷ lit "无所谓"
    ∷ []

module _ (u : Unicode) where
  -- The characters of a path segment.
  unfoldable pub is_path_rune : ℕ → Bool
  is_path_rune r =
      u.is_letter r || u.is_digit r || r == b'-' || r == b'_' || (leb 0x4e00 r && leb r 0x9fff)

  -- The inner loop of ValidatePath: the first invalid character.
  unfoldable pub check_runes : Text → Check
  check_runes [] = none
  check_runes (r ∷ s) =
      let rest = check_runes s in
      if is_path_rune r then rest else some (lit "path contains invalid character: " ++ r ∷ [])

  -- The outer loop of ValidatePath.
  unfoldable pub check_segments : List Text → Check
  check_segments [] = none
  check_segments (seg ∷ segs) =
      let rest = or_check (check_runes seg) (check_segments segs) in
      if ltb 100 (byte_length seg)
      then some (lit "path segment must not exceed 100 characters")
      else rest

  unfoldable pub check_depth : List Text → Check
  check_depth segments =
      if ltb 6 (length segments)
      then some (lit "path must not exceed 5 levels below the memory root")
      else if not (member (first_segment segments) memory_roots)
      then some
          (lit "path must start with /short-term or /long-term, got /" ++ first_segment segments)
      else if ltb (length segments) 2
      then some (lit "path must have at least one level below /" ++ first_segment segments)
      else check_segments segments

  unfoldable pub validate_path : Text → Check
  validate_path path =
      if is_empty path
      then some (lit "path is required")
      else if not (has_prefix path (slash ∷ []))
      then some (lit "path must start with /")
      else if has_suffix path (slash ∷ []) && not (text_eq path (slash ∷ []))
      then some (lit "path must not end with /")
      else if contains path (slash ∷ slash ∷ [])
      then some (lit "path must not contain empty segments")
      else check_depth (split_slash (trim_prefix path (slash ∷ [])))

  -- if err := ValidatePath(path); err != "" { return "invalid path: " + err }
  unfoldable pub with_path : Text → Check → Check
  with_path path rest = elim (validate_path path) [
    | none ↦ rest
    | some e ↦ some (lit "invalid path: " ++ e)
  ]

  unfoldable pub validate_create : CreateOptions → Check
  unfolding with_path
  validate_create opts = with_path opts.path (
      if is_blank opts.title
      then some (lit "title is required")
      else if is_blank opts.summary
      then some (lit "summary is required")
      else if ltb 500 (byte_length opts.summary)
      then some (lit "summary must not exceed 500 characters")
      else if ltb 20 (length opts.tags)
      then some (lit "tags must not exceed 20 items")
      else if is_blank opts.reason
      then some (lit "reason is required")
      else none)

  unfoldable pub validate_append : AppendOptions → Check
  unfolding with_path
  validate_append opts = with_path opts.path (
      if is_blank opts.event
      then some (lit "event is required")
      else if ltb 2000 (byte_length opts.event)
      then some (lit "event must not exceed 2000 characters")
      else if is_blank opts.reason
      then some (lit "reason is required")
      else none)

  unfoldable pub validate_update_field : UpdateFieldOptions → Check
  unfolding with_path
  validate_update_field opts = with_path opts.path (
      if is_blank opts.field
      then some (lit "field is required")
      else if not (field_re opts.field)
      then some (lit "field must contain only a-z, 0-9, underscore")
      else if member opts.field protected_fields
      then some (
          lit "field \""
          ++ (opts.field
              ++ lit
                  "\" is protected: use diff_mem_lifecycle for status or diff_mem_update summary for summary"))
      else if ltb 5000 (byte_length opts.value)
      then some (lit "value must not exceed 5000 characters")
      else if is_blank opts.reason
      then some (lit "reason is required")
      else none)

  unfoldable pub validate_update_summary : UpdateSummaryOptions → Check
  unfolding with_path
  validate_update_summary opts = with_path opts.path (
      if is_blank opts.new_summary
      then some (lit "new_summary is required")
      else if ltb 500 (byte_length opts.new_summary)
      then some (lit "new_summary must not exceed 500 characters")
      else if is_blank opts.reason
      then some (lit "reason is required")
      else none)

  unfoldable pub validate_archive : ArchiveOptions → Check
  unfolding with_path
  validate_archive opts =
      with_path opts.path (if is_blank opts.reason then some (lit "reason is required") else none)

  -- strings.ToLower
  abbrev pub to_lower : Text → Text
  to_lower s = map u.to_lower s

  -- The entities that need a reason; the source returns the flag `needsReason` beside them.
  unfoldable pub validate_summary_drift : List Text → Text → Bool × List Text
  validate_summary_drift [] reason = (false, [])
  validate_summary_drift (d ∷ ds) reason =
      let trimmed = trim_space reason in
      if ltb (byte_length trimmed) 10
      then (true, d ∷ ds)
      else if member (to_lower trimmed) lazy_patterns
      then (true, d ∷ ds)
      else (false, [])
