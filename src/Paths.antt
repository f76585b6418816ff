-- ===== src/Paths.antt =====
-- NormalizePath of internal/engine/helpers.go.
pub mod Normal
use diff_mem.Prelude.{
  ℕ, ◌+◌, Bool, true, false, ◌&&◌, ◌||◌, List, [], ◌∷◌, ◌++◌, ltb, leb, ◌==◌, if◌then◌else◌,
}
use diff_mem.Text.{Text, slash, trim_space, trim_right}

abbrev pub is_upper : ℕ → Bool
is_upper r = leb b'A' r && leb r b'Z'

-- The runes that are written as they are.
unfoldable pub is_plain : ℕ → Bool
is_plain r =
    (leb b'a' r && leb r b'z')
    || (leb b'0' r && leb r b'9')
    || r == b'-'
    || r == b'_'
    || (leb 0x4e00 r && leb r 0x9fff)

-- One round of the loop: what is written, and the new `prevSep`.
unfoldable pub normalize_rune : Bool → ℕ → Text × Bool
normalize_rune prev_sep r =
    if r == slash
    then (if prev_sep then ([], true) else (slash ∷ [], true))
    else if is_upper r
    then ((r + 32) ∷ [], false)
    else if is_plain r
    then (r ∷ [], false)
    else if prev_sep
    then ([], true)
    else (b'-' ∷ [], true)

unfoldable pub normalize_from : Bool → Text → Text
unfolding normalize_rune
normalize_from prev_sep [] = []
normalize_from prev_sep (r ∷ s) =
    let (out, sep) = normalize_rune prev_sep r in out ++ normalize_from sep s

-- The cutset "-/".
abbrev pub is_trailing : ℕ → Bool
is_trailing r = r == b'-' || r == slash

unfoldable pub normalize_path : Text → Text
unfolding normalize_from is_plain
normalize_path path = trim_right is_trailing (normalize_from false (trim_space path))
