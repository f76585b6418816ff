-- ===== src/Entity.antt =====
-- internal/engine/entity.go: the entities of a summary, for the drift check.
use diff_mem.Prelude.{ℕ, Bool, not, ◌&&◌, ◌||◌, List, [], ◌++◌, leb, ◌==◌, length, select}
use diff_mem.Text.{Text, byte_length, contains, member, push_all, runs_from}

abbrev pub is_ascii_digit : ℕ → Bool
is_ascii_digit r = leb b'0' r && leb r b'9'

abbrev pub is_han : ℕ → Bool
is_han r = leb 0x4e00 r && leb r 0x9fff

-- '月' and '日' beside digits, '-' and '/'.
abbrev pub is_date_rune : ℕ → Bool
is_date_rune r = is_ascii_digit r || r == b'-' || r == b'/' || r == 0x6708 || r == 0x65e5

-- The runs that `fieldScan` hands to `onField`, in order.
unfoldable pub field_scan : (ℕ → Bool) → Text → List Text
unfolding runs_from
field_scan predicate s = runs_from predicate [] s

unfoldable pub extract_entities : Text → List Text
unfolding field_scan push_all
extract_entities summary =
    let numbers = field_scan is_ascii_digit summary in
    let names = select (λ s. leb 2 (length s) && leb (length s) 4) (field_scan is_han summary) in
    let dates = select (λ s. leb 3 (byte_length s)) (field_scan is_date_rune summary) in
    push_all [] (numbers ++ (names ++ dates))

unfoldable pub disappeared_entities : Text → Text → List Text
unfolding extract_entities
disappeared_entities old_summary new_summary =
    let new_entities = extract_entities new_summary in
    select (λ e. not (member e new_entities) && not (contains new_summary e))
      (extract_entities old_summary)
