-- ===== src/Paths/Normal.antt =====
-- The form of normalised paths.
use diff_mem.Prelude.{
  ℕ, ◌+◌, ◌≡◌, refl, ap, ◌∙◌, Bool, true, false, not, ◌&&◌, [], ◌∷◌, ◌++◌, arith, ◌==◌, leb, ◌||◌,
  if◌then◌else◌,
}
use diff_mem.Text.{Text, slash, is_space, trim_left, trim_right, trim_space}
use diff_mem.Paths.{is_plain, is_upper, normalize_rune, normalize_from, is_trailing, normalize_path}

-- Only plain runes and single separators; `prev` says that a separator stands just before.
unfoldable pub is_stable : Bool → Text → Bool
is_stable prev [] = true
is_stable prev (r ∷ s) =
    if r == slash then not prev && is_stable true s else is_plain r && is_stable false s

is_stable-weaken : (s : Text) → is_stable true s ≡ true → is_stable false s ≡ true
unfolding is_stable
is_stable-weaken [] h = refl
is_stable-weaken (r ∷ s) h = ground arith

plain_of_upper : (r : ℕ) → is_upper r ≡ true → is_plain (r + 32) ≡ true
unfolding is_plain
plain_of_upper r h = ground arith

plain_of_dash : is_plain b'-' ≡ true
unfolding is_plain
plain_of_dash = refl

pub slash_not_plain : (r : ℕ) → is_plain r ≡ true → (r == slash) ≡ false
unfolding is_plain
slash_not_plain r h = ground arith

plain_not_upper : (r : ℕ) → is_plain r ≡ true → is_upper r ≡ false
unfolding is_plain
plain_not_upper r h = ground arith

plain_not_space : (r : ℕ) → is_plain r ≡ true → is_space r ≡ false
unfolding is_plain is_space
plain_not_space r h = ground arith

slash_not_space : (r : ℕ) → (r == slash) ≡ true → is_space r ≡ false
unfolding is_space
slash_not_space r h = ground arith

-- One round keeps the output clean, if what follows is.
normalize_rune-is_stable :
    (prev : Bool) (r : ℕ) (t : Text)
    → is_stable (normalize_rune prev r).1 t ≡ true
    → is_stable prev ((normalize_rune prev r).0 ++ t) ≡ true
unfolding is_stable normalize_rune
normalize_rune-is_stable prev r t h =
    ground (arith, plain_of_upper r, slash_not_plain r, plain_of_dash, is_stable-weaken t)

normalize_from-is_stable : (prev : Bool) (s : Text) → is_stable prev (normalize_from prev s) ≡ true
unfolding is_stable normalize_from
normalize_from-is_stable prev [] = refl
normalize_from-is_stable prev (r ∷ s) =
    normalize_rune-is_stable prev r _ (normalize_from-is_stable (normalize_rune prev r).1 s)

normalize_rune_of_clean :
    (prev : Bool) (r : ℕ) (s : Text)
    → is_stable prev (r ∷ s) ≡ true
    → (normalize_rune prev r ≡ (r ∷ [], r == slash)) × (is_stable (r == slash) s ≡ true)
unfolding is_stable normalize_rune
normalize_rune_of_clean prev r s h = ground (arith, slash_not_plain r, plain_not_upper r)

normalize_from_of_clean :
    (prev : Bool) (s : Text) → is_stable prev s ≡ true → normalize_from prev s ≡ s
unfolding is_stable normalize_from
normalize_from_of_clean prev [] h = refl
normalize_from_of_clean prev (r ∷ s) h =
    let (e, clean) = normalize_rune_of_clean prev r s h in
    ap (λ (x : Text × Bool). x.0 ++ normalize_from x.1 s) e
    ∙ ap (λ t. r ∷ t) (normalize_from_of_clean (r == slash) s clean)

trim_right-is_stable :
    (p : ℕ → Bool) (prev : Bool) (s : Text)
    → is_stable prev s ≡ true
    → is_stable prev (trim_right p s) ≡ true
unfolding is_stable trim_right
trim_right-is_stable p prev [] h = refl
trim_right-is_stable p prev (r ∷ s) h =
    ground (arith, trim_right-is_stable p true s, trim_right-is_stable p false s)

pub trim_right-trim_right :
    (p : ℕ → Bool) (s : Text) → trim_right p (trim_right p s) ≡ trim_right p s
unfolding trim_right
trim_right-trim_right p [] = refl
trim_right-trim_right p (r ∷ s) = ground (arith, trim_right-trim_right p s)

trim_left_of_clean : (prev : Bool) (s : Text) → is_stable prev s ≡ true → trim_left is_space s ≡ s
unfolding is_stable trim_left
trim_left_of_clean prev [] h = refl
trim_left_of_clean prev (r ∷ s) h = ground (arith, plain_not_space r, slash_not_space r)

trim_right_of_clean : (prev : Bool) (s : Text) → is_stable prev s ≡ true → trim_right is_space s ≡ s
unfolding is_stable trim_right
trim_right_of_clean prev [] h = refl
trim_right_of_clean prev (r ∷ s) h = ground (
  arith,
  plain_not_space r,
  slash_not_space r,
  trim_right_of_clean true s,
  trim_right_of_clean false s,
)

trim_space_of_clean : (s : Text) → is_stable false s ≡ true → trim_space s ≡ s
unfolding trim_space
trim_space_of_clean s h =
    ap (trim_right is_space) (trim_left_of_clean false s h) ∙ trim_right_of_clean false s h

normalize_path-is_stable : (path : Text) → is_stable false (normalize_path path) ≡ true
unfolding normalize_path
normalize_path-is_stable path =
    trim_right-is_stable is_trailing false _ (normalize_from-is_stable false (trim_space path))

-- A lower-case letter from a to z, a digit, a dash, an underscore, or a code point from U+4E00 to
-- U+9FFF.
abbrev pub is_allowed : ℕ → Bool
is_allowed r =
    (leb 97 r && leb r 122)
    || (leb 48 r && leb r 57)
    || r == 45
    || r == 95
    || (leb 19968 r && leb r 40959)

-- Only allowed runes and single slashes, the number 47; `prev` says that a slash stands just before.
abbrev pub is_clean : Bool → Text → Bool
is_clean prev [] = true
is_clean prev (r ∷ s) =
    if r == 47 then not prev && is_clean true s else is_allowed r && is_clean false s

is_clean-is_stable : (prev : Bool) (s : Text) → is_clean prev s ≡ is_stable prev s
unfolding is_stable is_plain
is_clean-is_stable prev [] = refl
is_clean-is_stable prev (r ∷ s) =
    ground (arith, is_clean-is_stable true s, is_clean-is_stable false s)

-- A normalised path consists of the letters a to z, digits, dashes, underscores, code points from
-- U+4E00 to U+9FFF, and slashes, of which no two stand in a row.
pub normalize_path-is_clean : (path : Text) → is_clean false (normalize_path path) ≡ true
normalize_path-is_clean path =
    is_clean-is_stable false (normalize_path path) ∙ normalize_path-is_stable path

-- Normalising a path twice is normalising it once.
pub normalize_path_idempotent :
    (path : Text) → normalize_path (normalize_path path) ≡ normalize_path path
unfolding normalize_path
normalize_path_idempotent path =
    let clean = normalize_path-is_stable path in
    ap (λ s. trim_right is_trailing (normalize_from false s))
      (trim_space_of_clean (normalize_path path) clean)
    ∙ ap (trim_right is_trailing) (normalize_from_of_clean false (normalize_path path) clean)
    ∙ trim_right-trim_right is_trailing (normalize_from false (trim_space path))
