-- ===== src/Text.antt =====
-- Go strings as lists of code points, and what the program uses of package `strings`. Texts are valid
-- UTF-8, so that prefixes, substrings and the order by bytes are those by code points; `byte_length`
-- is Go's `len`.
pub mod Laws
pub mod Sorted
use Prim.Native.Char.{code}
use Prim.Native.String.{String}
use diff_mem.Prelude.{
  ℕ, zero, suc, ◌+◌, ◌≤◌, ◌<◌, ◌≡◌, Bool, true, false, ◌&&◌, ◌||◌, not, Option, none, some, List,
  [], ◌∷◌, ◌++◌, ltb, leb, ◌==◌, if◌then◌else◌, length, drop, any, all,
}

abbrev pub Text : Type 0
Text = List ℕ

-- A string literal of the source.
unfoldable pub lit : String → Text
lit String.[] = []
lit (String.◌∷◌ c s) = code c ∷ lit s

abbrev pub slash : ℕ
slash = b'/'

-- a == b
unfoldable pub text_eq : Text → Text → Bool
text_eq [] [] = true
text_eq (a ∷ s) (b ∷ t) = a == b && text_eq s t
text_eq _ _ = false

-- a < b, by bytes, which is by code points
unfoldable pub text_lt : Text → Text → Bool
text_lt s [] = false
text_lt [] (b ∷ t) = true
text_lt (a ∷ s) (b ∷ t) = ltb a b || (a == b && text_lt s t)

abbrev pub is_empty {ℓ} : {A : Type ℓ} → List A → Bool
is_empty [] = true
is_empty (_ ∷ _) = false

-- The bytes of one code point in UTF-8.
abbrev pub rune_length : ℕ → ℕ
rune_length r = if ltb r 0x80 then 1 else if ltb r 0x800 then 2 else if ltb r 0x10000 then 3 else 4

-- len(s)
unfoldable pub byte_length : Text → ℕ
byte_length [] = 0
byte_length (r ∷ s) = rune_length r + byte_length s

-- strings.HasPrefix(s, p)
unfoldable pub has_prefix : Text → Text → Bool
has_prefix s [] = true
has_prefix [] (b ∷ p) = false
has_prefix (a ∷ s) (b ∷ p) = a == b && has_prefix s p

-- strings.HasSuffix(s, p)
unfoldable pub has_suffix : Text → Text → Bool
unfolding text_eq
has_suffix [] p = is_empty p
has_suffix (a ∷ s) p = text_eq (a ∷ s) p || has_suffix s p

-- strings.Contains(s, p)
unfoldable pub contains : Text → Text → Bool
unfolding has_prefix
contains [] p = is_empty p
contains (a ∷ s) p = has_prefix (a ∷ s) p || contains s p

-- strings.TrimSuffix(s, "/")
unfoldable pub trim_slash : Text → Text
trim_slash [] = []
trim_slash (a ∷ []) = if a == slash then [] else a ∷ []
trim_slash (a ∷ b ∷ s) = a ∷ trim_slash (b ∷ s)

-- strings.TrimPrefix(s, p)
unfoldable pub trim_prefix : Text → Text → Text
unfolding has_prefix
trim_prefix s p = if has_prefix s p then drop (length p) s else s

-- strings.Split(s, "/"): the first part, and the parts after it
unfoldable pub split_cons : ℕ → List Text → List Text
split_cons r [] = (r ∷ []) ∷ []
split_cons r (w ∷ ws) = (r ∷ w) ∷ ws

unfoldable pub split_slash : Text → List Text
unfolding split_cons
split_slash [] = [] ∷ []
split_slash (r ∷ s) = let ws = split_slash s in if r == slash then [] ∷ ws else split_cons r ws

-- strings.Join(words, sep)
unfoldable pub join : Text → List Text → Text
join sep [] = []
join sep (w ∷ []) = w
join sep (w ∷ v ∷ ws) = w ++ (sep ++ join sep (v ∷ ws))

-- unicode.IsSpace
unfoldable pub is_space : ℕ → Bool
is_space r =
    (leb 9 r && leb r 13)
    || r == 32
    || r == 0x85
    || r == 0xa0
    || r == 0x1680
    || (leb 0x2000 r && leb r 0x200a)
    || r == 0x2028
    || r == 0x2029
    || r == 0x202f
    || r == 0x205f
    || r == 0x3000

unfoldable pub trim_left : (ℕ → Bool) → Text → Text
trim_left p [] = []
trim_left p (r ∷ s) = let rest = trim_left p s in if p r then rest else r ∷ s

-- strings.TrimRight(s, cutset)
unfoldable pub trim_right : (ℕ → Bool) → Text → Text
trim_right p [] = []
trim_right p (r ∷ s) = let rest = trim_right p s in if is_empty rest && p r then [] else r ∷ rest

-- strings.TrimSpace
unfoldable pub trim_space : Text → Text
unfolding trim_left trim_right is_space
trim_space s = trim_right is_space (trim_left is_space s)

-- strings.Fields, and every split into runs of code points outside a class: `word` is the run that
-- is being read.
unfoldable pub flush : Text → List Text → List Text
flush [] ws = ws
flush (r ∷ word) ws = (r ∷ word) ∷ ws

unfoldable pub runs_from : (ℕ → Bool) → Text → Text → List Text
unfolding flush
runs_from inside word [] = flush word []
runs_from inside word (r ∷ s) =
    let longer = runs_from inside (word ++ r ∷ []) s in
    let closed = runs_from inside [] s in if inside r then longer else flush word closed

-- strings.Fields(s)
unfoldable pub fields : Text → List Text
unfolding runs_from is_space
fields s = runs_from (λ r. not (is_space r)) [] s

-- A map[string]bool that is used as a set: its keys.
abbrev pub member : Text → List Text → Bool
member t [] = false
member t (u ∷ us) = text_eq u t || member t us

-- if !seen[t] { seen[t] = true; links = append(links, t) }: the list holds what was seen.
unfoldable pub push_new : List Text → Text → List Text
push_new us t = if member t us then us else us ++ t ∷ []

unfoldable pub push_all : List Text → List Text → List Text
unfolding push_new
push_all us [] = us
push_all us (t ∷ ts) = push_all (push_new us t) ts

-- The longest run at the front whose code points pass, and the rest.
unfoldable pub span : (ℕ → Bool) → Text → Text × Text
span p [] = ([], [])
span p (r ∷ s) = let (w, rest) = span p s in if p r then (r ∷ w, rest) else ([], r ∷ s)

-- sort.Strings
unfoldable pub insert_sorted : Text → List Text → List Text
unfolding text_lt
insert_sorted t [] = t ∷ []
insert_sorted t (u ∷ us) = if text_lt u t then u ∷ insert_sorted t us else t ∷ u ∷ us

unfoldable pub sort : List Text → List Text
unfolding insert_sorted
sort [] = []
sort (t ∷ ts) = insert_sorted t (sort ts)
