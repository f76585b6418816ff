-- ===== src/Validator/Segments.antt =====
-- Splitting a path at "/": the parts, and when none of them is empty.
use diff_mem.Prelude.{
  ℕ, ◌≡◌, refl, ap, ◌∙◌, Bool, true, false, not, ◌&&◌, List, [], ◌∷◌, ◌++◌, arith, ◌==◌, all,
  if◌then◌else◌,
}
use diff_mem.Text.{
  Text, slash, text_eq, is_empty, has_prefix, has_suffix, contains, split_cons, split_slash, join,
}

abbrev pub no_slash : Text → Bool
no_slash s = all (λ r. not (r == slash)) s

-- Joining the parts gives the text back.
join-split_cons :
    (r : ℕ) (ws : List Text)
    → is_empty ws ≡ false
    → join (slash ∷ []) (split_cons r ws) ≡ r ∷ join (slash ∷ []) ws
unfolding join split_cons
join-split_cons r [] h = cc
join-split_cons r (w ∷ []) h = refl
join-split_cons r (w ∷ v ∷ ws) h = refl

split_slash-not_empty : (s : Text) → is_empty (split_slash s) ≡ false
unfolding split_slash split_cons
split_slash-not_empty [] = refl
split_slash-not_empty (r ∷ s) = ground (arith, split_slash-not_empty s)

join-cons :
    (ws : List Text)
    → is_empty ws ≡ false
    → join (slash ∷ []) ([] ∷ ws) ≡ slash ∷ join (slash ∷ []) ws
unfolding join
join-cons [] h = cc
join-cons (w ∷ ws) h = refl

pub join-split_slash : (s : Text) → join (slash ∷ []) (split_slash s) ≡ s
unfolding split_slash
join-split_slash [] = unfold join in refl
join-split_slash (r ∷ s) = ground (
  arith,
  join-split_slash s,
  join-split_cons r (split_slash s) (split_slash-not_empty s),
  join-cons (split_slash s) (split_slash-not_empty s),
)

-- No part holds a "/".
split_cons-no_slash :
    (r : ℕ) (ws : List Text)
    → (r == slash) ≡ false
    → all no_slash ws ≡ true
    → all no_slash (split_cons r ws) ≡ true
unfolding split_cons
split_cons-no_slash r [] h k = ground arith
split_cons-no_slash r (w ∷ ws) h k = ground arith

pub split_slash-no_slash : (s : Text) → all no_slash (split_slash s) ≡ true
unfolding split_slash
split_slash-no_slash [] = refl
split_slash-no_slash (r ∷ s) =
    ground (arith, split_slash-no_slash s, split_cons-no_slash r (split_slash s))

-- Splitting a joined list gives the parts back.
split_slash-append :
    (w s : Text) → no_slash w ≡ true → split_slash (w ++ slash ∷ s) ≡ w ∷ split_slash s
unfolding split_slash split_cons
split_slash-append [] s h = refl
split_slash-append (r ∷ w) s h = ground (arith, split_slash-append w s)

split_slash-plain : (w : Text) → no_slash w ≡ true → split_slash w ≡ w ∷ []
unfolding split_slash split_cons
split_slash-plain [] h = refl
split_slash-plain (r ∷ w) h = ground (arith, split_slash-plain w)

pub split_slash-join :
    (w : Text) (ws : List Text)
    → all no_slash (w ∷ ws) ≡ true
    → split_slash (join (slash ∷ []) (w ∷ ws)) ≡ w ∷ ws
split_slash-join w [] h = unfold join in split_slash-plain w (ground arith)
split_slash-join w (v ∷ ws) h = split_slash_step (split_slash-join v ws (ground arith))
  where
    split_slash_step :
        split_slash (join (slash ∷ []) (v ∷ ws)) ≡ v ∷ ws
        → split_slash (join (slash ∷ []) (w ∷ v ∷ ws)) ≡ w ∷ v ∷ ws
    split_slash_step ih =
        unfold join in split_slash-append w _ (ground arith) ∙ ap (λ (us : List Text). w ∷ us) ih

abbrev pub all_filled : List Text → Bool
all_filled ws = all (λ w. not (is_empty w)) ws

abbrev pub later_filled : List Text → Bool
later_filled [] = true
later_filled (w ∷ ws) = all_filled ws

-- No empty part in a text; `prev` says that a "/" stands just before.
pub parts_filled : Bool → Text → Bool
parts_filled prev [] = not prev
parts_filled prev (r ∷ s) =
    if r == slash then not prev && parts_filled true s else parts_filled false s

split_slash-filled :
    (s : Text)
    → (parts_filled true s ≡ all_filled (split_slash s))
      × (parts_filled false s ≡ later_filled (split_slash s))
unfolding parts_filled split_slash
split_slash-filled [] = (refl, refl)
split_slash-filled (r ∷ s) = let (h, k) = split_slash-filled s in filled_cons (split_slash s) h k
  where
    filled_cons :
        (ws : List Text)
        → parts_filled true s ≡ all_filled ws
        → parts_filled false s ≡ later_filled ws
        → ((if r == slash then false else parts_filled false s)
            ≡ all_filled (if r == slash then [] ∷ ws else split_cons r ws))
          × ((if r == slash then parts_filled true s else parts_filled false s)
              ≡ later_filled (if r == slash then [] ∷ ws else split_cons r ws))
    filled_cons [] h k = unfold split_cons in ground arith
    filled_cons (w ∷ ws) h k = unfold split_cons in ground arith

pub split_slash-all_filled : (s : Text) → parts_filled true s ≡ all_filled (split_slash s)
split_slash-all_filled s = (split_slash-filled s).0

-- The tests for "//" and for a "/" at the end find the empty parts.
pub parts_filled_lem :
    (r : ℕ) (s : Text)
    → (not (contains (r ∷ s) (slash ∷ slash ∷ [])) && not (has_suffix (r ∷ s) (slash ∷ [])))
      ≡ parts_filled (r == slash) s
unfolding parts_filled contains has_suffix has_prefix text_eq
parts_filled_lem r [] = ground arith
parts_filled_lem r (a ∷ s) = ground (arith, parts_filled_lem a s)
