-- ===== src/Text/Sorted.antt =====
-- The order of texts and sort.Strings.
use diff_mem.Prelude.{◌≡◌, refl, true, false, ◌||◌, List, [], ◌∷◌, arith}
use diff_mem.Text.{Text, text_eq, text_lt, insert_sorted, sort, member}

pub member-insert_sorted :
    (t u : Text) (us : List Text) → member t (insert_sorted u us) ≡ (text_eq u t || member t us)
unfolding insert_sorted
member-insert_sorted t u [] = refl
member-insert_sorted t u (v ∷ us) = ground (arith, member-insert_sorted t u us)

pub member-sort : (t : Text) (us : List Text) → member t (sort us) ≡ member t us
unfolding sort
member-sort t [] = refl
member-sort t (u ∷ us) = ground (arith, member-insert_sorted t u (sort us), member-sort t us)

-- The order of texts is total and transitive.
pub text_lt_asym : (s t : Text) → text_lt s t ≡ true → text_lt t s ≡ false
unfolding text_lt
text_lt_asym [] [] h = refl
text_lt_asym [] (b ∷ t) h = refl
text_lt_asym (a ∷ s) [] h = cc
text_lt_asym (a ∷ s) (b ∷ t) h = ground (arith, text_lt_asym s t)

-- No neighbour is out of order.
abbrev pub IsSorted : List Text → Type 0
IsSorted [] = Unit
IsSorted (t ∷ []) = Unit
IsSorted (t ∷ u ∷ us) = (text_lt u t ≡ false) × IsSorted (u ∷ us)

insert_sorted-IsSorted : (t : Text) (us : List Text) → IsSorted us → IsSorted (insert_sorted t us)
unfolding insert_sorted
insert_sorted-IsSorted t [] h = tt
insert_sorted-IsSorted t (u ∷ []) h = ground (arith, text_lt_asym u t)
insert_sorted-IsSorted t (u ∷ v ∷ us) (o, h) =
    ground (arith, text_lt_asym u t, insert_sorted-IsSorted t (v ∷ us) h)

-- The result of sort.Strings is sorted.
pub sort-IsSorted : (us : List Text) → IsSorted (sort us)
unfolding sort
sort-IsSorted [] = tt
sort-IsSorted (u ∷ us) = insert_sorted-IsSorted u (sort us) (sort-IsSorted us)
