-- ===== src/Text/Laws.antt =====
-- The tests on texts: equality, prefix and membership.
use diff_mem.Prelude.{
  ◌≡◌, ◌↔◌, refl, ap, Bool, true, ◌&&◌, ◌||◌, List, [], ◌∷◌, ◌++◌, arith, select,
}
use diff_mem.Text.{Text, text_eq, has_prefix, member}

pub text_eq_refl : (s : Text) → text_eq s s ≡ true
unfolding text_eq
text_eq_refl [] = refl
text_eq_refl (a ∷ s) = ground (arith, text_eq_refl s)

eq_of_text_eq : (s t : Text) → text_eq s t ≡ true → s ≡ t
unfolding text_eq
eq_of_text_eq [] [] h = refl
eq_of_text_eq [] (b ∷ t) h = cc
eq_of_text_eq (a ∷ s) [] h = cc
eq_of_text_eq (a ∷ s) (b ∷ t) h = ground (arith, eq_of_text_eq s t)

text_eq_of_eq : (s t : Text) → s ≡ t → text_eq s t ≡ true
text_eq_of_eq s t h = rw (← h) (text_eq_refl s)

pub text_eq_iff : (s t : Text) → (text_eq s t ≡ true) ↔ (s ≡ t)
text_eq_iff s t = (eq_of_text_eq s t, text_eq_of_eq s t)

pub text_eq_sym : (s t : Text) → text_eq s t ≡ text_eq t s
text_eq_sym s t = ground (arith, text_eq_iff s t, text_eq_iff t s)

-- A prefix is what the text begins with.
pub has_prefix_sound : (s p : Text) → has_prefix s p ≡ true → (r : Text) × (s ≡ p ++ r)
unfolding has_prefix
has_prefix_sound s [] h = (s, refl)
has_prefix_sound [] (b ∷ p) h = cc
has_prefix_sound (a ∷ s) (b ∷ p) h =
    let (r, e) = has_prefix_sound s p (ground arith) in (r, ground (arith, e))

pub has_prefix-append : (p r : Text) → has_prefix (p ++ r) p ≡ true
unfolding has_prefix
has_prefix-append [] [] = refl
has_prefix-append [] (a ∷ r) = refl
has_prefix-append (b ∷ p) r = ground (arith, has_prefix-append p r)

pub member-append :
    (t : Text) (us vs : List Text) → member t (us ++ vs) ≡ (member t us || member t vs)
member-append t [] vs = refl
member-append t (u ∷ us) vs = ground (arith, member-append t us vs)

-- Equal texts pass the same tests.
pub test_of_text_eq : (p : Text → Bool) (s t : Text) → text_eq s t ≡ true → p s ≡ p t
test_of_text_eq p s t h = ap p (eq_of_text_eq s t h)

-- What a filter keeps.
pub member-select :
    (p : Text → Bool) (t : Text) (us : List Text) → member t (select p us) ≡ (member t us && p t)
member-select p t [] = refl
member-select p t (u ∷ us) = ground (arith, member-select p t us, test_of_text_eq p u t)
