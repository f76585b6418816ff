-- ===== src/Dict/Laws.antt =====
-- The laws of `Dict`, without side conditions.
use diff_mem.Prelude.{
  ◌≡◌, refl, subst, All, Bool-cases, inl, inr, none, some, [], ◌∷◌, arith, if◌then◌else◌, is_some,
}
use diff_mem.Text.{Text, text_eq, member}
use diff_mem.Text.Laws.{text_eq_iff}
use diff_mem.Dict.{Dict, lookup, insert, remove, keys}

module _ {ℓ} {V : Type ℓ} where
  pub lookup-insert :
      (k j : Text) (v : V) (m : Dict V)
      → lookup j (insert k v m) ≡ (if text_eq k j then some v else lookup j m)
  unfolding lookup insert
  lookup-insert k j v [] = refl
  lookup-insert k j v ((i, w) ∷ m) =
      ground (arith, text_eq_iff k j, text_eq_iff i k, text_eq_iff i j, lookup-insert k j v m)

  pub lookup-remove :
      (k j : Text) (m : Dict V) → lookup j (remove k m) ≡ (if text_eq k j then none else lookup j m)
  unfolding lookup remove
  lookup-remove k j [] = ground arith
  lookup-remove k j ((i, w) ∷ m) =
      ground (arith, text_eq_iff k j, text_eq_iff i k, text_eq_iff i j, lookup-remove k j m)

  -- The keys are those that are found.
  pub member-keys : (k : Text) (m : Dict V) → member k (keys m) ≡ is_some (lookup k m)
  unfolding lookup keys
  member-keys k [] = refl
  member-keys k ((j, v) ∷ m) = ground (arith, member-keys k m)

-- What holds of every entry of a map holds of what is found in it.
pub All-lookup :
    {V : Type 0} (P : Text → V → Type 0) (k : Text) (v : V) (m : Dict V)
    → All (λ (kv : Text × V). P kv.0 kv.1) m
    → lookup k m ≡ some v
    → P k v
unfolding lookup
All-lookup P k v [] h e = cc
All-lookup {V} P k v ((j, u) ∷ m) (first, h) e = elim (Bool-cases (text_eq j k)) [
  | inl same ↦
      let at_k : j ≡ k = ground (arith, text_eq_iff j k) in
      let is_v : u ≡ v = ground (arith) in
      subst (λ (x : Text). P x v) at_k (subst (λ (x : V). P j x) is_v first)
  | inr other ↦ All-lookup P k v m h (ground (arith))
]
