-- ===== src/Engine/Gate.antt =====
-- The write-side link gate, `validateContentLinks` of internal/engine/links.go.
use diff_mem.Prelude.{
  ◌≡◌, refl, ap, ◌∙◌, ◌↔◌, Bool, true, false, ◌&&◌, Option, none, some, List, [], ◌∷◌, ◌++◌, ◌⊎◌,
  inl, inr, arith, any, Bool-cases,
}
use diff_mem.Text.{Text, slash, trim_slash, text_eq, has_prefix, member}
use diff_mem.Text.Laws.{
  text_eq_iff, text_eq_refl, test_of_text_eq, has_prefix_sound, has_prefix-append,
}
use diff_mem.Model.{ToolResponse, Node}
use diff_mem.Links.{is_self_or_ancestor}
use diff_mem.Store.{Store}
use diff_mem.Engine.{resolves, is_virtual_dir, gate_targets, all_targets, validate_content_links}

-- A response that a check gives is a success; no response is none.
abbrev pub succeeds : Option ToolResponse → Bool
succeeds none = false
succeeds (some r) = r.success

any-split {ℓ} :
    {A : Type ℓ} (p : A → Bool) (xs : List A)
    → any p xs ≡ true
    → (front : List A) × (x : A) × (back : List A) × (xs ≡ front ++ x ∷ back) × (p x ≡ true)
any-split p [] h = cc
any-split p (x ∷ xs) h = elim (Bool-cases (p x)) [
  | inl here ↦ ([], x, xs, refl, here)
  | inr not_here ↦
      let (front, y, back, split, at_y) = any-split p xs (ground arith) in
      (x ∷ front, y, back, ap (λ ys. x ∷ ys) split, at_y)
]

any-middle {ℓ} :
    {A : Type ℓ} (p : A → Bool) (front : List A) (x : A) (back : List A)
    → p x ≡ true
    → any p (front ++ x ∷ back) ≡ true
any-middle p [] x back h = ground arith
any-middle p (y ∷ front) x back h = ground (arith, any-middle p front x back h)

module _ {Db : Type 0} (st : Store Db) (self : Text) (db : Db) where
  gate_targets-fails : (seen ts : List Text) → succeeds (gate_targets st self db seen ts) ≡ false
  unfolding gate_targets
  gate_targets-fails seen [] = refl
  gate_targets-fails seen (t ∷ ts) =
      ground (arith, gate_targets-fails (t ∷ seen) ts, gate_targets-fails seen ts)

  -- A target that passes: an absolute path that resolves.
  abbrev pub passes : Text → Bool
  passes t = has_prefix t (slash ∷ []) && resolves st self t db

  gate_targets-passes :
      (seen ts : List Text) (t : Text)
      → gate_targets st self db seen ts ≡ none
      → member t ts ≡ true
      → member t seen ≡ false
      → passes t ≡ true
  unfolding gate_targets
  gate_targets-passes seen [] t h m fresh = cc
  gate_targets-passes seen (u ∷ ts) t h m fresh = ground (
    arith,
    test_of_text_eq passes u t,
    test_of_text_eq (λ x. member x seen) u t,
    gate_targets-passes (u ∷ seen) ts t,
    gate_targets-passes seen ts t,
  )

  gate_targets-open :
      (seen ts : List Text)
      → ((t : Text) → member t ts ≡ true → passes t ≡ true)
      → gate_targets st self db seen ts ≡ none
  unfolding gate_targets
  gate_targets-open seen [] h = refl
  gate_targets-open seen (u ∷ ts) h =
      let later = λ (t : Text) (m : member t ts ≡ true). h t (ground arith) in
      ground (
        arith,
        h u (ground (arith, text_eq_refl u)),
        gate_targets-open (u ∷ seen) ts later,
        gate_targets-open seen ts later,
      )

  pub validate_content_links-fails :
      (contents : List Text) → succeeds (validate_content_links st self contents db) ≡ false
  unfolding validate_content_links
  validate_content_links-fails contents = gate_targets-fails [] (all_targets contents)

  -- A target that a link may have: the node itself, a directory above it, a stored node, or a
  -- directory that has a stored node below it.
  abbrev pub IsLinkable : Text → Type 0
  IsLinkable t =
      (t ≡ self)
      ⊎ ((below : Text) × (self ≡ (trim_slash t ++ slash ∷ []) ++ below))
      ⊎ (st.has_node t db ≡ true)
      ⊎ ((front : List Node) × (n : Node) × (back : List Node) × (below : Text) × (st.all_nodes db
            ≡ front ++ n ∷ back)
          × (n.path ≡ (trim_slash t ++ slash ∷ []) ++ below))

  resolves_iff : (t : Text) → (resolves st self t db ≡ true) ↔ IsLinkable t
  unfolding resolves is_self_or_ancestor is_virtual_dir
  resolves_iff t = (to, from)
    where
      dir : Text
      dir = trim_slash t ++ slash ∷ []

      to : resolves st self t db ≡ true → IsLinkable t
      to h = elim (Bool-cases (text_eq t self)) [
        | inl same ↦ inl ((text_eq_iff t self).0 same)
        | inr n0 ↦ elim (Bool-cases (has_prefix self dir)) [
          | inl above ↦ inr (inl (has_prefix_sound self dir above))
          | inr n1 ↦ elim (Bool-cases (st.has_node t db)) [
            | inl stored ↦ inr (inr (inl stored))
            | inr n2 ↦
                let (front, n, back, split, at_n) =
                  any-split (λ n. has_prefix n.path dir) (st.all_nodes db) (ground arith) in
                let (below, e) = has_prefix_sound n.path dir at_n in
                inr (inr (inr (front, n, back, below, split, e)))
          ]
        ]
      ]

      from : IsLinkable t → resolves st self t db ≡ true
      from (inl same) = ground (arith, (text_eq_iff t self).1 same)
      from (inr (inl (below, e))) =
          ground (arith, ap (λ s. has_prefix s dir) e ∙ has_prefix-append dir below)
      from (inr (inr (inl stored))) = ground arith
      from (inr (inr (inr (front, n, back, below, split, e)))) =
          let at_n = ap (λ s. has_prefix s dir) e ∙ has_prefix-append dir below in
          ground (
            arith,
            ap (any (λ m. has_prefix m.path dir)) split
                ∙ any-middle (λ m. has_prefix m.path dir) front n back at_n,
          )

  -- The link gate passes exactly if every target of every content starts with a slash and is the
  -- node itself, a directory above it, a stored node, or a directory with a stored node below it.
  pub validate_content_links_iff :
      (contents : List Text)
      → (validate_content_links st self contents db ≡ none) ↔ (
          (t : Text)
          → member t (all_targets contents) ≡ true
          → (has_prefix t (slash ∷ []) ≡ true) × IsLinkable t)
  unfolding validate_content_links
  validate_content_links_iff contents = (
    λ h t m.
        let p = gate_targets-passes [] (all_targets contents) t h m refl in
        (ground arith, (resolves_iff t).0 (ground arith)),
    λ h. gate_targets-open [] (all_targets contents) (λ t m.
        let (absolute, linkable) = h t m in
        let found = (resolves_iff t).1 linkable in ground arith),
  )
