-- ===== src/Validator/Path.antt =====
-- ValidatePath of internal/validator/validator.go against the form of a path.
use diff_mem.Prelude.{
  ℕ, ◌≤◌, ◌≡◌, ◌≢◌, ◌↔◌, refl, sym, ap, ◌∙◌, subst, true, false, not, ◌&&◌, none, List, [], ◌∷◌,
  arith, ◌⊎◌, all, All, length,
}
use diff_mem.Text.{
  Text, slash, lit, text_eq, is_empty, byte_length, has_prefix, has_suffix, contains, trim_prefix,
  split_slash, join,
}
use diff_mem.Text.Laws.{text_eq_iff}
use diff_mem.Env.{Unicode}
use diff_mem.Validator.{
  first_segment, is_path_rune, check_runes, check_segments, check_depth, validate_path,
}
use diff_mem.Validator.Segments.{
  no_slash, join-split_slash, split_slash-no_slash, split_slash-join, parts_filled_lem,
  split_slash-all_filled, all_filled,
}

module _ (u : Unicode) where
  -- A name in a path: not empty, at most 100 bytes, of valid characters, without "/".
  pub record IsName (w : Text) : Type 0 where
    pub filled : w ≢ []
    pub short : byte_length w ≤ 100
    pub runes : All (λ r. is_path_rune u r ≡ true) w
    pub plain : All (λ r. r ≢ slash) w

  -- "/" root "/" name … with one to five names.
  pub record IsPath (path : Text) : Type 0 where
    pub root : Text
    pub names : List Text
    pub spelled : path ≡ slash ∷ join (slash ∷ []) (root ∷ names)
    pub rooted : (root ≡ lit "short-term") ⊎ (root ≡ lit "long-term")
    pub some_name : 1 ≤ length names
    pub five_names : length names ≤ 5
    pub valid : All IsName (root ∷ names)

  runes_iff : (s : Text) → (check_runes u s ≡ none) ↔ All (λ r. is_path_rune u r ≡ true) s
  unfolding check_runes
  runes_iff [] = (λ h. tt, λ h. refl)
  runes_iff (r ∷ s) =
      let (sound, complete) = runes_iff s in
      (λ h. (ground arith, sound (ground arith)), λ h. let e = complete h.1 in ground (arith, h.0))

  no_slash_iff : (s : Text) → (no_slash s ≡ true) ↔ All (λ r. r ≢ slash) s
  no_slash_iff [] = (λ h. tt, λ h. refl)
  no_slash_iff (r ∷ s) =
      let (sound, complete) = no_slash_iff s in
      (λ h. (ground arith, sound (ground arith)), λ h. let e = complete h.1 in ground (arith, h.0))

  check_segments_sound :
      (ws : List Text)
      → check_segments u ws ≡ none
      → all_filled ws ≡ true
      → all no_slash ws ≡ true
      → All IsName ws
  unfolding check_segments
  check_segments_sound [] h f n = tt
  check_segments_sound (w ∷ ws) h f n = (
    record {
      filled = filled_of w (ground arith);
      short = ground arith;
      runes = (runes_iff w).0 (ground arith);
      plain = (no_slash_iff w).0 (ground arith);
    },
    check_segments_sound ws (ground arith) (ground arith) (ground arith),
  )
    where
      filled_of : (v : Text) → is_empty v ≡ false → v ≢ []
      filled_of [] e = cc
      filled_of (r ∷ v) e = cc

  check_segments_complete :
      (ws : List Text)
      → All IsName ws
      → (check_segments u ws ≡ none) × (all_filled ws ≡ true) × (all no_slash ws ≡ true)
  unfolding check_segments
  check_segments_complete [] h = (refl, refl, refl)
  check_segments_complete (w ∷ ws) (n, h) =
      let (a, b, c) = check_segments_complete ws h in
      let r = (runes_iff w).1 n.runes in
      let s = (no_slash_iff w).1 n.plain in
      let f = not_empty w n.filled in let l = n.short in (ground arith, ground arith, ground arith)
    where
      not_empty : (v : Text) → v ≢ [] → is_empty v ≡ false
      not_empty [] e = absurd (e refl)
      not_empty (x ∷ v) e = refl

  depth_sound :
      (path : Text) (ws : List Text)
      → check_depth u ws ≡ none
      → all_filled ws ≡ true
      → all no_slash ws ≡ true
      → path ≡ slash ∷ join (slash ∷ []) ws
      → IsPath path
  unfolding check_depth first_segment
  depth_sound path [] h f n e = absurd (ground arith)
  depth_sound path (root ∷ names) h f n e = record {
    root = root;
    names = names;
    spelled = e;
    rooted =
        ground (arith, text_eq_iff (lit "short-term") root, text_eq_iff (lit "long-term") root);
    some_name = ground arith;
    five_names = ground arith;
    valid = check_segments_sound (root ∷ names) (ground arith) f n;
  }

  slash_sound :
      (s : Text)
      → check_depth u (split_slash s) ≡ none
      → (has_suffix (slash ∷ s) (slash ∷ []) && not (text_eq (slash ∷ s) (slash ∷ []))) ≡ false
      → contains (slash ∷ s) (slash ∷ slash ∷ []) ≡ false
      → IsPath (slash ∷ s)
  slash_sound [] h c d = absurd (unfold check_depth split_slash first_segment in ground arith)
  slash_sound (a ∷ s) h c d =
      let end : has_suffix (slash ∷ a ∷ s) (slash ∷ []) ≡ false = unfold text_eq in ground arith in
      depth_sound (slash ∷ a ∷ s) (split_slash (a ∷ s)) h
        (sym (split_slash-all_filled (a ∷ s)) ∙ sym (parts_filled_lem slash (a ∷ s)) ∙ ground arith)
        (split_slash-no_slash (a ∷ s))
        (ap (λ (t : Text). slash ∷ t) (sym (join-split_slash (a ∷ s))))

  validate_path_sound : (path : Text) → validate_path u path ≡ none → IsPath path
  unfolding validate_path trim_prefix has_prefix
  validate_path_sound [] h = cc
  validate_path_sound (r ∷ s) h =
      let e : r ≡ slash = ground arith in
      subst (λ x. IsPath (x ∷ s)) (sym e)
        (slash_sound s (at_slash r e h).0 (at_slash r e h).1 (at_slash r e h).2)
    where
      at_slash :
          (x : ℕ)
          → x ≡ slash
          → validate_path u (x ∷ s) ≡ none
          → (check_depth u (split_slash s) ≡ none)
            × ((has_suffix (slash ∷ s) (slash ∷ []) && not (text_eq (slash ∷ s) (slash ∷ [])))
                ≡ false)
            × (contains (slash ∷ s) (slash ∷ slash ∷ []) ≡ false)
      at_slash x eq k = ground (
        arith,
        ap (λ y. has_suffix (y ∷ s) (slash ∷ [])) eq,
        ap (λ y. text_eq (y ∷ s) (slash ∷ [])) eq,
        ap (λ y. contains (y ∷ s) (slash ∷ slash ∷ [])) eq,
      )

  validate_path_complete : (path : Text) → IsPath path → validate_path u path ≡ none
  unfolding validate_path trim_prefix has_prefix check_depth first_segment
  validate_path_complete path p =
      let ws = p.root ∷ p.names in
      let (checked, filled, plain) = check_segments_complete ws p.valid in
      let s = join (slash ∷ []) ws in
      let split : split_slash s ≡ ws = split_slash-join p.root p.names plain in
      rw p.spelled (
        ground (
          arith,
          split,
          checked,
          parts_filled_lem slash s,
          split_slash-all_filled s ∙ ap all_filled split ∙ filled,
          p.rooted,
          p.some_name,
          p.five_names,
          text_eq_iff (lit "short-term") p.root,
          text_eq_iff (lit "long-term") p.root,
        ))

  -- ValidatePath accepts exactly the paths that are spelled as a slash and the names, joined by
  -- slashes, of a memory root and one to five more, each not empty, at most 100 bytes long, and of
  -- letters, digits, dashes, underscores and Han characters.
  pub validate_path_iff : (path : Text) → (validate_path u path ≡ none) ↔ IsPath path
  validate_path_iff path = (validate_path_sound path, validate_path_complete path)
