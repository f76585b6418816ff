-- ===== src/Engine/Effect.antt =====
-- What a tool call may do to the store, stated without the handlers: nodes are born, and nodes
-- grow.
use diff_mem.Prelude.{
  ◌≡◌, refl, sym, ap, ◌∙◌, true, false, none, some, List, [], ◌++◌, arith, length, append_assoc,
  append-nil, Bool-cases, inl, inr, ◌⊎◌, subst,
}
use diff_mem.Text.{Text, lit, text_eq}
use diff_mem.Text.Laws.{text_eq_iff}
use diff_mem.Dict.{lookup}
use diff_mem.Model.{Node, Event}
use diff_mem.Env.{Env}
use diff_mem.Validator.{validate_path}
use diff_mem.Store.{Store, IsStore}

-- `n'` is a later state of `n`: the identity is the same, and events are only appended.
pub record Extends (n n' : Node) : Type 0 where
  pub path : n'.path ≡ n.path
  pub title : n'.title ≡ n.title
  pub tags : n'.tags ≡ n.tags
  pub created_at : n'.created_at ≡ n.created_at
  pub added : List Event
  pub events : n'.events ≡ n.events ++ added

pub Extends-refl : (n : Node) → Extends n n
Extends-refl n = record {
  path = refl;
  title = refl;
  tags = refl;
  created_at = refl;
  added = [];
  events = sym (append-nil n.events);
}

pub Extends-trans : {a b c : Node} → Extends a b → Extends b c → Extends a c
Extends-trans {a} {b} {c} h k = record {
  path = k.path ∙ h.path;
  title = k.title ∙ h.title;
  tags = k.tags ∙ h.tags;
  created_at = k.created_at ∙ h.created_at;
  added = h.added ++ k.added;
  events =
      k.events
      ∙ ap (λ (evs : List Event). evs ++ k.added) h.events
      ∙ append_assoc a.events h.added k.added;
}

module _ (env : Env) where
  -- What every stored node satisfies.
  pub record IsGood (n : Node) : Type 0 where
    pub valid : validate_path env.unicode n.path ≡ none
    pub counted : n.event_count ≡ length n.events
    pub no_status : lookup (lit "status") n.fields ≡ none
    pub no_summary : lookup (lit "summary") n.fields ≡ none
    pub has_fields : n.nil_fields ≡ false

module _ {Db : Type 0} (st : Store Db) (env : Env) where
  -- One write: a node where there was none, or a later state of the node that is there.
  pub data Write (db : Db) : Db → Type 0 where
    born : (n : Node) → st.get_node n.path db ≡ none → IsGood env n → Write db (st.put_node n db)
    grown :
        (n n' : Node)
        → st.get_node n.path db ≡ some n
        → Extends n n'
        → (IsGood env n → IsGood env n')
        → Write db (st.put_node n' db)

  pub data Writes (db : Db) : Db → Type 0 where
    done : Writes db db
    next : {mid last : Db} → Writes db mid → Write mid last → Writes db last

  pub Writes-one : {db last : Db} → Write db last → Writes db last
  Writes-one w = next done w

  pub Writes-trans : {a b c : Db} → Writes a b → Writes b c → Writes a c
  Writes-trans h done = h
  Writes-trans h (next k w) = next (Writes-trans h k) w

module _ {Db : Type 0} (st : Store Db) (laws : IsStore st) (env : Env) where
  -- The invariant of the store: every node stands under its own path, and is good.
  pub record IsWellFormed (db : Db) : Type 0 where
    pub valid : laws.IsValid db
    pub keyed : (p : Text) (n : Node) → st.get_node p db ≡ some n → n.path ≡ p
    pub good : (p : Text) (n : Node) → st.get_node p db ≡ some n → IsGood env n

  -- A node that was put is found at its path.
  pub get-put_self :
      (p : Text) (n : Node) (db : Db) → n.path ≡ p → st.get_node p (st.put_node n db) ≡ some n
  get-put_self p n db at_p = ground (arith, laws.get-put n db p, text_eq_iff n.path p)

  put-IsWellFormed :
      (n : Node) {db : Db} → IsWellFormed db → IsGood env n → IsWellFormed (st.put_node n db)
  put-IsWellFormed n {db} h g = record {
    valid = laws.put-IsValid n db h.valid;
    keyed = λ p m e. ground (arith, laws.get-put n db p, text_eq_iff n.path p, h.keyed p m);
    good = λ p m e. good_at p m (Bool-cases (text_eq n.path p)) e;
  }
    where
      good_at :
          (p : Text) (m : Node)
          → (text_eq n.path p ≡ true) ⊎ (text_eq n.path p ≡ false)
          → st.get_node p (st.put_node n db) ≡ some m
          → IsGood env m
      good_at p m (inl same) e =
          let eq : n ≡ m = ground (arith, laws.get-put n db p) in subst (IsGood env) eq g
      good_at p m (inr other) e = h.good p m (ground (arith, laws.get-put n db p))

  pub delete-IsWellFormed :
      (q : Text) {db : Db} → IsWellFormed db → IsWellFormed (st.delete_node q db)
  delete-IsWellFormed q {db} h = record {
    valid = laws.delete-IsValid q db h.valid;
    keyed = λ p m e. h.keyed p m (ground (arith, laws.get-delete q db p));
    good = λ p m e. h.good p m (ground (arith, laws.get-delete q db p));
  }

  Write-IsWellFormed : {db last : Db} → Write st env db last → IsWellFormed db → IsWellFormed last
  Write-IsWellFormed (born n free g) h = put-IsWellFormed n h g
  Write-IsWellFormed (grown n n' found ext keep) h =
      put-IsWellFormed n' h (keep (h.good n.path n found))

  pub Writes-IsWellFormed :
      {db last : Db} → Writes st env db last → IsWellFormed db → IsWellFormed last
  Writes-IsWellFormed done h = h
  Writes-IsWellFormed (next ws w) h = Write-IsWellFormed w (Writes-IsWellFormed ws h)

  -- The node at `p` afterwards is a later state of the node before.
  abbrev pub Survives : Text → Node → Db → Type 0
  Survives p n db = (n' : Node) × (st.get_node p db ≡ some n') × Extends n n'

  put-Survives :
      (p : Text) (n m : Node) (db : Db)
      → st.get_node p db ≡ some n
      → (text_eq m.path p ≡ true → Extends n m)
      → Survives p n (st.put_node m db)
  put-Survives p n m db e ext = elim (Bool-cases (text_eq m.path p)) [
    | inl same ↦ (m, ground (arith, laws.get-put m db p), ext same)
    | inr other ↦ (n, ground (arith, laws.get-put m db p), Extends-refl n)
  ]

  Write-Survives :
      {db last : Db} (p : Text) (n : Node)
      → Write st env db last
      → st.get_node p db ≡ some n
      → Survives p n last
  Write-Survives {db} p n (born m free g) e =
      put-Survives p n m db e (λ same. absurd (clash ((text_eq_iff m.path p).0 same)))
    where
      clash : m.path ≡ p → ⊥
      clash eq = cc (free, e, ap (λ q. st.get_node q db) eq)
  Write-Survives {db} p n (grown m m' found ext keep) e = put-Survives p n m' db e λ same.
      let eq : m ≡ n =
        cc (found, e, ap (λ q. st.get_node q db) (sym ext.path ∙ (text_eq_iff m'.path p).0 same)) in
      subst (λ (x : Node). Extends x m') eq ext

  -- Whatever is written, a node stays, with its identity and all its events.
  pub Writes-Survives :
      {db last : Db} (p : Text) (n : Node)
      → Writes st env db last
      → st.get_node p db ≡ some n
      → Survives p n last
  Writes-Survives p n done e = (n, e, Extends-refl n)
  Writes-Survives p n (next ws w) e =
      let (m, found, ext) = Writes-Survives p n ws e in
      let (m', found', ext') = Write-Survives p m w found in (m', found', Extends-trans ext ext')
