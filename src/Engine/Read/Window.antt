-- ===== src/Engine/Read/Window.antt =====
-- DeepLoad of internal/engine/read.go and its windows.
use diff_mem.Prelude.{
  ◌⊎◌, ℕ, ◌-◌, ◌≡◌, ◌↔◌, refl, sym, ap, false, some, List, [], ◌∷◌, ◌++◌, arith, inl, inr, length,
  take, ltb, take-append-drop, length-append, length-drop, if◌then◌else◌,
}
use diff_mem.Text.{Text, lit, text_eq}
use diff_mem.Links.{node_content_links}
use diff_mem.Model.{Event, Node, loaded, DeepLoadResult}
use diff_mem.Env.{Env}
use diff_mem.Store.{Store, IsStore}
use diff_mem.Engine.{Engine, success, take_last}
use diff_mem.Engine.Effect.{IsWellFormed}
use diff_mem.Engine.Read.{window_events, deep_load}

-- The last `n` events, or all if there are fewer.
pub take_last_lem :
    (events : List Event) (n : ℕ)
    → (before : List Event) × (events ≡ before ++ take_last events n)
      × (length (take_last events n) ≡ (if ltb (length events) n then length events else n))
unfolding take_last
take_last_lem events n = (
  take (length events - n) events,
  sym (take-append-drop (length events - n) events),
  ground (arith, length-drop (length events - n) events),
)

-- The windows of bounded size, each with the number of events that it shows at most.
abbrev pub IsWindow : Text → ℕ → Type 0
IsWindow window k =
    ((window ≡ lit "recent") × (k ≡ 5))
    ⊎ ((window ≡ lit "last_10") × (k ≡ 10))
    ⊎ ((window ≡ lit "last_50") × (k ≡ 50))
    ⊎ ((window ≡ lit "last_100") × (k ≡ 100))

window_events_lem :
    (window : Text) (k : ℕ) (events : List Event)
    → IsWindow window k
    → window_events window events ≡ some (take_last events k)
unfolding window_events text_eq lit
window_events_lem window k events (inl (w, e)) = rw (w, e) refl
window_events_lem window k events (inr (inl (w, e))) = rw (w, e) refl
window_events_lem window k events (inr (inr (inl (w, e)))) = rw (w, e) refl
window_events_lem window k events (inr (inr (inr (w, e)))) = rw (w, e) refl

nil_of_length :
    (before shown : List Event)
    → ltb (length shown) (length (before ++ shown)) ≡ false
    → before ≡ []
nil_of_length [] shown h = refl
nil_of_length (x ∷ before) shown h = absurd (ground (arith, length-append before shown))

module _ {Db : Type 0} (st : Store Db) (laws : IsStore st) (env : Env) where
  -- On a well-formed store, the windows recent, last_10, last_50 and last_100 of a stored node are
  -- answered with the last 5, 10, 50 and 100 events of its body, or with all if there are fewer,
  -- the number of all its events, and has_more false exactly if nothing stands before the ones
  -- shown.
  pub deep_load-IsEnd :
      (path window : Text) (k : ℕ) (e : Engine Db) (n : Node)
      → IsWellFormed st laws env e.store
      → st.get_node path e.store ≡ some n
      → IsWindow window k
      → (r : DeepLoadResult) × (before : List Event) × (deep_load st path window e
          ≡ success (loaded r))
        × (n.events ≡ before ++ r.events)
        × (length r.events ≡ (if ltb (length n.events) k then length n.events else k))
        × (r.total ≡ length n.events)
        × ((r.has_more ≡ false) ↔ (before ≡ []))
  unfolding deep_load
  deep_load-IsEnd path window k e n w found sized =
      let at = window_events_lem window k n.events sized in
      let shown = take_last n.events k in
      let (before, split, size) = take_last_lem n.events k in
      let counted = (w.good path n found).counted in
      (
        record {
          path = path;
          events = shown;
          total = n.event_count;
          has_more = ltb (length shown) n.event_count;
          links = node_content_links n;
        },
        before,
        rw (deep_load, found, at) refl,
        split,
        size,
        counted,
        (
          λ no_more. nil_of_length before shown (rw (sym split, sym counted) no_more),
          λ all_shown.
              ground
                (arith, counted, ap length split, length-append before shown, ap length all_shown),
        ),
      )

  -- On a well-formed store, the window all of a stored node is answered with every event of its
  -- body and with has_more false, however many events there are.
  pub deep_load-all :
      (path : Text) (e : Engine Db) (n : Node)
      → IsWellFormed st laws env e.store
      → st.get_node path e.store ≡ some n
      → (r : DeepLoadResult) × (deep_load st path (lit "all") e ≡ success (loaded r))
        × (r.events ≡ n.events)
        × (r.total ≡ length n.events)
        × (r.has_more ≡ false)
  unfolding deep_load window_events text_eq lit
  deep_load-all path e n h found =
      let counted = (h.good path n found).counted in
      let r : DeepLoadResult = record {
        path = path;
        events = n.events;
        total = n.event_count;
        has_more = ltb (length n.events) n.event_count;
        links = node_content_links n;
      } in
      (r, rw (found, deep_load) refl, refl, counted, ground (arith, counted))
