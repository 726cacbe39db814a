-- ===== src/Windows/Focus.antt =====
-- Which window gets the focus when the one that has it goes away, and what a second click on maximize does.
use opennas.Base.{
  ◌≤◌, String, ◌≡◌, refl, sym, ap, ◌∙◌, ◌⊎◌, inl, inr, true, false, ◌&&◌, not, Option, none, some,
  List, [], ◌∷◌, arith, leb, Bool-cases, ◌==◌, nat_eq, string_eq, list_eq, length, keep, find, All,
  Any, All-keep_iff, All-map, Any-keep, keep_short,
}
use mathlib.Core.Path.{subst}
use opennas.Windows.Geometry.{Viewport}
use opennas.Windows.Store.{
  WindowInstance, WindowStore, change, has_id, find_window, is_focused, higher, top_of, top_most,
  close, minimize,
}
use opennas.Windows.Layout.{maximized_window, toggle_window, toggle_maximize}

abbrev IsHighest : List WindowInstance → WindowInstance → Type 0
IsHighest ws top = Any (λ w. w ≡ top) ws × All (λ w. w.z_index ≤ top.z_index) ws

higher-IsHighest :
    (top : WindowInstance) (ws : List WindowInstance) → IsHighest (top ∷ ws) (higher top ws)
unfolding higher
higher-IsHighest top [] = (inl refl, (omega arith, tt))
higher-IsHighest top (w ∷ ws) = elim (Bool-cases (leb w.z_index top.z_index)) [
  | inl low ↦
      let same : higher top (w ∷ ws) ≡ higher top ws = rw (low, higher) in
      let (found, most) = higher-IsHighest top ws in
      let below_top = most.0 in
      subst (IsHighest (top ∷ w ∷ ws)) (sym same) (
        elim found [ inl here ↦ inl here | inr later ↦ inr (inr later) ],
        (below_top, (ground arith, most.1)),
      )
  | inr high ↦
      let same : higher top (w ∷ ws) ≡ higher w ws = rw (high, higher) in
      let (found, most) = higher-IsHighest w ws in
      let below_w = most.0 in
      subst (IsHighest (top ∷ w ∷ ws)) (sym same) (inr found, (ground arith, most))
]

-- The window that comes forward: shown, and no other shown window is above it.
abbrev pub ComesForward : Option String → List WindowInstance → Type 0
ComesForward focused ws =
    ((focused ≡ none) × All (λ w. w.minimized ≡ true) ws)
    ⊎ ((top : WindowInstance) × (focused ≡ some top.id)
        × Any (λ w. (w ≡ top) × (w.minimized ≡ false)) ws
        × All (λ w. (w.minimized ≡ true) ⊎ (w.z_index ≤ top.z_index)) ws)

top_most-ComesForward : (ws : List WindowInstance) → ComesForward (top_most ws) ws
unfolding top_most
top_most-ComesForward ws = go (keep (λ w. not w.minimized) ws) refl
  where
    go :
        (us : List WindowInstance)
        → keep (λ w. not w.minimized) ws ≡ us
        → ComesForward (top_of us) ws
    go [] e =
        let short : length (keep (λ w. not w.minimized) ws) ≤ 0 = rw e (omega arith) in
        inl
          (refl, All-map _ _ (λ w h. ground arith) ws (keep_short (λ w. not w.minimized) ws short))
    go (u ∷ us) e =
        let top = higher u us in
        let (found, most) = subst (λ l. IsHighest l top) (sym e) (higher-IsHighest u us) in
        inr (
          top,
          refl,
          Any-keep (λ w. not w.minimized) (λ w shown same. (same, ground arith)) ws found,
          All-map _ _
              (λ w h. elim (Bool-cases w.minimized) [
                | inl hidden ↦ inl hidden
                | inr shown ↦ inr (h (ground arith))
              ])
              ws (All-keep_iff _ (λ w. not w.minimized) ws most),
        )

keep_twice :
    (id : String) (ws : List WindowInstance)
    → top_most (keep (λ w. not (w.id == id) && not w.minimized) ws)
      ≡ top_most (keep (λ w. not (w.id == id)) ws)
unfolding top_most
keep_twice id ws = ap top_of (twice ws)
  where
    twice :
        (ws : List WindowInstance)
        → keep (λ w. not w.minimized) (keep (λ w. not (w.id == id) && not w.minimized) ws)
          ≡ keep (λ w. not w.minimized) (keep (λ w. not (w.id == id)) ws)
    twice [] = refl
    twice (w ∷ ws) = ground (arith, twice ws)

-- If the window with the focus is closed or minimized, the focus goes to the highest of the other windows
-- that are shown, or to none if none of them is. If another window is, the focus stays.
pub close_focus :
    (id : String) (s : WindowStore)
    → ((minimize id s).focused_id ≡ (close id s).focused_id)
      × ((ComesForward (close id s).focused_id (keep (λ w. not (w.id == id)) s.windows)
            × (is_focused id s ≡ true))
          ⊎ (((close id s).focused_id ≡ s.focused_id) × (is_focused id s ≡ false)))
unfolding close minimize
close_focus id s = (
  refl,
  elim (Bool-cases (is_focused id s)) [
    | inl own ↦
        let same : (close id s).focused_id ≡ top_most (keep (λ w. not (w.id == id)) s.windows) =
          rw (own, close) (keep_twice id s.windows) in
        inl (
          subst (λ f. ComesForward f (keep (λ w. not (w.id == id)) s.windows)) (sym same)
              (top_most-ComesForward (keep (λ w. not (w.id == id)) s.windows)),
          own,
        )
    | inr other ↦ inr (rw (other, close), other)
  ],
)

find-change :
    (id : String) (f : WindowInstance → WindowInstance) (ws : List WindowInstance)
    {w : WindowInstance}
    → ((u : WindowInstance) → (f u).id ≡ u.id)
    → find (has_id id) ws ≡ some w
    → find (has_id id) (change id f ws) ≡ some (f w)
unfolding change
find-change id f [] same h = cc
find-change id f (u ∷ us) {w} same h = elim (Bool-cases (u.id == id)) [
  | inl here ↦
      let found : u ≡ w = let first = rw here at h in cc in
      let kept : ((f u).id == id) ≡ true = ap (λ t. t == id) (same u) ∙ here in
      rw (here, kept) (ap (λ t. some (f t)) found)
  | inr other ↦ rw (other, other) (find-change id f us same (rw other at h))
]

toggle_window-id : (v : Viewport) (w : WindowInstance) → (toggle_window v w).id ≡ w.id
unfolding toggle_window
toggle_window-id v w = ground arith

toggle_window_twice :
    (v v' : Viewport) (w : WindowInstance)
    → w.app.resizable ≡ true
    → w.maximized ≡ false
    → toggle_window v' (toggle_window v w) ≡ record w { animating = true; restore_rect = none }
unfolding toggle_window
toggle_window_twice v v' w h k =
    let first : toggle_window v w ≡ maximized_window v w = ground arith in
    ap (toggle_window v') first ∙ second
  where
    second :
        toggle_window v' (maximized_window v w) ≡ record w { animating = true; restore_rect = none }
    second = ground arith

-- Maximizing a window and restoring it puts it back where it was, also if the viewport has changed in
-- between, for a window that can be resized and is not maximized.
pub toggle_maximize_twice :
    (v v' : Viewport) (id : String) (s : WindowStore) (w : WindowInstance)
    → find_window id s ≡ some w
    → w.app.resizable ≡ true
    → w.maximized ≡ false
    → find_window id (toggle_maximize v' id (toggle_maximize v id s))
      ≡ some (record w { animating = true; restore_rect = none })
unfolding toggle_maximize
toggle_maximize_twice v v' id s w found h k =
    find-change id (toggle_window v') (change id (toggle_window v) s.windows) (toggle_window-id v')
      (find-change id (toggle_window v) s.windows (toggle_window-id v) found)
    ∙ ap some (toggle_window_twice v v' w h k)
