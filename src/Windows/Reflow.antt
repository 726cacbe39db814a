-- ===== src/Windows/Reflow.antt =====
-- Where `reflow` leaves the windows.
use mathlib.Core.Path.{subst}
use opennas.Base.{
  ℕ, suc, ◌+◌, ◌-◌, ◌*◌, ◌/◌, ◌%◌, ◌≤◌, min, ◌≡◌, sym, inl, inr, Bool, true, false, List, [], ◌∷◌,
  arith, if◌then◌else◌, Bool-cases, nat_eq, string_eq, list_eq, All, ℤ, pos, negsuc, ◌+ℤ◌, ◌-ℤ◌,
  ◌≤ℤ◌, min_int, max_int, round_half,
}
use opennas.Windows.Geometry.{
  Viewport, WindowRect, AppManifest, maximize, taskbar_h, snap_rect, place_window, clamp_rect,
}
use opennas.Windows.Store.{WindowInstance, WindowStore}
use opennas.Windows.Layout.{reflow_window, reflow_from, reflow}

-- The title bar is below the taskbar, and a corner of 80 by 40 pixels is on the screen.
pub record IsReachable (v : Viewport) (r : WindowRect) : Type 0 where
  pub left : pos 0 ≤ℤ r.x
  pub right : r.x +ℤ pos 80 ≤ℤ v.inner_width
  pub top : taskbar_h ≤ℤ r.y
  pub bottom : r.y +ℤ pos 40 ≤ℤ v.inner_height

-- A screen with room for a desktop.
pub record IsDesktop (v : Viewport) : Type 0 where
  pub no_phone : v.is_phone ≡ false
  pub wide : pos 768 ≤ℤ v.inner_width
  pub high : pos 312 ≤ℤ v.inner_height

clamp_rect-IsReachable :
    (v : Viewport) (r : WindowRect) → IsDesktop v → IsReachable v (clamp_rect v r)
unfolding clamp_rect
clamp_rect-IsReachable v r d = record {
  left = ground arith;
  right = ground arith;
  top = ground arith;
  bottom = ground arith;
}

maximize-IsReachable : (v : Viewport) → IsDesktop v → IsReachable v (snap_rect v maximize)
unfolding snap_rect
maximize-IsReachable v d =
    let desktop = d.no_phone in
    record { left = ground arith; right = ground arith; top = ground arith; bottom = ground arith }

-- One axis of `placeWindow`, for a screen of n pixels and a window of m.
abbrev centered : ℤ → ℤ → ℤ
centered room size = round_half (room -ℤ min_int size (room -ℤ pos 40))

centered_pos : (n m : ℕ) → 40 ≤ n → (c : ℕ) × (centered (pos n) (pos m) ≡ pos c) × (c ≤ (n + 1) / 2)
centered_pos n m h = ((n - min m (n - 40) + 1) / 2, ground arith, omega arith)

x_bounds :
    (vw size : ℤ) (o : ℕ)
    → pos 768 ≤ℤ vw
    → pos 0 ≤ℤ size
    → o ≤ 140
    → (pos 0 ≤ℤ max_int (pos 16) (centered vw size -ℤ pos 80 +ℤ pos o))
      × (max_int (pos 16) (centered vw size -ℤ pos 80 +ℤ pos o) +ℤ pos 80 ≤ℤ vw)
x_bounds (pos n) (pos m) o h k lt =
    let (c, e, small) = centered_pos n m (omega arith) in rw e (ground arith, ground arith)
x_bounds (negsuc n) size o h k lt = absurd (omega arith)
x_bounds (pos n) (negsuc m) o h k lt = absurd (omega arith)

y_bounds :
    (vh size : ℤ) (o : ℕ)
    → pos 312 ≤ℤ vh
    → pos 0 ≤ℤ size
    → o ≤ 140
    → (taskbar_h ≤ℤ max_int (taskbar_h +ℤ pos 16) (centered (vh -ℤ taskbar_h) size +ℤ pos o))
      × (max_int (taskbar_h +ℤ pos 16) (centered (vh -ℤ taskbar_h) size +ℤ pos o) +ℤ pos 40 ≤ℤ vh)
y_bounds (pos n) (pos m) o h k lt =
    let room : pos n -ℤ taskbar_h ≡ pos (n - 48) = ground arith in
    let (c, e, small) = centered_pos (n - 48) m (omega arith) in
    rw (room, e) (ground arith, ground arith)
y_bounds (negsuc n) size o h k lt = absurd (omega arith)
y_bounds (pos n) (negsuc m) o h k lt = absurd (omega arith)

unless_phone :
    (v : Viewport) (phone : Bool) (r t : WindowRect)
    → phone ≡ false
    → IsReachable v t
    → IsReachable v (if phone then r else t)
unless_phone v true r t h ok = cc
unless_phone v false r t h ok = ok

place_window-IsReachable :
    (v : Viewport) (app : AppManifest) (i : ℕ)
    → IsDesktop v
    → pos 0 ≤ℤ app.default_width
    → pos 0 ≤ℤ app.default_height
    → IsReachable v (place_window v app i)
unfolding place_window
place_window-IsReachable v app i d w h =
    let (left, right) =
      x_bounds v.inner_width app.default_width (i % 6 * 28) d.wide w (omega arith) in
    let (top, bottom) =
      y_bounds v.inner_height app.default_height (i % 6 * 28) d.high h (omega arith) in
    unless_phone v v.is_phone _ _ d.no_phone
      (record { left = left; right = right; top = top; bottom = bottom })

-- The sizes that an app's manifest asks for.
abbrev pub HasSize : WindowInstance → Type 0
HasSize w = (pos 0 ≤ℤ w.app.default_width) × (pos 0 ≤ℤ w.app.default_height)

reflow_window-IsReachable :
    (v : Viewport) (leaving : Bool) (i : ℕ) (w : WindowInstance)
    → IsDesktop v
    → HasSize w
    → IsReachable v (reflow_window v leaving i w).rect
reflow_window-IsReachable v true i w d h = place_window-IsReachable v w.app i d h.0 h.1
reflow_window-IsReachable v false i w d h = elim (Bool-cases w.maximized) [
  | inl full ↦
      let same : (reflow_window v false i w).rect ≡ snap_rect v maximize = ground arith in
      subst (IsReachable v) (sym same) (maximize-IsReachable v d)
  | inr small ↦
      let same : (reflow_window v false i w).rect ≡ clamp_rect v w.rect = ground arith in
      subst (IsReachable v) (sym same) (clamp_rect-IsReachable v w.rect d)
]

reflow_from-IsReachable :
    (v : Viewport) (leaving : Bool) (i : ℕ) (ws : List WindowInstance)
    → IsDesktop v
    → All HasSize ws
    → All (λ w. IsReachable v w.rect) (reflow_from v leaving i ws)
unfolding reflow_from
reflow_from-IsReachable v leaving i [] d h = tt
reflow_from-IsReachable v leaving i (w ∷ ws) d h = (
  reflow_window-IsReachable v leaving i w d h.0,
  reflow_from-IsReachable v leaving (suc i) ws d h.1,
)

-- On a screen of at least 768 by 312 pixels every window can be reached after the viewport changed, wherever
-- it was before: its title bar is below the taskbar, and a corner of 80 by 40 pixels is on the screen,
-- whether it is placed anew, maximized or moved back. The sizes in the manifests are not negative.
pub reflow-IsReachable :
    (v : Viewport) (leaving_phone : Bool) (s : WindowStore)
    → IsDesktop v
    → All HasSize s.windows
    → All (λ w. IsReachable v w.rect) (reflow v leaving_phone s).windows
unfolding reflow
reflow-IsReachable v leaving_phone s d h = go v.is_phone d.no_phone
  where
    go :
        (phone : Bool)
        → phone ≡ false
        → All
            (λ w. IsReachable v w.rect)
            (if phone
              then s
              else record s { windows = reflow_from v leaving_phone 0 s.windows }).windows
    go true e = cc
    go false e = reflow_from-IsReachable v leaving_phone 0 s.windows d h
