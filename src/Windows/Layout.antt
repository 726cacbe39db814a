-- ===== src/Windows/Layout.antt =====
-- apps/web/src/store/windows.ts: the operations on the place of a window and on what else it shows.
use opennas.Base.{
  ℕ, suc, String, Bool, true, false, not, Option, none, some, List, [], ◌∷◌, if◌then◌else◌, nat_eq,
  string_eq, list_eq, ℤ, pos, ◌-ℤ◌,
}
use opennas.Windows.Geometry.{
  Viewport, WindowRect, SnapZone, maximize, taskbar_h, make_rect, snap_rect, place_window,
  clamp_rect,
}
use opennas.Windows.Store.{WindowInstance, WindowStore, update}

abbrev pub full_rect : Viewport → WindowRect
full_rect v = make_rect (pos 0) taskbar_h v.inner_width (v.inner_height -ℤ taskbar_h)

abbrev pub maximized_window : Viewport → WindowInstance → WindowInstance
maximized_window v w = record w {
  maximized = true;
  animating = true;
  restore_rect = some w.rect;
  rect = full_rect v;
}

abbrev pub restored_window : WindowInstance → WindowRect → WindowInstance
restored_window w r = record w {
  maximized = false;
  animating = true;
  rect = r;
  restore_rect = none;
}

unfoldable pub toggle_window : Viewport → WindowInstance → WindowInstance
toggle_window v w =
    if not w.app.resizable
    then w
    else if w.maximized
    then elim w.restore_rect [ none ↦ maximized_window v w | some r ↦ restored_window w r ]
    else maximized_window v w

unfoldable pub toggle_maximize : Viewport → String → WindowStore → WindowStore
unfolding toggle_window
toggle_maximize v id = update id (toggle_window v)

-- The timer of `toggleMaximize` and of `snap`.
unfoldable pub settle : String → WindowStore → WindowStore
settle id = update id (λ w. record w { animating = false })

-- `{ ...w.rect, ...rect }`, where an absent coordinate stays.
pub record PartialRect : Type 0 where
  pub x : Option ℤ
  pub y : Option ℤ
  pub width : Option ℤ
  pub height : Option ℤ

abbrev pub or_old : ℤ → Option ℤ → ℤ
or_old old none = old
or_old old (some z) = z

unfoldable pub set_rect : String → PartialRect → WindowStore → WindowStore
set_rect id p = update id λ w. record w {
  rect =
      make_rect (or_old w.rect.x p.x) (or_old w.rect.y p.y) (or_old w.rect.width p.width)
        (or_old w.rect.height p.height);
  maximized = false;
  restore_rect = none;
}

unfoldable pub set_badge : String → Option ℕ → WindowStore → WindowStore
set_badge id badge = update id (λ w. record w { badge = badge })

unfoldable pub set_title : String → String → WindowStore → WindowStore
set_title id title = update id (λ w. record w { title = title })

unfoldable pub set_launcher : Bool → WindowStore → WindowStore
set_launcher shown s = record s {
  launcher_open = shown;
  search_open = if shown then false else s.search_open;
}

unfoldable pub set_search : Bool → WindowStore → WindowStore
set_search shown s = record s {
  search_open = shown;
  launcher_open = if shown then false else s.launcher_open;
}

abbrev pub is_maximize : SnapZone → Bool
is_maximize maximize = true
is_maximize other = false

abbrev pub restore_point : WindowInstance → WindowRect
restore_point w = elim w.restore_rect [ none ↦ w.rect | some r ↦ r ]

unfoldable pub snap : Viewport → String → SnapZone → WindowStore → WindowStore
snap v id zone = update id λ w. if not w.app.resizable then w else record w {
  maximized = is_maximize zone;
  animating = true;
  restore_rect = some (restore_point w);
  rect = snap_rect v zone;
}

abbrev pub reflow_window : Viewport → Bool → ℕ → WindowInstance → WindowInstance
reflow_window v leaving_phone index w =
    if leaving_phone
    then record w { rect = place_window v w.app index; maximized = false }
    else if w.maximized
    then record w { rect = snap_rect v maximize }
    else record w { rect = clamp_rect v w.rect }

-- `map` with the index.
unfoldable pub reflow_from : Viewport → Bool → ℕ → List WindowInstance → List WindowInstance
reflow_from v leaving_phone index [] = []
reflow_from v leaving_phone index (w ∷ ws) =
    reflow_window v leaving_phone index w ∷ reflow_from v leaving_phone (suc index) ws

unfoldable pub reflow : Viewport → Bool → WindowStore → WindowStore
reflow v leaving_phone s =
    if v.is_phone then s else record s { windows = reflow_from v leaving_phone 0 s.windows }
