-- ===== src/Windows/Geometry.antt =====
-- apps/web/src/store/windows.ts: where a window stands. Coordinates are whole pixels, and the browser's
-- viewport is an argument.
use opennas.Base.{
  ℕ, ◌*◌, ◌%◌, String, Bool, if◌then◌else◌, ℤ, pos, ◌+ℤ◌, ◌-ℤ◌, min_int, max_int, round_half,
}

pub record Viewport : Type 0 where
  pub inner_width : ℤ
  pub inner_height : ℤ
  pub is_phone : Bool

pub record WindowRect : Type 0 where
  pub x : ℤ
  pub y : ℤ
  pub width : ℤ
  pub height : ℤ

-- What the store reads of an app's manifest.
pub record AppManifest : Type 0 where
  pub id : String
  pub name : String
  pub default_width : ℤ
  pub default_height : ℤ
  pub resizable : Bool

pub data SnapZone : Type 0 where
  left right top_left top_right bottom_left bottom_right maximize : SnapZone

abbrev pub taskbar_h : ℤ
taskbar_h = pos 48

abbrev pub make_rect : ℤ → ℤ → ℤ → ℤ → WindowRect
make_rect x y width height = record { x = x; y = y; width = width; height = height }

unfoldable pub phone_rect : Viewport → WindowRect
phone_rect v = make_rect (pos 0) (pos 0) v.inner_width (v.inner_height -ℤ taskbar_h)

abbrev pub zone_rect : ℤ → ℤ → ℤ → ℤ → SnapZone → WindowRect
zone_rect vw vh half_w half_h left = make_rect (pos 0) taskbar_h half_w vh
zone_rect vw vh half_w half_h right = make_rect (vw -ℤ half_w) taskbar_h half_w vh
zone_rect vw vh half_w half_h top_left = make_rect (pos 0) taskbar_h half_w half_h
zone_rect vw vh half_w half_h top_right = make_rect (vw -ℤ half_w) taskbar_h half_w half_h
zone_rect vw vh half_w half_h bottom_left =
    make_rect (pos 0) (taskbar_h +ℤ vh -ℤ half_h) half_w half_h
zone_rect vw vh half_w half_h bottom_right =
    make_rect (vw -ℤ half_w) (taskbar_h +ℤ vh -ℤ half_h) half_w half_h
zone_rect vw vh half_w half_h maximize = make_rect (pos 0) taskbar_h vw vh

unfoldable pub snap_rect : Viewport → SnapZone → WindowRect
unfolding phone_rect
snap_rect v zone =
    let vw = v.inner_width in
    let vh = v.inner_height -ℤ taskbar_h in
    if v.is_phone then phone_rect v else zone_rect vw vh (round_half vw) (round_half vh) zone

-- The cascade of new windows.
unfoldable pub place_window : Viewport → AppManifest → ℕ → WindowRect
unfolding phone_rect
place_window v app index =
    let vw = v.inner_width in
    let vh = v.inner_height -ℤ taskbar_h in
    let width = min_int app.default_width (vw -ℤ pos 40) in
    let height = min_int app.default_height (vh -ℤ pos 40) in
    let offset = pos (index % 6 * 28) in
    if v.is_phone
    then phone_rect v
    else make_rect (max_int (pos 16) (round_half (vw -ℤ width) -ℤ pos 80 +ℤ offset))
        (max_int (taskbar_h +ℤ pos 16) (round_half (vh -ℤ height) +ℤ offset)) width height

-- A rectangle that `reflow` moves back into reach.
unfoldable pub clamp_rect : Viewport → WindowRect → WindowRect
clamp_rect v r =
    make_rect (max_int (pos 0) (min_int r.x (v.inner_width -ℤ pos 80)))
      (max_int taskbar_h (min_int r.y (v.inner_height -ℤ pos 40))) (min_int r.width v.inner_width)
      (min_int r.height (v.inner_height -ℤ taskbar_h))
