-- ===== src/Windows/Events.antt =====
-- apps/web/src/store/windows.ts: `cycle`, and all that happens to the store.
use opennas.Base.{
  ℕ, zero, suc, ◌+◌, ◌-◌, ◌%◌, String, Bool, ◌&&◌, not, Option, none, some, List, [], ◌∷◌, leb,
  if◌then◌else◌, ◌==◌, nat_eq, string_eq, list_eq, length, keep, is_empty,
}
use opennas.Windows.Geometry.{Viewport, AppManifest, SnapZone}
use opennas.Windows.Store.{
  WindowInstance, WindowStore, is_focused, open_app, close, remove, focus, minimize,
  toggle_minimize,
}
use opennas.Windows.Layout.{
  toggle_maximize, settle, PartialRect, set_rect, set_badge, set_title, set_launcher, set_search,
  snap, reflow,
}

-- `sort((a, b) => a.zIndex - b.zIndex)`, which is stable.
unfoldable pub insert_window : WindowInstance → List WindowInstance → List WindowInstance
insert_window w [] = w ∷ []
insert_window w (u ∷ us) =
    let rest = insert_window w us in if leb w.z_index u.z_index then w ∷ u ∷ us else u ∷ rest

unfoldable pub sort_windows : List WindowInstance → List WindowInstance
sort_windows [] = []
sort_windows (w ∷ ws) = insert_window w (sort_windows ws)

-- One more than `findIndex`, which is -1 where nothing is found.
unfoldable pub position_of : WindowStore → List WindowInstance → ℕ
position_of s [] = 0
position_of s (w ∷ ws) =
    let rest = position_of s ws in
    if is_focused w.id s then 1 else if rest == 0 then 0 else suc rest

abbrev pub nth : List WindowInstance → ℕ → Option WindowInstance
nth [] i = none
nth (w ∷ ws) zero = some w
nth (w ∷ ws) (suc i) = nth ws i

pub data Direction : Type 0 where
  forward backward : Direction

-- `(current + direction + n) % n`, with `current` one less than the position.
unfoldable pub next_index : Direction → ℕ → ℕ → ℕ
next_index forward position n = (position + n) % n
next_index backward position n = (position + n - 2) % n

unfoldable pub cycle : Direction → WindowStore → WindowStore
cycle direction s =
    let visible = sort_windows (keep (λ w. not w.minimized && not w.closing) s.windows) in
    if is_empty visible
    then s
    else elim (nth visible (next_index direction (position_of s visible) (length visible))) [
      | none ↦ s
      | some w ↦ focus w.id s
    ]

-- What the desktop does, one call or timer after the other.
pub data Event : Type 0 where
  opens : Viewport → AppManifest → String → Event
  closes removes focuses minimizes toggles_minimize settles : String → Event
  toggles_maximize : Viewport → String → Event
  sets_rect : String → PartialRect → Event
  sets_badge : String → Option ℕ → Event
  sets_title : String → String → Event
  sets_launcher sets_search : Bool → Event
  snaps : Viewport → String → SnapZone → Event
  reflows : Viewport → Bool → Event
  cycles : Direction → Event

unfoldable pub handle : Event → WindowStore → WindowStore
handle (opens v app id) s = open_app v app id s
handle (closes id) s = close id s
handle (removes id) s = remove id s
handle (focuses id) s = focus id s
handle (minimizes id) s = minimize id s
handle (toggles_minimize id) s = toggle_minimize id s
handle (settles id) s = settle id s
handle (toggles_maximize v id) s = toggle_maximize v id s
handle (sets_rect id r) s = set_rect id r s
handle (sets_badge id badge) s = set_badge id badge s
handle (sets_title id title) s = set_title id title s
handle (sets_launcher shown) s = set_launcher shown s
handle (sets_search shown) s = set_search shown s
handle (snaps v id zone) s = snap v id zone s
handle (reflows v leaving_phone) s = reflow v leaving_phone s
handle (cycles direction) s = cycle direction s
