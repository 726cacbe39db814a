-- ===== src/Windows/Store.antt =====
-- apps/web/src/store/windows.ts: the store of the windows and its operations. The body of a `setTimeout` is an
-- operation of its own, which runs some time later; the id of a new window is an argument.
use opennas.Base.{
  ℕ, ◌+◌, String, Bool, true, false, ◌&&◌, ◌||◌, not, if◌then◌else◌, Option, none, some, List, [],
  ◌∷◌, ◌++◌, leb, ◌==◌, nat_eq, string_eq, length, keep, find,
}
use opennas.Windows.Geometry.{Viewport, WindowRect, AppManifest, place_window}

pub record WindowInstance : Type 0 where
  pub id : String
  pub app : AppManifest
  pub title : String
  pub rect : WindowRect
  pub restore_rect : Option WindowRect
  pub minimized : Bool
  pub maximized : Bool
  pub closing : Bool
  pub animating : Bool
  pub z_index : ℕ
  pub badge : Option ℕ

pub record WindowStore : Type 0 where
  pub windows : List WindowInstance
  pub focused_id : Option String
  pub launcher_open : Bool
  pub search_open : Bool
  pub next_z : ℕ

abbrev pub initial : WindowStore
initial = record {
  windows = [];
  focused_id = none;
  launcher_open = false;
  search_open = false;
  next_z = 1;
}

-- `windows.map((w) => (w.id === id ? f(w) : w))`.
unfoldable pub change :
    String → (WindowInstance → WindowInstance) → List WindowInstance → List WindowInstance
change id f [] = []
change id f (w ∷ ws) = (if w.id == id then f w else w) ∷ change id f ws

abbrev pub update : String → (WindowInstance → WindowInstance) → WindowStore → WindowStore
update id f s = record s { windows = change id f s.windows }

abbrev pub has_id : String → WindowInstance → Bool
has_id id w = w.id == id

abbrev pub find_window : String → WindowStore → Option WindowInstance
find_window id s = find (has_id id) s.windows

abbrev pub is_focused : String → WindowStore → Bool
is_focused id s = elim s.focused_id [ none ↦ false | some f ↦ f == id ]

-- The reduction of `topMost`, from a first window.
unfoldable pub higher : WindowInstance → List WindowInstance → WindowInstance
higher top [] = top
higher top (w ∷ ws) = higher (if leb w.z_index top.z_index then top else w) ws

abbrev pub top_of : List WindowInstance → Option String
top_of [] = none
top_of (w ∷ ws) = some ((higher w ws).id)

unfoldable pub top_most : List WindowInstance → Option String
top_most windows = top_of (keep (λ w. not w.minimized) windows)

abbrev pub raised : ℕ → WindowInstance → WindowInstance
raised z w = record w { minimized = false; z_index = z }

abbrev pub new_window : Viewport → AppManifest → String → ℕ → ℕ → WindowInstance
new_window v app id index z = record {
  id = id;
  app = app;
  title = app.name;
  rect = place_window v app index;
  restore_rect = none;
  minimized = false;
  maximized = false;
  closing = false;
  animating = false;
  z_index = z;
  badge = none;
}

unfoldable pub open_app : Viewport → AppManifest → String → WindowStore → WindowStore
open_app v app id s =
    let z = s.next_z + 1 in
    elim (find (λ w. w.app.id == app.id) s.windows) [
      | some existing ↦ record s {
        focused_id = some existing.id;
        launcher_open = false;
        next_z = z;
        windows = change existing.id (raised z) s.windows;
      }
      | none ↦ record s {
        windows = s.windows ++ new_window v app id (length s.windows) z ∷ [];
        focused_id = some id;
        launcher_open = false;
        next_z = z;
      }
    ]

-- The focus after a window went away.
abbrev pub focus_without : String → WindowStore → Option String
focus_without id s =
    if is_focused id s
    then top_most (keep (λ w. not (w.id == id) && not w.minimized) s.windows)
    else s.focused_id

unfoldable pub close : String → WindowStore → WindowStore
close id s = record s {
  windows = change id (λ w. record w { closing = true }) s.windows;
  focused_id = focus_without id s;
}

-- The timer of `close`.
unfoldable pub remove : String → WindowStore → WindowStore
remove id s = record s { windows = keep (λ w. not (w.id == id)) s.windows }

abbrev pub is_minimized : Option WindowInstance → Bool
is_minimized none = false
is_minimized (some w) = w.minimized

unfoldable pub focus : String → WindowStore → WindowStore
focus id s =
    let z = s.next_z + 1 in
    if is_focused id s && not (is_minimized (find_window id s))
    then s
    else record s { focused_id = some id; next_z = z; windows = change id (raised z) s.windows }

unfoldable pub minimize : String → WindowStore → WindowStore
minimize id s = record s {
  windows = change id (λ w. record w { minimized = true }) s.windows;
  focused_id = focus_without id s;
}

unfoldable pub toggle_minimize : String → WindowStore → WindowStore
toggle_minimize id s = elim (find_window id s) [
  | none ↦ s
  | some w ↦ if w.minimized || not (is_focused id s) then focus id s else minimize id s
]
