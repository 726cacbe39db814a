-- ===== src/Windows/Tests.antt =====
-- Runs of the store, and the theorems there.
use opennas.Base.{
  String, ◌≡◌, refl, true, false, none, some, [], ◌∷◌, map, arith, ◌==◌, nat_eq, string_eq, list_eq,
  find, All, pos, negsuc,
}
use opennas.Windows.Geometry.{
  Viewport, AppManifest, left, phone_rect, make_rect, snap_rect, place_window, clamp_rect,
}
use opennas.Windows.Store.{
  WindowInstance, WindowStore, initial, change, find_window, higher, top_most, open_app, close,
  remove, focus, minimize, toggle_minimize,
}
use opennas.Windows.Layout.{
  toggle_window, toggle_maximize, settle, snap, set_rect, reflow_from, reflow,
}
use opennas.Windows.Events.{
  opens, forward, backward, insert_window, sort_windows, position_of, next_index, cycle, handle,
}
use opennas.Windows.Reach.{Reach, start, next, IsConsistent, Reach-IsConsistent}
use opennas.Windows.Front.{IsInFront, open_app-IsInFront}
use opennas.Windows.Reflow.{IsReachable, IsDesktop, HasSize, reflow-IsReachable}

abbrev screen : Viewport
screen = record { inner_width = pos 1280; inner_height = pos 800; is_phone = false }

abbrev app : String → AppManifest
app id = record {
  id = id;
  name = id;
  default_width = pos 900;
  default_height = pos 600;
  resizable = true;
}

store_code : Unit {0}
unfolding change higher top_most open_app close remove focus minimize toggle_minimize toggle_window
    toggle_maximize settle snap set_rect reflow_from reflow phone_rect snap_rect place_window
    clamp_rect insert_window sort_windows position_of next_index cycle handle
store_code = tt

abbrev files_open : WindowStore
files_open = handle (opens screen (app "files") "files-1") initial

abbrev both_open : WindowStore
both_open = handle (opens screen (app "notes") "notes-1") files_open

focus_tests :
    (both_open.focused_id ≡ some "notes-1")
    × ((close "notes-1" both_open).focused_id ≡ some "files-1")
    × ((cycle forward both_open).focused_id ≡ some "files-1")
    × ((cycle backward (cycle forward both_open)).focused_id ≡ some "notes-1")
    × ((cycle forward (cycle forward both_open)).focused_id ≡ some "notes-1")
unfolding store_code
focus_tests = (refl, refl, refl, refl, refl)

-- A window that is being closed still takes the focus, and keeps it when it is gone.
closing_takes_focus :
    let s = remove "notes-1" (remove "files-1" (close "notes-1" (close "files-1" both_open))) in
    (s.windows ≡ []) × (s.focused_id ≡ some "files-1")
unfolding store_code
closing_takes_focus = (refl, refl)

-- An app that is opened while its window is being closed has no window afterwards.
reopened_while_closing :
    let s =
      remove "files-1" (open_app screen (app "files") "files-2" (close "files-1" files_open)) in
    (s.windows ≡ []) × (s.focused_id ≡ some "files-1")
unfolding store_code
reopened_while_closing = (refl, refl)

place_tests :
    (map (λ w. w.rect) both_open.windows
      ≡ make_rect (pos 110) (pos 76) (pos 900) (pos 600)
        ∷ make_rect (pos 138) (pos 104) (pos 900) (pos 600)
        ∷ [])
    × (snap_rect screen left ≡ make_rect (pos 0) (pos 48) (pos 640) (pos 752))
    × (clamp_rect screen (make_rect (negsuc 9) (pos 0) (pos 2000) (pos 10))
        ≡ make_rect (pos 0) (pos 48) (pos 1280) (pos 10))
unfolding store_code
place_tests = (refl, refl, refl)

no_files : find_window "files-1" initial ≡ none
no_files = refl

no_notes : find_window "notes-1" files_open ≡ none
unfolding store_code
no_notes = refl

both-Reach : Reach both_open
both-Reach =
    next (opens screen (app "notes") "notes-1")
      (next (opens screen (app "files") "files-1") start no_files refl) no_notes refl

Reach-IsConsistent_example : IsConsistent both_open
Reach-IsConsistent_example = Reach-IsConsistent both-Reach

open_app-IsInFront_example :
    (top : WindowInstance) × (find
        (λ w. w.app.id == "notes")
        (open_app screen (app "notes") "notes-1" files_open).windows
      ≡ some top)
    × ((open_app screen (app "notes") "notes-1" files_open).focused_id ≡ some top.id)
    × IsInFront top (open_app screen (app "notes") "notes-1" files_open).windows
    × ((open_app screen (app "notes") "notes-1" files_open).launcher_open ≡ false)
open_app-IsInFront_example =
    open_app-IsInFront screen (app "notes") "notes-1" files_open
      (Reach-IsConsistent (next (opens screen (app "files") "files-1") start no_files refl))
      no_notes

screen-IsDesktop : IsDesktop screen
screen-IsDesktop = record { no_phone = refl; wide = omega arith; high = omega arith }

both-HasSize : All HasSize both_open.windows
unfolding store_code
both-HasSize = ((omega arith, omega arith), ((omega arith, omega arith), tt))

reflow-IsReachable_example :
    All (λ w. IsReachable screen w.rect) (reflow screen true both_open).windows
reflow-IsReachable_example = reflow-IsReachable screen true both_open screen-IsDesktop both-HasSize

abbrev files_window : WindowInstance
files_window = record {
  id = "files-1";
  app = app "files";
  title = "files";
  rect = make_rect (pos 110) (pos 76) (pos 900) (pos 600);
  restore_rect = none;
  minimized = false;
  maximized = false;
  closing = false;
  animating = false;
  z_index = 2;
  badge = none;
}

files_found : find_window "files-1" files_open ≡ some files_window
unfolding store_code
files_found = refl
