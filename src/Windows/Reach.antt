-- ===== src/Windows/Reach.antt =====
-- Every store that the desktop can come to.
use mathlib.Core.Path.{subst}
use opennas.Base.{
  ℕ, suc, ◌+◌, String, ◌≡◌, refl, sym, ap, ◌∙◌, inl, inr, Bool, true, false, ◌&&◌, ◌||◌, not, none,
  some, List, [], ◌∷◌, arith, if◌then◌else◌, Bool-cases, Option-cases, ◌==◌, nat_eq, string_eq,
  list_eq, length, keep, find, is_empty, count,
}
use opennas.Windows.Geometry.{Viewport, AppManifest, SnapZone, snap_rect}
use opennas.Windows.Store.{
  WindowInstance, WindowStore, initial, change, update, has_id, find_window, is_focused, raised,
  new_window, open_app, close, remove, is_minimized, focus, minimize, toggle_minimize,
}
use opennas.Windows.Layout.{
  toggle_window, toggle_maximize, settle, set_rect, set_badge, set_title, set_launcher, set_search,
  is_maximize, restore_point, snap, reflow_window, reflow_from, reflow,
}
use opennas.Windows.Events.{
  nth, sort_windows, next_index, position_of, Direction, cycle, Event, opens, closes, removes,
  focuses, minimizes, toggles_minimize, settles, toggles_maximize, sets_rect, sets_badge,
  sets_title, sets_launcher, sets_search, snaps, reflows, cycles, handle,
}
use opennas.Windows.Order.{
  key_of, keys, named, of_app, IsOrdered, change-keys, raise-keys, keep-keys, append-keys,
  lift-IsOrdered, keep-IsOrdered, append-IsOrdered,
}

-- Ids, apps and levels of the windows occur once, and no level lies above the last one given.
abbrev pub IsConsistent : WindowStore → Type 0
IsConsistent s = IsOrdered (keys s.windows) s.next_z

-- The id of a window to be opened is no window's id.
abbrev pub HasNewId : Event → WindowStore → Type 0
HasNewId (opens v app id) s = find_window id s ≡ none
HasNewId (closes id) s = Unit
HasNewId (removes id) s = Unit
HasNewId (focuses id) s = Unit
HasNewId (minimizes id) s = Unit
HasNewId (toggles_minimize id) s = Unit
HasNewId (settles id) s = Unit
HasNewId (toggles_maximize v id) s = Unit
HasNewId (sets_rect id r) s = Unit
HasNewId (sets_badge id badge) s = Unit
HasNewId (sets_title id title) s = Unit
HasNewId (sets_launcher shown) s = Unit
HasNewId (sets_search shown) s = Unit
HasNewId (snaps v id zone) s = Unit
HasNewId (reflows v leaving_phone) s = Unit
HasNewId (cycles direction) s = Unit

pub data Reach : WindowStore → Type 0 where
  start : Reach initial
  next : {s t : WindowStore} (e : Event) → Reach s → HasNewId e s → t ≡ handle e s → Reach t

same_keys :
    (s t : WindowStore)
    → IsConsistent s
    → keys t.windows ≡ keys s.windows
    → t.next_z ≡ s.next_z
    → IsConsistent t
same_keys s t h e f =
    subst (λ ks. IsOrdered ks t.next_z) (sym e)
      (subst (λ n. IsOrdered (keys s.windows) n) (sym f) h)

no_id :
    (id : String) (ws : List WindowInstance)
    → find (has_id id) ws ≡ none
    → count (named id) (keys ws) ≡ 0
no_id id [] h = refl
no_id id (w ∷ ws) h = elim (Bool-cases (w.id == id)) [
  | inl hit ↦ let some_w = rw hit at h in absurd cc
  | inr miss ↦ rw miss (no_id id ws (rw miss at h))
]

no_app :
    (app : String) (ws : List WindowInstance)
    → find (λ w. w.app.id == app) ws ≡ none
    → count (of_app app) (keys ws) ≡ 0
no_app app [] h = refl
no_app app (w ∷ ws) h = elim (Bool-cases (w.app.id == app)) [
  | inl hit ↦ let some_w = rw hit at h in absurd cc
  | inr miss ↦ rw miss (no_app app ws (rw miss at h))
]

raise-IsConsistent :
    (id : String) (ws : List WindowInstance) (last : ℕ)
    → IsOrdered (keys ws) last
    → IsOrdered (keys (change id (raised (last + 1)) ws)) (last + 1)
raise-IsConsistent id ws last h =
    rw (raise-keys id (last + 1) ws) (lift-IsOrdered id (keys ws) last h)

open_app-IsConsistent :
    (v : Viewport) (app : AppManifest) (id : String) (s : WindowStore)
    → IsConsistent s
    → find_window id s ≡ none
    → IsConsistent (open_app v app id s)
unfolding open_app
open_app-IsConsistent v app id s h new_id =
    elim (Option-cases (find (λ w. w.app.id == app.id) s.windows)) [
      | inl new_app ↦
          rw (new_app, open_app)
            (rw (append-keys s.windows (new_window v app id (length s.windows) (s.next_z + 1) ∷ []))
              (append-IsOrdered (keys s.windows) s.next_z
                (key_of (new_window v app id (length s.windows) (s.next_z + 1))) h
                (no_id id s.windows new_id) (no_app app.id s.windows new_app) refl))
      | inr (existing, found) ↦
          rw (found, open_app) (raise-IsConsistent existing.id s.windows s.next_z h)
    ]

focus-IsConsistent : (id : String) (s : WindowStore) → IsConsistent s → IsConsistent (focus id s)
unfolding focus
focus-IsConsistent id s h =
    elim (Bool-cases (is_focused id s && not (is_minimized (find_window id s)))) [
      | inl there ↦ rw (there, focus) h
      | inr away ↦ rw (away, focus) (raise-IsConsistent id s.windows s.next_z h)
    ]

update-IsConsistent :
    (id : String) (f : WindowInstance → WindowInstance) (s : WindowStore)
    → ((w : WindowInstance) → key_of (f w) ≡ key_of w)
    → IsConsistent s
    → IsConsistent (update id f s)
update-IsConsistent id f s same h =
    same_keys s (update id f s) h (change-keys id f s.windows same) refl

minimize-IsConsistent :
    (id : String) (s : WindowStore) → IsConsistent s → IsConsistent (minimize id s)
unfolding minimize
minimize-IsConsistent id s h =
    same_keys s (minimize id s) h
      (change-keys id (λ w. record w { minimized = true }) s.windows (λ w. refl)) refl

close-IsConsistent : (id : String) (s : WindowStore) → IsConsistent s → IsConsistent (close id s)
unfolding close
close-IsConsistent id s h =
    same_keys s (close id s) h
      (change-keys id (λ w. record w { closing = true }) s.windows (λ w. refl)) refl

remove-IsConsistent : (id : String) (s : WindowStore) → IsConsistent s → IsConsistent (remove id s)
unfolding remove
remove-IsConsistent id s h =
    subst (λ ks. IsOrdered ks s.next_z) (sym (keep-keys id s.windows))
      (keep-IsOrdered (λ k. not (named id k)) (keys s.windows) s.next_z h)

toggle_minimize-IsConsistent :
    (id : String) (s : WindowStore) → IsConsistent s → IsConsistent (toggle_minimize id s)
unfolding toggle_minimize
toggle_minimize-IsConsistent id s h = elim (Option-cases (find_window id s)) [
  | inl missing ↦ rw (missing, toggle_minimize) h
  | inr (w, found) ↦ elim (Bool-cases (w.minimized || not (is_focused id s))) [
    | inl shows ↦ rw (found, shows, toggle_minimize) (focus-IsConsistent id s h)
    | inr hides ↦ rw (found, hides, toggle_minimize) (minimize-IsConsistent id s h)
  ]
]

toggle_window-key : (v : Viewport) (w : WindowInstance) → key_of (toggle_window v w) ≡ key_of w
unfolding toggle_window
toggle_window-key v w = elim (Bool-cases w.app.resizable) [
  | inr fixed ↦ ground arith
  | inl resizes ↦ elim (Bool-cases w.maximized) [
    | inr small ↦ ground arith
    | inl full ↦ elim (Option-cases w.restore_rect) [
      | inl gone ↦ ground arith
      | inr (r, kept) ↦ ground arith
    ]
  ]
]

reflow_window-key :
    (v : Viewport) (leaving : Bool) (i : ℕ) (w : WindowInstance)
    → key_of (reflow_window v leaving i w) ≡ key_of w
reflow_window-key v leaving i w = ground arith

reflow-keys :
    (v : Viewport) (leaving : Bool) (i : ℕ) (ws : List WindowInstance)
    → keys (reflow_from v leaving i ws) ≡ keys ws
unfolding reflow_from
reflow-keys v leaving i [] = refl
reflow-keys v leaving i (w ∷ ws) =
    ap (λ k. k ∷ keys (reflow_from v leaving (suc i) ws)) (reflow_window-key v leaving i w)
    ∙ ap (λ l. key_of w ∷ l) (reflow-keys v leaving (suc i) ws)

reflow_unless :
    (v : Viewport) (leaving phone : Bool) (s : WindowStore)
    → IsConsistent s
    → IsConsistent (if phone then s else record s { windows = reflow_from v leaving 0 s.windows })
reflow_unless v leaving true s h = h
reflow_unless v leaving false s h =
    subst (λ ks. IsOrdered ks s.next_z) (sym (reflow-keys v leaving 0 s.windows)) h

abbrev shown : WindowStore → List WindowInstance
shown s = sort_windows (keep (λ w. not w.minimized && not w.closing) s.windows)

cycle-IsConsistent : (d : Direction) (s : WindowStore) → IsConsistent s → IsConsistent (cycle d s)
unfolding cycle
cycle-IsConsistent d s h = elim (Bool-cases (is_empty (shown s))) [
  | inl none_shown ↦ rw (none_shown, cycle) h
  | inr some_shown ↦
      elim (Option-cases
        (nth (shown s) (next_index d (position_of s (shown s)) (length (shown s))))) [
          | inl out ↦ rw (some_shown, out, cycle) h
          | inr (w, found) ↦ rw (some_shown, found, cycle) (focus-IsConsistent w.id s h)
        ]
]

snap_window-key :
    (v : Viewport) (zone : SnapZone) (w : WindowInstance)
    → key_of (
        if not w.app.resizable then w else record w {
          maximized = is_maximize zone;
          animating = true;
          restore_rect = some (restore_point w);
          rect = snap_rect v zone;
        })
      ≡ key_of w
snap_window-key v zone w = ground arith

handle-IsConsistent :
    (e : Event) (s : WindowStore) → HasNewId e s → IsConsistent s → IsConsistent (handle e s)
unfolding handle reflow toggle_maximize settle set_rect set_badge set_title set_launcher set_search
    snap
handle-IsConsistent (opens v app id) s new_id h = open_app-IsConsistent v app id s h new_id
handle-IsConsistent (closes id) s new_id h = close-IsConsistent id s h
handle-IsConsistent (removes id) s new_id h = remove-IsConsistent id s h
handle-IsConsistent (focuses id) s new_id h = focus-IsConsistent id s h
handle-IsConsistent (minimizes id) s new_id h = minimize-IsConsistent id s h
handle-IsConsistent (toggles_minimize id) s new_id h = toggle_minimize-IsConsistent id s h
handle-IsConsistent (settles id) s new_id h = update-IsConsistent id _ s (λ w. refl) h
handle-IsConsistent (toggles_maximize v id) s new_id h =
    update-IsConsistent id (toggle_window v) s (toggle_window-key v) h
handle-IsConsistent (sets_rect id r) s new_id h = update-IsConsistent id _ s (λ w. refl) h
handle-IsConsistent (sets_badge id badge) s new_id h = update-IsConsistent id _ s (λ w. refl) h
handle-IsConsistent (sets_title id title) s new_id h = update-IsConsistent id _ s (λ w. refl) h
handle-IsConsistent (sets_launcher shown) s new_id h = h
handle-IsConsistent (sets_search shown) s new_id h = h
handle-IsConsistent (snaps v id zone) s new_id h =
    update-IsConsistent id _ s (snap_window-key v zone) h
handle-IsConsistent (reflows v leaving_phone) s new_id h =
    reflow_unless v leaving_phone v.is_phone s h
handle-IsConsistent (cycles direction) s new_id h = cycle-IsConsistent direction s h

-- In every store that the desktop can come to, by any sequence of calls and timers, no two windows share an
-- id, an app or a level, and no level lies above the last one given; so the order of the windows on the
-- screen is never a matter of chance. A window that is opened gets an id that no window has.
pub Reach-IsConsistent : {s : WindowStore} → Reach s → IsConsistent s
Reach-IsConsistent start = record {
  bounded = tt;
  one_id = λ id. omega arith;
  one_app = λ app. omega arith;
  one_level = λ z. omega arith;
}
Reach-IsConsistent (next {s} {t} e r new_id same) =
    subst IsConsistent (sym same) (handle-IsConsistent e s new_id (Reach-IsConsistent r))
