-- ===== src/Windows/Front.antt =====
-- The window that an app is opened in.
use opennas.Base.{
  ℕ, ◌+◌, ◌≤◌, ◌<◌, String, ◌≡◌, refl, sym, ◌∙◌, ◌⊎◌, inl, inr, Bool, true, false, none, some, List,
  [], ◌∷◌, ◌++◌, arith, Bool-cases, Option-cases, ◌==◌, nat_eq, string_eq, list_eq, length, find,
  All,
}
use mathlib.Core.Path.{subst}
use text.Mathlib.TextEquality.{eq_iff}
use opennas.Windows.Geometry.{Viewport, AppManifest}
use opennas.Windows.Store.{
  WindowInstance, WindowStore, change, raised, new_window, open_app, find_window,
}
use opennas.Windows.Order.{keys}
use opennas.Windows.Reach.{IsConsistent}

-- The window is shown, and every window of another id is below it.
abbrev pub IsInFront : WindowInstance → List WindowInstance → Type 0
IsInFront top ws =
    (top.minimized ≡ false) × All (λ w. (w.id ≡ top.id) ⊎ (w.z_index < top.z_index)) ws

raised_front :
    (id : String) (last : ℕ) (top : WindowInstance) (ws : List WindowInstance)
    → top.id ≡ id
    → top.z_index ≡ last + 1
    → All (λ k. k.level ≤ last) (keys ws)
    → All (λ w. (w.id ≡ top.id) ⊎ (w.z_index < top.z_index)) (change id (raised (last + 1)) ws)
unfolding change
raised_front id last top [] e f h = tt
raised_front id last top (w ∷ ws) e f h = (
  elim (Bool-cases (w.id == id)) [
    | inl here ↦ rw here (inl ((eq_iff w.id id).0 here ∙ sym e))
    | inr other ↦ let low = h.0 in rw other (inr (omega arith))
  ],
  raised_front id last top ws e f h.1,
)

raised_found :
    (p : WindowInstance → Bool) (z : ℕ) (ws : List WindowInstance) {w : WindowInstance}
    → ((u : WindowInstance) → p (raised z u) ≡ p u)
    → find p ws ≡ some w
    → find p (change w.id (raised z) ws) ≡ some (raised z w)
unfolding change
raised_found p z [] same h = cc
raised_found p z (u ∷ us) {w} same h = elim (Bool-cases (p u)) [
  | inl hit ↦
      let found : u ≡ w = let first = rw hit at h in cc in
      let own : (u.id == u.id) ≡ true = (eq_iff u.id u.id).1 refl in
      let passes : p (raised z u) ≡ true = same u ∙ hit in
      subst (λ t. find p (change t.id (raised z) (u ∷ us)) ≡ some (raised z t)) found
        (rw (own, passes))
  | inr miss ↦
      let rest = raised_found p z us same (rw miss at h) in
      let fails : p (raised z u) ≡ false = same u ∙ miss in
      elim (Bool-cases (u.id == w.id)) [
        | inl here ↦ rw (here, fails) rest
        | inr other ↦ rw (other, miss) rest
      ]
]

append_front :
    (last : ℕ) (top : WindowInstance) (ws : List WindowInstance)
    → top.z_index ≡ last + 1
    → All (λ k. k.level ≤ last) (keys ws)
    → All (λ w. (w.id ≡ top.id) ⊎ (w.z_index < top.z_index)) (ws ++ top ∷ [])
append_front last top [] e h = (inl refl, tt)
append_front last top (w ∷ ws) e h =
    (let low = h.0 in inr (omega arith), append_front last top ws e h.1)

find-append_none :
    (p : WindowInstance → Bool) (ws : List WindowInstance) (top : WindowInstance)
    → find p ws ≡ none
    → p top ≡ true
    → find p (ws ++ top ∷ []) ≡ some top
find-append_none p [] top h hit = rw hit
find-append_none p (w ∷ ws) top h hit = elim (Bool-cases (p w)) [
  | inl yes_w ↦ let some_w = rw yes_w at h in absurd cc
  | inr miss ↦ rw miss (find-append_none p ws top (rw miss at h) hit)
]

-- Opening an app leaves one window of it, which has the focus, is not minimized and stands in front of
-- every other, whether the app had a window or not, and closes the launcher.
pub open_app-IsInFront :
    (v : Viewport) (app : AppManifest) (id : String) (s : WindowStore)
    → IsConsistent s
    → find_window id s ≡ none
    → (top : WindowInstance) × (find (λ w. w.app.id == app.id) (open_app v app id s).windows
        ≡ some top)
      × ((open_app v app id s).focused_id ≡ some top.id)
      × IsInFront top (open_app v app id s).windows
      × ((open_app v app id s).launcher_open ≡ false)
unfolding open_app
open_app-IsInFront v app id s h new_id =
    elim (Option-cases (find (λ w. w.app.id == app.id) s.windows)) [
      | inl new_app ↦
          let top = new_window v app id (length s.windows) (s.next_z + 1) in
          let own : (app.id == app.id) ≡ true = (eq_iff app.id app.id).1 refl in
          (
            top,
            rw (new_app, open_app)
                (find-append_none (λ w. w.app.id == app.id) s.windows top new_app own),
            rw (new_app, open_app),
            (refl, rw (new_app, open_app) (append_front s.next_z top s.windows refl h.bounded)),
            rw (new_app, open_app),
          )
      | inr (existing, found) ↦
          let top = raised (s.next_z + 1) existing in
          (
            top,
            rw (found, open_app)
                (raised_found (λ w. w.app.id == app.id) (s.next_z + 1) s.windows (λ u. refl) found),
            rw (found, open_app),
            (
              refl,
              rw (found, open_app)
                  (raised_front existing.id s.next_z top s.windows refl refl h.bounded),
            ),
            rw (found, open_app),
          )
    ]
