-- ===== src/Base/Splitting.antt =====
-- Splitting a text at a separator and joining the parts.
use mathlib.Core.List.{append_assoc, reverse, reverse_aux}
use mathlib.Core.Path.{◌≡◌, refl, sym}
use mathlib.Core.Bool.{false}
use mathlib.Core.Logic.{inl, inr}
use mathlib.Core.List.{List, [], ◌∷◌, ◌++◌}
use Prim.Native.Nat.{ℕ}
use native.Mathlib.Omega.{arith}
use opennas.Base.Tests.{Bool-cases, ◌==◌, nat_eq, ==_self}
use opennas.Base.Lists.{All}
use opennas.Base.Texts.{Text, push_head, split, join, has_unit, is_empty}

-- The separator does not occur in the text.
abbrev pub Free : ℕ → Text → Type 0
Free c w = has_unit c w ≡ false

module _ (c : ℕ) where
  pub split_single : (w : Text) → Free c w → split c w ≡ w ∷ []
  unfolding split has_unit
  split_single [] h = refl
  split_single (x ∷ w) h = ground (arith, split_single w)

  split-cons : (s : Text) → (w : Text) × (ws : List Text) × (split c s ≡ w ∷ ws)
  unfolding split
  split-cons [] = ([], [], refl)
  split-cons (x ∷ s) =
      let (w, ws, e) = split-cons s in
      elim (Bool-cases (x == c)) [
        | inl same ↦ ([], split c s, rw same)
        | inr other ↦ (x ∷ w, ws, rw (other, e))
      ]

  push_head-append :
      (x : ℕ) (ws vs : List Text) {w : Text} {us : List Text}
      → ws ≡ w ∷ us
      → push_head x (ws ++ vs) ≡ push_head x ws ++ vs
  push_head-append x ws vs e = rw e

  pub split-append : (u v : Text) → split c (u ++ c ∷ v) ≡ split c u ++ split c v
  unfolding split
  split-append [] v = rw (==_self c)
  split-append (x ∷ u) v = elim (Bool-cases (x == c)) [
    | inl same ↦ rw (same, split-append u v)
    | inr other ↦
        rw (other, split-append u v) (push_head-append x (split c u) (split c v) (split-cons u).2)
  ]

  -- Parts with no separator are found again.
  pub split-join :
      (w : Text) (ws : List Text) → Free c w → All (Free c) ws → split c (join c (w ∷ ws)) ≡ w ∷ ws
  unfolding join
  split-join w [] h hs = split_single w h
  split-join w (v ∷ ws) h hs =
      rw (split-append w (join c (v ∷ ws)), split_single w h, split-join v ws hs.0 hs.1)

  push_head-Free :
      (x : ℕ) (ws : List Text) → (x == c) ≡ false → All (Free c) ws → All (Free c) (push_head x ws)
  unfolding has_unit
  push_head-Free x [] h hs = ground arith
  push_head-Free x (w ∷ ws) h hs = ground arith

  -- No part holds the separator.
  pub split-Free : (s : Text) → All (Free c) (split c s)
  unfolding split has_unit
  split-Free [] = (refl, tt)
  split-Free (x ∷ s) = elim (Bool-cases (x == c)) [
    | inl same ↦ rw same (refl, split-Free s)
    | inr other ↦ rw other (push_head-Free x (split c s) other (split-Free s))
  ]

  pub join-append :
      (ws : List Text) (v : Text) (vs : List Text)
      → (is_empty ws ≡ false)
      → join c (ws ++ v ∷ vs) ≡ join c ws ++ c ∷ join c (v ∷ vs)
  unfolding join
  join-append [] v vs h = cc
  join-append (w ∷ []) v vs h = refl
  join-append (w ∷ u ∷ ws) v vs h =
      rw (join-append (u ∷ ws) v vs refl) (sym (append_assoc w (c ∷ join c (u ∷ ws)) _))

module _ {κ} {A : Type 0} (P : A → Type κ) where
  All-reverse_aux : (xs ys : List A) → All P xs → All P ys → All P (reverse_aux xs ys)
  All-reverse_aux [] ys hx hy = hy
  All-reverse_aux (x ∷ xs) ys hx hy = All-reverse_aux xs (x ∷ ys) hx.1 (hx.0, hy)

  pub All-reverse : (xs : List A) → All P xs → All P (reverse xs)
  All-reverse xs h = All-reverse_aux xs [] h tt
