-- ===== src/Base/Prefixes.antt =====
-- What `startsWith` and `slice` say of texts.
use Prim.Native.Nat.{ℕ}
use mathlib.Core.Path.{◌≡◌, refl}
use mathlib.Core.Bool.{true, false}
use mathlib.Core.Logic.{◌⊎◌, inl, inr}
use mathlib.Core.List.{[], ◌∷◌, ◌++◌}
use native.Mathlib.Omega.{arith}
use opennas.Base.Tests.{nat_beq_iff, list_beq, nat_eq}
use opennas.Base.Lists.{length, drop}
use opennas.Base.Texts.{Text, starts_with}

pub starts_with-append : (s t : Text) → starts_with (s ++ t) s ≡ true
unfolding starts_with
starts_with-append [] t = refl
starts_with-append (x ∷ s) t = ground (arith, starts_with-append s t, nat_beq_iff x x)

-- A text that starts with another is that text and a rest.
pub starts_with_rest : (s p : Text) → starts_with s p ≡ true → (rest : Text) × (s ≡ p ++ rest)
unfolding starts_with
starts_with_rest s [] h = (s, refl)
starts_with_rest [] (y ∷ p) h = cc
starts_with_rest (x ∷ s) (y ∷ p) h =
    let (rest, e) = starts_with_rest s p (ground arith) in
    let same : x ≡ y = ground arith in (rest, cc)

-- Of two starts of one text one starts the other.
pub starts_with_comparable :
    (u v p : Text)
    → starts_with (u ++ v) p ≡ true
    → (starts_with u p ≡ true) ⊎ (starts_with p u ≡ true)
unfolding starts_with
starts_with_comparable u v [] h = inl refl
starts_with_comparable [] v (y ∷ p) h = inr refl
starts_with_comparable (x ∷ u) v (y ∷ p) h =
    ground (arith, nat_beq_iff x y, nat_beq_iff y x, starts_with_comparable u v p)

pub starts_with-append_both :
    (s t p : Text) → starts_with s p ≡ true → starts_with (s ++ t) p ≡ true
unfolding starts_with
starts_with-append_both s t [] h = refl
starts_with-append_both [] t (y ∷ p) h = cc
starts_with-append_both (x ∷ s) t (y ∷ p) h = ground (arith, starts_with-append_both s t p)

pub starts_with_self : (s : Text) → starts_with s s ≡ true
unfolding starts_with
starts_with_self [] = refl
starts_with_self (x ∷ s) = ground (arith, starts_with_self s, nat_beq_iff x x)

pub drop-append : (s t : Text) → drop (length s) (s ++ t) ≡ t
drop-append [] t = refl
drop-append (x ∷ s) t = drop-append s t

pub beq-append : (s : Text) (c : ℕ) (t : Text) → list_beq (s ++ c ∷ t) s ≡ false
unfolding list_beq
beq-append [] c t = refl
beq-append (x ∷ s) c t = ground (arith, beq-append s c t)
