-- ===== src/Base/Counting.antt =====
-- How many members of a list pass a test.
use Prim.Native.Nat.{ℕ, ◌+◌, ◌≤◌, ◌<◌}
use native.Mathlib.Omega.{arith}
use mathlib.Core.Path.{◌≡◌, refl}
use mathlib.Core.Logic.{inl, inr}
use mathlib.Core.Bool.{Bool, true, false}
use mathlib.Core.List.{List, [], ◌∷◌, ◌++◌, map}
use opennas.Base.Lists.{length, keep, All, Any}

module _ {A : Type 0} where
  abbrev pub count : (A → Bool) → List A → ℕ
  count p xs = length (keep p xs)

  pub count-append : (p : A → Bool) (xs ys : List A) → count p (xs ++ ys) ≡ count p xs + count p ys
  count-append p [] ys = omega arith
  count-append p (x ∷ xs) ys = ground (arith, count-append p xs ys)

  pub count-keep : (p q : A → Bool) (xs : List A) → count p (keep q xs) ≤ count p xs
  count-keep p q [] = omega arith
  count-keep p q (x ∷ xs) = ground (arith, count-keep p q xs)

  pub count-map :
      (p : A → Bool) (f : A → A) (xs : List A)
      → ((x : A) → p (f x) ≡ p x)
      → count p (map f xs) ≡ count p xs
  count-map p f [] h = refl
  count-map p f (x ∷ xs) h = let same = h x in ground (arith, count-map p f xs h)

  pub count-none : (p : A → Bool) (xs : List A) → All (λ x. p x ≡ false) xs → count p xs ≡ 0
  count-none p [] h = refl
  count-none p (x ∷ xs) h = rw (h.0, count-none p xs h.1)

  -- A filter that drops a member that counts lowers the count.
  pub count-keep_drops :
      (p q : A → Bool) (xs : List A)
      → Any (λ x. (p x ≡ true) × (q x ≡ false)) xs
      → count p (keep q xs) < count p xs
  count-keep_drops p q [] h = absurd h
  count-keep_drops p q (x ∷ xs) (inl here) =
      let least = count-keep p q xs in ground (arith, here.0, here.1)
  count-keep_drops p q (x ∷ xs) (inr later) = ground (arith, count-keep_drops p q xs later)
