-- ===== src/Base/Quantifiers.antt =====
-- What holds of every or of some member of a list, of a part of it, and of what a search finds.
use Prim.Native.Nat.{◌≤◌}
use mathlib.Core.Path.{◌≡◌}
use mathlib.Core.Logic.{inl, inr}
use mathlib.Core.Bool.{Bool, true, false}
use mathlib.Core.List.{List, [], ◌∷◌, ◌++◌}
use mathlib.Core.Option.{none, some}
use native.Mathlib.Omega.{arith}
use opennas.Base.Tests.{Bool-cases}
use opennas.Base.Lists.{length, keep, find, any, All, Any}

pub clash : {b : Bool} → b ≡ false → b ≡ true → ⊥
clash e f = cc

module _ {ℓ κ} {A : Type ℓ} (P : A → Type κ) where
  pub All-append : (xs ys : List A) → All P xs → All P ys → All P (xs ++ ys)
  All-append [] ys hx hy = hy
  All-append (x ∷ xs) ys hx hy = (hx.0, All-append xs ys hx.1 hy)

  pub All-keep : (p : A → Bool) (xs : List A) → All P xs → All P (keep p xs)
  All-keep p [] h = tt
  All-keep p (x ∷ xs) h = ground (arith, All-keep p xs h.1)

module _ {ℓ κ} {A : Type ℓ} (P : A → Type κ) where
  pub All-keep_iff :
      (q : A → Bool) (xs : List A) → All P (keep q xs) → All (λ x. q x ≡ true → P x) xs
  All-keep_iff q [] h = tt
  All-keep_iff q (x ∷ xs) h = elim (Bool-cases (q x)) [
    | inl hit ↦
        let h' : P x × All P (keep q xs) = rw hit at h in ((λ _. h'.0), All-keep_iff q xs h'.1)
    | inr miss ↦ ((λ e. cc), All-keep_iff q xs (rw miss at h))
  ]

  pub All-map {μ} : (Q : A → Type μ) (f : (x : A) → P x → Q x) (xs : List A) → All P xs → All Q xs
  All-map Q f [] h = tt
  All-map Q f (x ∷ xs) h = (f x h.0, All-map Q f xs h.1)

  -- A member that a search finds has what all members have.
  pub All-find : (p : A → Bool) (xs : List A) {x : A} → All P xs → find p xs ≡ some x → P x
  All-find p [] h e = cc
  All-find p (y ∷ xs) {x} h e = elim (Bool-cases (p y)) [
    | inl hit ↦ let eq : x ≡ y = ground arith in rw eq h.0
    | inr miss ↦ All-find p xs h.1 (ground arith)
  ]

module _ {ℓ} {A : Type ℓ} where
  pub Any-keep :
      {P Q : A → Type 0} (q : A → Bool) (f : (x : A) → q x ≡ true → P x → Q x) (xs : List A)
      → Any P (keep q xs)
      → Any Q xs
  Any-keep q f [] h = h
  Any-keep q f (x ∷ xs) h = elim (Bool-cases (q x)) [
    | inl hit ↦ elim (rw hit at h) [
      | inl here ↦ inl (f x hit here)
      | inr later ↦ inr (Any-keep q f xs later)
    ]
    | inr miss ↦ inr (Any-keep q f xs (rw miss at h))
  ]

  pub keep_short : (p : A → Bool) (xs : List A) → length (keep p xs) ≤ 0 → All (λ x. p x ≡ false) xs
  keep_short p [] h = tt
  keep_short p (x ∷ xs) h = elim (Bool-cases (p x)) [
    | inl hit ↦ absurd (ground arith)
    | inr miss ↦ (miss, keep_short p xs (ground arith))
  ]

  pub find-holds : (p : A → Bool) (xs : List A) {x : A} → find p xs ≡ some x → p x ≡ true
  find-holds p [] e = cc
  find-holds p (y ∷ xs) e = elim (Bool-cases (p y)) [
    | inl hit ↦ ground arith
    | inr miss ↦ find-holds p xs (ground arith)
  ]

  pub find-none : (p : A → Bool) (xs : List A) → find p xs ≡ none → All (λ x. p x ≡ false) xs
  find-none p [] e = tt
  find-none p (y ∷ xs) e = elim (Bool-cases (p y)) [
    | inl hit ↦ ground arith
    | inr miss ↦ (miss, find-none p xs (ground arith))
  ]

  -- A search finds the only member that passes its test.
  pub find_unique :
      (p : A → Bool) (xs : List A) {y : A}
      → find p xs ≡ some y
      → length (keep p xs) ≤ 1
      → All (λ x. p x ≡ true → x ≡ y) xs
  find_unique p [] e h = tt
  find_unique p (x ∷ xs) {y} e h = elim (Bool-cases (p x)) [
    | inl hit ↦
        let rest : length (keep p xs) ≤ 0 = ground arith in
        let eq : x ≡ y = ground arith in
        ((λ _. eq), All-map _ _ (λ z miss t. absurd (clash miss t)) xs (keep_short p xs rest))
    | inr miss ↦ ((λ t. absurd (clash miss t)), find_unique p xs (ground arith) (ground arith))
  ]

  pub any-false : (p : A → Bool) (xs : List A) → any p xs ≡ false → All (λ x. p x ≡ false) xs
  any-false p [] e = tt
  any-false p (x ∷ xs) e = (ground arith, any-false p xs (ground arith))

module _ {A : Type 0} where
  -- What a search finds is there, and passes the test.
  pub find-Any :
      (p : A → Bool) (xs : List A) {x : A}
      → find p xs ≡ some x
      → Any (λ y. (y ≡ x) × (p y ≡ true)) xs
  find-Any p [] e = cc
  find-Any p (y ∷ xs) {x} e = elim (Bool-cases (p y)) [
    | inl hit ↦ inl (ground arith, hit)
    | inr miss ↦ inr (find-Any p xs (ground arith))
  ]

  pub Any-map : {P Q : A → Type 0} (f : (x : A) → P x → Q x) (xs : List A) → Any P xs → Any Q xs
  Any-map f [] h = h
  Any-map f (x ∷ xs) (inl here) = inl (f x here)
  Any-map f (x ∷ xs) (inr later) = inr (Any-map f xs later)
