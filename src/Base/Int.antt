-- ===== src/Base/Int.antt =====
-- Integers over the native numbers.
use Prim.Native.Nat.{ℕ, suc, ◌+◌, ◌-◌, ◌/◌, ◌≤◌}
use mathlib.Core.Bool.{Bool}
use opennas.Base.Tests.{leb, if◌then◌else◌}

-- `negsuc n` stands for -(n + 1).
pub data ℤ : Type 0 where
  pos negsuc : ℕ → ℤ

abbrev pub above : ℤ → ℕ
above (pos n) = n
above (negsuc n) = 0

abbrev pub below : ℤ → ℕ
below (pos n) = 0
below (negsuc n) = suc n

-- The difference of two numbers.
abbrev pub diff : ℕ → ℕ → ℤ
diff m n = if leb n m then pos (m - n) else negsuc (n - m - 1)

infixl 65 ◌+ℤ◌ ◌-ℤ◌
infix 50 ◌≤ℤ◌
abbrev pub ◌+ℤ◌ : ℤ → ℤ → ℤ
a +ℤ b = diff (above a + above b) (below a + below b)

abbrev pub ◌-ℤ◌ : ℤ → ℤ → ℤ
a -ℤ b = diff (above a + below b) (below a + above b)

abbrev pub ◌≤ℤ◌ : ℤ → ℤ → Type 0
a ≤ℤ b = above a + below b ≤ above b + below a

abbrev pub leb_int : ℤ → ℤ → Bool
leb_int a b = leb (above a + below b) (above b + below a)

abbrev pub min_int : ℤ → ℤ → ℤ
min_int a b = if leb_int a b then a else b

abbrev pub max_int : ℤ → ℤ → ℤ
max_int a b = if leb_int a b then b else a

-- `Math.round(z / 2)`: a half is rounded up.
abbrev pub round_half : ℤ → ℤ
round_half (pos n) = pos ((n + 1) / 2)
round_half (negsuc n) = diff 0 ((n + 1) / 2)
