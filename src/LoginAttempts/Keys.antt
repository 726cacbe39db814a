-- ===== src/LoginAttempts/Keys.antt =====
-- The keys of db/login-attempts.ts: normalising a name twice is normalising it once.
use opennas.Base.{
  ℕ, ◌≡◌, refl, ap, ◌∙◌, ◌⊎◌, inl, inr, false, [], ◌∷◌, arith, Bool-cases, nat_eq, string_eq,
  list_eq, Text,
}
use opennas.Files.Resolve.{is_space, trim_start, trim_end, trim}
use opennas.LoginAttempts.{key}

trim_end_twice : (s : Text) → trim_end (trim_end s) ≡ trim_end s
unfolding trim_end
trim_end_twice [] = refl
trim_end_twice (c ∷ s) = ground (arith, trim_end_twice s)

trim_start-trim_end :
    (c : ℕ) (s : Text) → is_space c ≡ false → trim_start (trim_end (c ∷ s)) ≡ trim_end (c ∷ s)
unfolding trim_start trim_end
trim_start-trim_end c s h = rw (h, h)

trim_start_cases :
    (s : Text)
    → (trim_start s ≡ []) ⊎ ((c : ℕ) × (t : Text) × (trim_start s ≡ c ∷ t) × (is_space c ≡ false))
unfolding trim_start
trim_start_cases [] = inl refl
trim_start_cases (c ∷ s) = elim (Bool-cases (is_space c)) [
  | inl space ↦ rw space (trim_start_cases s)
  | inr other ↦ inr (c, s, rw other, other)
]

-- A name in lower case is normalised by `trim` alone.
pub key_twice : (t : Text) → key (λ s. s) (key (λ s. s) t) ≡ key (λ s. s) t
unfolding key trim
key_twice t = elim (trim_start_cases t) [
  | inl empty ↦ rw empty (unfold trim_start trim_end in refl)
  | inr (c, rest, e, other) ↦
      rw e (ap trim_end (trim_start-trim_end c rest other) ∙ trim_end_twice (c ∷ rest))
]
