-- ===== src/Passwords/Tests.antt =====
-- Runs of the hashes at concrete inputs.
use opennas.Base.{
  ℕ, zero, suc, ◌+◌, ◌-◌, ◌≡◌, refl, ap, true, false, none, some, List, [], ◌∷◌, map, arith, ◌==◌,
  nat_eq, string_eq, list_eq, list_beq, length, Text, codes, split, join, has_unit,
}
use opennas.Passwords.{
  Hashing, key_length, hash_password, verify_password, validate_password_strength,
}
use opennas.Passwords.RoundTrip.{IsBase64, HasLength, verify_password-hash_password}

abbrev fill : ℕ → ℕ → List ℕ
fill zero b = []
fill (suc k) b = b ∷ fill k b

abbrev first : Text → ℕ
first [] = 0
first (c ∷ s) = c

-- Stand-ins that keep what the functions promise.
abbrev toy : Hashing
toy = record {
  normalize = λ t. t;
  scrypt = λ p salt k n r q. fill k (first p);
  to_base64 = λ bytes. map (λ b. b + 100) bytes;
  from_base64 = λ t. map (λ c. c - 100) t;
}

length-fill : (k b : ℕ) → length (fill k b) ≡ k
length-fill zero b = refl
length-fill (suc k) b = ap suc (length-fill k b)

toy-HasLength : HasLength toy
toy-HasLength p salt k n r q = length-fill k (first p)

toy-IsBase64 : IsBase64 toy
unfolding has_unit
toy-IsBase64 [] = (refl, refl)
toy-IsBase64 (b ∷ bytes) =
    let (free, back) = toy-IsBase64 bytes in
    let letter : ((b + 100) == 36) ≡ false = ground arith in
    let byte : b + 100 - 100 ≡ b = omega arith in (rw letter free, rw (byte, back))

password_tests :
    (verify_password toy (codes "secret") (hash_password toy (7 ∷ []) (codes "secret")) ≡ true)
    × (verify_password toy (codes "Secret") (hash_password toy (7 ∷ []) (codes "secret")) ≡ false)
    × (verify_password toy (codes "secret") (codes "scrypt$1$1") ≡ false)
    × (validate_password_strength (codes "12345678") ≡ none)
    × (validate_password_strength (codes "1234567")
        ≡ some "Password must be at least 8 characters.")
unfolding verify_password hash_password validate_password_strength split join list_beq
password_tests = (refl, refl, refl, refl, refl)

verify_password-hash_password_example :
    (verify_password toy (codes "secret") (hash_password toy (7 ∷ []) (codes "secret")) ≡ true)
    × (verify_password toy (codes "other") (hash_password toy (7 ∷ []) (codes "secret")) ≡ (
        toy.scrypt (codes "other") (7 ∷ []) key_length (codes "16384") (codes "8") (codes "1")
        == toy.scrypt (codes "secret") (7 ∷ []) key_length (codes "16384") (codes "8") (codes "1")))
verify_password-hash_password_example =
    verify_password-hash_password toy (7 ∷ []) (codes "secret") (codes "other") toy-IsBase64
      toy-HasLength
