-- ===== src/Passwords.antt =====
-- apps/api/src/auth/password.ts: hashes of passwords. scrypt, the normalisation of texts and base64 are the
-- functions of Node.
use opennas.Base.{
  ℕ, String, Bool, true, false, not, Option, none, some, List, [], ◌∷◌, ◌++◌, if◌then◌else◌, leb,
  ltb, ◌==◌, nat_eq, list_eq, list_beq, Text, codes, split, join, length,
}
pub mod RoundTrip
mod Tests

-- `scrypt` takes the password, the salt, the number of bytes, and the texts of N, r and p. Where Node refuses these
-- parameters, verifyPassword fails with an error; that case, which no hash of hashPassword leads to, is left out.
pub record Hashing : Type 0 where
  pub normalize : Text → Text
  pub scrypt : Text → List ℕ → ℕ → Text → Text → Text → List ℕ
  pub to_base64 : List ℕ → Text
  pub from_base64 : Text → List ℕ

abbrev pub dollar : ℕ
dollar = 36

abbrev pub key_length : ℕ
key_length = 64

abbrev pub scheme : Text
scheme = codes "scrypt"

-- The salt is 16 random bytes.
unfoldable pub hash_password : Hashing → List ℕ → Text → Text
hash_password h salt password =
    let hash =
      h.scrypt (h.normalize password) salt key_length (codes "16384") (codes "8") (codes "1") in
    join dollar
      (scheme ∷ codes "16384" ∷ codes "8" ∷ codes "1" ∷ h.to_base64 salt ∷ h.to_base64 hash ∷ [])

abbrev pub verify_parts : Hashing → Text → List Text → Bool
verify_parts h password (name ∷ n ∷ r ∷ p ∷ salt ∷ hash ∷ []) =
    let expected = h.from_base64 hash in
    if not (name == scheme)
    then false
    else h.scrypt (h.normalize password) (h.from_base64 salt) (length expected) n r p == expected
verify_parts h password other = false

unfoldable pub verify_password : Hashing → Text → Text → Bool
verify_password h password stored = verify_parts h password (split dollar stored)

unfoldable pub validate_password_strength : Text → Option String
validate_password_strength password =
    if ltb (length password) 8
    then some "Password must be at least 8 characters."
    else if ltb 256 (length password)
    then some "Password is too long."
    else none
