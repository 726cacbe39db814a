-- ===== src/Passwords/RoundTrip.antt =====
-- Which passwords a stored hash takes.
use opennas.Base.{
  ℕ, ◌≡◌, refl, ap, ◌∙◌, true, List, [], ◌∷◌, ◌==◌, nat_eq, string_eq, list_eq, list_beq_iff,
  length, All, Text, codes, has_unit, Free, split-join,
}
use opennas.Passwords.{
  Hashing, dollar, key_length, scheme, hash_password, verify_parts, verify_password,
}

-- Base64 as documented: its letters hold no "$", and decoding undoes encoding.
abbrev pub IsBase64 : Hashing → Type 0
IsBase64 h =
    (bytes : List ℕ) → Free dollar (h.to_base64 bytes) × (h.from_base64 (h.to_base64 bytes) ≡ bytes)

-- scrypt gives as many bytes as are asked for.
abbrev pub HasLength : Hashing → Type 0
HasLength h =
    (p : Text) (salt : List ℕ) (k : ℕ) (n r q : Text) → length (h.scrypt p salt k n r q) ≡ k

plain : All (Free dollar) (codes "16384" ∷ codes "8" ∷ codes "1" ∷ [])
unfolding has_unit
plain = (refl, (refl, (refl, tt)))

scheme-Free : Free dollar scheme
unfolding has_unit
scheme-Free = refl

verify_password_made :
    (h : Hashing) (salt : List ℕ) (password other : Text)
    → IsBase64 h
    → HasLength h
    → verify_password h other (hash_password h salt password) ≡ (
        h.scrypt (h.normalize other) salt key_length (codes "16384") (codes "8") (codes "1")
        == h.scrypt (h.normalize password) salt key_length (codes "16384") (codes "8") (codes "1"))
unfolding verify_password hash_password
verify_password_made h salt password other base long =
    let hash =
      h.scrypt (h.normalize password) salt key_length (codes "16384") (codes "8") (codes "1") in
    let (free_salt, salt_back) = base salt in
    let (free_hash, hash_back) = base hash in
    let parts =
      split-join dollar scheme
        (codes "16384" ∷ codes "8" ∷ codes "1" ∷ h.to_base64 salt ∷ h.to_base64 hash ∷ [])
        scheme-Free (plain.0, (plain.1.0, (plain.1.1.0, (free_salt, (free_hash, tt))))) in
    ap (verify_parts h other) parts
    ∙ (let same = (list_beq_iff scheme scheme).1 refl in
        let size =
          long (h.normalize password) salt key_length (codes "16384") (codes "8") (codes "1") in
        rw (same, salt_back, hash_back, size))

-- A hash that was made from a password verifies exactly the passwords from which scrypt makes the same bytes
-- with the same salt, so the password itself. It assumes that base64 and scrypt do what they promise.
pub verify_password-hash_password :
    (h : Hashing) (salt : List ℕ) (password other : Text)
    → IsBase64 h
    → HasLength h
    → (verify_password h password (hash_password h salt password) ≡ true)
      × (verify_password h other (hash_password h salt password) ≡ (
          h.scrypt (h.normalize other) salt key_length (codes "16384") (codes "8") (codes "1")
          == h.scrypt
              (h.normalize password)
              salt
              key_length
              (codes "16384")
              (codes "8")
              (codes "1")))
unfolding verify_password hash_password
verify_password-hash_password h salt password other base long =
    let made = verify_password_made h salt password in
    (made password base long ∙ (list_beq_iff _ _).1 refl, made other base long)
