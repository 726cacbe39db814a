-- ===== src/SecondFactor/Codes.antt =====
-- apps/api/src/auth/totp.ts: one-time codes. HMAC-SHA1 is an argument, from a key and a message of bytes to
-- the 20 bytes of its digest.
use opennas.Base.{
  ℕ, zero, suc, ◌+◌, ◌-◌, ◌*◌, ◌/◌, ◌%◌, ◌^◌, String, Bool, ◌&&◌, ◌||◌, not, Option, none, some,
  List, [], ◌∷◌, ◌++◌, if◌then◌else◌, leb, ltb, ◌==◌, nat_eq, list_eq, Text, codes, keep, length,
}
use opennas.Files.Resolve.{is_space}

abbrev pub digit_count : ℕ
digit_count = 6

abbrev pub step_seconds : ℕ
step_seconds = 30

abbrev pub alphabet : Text
alphabet = codes "ABCDEFGHIJKLMNOPQRSTUVWXYZ234567"

abbrev pub unit_at : Text → ℕ → ℕ
unit_at [] i = 0
unit_at (c ∷ s) zero = c
unit_at (c ∷ s) (suc i) = unit_at s i

-- `indexOf`, with `none` for -1.
abbrev pub index_of : Text → ℕ → Option ℕ
index_of [] ch = none
index_of (c ∷ s) ch =
    let rest = index_of s ch in
    if c == ch then some 0 else elim rest [ none ↦ none | some i ↦ some (suc i) ]

abbrev pub int_size : ℕ
int_size = 2 ^ 32

-- The inner loop, which runs twice at most: `bits` is below 13.
unfoldable pub emit : ℕ → ℕ → ℕ → Text × ℕ
emit zero value bits = ([], bits)
emit (suc fuel) value bits =
    let c = unit_at alphabet (value / 2 ^ (bits - 5) % 32) in
    let (rest, left) = emit fuel value (bits - 5) in
    if leb 5 bits then (c ∷ rest, left) else ([], bits)

unfoldable pub encode_from : ℕ → ℕ → List ℕ → Text
unfolding emit
encode_from bits value [] =
    if ltb 0 bits then unit_at alphabet (value * 2 ^ (5 - bits) % 32) ∷ [] else []
encode_from bits value (byte ∷ bytes) =
    let next = (value * 256 + byte) % int_size in
    let (out, left) = emit 2 next (bits + 8) in out ++ encode_from left next bytes

unfoldable pub base32_encode : List ℕ → Text
unfolding encode_from
base32_encode bytes = encode_from 0 0 bytes

-- `none` is the error that is thrown for a foreign letter.
unfoldable pub decode_from : ℕ → ℕ → Text → Option (List ℕ)
decode_from bits value [] = some []
decode_from bits value (ch ∷ text) = elim (index_of alphabet ch) [
  | none ↦ none
  | some idx ↦
      let next = (value * 32 + idx) % int_size in
      if leb 8 (bits + 5)
      then elim (decode_from (bits + 5 - 8) next text) [
        | none ↦ none
        | some out ↦ some ((next / 2 ^ (bits + 5 - 8) % 256) ∷ out)
      ]
      else decode_from (bits + 5) next text
]

-- `replace(/[\s=-]/g, "")`; `toUpperCase` is an argument.
abbrev pub is_filler : ℕ → Bool
is_filler c = is_space c || c == 61 || c == 45

unfoldable pub base32_decode : (Text → Text) → Text → Option (List ℕ)
unfolding decode_from
base32_decode upper input = decode_from 0 0 (keep (λ c. not (is_filler c)) (upper input))

-- `writeUInt32BE`.
abbrev pub word_bytes : ℕ → List ℕ
word_bytes n = (n / 2 ^ 24 % 256) ∷ (n / 2 ^ 16 % 256) ∷ (n / 2 ^ 8 % 256) ∷ (n % 256) ∷ []

abbrev pub byte_at : List ℕ → ℕ → ℕ
byte_at [] i = 0
byte_at (b ∷ bs) zero = b
byte_at (b ∷ bs) (suc i) = byte_at bs i

abbrev pub last_byte : List ℕ → ℕ
last_byte [] = 0
last_byte (b ∷ []) = b
last_byte (b ∷ c ∷ bs) = last_byte (c ∷ bs)

-- `String(n % 10 ** digits).padStart(digits, "0")`.
unfoldable pub padded : ℕ → ℕ → Text
padded zero n = []
padded (suc digits) n = padded digits (n / 10) ++ (48 + n % 10) ∷ []

unfoldable pub hotp : (List ℕ → List ℕ → List ℕ) → List ℕ → ℕ → ℕ → Text
unfolding padded
hotp hmac_sha1 secret counter digits =
    let digest =
      hmac_sha1 secret (word_bytes (counter / 2 ^ 32) ++ word_bytes (counter % 2 ^ 32)) in
    let offset = last_byte digest % 16 in
    let binary =
      byte_at digest offset % 128 * 2 ^ 24
      + byte_at digest (offset + 1) % 256 * 2 ^ 16
      + byte_at digest (offset + 2) % 256 * 2 ^ 8
      + byte_at digest (offset + 3) % 256 in
    padded digits (binary % 10 ^ digits)

unfoldable pub current_step : ℕ → ℕ
current_step at_ms = at_ms / 1000 / step_seconds

abbrev pub is_digit : ℕ → Bool
is_digit c = leb 48 c && leb c 57

-- The steps that are tried, in this order: one back, now, and one ahead.
abbrev pub window_steps : ℕ → List ℕ
window_steps zero = 0 ∷ 1 ∷ []
window_steps (suc now) = now ∷ suc now ∷ suc (suc now) ∷ []

unfoldable pub first_match : (ℕ → Text) → Text → List ℕ → Option ℕ
first_match expected submitted [] = none
first_match expected submitted (step ∷ steps) =
    let later = first_match expected submitted steps in
    if expected step == submitted then some step else later

unfoldable pub verify_totp : (List ℕ → List ℕ → List ℕ) → (Text → Text) → Text → Text → ℕ → Option ℕ
unfolding first_match current_step
verify_totp hmac_sha1 upper secret_b32 code at_ms =
    let digits = keep is_digit code in
    if not (length digits == digit_count) then none else elim (base32_decode upper secret_b32) [
      | none ↦ none
      | some secret ↦
          first_match (λ step. hotp hmac_sha1 secret step digit_count) digits
            (window_steps (current_step at_ms))
    ]

-- The letters and digits of a recovery code, in upper case.
abbrev pub is_code_unit : ℕ → Bool
is_code_unit c = is_digit c || (leb 65 c && leb c 90)

unfoldable pub normalize_recovery_code : (Text → Text) → Text → Text
normalize_recovery_code upper code = keep is_code_unit (upper code)

-- SHA-256 in hexadecimal is an argument.
unfoldable pub hash_recovery_code : (Text → Text) → (Text → String) → Text → String
hash_recovery_code upper sha256 code = sha256 (normalize_recovery_code upper code)
