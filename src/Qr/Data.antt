-- ===== src/Qr/Data.antt =====
-- apps/api/src/auth/qr.ts: VERSIONS, pickVersion, BitWriter and encodeData. A bit is 0 or 1, a byte is below 256.
use opennas.Base.{
  ℕ, zero, suc, ◌+◌, ◌-◌, ◌*◌, ◌/◌, ◌%◌, ◌^◌, min, Option, none, some, List, [], ◌∷◌, ◌++◌, ltb,
  leb, if◌then◌else◌, ◌==◌, nat_eq, string_eq, list_eq, length, find, count,
}

-- A group is [blockCount, dataCodewordsPerBlock].
pub record VersionSpec : Type 0 where
  pub version : ℕ
  pub ec : ℕ
  pub groups : List (ℕ × ℕ)
  pub align : List ℕ

abbrev pub spec : ℕ → ℕ → List (ℕ × ℕ) → List ℕ → VersionSpec
spec version ec groups align = record { version = version; ec = ec; groups = groups; align = align }

abbrev pub versions : List VersionSpec
versions =
    spec 1 10 ((1, 16) ∷ []) []
    ∷ spec 2 16 ((1, 28) ∷ []) (6 ∷ 18 ∷ [])
    ∷ spec 3 26 ((1, 44) ∷ []) (6 ∷ 22 ∷ [])
    ∷ spec 4 18 ((2, 32) ∷ []) (6 ∷ 26 ∷ [])
    ∷ spec 5 24 ((2, 43) ∷ []) (6 ∷ 30 ∷ [])
    ∷ spec 6 16 ((4, 27) ∷ []) (6 ∷ 34 ∷ [])
    ∷ spec 7 18 ((4, 31) ∷ []) (6 ∷ 22 ∷ 38 ∷ [])
    ∷ spec 8 22 ((2, 38) ∷ (2, 39) ∷ []) (6 ∷ 24 ∷ 42 ∷ [])
    ∷ spec 9 22 ((3, 36) ∷ (2, 37) ∷ []) (6 ∷ 26 ∷ 46 ∷ [])
    ∷ spec 10 26 ((4, 43) ∷ (1, 44) ∷ []) (6 ∷ 28 ∷ 50 ∷ [])
    ∷ []

abbrev pub max_version : ℕ
max_version = 10

-- `VERSIONS[version]`
unfoldable pub spec_of : ℕ → Option VersionSpec
spec_of version = find (λ (s : VersionSpec). s.version == version) versions

abbrev pub group_sum : List (ℕ × ℕ) → ℕ
group_sum [] = 0
group_sum ((count, size) ∷ groups) = count * size + group_sum groups

abbrev pub data_codewords : VersionSpec → ℕ
data_codewords s = group_sum s.groups

abbrev pub count_bits : ℕ → ℕ
count_bits version = if ltb version 10 then 8 else 16

abbrev pub capacity : VersionSpec → ℕ → ℕ
capacity s version = data_codewords s - 1 - count_bits version / 8

abbrev pub capacity_of : Option VersionSpec → ℕ → Option ℕ
capacity_of none version = none
capacity_of (some s) version = some (capacity s version)

unfoldable pub capacity_bytes : ℕ → Option ℕ
capacity_bytes version = capacity_of (spec_of version) version

abbrev pub try_version : Option ℕ → ℕ → ℕ → Option ℕ → Option ℕ
try_version none v byte_length later = none
try_version (some most) v byte_length later = if leb byte_length most then some v else later

-- The loop of pickVersion from version `v` on, with the number of versions that are left; `none` is the error.
unfoldable pub pick_from : ℕ → ℕ → ℕ → Option ℕ
pick_from zero v byte_length = none
pick_from (suc left) v byte_length =
    try_version (capacity_bytes v) v byte_length (pick_from left (suc v) byte_length)

abbrev pub pick_version : ℕ → Option ℕ
pick_version byte_length = pick_from max_version 1 byte_length

-- What `push` of BitWriter appends, and what it appends for each byte.
unfoldable pub push : ℕ → ℕ → List ℕ
push value zero = []
push value (suc n) = (value / 2 ^ n) % 2 ∷ push value n

unfoldable pub push_bytes : List ℕ → List ℕ
push_bytes [] = []
push_bytes (b ∷ bytes) = push b 8 ++ push_bytes bytes

-- `out[i >>> 3] |= 0x80 >>> (i & 7)` for the bits of one byte.
abbrev pub byte_of : ℕ → ℕ → ℕ → ℕ → ℕ → ℕ → ℕ → ℕ → ℕ
byte_of a b c d e f g h = a * 128 + b * 64 + c * 32 + d * 16 + e * 8 + f * 4 + g * 2 + h

unfoldable pub to_bytes : List ℕ → List ℕ
to_bytes [] = []
to_bytes (a ∷ []) = byte_of a 0 0 0 0 0 0 0 ∷ []
to_bytes (a ∷ b ∷ []) = byte_of a b 0 0 0 0 0 0 ∷ []
to_bytes (a ∷ b ∷ c ∷ []) = byte_of a b c 0 0 0 0 0 ∷ []
to_bytes (a ∷ b ∷ c ∷ d ∷ []) = byte_of a b c d 0 0 0 0 ∷ []
to_bytes (a ∷ b ∷ c ∷ d ∷ e ∷ []) = byte_of a b c d e 0 0 0 ∷ []
to_bytes (a ∷ b ∷ c ∷ d ∷ e ∷ f ∷ []) = byte_of a b c d e f 0 0 ∷ []
to_bytes (a ∷ b ∷ c ∷ d ∷ e ∷ f ∷ g ∷ []) = byte_of a b c d e f g 0 ∷ []
to_bytes (a ∷ b ∷ c ∷ d ∷ e ∷ f ∷ g ∷ h ∷ bits) = byte_of a b c d e f g h ∷ to_bytes bits

-- The first `n` fillers from the `i`th on.
unfoldable pub filler : ℕ → ℕ → List ℕ
filler i zero = []
filler i (suc n) = (if i % 2 == 0 then 0xec else 0x11) ∷ filler (suc i) n

abbrev pub header_bits : List ℕ → ℕ → List ℕ
header_bits bytes version =
    push 4 4 ++ (push (length bytes) (count_bits version) ++ push_bytes bytes)

abbrev pub terminated : ℕ → List ℕ → List ℕ
terminated total bits = bits ++ push 0 (min 4 (total * 8 - length bits))

abbrev pub aligned : List ℕ → List ℕ
aligned bits = if length bits % 8 == 0 then bits else bits ++ push 0 (8 - length bits % 8)

-- `out.set(written)` throws where there is no room.
abbrev pub fill_up : ℕ → List ℕ → Option (List ℕ)
fill_up total written =
    if leb (length written) total then some (written ++ filler 0 (total - length written)) else none

abbrev pub encode_with : Option VersionSpec → List ℕ → ℕ → Option (List ℕ)
encode_with none bytes version = none
encode_with (some s) bytes version =
    fill_up (data_codewords s)
      (to_bytes (aligned (terminated (data_codewords s) (header_bits bytes version))))

unfoldable pub encode_data : List ℕ → ℕ → Option (List ℕ)
encode_data bytes version = encode_with (spec_of version) bytes version
