-- ===== src/Qr/Decoded.antt =====
-- The data codewords read back, and the room that the chosen version has for them.
use opennas.Base.{
  ℕ, zero, suc, ◌+◌, ◌-◌, ◌*◌, ◌/◌, ◌%◌, ◌^◌, ◌≤◌, ◌<◌, min, ◌≡◌, refl, sym, ap, ◌∙◌, ◌⊎◌, inl, inr,
  true, ◌&&◌, Option, none, some, List, [], ◌∷◌, ◌++◌, arith, ltb, leb, if◌then◌else◌, ltb→lt,
  leb→le, nat_beq_iff, Bool-cases, ◌==◌, nat_eq, string_eq, list_eq, length, length-append, All,
  All-append, drop, take, All-find, find-holds,
}
use native.Mathlib.Nat.{div-eq_of_lt}
use mathlib.Core.List.{append_assoc}
use opennas.Qr.Data.{
  VersionSpec, versions, max_version, spec_of, data_codewords, count_bits, capacity, capacity_of,
  capacity_bytes, try_version, pick_from, pick_version, push, push_bytes, to_bytes, filler,
  header_bits, terminated, aligned, fill_up, encode_with, encode_data,
}
use opennas.Qr.Bits.{
  value_from, value_from-push, push-AreBits, length-push, push_bytes-AreBits, length-push_bytes,
  push_bytes-to_bytes,
}

-- How a reader takes the codewords apart: the mode in four bits, the number of bytes, the bytes.
unfoldable pub read_bytes : ℕ → List ℕ → List ℕ
read_bytes zero bits = []
read_bytes (suc n) bits = value_from 0 (take 8 bits) ∷ read_bytes n (drop 8 bits)

abbrev pub read_counted : ℕ → List ℕ → List ℕ
read_counted width bits = read_bytes (value_from 0 (take width bits)) (drop width bits)

-- The standard's width of the number of bytes.
abbrev pub standard_width : ℕ → ℕ
standard_width version = if ltb version 10 then 8 else 16

unfoldable pub decode_data : List ℕ → ℕ → Option (List ℕ)
decode_data codewords version =
    let bits = push_bytes codewords in
    if value_from 0 (take 4 bits) == 4
    then some (read_counted (standard_width version) (drop 4 bits))
    else none

regroup : (a b c d e : List ℕ) → ((a ++ (b ++ c)) ++ d) ++ e ≡ a ++ (b ++ (c ++ (d ++ e)))
regroup a b c d e =
    append_assoc (a ++ (b ++ c)) d e
    ∙ append_assoc a (b ++ c) (d ++ e)
    ∙ ap (λ z. a ++ z) (append_assoc b c (d ++ e))

take-push : (v n : ℕ) (rest : List ℕ) → take n (push v n ++ rest) ≡ push v n
unfolding push
take-push v zero rest = refl
take-push v (suc n) rest = ap (λ k. (v / 2 ^ n % 2) ∷ k) (take-push v n rest)

drop-push : (v n : ℕ) (rest : List ℕ) → drop n (push v n ++ rest) ≡ rest
unfolding push
drop-push v zero rest = refl
drop-push v (suc n) rest = drop-push v n rest

read-push : (v n : ℕ) (rest : List ℕ) → v / 2 ^ n ≡ 0 → value_from 0 (take n (push v n ++ rest)) ≡ v
read-push v n rest small =
    ap (value_from 0) (take-push v n rest)
    ∙ ap (λ k. value_from k (push v n)) (sym small)
    ∙ value_from-push v n

read_bytes-push_bytes :
    (bytes rest : List ℕ)
    → All (λ b. b < 256) bytes
    → read_bytes (length bytes) (push_bytes bytes ++ rest) ≡ bytes
unfolding read_bytes push_bytes
read_bytes-push_bytes [] rest h = refl
read_bytes-push_bytes (b ∷ bytes) rest h =
    let small : b / 2 ^ 8 ≡ 0 = omega (arith, h.0) in
    let moved = append_assoc (push b 8) (push_bytes bytes) rest in
    rw moved (
      rw (read-push b 8 (push_bytes bytes ++ rest) small, drop-push b 8 (push_bytes bytes ++ rest))
        (ap (λ k. b ∷ k) (read_bytes-push_bytes bytes rest h.1)))

push_bytes-append : (xs ys : List ℕ) → push_bytes (xs ++ ys) ≡ push_bytes xs ++ push_bytes ys
unfolding push_bytes
push_bytes-append [] ys = refl
push_bytes-append (x ∷ xs) ys =
    ap (λ k. push x 8 ++ k) (push_bytes-append xs ys)
    ∙ sym (append_assoc (push x 8) (push_bytes xs) (push_bytes ys))

length-filler : (i n : ℕ) → length (filler i n) ≡ n
unfolding filler
length-filler i zero = refl
length-filler i (suc n) = ap suc (length-filler (suc i) n)

-- Each of the ten versions has room for the header, and its count of bytes fits the bits that are given to it.
abbrev HasRoom : ℕ → ℕ → Type 0
HasRoom version total = (16 ≤ total) × (total < 2 ^ count_bits version)

versions-HaveRoom : All (λ (z : VersionSpec). HasRoom z.version (data_codewords z)) versions
versions-HaveRoom =
    let room : (version total : ℕ)
        → leb 16 total && ltb total (2 ^ count_bits version) ≡ true
        → HasRoom version total =
      (λ version total h.
        (leb→le 16 total (ground arith), ltb→lt total (2 ^ count_bits version) (ground arith))) in
    (
      room 1 16 refl,
      (
        room 2 28 refl,
        (
          room 3 44 refl,
          (
            room 4 64 refl,
            (
              room 5 86 refl,
              (
                room 6 108 refl,
                (room 7 124 refl, (room 8 154 refl, (room 9 182 refl, (room 10 216 refl, tt)))),
              ),
            ),
          ),
        ),
      ),
    )

spec_of-HasRoom : (v : ℕ) (s : VersionSpec) → spec_of v ≡ some s → HasRoom v (data_codewords s)
unfolding spec_of
spec_of-HasRoom v s e =
    let room =
      All-find (λ (z : VersionSpec). HasRoom z.version (data_codewords z))
        (λ (z : VersionSpec). z.version == v) versions versions-HaveRoom e in
    let same : s.version ≡ v =
      (nat_beq_iff s.version v).0 (find-holds (λ (z : VersionSpec). z.version == v) versions e) in
    (room.0, rw (sym same) room.1)

abbrev Fits : ℕ → ℕ → Type 0
Fits n v = (s : VersionSpec) × (spec_of v ≡ some s) × (n ≤ capacity s v)

pick_step :
    (found : Option VersionSpec) (from n v : ℕ) (later : Option ℕ)
    → try_version (capacity_of found from) from n later ≡ some v
    → ((s : VersionSpec) × (found ≡ some s) × (n ≤ capacity s from) × (from ≡ v)) ⊎ (later ≡ some v)
pick_step none from n v later e = cc
pick_step (some s) from n v later e = elim (Bool-cases (leb n (capacity s from))) [
  | inl hit ↦ inl (s, refl, leb→le n (capacity s from) hit, ground arith)
  | inr miss ↦ inr (ground arith)
]

pick_from-Fits : (left from n v : ℕ) → pick_from left from n ≡ some v → Fits n v
unfolding pick_from capacity_bytes
pick_from-Fits zero from n v e = cc
pick_from-Fits (suc left) from n v e =
    elim (pick_step (spec_of from) from n v (pick_from left (suc from) n) e) [
      | inl here ↦ rw (sym here.3) (here.0, here.1, here.2)
      | inr later ↦ pick_from-Fits left (suc from) n v later
    ]

count_bits_octets : (v : ℕ) → (count_bits v ≡ 8 * (count_bits v / 8)) × (count_bits v / 8 ≤ 2)
count_bits_octets v = elim (Bool-cases (ltb v 10)) [
  | inl low ↦ rw low (refl, omega arith)
  | inr high ↦ rw high (refl, omega arith)
]

module _ (bytes : List ℕ) (v total : ℕ) (big : 16 ≤ total)
    (fits : length bytes ≤ total - 1 - count_bits v / 8) where
  abbrev octets : ℕ
  octets = suc (count_bits v / 8) + length bytes

  length-header_bits : length (header_bits bytes v) ≡ 4 + (count_bits v + 8 * length bytes)
  length-header_bits =
      length-append (push 4 4) (push (length bytes) (count_bits v) ++ push_bytes bytes)
      ∙ rw
          (
            length-push 4 4,
            length-append (push (length bytes) (count_bits v)) (push_bytes bytes),
            length-push (length bytes) (count_bits v),
            length-push_bytes bytes,
          )
          refl

  terminated-header_bits : terminated total (header_bits bytes v) ≡ header_bits bytes v ++ push 0 4
  terminated-header_bits =
      let width = count_bits_octets v in
      let four : min 4 (total * 8 - length (header_bits bytes v)) ≡ 4 =
        omega (arith, length-header_bits, width.0, width.1, big, fits) in
      ap (λ k. header_bits bytes v ++ push 0 k) four

  length-padded : length (header_bits bytes v ++ push 0 4) ≡ 8 * octets
  length-padded =
      let width = count_bits_octets v in
      length-append (header_bits bytes v) (push 0 4)
      ∙ omega (arith, length-header_bits, length-push 0 4, width.0)

  aligned-terminated :
      aligned (terminated total (header_bits bytes v)) ≡ header_bits bytes v ++ push 0 4
  aligned-terminated =
      let even : length (header_bits bytes v ++ push 0 4) % 8 == 0 ≡ true =
        (nat_beq_iff (length (header_bits bytes v ++ push 0 4) % 8) 0).1
          (omega (arith, length-padded)) in
      ap aligned terminated-header_bits ∙ rw even refl

  abbrev written : List ℕ
  written = to_bytes (header_bits bytes v ++ push 0 4)

  written-read : (push_bytes written ≡ header_bits bytes v ++ push 0 4) × (length written ≡ octets)
  written-read = push_bytes-to_bytes octets (header_bits bytes v ++ push 0 4) length-padded (
      All-append _ (header_bits bytes v) (push 0 4)
        (All-append _ (push 4 4) (push (length bytes) (count_bits v) ++ push_bytes bytes)
          (push-AreBits 4 4)
          (All-append _ (push (length bytes) (count_bits v)) (push_bytes bytes)
            (push-AreBits (length bytes) (count_bits v)) (push_bytes-AreBits bytes)))
        (push-AreBits 0 4))

  fill_up-written : fill_up total written ≡ some (written ++ filler 0 (total - length written))
  fill_up-written =
      let width = count_bits_octets v in
      let room : leb (length written) total ≡ true =
        let enough : length written ≤ total = omega (arith, written-read.1, fits, big, width.1) in
        ground (arith, enough) in
      rw room refl

  length-written : length (written ++ filler 0 (total - length written)) ≡ total
  length-written =
      let width = count_bits_octets v in
      length-append written (filler 0 (total - length written))
      ∙ omega (arith, length-filler 0 (total - length written), written-read.1, fits, big)

  decode_data-written :
      All (λ b. b < 256) bytes
      → total < 2 ^ count_bits v
      → decode_data (written ++ filler 0 (total - length written)) v ≡ some bytes
  unfolding decode_data
  decode_data-written h room =
      let rest = push 0 4 ++ push_bytes (filler 0 (total - length written)) in
      let counted = push_bytes bytes ++ rest in
      let small : length bytes / 2 ^ count_bits v ≡ 0 = div-eq_of_lt (omega (arith, room, fits)) in
      let split : push_bytes (written ++ filler 0 (total - length written))
          ≡ push 4 4 ++ (push (length bytes) (count_bits v) ++ counted) =
        push_bytes-append written (filler 0 (total - length written))
        ∙ ap (λ z. z ++ push_bytes (filler 0 (total - length written))) written-read.0
        ∙ regroup (push 4 4) (push (length bytes) (count_bits v)) (push_bytes bytes) (push 0 4)
            (push_bytes (filler 0 (total - length written))) in
      let count : value_from 0 (take (count_bits v) (push (length bytes) (count_bits v) ++ counted))
          ≡ length bytes =
        read-push (length bytes) (count_bits v) counted small in
      rw split (
        rw
          (
            read-push 4 4 (push (length bytes) (count_bits v) ++ counted) refl,
            drop-push 4 4 (push (length bytes) (count_bits v) ++ counted),
          )
          (rw (count, drop-push (length bytes) (count_bits v) counted)
            (ap some (read_bytes-push_bytes bytes rest h))))

-- Bytes for which pickVersion finds a version are encoded, in exactly as many codewords as the version has for
-- data, and a reader of the codewords gets the bytes back.
pub decode_data-encode_data :
    (bytes : List ℕ) (v : ℕ)
    → All (λ b. b < 256) bytes
    → pick_version (length bytes) ≡ some v
    → (s : VersionSpec) × (codewords : List ℕ) × (spec_of v ≡ some s)
      × (encode_data bytes v ≡ some codewords)
      × (length codewords ≡ data_codewords s)
      × (decode_data codewords v ≡ some bytes)
unfolding encode_data
decode_data-encode_data bytes v h picked =
    let (s, known, fits) = pick_from-Fits max_version 1 (length bytes) v picked in
    let room = spec_of-HasRoom v s known in
    let total = data_codewords s in
    (
      s,
      written bytes v total room.0 fits
          ++ filler 0 (total - length (written bytes v total room.0 fits)),
      known,
      ap (λ o. encode_with o bytes v) known
          ∙ ap (λ z. fill_up total (to_bytes z)) (aligned-terminated bytes v total room.0 fits)
          ∙ fill_up-written bytes v total room.0 fits,
      length-written bytes v total room.0 fits,
      decode_data-written bytes v total room.0 fits h room.1,
    )
