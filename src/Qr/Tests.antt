-- ===== src/Qr/Tests.antt =====
-- Runs of the encoder at concrete inputs.
use opennas.Base.{
  ℕ, ◌≡◌, refl, none, some, List, [], ◌∷◌, arith, nat_eq, string_eq, list_eq, length,
}
use opennas.Qr.Data.{
  VersionSpec, spec_of, data_codewords, capacity_bytes, pick_from, pick_version, push, push_bytes,
  to_bytes, filler, encode_data,
}
use opennas.Qr.Decoded.{decode_data, decode_data-encode_data}

abbrev payload : List ℕ
payload = 79 ∷ 255 ∷ 0 ∷ []

picks :
    (pick_version 14 ≡ some 1)
    × (pick_version 15 ≡ some 2)
    × (pick_version 213 ≡ some 10)
    × (pick_version 214 ≡ none)
unfolding pick_from capacity_bytes spec_of
picks = (refl, refl, refl, refl)

encodes :
    encode_data payload 1
    ≡ some
        (64 ∷ 52 ∷ 255 ∷ 240 ∷ 0 ∷ 236 ∷ 17 ∷ 236 ∷ 17 ∷ 236 ∷ 17 ∷ 236 ∷ 17 ∷ 236 ∷ 17 ∷ 236 ∷ [])
unfolding encode_data spec_of push push_bytes to_bytes filler
encodes = refl

decode_data-encode_data_example :
    (s : VersionSpec) × (codewords : List ℕ) × (spec_of 1 ≡ some s)
    × (encode_data payload 1 ≡ some codewords)
    × (length codewords ≡ data_codewords s)
    × (decode_data codewords 1 ≡ some payload)
unfolding pick_from capacity_bytes spec_of
decode_data-encode_data_example =
    decode_data-encode_data payload 1 (omega arith, (omega arith, (omega arith, tt))) refl
