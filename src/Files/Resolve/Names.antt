-- ===== src/Files/Resolve/Names.antt =====
-- The names that `validateName` accepts.
use opennas.Base.{
  ◌≤◌, ◌≡◌, refl, sym, ◌∙◌, inl, inr, true, false, ◌||◌, [], ◌∷◌, ◌++◌, arith, ltb, if◌then◌else◌,
  Bool-cases, ◌==◌, nat_eq, string_eq, list_eq, ==_self, length, Text, is_empty, join, has_unit,
  Free, split_single,
}
use opennas.Files.Paths.{slash, dot, dotdot, posix_normalize, virtual_segments, ends_with_slash}
use opennas.Files.Paths.Canonical.{IsSafe, resolve_segments_safe}
use opennas.Files.Paths.Normal.{virtual_segments-segments_of}
use opennas.Files.Resolve.Confine.{segments_of-append}
use opennas.Files.Resolve.{
  PathResult, ok, err, invalid_name, has_slashes, too_long, trim, validate_name,
}

ends_with_slash-Free : (w : Text) → Free slash w → ends_with_slash w ≡ false
unfolding has_unit
ends_with_slash-Free [] h = refl
ends_with_slash-Free (c ∷ []) h = ground arith
ends_with_slash-Free (c ∷ d ∷ w) h = ground (arith, ends_with_slash-Free (d ∷ w))

-- A safe segment is its own normal form.
posix_normalize_safe : (w : Text) → IsSafe w → posix_normalize w ≡ w
posix_normalize_safe [] h = cc h.0
posix_normalize_safe (c ∷ w) h =
    let relative : (c == slash) ≡ false = unfold has_unit in ground (arith, h.3) in
    unfold posix_normalize in
    rw
      (
        relative,
        ends_with_slash-Free (c ∷ w) h.3,
        split_single slash (c ∷ w) h.3,
        resolve_segments_safe true [] ((c ∷ w) ∷ []) (h, tt),
      )
      (unfold join in refl)

-- What is tested of a trimmed name.
abbrev pub checked : Text → PathResult
checked t =
    if is_empty t || t == dot || t == dotdot
    then err invalid_name
    else if has_unit 92 t || has_unit slash t || has_unit 0 t
    then err has_slashes
    else if ltb 255 (length t)
    then err too_long
    else ok t

names-IsSafe :
    (t : Text)
    → (is_empty t || t == dot || t == dotdot) ≡ false
    → (has_unit 92 t || has_unit slash t || has_unit 0 t) ≡ false
    → IsSafe t
names-IsSafe t word free = (ground arith, ground arith, ground arith, ground arith)

-- Its test for a change by normalisation never fails.
pub validate_name-checked : (name : Text) → validate_name name ≡ checked (trim name)
unfolding validate_name
validate_name-checked name =
    elim (Bool-cases (is_empty (trim name) || trim name == dot || trim name == dotdot)) [
      | inl bad ↦ rw bad
      | inr word ↦
          elim (Bool-cases
            (has_unit 92 (trim name) || has_unit slash (trim name) || has_unit 0 (trim name))) [
              | inl slashed ↦ rw (word, slashed)
              | inr free ↦ rw (
                word,
                free,
                posix_normalize_safe (trim name) (names-IsSafe (trim name) word free),
                ==_self (trim name),
              )
            ]
    ]

checked_ok :
    (t w : Text)
    → checked t ≡ ok w
    → (w ≡ t) × IsSafe w × (has_unit 0 w ≡ false) × (has_unit 92 w ≡ false) × (length w ≤ 255)
checked_ok t w e = elim (Bool-cases (is_empty t || t == dot || t == dotdot)) [
  | inl bad ↦ ground arith
  | inr word ↦ elim (Bool-cases (has_unit 92 t || has_unit slash t || has_unit 0 t)) [
    | inl slashed ↦ ground arith
    | inr free ↦
        let same : w ≡ t = ground arith in
        let short : length t ≤ 255 = ground arith in
        (
          same,
          rw same (names-IsSafe t word free),
          rw same (ground arith),
          rw same (ground arith),
          rw same short,
        )
  ]
]

-- A name that `validateName` accepts is the trimmed name, a safe segment of at most 255 units with
-- neither NUL nor backslash; put behind a folder's path, it adds itself as the one further segment.
pub validate_name_accepts :
    (name dir w : Text)
    → validate_name name ≡ ok w
    → (w ≡ trim name)
      × IsSafe w
      × (length w ≤ 255)
      × (has_unit 0 w ≡ false)
      × (has_unit 92 w ≡ false)
      × (virtual_segments (dir ++ slash ∷ w) ≡ virtual_segments dir ++ w ∷ [])
validate_name_accepts name dir w e =
    let (same, safe, nul, back, short) =
      checked_ok (trim name) w (sym (validate_name-checked name) ∙ e) in
    (
      same,
      safe,
      short,
      nul,
      back,
      rw (virtual_segments-segments_of (dir ++ slash ∷ w), virtual_segments-segments_of dir)
          (rw join_one at (segments_of-append dir w [] (safe, tt))),
    )
  where
    join_one : join slash (w ∷ []) ≡ w
    join_one = unfold join in refl
