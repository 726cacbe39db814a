-- ===== src/Files/Paths/Canonical.antt =====
-- The canonical form of a virtual path: "/" and safe segments joined by "/".
use mathlib.Core.List.{append-nil, append_assoc, reverse, reverse-cons}
use opennas.Base.{
  Bool, false, ◌||◌, List, [], ◌∷◌, ◌++◌, ◌≡◌, refl, sym, ◌∙◌, inl, inr, ◌==◌, nat_eq, list_eq,
  Bool-cases, Text, is_empty, split, join, All, arith, Free, split-join, split-Free, All-reverse,
}
use opennas.Files.Paths.{slash, dot, dotdot, climb, resolve_segment, resolve_segments}

-- A segment that stays where it is: not empty, not "." or "..", and free of slashes.
abbrev pub IsSafe : Text → Type 0
IsSafe w = (is_empty w ≡ false) × ((w == dot) ≡ false) × ((w == dotdot) ≡ false) × Free slash w

module _ (above : Bool) where
  resolve_segment_safe :
      (stack : List Text) (seg : Text) → IsSafe seg → resolve_segment above stack seg ≡ seg ∷ stack
  unfolding resolve_segment
  resolve_segment_safe stack seg h = rw (h.0, h.1, h.2)

  -- Safe segments are kept as they are.
  pub resolve_segments_safe :
      (stack segs : List Text)
      → All IsSafe segs
      → resolve_segments above stack segs ≡ reverse stack ++ segs
  unfolding resolve_segments
  resolve_segments_safe stack [] h = sym (append-nil (reverse stack))
  resolve_segments_safe stack (s ∷ segs) h =
      rw
        (
          resolve_segment_safe stack s h.0,
          resolve_segments_safe (s ∷ stack) segs h.1,
          reverse-cons s stack,
        )
        (append_assoc (reverse stack) (s ∷ []) segs)

climb-IsSafe : (stack : List Text) → All IsSafe stack → All IsSafe (climb false stack)
climb-IsSafe [] h = tt
climb-IsSafe (top ∷ rest) h = h.1

resolve_segment-IsSafe :
    (stack : List Text) (seg : Text)
    → All IsSafe stack
    → Free slash seg
    → All IsSafe (resolve_segment false stack seg)
unfolding resolve_segment
resolve_segment-IsSafe stack seg h free = elim (Bool-cases (is_empty seg || seg == dot)) [
  | inl skip ↦ rw skip h
  | inr word ↦ elim (Bool-cases (seg == dotdot)) [
    | inl up ↦ rw (word, up) (climb-IsSafe stack h)
    | inr down ↦ rw (word, down) ((ground arith, ground arith, down, free), h)
  ]
]

-- What is left of an absolute path is safe.
pub resolve_segments-IsSafe :
    (stack segs : List Text)
    → All IsSafe stack
    → All (Free slash) segs
    → All IsSafe (resolve_segments false stack segs)
unfolding resolve_segments
resolve_segments-IsSafe stack [] h free = All-reverse IsSafe stack h
resolve_segments-IsSafe stack (s ∷ segs) h free =
    resolve_segments-IsSafe (resolve_segment false stack s) segs
      (resolve_segment-IsSafe stack s h free.0) free.1

-- The segments of an absolute path, as `posix.normalize` leaves them.
unfoldable pub segments_of : Text → List Text
segments_of path = resolve_segments false [] (split slash path)

pub segments_of-IsSafe : (path : Text) → All IsSafe (segments_of path)
unfolding segments_of
segments_of-IsSafe path = resolve_segments-IsSafe [] (split slash path) tt (split-Free slash path)

abbrev pub canonical : List Text → Text
canonical segs = slash ∷ join slash segs

pub safe-Free : (segs : List Text) → All IsSafe segs → All (Free slash) segs
safe-Free [] h = tt
safe-Free (s ∷ segs) h = (h.0.3, safe-Free segs h.1)

pub segments_of-slash : (path : Text) → segments_of (slash ∷ path) ≡ segments_of path
unfolding segments_of split resolve_segments resolve_segment
segments_of-slash path = refl

-- Taking a canonical path apart gives its segments back.
pub segments_of-canonical :
    (segs : List Text) → All IsSafe segs → segments_of (canonical segs) ≡ segs
segments_of-canonical [] h = unfold segments_of split join resolve_segments resolve_segment in refl
segments_of-canonical (s ∷ segs) h =
    segments_of-slash (join slash (s ∷ segs))
    ∙ (unfold segments_of in
        rw (split-join slash s segs h.0.3 (safe-Free segs h.1))
          (resolve_segments_safe false [] (s ∷ segs) h))
