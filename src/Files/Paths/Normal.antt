-- ===== src/Files/Paths/Normal.antt =====
-- What `normalizeVirtual` computes.
use opennas.Base.{
  Bool, true, false, ◌&&◌, List, [], ◌∷◌, ◌++◌, ◌≡◌, refl, ap, ◌∙◌, if◌then◌else◌, ◌==◌, nat_eq,
  list_eq, Text, is_empty, split, join, has_unit, non_empty, All, arith, Free, split-append,
  split-join,
}
use opennas.Files.Paths.{
  slash, ends_with_slash, assemble, posix_normalize, strip_slashes, normalize_virtual,
  virtual_segments,
}
use opennas.Files.Paths.Canonical.{
  IsSafe, segments_of, segments_of-IsSafe, canonical, safe-Free, segments_of-canonical,
  segments_of-slash,
}

-- A text that ends in something else than a slash, whatever stands before it.
strip-append :
    (u v : Text) → is_empty v ≡ false → strip_slashes v ≡ v → strip_slashes (u ++ v) ≡ u ++ v
unfolding strip_slashes
strip-append [] v h e = e
strip-append (x ∷ u) v h e = rw (strip-append u v h e) (drop_test u v h)
  where
    drop_test :
        (u v : Text)
        → is_empty v ≡ false
        → (if x == slash && is_empty (u ++ v) then [] else x ∷ (u ++ v)) ≡ x ∷ (u ++ v)
    drop_test [] v h = rw h (ground arith)
    drop_test (y ∷ u) v h = ground arith

strip_trailing : (s : Text) → strip_slashes (s ++ slash ∷ []) ≡ strip_slashes s
unfolding strip_slashes
strip_trailing [] = refl
strip_trailing (x ∷ s) = rw (strip_trailing s)

strip-Free : (w : Text) → Free slash w → strip_slashes w ≡ w
unfolding strip_slashes has_unit
strip-Free [] h = refl
strip-Free (x ∷ w) h = ground (arith, strip-Free w)

strip-join :
    (w : Text) (ws : List Text)
    → All IsSafe (w ∷ ws)
    → (strip_slashes (join slash (w ∷ ws)) ≡ join slash (w ∷ ws))
      × (is_empty (join slash (w ∷ ws)) ≡ false)
unfolding join
strip-join w [] h = (strip-Free w h.0.3, h.0.0)
strip-join [] (v ∷ ws) h = cc h.0.0
strip-join (x ∷ w) (v ∷ ws) h =
    let (same, full) = strip-join v ws h.1 in
    (
      strip-append (x ∷ w) (slash ∷ join slash (v ∷ ws)) refl
          (strip-append (slash ∷ []) (join slash (v ∷ ws)) full same),
      refl,
    )

assemble_full :
    (trailing : Bool) (body : Text)
    → is_empty body ≡ false
    → strip_slashes (assemble true trailing body) ≡ strip_slashes (slash ∷ body)
assemble_full trailing [] h = cc
assemble_full true (c ∷ body) h = strip_trailing (slash ∷ c ∷ body)
assemble_full false (c ∷ body) h = refl

strip-assemble :
    (trailing : Bool) (segs : List Text)
    → All IsSafe segs
    → (let clean = strip_slashes (assemble true trailing (join slash segs)) in
        if is_empty clean then slash ∷ [] else clean)
      ≡ canonical segs
strip-assemble true [] h = unfold strip_slashes join in refl
strip-assemble false [] h = unfold strip_slashes join in refl
strip-assemble trailing (w ∷ ws) h =
    let (same, full) = strip-join w ws h in
    rw (
      assemble_full trailing (join slash (w ∷ ws)) full,
      strip-append (slash ∷ []) (join slash (w ∷ ws)) full same,
    )

segments_of_empty : segments_of (slash ∷ []) ≡ segments_of []
segments_of_empty = segments_of-slash []

-- `normalizeVirtual` returns the canonical path of the segments that "." and ".." leave.
pub normalize_virtual-canonical :
    (path : Text) → normalize_virtual path ≡ canonical (segments_of path)
unfolding normalize_virtual posix_normalize segments_of
normalize_virtual-canonical [] =
    strip-assemble true (segments_of (slash ∷ slash ∷ [])) (segments_of-IsSafe (slash ∷ slash ∷ []))
    ∙ ap canonical (segments_of-slash (slash ∷ []) ∙ segments_of-slash [])
normalize_virtual-canonical (c ∷ path) =
    strip-assemble (ends_with_slash (c ∷ path)) (segments_of (slash ∷ c ∷ path))
      (segments_of-IsSafe (slash ∷ c ∷ path))
    ∙ ap canonical (segments_of-slash (c ∷ path))

non_empty_safe : (segs : List Text) → All IsSafe segs → non_empty segs ≡ segs
non_empty_safe [] h = refl
non_empty_safe (s ∷ segs) h = ground (arith, non_empty_safe segs h.1)

pub non_empty-split-canonical :
    (segs : List Text) → All IsSafe segs → non_empty (split slash (canonical segs)) ≡ segs
non_empty-split-canonical [] h = unfold split join in refl
non_empty-split-canonical (s ∷ segs) h =
    rw
      (
        split-append slash [] (join slash (s ∷ segs)),
        split-join slash s segs h.0.3 (safe-Free segs h.1),
      )
      (unfold split in non_empty_safe (s ∷ segs) h)

pub virtual_segments-segments_of : (path : Text) → virtual_segments path ≡ segments_of path
unfolding virtual_segments
virtual_segments-segments_of path =
    rw (normalize_virtual-canonical path)
      (non_empty-split-canonical (segments_of path) (segments_of-IsSafe path))

-- The normal form of a path is "/" and its virtual segments joined by "/"; each segment is non-empty,
-- is neither "." nor ".." and holds no slash; and normalising a second time changes nothing.
pub normalize_virtual_form :
    (path : Text)
    → (normalize_virtual path ≡ canonical (virtual_segments path))
      × All IsSafe (virtual_segments path)
      × (normalize_virtual (normalize_virtual path) ≡ normalize_virtual path)
normalize_virtual_form path = rw (virtual_segments-segments_of path) (
  normalize_virtual-canonical path,
  segments_of-IsSafe path,
  normalize_virtual-canonical (normalize_virtual path)
      ∙ rw (normalize_virtual-canonical path)
          (ap canonical (segments_of-canonical (segments_of path) (segments_of-IsSafe path))),
)
