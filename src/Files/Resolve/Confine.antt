-- ===== src/Files/Resolve/Confine.antt =====
-- Where `resolveSafe` leads.
use mathlib.Core.List.{append-nil, append_assoc, reverse, reverse-reverse}
use opennas.Base.{
  false, List, [], ◌∷◌, ◌++◌, ◌≡◌, refl, ap, sym, ◌∙◌, nat_eq, list_eq, Text, is_empty, split, join,
  All, arith, split-append, split-join, starts_with-append, ==_self, list_beq, join-append,
}
use opennas.Files.Paths.{slash, dot, resolve_segment, resolve_segments, join_args, resolve}
use opennas.Files.Paths.Canonical.{
  IsSafe, segments_of, canonical, safe-Free, segments_of-canonical, resolve_segments_safe,
}
use opennas.Files.Resolve.{ok, real_of, check_inside}

-- `resolve` always returns a canonical path.
pub resolve-canonical :
    (base : Text) (args : List Text)
    → resolve base args ≡ canonical (segments_of (join_args base args))
unfolding resolve segments_of
resolve-canonical base args = refl

resolve_segments-append :
    (stack xs ys : List Text)
    → resolve_segments false stack (xs ++ ys)
      ≡ resolve_segments false (reverse (resolve_segments false stack xs)) ys
unfolding resolve_segments
resolve_segments-append stack [] ys = rw (reverse-reverse stack)
resolve_segments-append stack (x ∷ xs) ys =
    resolve_segments-append (resolve_segment false stack x) xs ys

segments_below :
    (path arg : Text) (segs : List Text)
    → resolve_segments false (reverse (segments_of path)) (split slash arg)
      ≡ resolve_segments false (reverse (segments_of path)) segs
    → All IsSafe segs
    → segments_of (path ++ slash ∷ arg) ≡ segments_of path ++ segs
unfolding segments_of
segments_below path arg segs e h =
    rw
      (
        split-append slash path arg,
        resolve_segments-append [] (split slash path) (split slash arg),
        e,
        resolve_segments_safe false (reverse (segments_of path)) segs h,
      )
      (ap (λ l. l ++ segs) (reverse-reverse (segments_of path)))

-- Safe segments below a path are added to its own.
pub segments_of-append :
    (path : Text) (s : Text) (segs : List Text)
    → All IsSafe (s ∷ segs)
    → segments_of (path ++ canonical (s ∷ segs)) ≡ segments_of path ++ s ∷ segs
segments_of-append path s segs h =
    segments_below path (join slash (s ∷ segs)) (s ∷ segs)
      (ap (resolve_segments false (reverse (segments_of path)))
        (split-join slash s segs h.0.3 (safe-Free segs h.1)))
      h

-- So are those behind a "./".
segments_of_dot :
    (path : Text) (s : Text) (segs : List Text)
    → All IsSafe (s ∷ segs)
    → segments_of (path ++ slash ∷ b'.' ∷ canonical (s ∷ segs)) ≡ segments_of path ++ s ∷ segs
segments_of_dot path s segs h =
    segments_below path (b'.' ∷ canonical (s ∷ segs)) (s ∷ segs)
      (ap (resolve_segments false (reverse (segments_of path)))
          (split-append slash dot (join slash (s ∷ segs)))
        ∙ dot_skipped
        ∙ ap (resolve_segments false (reverse (segments_of path)))
            (split-join slash s segs h.0.3 (safe-Free segs h.1)))
      h
  where
    dot_skipped :
        resolve_segments false
          (reverse (segments_of path))
          (split slash dot ++ split slash (join slash (s ∷ segs)))
        ≡ resolve_segments false (reverse (segments_of path)) (split slash (join slash (s ∷ segs)))
    dot_skipped = unfold split resolve_segments resolve_segment list_beq in refl

pub canonical-append :
    (bs : List Text) (s : Text) (segs : List Text)
    → is_empty bs ≡ false
    → canonical (bs ++ s ∷ segs) ≡ canonical bs ++ canonical (s ∷ segs)
canonical-append bs s segs h = ap (λ t. slash ∷ t) (join-append slash bs s segs h)

-- What `resolveBelow` appends to the share's folder.
abbrev pub below : List Text → Text
below [] = []
below (s ∷ segs) = canonical (s ∷ segs)

join_full :
    (s : Text) (segs : List Text) → is_empty s ≡ false → is_empty (join slash (s ∷ segs)) ≡ false
unfolding join
join_full s [] h = h
join_full [] (v ∷ segs) h = cc
join_full (c ∷ s) (v ∷ segs) h = refl

pub real_of_eq :
    (bs segs : List Text)
    → is_empty bs ≡ false
    → All IsSafe bs
    → All IsSafe segs
    → real_of (canonical bs) segs ≡ canonical bs ++ below segs
unfolding real_of join_args
real_of_eq bs [] full hb h = unfold join in sym (append-nil (canonical bs))
real_of_eq bs (s ∷ segs) full hb h = rw (join_full s segs h.0.0) (
    resolve-canonical (canonical bs) _
    ∙ ap canonical (segments_of_dot (canonical bs) s segs h)
    ∙ ap (λ l. canonical (l ++ s ∷ segs)) (segments_of-canonical bs hb)
    ∙ canonical-append bs s segs full)

-- The check for an escape never fails below a base.
pub check_inside-below :
    (base : Text) (segs : List Text)
    → check_inside base (base ++ below segs) ≡ ok (base ++ below segs)
unfolding check_inside
check_inside-below base [] = rw (append-nil base, ==_self base)
check_inside-below base (s ∷ segs) =
    rw
      (
        ← append_assoc base (slash ∷ []) (join slash (s ∷ segs)),
        starts_with-append (base ++ slash ∷ []) (join slash (s ∷ segs)),
      )
      (ground arith)
