-- ===== src/Files/Paths.antt =====
-- apps/api/src/files/paths.ts, with the functions of Node's `path` module (POSIX) that it uses.
-- Texts are lists of UTF-16 code units; a path error is the `err` of a result.
pub mod Canonical
pub mod Normal
use mathlib.Core.List.{reverse}
use opennas.Base.{
  ℕ, Bool, false, ◌&&◌, ◌||◌, not, List, [], ◌∷◌, ◌++◌, if◌then◌else◌, ◌==◌, nat_eq, list_eq,
  length, Text, is_empty, split, join, non_empty,
}

abbrev pub slash : ℕ
slash = b'/'

abbrev pub dot : Text
dot = b'.' ∷ []

abbrev pub dotdot : Text
dotdot = b'.' ∷ b'.' ∷ []

abbrev pub climb : Bool → List Text → List Text
climb above [] = if above then dotdot ∷ [] else []
climb above (top ∷ rest) = if above && top == dotdot then dotdot ∷ top ∷ rest else rest

-- One segment of Node's `normalizeString`; the stack has its top at the head. `above` keeps the
-- ".." that climb out of a relative path.
unfoldable pub resolve_segment : Bool → List Text → Text → List Text
resolve_segment above stack seg =
    if is_empty seg || seg == dot
    then stack
    else if seg == dotdot
    then climb above stack
    else seg ∷ stack

unfoldable pub resolve_segments : Bool → List Text → List Text → List Text
resolve_segments above stack [] = reverse stack
resolve_segments above stack (seg ∷ segs) =
    resolve_segments above (resolve_segment above stack seg) segs

abbrev pub is_absolute : Text → Bool
is_absolute [] = false
is_absolute (c ∷ s) = c == slash

abbrev pub ends_with_slash : Text → Bool
ends_with_slash [] = false
ends_with_slash (c ∷ []) = c == slash
ends_with_slash (c ∷ d ∷ s) = ends_with_slash (d ∷ s)

-- The last lines of `posix.normalize`, for the body that `normalizeString` returns.
abbrev pub assemble : Bool → Bool → Text → Text
assemble absolute trailing [] =
    if absolute then slash ∷ [] else if trailing then b'.' ∷ slash ∷ [] else dot
assemble absolute trailing (c ∷ body) =
    let path = if trailing then (c ∷ body) ++ (slash ∷ []) else c ∷ body in
    if absolute then slash ∷ path else path

unfoldable pub posix_normalize : Text → Text
posix_normalize [] = dot
posix_normalize (c ∷ path) =
    assemble (c == slash) (ends_with_slash (c ∷ path))
      (join slash (resolve_segments (not (c == slash)) [] (split slash (c ∷ path))))

-- The path that `path.resolve` normalises: an absolute argument starts it anew.
unfoldable pub join_args : Text → List Text → Text
join_args current [] = current
join_args current (arg ∷ args) =
    join_args
      (if is_empty arg then current else if is_absolute arg then arg else current ++ (slash ∷ arg))
      args

-- `path.resolve`, where `base` is absolute.
unfoldable pub resolve : Text → List Text → Text
unfolding join_args
resolve base args =
    slash ∷ join slash (resolve_segments false [] (split slash (join_args base args)))

-- `.replace(/\/+$/, "")`.
unfoldable pub strip_slashes : Text → Text
strip_slashes [] = []
strip_slashes (c ∷ s) =
    let rest = strip_slashes s in if c == slash && is_empty rest then [] else c ∷ rest

unfoldable pub normalize_virtual : Text → Text
unfolding strip_slashes
normalize_virtual path =
    let clean =
      strip_slashes (posix_normalize (slash ∷ (if is_empty path then slash ∷ [] else path))) in
    if is_empty clean then slash ∷ [] else clean

unfoldable pub virtual_segments : Text → List Text
virtual_segments path = non_empty (split slash (normalize_virtual path))

unfoldable pub is_share_root : Text → Bool
is_share_root path = length (virtual_segments path) == 1
