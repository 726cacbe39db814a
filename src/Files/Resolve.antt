-- ===== src/Files/Resolve.antt =====
-- apps/api/src/files/paths.ts: from virtual paths to real ones and back, and the names of new files.
pub mod Confine
pub mod Safe
pub mod Names
pub mod RoundTrip
use opennas.Base.{
  ℕ, ltb, leb, Bool, true, false, ◌&&◌, ◌||◌, not, List, [], ◌∷◌, ◌++◌, Option, none, some,
  if◌then◌else◌, ◌==◌, nat_eq, list_eq, length, drop, Text, is_empty, split, join, has_unit,
  starts_with, non_empty,
}
use opennas.Shares.{ShareRow, get_share_row_by_name}
use opennas.Files.Paths.{slash, dot, dotdot, posix_normalize, resolve, normalize_virtual}

pub data PathError : Type 0 where
  invalid_path share_list no_such_share escapes : PathError
  invalid_name has_slashes too_long : PathError

pub data PathResult : Type 0 where
  ok : Text → PathResult
  err : PathError → PathResult

-- FILES_ROOT and VOLUMES_ROOT.
pub record Roots : Type 0 where
  pub files : Text
  pub volumes : Text

unfoldable pub base_of : Roots → ShareRow → Text
base_of roots row =
    if is_empty row.volume
    then resolve roots.files (row.name ∷ [])
    else resolve roots.volumes (row.volume ∷ row.name ∷ [])

unfoldable pub share_base_real : Roots → List ShareRow → Text → Option Text
share_base_real roots rows name = elim (get_share_row_by_name rows name) [
  | none ↦ none
  | some row ↦ some (base_of roots row)
]

-- The last lines of `resolveSafe`, for the share's base and the segments below it.
unfoldable pub real_of : Text → List Text → Text
real_of base segs =
    let rest = join slash segs in
    if is_empty rest then base else resolve base ((b'.' ∷ slash ∷ rest) ∷ [])

unfoldable pub check_inside : Text → Text → PathResult
check_inside base real =
    if not (real == base) && not (starts_with real (base ++ (slash ∷ [])))
    then err escapes
    else ok real

abbrev pub resolve_segs : Roots → List ShareRow → List Text → PathResult
resolve_segs roots rows [] = err share_list
resolve_segs roots rows (name ∷ segs) = elim (share_base_real roots rows name) [
  | none ↦ err no_such_share
  | some base ↦ if is_empty base then err no_such_share else check_inside base (real_of base segs)
]

unfoldable pub resolve_safe : Roots → List ShareRow → Text → PathResult
resolve_safe roots rows path =
    let clean = normalize_virtual path in
    if has_unit 0 clean
    then err invalid_path
    else resolve_segs roots rows (non_empty (split slash clean))

-- The loop of `toVirtual`, over the rows in the order of `listShares`.
unfoldable pub find_virtual : Roots → Text → List ShareRow → Text
find_virtual roots real [] = slash ∷ []
find_virtual roots real (s ∷ rows) =
    let base = base_of roots s in
    let later = find_virtual roots real rows in
    if real == base
    then slash ∷ s.name
    else if starts_with real (base ++ (slash ∷ []))
    then (slash ∷ s.name)
      ++ (slash ∷ join slash (non_empty (split slash (drop (length base) real))))
    else later

unfoldable pub to_virtual : Roots → List ShareRow → Text → Text
unfolding find_virtual
to_virtual roots rows real_path = find_virtual roots (resolve real_path []) rows

-- JavaScript's white space and line ends.
abbrev pub is_space : ℕ → Bool
is_space c =
    (leb 9 c && leb c 13)
    || c == 32
    || c == 160
    || c == 0x1680
    || (leb 0x2000 c && leb c 0x200a)
    || c == 0x2028
    || c == 0x2029
    || c == 0x202f
    || c == 0x205f
    || c == 0x3000
    || c == 0xfeff

unfoldable pub trim_start : Text → Text
trim_start [] = []
trim_start (c ∷ s) = let rest = trim_start s in if is_space c then rest else c ∷ s

unfoldable pub trim_end : Text → Text
trim_end [] = []
trim_end (c ∷ s) = let rest = trim_end s in if is_space c && is_empty rest then [] else c ∷ rest

unfoldable pub trim : Text → Text
unfolding trim_start trim_end
trim s = trim_end (trim_start s)

unfoldable pub validate_name : Text → PathResult
validate_name name =
    let trimmed = trim name in
    if is_empty trimmed || trimmed == dot || trimmed == dotdot
    then err invalid_name
    else if has_unit 92 trimmed || has_unit slash trimmed || has_unit 0 trimmed
    then err has_slashes
    else if not (posix_normalize trimmed == trimmed)
    then err invalid_name
    else if ltb 255 (length trimmed)
    then err too_long
    else ok trimmed
