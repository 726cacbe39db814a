-- ===== src/Files/Resolve/Safe.antt =====
-- What `resolveSafe` returns.
use opennas.Base.{
  find-holds, false, List, [], ◌∷◌, ◌++◌, ◌≡◌, refl, ap, ◌∙◌, inl, inr, if◌then◌else◌, ◌==◌, nat_eq,
  list_eq, Bool-cases, Option-cases, none, some, Text, is_empty, join, has_unit, All, All-append,
  arith, list_beq_iff,
}
use opennas.Shares.{ShareRow, get_share_row_by_name}
use opennas.Files.Paths.{is_absolute, join_args, resolve, normalize_virtual, virtual_segments}
use opennas.Files.Paths.Canonical.{IsSafe, segments_of, segments_of-IsSafe, canonical}
use opennas.Files.Paths.Normal.{virtual_segments-segments_of}
use opennas.Files.Resolve.{
  PathResult, ok, err, invalid_path, share_list, no_such_share, Roots, base_of, share_base_real,
  real_of, check_inside, resolve_segs, resolve_safe,
}
use opennas.Files.Resolve.Confine.{
  resolve-canonical, segments_of-append, below, real_of_eq, check_inside-below,
}

-- The folder that holds a share's own.
abbrev pub parent_of : Roots → ShareRow → Text
parent_of roots row =
    if is_empty row.volume then roots.files else join_args roots.volumes (row.volume ∷ [])

not_absolute : (name : Text) → IsSafe name → is_absolute name ≡ false
unfolding has_unit
not_absolute [] h = refl
not_absolute (c ∷ name) h = ground arith

join_args_name :
    (base name : Text) → IsSafe name → join_args base (name ∷ []) ≡ base ++ canonical (name ∷ [])
unfolding join_args join
join_args_name base name h = rw (h.0, not_absolute name h)

resolve_name :
    (base name : Text)
    → IsSafe name
    → resolve base (name ∷ []) ≡ canonical (segments_of base ++ name ∷ [])
resolve_name base name h =
    resolve-canonical base (name ∷ [])
    ∙ ap (λ t. canonical (segments_of t)) (join_args_name base name h)
    ∙ ap canonical (segments_of-append base name [] (h, tt))

resolve_pair :
    (base dir name : Text)
    → resolve base (dir ∷ name ∷ []) ≡ resolve (join_args base (dir ∷ [])) (name ∷ [])
unfolding resolve join_args
resolve_pair base dir name = refl

-- A share's folder is a direct child of the folder that holds it.
pub base_of-canonical :
    (roots : Roots) (row : ShareRow)
    → IsSafe row.name
    → base_of roots row ≡ canonical (segments_of (parent_of roots row) ++ row.name ∷ [])
unfolding base_of
base_of-canonical roots row h = elim (Bool-cases (is_empty row.volume)) [
  | inl root ↦ rw root (resolve_name roots.files row.name h)
  | inr volume ↦
      rw (volume, resolve_pair roots.volumes row.volume row.name)
        (resolve_name (join_args roots.volumes (row.volume ∷ [])) row.name h)
]

pub get_share_row_by_name-name :
    (rows : List ShareRow) (name : Text) {row : ShareRow}
    → get_share_row_by_name rows name ≡ some row
    → row.name ≡ name
unfolding get_share_row_by_name
get_share_row_by_name-name rows name {row} e =
    (list_beq_iff row.name name).0 (find-holds (λ r. r.name == name) rows e)

pub append_full : (bs : List Text) (s : Text) → is_empty (bs ++ s ∷ []) ≡ false
append_full [] s = refl
append_full (b ∷ bs) s = refl

-- A base below a safe share name is never empty, so `resolveSafe` returns the base and the rest.
resolve_row :
    (roots : Roots) (row : ShareRow) (segs : List Text)
    → IsSafe row.name
    → All IsSafe segs
    → check_inside (base_of roots row) (real_of (base_of roots row) segs)
      ≡ ok (base_of roots row ++ below segs)
resolve_row roots row segs hn h =
    let bs = segments_of (parent_of roots row) ++ row.name ∷ [] in
    rw
      (
        base_of-canonical roots row hn,
        real_of_eq bs segs (append_full (segments_of (parent_of roots row)) row.name)
            (All-append IsSafe (segments_of (parent_of roots row)) (row.name ∷ [])
              (segments_of-IsSafe (parent_of roots row)) (hn, tt))
            h,
      )
      (check_inside-below (canonical bs) segs)

-- The result that `resolveSafe` has for the segments of a path.
abbrev pub real_path : Roots → List ShareRow → List Text → PathResult
real_path roots rows [] = err share_list
real_path roots rows (name ∷ segs) = elim (get_share_row_by_name rows name) [
  | none ↦ err no_such_share
  | some row ↦ ok (base_of roots row ++ below segs)
]

base_of_full :
    (roots : Roots) (row : ShareRow) → IsSafe row.name → is_empty (base_of roots row) ≡ false
base_of_full roots row h = ap is_empty (base_of-canonical roots row h)

resolve_segs_eq :
    (roots : Roots) (rows : List ShareRow) (segs : List Text)
    → All IsSafe segs
    → resolve_segs roots rows segs ≡ real_path roots rows segs
unfolding share_base_real
resolve_segs_eq roots rows [] h = refl
resolve_segs_eq roots rows (name ∷ segs) h = elim (Option-cases (get_share_row_by_name rows name)) [
  | inl missing ↦ rw (missing, resolve_segs, real_path, share_base_real)
  | inr (row, found) ↦
      let safe : IsSafe row.name = rw (get_share_row_by_name-name rows name found) h.0 in
      rw (found, resolve_segs, real_path, share_base_real)
        (rw (base_of_full roots row safe) (resolve_row roots row segs safe h.1))
]

-- `resolveSafe` in full: a path with a NUL is refused, the root is the list of shares, an unknown
-- share is refused, and any other path is the share's folder followed by the segments below it. The
-- check for an escape never fails.
pub resolve_safe-real_path :
    (roots : Roots) (rows : List ShareRow) (path : Text)
    → (resolve_safe roots rows path ≡ (
        if has_unit 0 (normalize_virtual path)
        then err invalid_path
        else real_path roots rows (virtual_segments path)))
      × All IsSafe (virtual_segments path)
unfolding resolve_safe
resolve_safe-real_path roots rows path =
    let safe : All IsSafe (virtual_segments path) =
      rw (virtual_segments-segments_of path) (segments_of-IsSafe path) in
    (
      rw (← resolve_segs_eq roots rows (virtual_segments path) safe)
          (unfold virtual_segments in refl),
      safe,
    )
