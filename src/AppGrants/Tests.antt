-- ===== src/AppGrants/Tests.antt =====
-- Runs of the functions on grants, and the theorems there.
use opennas.Base.{
  String, ◌≡◌, refl, true, false, Option, none, some, List, [], ◌∷◌, arith, nat_eq, string_eq,
  list_eq, list_beq, length, All, codes, split, join, has_unit, starts_with,
}
use opennas.Files.Paths.{
  posix_normalize, resolve_segments, resolve_segment, normalize_virtual, virtual_segments,
  strip_slashes,
}
use opennas.Shares.{ShareTables}
use opennas.Files.Access.{admin, User, Tables, path_access}
use opennas.AppGrants.{
  dir, read, readwrite, GrantRow, GrantRow, grant_path, to_grant, make_room, least_used,
  update_grant, revoke_grant_for_user, revoke_grant, revoke_all_for_app, ResolvedPath, Options,
  resolve_handle, resolve_permission, resolve_grant,
}
use opennas.AppGrants.Handed.{
  IsNormal, Handed, AreWithin, resolve_handle-Handed, resolve_grant-AreWithin,
}
use opennas.AppGrants.Limits.{IsWellFormed, grant_path-IsWellFormed}

abbrev shares : ShareTables
shares = record { shares = []; permissions = []; group_permissions = []; members = [] }

abbrev tables : Tables
tables = record { shares = shares; acls = [] }

abbrev root : User
root = record { id = "root"; role = admin }

abbrev photos : GrantRow
photos = record {
  id = "h1";
  app_id = "gallery";
  user_id = "root";
  path = codes "/Media/Photos";
  type = dir;
  mode = read;
  created_at = 5;
  last_used_at = none;
}

grant_code : Unit {0}
unfolding normalize_virtual posix_normalize split join resolve_segments resolve_segment list_beq
    has_unit starts_with resolve_grant resolve_handle resolve_permission path_access grant_path
    to_grant make_room least_used update_grant revoke_grant_for_user revoke_grant revoke_all_for_app
    strip_slashes virtual_segments
grant_code = tt

abbrev ask : String → Options
ask rel = record {
  handle = some "h1";
  path = some (codes rel);
  has_read_permission = false;
  has_write_permission = false;
}

abbrev touched : List GrantRow
touched = record photos { last_used_at = some 9 } ∷ []

handle_tests :
    (resolve_grant tables root "gallery" 9 (photos ∷ []) (ask "a/../b.jpg")
      ≡ some (
        touched,
        some (record { path = codes "/Media/Photos/b.jpg"; read = true; write = false }),
      ))
    × (resolve_grant tables root "gallery" 9 (photos ∷ []) (ask "../Private")
        ≡ some (photos ∷ [], none))
    × (resolve_grant tables root "other" 9 (photos ∷ []) (ask "b.jpg") ≡ some (photos ∷ [], none))
unfolding grant_code
handle_tests = (refl, refl, refl)

grant_tests :
    ((grant_path "h2" 7 (photos ∷ []) "gallery" "root" (codes "Media//Photos/") dir readwrite).0
      ≡ record photos { mode = readwrite } ∷ [])
    × (length ((grant_path "h2" 7 (photos ∷ []) "gallery" "root" (codes "/Media") dir read).0) ≡ 2)
unfolding grant_code
grant_tests = (refl, refl)

photos-IsNormal : All IsNormal (photos ∷ [])
unfolding grant_code
photos-IsNormal = (refl, tt)

photos-IsWellFormed : IsWellFormed (photos ∷ [])
photos-IsWellFormed = record {
  normal = photos-IsNormal;
  bounded = λ app user. ground arith;
  unique = λ app user path. ground arith;
}

resolve_handle-Handed_example :
    (after : List GrantRow) × (result : Option ResolvedPath) × (resolve_handle tables root "gallery"
        9
        (photos ∷ [])
        "h1"
        (codes "a/../b.jpg")
      ≡ some (after, result))
    × Handed tables root "gallery" 9 (photos ∷ []) "h1" (codes "a/../b.jpg") after result
resolve_handle-Handed_example =
    resolve_handle-Handed tables root "gallery" 9 (photos ∷ []) "h1" (codes "a/../b.jpg")
      photos-IsNormal

resolve_grant-AreWithin_example :
    (after : List GrantRow) × (result : Option ResolvedPath) × (resolve_grant tables root "gallery"
        9
        (photos ∷ [])
        (ask "b.jpg")
      ≡ some (after, result))
    × AreWithin tables root result
resolve_grant-AreWithin_example =
    resolve_grant-AreWithin tables root "gallery" 9 (photos ∷ []) (ask "b.jpg")

grant_path-IsWellFormed_example :
    IsWellFormed ((grant_path "h2" 7 (photos ∷ []) "gallery" "root" (codes "/Media") dir read).0)
    × IsWellFormed ((revoke_grant_for_user (photos ∷ []) "root" "h1").0)
    × IsWellFormed ((revoke_grant (photos ∷ []) "gallery" "root" "h1").0)
    × IsWellFormed ((revoke_all_for_app (photos ∷ []) "gallery").0)
grant_path-IsWellFormed_example =
    grant_path-IsWellFormed "h2" 7 (photos ∷ []) "gallery" "root" (codes "/Media") dir read "h1"
      photos-IsWellFormed
