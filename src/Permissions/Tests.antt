-- ===== src/Permissions/Tests.antt =====
-- A run of `setPermissions`, and the theorem there.
use opennas.Base.{
  String, ◌≡◌, refl, Bool, ◌||◌, none, some, List, [], ◌∷◌, ◌==◌, nat_eq, string_eq, list_eq,
}
use opennas.Shares.{PermissionRow}
use opennas.Permissions.{Permission, replace_permission, insert_permissions, set_permissions}

abbrev permission : String → String → Permission
permission subject level = record { subject = subject; level = level }

abbrev row : String → String → String → PermissionRow
row share subject level = record { share_id = share; subject = subject; level = level }

abbrev rows : List PermissionRow
rows = row "media" "ann" "rw" ∷ row "home" "ann" "ro" ∷ []

abbrev is_user : String → Bool
is_user id = id == "ann" || id == "bob"

abbrev perms : List Permission
perms = permission "bob" "ro" ∷ permission "bob" "rw" ∷ []

permission_code : Unit {0}
unfolding replace_permission insert_permissions set_permissions
permission_code = tt

permission_tests :
    (set_permissions (λ id. id == "media") is_user rows "media" perms
      ≡ some (row "home" "ann" "ro" ∷ row "media" "bob" "rw" ∷ []))
    × (set_permissions (λ id. id == "media") is_user rows "media" (permission "eve" "rw" ∷ [])
        ≡ none)
    × (set_permissions (λ id. id == "media") is_user rows "media" []
        ≡ some (row "home" "ann" "ro" ∷ []))
unfolding permission_code
permission_tests = (refl, refl, refl)
