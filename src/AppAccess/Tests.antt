-- ===== src/AppAccess/Tests.antt =====
-- Runs of the access to apps at concrete inputs.
use opennas.Base.{
  some, none, ◌≡◌, refl, true, false, ◌||◌, not, [], ◌∷◌, ◌==◌, nat_eq, string_eq, list_eq, any,
}
use opennas.AppAccess.{
  AccessTables, AppUser, AppAccessInput, is_always_available, is_apps_restricted, can_use_app,
  restrict, insert_apps, apply_access, set_app_access, forget_app,
}
use opennas.AppAccess.Allowed.{can_use_app-set_app_access}

abbrev db : AccessTables
db = record {
  users =
      record { id = "ann"; apps_restricted = false }
      ∷ record { id = "bob"; apps_restricted = true }
      ∷ [];
  app_access =
      record { user_id = "ann"; app_id = "notes" }
      ∷ record { user_id = "bob"; app_id = "music" }
      ∷ [];
}

abbrev ann : AppUser
ann = record { id = "ann"; is_admin = false }

abbrev bob : AppUser
bob = record { id = "bob"; is_admin = false }

abbrev input : AppAccessInput
input = record { restricted = true; app_ids = "music" ∷ "about" ∷ "music" ∷ [] }

access_code : Unit {0}
unfolding is_apps_restricted can_use_app restrict insert_apps apply_access set_app_access forget_app
access_code = tt

access_tests :
    (can_use_app db ann "music" ≡ true)
    × (can_use_app db bob "notes" ≡ false)
    × (can_use_app (apply_access db "ann" input) ann "notes" ≡ false)
    × (can_use_app (apply_access db "ann" input) ann "about" ≡ true)
    × ((apply_access db "ann" input).app_access
        ≡ record { user_id = "bob"; app_id = "music" }
          ∷ record { user_id = "ann"; app_id = "music" }
          ∷ [])
    × (set_app_access db "eve" input ≡ none)
    × (can_use_app (forget_app db "music") bob "music" ≡ false)
unfolding access_code
access_tests = (refl, refl, refl, refl, refl, refl, refl)

can_use_app-set_app_access_example :
    (after : AccessTables) × (set_app_access db "ann" input ≡ some after)
    × (can_use_app after ann "notes" ≡ (
        false
        || (is_always_available "notes" || (not true || any (λ x. x == "notes") input.app_ids))))
    × (can_use_app after bob "notes" ≡ can_use_app db bob "notes")
can_use_app-set_app_access_example = can_use_app-set_app_access db ann bob input "notes" refl refl
