-- ===== src/Autologin/Tests.antt =====
-- Runs of automatic sign-in at one setting, and the theorem there.
use opennas.Base.{
  String, ◌≡◌, refl, ◌↔◌, Bool, true, false, Option, none, some, List, [], ◌∷◌, nat_eq, string_eq,
  list_eq, Text, codes, starts_with,
}
use opennas.Files.Access.{admin, user}
use opennas.Autologin.{Account, Parsed, get_user_by_id, autologin_config, autologin_user_for}
use opennas.Autologin.Eligible.{IsChosen, autologin_user_for_iff}

abbrev wall : Account
wall = record {
  id = "wall";
  role = user;
  is_disabled = false;
  must_change_password = false;
  totp_enabled = true;
}

abbrev boss : Account
boss = record {
  id = "boss";
  role = admin;
  is_disabled = false;
  must_change_password = false;
  totp_enabled = false;
}

abbrev users : List Account
users = boss ∷ wall ∷ []

-- A setting that holds the id alone.
abbrev parse_id : String → Text → Option Parsed
parse_id id raw = some (record {
  enabled = true;
  user_id = some id;
  networks = some (some (codes "10.0.0.0/8") ∷ none ∷ []);
})

abbrev in_ten : Text → Text → Bool
in_ten address cidr = starts_with address (codes "10.")

autologin_code : Unit {0}
unfolding starts_with autologin_config get_user_by_id autologin_user_for
autologin_code = tt

autologin_tests :
    (autologin_user_for (parse_id "wall") in_ten (some (codes "{}")) users (codes "10.0.0.7")
      ≡ some wall)
    × (autologin_user_for (parse_id "wall") in_ten (some (codes "{}")) users (codes "192.168.0.7")
        ≡ none)
    × (autologin_user_for (parse_id "boss") in_ten (some (codes "{}")) users (codes "10.0.0.7")
        ≡ none)
    × (autologin_user_for (parse_id "wall") in_ten none users (codes "10.0.0.7") ≡ none)
unfolding autologin_code
autologin_tests = (refl, refl, refl, refl)

autologin_user_for_iff_example :
    (autologin_user_for (parse_id "wall") in_ten (some (codes "{}")) users (codes "10.0.0.7")
      ≡ some wall)
    ↔ ((autologin_config (parse_id "wall") (some (codes "{}"))).enabled ≡ true)
      × IsChosen in_ten
          (autologin_config (parse_id "wall") (some (codes "{}"))).networks
          (autologin_config (parse_id "wall") (some (codes "{}"))).user_id
          users
          (codes "10.0.0.7")
          wall
autologin_user_for_iff_example =
    autologin_user_for_iff (parse_id "wall") in_ten (some (codes "{}")) users (codes "10.0.0.7")
      wall
