-- ===== src/Shares/Edits/Tests.antt =====
-- Runs of the changes of shares and groups at concrete inputs.
use opennas.Base.{
  ◌==◌, string_eq, nat_eq, list_eq, List, list_beq, ℕ, String, ◌≡◌, refl, Bool, true, false, none,
  some, [], ◌∷◌, map, nat_eq, string_eq, list_eq, codes, negsuc,
}
use opennas.Shares.{ShareRow, ro_level}
use opennas.Shares.Edits.{
  CreateShareInput, new_share, UpdateShareFields, create_share, update_share, insert_members,
  set_members,
}

abbrev wish : CreateShareInput
wish = record {
  name = codes "media";
  comment = none;
  guest_access = none;
  smb_enabled = none;
  nfs_enabled = none;
  browseable = some false;
  volume = none;
  recycle_enabled = none;
  time_machine_enabled = none;
}

abbrev change : UpdateShareFields
change = record {
  comment = none;
  guest_access = some ro_level;
  smb_enabled = none;
  nfs_enabled = some true;
  browseable = none;
  recycle_enabled = none;
  time_machine_enabled = none;
  quota_bytes = some (negsuc 4);
}

abbrev made : List ShareRow
made = new_share "s" 1 wish ∷ []

edit_tests :
    (create_share "s" 1 [] wish ≡ some made)
    × (create_share "t" 1 made wish ≡ none)
    × (map {B = String × Bool × Bool × Bool}
          (λ (r : ShareRow). (r.guest_access, r.smb_enabled, r.nfs_enabled, r.browseable))
          made
        ≡ ("none", true, false, false) ∷ [])
    × (map {B = String × Bool × ℕ}
          (λ (r : ShareRow). (r.guest_access, r.nfs_enabled, r.quota_bytes))
          (update_share made "s" change)
        ≡ ("ro", true, 0) ∷ [])
    × (update_share made "t" change ≡ made)
    × (set_members
          (λ g. g == "g")
          (λ u. u == "a")
          (record { group_id = "g"; user_id = "x" } ∷ record { group_id = "h"; user_id = "x" } ∷ [])
          "g"
          ("a" ∷ "a" ∷ [])
        ≡ some (
            record { group_id = "h"; user_id = "x" }
            ∷ record { group_id = "g"; user_id = "a" }
            ∷ []))
    × (set_members (λ g. g == "g") (λ u. u == "a") [] "g" ("b" ∷ []) ≡ none)
unfolding create_share update_share insert_members set_members list_beq
edit_tests = (refl, refl, refl, refl, refl, refl, refl)
