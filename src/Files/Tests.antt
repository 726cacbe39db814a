-- ===== src/Files/Tests.antt =====
-- Runs of the path and access functions at one small set of shares, and the theorems there.
use mathlib.Core.List.{reverse}
use opennas.Base.{
  ◌≤◌, max, String, ◌≡◌, refl, inl, inr, true, false, ◌&&◌, none, some, List, [], ◌∷◌, ◌++◌, map,
  arith, if◌then◌else◌, ◌==◌, nat_eq, string_eq, list_eq, list_beq, length, any, All, Text, codes,
  is_empty, split, join, has_unit, starts_with,
}
use opennas.Shares.{
  AccessLevel, rw_level, rank, norm_level, ShareRow, ShareTables, get_share_row_by_name,
  effective_access, effective_access_for_share_id,
}
use opennas.Shares.Access.{GrantsUser, GrantsGroup, IsGranted}
use opennas.Shares.Highest.{effective_access_highest}
use opennas.Acls.{
  AclRow, SetAclInput, apply_folder_acls, set_acl, normalize_acl_path, ancestors_of, apply_rules,
  walk, decide_step, most_restrictive, upsert_acl, share_has_acls,
}
use opennas.Acls.Decision.{Decides}
use opennas.Acls.Apply.{acl_parts, prefixes, apply_folder_acls-Decides}
use opennas.Acls.Store.{rule_level, rule_count, set_acl-rule_level}
use opennas.Files.Paths.{
  slash, posix_normalize, resolve_segments, resolve_segment, resolve, normalize_virtual,
  virtual_segments,
}
use opennas.Files.Paths.Canonical.{IsSafe, canonical}
use opennas.Files.Paths.Normal.{normalize_virtual_form}
use opennas.Files.Resolve.{
  Roots, ok, err, no_such_share, invalid_path, invalid_name, resolve_safe, to_virtual, trim,
  validate_name, share_base_real, base_of, real_of, check_inside,
}
use opennas.Files.Resolve.Safe.{real_path, resolve_safe-real_path}
use opennas.Files.Resolve.RoundTrip.{AreApart, to_virtual-resolve_safe}
use opennas.Files.Resolve.Names.{validate_name_accepts}
use opennas.Files.Access.{user, User, Access, Tables, allow, subject_of, path_access, folder_access}
use opennas.Files.Access.Granted.{May, path_access-May}

abbrev roots : Roots
roots = record { files = codes "/srv/files"; volumes = codes "/volumes" }

abbrev share_row : String → Text → Text → String → ShareRow
share_row id name volume guest = record {
  id = id;
  name = name;
  comment = "";
  guest_access = guest;
  smb_enabled = true;
  nfs_enabled = false;
  browseable = true;
  volume = volume;
  recycle_enabled = false;
  time_machine = false;
  quota_bytes = 0;
  quota_project_id = none;
  created_at = 0;
}

abbrev rows : List ShareRow
rows =
    share_row "s1" (codes "Media") [] "none"
    ∷ share_row "s2" (codes "Backup") (codes "tank") "ro"
    ∷ []

abbrev acl_row : String → Text → String → String → String → AclRow
acl_row id path subject_type subject level = record {
  id = id;
  share_id = "s1";
  path = path;
  subject_type = subject_type;
  subject_id = subject;
  level = level;
  created_at = 0;
}

abbrev rules : List AclRow
rules =
    acl_row "a1" (codes "Private") "group" "g1" "none"
    ∷ acl_row "a2" (codes "Private/Ann") "user" "ann" "ro"
    ∷ []

abbrev shares : ShareTables
shares = record {
  shares = rows;
  permissions = record { share_id = "s1"; subject = "ann"; level = "rw" } ∷ [];
  group_permissions = record { share_id = "s1"; subject = "g1"; level = "ro" } ∷ [];
  members =
      record { group_id = "g1"; user_id = "ann" }
      ∷ record { group_id = "g1"; user_id = "bob" }
      ∷ [];
}

abbrev tables : Tables
tables = record { shares = shares; acls = rules }

abbrev ann : User
ann = record { id = "ann"; role = user }

-- Everything that the tests run.
path_code : Unit {0}
unfolding normalize_virtual posix_normalize split join resolve_segments resolve_segment list_beq
    has_unit starts_with resolve_safe get_share_row_by_name share_base_real base_of resolve real_of
    check_inside validate_name trim
path_code = tt

access_code : Unit {0}
unfolding path_code path_access folder_access effective_access effective_access_for_share_id
    share_has_acls apply_folder_acls normalize_acl_path ancestors_of apply_rules walk decide_step
    most_restrictive set_acl upsert_acl
access_code = tt

resolve_tests :
    (resolve_safe roots rows (codes "/Media/../Backup/./x") ≡ ok (codes "/volumes/tank/Backup/x"))
    × (resolve_safe roots rows (codes "/Other/x") ≡ err no_such_share)
    × (validate_name (codes " a.txt ") ≡ ok (codes "a.txt"))
    × (validate_name (codes "..") ≡ err invalid_name)
unfolding path_code
resolve_tests = (refl, refl, refl, refl)

access_tests :
    (path_access tables ann (codes "/Media") ≡ some (allow true true))
    × (path_access tables ann (codes "/Media/Private/x") ≡ some (allow false false))
    × (path_access tables ann (codes "/Media/Private/Ann/x") ≡ some (allow true false))
    × (path_access tables ann (codes "/Backup") ≡ some (allow true false))
    × (path_access tables ann (codes "/") ≡ some (allow true false))
unfolding access_code
access_tests = (refl, refl, refl, refl, refl)

path_access-May_example :
    (access : Access) × (path_access tables ann (codes "/Media/Private/x") ≡ some access)
    × May tables ann (virtual_segments (codes "/Media/Private/x")) access
path_access-May_example = path_access-May tables ann (codes "/Media/Private/x")

inside_test : any (λ p. p == codes "..") (acl_parts (codes "Private/Ann")) ≡ false
unfolding path_code
inside_test = refl

apply_folder_acls-Decides_example :
    (level : AccessLevel) × (apply_folder_acls rules "s1"
        (codes "Private/Ann")
        (subject_of tables ann)
        rw_level
      ≡ some level)
    × Decides
        (subject_of tables ann)
        rules
        "s1"
        rw_level
        (reverse (map (join slash) (prefixes (acl_parts (codes "Private/Ann")))))
        level
apply_folder_acls-Decides_example =
    apply_folder_acls-Decides rules "s1" (codes "Private/Ann") (subject_of tables ann) rw_level refl
      inside_test

resolve_safe-real_path_example :
    (resolve_safe roots rows (codes "/Backup/x") ≡ (
      if has_unit 0 (normalize_virtual (codes "/Backup/x"))
      then err invalid_path
      else real_path roots rows (virtual_segments (codes "/Backup/x"))))
    × All IsSafe (virtual_segments (codes "/Backup/x"))
resolve_safe-real_path_example = resolve_safe-real_path roots rows (codes "/Backup/x")

apart_test : AreApart roots rows
unfolding path_code
apart_test = ((inl refl, (inr (refl, refl), tt)), ((inr (refl, refl), (inl refl, tt)), tt))

to_virtual-resolve_safe_example :
    to_virtual roots rows (codes "/volumes/tank/Backup/x")
    ≡ normalize_virtual (codes "/Media/../Backup/./x")
to_virtual-resolve_safe_example =
    to_virtual-resolve_safe roots rows (codes "/Media/../Backup/./x")
      (codes "/volumes/tank/Backup/x") apart_test resolve_tests.0

effective_access_highest_example :
    let level = effective_access_for_share_id shares "s1" "none" "ann" in
    IsGranted shares "s1" "none" "ann" level
    × (rank (norm_level "none") ≤ rank level)
    × All (λ p. GrantsUser "s1" "ann" p → rank (norm_level p.level) ≤ rank level) shares.permissions
    × All
        (λ p. GrantsGroup shares.members "s1" "ann" p → rank (norm_level p.level) ≤ rank level)
        shares.group_permissions
effective_access_highest_example = effective_access_highest shares "s1" "none" "ann" (omega arith)

abbrev input : SetAclInput
input = record {
  share_id = "s1";
  path = codes "/Private/";
  subject_type = "user";
  subject_id = "bob";
  level = "ro";
}

abbrev changed : List AclRow
changed =
    acl_row "a1" (codes "Private") "group" "g1" "none"
    ∷ acl_row "a2" (codes "Private/Ann") "user" "ann" "ro"
    ∷ acl_row "a3" (codes "Private") "user" "bob" "ro"
    ∷ []

set_acl_tests :
    (normalize_acl_path (codes "/Private/") ≡ some (codes "Private"))
    × (set_acl (λ s. s == "s1") "a3" 0 rules input ≡ some changed)
unfolding access_code
set_acl_tests = (refl, refl)

set_acl-rule_level_example :
    let named =
      input.share_id == "s1"
      && codes "Private" == codes "Private"
      && input.subject_type == "user"
      && input.subject_id == "bob" in
    let old = rule_count "s1" (codes "Private") "user" "bob" rules in
    (is_empty (codes "Private") ≡ false)
    × (input.share_id == "s1" ≡ true)
    × (rule_level "s1" (codes "Private") "user" "bob" changed ≡ (
        if named then some input.level else rule_level "s1" (codes "Private") "user" "bob" rules))
    × (rule_count "s1" (codes "Private") "user" "bob" changed ≡ (if named then max 1 old else old))
set_acl-rule_level_example =
    set_acl-rule_level (λ s. s == "s1") "a3" 0 rules changed input (codes "Private") "s1"
      (codes "Private") "user" "bob" set_acl_tests.0 set_acl_tests.1

normalize_virtual_form_example :
    (normalize_virtual (codes "a//b/..") ≡ canonical (virtual_segments (codes "a//b/..")))
    × All IsSafe (virtual_segments (codes "a//b/.."))
    × (normalize_virtual (normalize_virtual (codes "a//b/.."))
        ≡ normalize_virtual (codes "a//b/.."))
normalize_virtual_form_example = normalize_virtual_form (codes "a//b/..")

validate_name_accepts_example :
    (codes "a.txt" ≡ trim (codes " a.txt "))
    × IsSafe (codes "a.txt")
    × (length (codes "a.txt") ≤ 255)
    × (has_unit 0 (codes "a.txt") ≡ false)
    × (has_unit 92 (codes "a.txt") ≡ false)
    × (virtual_segments (codes "/Media" ++ slash ∷ codes "a.txt")
        ≡ virtual_segments (codes "/Media") ++ codes "a.txt" ∷ [])
validate_name_accepts_example =
    validate_name_accepts (codes " a.txt ") (codes "/Media") (codes "a.txt") resolve_tests.2
