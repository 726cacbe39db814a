-- ===== src/Shares/Edits.antt =====
-- apps/api/src/db/shares.ts: createShare and updateShare; apps/api/src/db/groups.ts: setMembers. The id of a new
-- share (`nanoid`) and the time are arguments, and `Math.floor` of a quota is an integer.
use opennas.Base.{
  ℕ, Bool, true, false, List, [], ◌∷◌, ◌++◌, map, Option, none, some, String, if◌then◌else◌, ◌==◌,
  string_eq, keep, any, Text, ◌&&◌, ◌||◌, list_eq, nat_eq, not, ℤ, pos, negsuc,
}
use opennas.Shares.{AccessLevel, none_level, ro_level, rw_level, ShareRow, MemberRow}
mod Tests

pub record CreateShareInput : Type 0 where
  pub name : Text
  pub comment : Option String
  pub guest_access : Option AccessLevel
  pub smb_enabled : Option Bool
  pub nfs_enabled : Option Bool
  pub browseable : Option Bool
  pub volume : Option Text
  pub recycle_enabled : Option Bool
  pub time_machine_enabled : Option Bool

-- `value ?? other`
abbrev pub or_else : {A : Type 0} → A → Option A → A
or_else other none = other
or_else other (some value) = value

abbrev pub level_name : AccessLevel → String
level_name none_level = "none"
level_name ro_level = "ro"
level_name rw_level = "rw"

abbrev pub new_share : String → ℕ → CreateShareInput → ShareRow
new_share id now input = record {
  id = id;
  name = input.name;
  comment = or_else "" input.comment;
  guest_access = level_name (or_else none_level input.guest_access);
  smb_enabled = or_else true input.smb_enabled;
  nfs_enabled = or_else false input.nfs_enabled;
  browseable = or_else true input.browseable;
  volume = or_else [] input.volume;
  recycle_enabled = or_else false input.recycle_enabled;
  time_machine = or_else false input.time_machine_enabled;
  quota_bytes = 0;
  quota_project_id = none;
  created_at = now;
}

-- `none` is the error of the INSERT: ids and names are unique.
unfoldable pub create_share : String → ℕ → List ShareRow → CreateShareInput → Option (List ShareRow)
create_share id now table input =
    if any (λ (r : ShareRow). r.id == id || r.name == input.name) table
    then none
    else some (table ++ new_share id now input ∷ [])

pub record UpdateShareFields : Type 0 where
  pub comment : Option String
  pub guest_access : Option AccessLevel
  pub smb_enabled : Option Bool
  pub nfs_enabled : Option Bool
  pub browseable : Option Bool
  pub recycle_enabled : Option Bool
  pub time_machine_enabled : Option Bool
  pub quota_bytes : Option ℤ

-- `Math.max(0, n)`
abbrev pub at_least_zero : ℤ → ℕ
at_least_zero (pos n) = n
at_least_zero (negsuc n) = 0

abbrev pub guest_text : String → Option AccessLevel → String
guest_text old none = old
guest_text old (some level) = level_name level

abbrev pub quota_of : ℕ → Option ℤ → ℕ
quota_of old none = old
quota_of old (some n) = at_least_zero n

abbrev pub updated : UpdateShareFields → ShareRow → ShareRow
updated f r = record r {
  comment = or_else r.comment f.comment;
  guest_access = guest_text r.guest_access f.guest_access;
  smb_enabled = or_else r.smb_enabled f.smb_enabled;
  nfs_enabled = or_else r.nfs_enabled f.nfs_enabled;
  browseable = or_else r.browseable f.browseable;
  recycle_enabled = or_else r.recycle_enabled f.recycle_enabled;
  time_machine = or_else r.time_machine f.time_machine_enabled;
  quota_bytes = quota_of r.quota_bytes f.quota_bytes;
}

-- Without a field to set the statement is not run, and the row stays as it is in the model too.
unfoldable pub update_share : List ShareRow → String → UpdateShareFields → List ShareRow
update_share table id f = map (λ r. if r.id == id then updated f r else r) table

abbrev pub is_member : String → String → MemberRow → Bool
is_member group user r = r.group_id == group && r.user_id == user

-- INSERT OR IGNORE, which does not ignore a group or a user that does not exist: `none` is that error, and it undoes
-- the whole transaction.
unfoldable pub insert_members :
    (String → Bool)
    → (String → Bool)
    → String
    → List String
    → List MemberRow
    → Option (List MemberRow)
insert_members is_group is_user group [] table = some table
insert_members is_group is_user group (user ∷ users) table =
    let rest = insert_members is_group is_user group users (
      if any (is_member group user) table
      then table
      else table ++ record { group_id = group; user_id = user } ∷ []) in
    if is_group group && is_user user then rest else none

unfoldable pub set_members :
    (String → Bool)
    → (String → Bool)
    → List MemberRow
    → String
    → List String
    → Option (List MemberRow)
unfolding insert_members
set_members is_group is_user table group users =
    insert_members is_group is_user group users (keep (λ r. not (r.group_id == group)) table)
