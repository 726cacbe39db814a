-- ===== src/Shares.antt =====
-- apps/api/src/db/shares.ts and groups.ts: shared folders, who was granted which level, and the
-- level that results. A table is the list of its rows.
pub mod Access
pub mod Highest
pub mod Edits
use opennas.Base.{
  ℕ, Bool, true, false, List, [], ◌∷◌, map, Option, none, some, String, if◌then◌else◌, ◌==◌,
  string_eq, list_eq, nat_eq, find, keep, any, Text, leb, ◌&&◌, not, is_empty,
}

pub data AccessLevel : Type 0 where
  none_level ro_level rw_level : AccessLevel

abbrev pub rank : AccessLevel → ℕ
rank none_level = 0
rank ro_level = 1
rank rw_level = 2

abbrev pub norm_level : String → AccessLevel
norm_level v = if v == "ro" then ro_level else if v == "rw" then rw_level else none_level

abbrev pub max_level : AccessLevel → AccessLevel → AccessLevel
max_level a b = if leb (rank b) (rank a) then a else b

pub record ShareRow : Type 0 where
  pub id : String
  pub name : Text
  pub comment : String
  pub guest_access : String
  pub smb_enabled : Bool
  pub nfs_enabled : Bool
  pub browseable : Bool
  pub volume : Text
  pub recycle_enabled : Bool
  pub time_machine : Bool
  pub quota_bytes : ℕ
  pub quota_project_id : Option ℕ
  pub created_at : ℕ

-- share_permissions and share_group_permissions: `subject` is the user's or the group's id.
pub record PermissionRow : Type 0 where
  pub share_id : String
  pub subject : String
  pub level : String

-- group_members.
pub record MemberRow : Type 0 where
  pub group_id : String
  pub user_id : String

pub record ShareTables : Type 0 where
  pub shares : List ShareRow
  pub permissions : List PermissionRow
  pub group_permissions : List PermissionRow
  pub members : List MemberRow

unfoldable pub get_share_row_by_name : List ShareRow → Text → Option ShareRow
get_share_row_by_name rows name = find (λ r. r.name == name) rows

unfoldable pub group_ids_for_user : List MemberRow → String → List String
group_ids_for_user rows user = map (λ r. r.group_id) (keep (λ r. r.user_id == user) rows)

-- The loop over the groups' rows.
unfoldable pub raise_level : AccessLevel → List PermissionRow → AccessLevel
raise_level level [] = level
raise_level level (r ∷ rows) = raise_level (max_level level (norm_level r.level)) rows

abbrev pub own_level : Option PermissionRow → AccessLevel
own_level none = none_level
own_level (some p) = norm_level p.level

abbrev pub is_perm : String → String → PermissionRow → Bool
is_perm share subject r = r.share_id == share && r.subject == subject

unfoldable pub effective_access_for_share_id : ShareTables → String → String → String → AccessLevel
unfolding raise_level group_ids_for_user
effective_access_for_share_id db share guest_access user =
    let level =
      max_level (own_level (find (is_perm share user) db.permissions)) (norm_level guest_access) in
    let groups = group_ids_for_user db.members user in
    if is_empty groups
    then level
    else raise_level level
        (keep (λ r. r.share_id == share && any (λ g. r.subject == g) groups) db.group_permissions)

unfoldable pub effective_access : ShareTables → Text → String → AccessLevel
effective_access db name user = elim (get_share_row_by_name db.shares name) [
  | none ↦ none_level
  | some row ↦ effective_access_for_share_id db row.id row.guest_access user
]

abbrev pub is_none : AccessLevel → Bool
is_none none_level = true
is_none ro_level = false
is_none rw_level = false

-- The names of the shares that a user can at least read.
unfoldable pub visible_share_names : ShareTables → String → List Text
visible_share_names db user =
    map (λ r. r.name) (keep (λ r. not (is_none (effective_access db r.name user))) db.shares)
