-- ===== src/Files/Access.antt =====
-- apps/api/src/files/access.ts: what a user may do at a virtual path. The tables are those of db/shares.ts,
-- db/groups.ts and db/acls.ts; a thrown error is `none`.
pub mod Granted
use opennas.Base.{
  ℕ, zero, suc, ◌+◌, ◌-◌, ◌*◌, ◌/◌, ◌%◌, ◌^◌, ◌≤◌, ◌<◌, min, max, String, ◌≡◌, refl, sym, ap, ◌∙◌,
  ◌≢◌, ◌↔◌, ◌⊎◌, inl, inr, Bool, true, false, ◌&&◌, ◌||◌, not, Option, none, some, List, [], ◌∷◌,
  ◌++◌, map, arith, ltb, leb, if◌then◌else◌, ltb→lt, lt→ltb, leb→le, nat_beq_iff, Bool-cases,
  Option-cases, ◌==◌, nat_eq, string_eq, list_eq, ==_self, list_beq, list_beq_iff, length,
  length-append, keep, find, any, All, All-append, All-keep, Text, codes, is_empty, split, join,
  has_unit, starts_with, non_empty, drop, take, count_up, Any, All-keep_iff, All-map, All-find,
  Any-keep, Any-map, find-holds, find-Any, find-none, any-false, Free, split_single, split-append,
  split-join, split-Free, join-append, All-reverse, starts_with-append, starts_with_rest,
  starts_with_comparable, starts_with_self, starts_with-append_both,
}
use opennas.Shares.{
  AccessLevel, none_level, ro_level, rw_level, is_none, ShareRow, ShareTables,
  get_share_row_by_name, group_ids_for_user, effective_access,
}
use opennas.Acls.{AclRow, Subject, share_has_acls, apply_folder_acls}
use opennas.Files.Paths.{slash, normalize_virtual}

pub data Role : Type 0 where
  admin user : Role

pub record User : Type 0 where
  pub id : String
  pub role : Role

pub record Access : Type 0 where
  pub read : Bool
  pub write : Bool

pub record Tables : Type 0 where
  pub shares : ShareTables
  pub acls : List AclRow

abbrev pub is_admin : Role → Bool
is_admin admin = true
is_admin user = false

abbrev pub is_rw : AccessLevel → Bool
is_rw none_level = false
is_rw ro_level = false
is_rw rw_level = true

abbrev pub allow : Bool → Bool → Access
allow read write = record { read = read; write = write }

-- What a level allows.
abbrev pub access_of : AccessLevel → Access
access_of level = if is_none level then allow false false else allow true (is_rw level)

abbrev pub subject_of : Tables → User → Subject
subject_of db u = record { user_id = u.id; groups = group_ids_for_user db.shares.members u.id }

-- The lines below the look-up of the share's level, for a share that is open to the user.
unfoldable pub folder_access :
    Tables → User → AccessLevel → Option ShareRow → List Text → Option Access
folder_access db u level none rest = some (allow true (is_rw level))
folder_access db u level (some share) rest =
    if is_empty rest || not (share_has_acls db.acls share.id)
    then some (allow true (is_rw level))
    else elim (apply_folder_acls db.acls share.id (join slash rest) (subject_of db u) level) [
      | none ↦ none
      | some effective ↦ some (access_of effective)
    ]

abbrev pub segment_access : Tables → User → List Text → Option Access
segment_access db u [] = some (allow true false)
segment_access db u (name ∷ rest) =
    let level = effective_access db.shares name u.id in
    if is_none level
    then some (allow false false)
    else folder_access db u level (get_share_row_by_name db.shares.shares name) rest

unfoldable pub path_access : Tables → User → Text → Option Access
path_access db u path =
    let p = normalize_virtual path in
    if p == slash ∷ []
    then some (allow true false)
    else if is_admin u.role
    then some (allow true true)
    else segment_access db u (non_empty (split slash p))
