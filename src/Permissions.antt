-- ===== src/Permissions.antt =====
-- apps/api/src/db/shares.ts: `setPermissions` and `setGroupPermissions`, which write a share's list anew in
-- one transaction. `none` is a transaction that failed, and left the table as it was, because the share or
-- a subject is not in its own table.
pub mod Levels
mod Tests
use opennas.Base.{
  ℕ, zero, suc, ◌+◌, ◌-◌, ◌*◌, ◌/◌, ◌%◌, ◌^◌, ◌≤◌, ◌<◌, min, max, String, ◌≡◌, refl, sym, ap, ◌∙◌,
  ◌≢◌, ◌↔◌, ◌⊎◌, inl, inr, Bool, true, false, ◌&&◌, ◌||◌, not, Option, none, some, List, [], ◌∷◌,
  ◌++◌, map, arith, ltb, leb, if◌then◌else◌, ltb→lt, lt→ltb, leb→le, nat_beq_iff, Bool-cases,
  Option-cases, Equality, ◌==◌, nat_eq, string_eq, list_eq, ==_self, list_beq, list_beq_iff, length,
  length-append, keep, find, any, All, All-append, All-keep, Text, codes, is_empty, split, join,
  has_unit, starts_with, non_empty, drop, take, count_up, Any, All-keep_iff, All-map, All-find,
  Any-keep, Any-map, find-holds, find-Any, find-none, find_unique, keep_short, any-false, Free,
  split_single, split-append, split-join, split-Free, join-append, All-reverse, starts_with-append,
  starts_with_rest, starts_with_comparable, starts_with_self, starts_with-append_both,
}
use opennas.Shares.{PermissionRow, is_perm}

-- An entry of the new list; `subject` is the user's or the group's id.
pub record Permission : Type 0 where
  pub subject : String
  pub level : String

abbrev pub level_text : String → String
level_text level = if level == "ro" then "ro" else "rw"

-- INSERT OR REPLACE.
unfoldable pub replace_permission : String → Permission → List PermissionRow → List PermissionRow
replace_permission share p table =
    keep (λ r. not (is_perm share p.subject r)) table
    ++ record { share_id = share; subject = p.subject; level = level_text p.level } ∷ []

-- The loop over the entries.
unfoldable pub insert_permissions :
    (String → Bool)
    → (String → Bool)
    → String
    → List Permission
    → List PermissionRow
    → Option (List PermissionRow)
insert_permissions is_share is_subject share [] table = some table
insert_permissions is_share is_subject share (p ∷ perms) table =
    let rest =
      insert_permissions is_share is_subject share perms (replace_permission share p table) in
    if is_share share && is_subject p.subject then rest else none

unfoldable pub set_permissions :
    (String → Bool)
    → (String → Bool)
    → List PermissionRow
    → String
    → List Permission
    → Option (List PermissionRow)
set_permissions is_share is_subject table share perms =
    insert_permissions is_share is_subject share perms (keep (λ r. not (r.share_id == share)) table)
