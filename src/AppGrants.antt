-- ===== src/AppGrants.antt =====
-- apps/api/src/db/app-grants.ts: the folders that a user has handed to an app. The table is the list of
-- its rows; ids and times are arguments. `none` outside a result is a thrown error.
pub mod Confine
pub mod Handed
pub mod Limits
mod Tests
use opennas.Base.{
  ℕ, zero, suc, ◌+◌, ◌-◌, ◌*◌, ◌/◌, ◌%◌, ◌^◌, ◌≤◌, ◌<◌, min, max, String, ◌≡◌, refl, sym, ap, ◌∙◌,
  ◌≢◌, ◌↔◌, ◌⊎◌, inl, inr, Bool, true, false, ◌&&◌, ◌||◌, not, Option, none, some, List, [], ◌∷◌,
  ◌++◌, map, arith, ltb, leb, if◌then◌else◌, ltb→lt, lt→ltb, leb→le, nat_beq_iff, Bool-cases,
  Option-cases, Equality, ◌==◌, nat_eq, string_eq, list_eq, ==_self, list_beq, list_beq_iff, length,
  length-append, keep, find, any, All, All-append, All-keep, Text, codes, is_empty, split, join,
  has_unit, starts_with, non_empty, drop, take, count_up, Any, All-keep_iff, All-map, All-find,
  Any-keep, Any-map, find-holds, find-Any, find-none, find_unique, keep_short, any-false, Free,
  split_single, split-append, split-join, split-Free, join-append, All-reverse, starts_with-append,
  starts_with_rest, starts_with_comparable, starts_with_self, starts_with-append_both,
}
use opennas.Files.Paths.{slash, normalize_virtual}
use opennas.Files.Access.{User, Access, Tables, path_access}

pub data EntryType : Type 0 where
  file dir : EntryType

pub data Mode : Type 0 where
  read readwrite : Mode

pub record GrantRow : Type 0 where
  pub id : String
  pub app_id : String
  pub user_id : String
  pub path : Text
  pub type : EntryType
  pub mode : Mode
  pub created_at : ℕ
  pub last_used_at : Option ℕ

abbrev pub max_grants_per_app : ℕ
max_grants_per_app = 32

abbrev pub is_readwrite : Mode → Bool
is_readwrite read = false
is_readwrite readwrite = true

pub record AppShareGrant : Type 0 where
  pub handle : String
  pub path : Text
  pub name : Text
  pub type : EntryType
  pub mode : Mode
  pub created_at : ℕ
  pub last_used_at : Option ℕ

-- `.pop() ?? "/"`.
abbrev pub last_or : Text → List Text → Text
last_or d [] = d
last_or d (w ∷ ws) = last_or w ws

unfoldable pub to_grant : GrantRow → AppShareGrant
to_grant r = record {
  handle = r.id;
  path = r.path;
  name = last_or (slash ∷ []) (non_empty (split slash r.path));
  type = r.type;
  mode = r.mode;
  created_at = r.created_at;
  last_used_at = r.last_used_at;
}

abbrev pub is_held : String → String → GrantRow → Bool
is_held app user r = r.app_id == app && r.user_id == user

abbrev pub is_grant : String → String → Text → GrantRow → Bool
is_grant app user path r = r.app_id == app && r.user_id == user && r.path == path

-- COALESCE(last_used_at, created_at).
abbrev pub used_at : GrantRow → ℕ
used_at r = elim r.last_used_at [ none ↦ r.created_at | some t ↦ t ]

-- ORDER BY … ASC LIMIT 1, from a first candidate.
unfoldable pub least_used : GrantRow → List GrantRow → GrantRow
least_used r [] = r
least_used r (s ∷ rows) = least_used (if ltb (used_at s) (used_at r) then s else r) rows

abbrev pub drop_id : Option String → List GrantRow → List GrantRow
drop_id none table = table
drop_id (some id) table = keep (λ r. not (r.id == id)) table

abbrev pub least_used_id : List GrantRow → Option String
least_used_id [] = none
least_used_id (r ∷ rows) = some ((least_used r rows).id)

-- The row that makes way for a new one, where the app holds its full number.
unfoldable pub make_room : String → String → List GrantRow → List GrantRow
make_room app user table =
    let held = keep (is_held app user) table in
    if leb max_grants_per_app (length held) then drop_id (least_used_id held) table else table

abbrev pub widen : Mode → Mode → Mode
widen old new = if is_readwrite old || is_readwrite new then readwrite else read

-- UPDATE … SET mode, type WHERE id.
unfoldable pub update_grant : String → Mode → EntryType → List GrantRow → List GrantRow
update_grant id mode type table =
    map (λ r. if r.id == id then record r { mode = mode; type = type } else r) table

abbrev pub new_grant : String → ℕ → String → String → Text → EntryType → Mode → GrantRow
new_grant id now app user path type mode = record {
  id = id;
  app_id = app;
  user_id = user;
  path = path;
  type = type;
  mode = mode;
  created_at = now;
  last_used_at = none;
}

unfoldable pub grant_path :
    String
    → ℕ
    → List GrantRow
    → String
    → String
    → Text
    → EntryType
    → Mode
    → List GrantRow × AppShareGrant
grant_path id now table app user path type mode =
    let p = normalize_virtual path in
    elim (find (is_grant app user p) table) [
      | some existing ↦
          let next = widen existing.mode mode in
          (
            update_grant existing.id next type table,
            to_grant (record existing { mode = next; type = type }),
          )
      | none ↦
          let row = new_grant id now app user p type mode in
          (make_room app user table ++ row ∷ [], to_grant row)
    ]

unfoldable pub revoke_grant_for_user : List GrantRow → String → String → List GrantRow × Bool
revoke_grant_for_user table user handle =
    let gone = λ (r : GrantRow). r.id == handle && r.user_id == user in
    (keep (λ r. not (gone r)) table, ltb 0 (length (keep gone table)))

unfoldable pub revoke_grant : List GrantRow → String → String → String → List GrantRow × Bool
revoke_grant table app user handle =
    let gone = λ (r : GrantRow). r.id == handle && r.app_id == app && r.user_id == user in
    (keep (λ r. not (gone r)) table, ltb 0 (length (keep gone table)))

unfoldable pub revoke_all_for_app : List GrantRow → String → List GrantRow × ℕ
revoke_all_for_app table app =
    (keep (λ r. not (r.app_id == app)) table, length (keep (λ r. r.app_id == app) table))

pub record ResolvedPath : Type 0 where
  pub path : Text
  pub read : Bool
  pub write : Bool

pub record Options : Type 0 where
  pub handle : Option String
  pub path : Option Text
  pub has_read_permission : Bool
  pub has_write_permission : Bool

abbrev pub touch : String → ℕ → List GrantRow → List GrantRow
touch id now = map λ r. if r.id == id then record r { last_used_at = some now } else r

-- The rest of a request by handle, once the joined path's access is known.
abbrev pub use_grant :
    ℕ → List GrantRow → GrantRow → Text → Access → List GrantRow × Option ResolvedPath
use_grant now table row joined access =
    if access.read
    then (
      touch row.id now table,
      some (record { path = joined; read = true; write = access.write && is_readwrite row.mode }),
    )
    else (table, none)

abbrev pub root_of : Text → Text
root_of path = if path == slash ∷ [] then slash ∷ [] else path ++ slash ∷ []

unfoldable pub resolve_handle :
    Tables
    → User
    → String
    → ℕ
    → List GrantRow
    → String
    → Text
    → Option (List GrantRow × Option ResolvedPath)
resolve_handle db u app now table handle rel =
    elim (find (λ r. r.id == handle && r.app_id == app && r.user_id == u.id) table) [
      | none ↦ some (table, none)
      | some row ↦
          let joined = normalize_virtual (row.path ++ slash ∷ rel) in
          if not (joined == row.path) && not (starts_with joined (root_of row.path))
          then some (table, none)
          else elim (path_access db u joined) [
            | none ↦ none
            | some access ↦ some (use_grant now table row joined access)
          ]
    ]

unfoldable pub resolve_permission :
    Tables → User → Bool → Bool → Text → Option (Option ResolvedPath)
resolve_permission db u has_read has_write rel =
    if has_read
    then (let path = normalize_virtual (if is_empty rel then slash ∷ [] else rel) in
        elim (path_access db u path) [
          | none ↦ none
          | some access ↦ some (
              if access.read
              then some (record { path = path; read = true; write = access.write && has_write })
              else none)
        ])
    else some none

abbrev pub or_empty : Option Text → Text
or_empty none = []
or_empty (some t) = t

abbrev pub without_handle :
    Tables → User → List GrantRow → Options → Option (List GrantRow × Option ResolvedPath)
without_handle db u table opts =
    elim (resolve_permission db u opts.has_read_permission opts.has_write_permission
      (or_empty opts.path)) [ none ↦ none | some result ↦ some (table, result) ]

unfoldable pub resolve_grant :
    Tables
    → User
    → String
    → ℕ
    → List GrantRow
    → Options
    → Option (List GrantRow × Option ResolvedPath)
resolve_grant db u app now table opts = elim opts.handle [
  | none ↦ without_handle db u table opts
  | some handle ↦
      if handle == ""
      then without_handle db u table opts
      else resolve_handle db u app now table handle (or_empty opts.path)
]
