-- ===== src/AppAccess.antt =====
-- apps/api/src/db/app-access.ts: which apps a user may use.
use opennas.Base.{
  String, Bool, true, false, ◌&&◌, ◌||◌, not, Option, none, some, List, [], ◌∷◌, ◌++◌,
  if◌then◌else◌, ◌==◌, string_eq, find, keep, any,
}
pub mod Allowed
mod Tests

-- What the file reads of a row of `users`.
pub record AccountRow : Type 0 where
  pub id : String
  pub apps_restricted : Bool

pub record AccessRow : Type 0 where
  pub user_id : String
  pub app_id : String

pub record AccessTables : Type 0 where
  pub users : List AccountRow
  pub app_access : List AccessRow

pub record AppUser : Type 0 where
  pub id : String
  pub is_admin : Bool

pub record AppAccessInput : Type 0 where
  pub restricted : Bool
  pub app_ids : List String

abbrev pub is_always_available : String → Bool
is_always_available app = app == "control-panel" || app == "about"

abbrev pub is_account : String → AccountRow → Bool
is_account id r = r.id == id

abbrev pub restricted_row : Option AccountRow → Bool
restricted_row none = false
restricted_row (some r) = r.apps_restricted

unfoldable pub is_apps_restricted : AccessTables → String → Bool
is_apps_restricted db user = restricted_row (find (is_account user) db.users)

abbrev pub grants : String → String → AccessRow → Bool
grants user app r = r.user_id == user && r.app_id == app

abbrev pub is_listed : String → String → List AccessRow → Bool
is_listed user app table = any (grants user app) table

unfoldable pub can_use_app : AccessTables → AppUser → String → Bool
unfolding is_apps_restricted
can_use_app db user app =
    if user.is_admin
    then true
    else if is_always_available app
    then true
    else if not (is_apps_restricted db user.id)
    then true
    else is_listed user.id app db.app_access

unfoldable pub restrict : String → Bool → List AccountRow → List AccountRow
restrict user restricted [] = []
restrict user restricted (r ∷ users) =
    (if is_account user r then record r { apps_restricted = restricted } else r)
    ∷ restrict user restricted users

-- `new Set`: the first of equal ids, in order.
abbrev pub distinct : List String → List String
distinct [] = []
distinct (x ∷ xs) = x ∷ keep (λ y. not (y == x)) (distinct xs)

-- The body of the loop; the insertion is INSERT OR IGNORE.
abbrev pub insert_app : String → String → List AccessRow → List AccessRow
insert_app user app table =
    if is_always_available app
    then table
    else if is_listed user app table
    then table
    else table ++ record { user_id = user; app_id = app } ∷ []

unfoldable pub insert_apps : String → List String → List AccessRow → List AccessRow
insert_apps user [] table = table
insert_apps user (app ∷ apps) table = insert_apps user apps (insert_app user app table)

unfoldable pub apply_access : AccessTables → String → AppAccessInput → AccessTables
unfolding restrict insert_apps
apply_access db user input = record {
  users = restrict user input.restricted db.users;
  app_access =
      insert_apps user (distinct input.app_ids) (keep (λ r. not (r.user_id == user)) db.app_access);
}

-- `none` is the error of an INSERT for a user that does not exist, which undoes the whole transaction.
unfoldable pub set_app_access : AccessTables → String → AppAccessInput → Option AccessTables
set_app_access db user input =
    if not (any (is_account user) db.users)
      && any (λ app. not (is_always_available app)) input.app_ids
    then none
    else some (apply_access db user input)

unfoldable pub forget_app : AccessTables → String → AccessTables
forget_app db app = record db { app_access = keep (λ r. not (r.app_id == app)) db.app_access }
