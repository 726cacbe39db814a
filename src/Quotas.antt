-- ===== src/Quotas.antt =====
-- apps/api/src/db/shares.ts: `ensureQuotaProjectId` and `deleteShare`. The number that the file system
-- tracks a share's quota under is null until the share first gets a cap.
pub mod Unique
pub mod Reissued
mod Tests
use opennas.Base.{
  ℕ, zero, suc, ◌+◌, ◌-◌, ◌*◌, ◌/◌, ◌%◌, ◌^◌, ◌≤◌, ◌<◌, min, max, String, ◌≡◌, refl, sym, ap, ◌∙◌,
  ◌≢◌, ◌↔◌, ◌⊎◌, inl, inr, Bool, true, false, ◌&&◌, ◌||◌, not, Option, none, some, List, [], ◌∷◌,
  ◌++◌, map, arith, ltb, leb, if◌then◌else◌, ltb→lt, lt→ltb, leb→le, nat_beq_iff, Bool-cases,
  Option-cases, Equality, ◌==◌, nat_eq, string_eq, list_eq, ==_self, list_beq, list_beq_iff, length,
  length-append, keep, find, any, All, All-append, All-keep, Text, codes, is_empty, split, join,
  has_unit, starts_with, non_empty, drop, take, count_up, Any, All-keep_iff, All-map, All-find,
  Any-keep, Any-map, find-holds, find-Any, find-none, find_unique, keep_short, any-false, Free,
  split_single, split-append, split-join, split-Free, join-append, All-reverse, starts_with-append,
  starts_with_rest, starts_with_comparable, starts_with_self, starts_with-append_both,
}
use opennas.Shares.{ShareRow, PermissionRow, ShareTables}
use opennas.Acls.{AclRow}
use opennas.Files.Access.{Tables}

abbrev pub larger : Option ℕ → Option ℕ → Option ℕ
larger none later = later
larger (some n) none = some n
larger (some n) (some m) = some (max n m)

-- MAX(quota_project_id), which passes over null.
unfoldable pub max_project : List ShareRow → Option ℕ
max_project [] = none
max_project (r ∷ rows) = larger r.quota_project_id (max_project rows)

abbrev pub or_else : ℕ → Option ℕ → ℕ
or_else d none = d
or_else d (some n) = n

unfoldable pub next_project : List ShareRow → ℕ
next_project table = max 1000 (or_else 1000 (max_project table)) + 1

-- UPDATE shares SET quota_project_id WHERE id.
unfoldable pub set_project : String → ℕ → List ShareRow → List ShareRow
set_project id n [] = []
set_project id n (r ∷ rows) =
    (if r.id == id then record r { quota_project_id = some n } else r) ∷ set_project id n rows

abbrev pub allocate : String → List ShareRow → List ShareRow × ℕ
allocate id table = (set_project id (next_project table) table, next_project table)

abbrev pub project_of : Option ShareRow → Option ℕ
project_of none = none
project_of (some r) = r.quota_project_id

unfoldable pub ensure_quota_project_id : List ShareRow → String → List ShareRow × ℕ
ensure_quota_project_id table id = elim (project_of (find (λ r. r.id == id) table)) [
  | none ↦ allocate id table
  | some n ↦ if n == 0 then allocate id table else (table, n)
]

-- The row, and by ON DELETE CASCADE its permissions and folder rules.
unfoldable pub delete_share : Tables → String → Tables
delete_share db id = record {
  shares = record {
    shares = keep (λ r. not (r.id == id)) db.shares.shares;
    permissions = keep (λ r. not (r.share_id == id)) db.shares.permissions;
    group_permissions = keep (λ r. not (r.share_id == id)) db.shares.group_permissions;
    members = db.shares.members;
  };
  acls = keep (λ r. not (r.share_id == id)) db.acls;
}
