-- ===== src/Acls.antt =====
-- apps/api/src/db/acls.ts: folder rules below a share's root. The table is the list of its rows; a
-- thrown error is `none`.
pub mod Decision
pub mod Apply
pub mod Store
use opennas.Base.{
  ℕ, suc, String, Bool, ◌&&◌, ◌||◌, not, Option, none, some, List, [], ◌∷◌, map, ltb, leb,
  if◌then◌else◌, ◌==◌, nat_eq, string_eq, list_eq, length, keep, find, any, Text, is_empty, split,
  join, non_empty, take, count_up,
}
use opennas.Shares.{AccessLevel, none_level, rank, norm_level, is_none}

abbrev pub dot : Text
dot = b'.' ∷ []

abbrev pub dotdot : Text
dotdot = b'.' ∷ b'.' ∷ []

pub record AclRow : Type 0 where
  pub id : String
  pub share_id : String
  pub path : Text
  pub subject_type : String
  pub subject_id : String
  pub level : String
  pub created_at : ℕ

-- An error of the code: the path climbs out of its share, or names no folder.
unfoldable pub normalize_acl_path : Text → Option Text
normalize_acl_path input =
    let parts = keep (λ p. not (is_empty p) && not (p == dot)) (split b'/' input) in
    if any (λ p. p == dotdot) parts then none else some (join b'/' parts)

-- Every ancestor path, from the shallowest folder down to the path itself.
unfoldable pub ancestors_of : Text → List Text
ancestors_of path =
    let parts = non_empty (split b'/' path) in
    map (λ i. join b'/' (take (suc i) parts)) (count_up 0 (length parts))

-- The subject that a permission is looked up for.
pub record Subject : Type 0 where
  pub user_id : String
  pub groups : List String

abbrev pub is_user_rule : Subject → AclRow → Bool
is_user_rule who r = r.subject_type == "user" && r.subject_id == who.user_id

abbrev pub is_group_rule : Subject → AclRow → Bool
is_group_rule who r = r.subject_type == "group" && any (λ g. r.subject_id == g) who.groups

abbrev pub min_level : AccessLevel → AccessLevel → AccessLevel
min_level a b = if leb (rank a) (rank b) then a else b

-- `.reduce` over the levels of the rules, the first of which is given.
unfoldable pub most_restrictive : AccessLevel → List AclRow → AccessLevel
most_restrictive level [] = level
most_restrictive level (r ∷ rules) = most_restrictive (min_level level (norm_level r.level)) rules

abbrev pub group_level : AccessLevel → List AclRow → AccessLevel
group_level level [] = level
group_level level (r ∷ rules) = most_restrictive (norm_level r.level) rules

-- One round of the loop, for the rows of one folder.
unfoldable pub decide_step : Subject → List AclRow → AccessLevel → AccessLevel
decide_step who here level = elim (find (is_user_rule who) here) [
  | some rule ↦ norm_level rule.level
  | none ↦ group_level level (keep (is_group_rule who) here)
]

unfoldable pub walk : Subject → List AclRow → AccessLevel → List Text → AccessLevel
walk who rows level [] = level
walk who rows level (step ∷ chain) =
    walk who rows (decide_step who (keep (λ r. r.path == step) rows) level) chain

unfoldable pub apply_rules : Subject → List AclRow → AccessLevel → List Text → AccessLevel
apply_rules who rows level chain = if is_empty rows then level else walk who rows level chain

abbrev pub in_chain : String → List Text → AclRow → Bool
in_chain share chain r = r.share_id == share && any (λ p. r.path == p) chain

unfoldable pub apply_folder_acls :
    List AclRow → String → Text → Subject → AccessLevel → Option AccessLevel
apply_folder_acls table share rel_path who share_level =
    if is_none share_level then some none_level else elim (normalize_acl_path rel_path) [
      | none ↦ none
      | some path ↦
          if is_empty path
          then some share_level
          else let chain = ancestors_of path in
            some (apply_rules who (keep (in_chain share chain) table) share_level chain)
    ]

abbrev pub is_same_rule : String → Text → String → String → AclRow → Bool
is_same_rule share path subject_type subject_id r =
    r.share_id == share
    && r.path == path
    && r.subject_type == subject_type
    && r.subject_id == subject_id

pub record SetAclInput : Type 0 where
  pub share_id : String
  pub path : Text
  pub subject_type : String
  pub subject_id : String
  pub level : String

-- INSERT … ON CONFLICT(share_id, path, subject_type, subject_id) DO UPDATE SET level.
unfoldable pub upsert_acl : AclRow → List AclRow → List AclRow
upsert_acl row [] = row ∷ []
upsert_acl row (r ∷ rows) =
    let rest = upsert_acl row rows in
    if is_same_rule row.share_id row.path row.subject_type row.subject_id r
    then record r { level = row.level } ∷ rows
    else r ∷ rest

-- The row of a new rule; the id and the time are `nanoid()` and the clock.
abbrev pub new_row : String → ℕ → SetAclInput → Text → AclRow
new_row id now input path = record {
  id = id;
  share_id = input.share_id;
  path = path;
  subject_type = input.subject_type;
  subject_id = input.subject_id;
  level = input.level;
  created_at = now;
}

-- `none` is an error: a path that is no folder's, or a share that does not exist.
unfoldable pub set_acl :
    (String → Bool) → String → ℕ → List AclRow → SetAclInput → Option (List AclRow)
set_acl is_share id now table input = elim (normalize_acl_path input.path) [
  | none ↦ none
  | some path ↦
      if is_empty path || not (is_share input.share_id)
      then none
      else some (upsert_acl (new_row id now input path) table)
]

abbrev pub is_row : String → String → AclRow → Bool
is_row share id r = r.id == id && r.share_id == share

unfoldable pub delete_acl : List AclRow → String → String → List AclRow × Bool
delete_acl table share id =
    (keep (λ r. not (is_row share id r)) table, length (keep (is_row share id) table) == 1)

unfoldable pub share_has_acls : List AclRow → String → Bool
share_has_acls table share = ltb 0 (length (keep (λ r. r.share_id == share) table))

abbrev pub is_orphan : List String → List String → AclRow → Bool
is_orphan users groups r =
    (r.subject_type == "user" && not (any (λ u. r.subject_id == u) users))
    || (r.subject_type == "group" && not (any (λ g. r.subject_id == g) groups))

-- The rules whose subject is gone are dropped; how many is returned.
unfoldable pub prune_orphan_acls : List String → List String → List AclRow → List AclRow × ℕ
prune_orphan_acls users groups table =
    (keep (λ r. not (is_orphan users groups r)) table, length (keep (is_orphan users groups) table))
