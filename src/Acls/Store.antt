-- ===== src/Acls/Store.antt =====
-- The table of folder rules under `setAcl`.
use text.Mathlib.TextEquality.{eq_iff}
use opennas.Base.{
  ◌||◌, not, ℕ, max, String, ◌≡◌, inl, inr, Bool, true, false, ◌&&◌, Option, none, some, List, [],
  ◌∷◌, arith, if◌then◌else◌, Bool-cases, ◌==◌, nat_eq, string_eq, list_eq, list_beq_iff, length,
  keep, find, Text, is_empty,
}
use opennas.Acls.{
  AclRow, SetAclInput, new_row, is_same_rule, upsert_acl, set_acl, normalize_acl_path,
}

-- The level on file for one folder and one subject, and the number of its rows.
abbrev pub rule_level : String → Text → String → String → List AclRow → Option String
rule_level share path subject_type subject table =
    elim (find (is_same_rule share path subject_type subject) table) [
      | none ↦ none
      | some r ↦ some r.level
    ]

abbrev pub rule_count : String → Text → String → String → List AclRow → ℕ
rule_count share path subject_type subject table =
    length (keep (is_same_rule share path subject_type subject) table)

module _ (share : String) (path : Text) (subject_type subject : String) where
  abbrev key : AclRow → Bool
  key = is_same_rule share path subject_type subject

  -- Two rows of one key are told apart by no other.
  same_key :
      (row r : AclRow)
      → is_same_rule row.share_id row.path row.subject_type row.subject_id r ≡ true
      → key r ≡ key row
  same_key row r h =
      let a : r.share_id ≡ row.share_id = (eq_iff r.share_id row.share_id).0 (ground arith) in
      let b : r.path ≡ row.path = (list_beq_iff r.path row.path).0 (ground arith) in
      let c : r.subject_type ≡ row.subject_type =
        (eq_iff r.subject_type row.subject_type).0 (ground arith) in
      let d : r.subject_id ≡ row.subject_id =
        (eq_iff r.subject_id row.subject_id).0 (ground arith) in
      rw (a, b, c, d)

  same_key_self :
      (row r : AclRow)
      → key row ≡ true
      → key r ≡ true
      → is_same_rule row.share_id row.path row.subject_type row.subject_id r ≡ true
  same_key_self row r h k =
      let a = (eq_iff row.share_id share).0 (ground arith) in
      let b = (list_beq_iff row.path path).0 (ground arith) in
      let c = (eq_iff row.subject_type subject_type).0 (ground arith) in
      let d = (eq_iff row.subject_id subject).0 (ground arith) in rw (a, b, c, d) k

  rule_level-upsert_acl :
      (row : AclRow) (table : List AclRow)
      → rule_level share path subject_type subject (upsert_acl row table)
        ≡ (if key row then some row.level else rule_level share path subject_type subject table)
  unfolding upsert_acl
  rule_level-upsert_acl row [] = ground arith
  rule_level-upsert_acl row (r ∷ table) =
      elim (Bool-cases (is_same_rule row.share_id row.path row.subject_type row.subject_id r)) [
        | inl hit ↦ rw (hit, ← same_key row r hit) (ground arith)
        | inr miss ↦
            let same = same_key_self row r in
            rw miss (ground (arith, same, rule_level-upsert_acl row table))
      ]

  rule_count-upsert_acl :
      (row : AclRow) (table : List AclRow)
      → rule_count share path subject_type subject (upsert_acl row table) ≡ (
          let old = rule_count share path subject_type subject table in
          if key row then max 1 old else old)
  unfolding upsert_acl
  rule_count-upsert_acl row [] = ground arith
  rule_count-upsert_acl row (r ∷ table) =
      elim (Bool-cases (is_same_rule row.share_id row.path row.subject_type row.subject_id r)) [
        | inl hit ↦ rw (hit, ← same_key row r hit) (ground arith)
        | inr miss ↦
            let same = same_key_self row r in
            rw miss (ground (arith, same, rule_count-upsert_acl row table))
      ]

set_acl-some :
    (is_share : String → Bool) (id : String) (now : ℕ) (table changed : List AclRow)
    (input : SetAclInput) (folder : Text)
    → normalize_acl_path input.path ≡ some folder
    → set_acl is_share id now table input ≡ some changed
    → (is_empty folder ≡ false)
      × (is_share input.share_id ≡ true)
      × (upsert_acl (new_row id now input folder) table ≡ changed)
unfolding set_acl
set_acl-some is_share id now table changed input folder e f =
    elim (Bool-cases (is_empty folder || not (is_share input.share_id))) [
      | inl refused ↦ let none_set = rw (e, set_acl, refused) at f in cc
      | inr full ↦ (ground arith, ground arith, ground arith)
    ]

-- A rule that is accepted names a folder of a share that exists; setting it stores its level under the folder and the subject that it names, changes
-- the level of no other folder or subject, and adds a row only where there was none.
pub set_acl-rule_level :
    (is_share : String → Bool) (id : String) (now : ℕ) (table changed : List AclRow)
    (input : SetAclInput) (folder : Text) (share : String) (path : Text)
    (subject_type subject : String)
    → normalize_acl_path input.path ≡ some folder
    → set_acl is_share id now table input ≡ some changed
    → let named =
        input.share_id == share
        && folder == path
        && input.subject_type == subject_type
        && input.subject_id == subject in
      let old = rule_count share path subject_type subject table in
      (is_empty folder ≡ false)
      × (is_share input.share_id ≡ true)
      × (rule_level share path subject_type subject changed
          ≡ (if named then some input.level else rule_level share path subject_type subject table))
      × (rule_count share path subject_type subject changed ≡ (if named then max 1 old else old))
set_acl-rule_level is_share id now table changed input folder share path subject_type subject e f =
    let row = new_row id now input folder in
    let (full, known, same) = set_acl-some is_share id now table changed input folder e f in
    (
      full,
      known,
      rw (← same) (rule_level-upsert_acl share path subject_type subject row table),
      rw (← same) (rule_count-upsert_acl share path subject_type subject row table),
    )
