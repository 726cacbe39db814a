-- ===== src/Permissions/Levels.antt =====
-- The levels that the table grants after a list was written.
use mathlib.Core.Path.{subst}
use text.Mathlib.TextEquality.{eq_iff}
use opennas.Base.{
  clash, String, ◌≡◌, refl, sym, ap, ◌∙◌, inl, inr, Bool, true, false, not, none, some, List, [],
  ◌∷◌, ◌++◌, arith, if◌then◌else◌, Bool-cases, ◌==◌, nat_eq, string_eq, list_eq, keep, find, All,
}
use opennas.Shares.{
  AccessLevel, none_level, ro_level, rw_level, norm_level, own_level, PermissionRow, is_perm,
}
use opennas.Permissions.{
  Permission, level_text, replace_permission, insert_permissions, set_permissions,
}

-- What a list grants a subject: its last entry decides, and an entry that is not "ro" is for writing.
abbrev pub listed_level : AccessLevel → List Permission → String → AccessLevel
listed_level level [] subject = level
listed_level level (p ∷ perms) subject =
    listed_level
      (if p.subject == subject then (if p.level == "ro" then ro_level else rw_level) else level)
      perms subject

abbrev pub level_on_file : List PermissionRow → String → String → AccessLevel
level_on_file table share subject = own_level (find (is_perm share subject) table)

find-append_miss :
    (share subject : String) (table : List PermissionRow) (row : PermissionRow)
    → is_perm share subject row ≡ false
    → find (is_perm share subject) (table ++ row ∷ []) ≡ find (is_perm share subject) table
find-append_miss share subject [] row h = rw h
find-append_miss share subject (r ∷ table) row h = rw (find-append_miss share subject table row h)

find-append_hit :
    (share subject : String) (table : List PermissionRow) (row : PermissionRow)
    → find (is_perm share subject) table ≡ none
    → is_perm share subject row ≡ true
    → find (is_perm share subject) (table ++ row ∷ []) ≡ some row
find-append_hit share subject [] row none_yet h = rw h
find-append_hit share subject (r ∷ table) row none_yet h =
    elim (Bool-cases (is_perm share subject r)) [
      | inl hit ↦ let found = rw hit at none_yet in absurd cc
      | inr miss ↦ rw miss (find-append_hit share subject table row (rw miss at none_yet) h)
    ]

-- A filter that keeps what is searched for, and one that drops it.
find-keep_same :
    (share subject : String) (q : PermissionRow → Bool) (table : List PermissionRow)
    → ((r : PermissionRow) → is_perm share subject r ≡ true → q r ≡ true)
    → find (is_perm share subject) (keep q table) ≡ find (is_perm share subject) table
find-keep_same share subject q [] h = refl
find-keep_same share subject q (r ∷ table) h =
    let rest = find-keep_same share subject q table h in
    elim (Bool-cases (is_perm share subject r)) [
      | inl hit ↦ let kept = h r hit in rw (kept, hit)
      | inr miss ↦ elim (Bool-cases (q r)) [
        | inl kept ↦ rw (kept, miss, rest)
        | inr gone ↦ rw (gone, miss, rest)
      ]
    ]

find-keep_gone :
    (share subject : String) (q : PermissionRow → Bool) (table : List PermissionRow)
    → ((r : PermissionRow) → is_perm share subject r ≡ true → q r ≡ false)
    → find (is_perm share subject) (keep q table) ≡ none
find-keep_gone share subject q [] h = refl
find-keep_gone share subject q (r ∷ table) h =
    let rest = find-keep_gone share subject q table h in
    elim (Bool-cases (q r)) [
      | inr gone ↦ rw gone rest
      | inl kept ↦ elim (Bool-cases (is_perm share subject r)) [
        | inl hit ↦ absurd (clash (h r hit) kept)
        | inr miss ↦ rw (kept, miss) rest
      ]
    ]

level_text_lem :
    (level : String)
    → norm_level (level_text level) ≡ (if level == "ro" then ro_level else rw_level)
level_text_lem level = elim (Bool-cases (level == "ro")) [ inl ro ↦ rw ro | inr other ↦ rw other ]

-- Rows of different subjects or of different shares.
other_subject :
    (share a b : String) (r : PermissionRow)
    → (a == b) ≡ false
    → is_perm share b r ≡ true
    → is_perm share a r ≡ false
other_subject share a b r apart h = elim (Bool-cases (r.subject == a)) [
  | inr miss ↦ ground arith
  | inl hit ↦
      let first : r.subject ≡ a = (eq_iff r.subject a).0 hit in
      let second : r.subject ≡ b = (eq_iff r.subject b).0 (ground arith) in
      absurd (clash apart ((eq_iff a b).1 (sym first ∙ second)))
]

other_share :
    (share other a b : String) (r : PermissionRow)
    → (share == other) ≡ false
    → is_perm other b r ≡ true
    → is_perm share a r ≡ false
other_share share other a b r apart h = elim (Bool-cases (r.share_id == share)) [
  | inr miss ↦ ground arith
  | inl hit ↦
      let first : r.share_id ≡ share = (eq_iff r.share_id share).0 hit in
      let second : r.share_id ≡ other = (eq_iff r.share_id other).0 (ground arith) in
      absurd (clash apart ((eq_iff share other).1 (sym first ∙ second)))
]

new_permission : String → Permission → PermissionRow
new_permission share p = record {
  share_id = share;
  subject = p.subject;
  level = level_text p.level;
}

replace_own :
    (share : String) (p : Permission) (table : List PermissionRow) (subject : String)
    → level_on_file (replace_permission share p table) share subject ≡ (
        if p.subject == subject
        then (if p.level == "ro" then ro_level else rw_level)
        else level_on_file table share subject)
unfolding replace_permission new_permission
replace_own share p table subject =
    let self : (share == share) ≡ true = (eq_iff share share).1 refl in
    let row = new_permission share p in
    let left = keep (λ r. not (is_perm share p.subject r)) table in
    elim (Bool-cases (p.subject == subject)) [
      | inl own ↦
          let same : p.subject ≡ subject = (eq_iff p.subject subject).0 own in
          let gone =
            find-keep_gone share subject (λ r. not (is_perm share p.subject r)) table
              (λ r hit.
                let hit_own = subst (λ t. is_perm share t r ≡ true) (sym same) hit in
                ground arith) in
          let found = find-append_hit share subject left row gone (ground arith) in
          ap own_level found ∙ rw own (level_text_lem p.level)
      | inr other ↦
          let kept =
            find-keep_same share subject (λ r. not (is_perm share p.subject r)) table
              (λ r hit.
                let miss = other_subject share p.subject subject r other hit in ground arith) in
          let found = find-append_miss share subject left row (ground arith) in
          ap own_level (found ∙ kept) ∙ rw other
    ]

replace_other :
    (share other : String) (p : Permission) (table : List PermissionRow) (subject : String)
    → (share == other) ≡ false
    → level_on_file (replace_permission share p table) other subject
      ≡ level_on_file table other subject
unfolding replace_permission new_permission
replace_other share other p table subject away =
    let row = new_permission share p in
    let left = keep (λ r. not (is_perm share p.subject r)) table in
    let kept =
      find-keep_same other subject (λ r. not (is_perm share p.subject r)) table
        (λ r hit.
          let miss = other_share share other p.subject subject r away hit in ground arith) in
    ap own_level (find-append_miss other subject left row (ground arith) ∙ kept)

abbrev pub AreKnown : (String → Bool) → List Permission → Type 0
AreKnown is_subject perms = All (λ p. is_subject p.subject ≡ true) perms

-- Each entry in turn has the last word so far.
inserted :
    (is_share is_subject : String → Bool) (share : String) (perms : List Permission)
    (table : List PermissionRow)
    → is_share share ≡ true
    → AreKnown is_subject perms
    → (after : List PermissionRow) × (insert_permissions is_share is_subject share perms table
        ≡ some after)
      × ((subject : String)
          → level_on_file after share subject
            ≡ listed_level (level_on_file table share subject) perms subject)
      × ((other subject : String)
          → (share == other) ≡ false
          → level_on_file after other subject ≡ level_on_file table other subject)
unfolding insert_permissions
inserted is_share is_subject share [] table known h =
    (table, refl, λ subject. refl, λ other subject away. refl)
inserted is_share is_subject share (p ∷ perms) table known h =
    let (after, e, own, others) =
      inserted is_share is_subject share perms (replace_permission share p table) known h.1 in
    let listed = h.0 in
    (
      after,
      rw (known, listed) e,
      λ subject.
          own subject ∙ ap (λ l. listed_level l perms subject) (replace_own share p table subject),
      λ other subject away.
          others other subject away ∙ replace_other share other p table subject away,
    )

-- Writing a share's list succeeds if the share and every subject of the list exist. From then on the share
-- grants each subject what the last entry for it in the list says, and none where the list has no entry,
-- whatever it granted before; no other share's levels change.
set_permissions_levels :
    (is_share is_subject : String → Bool) (table : List PermissionRow)
    (share other subject : String) (perms : List Permission)
    → is_share share ≡ true
    → AreKnown is_subject perms
    → (share == other) ≡ false
    → (after : List PermissionRow) × (set_permissions is_share is_subject table share perms
        ≡ some after)
      × (level_on_file after share subject ≡ listed_level none_level perms subject)
      × (level_on_file after other subject ≡ level_on_file table other subject)
unfolding set_permissions
set_permissions_levels is_share is_subject table share other subject perms known h away =
    let q = λ (r : PermissionRow). not (r.share_id == share) in
    let (after, e, own, others) = inserted is_share is_subject share perms (keep q table) known h in
    let cleared = find-keep_gone share subject q table (λ r hit. ground arith) in
    let kept = find-keep_same other subject q table (λ r hit.
      elim (Bool-cases (r.share_id == share)) [
        | inr miss ↦ ground arith
        | inl same ↦
            let first : r.share_id ≡ share = (eq_iff r.share_id share).0 same in
            let second : r.share_id ≡ other = (eq_iff r.share_id other).0 (ground arith) in
            absurd (clash away ((eq_iff share other).1 (sym first ∙ second)))
      ]) in
    (
      after,
      e,
      own subject ∙ ap (λ r. listed_level (own_level r) perms subject) cleared,
      others other subject away ∙ ap own_level kept,
    )
