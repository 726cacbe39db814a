-- ===== src/Files/Access/Granted.antt =====
-- What `pathAccess` grants.
use mathlib.Core.Path.{subst}
use mathlib.Core.List.{reverse}
use text.Mathlib.TextEquality.{eq_iff}
use opennas.Base.{
  keep_short, String, ◌≡◌, refl, sym, ap, ◌∙◌, inl, inr, true, false, ◌&&◌, ◌||◌, not, none, some,
  List, [], ◌∷◌, map, arith, if◌then◌else◌, Bool-cases, Option-cases, ◌==◌, nat_eq, string_eq,
  list_eq, ==_self, list_beq, keep, any, All, Text, is_empty, split, join, All-map, split-join,
}
use opennas.Shares.{AccessLevel, is_none, ShareRow, get_share_row_by_name, effective_access}
use opennas.Acls.{AclRow, Subject, share_has_acls, dot, dotdot}
use opennas.Acls.Decision.{Decides}
use opennas.Acls.Apply.{acl_parts, prefixes, apply_folder_acls-Decides}
use opennas.Files.Paths.{slash, normalize_virtual, virtual_segments}
use opennas.Files.Paths.Canonical.{IsSafe, safe-Free, canonical}
use opennas.Files.Paths.Normal.{normalize_virtual_form}
use opennas.Files.Access.{
  User, Access, Tables, is_admin, is_rw, allow, access_of, subject_of, folder_access,
  segment_access, path_access,
}

acl_parts_safe :
    (segs : List Text)
    → All IsSafe segs
    → keep (λ p. not (is_empty p) && not (p == dot)) segs ≡ segs
acl_parts_safe [] h = refl
acl_parts_safe (s ∷ segs) h = ground (arith, acl_parts_safe segs h.1)

no_dotdot : (segs : List Text) → All IsSafe segs → any (λ p. p == dotdot) segs ≡ false
no_dotdot [] h = refl
no_dotdot (s ∷ segs) h = ground (arith, no_dotdot segs h.1)

acl_parts-join : (segs : List Text) → All IsSafe segs → acl_parts (join slash segs) ≡ segs
acl_parts-join [] h = unfold join split in refl
acl_parts-join (s ∷ segs) h =
    rw (split-join slash s segs h.0.3 (safe-Free segs h.1)) (acl_parts_safe (s ∷ segs) h)

pub root_differs :
    (name : Text) (rest : List Text) → IsSafe name → (canonical (name ∷ rest) == slash ∷ []) ≡ false
unfolding join list_beq
root_differs [] rest h = cc h.0
root_differs (c ∷ name) [] h = refl
root_differs (c ∷ name) (s ∷ rest) h = refl

-- `pathAccess` by the segments of the path.
path_access_segments :
    (db : Tables) (u : User) (path : Text) (name : Text) (rest : List Text)
    → virtual_segments path ≡ name ∷ rest
    → path_access db u path
      ≡ (if is_admin u.role then some (allow true true) else segment_access db u (name ∷ rest))
unfolding path_access virtual_segments
path_access_segments db u path name rest e =
    let (form, safe, _) = normalize_virtual_form path in
    let same : normalize_virtual path ≡ canonical (name ∷ rest) = form ∙ ap canonical e in
    let name_safe : All IsSafe (name ∷ rest) = subst (All IsSafe) e safe in
    let differs : (normalize_virtual path == slash ∷ []) ≡ false =
      rw same (root_differs name rest name_safe.0) in
    rw (differs, e)

path_access_root :
    (db : Tables) (u : User) (path : Text)
    → virtual_segments path ≡ []
    → path_access db u path ≡ some (allow true false)
unfolding path_access
path_access_root db u path e =
    let same : normalize_virtual path ≡ slash ∷ [] =
      (normalize_virtual_form path).0 ∙ ap canonical e ∙ (unfold join in refl) in
    rw (same, ==_self {A = Text} (slash ∷ []))

-- What a user may do at the folder or file with these segments.
pub data May (db : Tables) (u : User) : List Text → Access → Type 0 where
  root : May db u [] (allow true false)
  as_admin :
      {name : Text} {rest : List Text}
      → is_admin u.role ≡ true
      → May db u (name ∷ rest) (allow true true)
  closed :
      {name : Text} {rest : List Text}
      → is_admin u.role ≡ false
      → is_none (effective_access db.shares name u.id) ≡ true
      → May db u (name ∷ rest) (allow false false)
  ruled :
      {name : Text} {rest : List Text} {share : ShareRow} {level : AccessLevel}
      → is_admin u.role ≡ false
      → is_none (effective_access db.shares name u.id) ≡ false
      → get_share_row_by_name db.shares.shares name ≡ some share
      → Decides
          (subject_of db u)
          db.acls
          share.id
          (effective_access db.shares name u.id)
          (reverse (map (join slash) (prefixes rest)))
          level
      → May db u (name ∷ rest) (access_of level)

silent_steps :
    (table : List AclRow) (share : String) (who : Subject) (own : AccessLevel) (steps : List Text)
    → All (λ r. (r.share_id == share) ≡ false) table
    → Decides who table share own steps own
silent_steps table share who own [] h = Decides.unruled
silent_steps table share who own (step ∷ steps) h =
    Decides.silent (All-map _ _ (λ r other t. absurd (elsewhere r other t.0)) table h)
      (All-map _ _ (λ r other t. absurd (elsewhere r other t.0)) table h)
      (silent_steps table share who own steps h)
  where
    elsewhere : (r : AclRow) → (r.share_id == share) ≡ false → r.share_id ≡ share → ⊥
    elsewhere r other e = let same = (eq_iff r.share_id share).1 e in cc

-- In a share with no folder rules its own level stays.
unruled_Decides :
    (table : List AclRow) (share : String) (who : Subject) (own : AccessLevel) (steps : List Text)
    → share_has_acls table share ≡ false
    → Decides who table share own steps own
unfolding share_has_acls
unruled_Decides table share who own steps none_of =
    silent_steps table share who own steps
      (keep_short (λ r. r.share_id == share) table (ground arith))

access_of_open :
    (level : AccessLevel) → is_none level ≡ false → access_of level ≡ allow true (is_rw level)
access_of_open level h = rw h

simple_Decides :
    (db : Tables) (u : User) (share : ShareRow) (level : AccessLevel) (rest : List Text)
    → (is_empty rest || not (share_has_acls db.acls share.id)) ≡ true
    → Decides
        (subject_of db u)
        db.acls
        share.id
        level
        (reverse (map (join slash) (prefixes rest)))
        level
simple_Decides db u share level [] h = Decides.unruled
simple_Decides db u share level (s ∷ rest) h =
    unruled_Decides db.acls share.id (subject_of db u) level _ (ground arith)

open_share :
    (db : Tables) (u : User) (name : Text) (rest : List Text) (share : ShareRow)
    → All IsSafe rest
    → is_admin u.role ≡ false
    → is_none (effective_access db.shares name u.id) ≡ false
    → get_share_row_by_name db.shares.shares name ≡ some share
    → (access : Access) × (folder_access db u
          (effective_access db.shares name u.id)
          (some share)
          rest
        ≡ some access)
      × May db u (name ∷ rest) access
open_share db u name rest share safe plain is_open found =
    let level = effective_access db.shares name u.id in
    elim (Bool-cases (is_empty rest || not (share_has_acls db.acls share.id))) [
      | inl simple ↦ (
        access_of level,
        unfold folder_access in
            rw (simple, folder_access) (ap some (sym (access_of_open level is_open))),
        ruled plain is_open found (simple_Decides db u share level rest simple),
      )
      | inr rules ↦
          let (effective, e, d) =
            apply_folder_acls-Decides db.acls share.id (join slash rest) (subject_of db u) level
              is_open (rw (acl_parts-join rest safe) (no_dotdot rest safe)) in
          (
            access_of effective,
            unfold folder_access in rw (rules, e, folder_access),
            ruled plain is_open found (rw (acl_parts-join rest safe) at d),
          )
    ]

no_share :
    (db : Tables) (u : User) (name : Text)
    → get_share_row_by_name db.shares.shares name ≡ none
    → is_none (effective_access db.shares name u.id) ≡ true
unfolding effective_access
no_share db u name e = rw (e, effective_access)

-- `pathAccess` never throws, and answers as follows. The root is the list of shares: everyone may read it,
-- nobody may write it. Below it an administrator may do everything. A user whom the share grants nothing
-- may do nothing, whatever the folder rules say. For any other user the deepest folder on the way with a
-- rule for the user or the user's groups decides, and the share's level where there is none.
pub path_access-May :
    (db : Tables) (u : User) (path : Text)
    → (access : Access) × (path_access db u path ≡ some access)
      × May db u (virtual_segments path) access
path_access-May db u path = go (virtual_segments path) refl
  where
    go :
        (segs : List Text)
        → virtual_segments path ≡ segs
        → (access : Access) × (path_access db u path ≡ some access) × May db u segs access
    go [] e = (allow true false, path_access_root db u path e, root)
    go (name ∷ rest) e =
        let safe : All IsSafe (name ∷ rest) =
          subst (All IsSafe) e (normalize_virtual_form path).1 in
        let same = path_access_segments db u path name rest e in
        elim (Bool-cases (is_admin u.role)) [
          | inl all ↦ (allow true true, same ∙ rw all, as_admin all)
          | inr plain ↦ elim (Bool-cases (is_none (effective_access db.shares name u.id))) [
            | inl shut ↦ (allow false false, same ∙ rw (plain, shut), closed plain shut)
            | inr is_open ↦ elim (Option-cases (get_share_row_by_name db.shares.shares name)) [
              | inl missing ↦ let shut = no_share db u name missing in absurd cc
              | inr (share, found) ↦
                  let (access, granted, may) =
                    open_share db u name rest share safe.1 plain is_open found in
                  (access, same ∙ rw (plain, is_open, found) granted, may)
            ]
          ]
        ]
