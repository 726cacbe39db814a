-- ===== src/Shares/Highest.antt =====
-- What `effectiveAccessForShareId` computes.
use native.Mathlib.Nat.{le_refl, le_trans}
use text.Mathlib.TextEquality.{eq_iff}
use opennas.Base.{
  find_unique, ◌≤◌, String, ◌≡◌, refl, sym, ap, ◌∙◌, inl, inr, true, ◌&&◌, List, [], ◌∷◌, arith,
  Bool-cases, Option-cases, ◌==◌, nat_eq, string_eq, list_eq, length, keep, find, any, All,
  is_empty, Any, All-keep_iff, All-map, Any-keep, Any-map, find-Any, find-none,
}
use opennas.Shares.{
  AccessLevel, rank, norm_level, max_level, PermissionRow, ShareTables, group_ids_for_user,
  raise_level, own_level, is_perm, effective_access_for_share_id,
}
use opennas.Shares.Access.{
  GrantsUser, GrantsGroup, IsGranted, max_level_lem, raise_level_lem, member_of, member_known,
}

-- The query for the groups' rows.
abbrev group_rows : ShareTables → String → String → List PermissionRow
group_rows db share user =
    keep
      (λ r. r.share_id == share && any (λ g. r.subject == g) (group_ids_for_user db.members user))
      db.group_permissions

-- The level before the groups are read.
abbrev own_or_guest : ShareTables → String → String → String → AccessLevel
own_or_guest db share guest user =
    max_level (own_level (find (is_perm share user) db.permissions)) (norm_level guest)

no_groups :
    (share : String) (groups : List String) (rows : List PermissionRow)
    → is_empty groups ≡ true
    → keep (λ r. r.share_id == share && any (λ g. r.subject == g) groups) rows ≡ []
no_groups share [] [] h = refl
no_groups share [] (r ∷ rows) h = ground (arith, no_groups share [] rows h)
no_groups share (g ∷ groups) rows h = cc

-- With no group the query finds nothing, so both branches are one.
access_eq :
    (db : ShareTables) (share guest user : String)
    → effective_access_for_share_id db share guest user
      ≡ raise_level (own_or_guest db share guest user) (group_rows db share user)
unfolding effective_access_for_share_id
access_eq db share guest user = elim (Bool-cases (is_empty (group_ids_for_user db.members user))) [
  | inl none_of ↦
      rw
        (none_of, no_groups share (group_ids_for_user db.members user) db.group_permissions none_of)
  | inr some_of ↦ rw some_of
]

is_perm-GrantsUser :
    (share user : String) (p : PermissionRow)
    → is_perm share user p ≡ true
    → GrantsUser share user p
is_perm-GrantsUser share user p h =
    ((eq_iff p.share_id share).0 (ground arith), (eq_iff p.subject user).0 (ground arith))

GrantsUser-is_perm :
    (share user : String) (p : PermissionRow)
    → GrantsUser share user p
    → is_perm share user p ≡ true
GrantsUser-is_perm share user p g =
    rw ((eq_iff p.share_id share).1 g.0, (eq_iff p.subject user).1 g.1)

-- The only row of the user's own gives the level that is read of it.
own_level-highest :
    (permissions : List PermissionRow) (share user : String)
    → length (keep (is_perm share user) permissions) ≤ 1
    → All
        (λ p.
          GrantsUser share user p
          → rank (norm_level p.level) ≤ rank (own_level (find (is_perm share user) permissions)))
        permissions
own_level-highest permissions share user unique =
    elim (Option-cases (find (is_perm share user) permissions)) [
      | inl absent ↦
          All-map _ _ (λ p miss g. let hit = GrantsUser-is_perm share user p g in cc) permissions
            (find-none (is_perm share user) permissions absent)
      | inr (y, found) ↦
          All-map _ _
            (λ p same g.
              let e = same (GrantsUser-is_perm share user p g) in
              rw (found, e) (le_refl (rank (norm_level y.level))))
            permissions (find_unique (is_perm share user) permissions found unique)
    ]

own_level-IsGranted :
    (db : ShareTables) (share guest user : String)
    → IsGranted db share guest user (own_or_guest db share guest user)
own_level-IsGranted db share guest user =
    elim (max_level_lem (own_level (find (is_perm share user) db.permissions))
      (norm_level guest)).0 [
        | inr e ↦ inr (inl e)
        | inl e ↦ elim (Option-cases (find (is_perm share user) db.permissions)) [
          | inl absent ↦ inl (e ∙ ap own_level absent)
          | inr (p, found) ↦ inr (
              inr (
                inl (
                  Any-map
                    (λ r t. (
                      is_perm-GrantsUser share user r t.1,
                      ap (λ x. norm_level x.level) t.0 ∙ sym (e ∙ ap own_level found),
                    ))
                    db.permissions (find-Any (is_perm share user) db.permissions found))))
        ]
      ]

group_source :
    (db : ShareTables) (share user : String) (level : AccessLevel)
    → Any (λ r. norm_level r.level ≡ level) (group_rows db share user)
    → Any
        (λ p. GrantsGroup db.members share user p × (norm_level p.level ≡ level))
        db.group_permissions
group_source db share user level h =
    Any-keep _
      (λ p c e. (
        (
          (eq_iff p.share_id share).0 (ground arith),
          member_of db.members user p.subject (ground arith),
        ),
        e,
      ))
      db.group_permissions h

group_bound :
    (db : ShareTables) (share user : String) (level : AccessLevel)
    → All (λ r. rank (norm_level r.level) ≤ rank level) (group_rows db share user)
    → All
        (λ p. GrantsGroup db.members share user p → rank (norm_level p.level) ≤ rank level)
        db.group_permissions
group_bound db share user level h =
    All-map _ _
      (λ p f g.
        f (rw ((eq_iff p.share_id share).1 g.0, member_known db.members user p.subject g.1)))
      db.group_permissions (All-keep_iff _ _ db.group_permissions h)

-- The level is granted by something, and nothing that applies to the user grants a higher one: not the
-- guests' level, not the user's own row, and no row of a group that the user is in. The table of
-- permissions has at most one row for a share and a user.
pub effective_access_highest :
    (db : ShareTables) (share guest user : String)
    → length (keep (is_perm share user) db.permissions) ≤ 1
    → let level = effective_access_for_share_id db share guest user in
      IsGranted db share guest user level
      × (rank (norm_level guest) ≤ rank level)
      × All (λ p. GrantsUser share user p → rank (norm_level p.level) ≤ rank level) db.permissions
      × All
          (λ p. GrantsGroup db.members share user p → rank (norm_level p.level) ≤ rank level)
          db.group_permissions
effective_access_highest db share guest user unique =
    let start = own_or_guest db share guest user in
    let (source, above, most) = raise_level_lem start (group_rows db share user) in
    let (side, own, open_to_all) =
      max_level_lem (own_level (find (is_perm share user) db.permissions)) (norm_level guest) in
    rw (access_eq db share guest user) (
      elim source [
        | inl e ↦ rw e (own_level-IsGranted db share guest user)
        | inr hit ↦ inr (inr (inr (group_source db share user _ hit)))
      ],
      omega arith,
      All-map _ _ (λ p f g. le_trans (f g) (le_trans own above)) db.permissions
          (own_level-highest db.permissions share user unique),
      group_bound db share user _ most,
    )
