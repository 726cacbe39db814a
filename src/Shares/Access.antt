-- ===== src/Shares/Access.antt =====
-- The level at a share's root is the highest that anything grants.
use text.Mathlib.TextEquality.{eq_iff}
use opennas.Base.{
  ◌≤◌, String, ◌≡◌, refl, sym, ◌∙◌, ◌⊎◌, inl, inr, true, List, [], ◌∷◌, arith, Bool-cases, ◌==◌,
  nat_eq, string_eq, list_eq, any, All, Any,
}
use opennas.Shares.{
  AccessLevel, none_level, rank, norm_level, max_level, PermissionRow, MemberRow, ShareTables,
  group_ids_for_user, raise_level,
}

-- A row that grants the user a level at the share: the user's own, or a group's of which the user is a
-- member.
abbrev pub GrantsUser : String → String → PermissionRow → Type 0
GrantsUser share user p = (p.share_id ≡ share) × (p.subject ≡ user)

abbrev pub GrantsGroup : List MemberRow → String → String → PermissionRow → Type 0
GrantsGroup members share user p =
    (p.share_id ≡ share) × Any (λ m. (m.user_id ≡ user) × (m.group_id ≡ p.subject)) members

-- The level comes from somewhere: nobody's, the guests', the user's row or a group's.
abbrev pub IsGranted : ShareTables → String → String → String → AccessLevel → Type 0
IsGranted db share guest user level =
    (level ≡ none_level)
    ⊎ (level ≡ norm_level guest)
    ⊎ Any (λ p. GrantsUser share user p × (norm_level p.level ≡ level)) db.permissions
    ⊎ Any (λ p. GrantsGroup db.members share user p × (norm_level p.level ≡ level))
        db.group_permissions

pub max_level_lem :
    (a b : AccessLevel)
    → ((max_level a b ≡ a) ⊎ (max_level a b ≡ b))
      × (rank a ≤ rank (max_level a b))
      × (rank b ≤ rank (max_level a b))
max_level_lem a b = ground arith

pub raise_level_lem :
    (start : AccessLevel) (rows : List PermissionRow)
    → ((raise_level start rows ≡ start)
        ⊎ Any (λ r. norm_level r.level ≡ raise_level start rows) rows)
      × (rank start ≤ rank (raise_level start rows))
      × All (λ r. rank (norm_level r.level) ≤ rank (raise_level start rows)) rows
unfolding raise_level
raise_level_lem start [] = (inl refl, omega arith, tt)
raise_level_lem start (r ∷ rows) =
    let (source, above, most) = raise_level_lem (max_level start (norm_level r.level)) rows in
    let (side, left, right) = max_level_lem start (norm_level r.level) in
    (choose source side, omega arith, (omega arith, most))
  where
    choose :
        (raise_level (max_level start (norm_level r.level)) rows
            ≡ max_level start (norm_level r.level))
          ⊎ Any (λ x. norm_level x.level ≡ raise_level start (r ∷ rows)) rows
        → (max_level start (norm_level r.level) ≡ start)
          ⊎ (max_level start (norm_level r.level) ≡ norm_level r.level)
        → (raise_level start (r ∷ rows) ≡ start)
          ⊎ Any (λ x. norm_level x.level ≡ raise_level start (r ∷ rows)) (r ∷ rows)
    choose (inl e) (inl m) = inl (e ∙ m)
    choose (inl e) (inr m) = inr (inl (sym (e ∙ m)))
    choose (inr later) m = inr (inr later)

-- The groups' rows that the query selects: exactly those of groups that the user is in.
pub member_of :
    (members : List MemberRow) (user group : String)
    → any (λ g. group == g) (group_ids_for_user members user) ≡ true
    → Any (λ m. (m.user_id ≡ user) × (m.group_id ≡ group)) members
unfolding group_ids_for_user
member_of [] user group h = cc
member_of (m ∷ members) user group h = elim (Bool-cases (m.user_id == user)) [
  | inl mine ↦ elim (Bool-cases (group == m.group_id)) [
    | inl hit ↦ inl ((eq_iff m.user_id user).0 mine, sym ((eq_iff group m.group_id).0 hit))
    | inr miss ↦ inr (member_of members user group (ground arith))
  ]
  | inr other ↦ inr (member_of members user group (ground arith))
]

pub member_known :
    (members : List MemberRow) (user group : String)
    → Any (λ m. (m.user_id ≡ user) × (m.group_id ≡ group)) members
    → any (λ g. group == g) (group_ids_for_user members user) ≡ true
unfolding group_ids_for_user
member_known [] user group h = absurd h
member_known (m ∷ members) user group (inl here) =
    rw ((eq_iff m.user_id user).1 here.0, (eq_iff group m.group_id).1 (sym here.1))
member_known (m ∷ members) user group (inr later) =
    ground (arith, member_known members user group later)
