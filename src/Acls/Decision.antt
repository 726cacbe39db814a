-- ===== src/Acls/Decision.antt =====
-- How folder rules decide: the deepest folder that has a rule for the user or for one of the user's
-- groups decides, a rule for the user before those for groups, and among these the most restrictive.
use mathlib.Core.Path.{subst}
use mathlib.Core.List.{reverse_aux}
use text.Mathlib.TextEquality.{eq_iff}
use opennas.Base.{
  ◌≤◌, String, ◌≡◌, refl, sym, ap, ◌∙◌, ◌⊎◌, inl, inr, Bool, true, false, none, some, List, [], ◌∷◌,
  arith, Bool-cases, Option-cases, ◌==◌, nat_eq, string_eq, list_eq, list_beq_iff, keep, find, any,
  All, Text, is_empty, Any, All-keep_iff, All-map, Any-keep, Any-map, find-Any, find-none,
}
use opennas.Shares.{AccessLevel, rank, norm_level}
use opennas.Acls.{
  AclRow, Subject, is_user_rule, is_group_rule, min_level, most_restrictive, group_level,
  decide_step, walk, in_chain,
}

-- A rule of the folder for the user; for one of the user's groups.
abbrev pub ForUser : Subject → String → Text → AclRow → Type 0
ForUser who share path r = (r.share_id ≡ share) × (r.path ≡ path) × (is_user_rule who r ≡ true)

abbrev pub ForGroup : Subject → String → Text → AclRow → Type 0
ForGroup who share path r = (r.share_id ≡ share) × (r.path ≡ path) × (is_group_rule who r ≡ true)

-- The folder has no rule for the user; none for the user's groups.
abbrev pub NoUserRule : Subject → List AclRow → String → Text → Type 0
NoUserRule who table share path = All (λ r. ¬ ForUser who share path r) table

abbrev pub NoGroupRule : Subject → List AclRow → String → Text → Type 0
NoGroupRule who table share path = All (λ r. ¬ ForGroup who share path r) table

-- The level that the rules of one folder give.
pub data Rules (who : Subject) (table : List AclRow) (share : String) (path : Text)
    (level : AccessLevel) : Type 0 where
  user :
      Any (λ r. ForUser who share path r × (norm_level r.level ≡ level)) table
      → Rules who table share path level
  groups :
      NoUserRule who table share path
      → Any (λ r. ForGroup who share path r × (norm_level r.level ≡ level)) table
      → All (λ r. ForGroup who share path r → rank level ≤ rank (norm_level r.level)) table
      → Rules who table share path level

-- The level that the rules of a chain of folders, the deepest first, leave of a share's own.
pub data Decides (who : Subject) (table : List AclRow) (share : String) (own : AccessLevel)
    : List Text → AccessLevel → Type 0 where
  unruled : Decides who table share own [] own
  here :
      {path : Text} {above : List Text} {level : AccessLevel}
      → Rules who table share path level
      → Decides who table share own (path ∷ above) level
  silent :
      {path : Text} {above : List Text} {level : AccessLevel}
      → NoUserRule who table share path
      → NoGroupRule who table share path
      → Decides who table share own above level
      → Decides who table share own (path ∷ above) level

min_level_lem :
    (a b : AccessLevel)
    → ((min_level a b ≡ a) ⊎ (min_level a b ≡ b))
      × (rank (min_level a b) ≤ rank a)
      × (rank (min_level a b) ≤ rank b)
min_level_lem a b = ground arith

-- The reduction takes the level of some rule, and no rule has a lower one.
most_restrictive_lem :
    (start : AccessLevel) (rules : List AclRow)
    → ((most_restrictive start rules ≡ start)
        ⊎ Any (λ r. norm_level r.level ≡ most_restrictive start rules) rules)
      × (rank (most_restrictive start rules) ≤ rank start)
      × All (λ r. rank (most_restrictive start rules) ≤ rank (norm_level r.level)) rules
unfolding most_restrictive
most_restrictive_lem start [] = (inl refl, omega arith, tt)
most_restrictive_lem start (r ∷ rules) =
    let (source, below, least) =
      most_restrictive_lem (min_level start (norm_level r.level)) rules in
    let (side, left, right) = min_level_lem start (norm_level r.level) in
    (choose source side, omega arith, (omega arith, least))
  where
    choose :
        (most_restrictive (min_level start (norm_level r.level)) rules
            ≡ min_level start (norm_level r.level))
          ⊎ Any (λ x. norm_level x.level ≡ most_restrictive start (r ∷ rules)) rules
        → (min_level start (norm_level r.level) ≡ start)
          ⊎ (min_level start (norm_level r.level) ≡ norm_level r.level)
        → (most_restrictive start (r ∷ rules) ≡ start)
          ⊎ Any (λ x. norm_level x.level ≡ most_restrictive start (r ∷ rules)) (r ∷ rules)
    choose (inl e) (inl m) = inl (e ∙ m)
    choose (inl e) (inr m) = inr (inl (sym (e ∙ m)))
    choose (inr later) m = inr (inr later)

pick :
    (level : AccessLevel) (rules : List AclRow)
    → is_empty rules ≡ false
    → Any (λ r. norm_level r.level ≡ group_level level rules) rules
      × All (λ r. rank (group_level level rules) ≤ rank (norm_level r.level)) rules
pick level [] h = cc
pick level (r ∷ rules) h =
    let (source, below, least) = most_restrictive_lem (norm_level r.level) rules in
    (elim source [ inl e ↦ inl (sym e) | inr later ↦ inr later ], (below, least))

group_level_empty :
    (level : AccessLevel) (rules : List AclRow)
    → is_empty rules ≡ true
    → group_level level rules ≡ level
group_level_empty level [] h = refl
group_level_empty level (r ∷ rules) h = cc

keep_none {ℓ} :
    {A : Type ℓ} (p : A → Bool) (xs : List A)
    → is_empty (keep p xs) ≡ true
    → All (λ x. p x ≡ false) xs
keep_none p [] e = tt
keep_none p (x ∷ xs) e = elim (Bool-cases (p x)) [
  | inl hit ↦ ground arith
  | inr miss ↦ (miss, keep_none p xs (rw miss at e))
]

module _ (who : Subject) (table : List AclRow) (share : String) (chain : List Text) where
  -- The rows that the query selects, those of one folder, and its group rules.
  abbrev rows_at : Text → List AclRow
  rows_at step = keep (λ r. r.path == step) (keep (in_chain share chain) table)

  module _ (step : Text) (known : any (λ p. step == p) chain ≡ true) where
    selected :
        (r : AclRow)
        → r.share_id ≡ share
        → r.path ≡ step
        → (in_chain share chain r ≡ true) × ((r.path == step) ≡ true)
    selected r e f =
        let found = subst (λ x. any (λ p. x == p) chain ≡ true) (sym f) known in
        (rw ((eq_iff r.share_id share).1 e, found), (list_beq_iff r.path step).1 f)

    rows_at-All :
        (P : AclRow → Type 0)
        → All P (rows_at step)
        → All (λ r. r.share_id ≡ share → r.path ≡ step → P r) table
    rows_at-All P h =
        All-map _ _ (λ r f e p. let (a, b) = selected r e p in f a b) table
          (All-keep_iff _ (in_chain share chain) table
            (All-keep_iff P (λ r. r.path == step) (keep (in_chain share chain) table) h))

    rows_at-Any :
        (P : AclRow → Type 0)
        → Any P (rows_at step)
        → Any (λ r. (r.share_id ≡ share) × (r.path ≡ step) × P r) table
    rows_at-Any P h =
        Any-keep {P = λ r. (r.path ≡ step) × P r} (in_chain share chain)
          (λ r c p. ((eq_iff r.share_id share).0 (ground arith), p.0, p.1)) table
          (Any-keep {P = P} (λ r. r.path == step) (λ r e p. ((list_beq_iff r.path step).0 e, p))
            (keep (in_chain share chain) table) h)

    no_rule :
        (p : AclRow → Bool)
        → All (λ r. p r ≡ false) (rows_at step)
        → All (λ r. ¬ ((r.share_id ≡ share) × (r.path ≡ step) × (p r ≡ true))) table
    no_rule p h =
        All-map _ _ (λ r f t. let no = f t.0 t.1 in let yes' = t.2 in cc) table
          (rows_at-All (λ r. p r ≡ false) h)

    decide_user :
        (level : AccessLevel) {rule : AclRow}
        → find (is_user_rule who) (rows_at step) ≡ some rule
        → Rules who table share step (decide_step who (rows_at step) level)
    unfolding decide_step
    decide_user level {rule} found =
        rw (found, decide_step)
          (user (
            Any-map (λ r t. ((t.0, t.1, t.2.1), ap (λ x. norm_level x.level) t.2.0)) table
              (rows_at-Any (λ r. (r ≡ rule) × (is_user_rule who r ≡ true))
                (find-Any (is_user_rule who) (rows_at step) found))))

    decide_groups :
        (level : AccessLevel)
        → find (is_user_rule who) (rows_at step) ≡ none
        → is_empty (keep (is_group_rule who) (rows_at step)) ≡ false
        → Rules who table share step (decide_step who (rows_at step) level)
    unfolding decide_step
    decide_groups level absent full =
        let (source, least) = pick level (keep (is_group_rule who) (rows_at step)) full in
        let least_level = group_level level (keep (is_group_rule who) (rows_at step)) in
        rw (absent, decide_step)
          (groups (no_rule (is_user_rule who) (find-none (is_user_rule who) (rows_at step) absent))
            (Any-map (λ r t. ((t.0, t.1, t.2.0), t.2.1)) table
              (rows_at-Any (λ r. (is_group_rule who r ≡ true) × (norm_level r.level ≡ least_level))
                (Any-keep (is_group_rule who) (λ r hit e. (hit, e)) (rows_at step) source)))
            (All-map _ _ (λ r f t. f t.0 t.1 t.2) table
              (rows_at-All
                (λ r. is_group_rule who r ≡ true → rank least_level ≤ rank (norm_level r.level))
                (All-keep_iff _ (is_group_rule who) (rows_at step) least))))

    -- The level that one round leaves: the folder's, or the one before where the folder has no rule.
    decide_step-Rules :
        (level : AccessLevel)
        → Rules who table share step (decide_step who (rows_at step) level)
          ⊎ (NoUserRule who table share step
              × NoGroupRule who table share step
              × (decide_step who (rows_at step) level ≡ level))
    decide_step-Rules level = elim (Option-cases (find (is_user_rule who) (rows_at step))) [
      | inr (rule, found) ↦ inl (decide_user level found)
      | inl absent ↦ elim (Bool-cases (is_empty (keep (is_group_rule who) (rows_at step)))) [
        | inl empty ↦ inr (
          no_rule (is_user_rule who) (find-none (is_user_rule who) (rows_at step) absent),
          no_rule (is_group_rule who) (keep_none (is_group_rule who) (rows_at step) empty),
          unfold decide_step in rw (absent, decide_step) (group_level_empty level _ empty),
        )
        | inr full ↦ inl (decide_groups level absent full)
      ]
    ]

  pub walk-Decides :
      (own : AccessLevel) (steps above : List Text) (level : AccessLevel)
      → All (λ step. any (λ p. step == p) chain ≡ true) steps
      → Decides who table share own above level
      → Decides who table share own
          (reverse_aux steps above)
          (walk who (keep (in_chain share chain) table) level steps)
  unfolding walk
  walk-Decides own [] above level known d = d
  walk-Decides own (step ∷ steps) above level known d =
      walk-Decides own steps (step ∷ above) (decide_step who (rows_at step) level) known.1
        (elim (decide_step-Rules step known.0 level) [
          | inl rules ↦ here rules
          | inr (no_user, no_group, same) ↦ silent no_user no_group (rw same d)
        ])
