-- ===== src/AppAccess/Allowed.antt =====
-- What a change of the list of a user's apps allows.
use mathlib.Core.Path.{subst}
use text.Mathlib.TextEquality.{eq_iff}
use opennas.Base.{
  some, String, ◌≡◌, refl, sym, ap, ◌∙◌, inl, inr, Bool, true, false, ◌||◌, not, List, [], ◌∷◌,
  ◌++◌, if◌then◌else◌, Bool-cases, ◌==◌, nat_eq, string_eq, list_eq, ==_self, keep, find, any,
  clash,
}
use opennas.AppAccess.{
  AccountRow, AccessRow, AccessTables, AppUser, AppAccessInput, is_always_available, is_account,
  restricted_row, is_apps_restricted, grants, is_listed, can_use_app, restrict, distinct,
  insert_app, insert_apps, apply_access, set_app_access,
}

restricted-restrict :
    (user : String) (restricted : Bool) (users : List AccountRow)
    → any (is_account user) users ≡ true
    → restricted_row (find (is_account user) (restrict user restricted users)) ≡ restricted
unfolding restrict
restricted-restrict user restricted [] h = absurd cc
restricted-restrict user restricted (r ∷ users) h = elim (Bool-cases (is_account user r)) [
  | inl hit ↦ rw (hit, hit)
  | inr miss ↦ rw (miss, miss) (restricted-restrict user restricted users (rw miss at h))
]

restricted-restrict_other :
    (user other : String) (restricted : Bool) (users : List AccountRow)
    → (user == other) ≡ false
    → restricted_row (find (is_account other) (restrict user restricted users))
      ≡ restricted_row (find (is_account other) users)
unfolding restrict
restricted-restrict_other user other restricted [] h = refl
restricted-restrict_other user other restricted (r ∷ users) h =
    elim (Bool-cases (is_account other r)) [
      | inl mine ↦
          let foreign : is_account user r ≡ false =
            subst (λ x. (x == user) ≡ false) (sym ((eq_iff r.id other).0 mine))
              (string_differs user other h) in
          rw (foreign, mine)
      | inr miss ↦ elim (Bool-cases (is_account user r)) [
        | inl hit ↦ rw (hit, miss) (restricted-restrict_other user other restricted users h)
        | inr away ↦ rw (away, miss) (restricted-restrict_other user other restricted users h)
      ]
    ]
  where
    string_differs : (a b : String) → (a == b) ≡ false → (b == a) ≡ false
    string_differs a b h = elim (Bool-cases (b == a)) [
      | inl same ↦ let turned = (eq_iff a b).1 (sym ((eq_iff b a).0 same)) in absurd cc
      | inr other ↦ other
    ]

any-distinct :
    (app : String) (xs : List String) → any (λ x. x == app) (distinct xs) ≡ any (λ x. x == app) xs
any-distinct app [] = refl
any-distinct app (x ∷ xs) = elim (Bool-cases (x == app)) [
  | inl same ↦ rw same
  | inr other ↦ rw other (any-without app x (distinct xs) other ∙ any-distinct app xs)
]
  where
    any-without :
        (app x : String) (xs : List String)
        → (x == app) ≡ false
        → any (λ y. y == app) (keep (λ y. not (y == x)) xs) ≡ any (λ y. y == app) xs
    any-without app x [] h = refl
    any-without app x (y ∷ xs) h = elim (Bool-cases (y == x)) [
      | inl same ↦
          let foreign : (y == app) ≡ false =
            subst (λ z. (z == app) ≡ false) (sym ((eq_iff y x).0 same)) h in
          rw (same, foreign) (any-without app x xs h)
      | inr other ↦ rw other (ap (λ b. (y == app) || b) (any-without app x xs h))
    ]

any-snoc :
    (p : AccessRow → Bool) (table : List AccessRow) (row : AccessRow)
    → any p (table ++ row ∷ []) ≡ (p row || any p table)
any-snoc p [] row = refl
any-snoc p (r ∷ table) row =
    ap (λ b. p r || b) (any-snoc p table row) ∙ swap (p r) (p row) (any p table)
  where
    swap : (x y z : Bool) → (x || (y || z)) ≡ (y || (x || z))
    swap true true z = refl
    swap true false z = refl
    swap false y z = refl

listed-insert_app :
    (user app x : String) (table : List AccessRow)
    → is_always_available app ≡ false
    → is_listed user app (insert_app user x table) ≡ ((x == app) || is_listed user app table)
listed-insert_app user app x table h = elim (Bool-cases (is_always_available x)) [
  | inl always ↦
      let foreign : (x == app) ≡ false = elim (Bool-cases (x == app)) [
        | inl same ↦
            absurd
              (clash h (subst (λ z. is_always_available z ≡ true) ((eq_iff x app).0 same) always))
        | inr other ↦ other
      ] in
      rw (always, insert_app) (rw foreign)
  | inr given ↦ elim (Bool-cases (is_listed user x table)) [
    | inl there ↦ elim (Bool-cases (x == app)) [
      | inl same ↦
          let listed = subst (λ z. is_listed user z table ≡ true) ((eq_iff x app).0 same) there in
          rw (given, there, insert_app) (listed ∙ sym (rw same))
      | inr other ↦ rw (given, there, insert_app) (rw other)
    ]
    | inr new ↦
        let me = ==_self user in
        rw (given, new, insert_app) (any-snoc (grants user app) table _ ∙ rw me)
  ]
]

listed-insert_app_other :
    (user other app x : String) (table : List AccessRow)
    → (user == other) ≡ false
    → is_listed other app (insert_app user x table) ≡ is_listed other app table
listed-insert_app_other user other app x table h = elim (Bool-cases (is_always_available x)) [
  | inl always ↦ rw (always, insert_app)
  | inr given ↦ elim (Bool-cases (is_listed user x table)) [
    | inl there ↦ rw (given, there, insert_app)
    | inr new ↦ rw (given, new, insert_app) (any-snoc (grants other app) table _ ∙ rw h)
  ]
]

listed-insert_apps :
    (user app : String) (apps : List String) (table : List AccessRow)
    → is_always_available app ≡ false
    → is_listed user app (insert_apps user apps table)
      ≡ (any (λ x. x == app) apps || is_listed user app table)
unfolding insert_apps
listed-insert_apps user app [] table h = refl
listed-insert_apps user app (x ∷ apps) table h =
    listed-insert_apps user app apps (insert_app user x table) h
    ∙ ap (λ b. any (λ y. y == app) apps || b) (listed-insert_app user app x table h)
    ∙ shuffle (any (λ y. y == app) apps) (x == app) (is_listed user app table)
  where
    shuffle : (x y z : Bool) → (x || (y || z)) ≡ ((y || x) || z)
    shuffle true true z = refl
    shuffle true false z = refl
    shuffle false true z = refl
    shuffle false false z = refl

listed-insert_apps_other :
    (user other app : String) (apps : List String) (table : List AccessRow)
    → (user == other) ≡ false
    → is_listed other app (insert_apps user apps table) ≡ is_listed other app table
unfolding insert_apps
listed-insert_apps_other user other app [] table h = refl
listed-insert_apps_other user other app (x ∷ apps) table h =
    listed-insert_apps_other user other app apps (insert_app user x table) h
    ∙ listed-insert_app_other user other app x table h

listed-removed :
    (user app : String) (table : List AccessRow)
    → is_listed user app (keep (λ r. not (r.user_id == user)) table) ≡ false
listed-removed user app [] = refl
listed-removed user app (r ∷ table) = elim (Bool-cases (r.user_id == user)) [
  | inl own ↦ rw own (listed-removed user app table)
  | inr other ↦ rw (other, other) (listed-removed user app table)
]

listed-removed_other :
    (user other app : String) (table : List AccessRow)
    → (user == other) ≡ false
    → is_listed other app (keep (λ r. not (r.user_id == user)) table) ≡ is_listed other app table
listed-removed_other user other app [] h = refl
listed-removed_other user other app (r ∷ table) h = elim (Bool-cases (r.user_id == user)) [
  | inl own ↦
      let foreign : (r.user_id == other) ≡ false =
        subst (λ z. (z == other) ≡ false) (sym ((eq_iff r.user_id user).0 own)) h in
      rw (own, foreign) (listed-removed_other user other app table h)
  | inr away ↦
      rw away (ap (λ b. grants other app r || b) (listed-removed_other user other app table h))
]

or_false : (b : Bool) → (b || false) ≡ b
or_false true = refl
or_false false = refl

abbrev verdict : Bool → Bool → Bool → Bool → Bool
verdict admin always restricted listed =
    if admin then true else if always then true else if not restricted then true else listed

verdict_lem :
    (admin always restricted listed : Bool)
    → verdict admin always restricted listed ≡ (admin || (always || (not restricted || listed)))
verdict_lem true always restricted listed = refl
verdict_lem false true restricted listed = refl
verdict_lem false false true listed = refl
verdict_lem false false false listed = refl

-- Whether an app is listed has no weight for one that is always available.
verdict_given :
    (admin always restricted : Bool) {x y : Bool}
    → (always ≡ false → x ≡ y)
    → verdict admin always restricted x ≡ verdict admin always restricted y
verdict_given true always restricted h = refl
verdict_given false true restricted h = refl
verdict_given false false true h = h refl
verdict_given false false false h = refl

can_use_app-apply_access :
    (db : AccessTables) (user other : AppUser) (input : AppAccessInput) (app : String)
    → any (is_account user.id) db.users ≡ true
    → (user.id == other.id) ≡ false
    → let after = apply_access db user.id input in
      (can_use_app after user app ≡ (
        user.is_admin
        || (is_always_available app
            || (not input.restricted || any (λ x. x == app) input.app_ids))))
      × (can_use_app after other app ≡ can_use_app db other app)
unfolding can_use_app apply_access is_apps_restricted
can_use_app-apply_access db user other input app known differ =
    let w = is_always_available app in
    let listed = any (λ x. x == app) input.app_ids in
    (
      ap
            (λ r.
              verdict user.is_admin w r
                (is_listed user.id app (apply_access db user.id input).app_access))
            (restricted-restrict user.id input.restricted db.users known)
          ∙ verdict_given user.is_admin w input.restricted (λ given.
            listed-insert_apps user.id app (distinct input.app_ids) _ given
            ∙ ap (λ b. any (λ x. x == app) (distinct input.app_ids) || b)
                (listed-removed user.id app db.app_access)
            ∙ or_false _
            ∙ any-distinct app input.app_ids)
          ∙ verdict_lem user.is_admin w input.restricted listed,
      ap
            (λ r.
              verdict other.is_admin w r
                (is_listed other.id app (apply_access db user.id input).app_access))
            (restricted-restrict_other user.id other.id input.restricted db.users differ)
          ∙ ap (λ l. verdict other.is_admin w (is_apps_restricted db other.id) l)
              (listed-insert_apps_other user.id other.id app (distinct input.app_ids) _ differ
                ∙ listed-removed_other user.id other.id app db.app_access differ),
    )

-- The list of a user who exists can be set. Afterwards the user may use an app exactly if the user is an
-- administrator, the app is always available, the list is not in force, or the app is on it. What any other user may
-- use is as before.
pub can_use_app-set_app_access :
    (db : AccessTables) (user other : AppUser) (input : AppAccessInput) (app : String)
    → any (is_account user.id) db.users ≡ true
    → (user.id == other.id) ≡ false
    → (after : AccessTables) × (set_app_access db user.id input ≡ some after)
      × (can_use_app after user app ≡ (
          user.is_admin
          || (is_always_available app
              || (not input.restricted || any (λ x. x == app) input.app_ids))))
      × (can_use_app after other app ≡ can_use_app db other app)
unfolding set_app_access
can_use_app-set_app_access db user other input app known differ =
    let (own, others) = can_use_app-apply_access db user other input app known differ in
    (apply_access db user.id input, rw known refl, own, others)
