-- ===== src/Quotas/Unique.antt =====
-- No two shares are tracked under one number.
use mathlib.Core.Path.{subst}
use opennas.Base.{
  count, ℕ, zero, suc, ◌≤◌, ◌<◌, String, ◌≡◌, refl, sym, ◌⊎◌, inl, inr, Bool, false, none, some,
  List, [], ◌∷◌, arith, Bool-cases, Option-cases, ◌==◌, nat_eq, string_eq, list_eq, find, All,
}
use opennas.Shares.{ShareRow}
use opennas.Quotas.{
  max_project, or_else, next_project, set_project, allocate, project_of, ensure_quota_project_id,
}

abbrev pub has_project : ℕ → ShareRow → Bool
has_project n r = elim r.quota_project_id [ none ↦ false | some m ↦ m == n ]

abbrev pub has_id : String → ShareRow → Bool
has_id id r = r.id == id

max_project_bound :
    (n : ℕ) (r : ShareRow) (table : List ShareRow)
    → or_else 0 (max_project (r ∷ table)) < n
    → (or_else 0 r.quota_project_id < n) × (or_else 0 (max_project table) < n)
unfolding max_project
max_project_bound n r table h = elim (Option-cases r.quota_project_id) [
  | inl null ↦ elim (Option-cases (max_project table)) [
    | inl no_later ↦ let low = rw (null, no_later) at h in rw (null, no_later) (low, low)
    | inr (m, later) ↦ let low = rw (null, later) at h in rw (null, later) (omega arith, low)
  ]
  | inr (k, mine) ↦ elim (Option-cases (max_project table)) [
    | inl no_later ↦ let low = rw (mine, no_later) at h in rw (mine, no_later) (low, omega arith)
    | inr (m, later) ↦
        let low = rw (mine, later) at h in rw (mine, later) (omega arith, omega arith)
  ]
]

-- A number above all that are in use is not in use.
unused_above :
    (n : ℕ) (table : List ShareRow)
    → or_else 0 (max_project table) < n
    → All (λ r. has_project n r ≡ false) table
unused_above n [] h = tt
unused_above n (r ∷ table) h =
    let (mine, later) = max_project_bound n r table h in
    (
      elim (Option-cases r.quota_project_id) [
        | inl null ↦ rw null
        | inr (k, e) ↦ let low = rw e at mine in rw e (ground arith)
      ],
      unused_above n table later,
    )

next_project_unused :
    (table : List ShareRow) → All (λ r. has_project (next_project table) r ≡ false) table
unfolding next_project
next_project_unused table =
    unused_above (next_project table) table (elim (Option-cases (max_project table)) [
      | inl empty ↦ rw empty (omega arith)
      | inr (m, full) ↦ rw full (omega arith)
    ])

count_other :
    (id : String) (n m : ℕ) (table : List ShareRow)
    → (n == m) ≡ false
    → count (has_project m) (set_project id n table) ≤ count (has_project m) table
unfolding set_project
count_other id n m [] h = omega arith
count_other id n m (r ∷ table) h = elim (Bool-cases (r.id == id)) [
  | inl here ↦ let rest = count_other id n m table h in ground arith
  | inr miss ↦ let rest = count_other id n m table h in ground arith
]

count_own :
    (id : String) (n : ℕ) (table : List ShareRow)
    → All (λ r. has_project n r ≡ false) table
    → count (has_project n) (set_project id n table) ≤ count (has_id id) table
unfolding set_project
count_own id n [] h = omega arith
count_own id n (r ∷ table) h = elim (Bool-cases (r.id == id)) [
  | inl here ↦ let rest = count_own id n table h.1 in ground arith
  | inr miss ↦ let rest = count_own id n table h.1 in let own = h.0 in ground arith
]

pub set_project_found :
    (id : String) (n : ℕ) (table : List ShareRow) {row : ShareRow}
    → find (has_id id) table ≡ some row
    → project_of (find (has_id id) (set_project id n table)) ≡ some n
unfolding set_project
set_project_found id n [] e = cc
set_project_found id n (r ∷ table) e = elim (Bool-cases (r.id == id)) [
  | inl here ↦ rw (here, here)
  | inr miss ↦ rw (miss, miss) (set_project_found id n table (rw miss at e))
]

-- A table in which no id and no quota number is used twice.
pub record IsTracked (table : List ShareRow) : Type 0 where
  pub one_row : (id : String) → count (has_id id) table ≤ 1
  pub one_share : (n : ℕ) → (0 < n) → count (has_project n) table ≤ 1

set_project_ids :
    (id : String) (n : ℕ) (other : String) (table : List ShareRow)
    → count (has_id other) (set_project id n table) ≡ count (has_id other) table
unfolding set_project
set_project_ids id n other [] = refl
set_project_ids id n other (r ∷ table) = elim (Bool-cases (r.id == id)) [
  | inl here ↦ let rest = set_project_ids id n other table in ground arith
  | inr miss ↦ let rest = set_project_ids id n other table in ground arith
]

pub allocate-IsTracked :
    (table : List ShareRow) (id : String) → IsTracked table → IsTracked (allocate id table).0
allocate-IsTracked table id h = record {
  one_row = λ other.
      let same = set_project_ids id (next_project table) other table in
      let most = h.one_row other in omega arith;
  one_share = λ n positive. elim (Bool-cases (next_project table == n)) [
    | inl own ↦
        let same : next_project table ≡ n = ground arith in
        let unused =
          subst (λ k. All (λ r. has_project k r ≡ false) table) same (next_project_unused table) in
        let less = count_own id n table unused in
        let most = h.one_row id in
        subst (λ k. count (has_project n) (set_project id k table) ≤ 1) (sym same) (omega arith)
    | inr other ↦
        let less = count_other id (next_project table) n table other in
        let most = h.one_share n positive in omega arith
  ];
}

ensured :
    (table : List ShareRow) (id : String) (n : ℕ)
    → project_of (find (has_id id) table) ≡ some n
    → 0 < n
    → ensure_quota_project_id table id ≡ (table, n)
unfolding ensure_quota_project_id
ensured table id n e positive =
    let truthy : (n == 0) ≡ false = ground arith in rw (e, truthy, ensure_quota_project_id)

fresh_positive : (table : List ShareRow) → 0 < next_project table
unfolding next_project
fresh_positive table = omega arith

-- A share that has no quota number, or the number 0, gets an unused one.
pub allocates :
    (table : List ShareRow) (id : String)
    → (project_of (find (has_id id) table) ≡ none) ⊎ (project_of (find (has_id id) table) ≡ some 0)
    → ensure_quota_project_id table id ≡ allocate id table
unfolding ensure_quota_project_id
allocates table id (inl e) = rw (e, ensure_quota_project_id)
allocates table id (inr e) = rw (e, ensure_quota_project_id)

abbrev Ensured : List ShareRow → String → List ShareRow × ℕ → Type 0
Ensured table id (after, n) =
    IsTracked after
    × (0 < n)
    × (project_of (find (has_id id) after) ≡ some n)
    × (ensure_quota_project_id after id ≡ (after, n))

allocate-Ensured :
    (table : List ShareRow) (id : String) {row : ShareRow}
    → IsTracked table
    → find (has_id id) table ≡ some row
    → Ensured table id (allocate id table)
allocate-Ensured table id h found =
    let given = set_project_found id (next_project table) table found in
    (
      allocate-IsTracked table id h,
      fresh_positive table,
      given,
      ensured (allocate id table).0 id (next_project table) given (fresh_positive table),
    )

-- The quota number of a share is positive, is the one on file from then on, so that asking again gives
-- the same and changes nothing, and is the number of no other share. The ids of the shares differ, and so
-- do the numbers on file.
pub ensure_quota_project_id-IsTracked :
    (table : List ShareRow) (id : String) (row : ShareRow)
    → IsTracked table
    → find (has_id id) table ≡ some row
    → (after : List ShareRow) × (n : ℕ) × (ensure_quota_project_id table id ≡ (after, n))
      × IsTracked after
      × (0 < n)
      × (project_of (find (has_id id) after) ≡ some n)
      × (ensure_quota_project_id after id ≡ (after, n))
ensure_quota_project_id-IsTracked table id row h found =
    let (kept, positive, given, again) = allocate-Ensured table id h found in
    let (after, n) = allocate id table in
    elim (Option-cases (project_of (find (has_id id) table))) [
      | inl null ↦ (after, n, allocates table id (inl null), kept, positive, given, again)
      | inr (zero, e) ↦ (after, n, allocates table id (inr e), kept, positive, given, again)
      | inr (suc k, e) ↦
          let same = ensured table id (suc k) e (omega arith) in
          (table, suc k, same, h, omega arith, e, same)
    ]
