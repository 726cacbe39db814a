-- ===== src/LoginAttempts/Lockout.antt =====
-- One failed sign-in, and one success.
use mathlib.Core.Path.{subst}
use opennas.Base.{
  ℕ, ◌+◌, ◌-◌, ◌*◌, ◌^◌, ◌≤◌, min, ◌≡◌, refl, sym, ap, ◌∙◌, inl, inr, true, false, not, Option,
  none, some, List, [], ◌∷◌, arith, leb, Bool-cases, ◌==◌, nat_eq, string_eq, list_eq, ==_self,
  list_beq_iff, keep, find, Text,
}
use opennas.LoginAttempts.{
  threshold, base_lock_ms, max_lock_ms, AttemptRow, ceil_seconds, next_failures, lock_after,
  seconds_until, locked_of, answer_of, upsert_attempt, key, get_row, lockout_remaining_seconds,
  record_failure, record_success, clear_lockout,
}

-- What the table holds of a stored name.
abbrev pub row_of : List AttemptRow → Text → Option AttemptRow
row_of table name = find (λ r. r.username == name) table

same_name : {a b : Text} → (a == b) ≡ true → a ≡ b
same_name {a} {b} h = (list_beq_iff a b).0 h

other_row :
    (now : ℕ) (name : Text) (failures : ℕ) (locked : Option ℕ) (table : List AttemptRow)
    (other : Text)
    → (name == other) ≡ false
    → row_of (upsert_attempt now name failures locked table) other ≡ row_of table other
unfolding upsert_attempt
other_row now name failures locked [] other h = rw h
other_row now name failures locked (r ∷ table) other h = elim (Bool-cases (r.username == name)) [
  | inl here ↦
      let apart : (r.username == other) ≡ false =
        subst (λ t. (t == other) ≡ false) (sym (same_name here)) h in
      rw (here, apart)
  | inr miss ↦ rw (miss, other_row now name failures locked table other h)
]

-- What a failure leaves on file of its name.
abbrev pub Failed : ℕ → ℕ → Option ℕ → Option AttemptRow → Type 0
Failed now failures locked none = ⊥
Failed now failures locked (some row) =
    (row.failures ≡ failures) × (row.last_fail_at ≡ some now) × (row.locked_until ≡ locked)

pub own_row :
    (now : ℕ) (name : Text) (failures : ℕ) (locked : Option ℕ) (table : List AttemptRow)
    → Failed now failures locked (row_of (upsert_attempt now name failures locked table) name)
unfolding upsert_attempt
own_row now name failures locked [] = rw (==_self {A = Text} name) (refl, refl, refl)
own_row now name failures locked (r ∷ table) = elim (Bool-cases (r.username == name)) [
  | inl here ↦ rw (here, here) (refl, refl, refl)
  | inr miss ↦ rw (miss, miss) (own_row now name failures locked table)
]

capped_wait :
    (now lock : ℕ)
    → (seconds_until now (some (now + min lock max_lock_ms))
        ≡ ceil_seconds (now + min lock max_lock_ms - now))
      × (ceil_seconds (now + min lock max_lock_ms - now) ≤ 900)
      × (seconds_until (now + max_lock_ms) (some (now + min lock max_lock_ms)) ≡ 0)
capped_wait now lock = (ground arith, omega arith, ground arith)

lock_wait :
    (now failures : ℕ)
    → (seconds_until now (lock_after now failures) ≡ answer_of now (lock_after now failures))
      × (answer_of now (lock_after now failures) ≤ 900)
      × (seconds_until (now + max_lock_ms) (lock_after now failures) ≡ 0)
unfolding lock_after
lock_wait now failures = elim (Bool-cases (leb threshold failures)) [
  | inl many ↦ rw many (capped_wait now (base_lock_ms * 2 ^ (failures - threshold)))
  | inr few ↦ rw few (refl, omega arith, refl)
]

pub Failed-locked :
    (now failures : ℕ) (locked : Option ℕ) (row : Option AttemptRow)
    → Failed now failures locked row
    → locked_of row ≡ locked
Failed-locked now failures locked none h = absurd h
Failed-locked now failures locked (some row) h = h.2

module _ (lower : Text → Text) where
  -- A failed sign-in locks no account but its own, and that for as long as it answers, at most 15 minutes.
  pub record_failure_lockout :
      (now : ℕ) (table : List AttemptRow) (username other : Text)
      → (key lower username == key lower other) ≡ false
      → (lockout_remaining_seconds lower now (record_failure lower now table username).0 username
          ≡ (record_failure lower now table username).1)
        × ((record_failure lower now table username).1 ≤ 900)
        × (lockout_remaining_seconds lower
              (now + max_lock_ms)
              (record_failure lower now table username).0
              username
            ≡ 0)
        × (get_row lower (record_failure lower now table username).0 other
            ≡ get_row lower table other)
  unfolding record_failure lockout_remaining_seconds get_row
  record_failure_lockout now table username other h =
      let name = key lower username in
      let failures = next_failures now (get_row lower table name) in
      let locked = lock_after now failures in
      let same =
        Failed-locked now failures locked
          (row_of (upsert_attempt now name failures locked table) name)
          (own_row now name failures locked table) in
      let (wait, bound, over) = lock_wait now failures in
      let answer : answer_of now locked ≡ (record_failure lower now table username).1 = refl in
      (
        ap (seconds_until now) same ∙ wait ∙ answer,
        subst (λ n. n ≤ 900) answer bound,
        ap (seconds_until (now + max_lock_ms)) same ∙ over,
        other_row now name failures locked table (key lower other) h,
      )

keep_other :
    (name other : Text) (table : List AttemptRow)
    → (name == other) ≡ false
    → (row_of (keep (λ r. not (r.username == name)) table) name ≡ none)
      × (row_of (keep (λ r. not (r.username == name)) table) other ≡ row_of table other)
keep_other name other [] h = (refl, refl)
keep_other name other (r ∷ table) h =
    let (gone, kept) = keep_other name other table h in
    elim (Bool-cases (r.username == name)) [
      | inl here ↦
          let apart : (r.username == other) ≡ false =
            subst (λ t. (t == other) ≡ false) (sym (same_name here)) h in
          (rw here gone, rw (here, apart) kept)
      | inr miss ↦ (rw (miss, miss) gone, rw (miss, kept))
    ]

-- A successful sign-in, and an administrator, lift the lock of the account and forget its failures, and
-- leave every other account as it was.
pub clear_lockout_own :
    (lower : Text → Text) (now : ℕ) (table : List AttemptRow) (username other : Text)
    → (key lower username == key lower other) ≡ false
    → (lockout_remaining_seconds lower now (clear_lockout lower table username).0 username ≡ 0)
      × ((clear_lockout lower table username).0 ≡ record_success lower table username)
      × (get_row lower (record_success lower table username) username ≡ none)
      × (get_row lower (record_success lower table username) other ≡ get_row lower table other)
unfolding clear_lockout record_success get_row lockout_remaining_seconds
clear_lockout_own lower now table username other h =
    let (gone, kept) = keep_other (key lower username) (key lower other) table h in
    (ap (λ r. seconds_until now (locked_of r)) gone, refl, gone, kept)
