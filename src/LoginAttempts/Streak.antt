-- ===== src/LoginAttempts/Streak.antt =====
-- Failed sign-ins in a row.
use mathlib.Core.Path.{subst}
use opennas.Base.{
  ℕ, ◌+◌, ◌-◌, ◌*◌, ◌^◌, ◌≤◌, min, ◌≡◌, ap, ◌∙◌, inl, inr, Option, none, some, List, [], ◌∷◌, arith,
  leb, if◌then◌else◌, Bool-cases, nat_eq, string_eq, list_eq, length, Text,
}
use opennas.LoginAttempts.{
  threshold, window_ms, AttemptRow, next_failures, lock_after, answer_of, key, get_row,
  record_failure,
}
use opennas.LoginAttempts.Lockout.{row_of, Failed, own_row}

-- The wait in seconds after so many failures in a row.
abbrev pub penalty : ℕ → ℕ
penalty n = if leb threshold n then min (60 * 2 ^ (n - threshold)) 900 else 0

-- Each failure comes at most 15 minutes after the one before.
abbrev pub IsSteady : ℕ → List ℕ → Type 0
IsSteady last [] = Unit
IsSteady last (t ∷ times) = (t - last ≤ window_ms) × IsSteady t times

answer-penalty : (now failures : ℕ) → answer_of now (lock_after now failures) ≡ penalty failures
unfolding lock_after
answer-penalty now failures = elim (Bool-cases (leb threshold failures)) [
  | inl many ↦ rw many (omega arith)
  | inr few ↦ rw few
]

pub next_in_window :
    (now last n : ℕ) (locked : Option ℕ) (row : Option AttemptRow)
    → Failed last n locked row
    → now - last ≤ window_ms
    → next_failures now row ≡ n + 1
unfolding next_failures
next_in_window now last n locked none h near = absurd h
next_in_window now last n locked (some row) h near = rw (h.1) (let same = h.0 in ground arith)

module _ (lower : Text → Text) where
  -- Failures of one account, the first at the first of the times; the answer is the last one's.
  abbrev pub record_failures : ℕ → List ℕ → List AttemptRow → Text → List AttemptRow × ℕ
  record_failures now [] table username = record_failure lower now table username
  record_failures now (t ∷ times) table username =
      record_failures t times ((record_failure lower now table username).0) username

  module _ (key_twice : (t : Text) → key lower (key lower t) ≡ key lower t) where
    pub record_failure_row :
        (now : ℕ) (table : List AttemptRow) (username : Text) (n : ℕ)
        → next_failures now (row_of table (key lower username)) ≡ n
        → Failed now n
            (lock_after now n)
            (row_of (record_failure lower now table username).0 (key lower username))
          × ((record_failure lower now table username).1 ≡ penalty n)
    unfolding record_failure get_row
    record_failure_row now table username n h =
        let name = key lower username in
        let again : next_failures now (get_row lower table name) ≡ n =
          ap (λ k. next_failures now (row_of table k)) (key_twice username) ∙ h in
        subst
          (λ m.
            Failed now m (lock_after now m)
              (row_of (record_failure lower now table username).0 name)
            × ((record_failure lower now table username).1 ≡ penalty m))
          again
          (
            own_row now name _ _ table,
            answer-penalty now (next_failures now (get_row lower table name)),
          )

    streak :
        (now : ℕ) (times : List ℕ) (table : List AttemptRow) (username : Text) (n : ℕ)
        → next_failures now (row_of table (key lower username)) ≡ n
        → IsSteady now times
        → (record_failures now times table username).1 ≡ penalty (n + length times)
    streak now [] table username n h steady =
        subst (λ m. (record_failure lower now table username).1 ≡ penalty m) (omega arith)
          (record_failure_row now table username n h).1
    streak now (t ∷ times) table username n h steady =
        let after = (record_failure lower now table username).0 in
        let (failed, _) = record_failure_row now table username n h in
        let next =
          next_in_window t now n (lock_after now n) (row_of after (key lower username)) failed
            steady.0 in
        subst (λ m. (record_failures t times after username).1 ≡ penalty m) (omega arith)
          (streak t times after username (n + 1) next steady.1)

    -- The failures of an account that has none on file, each at most 15 minutes after the one before: the last
    -- one locks the account for no time if they are fewer than 8, and else for 60 seconds, doubled for each
    -- failure after the eighth, up to 900. Normalising a name twice is normalising it once.
    pub record_failures-penalty :
        (now : ℕ) (times : List ℕ) (table : List AttemptRow) (username : Text)
        → get_row lower table username ≡ none
        → IsSteady now times
        → (record_failures now times table username).1 ≡ penalty (1 + length times)
    unfolding get_row next_failures
    record_failures-penalty now times table username h steady =
        streak now times table username 1 (rw h) steady
