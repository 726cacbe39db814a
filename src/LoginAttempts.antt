-- ===== src/LoginAttempts.antt =====
-- apps/api/src/db/login-attempts.ts: failed sign-ins per account. Times are in milliseconds; the texts that
-- the table stores them as are exact to one. `toLowerCase` of the language's whole Unicode table is the
-- parameter `lower`.
pub mod Keys
pub mod Lockout
pub mod Streak
mod Tests
use opennas.Base.{
  ℕ, zero, suc, ◌+◌, ◌-◌, ◌*◌, ◌/◌, ◌%◌, ◌^◌, ◌≤◌, ◌<◌, min, max, String, ◌≡◌, refl, sym, ap, ◌∙◌,
  ◌≢◌, ◌↔◌, ◌⊎◌, inl, inr, Bool, true, false, ◌&&◌, ◌||◌, not, Option, none, some, List, [], ◌∷◌,
  ◌++◌, map, arith, ltb, leb, if◌then◌else◌, ltb→lt, lt→ltb, leb→le, nat_beq_iff, Bool-cases,
  Option-cases, Equality, ◌==◌, nat_eq, string_eq, list_eq, ==_self, list_beq, list_beq_iff, length,
  length-append, keep, find, any, All, All-append, All-keep, Text, codes, is_empty, split, join,
  has_unit, starts_with, non_empty, drop, take, count_up, Any, All-keep_iff, All-map, All-find,
  Any-keep, Any-map, find-holds, find-Any, find-none, find_unique, keep_short, any-false, Free,
  split_single, split-append, split-join, split-Free, join-append, All-reverse, starts_with-append,
  starts_with_rest, starts_with_comparable, starts_with_self, starts_with-append_both,
}
use opennas.Files.Resolve.{trim}

abbrev pub threshold : ℕ
threshold = 8

abbrev pub window_ms : ℕ
window_ms = 900000

abbrev pub base_lock_ms : ℕ
base_lock_ms = 60000

abbrev pub max_lock_ms : ℕ
max_lock_ms = 900000

pub record AttemptRow : Type 0 where
  pub username : Text
  pub failures : ℕ
  pub first_fail_at : Option ℕ
  pub last_fail_at : Option ℕ
  pub locked_until : Option ℕ

-- `Math.ceil(ms / 1000)`.
abbrev pub ceil_seconds : ℕ → ℕ
ceil_seconds ms = (ms + 999) / 1000

-- Where no failure is on file the window has passed.
abbrev pub is_stale : ℕ → Option AttemptRow → Bool
is_stale now none = true
is_stale now (some row) = elim row.last_fail_at [ none ↦ true | some t ↦ ltb window_ms (now - t) ]

abbrev pub failures_of : Option AttemptRow → ℕ
failures_of none = 0
failures_of (some row) = row.failures

unfoldable pub next_failures : ℕ → Option AttemptRow → ℕ
next_failures now row = if is_stale now row then 1 else failures_of row + 1

unfoldable pub lock_after : ℕ → ℕ → Option ℕ
lock_after now failures =
    if leb threshold failures
    then some (now + min (base_lock_ms * 2 ^ (failures - threshold)) max_lock_ms)
    else none

abbrev pub seconds_until : ℕ → Option ℕ → ℕ
seconds_until now none = 0
seconds_until now (some t) = if ltb 0 (t - now) then ceil_seconds (t - now) else 0

abbrev pub locked_of : Option AttemptRow → Option ℕ
locked_of none = none
locked_of (some row) = row.locked_until

-- The answer to a failure, from the lock that it set.
abbrev pub answer_of : ℕ → Option ℕ → ℕ
answer_of now none = 0
answer_of now (some t) = ceil_seconds (t - now)

-- INSERT … ON CONFLICT(username) DO UPDATE.
unfoldable pub upsert_attempt : ℕ → Text → ℕ → Option ℕ → List AttemptRow → List AttemptRow
upsert_attempt now name failures locked [] =
    record {
      username = name;
      failures = failures;
      first_fail_at = some now;
      last_fail_at = some now;
      locked_until = locked;
    }
    ∷ []
upsert_attempt now name failures locked (r ∷ table) =
    let rest = upsert_attempt now name failures locked table in
    if r.username == name
    then record r {
      failures = failures;
      first_fail_at = if failures == 1 then some now else r.first_fail_at;
      last_fail_at = some now;
      locked_until = locked;
    }
      ∷ table
    else r ∷ rest

module _ (lower : Text → Text) where
  unfoldable pub key : Text → Text
  key username = lower (trim username)

  unfoldable pub get_row : List AttemptRow → Text → Option AttemptRow
  get_row table username = find (λ r. r.username == key username) table

  unfoldable pub lockout_remaining_seconds : ℕ → List AttemptRow → Text → ℕ
  lockout_remaining_seconds now table username =
      seconds_until now (locked_of (get_row table username))

  unfoldable pub record_failure : ℕ → List AttemptRow → Text → List AttemptRow × ℕ
  record_failure now table username =
      let name = key username in
      let failures = next_failures now (get_row table name) in
      let locked = lock_after now failures in
      (upsert_attempt now name failures locked table, answer_of now locked)

  unfoldable pub record_success : List AttemptRow → Text → List AttemptRow
  record_success table username = keep (λ r. not (r.username == key username)) table

  unfoldable pub clear_lockout : List AttemptRow → Text → List AttemptRow × Bool
  clear_lockout table username =
      (record_success table username, any (λ r. r.username == key username) table)
