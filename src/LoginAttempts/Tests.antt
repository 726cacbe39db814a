-- ===== src/LoginAttempts/Tests.antt =====
-- Runs of the functions on failed sign-ins with ASCII names, and the theorems there.
use opennas.Base.{
  ◌+◌, ◌≤◌, ◌≡◌, refl, false, none, some, List, [], ◌∷◌, arith, if◌then◌else◌, ◌==◌, nat_eq,
  string_eq, list_eq, list_beq, Text, codes,
}
use opennas.Files.Resolve.{trim}
use opennas.LoginAttempts.{
  window_ms, max_lock_ms, AttemptRow, next_failures, lock_after, upsert_attempt, key, get_row,
  lockout_remaining_seconds, record_failure, record_success, clear_lockout,
}
use opennas.LoginAttempts.Keys.{key_twice}
use opennas.LoginAttempts.Lockout.{record_failure_lockout}
use opennas.LoginAttempts.Streak.{penalty, record_failures, record_failures-penalty}

attempt_code : Unit {0}
unfolding trim list_beq next_failures lock_after upsert_attempt key get_row
    lockout_remaining_seconds record_failure record_success clear_lockout
attempt_code = tt

abbrev two_names : Text → Text
two_names t = if t == codes "Ann" then codes "ann" else t

apart_test : (key two_names (codes "Ann") == key two_names (codes "bob")) ≡ false
unfolding attempt_code
apart_test = refl

attempt_tests :
    ((record_failures two_names 0 (1 ∷ 2 ∷ 3 ∷ 4 ∷ 5 ∷ 6 ∷ 7 ∷ 8 ∷ []) [] (codes "Ann ")).1 ≡ 120)
    × ((record_failures two_names 0 (900001 ∷ []) [] (codes "Ann")).1 ≡ 0)
unfolding attempt_code
attempt_tests = (refl, refl)

no_row : get_row (λ s. s) [] (codes "ann") ≡ none
unfolding attempt_code
no_row = refl

record_failures-penalty_example :
    (record_failures (λ s. s) 0 (1 ∷ 2 ∷ 3 ∷ 4 ∷ 5 ∷ 6 ∷ 7 ∷ 8 ∷ []) [] (codes "ann")).1 ≡ penalty 9
record_failures-penalty_example =
    record_failures-penalty (λ s. s) key_twice 0 (1 ∷ 2 ∷ 3 ∷ 4 ∷ 5 ∷ 6 ∷ 7 ∷ 8 ∷ []) []
      (codes "ann") no_row
      (let near : 1 ≤ window_ms = omega arith in
        (near, (near, (near, (near, (near, (near, (near, (near, tt)))))))))

abbrev locked : List AttemptRow
locked =
    record {
      username = codes "ann";
      failures = 8;
      first_fail_at = some 0;
      last_fail_at = some 7;
      locked_until = some 60007;
    }
    ∷ []

record_failure_lockout_example :
    (lockout_remaining_seconds two_names 10
        (record_failure two_names 10 locked (codes "Ann")).0
        (codes "Ann")
      ≡ (record_failure two_names 10 locked (codes "Ann")).1)
    × ((record_failure two_names 10 locked (codes "Ann")).1 ≤ 900)
    × (lockout_remaining_seconds two_names
          (10 + max_lock_ms)
          (record_failure two_names 10 locked (codes "Ann")).0
          (codes "Ann")
        ≡ 0)
    × (get_row two_names (record_failure two_names 10 locked (codes "Ann")).0 (codes "bob")
        ≡ get_row two_names locked (codes "bob"))
record_failure_lockout_example =
    record_failure_lockout two_names 10 locked (codes "Ann") (codes "bob") apart_test
