-- ===== src/SignIn/Guessed.antt =====
-- Guessing a password at `/login/password`.
use native.Mathlib.Nat.{pow-succ'}
use mathlib.Core.Path.{subst}
use opennas.Base.{
  ℕ, zero, suc, ◌+◌, ◌-◌, ◌*◌, ◌^◌, ◌≤◌, ◌<◌, min, ◌≡◌, sym, ap, ◌∙◌, true, false, ◌||◌, none, some,
  List, [], ◌∷◌, arith, ltb, leb, nat_eq, string_eq, list_eq, length, Text, is_empty,
}
use opennas.Files.Resolve.{trim}
use opennas.LoginAttempts.{
  key, get_row, next_failures, lock_after, seconds_until, record_failure, lockout_remaining_seconds,
  threshold, base_lock_ms, max_lock_ms,
}
use opennas.LoginAttempts.Lockout.{row_of, Failed, Failed-locked}
use opennas.LoginAttempts.Streak.{IsSteady, next_in_window, record_failure_row}
use opennas.Passwords.{Hashing}
use opennas.SecondFactor.Login.{LoginState, Environment}
use opennas.SignIn.Password.{PasswordReply, bad_credentials, locked_out, Arrival, login_password}
use opennas.SignIn.Checked.{Answers, login_password-Answers}

pub record Guess : Type 0 where
  pub time : ℕ
  pub arrival : Arrival
  pub raw : Text
  pub password : Text

abbrev pub times : List Guess → List ℕ
times [] = []
times (g ∷ gs) = g.time ∷ times gs

abbrev pub last_time : ℕ → List Guess → ℕ
last_time t [] = t
last_time t (g ∷ gs) = last_time g.time gs

lock_long :
    (last later n : ℕ) → 8 ≤ n → later < last + 60000 → 0 < seconds_until later (lock_after last n)
unfolding lock_after
lock_long last later n many soon =
    let full : leb threshold n ≡ true = ground arith in
    let wait = pow_positive (n - threshold) in
    let left : 0 < last + min (base_lock_ms * 2 ^ (n - threshold)) max_lock_ms - later =
      omega (arith, wait) in
    rw full (ground (arith, left))
  where
    pow_positive : (k : ℕ) → 0 < 2 ^ k
    pow_positive zero = omega arith
    pow_positive (suc k) = let h = pow_positive k in omega (arith, h, pow-succ' 2 k)

module _ (h : Hashing) (env : Environment) where
  answered_locked :
      (now : ℕ) (a : Arrival) (raw password : Text) (s : LoginState)
      → (is_empty (trim raw) || is_empty password) ≡ false
      → 0 < lockout_remaining_seconds env.lower now s.attempts (trim raw)
      → login_password h env now a (some (raw, password)) s
        ≡ (s, locked_out (lockout_remaining_seconds env.lower now s.attempts (trim raw)))
  unfolding login_password
  answered_locked now a raw password s formed locked =
      let test : ltb 0 (lockout_remaining_seconds env.lower now s.attempts (trim raw)) ≡ true =
        ground arith in
      rw (formed, test)

  abbrev pub guess : Guess → LoginState → LoginState × PasswordReply
  guess g s = login_password h env g.time g.arrival (some (g.raw, g.password)) s

  abbrev pub guess_all : List Guess → LoginState → LoginState
  guess_all [] s = s
  guess_all (g ∷ gs) s = guess_all gs (guess g s).0

  -- Each is made under the name and is answered as wrong.
  abbrev pub AreRefused : Text → List Guess → LoginState → Type 0
  AreRefused name [] s = Unit
  AreRefused name (g ∷ gs) s =
      (trim g.raw ≡ name) × ((guess g s).1 ≡ bad_credentials) × AreRefused name gs (guess g s).0

  guess_attempts :
      (g : Guess) (name : Text) (s : LoginState)
      → trim g.raw ≡ name
      → (guess g s).1 ≡ bad_credentials
      → (guess g s).0.attempts ≡ (record_failure env.lower g.time s.attempts name).0
  guess_attempts g name s named wrong =
      let answer : Answers h env g.time g.arrival (trim g.raw) g.password s (guess g s).0
          bad_credentials =
        subst (Answers h env g.time g.arrival (trim g.raw) g.password s (guess g s).0) wrong
          (login_password-Answers h env g.time g.arrival g.raw g.password s) in
      answer.1 ∙ ap (λ n. (record_failure env.lower g.time s.attempts n).0) named

  module _ (key_twice : (t : Text) → key env.lower (key env.lower t) ≡ key env.lower t) where
    abbrev Counted : Text → ℕ → ℕ → LoginState → Type 0
    Counted name last n s =
        Failed last n (lock_after last n) (row_of s.attempts (key env.lower name))

    Counted-next :
        (g : Guess) (name : Text) (s : LoginState) (n : ℕ)
        → trim g.raw ≡ name
        → (guess g s).1 ≡ bad_credentials
        → next_failures g.time (row_of s.attempts (key env.lower name)) ≡ n
        → Counted name g.time n (guess g s).0
    Counted-next g name s n named wrong next =
        subst (λ z. Failed g.time n (lock_after g.time n) (row_of z (key env.lower name)))
          (sym (guess_attempts g name s named wrong))
          (record_failure_row env.lower key_twice g.time s.attempts name n next).0

    Counted-all :
        (gs : List Guess) (name : Text) (s : LoginState) (last n : ℕ)
        → Counted name last n s
        → AreRefused name gs s
        → IsSteady last (times gs)
        → Counted name (last_time last gs) (n + length gs) (guess_all gs s)
    Counted-all [] name s last n c refused steady =
        subst (λ m. Counted name last m s) (omega arith) c
    Counted-all (g ∷ gs) name s last n c (named, wrong, refused) (near, steady) =
        let next =
          next_in_window g.time last n (lock_after last n) (row_of s.attempts (key env.lower name))
            c near in
        subst (λ m. Counted name (last_time g.time gs) m (guess_all gs (guess g s).0)) (omega arith)
          (Counted-all gs name (guess g s).0 g.time (n + 1)
            (Counted-next g name s (n + 1) named wrong next) refused steady)

    -- Guessing is stopped: after eight or more refusals under one name that has no failures on file, each at most 15
    -- minutes after the one before, a request under that name in the next minute is answered with the lock, whatever
    -- its password, the right one included, and changes nothing. Normalising a name twice is normalising it once.
    pub login_password-locked :
        (g : Guess) (gs : List Guess) (name : Text) (s : LoginState) (try : Guess)
        → get_row env.lower s.attempts name ≡ none
        → AreRefused name (g ∷ gs) s
        → IsSteady g.time (times gs)
        → 7 ≤ length gs
        → try.time < last_time g.time gs + 60000
        → trim try.raw ≡ name
        → (is_empty (trim try.raw) || is_empty try.password) ≡ false
        → let after = guess_all (g ∷ gs) s in
          ((guess try after).0 ≡ after)
          × (seconds : ℕ) × (0 < seconds)
          × ((guess try after).1 ≡ locked_out seconds)
    unfolding get_row lockout_remaining_seconds next_failures
    login_password-locked g gs name s try new (named, wrong, refused) steady many soon same formed =
        let first = Counted-next g name s 1 named wrong (rw new) in
        let after = guess_all (g ∷ gs) s in
        let all = Counted-all gs name (guess g s).0 g.time 1 first refused steady in
        let lock = Failed-locked _ _ _ (row_of after.attempts (key env.lower name)) all in
        let wait : 0 < lockout_remaining_seconds env.lower try.time after.attempts (trim try.raw) =
          subst (λ n. 0 < lockout_remaining_seconds env.lower try.time after.attempts n) (sym same)
            (subst (λ o. 0 < seconds_until try.time o) (sym lock)
              (lock_long (last_time g.time gs) try.time (1 + length gs) (omega arith) soon)) in
        let result = answered_locked try.time try.arrival try.raw try.password after formed wait in
        (ap (λ p. p.0) result, _, wait, ap (λ p. p.1) result)
