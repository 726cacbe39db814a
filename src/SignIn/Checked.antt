-- ===== src/SignIn/Checked.antt =====
-- What a sign-in by `/login/password` has checked, and what every other answer leaves.
use opennas.Base.{
  ℕ, ◌<◌, ◌≡◌, refl, ap, ◌∙◌, inl, inr, true, false, ◌||◌, Option, none, some, [], ◌∷◌, arith, ltb,
  Bool-cases, nat_eq, string_eq, list_eq, list_beq, Text, codes, is_empty, split,
}
use opennas.Files.Resolve.{trim}
use opennas.LoginAttempts.{lockout_remaining_seconds, record_failure}
use opennas.Passwords.{Hashing, verify_password}
use opennas.Sessions.{create_session}
use opennas.SecondFactor.Store.{totp_enabled, create_mfa_ticket}
use opennas.SecondFactor.Login.{Member, LoginState, Environment}
use opennas.SignIn.Password.{
  PasswordReply, bad_request, bad_credentials, account_disabled, locked_out, mfa_required, opened,
  Arrival, get_user_row_by_username, no_hash, hash_or, admit_member, with_account, login_password,
}

-- What holds of the answer to a request under a name, and of the state after it.
abbrev pub Answers :
    Hashing
    → Environment
    → ℕ
    → Arrival
    → Text
    → Text
    → LoginState
    → LoginState
    → PasswordReply
    → Type 0
Answers h env now a name password s t bad_request = t ≡ s
Answers h env now a name password s t account_disabled = t ≡ s
Answers h env now a name password s t (locked_out seconds) =
    (t ≡ s) × (0 < seconds) × (lockout_remaining_seconds env.lower now s.attempts name ≡ seconds)
Answers h env now a name password s t bad_credentials =
    (lockout_remaining_seconds env.lower now s.attempts name ≡ 0)
    × (t.attempts ≡ (record_failure env.lower now s.attempts name).0)
    × (t.users ≡ s.users)
    × (t.totp ≡ s.totp)
    × (t.recovery ≡ s.recovery)
    × (t.tickets ≡ s.tickets)
    × (t.sessions ≡ s.sessions)
Answers h env now a name password s t (mfa_required ticket left) =
    (u : Member) × (lockout_remaining_seconds env.lower now s.attempts name ≡ 0)
    × (get_user_row_by_username s.users name ≡ some u)
    × (verify_password h password (hash_or u.password_hash) ≡ true)
    × (u.is_disabled ≡ false)
    × (totp_enabled env.decrypt s.totp u.id ≡ true)
    × (ticket ≡ a.fresh_ticket)
    × (t.tickets ≡ create_mfa_ticket env.hash_token now s.tickets ticket u.id)
    × (t.sessions ≡ s.sessions)
    × (t.users ≡ s.users)
    × (t.totp ≡ s.totp)
Answers h env now a name password s t (opened id) =
    (u : Member) × (lockout_remaining_seconds env.lower now s.attempts name ≡ 0)
    × (get_user_row_by_username s.users name ≡ some u)
    × (verify_password h password (hash_or u.password_hash) ≡ true)
    × (u.is_disabled ≡ false)
    × (totp_enabled env.decrypt s.totp u.id ≡ false)
    × (id ≡ u.id)
    × (t.sessions
        ≡ create_session env.hash_token env.session_ttl_ms now s.sessions a.device.token u.id
            ("password" ∷ []) a.device.user_agent a.device.ip)

module _ (h : Hashing) (env : Environment) (now : ℕ) (a : Arrival) (name password : Text) where
  admit-Answers :
      (u : Member) (s : LoginState)
      → lockout_remaining_seconds env.lower now s.attempts name ≡ 0
      → get_user_row_by_username s.users name ≡ some u
      → verify_password h password (hash_or u.password_hash) ≡ true
      → u.is_disabled ≡ false
      → let (t, reply) = admit_member env now a name u s in
        Answers h env now a name password s t reply
  admit-Answers u s free found right on = elim (Bool-cases (totp_enabled env.decrypt s.totp u.id)) [
    | inl two ↦
        rw (two, admit_member) (u, free, found, right, on, two, refl, refl, refl, refl, refl)
    | inr one ↦ rw (one, admit_member) (u, free, found, right, on, one, refl, refl)
  ]

  account-Answers :
      (o : Option Member) (s : LoginState)
      → lockout_remaining_seconds env.lower now s.attempts name ≡ 0
      → get_user_row_by_username s.users name ≡ o
      → let (t, reply) = with_account h env now a name password o s in
        Answers h env now a name password s t reply
  account-Answers none s free found = (free, refl, refl, refl, refl, refl, refl)
  account-Answers (some u) s free found =
      elim (Bool-cases (verify_password h password (hash_or u.password_hash))) [
        | inr wrong ↦ rw (wrong, with_account) (free, refl, refl, refl, refl, refl, refl)
        | inl right ↦ elim (Bool-cases u.is_disabled) [
          | inl off ↦ rw (right, off, with_account) refl
          | inr on ↦ rw (right, on, with_account) (admit-Answers u s free found right on)
        ]
      ]

pub login_password-Answers :
    (h : Hashing) (env : Environment) (now : ℕ) (a : Arrival) (raw password : Text) (s : LoginState)
    → let (t, reply) = login_password h env now a (some (raw, password)) s in
      Answers h env now a (trim raw) password s t reply
unfolding login_password
login_password-Answers h env now a raw password s =
    elim (Bool-cases (is_empty (trim raw) || is_empty password)) [
      | inl malformed ↦ rw malformed refl
      | inr formed ↦
          elim (Bool-cases
            (ltb 0 (lockout_remaining_seconds env.lower now s.attempts (trim raw)))) [
              | inl locked ↦
                  let some_left : 0
                      < lockout_remaining_seconds env.lower now s.attempts (trim raw) =
                    ground arith in
                  rw (formed, locked) (refl, some_left, refl)
              | inr free ↦
                  let none_left : lockout_remaining_seconds env.lower now s.attempts (trim raw)
                      ≡ 0 =
                    ground arith in
                  rw (formed, free)
                    (account-Answers h env now a (trim raw) password
                      (get_user_row_by_username s.users (trim raw)) s none_left refl)
            ]
    ]

verify_password-no_hash :
    (h : Hashing) (password : Text)
    → h.from_base64 (codes "AAAA") ≡ 0 ∷ 0 ∷ 0 ∷ []
    → h.scrypt
        (h.normalize password)
        (h.from_base64 (codes "AAAAAAAAAAAAAAAAAAAAAA=="))
        3
        (codes "16384")
        (codes "8")
        (codes "1")
      ≡ 0 ∷ 0 ∷ 0 ∷ []
    → verify_password h password no_hash ≡ true
unfolding verify_password split list_beq
verify_password-no_hash h password zeros hit = rw (zeros, hit)

-- An account without a password, which a single sign-on made, is open to any password from which scrypt makes three
-- zero bytes with the fixed salt of the code: one in 2 ^ 24, the same for every such account.
pub login_password_no_hash :
    (h : Hashing) (env : Environment) (now : ℕ) (a : Arrival) (raw password : Text) (s : LoginState)
    (u : Member)
    → (is_empty (trim raw) || is_empty password) ≡ false
    → lockout_remaining_seconds env.lower now s.attempts (trim raw) ≡ 0
    → get_user_row_by_username s.users (trim raw) ≡ some u
    → u.password_hash ≡ none
    → u.is_disabled ≡ false
    → totp_enabled env.decrypt s.totp u.id ≡ false
    → h.from_base64 (codes "AAAA") ≡ 0 ∷ 0 ∷ 0 ∷ []
    → h.scrypt
        (h.normalize password)
        (h.from_base64 (codes "AAAAAAAAAAAAAAAAAAAAAA=="))
        3
        (codes "16384")
        (codes "8")
        (codes "1")
      ≡ 0 ∷ 0 ∷ 0 ∷ []
    → (login_password h env now a (some (raw, password)) s).1 ≡ opened u.id
unfolding login_password verify_password
login_password_no_hash h env now a raw password s u formed free found bare on one zeros hit =
    let right : verify_password h password (hash_or u.password_hash) ≡ true =
      ap (λ o. verify_password h password (hash_or o)) bare
      ∙ verify_password-no_hash h password zeros hit in
    rw formed (rw free (rw found (rw (right, with_account) (rw on (rw (one, admit_member))))))
