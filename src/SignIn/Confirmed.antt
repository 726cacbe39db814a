-- ===== src/SignIn/Confirmed.antt =====
-- What five requests of a session that is in other hands can change of an account.
use opennas.Base.{
  ℕ, String, ◌≡◌, refl, sym, ap, ◌∙◌, ◌⊎◌, inl, inr, true, false, ◌||◌, Option, none, some, ltb,
  Bool-cases, Option-cases, nat_eq, string_eq, list_eq, length, Text, codes, is_empty,
}
use opennas.Passwords.{Hashing, verify_password}
use opennas.SecondFactor.Store.{get_totp, totp_enabled, is_confirmed}
use opennas.SecondFactor.Login.{LoginState, Environment}
use opennas.SignIn.Account.{
  AccountRequest, sets_up, enables, renews_codes, disables, changes_password, Screen,
  get_password_hash, confirms, confirm_own_password, enable_record, totp_enable, with_hash,
  me_password, handle,
}

-- The password that a request shows.
abbrev pub shown : AccountRequest → Option Text
shown (sets_up secret) = none
shown (enables code codes) = none
shown (renews_codes password codes) = some password
shown (disables password) = some password
shown (changes_password current new salt) = current

abbrev pub Verifies : Hashing → Text → Option Text → Type 0
Verifies h hash none = ⊥
Verifies h hash (some password) = verify_password h password hash ≡ true

-- What signs a user in, and who is signed in.
abbrev pub IsUntouched : LoginState → LoginState → Type 0
IsUntouched s t =
    (t.users ≡ s.users)
    × (t.totp ≡ s.totp)
    × (t.recovery ≡ s.recovery)
    × (t.tickets ≡ s.tickets)
    × (t.sessions ≡ s.sessions)

untouched : (s : LoginState) → IsUntouched s s
untouched s = (refl, refl, refl, refl, refl)

module _ (h : Hashing) (env : Environment) (encrypt : Text → Text) (screen : Text → Screen)
    (now : ℕ) (me session : String) where
  confirm_cases :
      (password hash : Text) (s : LoginState)
      → get_password_hash s.users me ≡ some hash
      → (confirm_own_password h s.users me password ≡ false)
        ⊎ (verify_password h password hash ≡ true)
  unfolding confirm_own_password
  confirm_cases password hash s e = elim (Bool-cases (verify_password h password hash)) [
    | inl right ↦ inr right
    | inr wrong ↦ inl (ap (confirms h password) e ∙ wrong)
  ]

  -- A user who has a password and a confirmed second factor keeps both, with the recovery codes, the tickets and
  -- all sessions, through each of the five requests `/totp/setup`, `/totp/enable`, `/totp/recovery-codes`,
  -- `/totp/disable` and `/me/password`, unless it shows the user's present password. Nothing is said of other
  -- requests, such as those that end sessions.
  pub handle-IsUntouched :
      (request : AccountRequest) (hash : Text) (s : LoginState)
      → get_password_hash s.users me ≡ some hash
      → totp_enabled env.decrypt s.totp me ≡ true
      → IsUntouched s (handle h env encrypt screen now me session request s).0
        ⊎ Verifies h hash (shown request)
  unfolding handle totp_enabled
  handle-IsUntouched (sets_up secret) hash s e two = rw two (inl (untouched s))
  handle-IsUntouched (enables code codes) hash s e two =
      elim (Bool-cases (is_empty code || ltb 16 (length code))) [
        | inl malformed ↦ rw malformed (inl (untouched s))
        | inr formed ↦ elim (Option-cases (get_totp env.decrypt s.totp me)) [
          | inl missing ↦ rw (formed, missing) (inl (untouched s))
          | inr (r, found) ↦
              let on : is_confirmed (some r) ≡ true = ap is_confirmed (sym found) ∙ two in
              rw formed (rw (found, totp_enable) (rw (on, enable_record) (inl (untouched s))))
        ]
      ]
  handle-IsUntouched (renews_codes password codes) hash s e two =
      rw two (elim (Bool-cases (is_empty password)) [
        | inl blank ↦ rw blank (inl (untouched s))
        | inr full ↦ elim (confirm_cases password hash s e) [
          | inl wrong ↦ rw (full, wrong) (inl (untouched s))
          | inr right ↦ inr right
        ]
      ])
  handle-IsUntouched (disables password) hash s e two = elim (Bool-cases (is_empty password)) [
    | inl blank ↦ rw blank (inl (untouched s))
    | inr full ↦ elim (confirm_cases password hash s e) [
      | inl wrong ↦ rw (full, wrong) (inl (untouched s))
      | inr right ↦ inr right
    ]
  ]
  handle-IsUntouched (changes_password none new salt) hash s e two =
      elim (Bool-cases (ltb (length new) 8 || ltb 256 (length new))) [
        | inl weak ↦ rw weak (inl (untouched s))
        | inr strong ↦ rw strong (rw (e, me_password) (inl (untouched s)))
      ]
  handle-IsUntouched (changes_password (some current) new salt) hash s e two =
      elim (Bool-cases (is_empty current || (ltb (length new) 8 || ltb 256 (length new)))) [
        | inl weak ↦ rw weak (inl (untouched s))
        | inr strong ↦ elim (Bool-cases (verify_password h current hash)) [
          | inl right ↦ inr right
          | inr wrong ↦ rw strong (rw (e, me_password) (rw (wrong, with_hash) (inl (untouched s))))
        ]
      ]
