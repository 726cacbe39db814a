-- ===== src/SecondFactor/Refused.antt =====
-- What a sign-in by `/login/totp` that is refused leaves.
use opennas.Base.{
  ℕ, String, ◌≡◌, refl, ◌⊎◌, inl, inr, ◌||◌, Option, none, some, ltb, Bool-cases, Option-cases,
  ◌==◌, nat_eq, string_eq, list_eq, length, find, Text, is_empty,
}
use opennas.SecondFactor.Codes.{verify_totp}
use opennas.SecondFactor.Store.{TotpRecord, get_totp, peek_mfa_ticket, consume_recovery_code}
use opennas.SecondFactor.Login.{
  Member, Device, LoginState, Environment, LoginReply, signed_in, has_member_id, is_used_step,
  with_step, with_recovery, with_code, with_user, login_totp,
}

-- No session, no user and no enrolment has changed, or the reply is that of a sign-in.
abbrev pub LeavesSessions : LoginState → LoginState × LoginReply → Type 0
LeavesSessions s (t, reply) =
    ((t.sessions ≡ s.sessions) × (t.users ≡ s.users) × (t.totp ≡ s.totp))
    ⊎ ((id : String) × (method : String) × (reply ≡ signed_in id method))

module _ (env : Environment) (now : ℕ) (x : String) (device : Device) where
  step-LeavesSessions :
      (u : Member) (last : Option ℕ) (step : ℕ) (s : LoginState)
      → LeavesSessions s (with_step env now x device u last step s)
  step-LeavesSessions u last step s = elim (Bool-cases (is_used_step last step)) [
    | inl used ↦ rw (used, with_step) (inl (refl, refl, refl))
    | inr fresh ↦ rw (fresh, with_step) (inr (u.id, "totp", refl))
  ]

  recovery-LeavesSessions :
      (u : Member) (code : Text) (s : LoginState)
      → LeavesSessions s (with_recovery env now x device u code s)
  recovery-LeavesSessions u code s =
      elim (Bool-cases
        ((consume_recovery_code env.upper env.hash_code now s.recovery u.id code).1)) [
          | inl spent ↦ rw (spent, with_recovery) (inr (u.id, "recovery-code", refl))
          | inr wrong ↦ rw (wrong, with_recovery) (inl (refl, refl, refl))
        ]

  code-LeavesSessions :
      (u : Member) (r : TotpRecord) (code : Text) (s : LoginState)
      → LeavesSessions s (with_code env now x device u r code s)
  code-LeavesSessions u r code s =
      elim (Option-cases (verify_totp env.hmac_sha1 env.upper r.secret code now)) [
        | inl foreign ↦ rw (foreign, with_code) (recovery-LeavesSessions u code s)
        | inr (step, e) ↦ rw (e, with_code) (step-LeavesSessions u r.last_used_step step s)
      ]

  user-LeavesSessions :
      (code : Text) (u : Option Member) (r : Option TotpRecord) (s : LoginState)
      → LeavesSessions s (with_user env now x device code u r s)
  user-LeavesSessions code none r s = inl (refl, refl, refl)
  user-LeavesSessions code (some u) none s = inl (refl, refl, refl)
  user-LeavesSessions code (some u) (some r) s = elim (Option-cases r.confirmed_at) [
    | inl missing ↦ rw (missing, with_user) (inl (refl, refl, refl))
    | inr (at, e) ↦ elim (Bool-cases u.is_disabled) [
      | inl off ↦ rw (e, off, with_user) (inl (refl, refl, refl))
      | inr on ↦ rw (e, on, with_user) (code-LeavesSessions u r code s)
    ]
  ]

-- A request that is not answered by a sign-in changes no session, no user and no enrolment.
pub login_totp-LeavesSessions :
    (env : Environment) (now : ℕ) (device : Device) (request : Option (String × Text))
    (s : LoginState)
    → LeavesSessions s (login_totp env now device request s)
unfolding login_totp
login_totp-LeavesSessions env now device none s = inl (refl, refl, refl)
login_totp-LeavesSessions env now device (some (x, code)) s =
    elim (Bool-cases (x == "" || is_empty code || ltb 32 (length code))) [
      | inl malformed ↦ rw malformed (inl (refl, refl, refl))
      | inr formed ↦ elim (Option-cases ((peek_mfa_ticket env.hash_token now s.tickets x).1)) [
        | inl missing ↦ rw (formed, missing) (inl (refl, refl, refl))
        | inr (id, e) ↦
            rw (formed, e)
              (user-LeavesSessions env now x device code (find (has_member_id id) s.users)
                (get_totp env.decrypt s.totp id) _)
      ]
    ]
