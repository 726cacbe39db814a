-- ===== src/SecondFactor/Login.antt =====
-- apps/api/src/auth/routes.ts: the handler of `/login/totp`. One clock reading serves the whole request.
use opennas.Base.{
  ℕ, String, Bool, false, ◌||◌, Option, none, some, List, [], ◌∷◌, if◌then◌else◌, leb, ltb, ◌==◌,
  string_eq, find, map, length, Text, is_empty,
}
use opennas.LoginAttempts.{AttemptRow, record_failure, record_success}
use opennas.IpBans.{IpAttemptRow, BanRow}
use opennas.Sessions.{SessionRow, create_session}
use opennas.SecondFactor.Codes.{verify_totp}
use opennas.SecondFactor.Store.{
  TotpRow, TotpRecord, RecoveryRow, TicketRow, get_totp, note_totp_step, consume_recovery_code,
  peek_mfa_ticket, fail_mfa_ticket, consume_mfa_ticket,
}

-- What the handlers read and write of a user's row.
pub record Member : Type 0 where
  pub id : String
  pub username : Text
  pub is_disabled : Bool
  pub last_login : Option ℕ
  pub password_hash : Option Text
  pub password_pwned : Bool
  pub must_change_password : Bool

-- What a request brings for a session: the random token, and what is kept of the device.
pub record Device : Type 0 where
  pub token : String
  pub user_agent : Option String
  pub ip : Option String

pub record LoginState : Type 0 where
  pub users : List Member
  pub totp : List TotpRow
  pub recovery : List RecoveryRow
  pub tickets : List TicketRow
  pub attempts : List AttemptRow
  pub sessions : List SessionRow
  pub ip_attempts : List IpAttemptRow
  pub bans : List BanRow

-- The functions of other packages and the settings that the handler needs.
pub record Environment : Type 0 where
  pub hmac_sha1 : List ℕ → List ℕ → List ℕ
  pub upper : Text → Text
  pub lower : Text → Text
  pub decrypt : Text → Option Text
  pub hash_token : String → String
  pub hash_code : Text → String
  pub session_ttl_ms : ℕ

pub data LoginReply : Type 0 where
  invalid ticket no_totp disabled replayed bad_code : LoginReply
  signed_in : String → String → LoginReply

abbrev pub drop_ticket : Environment → String → LoginState → LoginState
drop_ticket env t s = record s { tickets = consume_mfa_ticket env.hash_token s.tickets t }

-- A wrong or used code.
abbrev pub count_failure : Environment → ℕ → String → Member → LoginState → LoginState
count_failure env now t u s = record s {
  tickets = fail_mfa_ticket env.hash_token s.tickets t;
  attempts = (record_failure env.lower now s.attempts u.username).0;
}

abbrev pub start_session : Environment → ℕ → Device → Member → String → LoginState → LoginState
start_session env now device u method s = record s {
  sessions =
      create_session env.hash_token env.session_ttl_ms now s.sessions device.token u.id
        ("password" ∷ method ∷ []) device.user_agent device.ip;
  users = map (λ x. if x.id == u.id then record x { last_login = some now } else x) s.users;
}

-- The end of a sign-in that succeeds.
abbrev pub sign_in :
    Environment → ℕ → String → Device → Member → String → LoginState → LoginState × LoginReply
sign_in env now t device u method s =
    let cleared : LoginState = record s {
      tickets = consume_mfa_ticket env.hash_token s.tickets t;
      attempts = record_success env.lower s.attempts u.username;
    } in
    (start_session env now device u method cleared, signed_in u.id method)

abbrev pub is_used_step : Option ℕ → ℕ → Bool
is_used_step none step = false
is_used_step (some last) step = leb step last

-- A code that matched at a step.
abbrev pub with_step :
    Environment → ℕ → String → Device → Member → Option ℕ → ℕ → LoginState → LoginState × LoginReply
with_step env now t device u last step s =
    if is_used_step last step
    then (count_failure env now t u s, replayed)
    else sign_in env now t device u "totp" (record s { totp = note_totp_step s.totp u.id step })

-- A code that matched at none: it may be a recovery code.
abbrev pub with_recovery :
    Environment → ℕ → String → Device → Member → Text → LoginState → LoginState × LoginReply
with_recovery env now t device u code s =
    let (recovery, spent) =
      consume_recovery_code env.upper env.hash_code now s.recovery u.id code in
    if spent
    then sign_in env now t device u "recovery-code" (record s { recovery = recovery })
    else (count_failure env now t u (record s { recovery = recovery }), bad_code)

abbrev pub with_code :
    Environment
    → ℕ
    → String
    → Device
    → Member
    → TotpRecord
    → Text
    → LoginState
    → LoginState × LoginReply
with_code env now t device u r code s =
    elim (verify_totp env.hmac_sha1 env.upper r.secret code now) [
      | none ↦ with_recovery env now t device u code s
      | some step ↦ with_step env now t device u r.last_used_step step s
    ]

abbrev pub with_user :
    Environment
    → ℕ
    → String
    → Device
    → Text
    → Option Member
    → Option TotpRecord
    → LoginState
    → LoginState × LoginReply
with_user env now t device code none r s = (drop_ticket env t s, no_totp)
with_user env now t device code (some u) none s = (drop_ticket env t s, no_totp)
with_user env now t device code (some u) (some r) s = elim r.confirmed_at [
  | none ↦ (drop_ticket env t s, no_totp)
  | some at ↦
      if u.is_disabled
      then (drop_ticket env t s, disabled)
      else with_code env now t device u r code s
]

abbrev pub has_member_id : String → Member → Bool
has_member_id id u = u.id == id

-- The text of a request's ticket and code; `none` for a body of another shape.
unfoldable pub login_totp :
    Environment → ℕ → Device → Option (String × Text) → LoginState → LoginState × LoginReply
login_totp env now device none s = (s, invalid)
login_totp env now device (some (t, code)) s =
    let (tickets, owner) = peek_mfa_ticket env.hash_token now s.tickets t in
    let seen : LoginState = record s { tickets = tickets } in
    if t == "" || is_empty code || ltb 32 (length code) then (s, invalid) else elim owner [
      | none ↦ (seen, ticket)
      | some id ↦
          with_user env now t device code (find (has_member_id id) s.users)
            (get_totp env.decrypt s.totp id) seen
    ]
