-- ===== src/SignIn/Password.antt =====
-- apps/api/src/auth/routes.ts: the handler of `/login/password`. One clock reading serves the whole request, whose
-- waiting for scrypt lets no other request in between.
use opennas.Base.{
  ℕ, ◌+◌, String, Bool, ◌&&◌, ◌||◌, not, Option, none, some, List, [], ◌∷◌, map, if◌then◌else◌, leb,
  ltb, ◌==◌, nat_eq, string_eq, list_eq, find, Text, codes, is_empty,
}
use opennas.Files.Resolve.{trim}
use opennas.LoginAttempts.{lockout_remaining_seconds, record_failure, record_success}
use opennas.IpBans.{clear_ip_failures}
use opennas.Passwords.{Hashing, verify_password}
use opennas.SecondFactor.Store.{totp_enabled, create_mfa_ticket, count_unused_recovery_codes}
use opennas.SecondFactor.Login.{Member, Device, LoginState, Environment}
use opennas.Sessions.{create_session}
use opennas.SignIn.Bans.{note_failed_attempt}

pub data PasswordReply : Type 0 where
  bad_request bad_credentials account_disabled : PasswordReply
  locked_out : ℕ → PasswordReply
  mfa_required : String → Bool → PasswordReply
  opened : String → PasswordReply

-- What the server adds to a request: its address, its new ticket, the trusted networks, and the text of the reason
-- for a ban.
pub record Arrival : Type 0 where
  pub ip : Text
  pub fresh_ticket : String
  pub trusted : List Text
  pub reason : String
  pub device : Device

-- SQLite's `lower`: that of the ASCII letters.
abbrev pub lower_unit : ℕ → ℕ
lower_unit c = if leb 65 c && leb c 90 then c + 32 else c

abbrev pub sql_lower : Text → Text
sql_lower name = map lower_unit name

abbrev pub is_named : Text → Member → Bool
is_named name u = sql_lower u.username == sql_lower name

unfoldable pub get_user_row_by_username : List Member → Text → Option Member
get_user_row_by_username users name = find (is_named name) users

-- What is compared with where there is no hash.
abbrev pub no_hash : Text
no_hash = codes "scrypt$16384$8$1$AAAAAAAAAAAAAAAAAAAAAA==$AAAA"

abbrev pub hash_or : Option Text → Text
hash_or none = no_hash
hash_or (some hash) = hash

abbrev pub stored_of : Option Member → Text
stored_of none = no_hash
stored_of (some u) = hash_or u.password_hash

-- Wrong credentials.
abbrev pub refuse : Environment → ℕ → Arrival → Text → LoginState → LoginState × PasswordReply
refuse env now a name s =
    let (ip_attempts, bans) =
      note_failed_attempt env.lower a.trusted now s.ip_attempts s.bans a.ip a.reason in
    (
      record s {
        attempts = (record_failure env.lower now s.attempts name).0;
        ip_attempts = ip_attempts;
        bans = bans;
      },
      bad_credentials,
    )

-- startSession with the password alone.
abbrev pub start_session_alone : Environment → ℕ → Device → Member → LoginState → LoginState
start_session_alone env now device u s = record s {
  sessions =
      create_session env.hash_token env.session_ttl_ms now s.sessions device.token u.id
        ("password" ∷ []) device.user_agent device.ip;
  users = map (λ x. if x.id == u.id then record x { last_login = some now } else x) s.users;
}

-- The password was right, and the account may sign in.
abbrev pub admit_member :
    Environment → ℕ → Arrival → Text → Member → LoginState → LoginState × PasswordReply
admit_member env now a name u s =
    let cleared : LoginState = record s {
      attempts = record_success env.lower s.attempts name;
      ip_attempts = clear_ip_failures env.lower s.ip_attempts a.ip;
    } in
    if totp_enabled env.decrypt s.totp u.id
    then (
      record cleared {
        tickets = create_mfa_ticket env.hash_token now s.tickets a.fresh_ticket u.id;
      },
      mfa_required a.fresh_ticket (ltb 0 (count_unused_recovery_codes s.recovery u.id)),
    )
    else (start_session_alone env now a.device u cleared, opened u.id)

abbrev pub with_account :
    Hashing
    → Environment
    → ℕ
    → Arrival
    → Text
    → Text
    → Option Member
    → LoginState
    → LoginState × PasswordReply
with_account h env now a name password none s = refuse env now a name s
with_account h env now a name password (some u) s =
    if not (verify_password h password (stored_of (some u)))
    then refuse env now a name s
    else if u.is_disabled
    then (s, account_disabled)
    else admit_member env now a name u s

-- The texts of a request's name and password; `none` for a body of another shape.
unfoldable pub login_password :
    Hashing
    → Environment
    → ℕ
    → Arrival
    → Option (Text × Text)
    → LoginState
    → LoginState × PasswordReply
login_password h env now a none s = (s, bad_request)
login_password h env now a (some (raw, password)) s =
    let name = trim raw in
    let locked = lockout_remaining_seconds env.lower now s.attempts name in
    if is_empty name || is_empty password
    then (s, bad_request)
    else if ltb 0 locked
    then (s, locked_out locked)
    else with_account h env now a name password (get_user_row_by_username s.users name) s
