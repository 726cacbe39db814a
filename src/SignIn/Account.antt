-- ===== src/SignIn/Account.antt =====
-- apps/api/src/auth/routes.ts: the handlers with which a signed-in user changes the second factor, the recovery codes
-- and the password. The random secret, codes and salt are arguments, and so is what screenPassword finds.
use opennas.Base.{
  ℕ, String, Bool, true, false, ◌||◌, not, Option, none, some, List, map, if◌then◌else◌, ltb, ◌==◌,
  nat_eq, string_eq, list_eq, find, Text, is_empty, length,
}
use opennas.Passwords.{Hashing, hash_password, verify_password, validate_password_strength}
use opennas.Sessions.{delete_other_sessions_for_user}
use opennas.SecondFactor.Codes.{verify_totp}
use opennas.SecondFactor.Store.{
  TotpRecord, get_totp, totp_enabled, is_confirmed, start_totp_enrolment, confirm_totp,
  disable_totp, replace_recovery_codes, clear_mfa_tickets,
}
use opennas.SecondFactor.Login.{Member, LoginState, Environment, has_member_id}

pub data AccountReply : Type 0 where
  malformed already_enabled no_setup wrong_code not_enabled bad_password : AccountReply
  current_required same_password weak_password breached_password turned_off : AccountReply
  setup_started : Text → AccountReply
  codes_given : List Text → AccountReply
  password_changed : ℕ → AccountReply

-- The bodies of the requests, with what the server draws at random.
pub data AccountRequest : Type 0 where
  sets_up : Text → AccountRequest
  enables : Text → List Text → AccountRequest
  renews_codes : Text → List Text → AccountRequest
  disables : Text → AccountRequest
  changes_password : Option Text → Text → List ℕ → AccountRequest

pub record Screen : Type 0 where
  pub blocked : Bool
  pub pwned : Bool

abbrev pub hash_of : Option Member → Option Text
hash_of none = none
hash_of (some u) = u.password_hash

unfoldable pub get_password_hash : List Member → String → Option Text
get_password_hash users id = hash_of (find (has_member_id id) users)

abbrev pub set_password : String → Text → Bool → List Member → List Member
set_password id hash pwned users =
    map
      (λ u.
        if u.id == id
        then record u {
          password_hash = some hash;
          password_pwned = pwned;
          must_change_password = false;
        }
        else u)
      users

abbrev pub confirms : Hashing → Text → Option Text → Bool
confirms h password none = false
confirms h password (some hash) = verify_password h password hash

unfoldable pub confirm_own_password : Hashing → List Member → String → Text → Bool
unfolding get_password_hash
confirm_own_password h users id password = confirms h password (get_password_hash users id)

module _ (h : Hashing) (env : Environment) (encrypt : Text → Text) (screen : Text → Screen)
    (now : ℕ) (me session : String) where
  abbrev pub totp_setup : Text → LoginState → LoginState × AccountReply
  totp_setup secret s = if totp_enabled env.decrypt s.totp me then (s, already_enabled) else (
    record s { totp = start_totp_enrolment encrypt now s.totp me secret },
    setup_started secret,
  )

  abbrev pub enable_at : List Text → LoginState → Option ℕ → LoginState × AccountReply
  enable_at codes s none = (s, wrong_code)
  enable_at codes s (some step) = (
    record s {
      totp = confirm_totp now s.totp me step;
      recovery = replace_recovery_codes env.upper env.hash_code s.recovery me codes;
    },
    codes_given codes,
  )

  abbrev pub enable_record :
      Text → List Text → LoginState → Option TotpRecord → LoginState × AccountReply
  enable_record code codes s none = (s, no_setup)
  enable_record code codes s (some r) =
      if is_confirmed (some r)
      then (s, already_enabled)
      else enable_at codes s (verify_totp env.hmac_sha1 env.upper r.secret code now)

  abbrev pub totp_enable : Text → List Text → LoginState → LoginState × AccountReply
  totp_enable code codes s =
      if is_empty code || ltb 16 (length code)
      then (s, malformed)
      else enable_record code codes s (get_totp env.decrypt s.totp me)

  abbrev pub totp_recovery_codes : Text → List Text → LoginState → LoginState × AccountReply
  totp_recovery_codes password codes s =
      if not (totp_enabled env.decrypt s.totp me)
      then (s, not_enabled)
      else if is_empty password
      then (s, malformed)
      else if not (confirm_own_password h s.users me password)
      then (s, bad_password)
      else (
        record s { recovery = replace_recovery_codes env.upper env.hash_code s.recovery me codes },
        codes_given codes,
      )

  abbrev pub totp_disable : Text → LoginState → LoginState × AccountReply
  totp_disable password s =
      if is_empty password
      then (s, malformed)
      else if not (confirm_own_password h s.users me password)
      then (s, bad_password)
      else (
        record s {
          totp = (disable_totp s.totp s.recovery me).0;
          recovery = (disable_totp s.totp s.recovery me).1;
          tickets = clear_mfa_tickets s.tickets me;
        },
        turned_off,
      )

  -- The end of a change of the password.
  abbrev pub store_password : Text → List ℕ → LoginState → LoginState × AccountReply
  store_password new salt s = (
    record s {
      users = set_password me (hash_password h salt new) (screen new).pwned s.users;
      sessions = (delete_other_sessions_for_user s.sessions me session).0;
    },
    password_changed (delete_other_sessions_for_user s.sessions me session).1,
  )

  abbrev pub is_some : Option String → Bool
  is_some none = false
  is_some (some x) = true

  abbrev pub try_password : Text → List ℕ → LoginState → LoginState × AccountReply
  try_password new salt s =
      if is_some (validate_password_strength new)
      then (s, weak_password)
      else if (screen new).blocked
      then (s, breached_password)
      else store_password new salt s

  -- What has to be shown of an account that has a password.
  abbrev pub with_hash :
      Option Text → Text → List ℕ → LoginState → Option Text → LoginState × AccountReply
  with_hash current new salt s none = try_password new salt s
  with_hash none new salt s (some hash) = (s, current_required)
  with_hash (some current) new salt s (some hash) =
      if not (verify_password h current hash)
      then (s, bad_password)
      else if current == new
      then (s, same_password)
      else try_password new salt s

  abbrev pub is_blank : Option Text → Bool
  is_blank none = false
  is_blank (some current) = is_empty current

  abbrev pub me_password : Option Text → Text → List ℕ → LoginState → LoginState × AccountReply
  me_password current new salt s =
      if is_blank current || (ltb (length new) 8 || ltb 256 (length new))
      then (s, weak_password)
      else with_hash current new salt s (get_password_hash s.users me)

  unfoldable pub handle : AccountRequest → LoginState → LoginState × AccountReply
  handle (sets_up secret) s = totp_setup secret s
  handle (enables code codes) s = totp_enable code codes s
  handle (renews_codes password codes) s = totp_recovery_codes password codes s
  handle (disables password) s = totp_disable password s
  handle (changes_password current new salt) s = me_password current new salt s
