-- ===== src/SignIn/Tests.antt =====
-- Runs of signing in at concrete inputs.
use opennas.Base.{
  ℕ, zero, suc, ◌-◌, ◌<◌, String, ◌≡◌, refl, ◌⊎◌, true, false, ◌||◌, Option, none, some, List, [],
  ◌∷◌, map, arith, if◌then◌else◌, ◌==◌, nat_eq, string_eq, list_eq, list_beq, Text, codes, is_empty,
  split, join, has_unit, starts_with,
}
use opennas.Files.Resolve.{trim, trim_start, trim_end}
use opennas.IpBans.{
  record_ip_failure, upsert_ip_attempt, clear_ip_failures, record_ban, upsert_ban, IpBan,
  list_recorded_bans, remove_ban,
}
use opennas.IpBans.Addresses.{is_bannable, address_in_cidr}
use opennas.LoginAttempts.{
  key, get_row, record_failure, record_success, lockout_remaining_seconds, next_failures,
  lock_after, upsert_attempt,
}
use opennas.LoginAttempts.Keys.{key_twice}
use opennas.Passwords.{Hashing, hash_password, verify_password, validate_password_strength}
use opennas.Sessions.{create_session, delete_other_sessions_for_user}
use opennas.SecondFactor.Codes.{
  base32_decode, decode_from, hotp, padded, first_match, current_step, verify_totp,
  normalize_recovery_code, hash_recovery_code,
}
use opennas.SecondFactor.Store.{
  TotpRow, TotpRecord, get_totp, totp_enabled, update_totp, note_totp_step, start_totp_enrolment,
  confirm_totp, disable_totp, insert_codes, replace_recovery_codes, count_unused_recovery_codes,
  create_mfa_ticket, peek_mfa_ticket, delete_ticket, consume_mfa_ticket, clear_mfa_tickets,
}
use opennas.SecondFactor.Login.{Member, Device, LoginState, Environment, login_totp}
use opennas.SignIn.Bans.{LiveBan, note_failed_attempt, current_bans, lift_ban}
use opennas.SignIn.Password.{
  bad_credentials, locked_out, mfa_required, opened, Arrival, get_user_row_by_username,
  login_password,
}
use opennas.SignIn.Checked.{login_password_no_hash}
use opennas.SignIn.Guessed.{Guess, guess, guess_all, AreRefused, login_password-locked}
use opennas.SignIn.Account.{
  disables, changes_password, bad_password, turned_off, password_changed, Screen, get_password_hash,
  confirm_own_password, handle,
}
use opennas.SignIn.Confirmed.{IsUntouched, Verifies, shown, handle-IsUntouched}

abbrev copies : ℕ → ℕ → List ℕ
copies zero b = []
copies (suc k) b = b ∷ copies k b

abbrev first : Text → ℕ
first [] = 0
first (c ∷ s) = c

abbrev toy : Hashing
toy = record {
  normalize = λ t. t;
  scrypt = λ p salt k n r q. copies k (first p);
  to_base64 = λ bytes. bytes;
  from_base64 = λ t. if t == codes "AAAA" then 0 ∷ 0 ∷ 0 ∷ [] else t;
}

abbrev env : Environment
env = record {
  hmac_sha1 = λ key message. 0 ∷ 0 ∷ 0 ∷ 0 ∷ [];
  upper = λ t. t;
  lower = λ t. t;
  decrypt = λ t. some t;
  hash_token = λ t. t;
  hash_code = λ t. "hash";
  session_ttl_ms = 1000;
}

abbrev device : Device
device = record { token = "tok"; user_agent = none; ip = none }

abbrev arrival : Arrival
arrival = record {
  ip = codes "10.0.0.9";
  fresh_ticket = "t9";
  trusted = [];
  reason = "why";
  device = device;
}

abbrev member : String → Option Text → Member
member name hash = record {
  id = name;
  username = codes name;
  is_disabled = false;
  last_login = none;
  password_hash = hash;
  password_pwned = false;
  must_change_password = false;
}

abbrev hash : Text
hash = codes "scrypt$1$1$1$$ss"

abbrev right : Text
right = codes "secret"

abbrev ann : Member
ann = member "ann" (some hash)

abbrev bob : Member
bob = member "bob" (some hash)

abbrev eve : Member
eve = member "eve" none

abbrev enrolled : TotpRow
enrolled = record {
  user_id = "ann";
  secret = codes "MZXW6";
  confirmed_at = some 1;
  created_at = 1;
  last_used_step = none;
}

abbrev before : LoginState
before = record {
  users = ann ∷ bob ∷ eve ∷ [];
  totp = enrolled ∷ [];
  recovery = [];
  tickets = [];
  attempts = [];
  sessions = [];
  ip_attempts = [];
  bans = [];
}

sign_in_code : Unit {0}
unfolding trim trim_start trim_end record_ip_failure upsert_ip_attempt clear_ip_failures record_ban
    upsert_ban list_recorded_bans remove_ban is_bannable address_in_cidr key get_row record_failure
    record_success lockout_remaining_seconds next_failures lock_after upsert_attempt hash_password
    verify_password validate_password_strength create_session delete_other_sessions_for_user
    base32_decode decode_from hotp padded first_match current_step verify_totp
    normalize_recovery_code hash_recovery_code get_totp totp_enabled update_totp note_totp_step
    start_totp_enrolment confirm_totp disable_totp insert_codes replace_recovery_codes
    count_unused_recovery_codes create_mfa_ticket peek_mfa_ticket delete_ticket consume_mfa_ticket
    clear_mfa_tickets login_totp note_failed_attempt current_bans lift_ban get_user_row_by_username
    login_password get_password_hash confirm_own_password handle split join starts_with has_unit
    list_beq
sign_in_code = tt

password_tests :
    ((login_password toy env 5 arrival (some (codes " Bob ", right)) before).1 ≡ opened "bob")
    × ((login_password toy env 5 arrival (some (codes "ann", right)) before).1
        ≡ mfa_required "t9" false)
    × ((login_password toy env 5 arrival (some (codes "bob", codes "x")) before).1
        ≡ bad_credentials)
    × ((login_password toy env 5 arrival (some (codes "zoe", right)) before).1 ≡ bad_credentials)
unfolding sign_in_code
password_tests = (refl, refl, refl, refl)

abbrev screen : Text → Screen
screen t = record { blocked = false; pwned = false }

account_tests :
    ((handle toy env (λ t. t) screen 5 "ann" "k" (disables right) before).1 ≡ turned_off)
    × ((handle toy env (λ t. t) screen 5 "ann" "k" (disables (codes "x")) before).1 ≡ bad_password)
    × ((handle toy env
          (λ t. t)
          screen
          5
          "ann"
          "k"
          (changes_password (some right) (codes "new secret") (1 ∷ []))
          before).1
        ≡ password_changed 0)
unfolding sign_in_code
account_tests = (refl, refl, refl)

abbrev dropped : LiveBan
dropped = record { address = codes "1.1.1.1"; seconds_left = 2 }

ban_tests :
    (map
        (λ (b : IpBan). b.expires_at)
        (current_bans 5 "why" false (dropped ∷ dropped ∷ []) []).1.bans
      ≡ 2005 ∷ [])
    × (lift_ban (λ t. t) [] (codes "1.1.1.1") ≡ [])
unfolding sign_in_code
ban_tests = (refl, refl)

formed_eve : (is_empty (trim (codes "eve")) || is_empty (codes "@")) ≡ false
unfolding sign_in_code
formed_eve = refl

free_eve : lockout_remaining_seconds env.lower 5 before.attempts (trim (codes "eve")) ≡ 0
unfolding sign_in_code
free_eve = refl

row_eve : get_user_row_by_username before.users (trim (codes "eve")) ≡ some eve
unfolding sign_in_code
row_eve = refl

off_eve : totp_enabled env.decrypt before.totp "eve" ≡ false
unfolding sign_in_code
off_eve = refl

-- Hashing where the password "@" happens to give zero bytes.
abbrev unlucky : Hashing
unlucky = record toy { scrypt = λ p salt k n r q. copies k (first p - 64) }

zeros_of : unlucky.from_base64 (codes "AAAA") ≡ 0 ∷ 0 ∷ 0 ∷ []
unfolding sign_in_code
zeros_of = refl

login_password_no_hash_example :
    (login_password unlucky env 5 arrival (some (codes "eve", codes "@")) before).1 ≡ opened "eve"
login_password_no_hash_example =
    login_password_no_hash unlucky env 5 arrival (codes "eve") (codes "@") before eve formed_eve
      free_eve row_eve refl refl off_eve zeros_of refl

abbrev record_ann : TotpRecord
record_ann = record { secret = codes "MZXW6"; confirmed_at = some 1; last_used_step = none }

abbrev wrong_at : ℕ → Guess
wrong_at t = record { time = t; arrival = arrival; raw = codes "bob"; password = codes "x" }

abbrev wrongs : List Guess
wrongs =
    wrong_at 2 ∷ wrong_at 3 ∷ wrong_at 4 ∷ wrong_at 5 ∷ wrong_at 6 ∷ wrong_at 7 ∷ wrong_at 8 ∷ []

no_row : get_row env.lower before.attempts (codes "bob") ≡ none
unfolding sign_in_code
no_row = refl

refused : AreRefused toy env (codes "bob") (wrong_at 1 ∷ wrongs) before
unfolding sign_in_code
refused = (
  refl,
  refl,
  (
    refl,
    refl,
    (refl, refl, (refl, refl, (refl, refl, (refl, refl, (refl, refl, (refl, refl, tt)))))),
  ),
)

same_name : trim (codes "bob") ≡ codes "bob"
unfolding sign_in_code
same_name = refl

formed_bob : (is_empty (trim (codes "bob")) || is_empty right) ≡ false
unfolding sign_in_code
formed_bob = refl

abbrev lucky : Guess
lucky = record { time = 9; arrival = arrival; raw = codes "bob"; password = right }

login_password-locked_example :
    (let late = guess_all toy env (wrong_at 1 ∷ wrongs) before in
      ((guess toy env lucky late).0 ≡ late)
      × (seconds : ℕ) × (0 < seconds)
      × ((guess toy env lucky late).1 ≡ locked_out seconds))
login_password-locked_example =
    login_password-locked toy env key_twice (wrong_at 1) wrongs (codes "bob") before lucky no_row
      refused (omega arith) (omega arith) (omega arith) same_name formed_bob

hash_ann : get_password_hash before.users "ann" ≡ some hash
unfolding sign_in_code
hash_ann = refl

two_ann : totp_enabled env.decrypt before.totp "ann" ≡ true
unfolding sign_in_code
two_ann = refl

handle-IsUntouched_example :
    IsUntouched before (handle toy env (λ t. t) screen 5 "ann" "k" (disables (codes "x")) before).0
    ⊎ Verifies toy hash (shown (disables (codes "x")))
handle-IsUntouched_example =
    handle-IsUntouched toy env (λ t. t) screen 5 "ann" "k" (disables (codes "x")) hash before
      hash_ann two_ann
