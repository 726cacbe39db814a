-- ===== src/SecondFactor/Tests.antt =====
-- Runs of the second factor at concrete inputs.
use opennas.Base.{
  ℕ, ◌+◌, ◌-◌, ◌<◌, ◌≡◌, refl, true, false, ◌&&◌, none, some, [], ◌∷◌, ltb, leb, if◌then◌else◌,
  nat_eq, string_eq, list_eq, list_beq, Text, codes,
}
use opennas.SecondFactor.Codes.{
  base32_encode, base32_decode, hotp, current_step, verify_totp, emit, encode_from, decode_from,
  padded, first_match, normalize_recovery_code, hash_recovery_code,
}
use opennas.SecondFactor.Store.{
  TotpRecord, get_totp, totp_enabled, start_totp_enrolment, update_totp, confirm_totp,
  note_totp_step, disable_totp, insert_codes, replace_recovery_codes, count_unused_recovery_codes,
  spend_codes, consume_recovery_code, create_mfa_ticket, delete_ticket, peek_mfa_ticket,
  count_attempt, fail_mfa_ticket, consume_mfa_ticket, clear_mfa_tickets, ticket_max_attempts,
  ticket_ttl_ms,
}
use opennas.SecondFactor.Login.{
  Member, Device, LoginState, Environment, signed_in, login_totp, bad_code, replayed,
}
use opennas.SecondFactor.Proven.{Proven, login_totp_lem}
use opennas.SecondFactor.OneUse.{login_totp_twice, consume_recovery_code_lem}
use opennas.SecondFactor.Budget.{failed, peek_mfa_ticket-failed}
use opennas.SecondFactor.Refused.{LeavesSessions, login_totp-LeavesSessions}
use opennas.Sessions.{create_session}
use opennas.LoginAttempts.{record_failure, record_success}

abbrev env : Environment
env = record {
  hmac_sha1 = λ key message. 0 ∷ 0 ∷ 0 ∷ 0 ∷ [];
  upper = λ t. t;
  lower = λ t. t;
  decrypt = λ t. some t;
  hash_token = λ t. t;
  hash_code = λ t. "hash";
  session_ttl_ms = 1000;
}

abbrev device : Device
device = record { token = "tok"; user_agent = none; ip = none }

abbrev ann : Member
ann = record {
  id = "ann";
  username = codes "ann";
  is_disabled = false;
  last_login = none;
  password_hash = none;
  password_pwned = false;
  must_change_password = false;
}

abbrev before : LoginState
before = record {
  users = ann ∷ [];
  totp =
      record {
        user_id = "ann";
        secret = codes "MZXW6";
        confirmed_at = some 1;
        created_at = 1;
        last_used_step = none;
      }
      ∷ [];
  recovery = record { user_id = "ann"; code_hash = "hash"; used_at = none } ∷ [];
  tickets =
      record { id = "t1"; user_id = "ann"; created_at = 60000; attempts = 0 }
      ∷ record { id = "t2"; user_id = "ann"; created_at = 60000; attempts = 0 }
      ∷ [];
  attempts = [];
  sessions = [];
  ip_attempts = [];
  bans = [];
}

abbrev zeros : Text
zeros = codes "000000"

factor_code : Unit {0}
unfolding base32_encode base32_decode hotp current_step verify_totp emit encode_from decode_from
    padded first_match normalize_recovery_code get_totp totp_enabled start_totp_enrolment
    update_totp confirm_totp note_totp_step disable_totp insert_codes replace_recovery_codes
    count_unused_recovery_codes spend_codes consume_recovery_code create_mfa_ticket delete_ticket
    peek_mfa_ticket count_attempt fail_mfa_ticket consume_mfa_ticket clear_mfa_tickets login_totp
    create_session record_failure record_success
factor_code = tt

-- The vector of RFC 4648, and its inverse.
base32_tests :
    (base32_encode (codes "foobar") ≡ codes "MZXW6YTBOI")
    × (base32_decode (λ t. t) (codes "MZXW 6YTB-OI==") ≡ some (codes "foobar"))
    × (base32_decode (λ t. t) (codes "MZX1") ≡ none)
unfolding factor_code list_beq hash_recovery_code
base32_tests = (refl, refl, refl)

abbrev after : LoginState
after = (login_totp env 60000 device (some ("t1", zeros)) before).0

login_tests :
    ((login_totp env 60000 device (some ("t1", zeros)) before).1 ≡ signed_in "ann" "totp")
    × ((login_totp env 60000 device (some ("t1", codes "12345")) before).1
        ≡ signed_in "ann" "recovery-code")
    × ((login_totp env 60000 device (some ("t1", codes "-")) before).1 ≡ bad_code)
    × ((login_totp env 60000 device (some ("t2", zeros)) after).1 ≡ replayed)
    × ((login_totp env 120000 device (some ("t2", zeros)) after).1 ≡ signed_in "ann" "totp")
unfolding factor_code list_beq hash_recovery_code
login_tests = (refl, refl, refl, refl, refl)

abbrev matches : verify_totp env.hmac_sha1 env.upper (codes "MZXW6") zeros 60000 ≡ some 1
unfolding factor_code list_beq hash_recovery_code
matches = refl

abbrev signs_in :
    login_totp env 60000 device (some ("t1", zeros)) before ≡ (after, signed_in "ann" "totp")
unfolding factor_code list_beq hash_recovery_code
signs_in = refl

login_totp_lem_example : Proven env 60000 "t1" zeros before after "ann" "totp"
login_totp_lem_example =
    login_totp_lem env 60000 device "t1" zeros before after "ann" "totp" signs_in

abbrev at_last : LoginState
at_last = (login_totp env 120000 device (some ("t2", zeros)) after).0

abbrev signs_in_again :
    login_totp env 120000 device (some ("t2", zeros)) after ≡ (at_last, signed_in "ann" "totp")
unfolding factor_code list_beq hash_recovery_code
signs_in_again = refl

login_totp_twice_example :
    (first second : TotpRecord) × (m n : ℕ) × (get_totp env.decrypt before.totp "ann" ≡ some first)
    × (verify_totp env.hmac_sha1 env.upper first.secret zeros 60000 ≡ some m)
    × (get_totp env.decrypt after.totp "ann" ≡ some second)
    × (verify_totp env.hmac_sha1 env.upper second.secret zeros 120000 ≡ some n)
    × (m < n)
login_totp_twice_example =
    login_totp_twice env 60000 120000 device device "t1" "t2" zeros zeros before after after at_last
      "ann" signs_in refl signs_in_again

consume_recovery_code_lem_example :
    (let (left, spent) =
        consume_recovery_code env.upper env.hash_code 5 before.recovery "ann" zeros in
      ((consume_recovery_code env.upper env.hash_code 6 left "ann" zeros).1 ≡ false)
      × (spent ≡ true
          → count_unused_recovery_codes left "ann" + 1
            ≡ count_unused_recovery_codes before.recovery "ann"))
consume_recovery_code_lem_example =
    consume_recovery_code_lem env.upper env.hash_code 5 6 before.recovery "ann" zeros

peek_mfa_ticket-failed_example :
    (peek_mfa_ticket env.hash_token 100
      (failed env.hash_token "t3" 4 (create_mfa_ticket env.hash_token 0 before.tickets "t3" "bob"))
      "t3").1
    ≡ (if ltb 4 ticket_max_attempts && leb (100 - 0) ticket_ttl_ms then some "bob" else none)
peek_mfa_ticket-failed_example =
    peek_mfa_ticket-failed env.hash_token "t3" "bob" 0 100 4 before.tickets refl

login_totp-LeavesSessions_example :
    LeavesSessions before (login_totp env 60000 device (some ("t2", codes "-")) before)
login_totp-LeavesSessions_example =
    login_totp-LeavesSessions env 60000 device (some ("t2", codes "-")) before
