-- ===== src/SecondFactor/Store.antt =====
-- apps/api/src/db/totp.ts: enrolments, recovery codes and tickets. `encryptSecret`, `decryptSecret` and
-- `hashToken` of db/secrets.ts and SHA-256 are arguments.
use opennas.Base.{
  ℕ, ◌+◌, ◌-◌, String, Bool, true, false, ◌&&◌, ◌||◌, not, Option, none, some, List, [], ◌∷◌, ◌++◌,
  if◌then◌else◌, leb, ltb, ◌==◌, nat_eq, string_eq, find, keep, count, Text, is_empty,
}
use opennas.SecondFactor.Codes.{normalize_recovery_code, hash_recovery_code}

pub record TotpRow : Type 0 where
  pub user_id : String
  pub secret : Text
  pub confirmed_at : Option ℕ
  pub created_at : ℕ
  pub last_used_step : Option ℕ

pub record TotpRecord : Type 0 where
  pub secret : Text
  pub confirmed_at : Option ℕ
  pub last_used_step : Option ℕ

pub record RecoveryRow : Type 0 where
  pub user_id : String
  pub code_hash : String
  pub used_at : Option ℕ

pub record TicketRow : Type 0 where
  pub id : String
  pub user_id : String
  pub created_at : ℕ
  pub attempts : ℕ

abbrev pub ticket_ttl_ms : ℕ
ticket_ttl_ms = 300000

abbrev pub ticket_max_attempts : ℕ
ticket_max_attempts = 5

abbrev pub has_user : String → TotpRow → Bool
has_user user r = r.user_id == user

abbrev pub read_totp : (Text → Option Text) → Option TotpRow → Option TotpRecord
read_totp decrypt none = none
read_totp decrypt (some r) = elim (decrypt r.secret) [
  | none ↦ none
  | some secret ↦
      some (record {
        secret = secret;
        confirmed_at = r.confirmed_at;
        last_used_step = r.last_used_step;
      })
]

unfoldable pub get_totp : (Text → Option Text) → List TotpRow → String → Option TotpRecord
get_totp decrypt table user = read_totp decrypt (find (has_user user) table)

abbrev pub is_confirmed : Option TotpRecord → Bool
is_confirmed none = false
is_confirmed (some r) = elim r.confirmed_at [ none ↦ false | some t ↦ true ]

unfoldable pub totp_enabled : (Text → Option Text) → List TotpRow → String → Bool
totp_enabled decrypt table user = is_confirmed (get_totp decrypt table user)

unfoldable pub start_totp_enrolment :
    (Text → Text) → ℕ → List TotpRow → String → Text → List TotpRow
start_totp_enrolment encrypt now table user secret =
    keep (λ r. not (has_user user r)) table
    ++ record {
      user_id = user;
      secret = encrypt secret;
      confirmed_at = none;
      created_at = now;
      last_used_step = none;
    }
      ∷ []

-- UPDATE … WHERE user_id.
unfoldable pub update_totp : String → (TotpRow → TotpRow) → List TotpRow → List TotpRow
update_totp user f [] = []
update_totp user f (r ∷ table) = (if has_user user r then f r else r) ∷ update_totp user f table

unfoldable pub confirm_totp : ℕ → List TotpRow → String → ℕ → List TotpRow
unfolding update_totp
confirm_totp now table user step =
    update_totp user (λ r. record r { confirmed_at = some now; last_used_step = some step }) table

unfoldable pub note_totp_step : List TotpRow → String → ℕ → List TotpRow
unfolding update_totp
note_totp_step table user step =
    update_totp user (λ r. record r { last_used_step = some step }) table

abbrev pub is_recovery_of : String → RecoveryRow → Bool
is_recovery_of user r = r.user_id == user

unfoldable pub disable_totp :
    List TotpRow → List RecoveryRow → String → List TotpRow × List RecoveryRow
disable_totp table recovery user =
    (keep (λ r. not (has_user user r)) table, keep (λ r. not (is_recovery_of user r)) recovery)

abbrev pub is_unused : RecoveryRow → Bool
is_unused r = elim r.used_at [ none ↦ true | some t ↦ false ]

abbrev pub is_code : String → String → RecoveryRow → Bool
is_code user hash r = r.user_id == user && r.code_hash == hash

-- INSERT OR REPLACE.
unfoldable pub insert_codes :
    (Text → Text) → (Text → String) → String → List Text → List RecoveryRow → List RecoveryRow
insert_codes upper sha256 user [] table = table
insert_codes upper sha256 user (code ∷ codes) table = insert_codes upper sha256 user codes (
    keep (λ r. not (is_code user (hash_recovery_code upper sha256 code) r)) table
    ++ record { user_id = user; code_hash = hash_recovery_code upper sha256 code; used_at = none }
      ∷ [])

unfoldable pub replace_recovery_codes :
    (Text → Text) → (Text → String) → List RecoveryRow → String → List Text → List RecoveryRow
unfolding insert_codes
replace_recovery_codes upper sha256 table user codes =
    insert_codes upper sha256 user codes (keep (λ r. not (is_recovery_of user r)) table)

unfoldable pub count_unused_recovery_codes : List RecoveryRow → String → ℕ
count_unused_recovery_codes table user = count (λ r. is_recovery_of user r && is_unused r) table

abbrev pub spend : ℕ → RecoveryRow → RecoveryRow
spend now r = record r { used_at = some now }

unfoldable pub spend_codes : (RecoveryRow → Bool) → ℕ → List RecoveryRow → List RecoveryRow
spend_codes p now [] = []
spend_codes p now (r ∷ table) = (if p r then spend now r else r) ∷ spend_codes p now table

unfoldable pub consume_recovery_code :
    (Text → Text) → (Text → String) → ℕ → List RecoveryRow → String → Text → List RecoveryRow × Bool
unfolding spend_codes
consume_recovery_code upper sha256 now table user code =
    let p =
      λ (r : RecoveryRow). is_code user (hash_recovery_code upper sha256 code) r && is_unused r in
    if is_empty (normalize_recovery_code upper code)
    then (table, false)
    else (spend_codes p now table, count p table == 1)

abbrev pub has_id : String → TicketRow → Bool
has_id id t = t.id == id

unfoldable pub create_mfa_ticket :
    (String → String) → ℕ → List TicketRow → String → String → List TicketRow
create_mfa_ticket hash_token now table ticket user =
    table ++ record { id = hash_token ticket; user_id = user; created_at = now; attempts = 0 } ∷ []

abbrev pub is_spent : ℕ → TicketRow → Bool
is_spent now t = ltb ticket_ttl_ms (now - t.created_at) || leb ticket_max_attempts t.attempts

abbrev pub ticket_user : ℕ → Option TicketRow → Option String
ticket_user now none = none
ticket_user now (some t) = if is_spent now t then none else some t.user_id

abbrev pub is_spent_row : ℕ → Option TicketRow → Bool
is_spent_row now none = false
is_spent_row now (some t) = is_spent now t

unfoldable pub delete_ticket : String → List TicketRow → List TicketRow
delete_ticket id table = keep (λ t. not (has_id id t)) table

unfoldable pub peek_mfa_ticket :
    (String → String) → ℕ → List TicketRow → String → List TicketRow × Option String
peek_mfa_ticket hash_token now table ticket =
    let id = hash_token ticket in
    let row = find (has_id id) table in
    ((if is_spent_row now row then delete_ticket id table else table), ticket_user now row)

unfoldable pub count_attempt : String → List TicketRow → List TicketRow
count_attempt id [] = []
count_attempt id (t ∷ table) =
    (if has_id id t then record t { attempts = t.attempts + 1 } else t) ∷ count_attempt id table

unfoldable pub fail_mfa_ticket : (String → String) → List TicketRow → String → List TicketRow
unfolding count_attempt
fail_mfa_ticket hash_token table ticket =
    let id = hash_token ticket in
    keep (λ t. not (has_id id t && leb ticket_max_attempts t.attempts)) (count_attempt id table)

unfoldable pub consume_mfa_ticket : (String → String) → List TicketRow → String → List TicketRow
unfolding delete_ticket
consume_mfa_ticket hash_token table ticket = delete_ticket (hash_token ticket) table

unfoldable pub clear_mfa_tickets : List TicketRow → String → List TicketRow
clear_mfa_tickets table user = keep (λ t. not (t.user_id == user)) table
