-- ===== src/Sessions.antt =====
-- apps/api/src/db/sessions.ts: sessions. The hash of a token (`hashToken` of db/secrets.ts, a SHA-256) and the
-- random token are arguments; the list of methods is stored as JSON text, which reads back as it was.
pub mod Lifetime
mod Tests
use opennas.Base.{
  ℕ, ◌+◌, ◌*◌, ltb, leb, String, Bool, true, false, not, ◌&&◌, if◌then◌else◌, Option, none, some,
  List, [], ◌∷◌, ◌++◌, ◌==◌, string_eq, find, keep, any, count,
}

pub record SessionRow : Type 0 where
  pub id : String
  pub user_id : String
  pub auth_methods : List String
  pub user_agent : Option String
  pub ip : Option String
  pub created_at : ℕ
  pub expires_at : ℕ

pub record SessionRecord : Type 0 where
  pub id : String
  pub user_id : String
  pub auth_methods : List String
  pub created_at : ℕ
  pub expires_at : ℕ

unfoldable pub to_record : SessionRow → SessionRecord
to_record r = record {
  id = r.id;
  user_id = r.user_id;
  auth_methods = r.auth_methods;
  created_at = r.created_at;
  expires_at = r.expires_at;
}

abbrev pub has_id : String → SessionRow → Bool
has_id id r = r.id == id

abbrev pub is_of_user : String → SessionRow → Bool
is_of_user user r = r.user_id == user

abbrev pub is_autologin : SessionRow → Bool
is_autologin r = any (λ m. m == "autologin") r.auth_methods

abbrev pub remove_where : (SessionRow → Bool) → List SessionRow → List SessionRow
remove_where gone table = keep (λ r. not (gone r)) table

unfoldable pub delete_session : List SessionRow → String → List SessionRow
delete_session table id = remove_where (has_id id) table

-- `OPENNAS_SESSION_TTL_HOURS` is seven days unless the environment says otherwise.
unfoldable pub create_session :
    (String → String)
    → ℕ
    → ℕ
    → List SessionRow
    → String
    → String
    → List String
    → Option String
    → Option String
    → List SessionRow
create_session hash_token session_ttl_ms now table token user_id auth_methods user_agent ip =
    table
    ++ record {
      id = hash_token token;
      user_id = user_id;
      auth_methods = auth_methods;
      user_agent = user_agent;
      ip = ip;
      created_at = now;
      expires_at = now + session_ttl_ms;
    }
      ∷ []

-- What a row found says at a time, and whether it goes.
abbrev pub valid_record : ℕ → Option SessionRow → Option SessionRecord
valid_record now none = none
valid_record now (some r) = if leb r.expires_at now then none else some (to_record r)

abbrev pub is_expired : ℕ → Option SessionRow → Bool
is_expired now none = false
is_expired now (some r) = leb r.expires_at now

unfoldable pub get_valid_session :
    (String → String) → ℕ → List SessionRow → String → List SessionRow × Option SessionRecord
get_valid_session hash_token now table token =
    let id = hash_token token in
    let row = find (has_id id) table in
    ((if is_expired now row then delete_session table id else table), valid_record now row)

unfoldable pub delete_autologin_sessions : List SessionRow → List SessionRow × ℕ
delete_autologin_sessions table = (remove_where is_autologin table, count is_autologin table)

unfoldable pub delete_all_for_user : List SessionRow → String → List SessionRow
delete_all_for_user table user = remove_where (is_of_user user) table

abbrev pub is_owned : String → String → SessionRow → Bool
is_owned user id r = r.id == id && r.user_id == user

unfoldable pub delete_owned_session : List SessionRow → String → String → List SessionRow × Bool
delete_owned_session table user id =
    (remove_where (is_owned user id) table, ltb 0 (count (is_owned user id) table))

abbrev pub is_other : String → String → SessionRow → Bool
is_other user kept r = r.user_id == user && not (r.id == kept)

unfoldable pub delete_other_sessions_for_user :
    List SessionRow → String → String → List SessionRow × ℕ
delete_other_sessions_for_user table user kept =
    (remove_where (is_other user kept) table, count (is_other user kept) table)
