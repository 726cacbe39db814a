-- ===== src/OidcStore.antt =====
-- apps/api/src/oidc/store.ts: authorisation codes and access tokens in memory. The random text of a new one is an
-- argument. A `Map` is the list of its entries.
use opennas.Base.{
  ℕ, ◌+◌, ◌*◌, String, Bool, true, false, not, Option, none, some, List, [], ◌∷◌, if◌then◌else◌,
  leb, ltb, ◌==◌, string_eq, keep,
}
pub mod SingleUse
mod Tests

pub record AuthCode : Type 0 where
  pub user_id : String
  pub client_id : String
  pub redirect_uri : String
  pub scope : String
  pub nonce : Option String
  pub code_challenge : Option String
  pub auth_time : ℕ
  pub exp : ℕ

pub record AccessToken : Type 0 where
  pub user_id : String
  pub client_id : String
  pub scope : String
  pub exp : ℕ

pub record OidcMaps : Type 0 where
  pub codes : List (String × AuthCode)
  pub tokens : List (String × AccessToken)

-- `get`, `delete` and `set` of a Map.
unfoldable pub map_get {ℓ} : {A : Type ℓ} → List (String × A) → String → Option A
map_get [] key = none
map_get ((k, v) ∷ entries) key = let rest = map_get entries key in if k == key then some v else rest

unfoldable pub map_delete {ℓ} : {A : Type ℓ} → List (String × A) → String → List (String × A)
map_delete [] key = []
map_delete ((k, v) ∷ entries) key =
    let rest = map_delete entries key in if k == key then rest else (k, v) ∷ rest

unfoldable pub map_set {ℓ} : {A : Type ℓ} → List (String × A) → String → A → List (String × A)
map_set [] key value = (key, value) ∷ []
map_set ((k, v) ∷ entries) key value =
    let rest = map_set entries key value in if k == key then (k, value) ∷ entries else (k, v) ∷ rest

-- The entries that a test leaves.
unfoldable pub map_keep {ℓ} : {A : Type ℓ} → (A → Bool) → List (String × A) → List (String × A)
map_keep p [] = []
map_keep p ((k, v) ∷ entries) = let rest = map_keep p entries in if p v then (k, v) ∷ rest else rest

unfoldable pub issue_code : ℕ → OidcMaps → String → AuthCode → OidcMaps
unfolding map_set
issue_code now m code data_of = record m {
  codes = map_set m.codes code (record data_of { exp = now + 60000 });
}

abbrev pub unexpired : ℕ → Option AuthCode → Option AuthCode
unexpired now none = none
unexpired now (some c) = if ltb now c.exp then some c else none

unfoldable pub consume_code : ℕ → OidcMaps → String → OidcMaps × Option AuthCode
unfolding map_get map_delete
consume_code now m code =
    (record m { codes = map_delete m.codes code }, unexpired now (map_get m.codes code))

unfoldable pub issue_access_token : ℕ → OidcMaps → String → AccessToken → ℕ → OidcMaps × ℕ
unfolding map_set
issue_access_token now m token data_of ttl_sec =
    let exp = now + ttl_sec * 1000 in
    (record m { tokens = map_set m.tokens token (record data_of { exp = exp }) }, exp)

abbrev pub drop_expired :
    ℕ → String → List (String × AccessToken) → Option AccessToken → List (String × AccessToken)
drop_expired now token tokens none = tokens
drop_expired now token tokens (some t) = if leb t.exp now then map_delete tokens token else tokens

abbrev pub live_token : ℕ → Option AccessToken → Option AccessToken
live_token now none = none
live_token now (some t) = if leb t.exp now then none else some t

unfoldable pub get_access_token : ℕ → OidcMaps → String → OidcMaps × Option AccessToken
unfolding map_get map_delete
get_access_token now m token =
    let found = map_get m.tokens token in
    (record m { tokens = drop_expired now token m.tokens found }, live_token now found)

unfoldable pub prune_oidc : ℕ → OidcMaps → OidcMaps
unfolding map_keep
prune_oidc now m = record {
  codes = map_keep (λ c. not (leb c.exp now)) m.codes;
  tokens = map_keep (λ t. not (leb t.exp now)) m.tokens;
}
