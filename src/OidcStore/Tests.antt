-- ===== src/OidcStore/Tests.antt =====
-- Runs of the store of codes and tokens at concrete inputs.
use opennas.Base.{◌+◌, ◌≡◌, refl, none, some, [], ◌∷◌, arith, nat_eq, string_eq, list_eq}
use opennas.OidcStore.{
  AuthCode, AccessToken, OidcMaps, map_get, map_delete, map_set, map_keep, issue_code, consume_code,
  issue_access_token, get_access_token, prune_oidc,
}
use opennas.OidcStore.SingleUse.{issues, consumes, prunes, run, consume_code-issue_code}

abbrev asked : AuthCode
asked = record {
  user_id = "ann";
  client_id = "wiki";
  redirect_uri = "https://wiki/cb";
  scope = "openid";
  nonce = none;
  code_challenge = none;
  auth_time = 1;
  exp = 0;
}

abbrev granted : AccessToken
granted = record { user_id = "ann"; client_id = "wiki"; scope = "openid"; exp = 0 }

abbrev empty : OidcMaps
empty = record { codes = []; tokens = [] }

oidc_code : Unit {0}
unfolding map_get map_delete map_set map_keep issue_code consume_code issue_access_token
    get_access_token prune_oidc
oidc_code = tt

oidc_tests :
    ((consume_code 60099 (issue_code 100 empty "c" asked) "c").1
      ≡ some (record asked { exp = 60100 }))
    × ((consume_code 60100 (issue_code 100 empty "c" asked) "c").1 ≡ none)
    × ((get_access_token 3600099 (issue_access_token 100 empty "t" granted 3600).0 "t").1
        ≡ some (record granted { exp = 3600100 }))
    × (get_access_token 3600100 (issue_access_token 100 empty "t" granted 3600).0 "t"
        ≡ (empty, none))
    × (prune_oidc 60100 (issue_code 100 empty "c" asked) ≡ empty)
unfolding oidc_code
oidc_tests = (refl, refl, refl, refl, refl)

consume_code-issue_code_example :
    (let c : AuthCode = record asked { exp = 100 + 60000 } in
      let ready = run (issues "d" asked 150 ∷ prunes 200 ∷ []) (issue_code 100 empty "c" asked) in
      let (used, answer) = consume_code 300 ready "c" in
      (answer ≡ some c)
      × ((consume_code 400 (run (consumes "d" 350 ∷ []) used) "c").1 ≡ none)
      × ((consume_code 60100 (issue_code 100 empty "c" asked) "c").1 ≡ none))
consume_code-issue_code_example =
    consume_code-issue_code empty "c" asked 100 300 400 60100
      (issues "d" asked 150 ∷ prunes 200 ∷ []) (consumes "d" 350 ∷ []) (refl, (omega arith, tt))
      (refl, tt) (omega arith) (omega arith)
