-- ===== src/Sessions/Tests.antt =====
-- Runs of the functions on sessions, and the theorems there.
use mathlib.Core.Path.{subst}
use text.Mathlib.TextEquality.{eq_iff}
use opennas.Base.{
  ◌≤◌, String, ◌≡◌, refl, ◌≢◌, ◌⊎◌, inl, inr, false, none, some, List, [], ◌∷◌, arith, Bool-cases,
  ◌==◌, nat_eq, string_eq, list_eq, count,
}
use opennas.Sessions.{
  SessionRow, to_record, has_id, delete_session, create_session, get_valid_session,
  delete_autologin_sessions, delete_all_for_user, delete_owned_session,
  delete_other_sessions_for_user,
}
use opennas.Sessions.Lifetime.{HasKey, delete_other_sessions_lem}

abbrev row : String → String → String → SessionRow
row id user method = record {
  id = id;
  user_id = user;
  auth_methods = method ∷ [];
  user_agent = none;
  ip = none;
  created_at = 0;
  expires_at = 100;
}

abbrev table : List SessionRow
table = row "a1" "ann" "password" ∷ row "a2" "ann" "autologin" ∷ row "b1" "bob" "passkey" ∷ []

session_code : Unit {0}
unfolding to_record delete_session create_session get_valid_session delete_autologin_sessions
    delete_all_for_user delete_owned_session delete_other_sessions_for_user
session_code = tt

session_tests :
    ((get_valid_session (λ t. t) 99 table "a1").1 ≡ some (to_record (row "a1" "ann" "password")))
    × ((get_valid_session (λ t. t) 100 table "b1")
        ≡ (row "a1" "ann" "password" ∷ row "a2" "ann" "autologin" ∷ [], none))
    × (delete_autologin_sessions table
        ≡ (row "a1" "ann" "password" ∷ row "b1" "bob" "passkey" ∷ [], 1))
    × (delete_all_for_user table "ann" ≡ row "b1" "bob" "passkey" ∷ [])
    × (delete_owned_session table "bob" "a1" ≡ (table, false))
    × (delete_other_sessions_for_user table "ann" "a1"
        ≡ (row "a1" "ann" "password" ∷ row "b1" "bob" "passkey" ∷ [], 1))
unfolding session_code
session_tests = (refl, refl, refl, refl, refl, refl)

table-HasKey : HasKey table
table-HasKey id = elim (Bool-cases ("a1" == id)) [
  | inl first ↦ subst (λ x. count (has_id x) table ≤ 1) ((eq_iff "a1" id).0 first) (omega arith)
  | inr a ↦ elim (Bool-cases ("a2" == id)) [
    | inl second ↦ subst (λ x. count (has_id x) table ≤ 1) ((eq_iff "a2" id).0 second) (omega arith)
    | inr b ↦ ground arith
  ]
]

delete_other_sessions_lem_example :
    (let r = row "a2" "ann" "autologin" in
      let others = (delete_other_sessions_for_user table "ann" "a1").0 in
      let one = (delete_owned_session table "ann" "a1").0 in
      (((r.user_id ≡ "ann")
          × (r.id ≢ "a1")
          × ((get_valid_session (λ t. t) 60 others "a2").1 ≡ none))
        ⊎ (((r.user_id ≢ "ann") ⊎ (r.id ≡ "a1"))
            × ((get_valid_session (λ t. t) 60 others "a2").1
                ≡ (get_valid_session (λ t. t) 60 table "a2").1)))
      × (((r.user_id ≡ "ann") × (r.id ≡ "a1") × ((get_valid_session (λ t. t) 60 one "a2").1 ≡ none))
          ⊎ (((r.user_id ≢ "ann") ⊎ (r.id ≢ "a1"))
              × ((get_valid_session (λ t. t) 60 one "a2").1
                  ≡ (get_valid_session (λ t. t) 60 table "a2").1))))
delete_other_sessions_lem_example =
    delete_other_sessions_lem (λ t. t) 60 table "a2" "ann" "a1" (row "a2" "ann" "autologin")
      table-HasKey refl
