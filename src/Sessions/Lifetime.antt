-- ===== src/Sessions/Lifetime.antt =====
-- How long a session lasts, and which ones a sign-out ends.
use text.Mathlib.TextEquality.{eq_iff}
use opennas.Base.{
  ℕ, ◌+◌, ◌≤◌, String, ◌≡◌, refl, sym, ap, ◌∙◌, ◌≢◌, ◌⊎◌, inl, inr, Bool, true, false, Option, none,
  some, List, [], ◌∷◌, ◌++◌, arith, ltb, if◌then◌else◌, Bool-cases, ◌==◌, nat_eq, string_eq,
  list_eq, find, All, keep_short, clash, count,
}
use opennas.Sessions.{
  SessionRow, SessionRecord, to_record, has_id, remove_where, create_session, valid_record,
  get_valid_session, is_owned, delete_owned_session, is_other, delete_other_sessions_for_user,
}

-- The ids of the rows differ: they are the table's key.
abbrev pub HasKey : List SessionRow → Type 0
HasKey table = (id : String) → count (has_id id) table ≤ 1

-- Whether a row found is one that goes.
abbrev pub unless_gone : (SessionRow → Bool) → Option SessionRow → Option SessionRow
unless_gone gone none = none
unless_gone gone (some r) = if gone r then none else some r

find-remove_where :
    (gone : SessionRow → Bool) (id : String) (table : List SessionRow)
    → count (has_id id) table ≤ 1
    → find (has_id id) (remove_where gone table) ≡ unless_gone gone (find (has_id id) table)
find-remove_where gone id [] h = refl
find-remove_where gone id (r ∷ table) h = elim (Bool-cases (r.id == id)) [
  | inl hit ↦ elim (Bool-cases (gone r)) [
    | inl out ↦
        let rest = find-none_of id table (keep_short (has_id id) table (ground arith)) in
        rw (hit, out) (find-remove_where gone id table (ground arith) ∙ ap (unless_gone gone) rest)
    | inr stays ↦ rw (hit, stays, hit)
  ]
  | inr miss ↦ elim (Bool-cases (gone r)) [
    | inl out ↦ rw (miss, out) (find-remove_where gone id table (ground arith))
    | inr stays ↦ rw (miss, stays, miss) (find-remove_where gone id table (ground arith))
  ]
]
  where
    find-none_of :
        (id : String) (table : List SessionRow)
        → All (λ r. has_id id r ≡ false) table
        → find (has_id id) table ≡ none
    find-none_of id [] h = refl
    find-none_of id (r ∷ table) h = rw h.0 (find-none_of id table h.1)

append_found :
    (id : String) (table : List SessionRow) (row : SessionRow)
    → find (has_id id) table ≡ none
    → (row.id == id) ≡ true
    → find (has_id id) (table ++ row ∷ []) ≡ some row
append_found id [] row h hit = rw hit
append_found id (r ∷ table) row h hit = elim (Bool-cases (r.id == id)) [
  | inl here ↦ let some_r = rw here at h in absurd cc
  | inr miss ↦ rw miss (append_found id table row (rw miss at h) hit)
]

append_other :
    (id : String) (table : List SessionRow) (row : SessionRow)
    → (row.id == id) ≡ false
    → find (has_id id) (table ++ row ∷ []) ≡ find (has_id id) table
append_other id [] row h = rw h
append_other id (r ∷ table) row h = rw (append_other id table row h)

-- A session answers to its token from its start until its time is over, and not from then on; and starting
-- it changes no session of another token. The hash of the token is new.
get_valid_session-create_session :
    (hash_token : String → String) (ttl now later : ℕ) (table : List SessionRow)
    (token other user_id : String) (methods : List String) (user_agent ip : Option String)
    → find (has_id (hash_token token)) table ≡ none
    → (hash_token token == hash_token other) ≡ false
    → (let after = create_session hash_token ttl now table token user_id methods user_agent ip in
        ((get_valid_session hash_token later after token).1 ≡ (
          if ltb later (now + ttl)
          then some (record {
            id = hash_token token;
            user_id = user_id;
            auth_methods = methods;
            created_at = now;
            expires_at = now + ttl;
          })
          else none))
        × ((get_valid_session hash_token later after other).1
            ≡ (get_valid_session hash_token later table other).1))
unfolding create_session get_valid_session to_record
get_valid_session-create_session hash_token ttl now later table token other user_id methods
      user_agent ip new apart =
    let row : SessionRow = record {
      id = hash_token token;
      user_id = user_id;
      auth_methods = methods;
      user_agent = user_agent;
      ip = ip;
      created_at = now;
      expires_at = now + ttl;
    } in
    (
      ap (valid_record later) (
            append_found (hash_token token) table row new
              ((eq_iff (hash_token token) (hash_token token)).1 refl))
          ∙ ground arith,
      ap (valid_record later) (append_other (hash_token other) table row apart),
    )

module _ (now : ℕ) (gone : SessionRow → Bool) (id : String) (table : List SessionRow)
    (r : SessionRow) (key : HasKey table) (found : find (has_id id) table ≡ some r) where
  abbrev after_removal : Option SessionRecord
  after_removal = valid_record now (find (has_id id) (remove_where gone table))

  left_over : find (has_id id) (remove_where gone table) ≡ (if gone r then none else some r)
  left_over = find-remove_where gone id table (key id) ∙ ap (unless_gone gone) found

  ended : gone r ≡ true → after_removal ≡ none
  ended h =
      let left : find (has_id id) (remove_where gone table) ≡ none = left_over ∙ rw h in
      ap (valid_record now) left

  stayed : gone r ≡ false → after_removal ≡ valid_record now (find (has_id id) table)
  stayed h = ap (valid_record now) (left_over ∙ rw h (sym found))

-- Signing out everywhere else ends a session exactly if it is one of the user's and not the one that is
-- kept; signing out one session by its id ends it exactly if the user owns it. No other session ends.
pub delete_other_sessions_lem :
    (hash_token : String → String) (now : ℕ) (table : List SessionRow) (token user kept : String)
    (r : SessionRow)
    → HasKey table
    → find (has_id (hash_token token)) table ≡ some r
    → (let others = (delete_other_sessions_for_user table user kept).0 in
        let one = (delete_owned_session table user kept).0 in
        (((r.user_id ≡ user)
            × (r.id ≢ kept)
            × ((get_valid_session hash_token now others token).1 ≡ none))
          ⊎ (((r.user_id ≢ user) ⊎ (r.id ≡ kept))
              × ((get_valid_session hash_token now others token).1
                  ≡ (get_valid_session hash_token now table token).1)))
        × (((r.user_id ≡ user)
              × (r.id ≡ kept)
              × ((get_valid_session hash_token now one token).1 ≡ none))
            ⊎ (((r.user_id ≢ user) ⊎ (r.id ≢ kept))
                × ((get_valid_session hash_token now one token).1
                    ≡ (get_valid_session hash_token now table token).1))))
unfolding delete_other_sessions_for_user delete_owned_session get_valid_session
delete_other_sessions_lem hash_token now table token user kept r key found =
    let id = hash_token token in
    elim (Bool-cases (r.user_id == user)) [
      | inl mine ↦ elim (Bool-cases (r.id == kept)) [
        | inl same ↦
            let owner = (eq_iff r.user_id user).0 mine in
            let own_id = (eq_iff r.id kept).0 same in
            (
              inr (inr own_id, stayed now (is_other user kept) id table r key found (ground arith)),
              inl (
                owner,
                own_id,
                ended now (is_owned user kept) id table r key found (ground arith),
              ),
            )
        | inr differs ↦
            let owner = (eq_iff r.user_id user).0 mine in
            let other_id : r.id ≢ kept = λ e. clash differs ((eq_iff r.id kept).1 e) in
            (
              inl (
                owner,
                other_id,
                ended now (is_other user kept) id table r key found (ground arith),
              ),
              inr (
                inr other_id,
                stayed now (is_owned user kept) id table r key found (ground arith),
              ),
            )
      ]
      | inr foreign ↦
          let other_owner : r.user_id ≢ user = λ e. clash foreign ((eq_iff r.user_id user).1 e) in
          (
            inr (
              inl other_owner,
              stayed now (is_other user kept) id table r key found (ground arith),
            ),
            inr (
              inl other_owner,
              stayed now (is_owned user kept) id table r key found (ground arith),
            ),
          )
    ]
