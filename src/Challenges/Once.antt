-- ===== src/Challenges/Once.antt =====
-- A challenge among the requests of others.
use mathlib.Core.Path.{subst}
use text.Mathlib.TextEquality.{eq_iff}
use opennas.Base.{
  ℕ, ◌-◌, String, ◌≡◌, refl, sym, ap, ◌∙◌, inl, inr, Bool, true, false, not, Option, none, some,
  List, [], ◌∷◌, ◌++◌, arith, leb, if◌then◌else◌, Bool-cases, ◌==◌, nat_eq, string_eq, list_eq,
  keep, find, All,
}
use opennas.Challenges.{
  ChallengeKind, ChallengeRow, challenge_ttl_ms, put_challenge, in_time, take_challenge,
}

-- A request that puts or takes the challenge of an id.
pub data Request : Type 0 where
  put : String → ℕ → String → ChallengeKind → Option String → Request
  take_one : String → ℕ → Request

abbrev pub id_of : Request → String
id_of (put id now challenge kind user_id) = id
id_of (take_one id now) = id

abbrev pub step : Request → List ChallengeRow → List ChallengeRow
step (put id now challenge kind user_id) table = put_challenge id now table challenge kind user_id
step (take_one id now) table = (take_challenge now table id).0

abbrev pub run : List Request → List ChallengeRow → List ChallengeRow
run [] table = table
run (r ∷ requests) table = run requests (step r table)

-- All are about other ids.
abbrev pub AreOthers : String → List Request → Type 0
AreOthers id requests = All (λ r. (id_of r == id) ≡ false) requests

abbrev pub has_id : String → ChallengeRow → Bool
has_id id r = r.id == id

find-append_other :
    (id : String) (table : List ChallengeRow) (row : ChallengeRow)
    → (row.id == id) ≡ false
    → find (has_id id) (table ++ row ∷ []) ≡ find (has_id id) table
find-append_other id [] row h = rw h
find-append_other id (r ∷ table) row h = rw (find-append_other id table row h)

find-append_own :
    (id : String) (table : List ChallengeRow) (row : ChallengeRow)
    → find (has_id id) table ≡ none
    → (row.id == id) ≡ true
    → find (has_id id) (table ++ row ∷ []) ≡ some row
find-append_own id [] row none_yet h = rw h
find-append_own id (r ∷ table) row none_yet h = elim (Bool-cases (r.id == id)) [
  | inl hit ↦ let found = rw hit at none_yet in absurd cc
  | inr miss ↦ rw miss (find-append_own id table row (rw miss at none_yet) h)
]

find-keep_other :
    (id other : String) (table : List ChallengeRow)
    → (other == id) ≡ false
    → find (has_id id) (keep (λ r. not (r.id == other)) table) ≡ find (has_id id) table
find-keep_other id other [] apart = refl
find-keep_other id other (r ∷ table) apart =
    let rest = find-keep_other id other table apart in
    elim (Bool-cases (r.id == other)) [
      | inl here ↦
          let same : r.id ≡ other = (eq_iff r.id other).0 here in
          let away : (r.id == id) ≡ false = subst (λ t. (t == id) ≡ false) (sym same) apart in
          rw (here, away) rest
      | inr miss ↦ rw (miss, rest)
    ]

find-keep_own :
    (id : String) (table : List ChallengeRow)
    → find (has_id id) (keep (λ r. not (r.id == id)) table) ≡ none
find-keep_own id [] = refl
find-keep_own id (r ∷ table) = elim (Bool-cases (r.id == id)) [
  | inl here ↦ rw here (find-keep_own id table)
  | inr miss ↦ rw (miss, miss) (find-keep_own id table)
]

step_other :
    (id : String) (r : Request) (table : List ChallengeRow)
    → (id_of r == id) ≡ false
    → find (has_id id) (step r table) ≡ find (has_id id) table
unfolding put_challenge take_challenge
step_other id (put other now challenge kind user_id) table apart =
    find-append_other id table _ apart
step_other id (take_one other now) table apart = find-keep_other id other table apart

run_others :
    (id : String) (requests : List Request) (table : List ChallengeRow)
    → AreOthers id requests
    → find (has_id id) (run requests table) ≡ find (has_id id) table
run_others id [] table h = refl
run_others id (r ∷ requests) table h =
    run_others id requests (step r table) h.1 ∙ step_other id r table h.0

-- A challenge is given back once, whatever others put and take in between: the first request for its id
-- gets it as it was stored if no more than five minutes have passed, and nothing after that; and every
-- later request for the id gets nothing. The id is new when the challenge is stored.
pub take_challenge-put_challenge :
    (id : String) (stored now later : ℕ) (table : List ChallengeRow) (challenge : String)
    (kind : ChallengeKind) (user_id : Option String) (between after : List Request)
    → find (has_id id) table ≡ none
    → AreOthers id between
    → AreOthers id after
    → (let held = run between (put_challenge id stored table challenge kind user_id) in
        let taken = take_challenge now held id in
        (taken.1 ≡ (
          if leb (now - stored) challenge_ttl_ms
          then some (record { challenge = challenge; kind = kind; user_id = user_id })
          else none))
        × ((take_challenge later (run after taken.0) id).1 ≡ none))
unfolding put_challenge take_challenge
take_challenge-put_challenge id stored now later table challenge kind user_id between after new h
      k =
    let row : ChallengeRow = record {
      id = id;
      user_id = user_id;
      challenge = challenge;
      kind = kind;
      created_at = stored;
    } in
    let first =
      run_others id between (table ++ row ∷ []) h
      ∙ find-append_own id table row new ((eq_iff id id).1 refl) in
    let held = run between (table ++ row ∷ []) in
    let second =
      run_others id after (keep (λ r. not (r.id == id)) held) k ∙ find-keep_own id held in
    (ap (in_time now) first ∙ ground arith, ap (in_time later) second)
