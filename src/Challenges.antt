-- ===== src/Challenges.antt =====
-- apps/api/src/db/challenges.ts: WebAuthn challenges, which are used at most once. The table is the list of
-- its rows; ids and times in milliseconds are arguments.
pub mod Once
mod Tests
use opennas.Base.{
  ℕ, zero, suc, ◌+◌, ◌-◌, ◌*◌, ◌/◌, ◌%◌, ◌^◌, ◌≤◌, ◌<◌, min, max, String, ◌≡◌, refl, sym, ap, ◌∙◌,
  ◌≢◌, ◌↔◌, ◌⊎◌, inl, inr, Bool, true, false, ◌&&◌, ◌||◌, not, Option, none, some, List, [], ◌∷◌,
  ◌++◌, map, arith, ltb, leb, if◌then◌else◌, ltb→lt, lt→ltb, leb→le, nat_beq_iff, Bool-cases,
  Option-cases, Equality, ◌==◌, nat_eq, string_eq, list_eq, ==_self, list_beq, list_beq_iff, length,
  length-append, keep, find, any, All, All-append, All-keep, Text, codes, is_empty, split, join,
  has_unit, starts_with, non_empty, drop, take, count_up, Any, All-keep_iff, All-map, All-find,
  Any-keep, Any-map, find-holds, find-Any, find-none, find_unique, keep_short, any-false, Free,
  split_single, split-append, split-join, split-Free, join-append, All-reverse, starts_with-append,
  starts_with_rest, starts_with_comparable, starts_with_self, starts_with-append_both,
}

pub data ChallengeKind : Type 0 where
  registration authentication : ChallengeKind

pub record ChallengeRow : Type 0 where
  pub id : String
  pub user_id : Option String
  pub challenge : String
  pub kind : ChallengeKind
  pub created_at : ℕ

pub record StoredChallenge : Type 0 where
  pub challenge : String
  pub kind : ChallengeKind
  pub user_id : Option String

abbrev pub challenge_ttl_ms : ℕ
challenge_ttl_ms = 300000

unfoldable pub put_challenge :
    String → ℕ → List ChallengeRow → String → ChallengeKind → Option String → List ChallengeRow
put_challenge id now table challenge kind user_id =
    table
    ++ record { id = id; user_id = user_id; challenge = challenge; kind = kind; created_at = now }
      ∷ []

abbrev pub stored_of : ChallengeRow → StoredChallenge
stored_of row = record { challenge = row.challenge; kind = row.kind; user_id = row.user_id }

abbrev pub in_time : ℕ → Option ChallengeRow → Option StoredChallenge
in_time now none = none
in_time now (some row) =
    if ltb challenge_ttl_ms (now - row.created_at) then none else some (stored_of row)

unfoldable pub take_challenge :
    ℕ → List ChallengeRow → String → List ChallengeRow × Option StoredChallenge
take_challenge now table id =
    (keep (λ r. not (r.id == id)) table, in_time now (find (λ r. r.id == id) table))
