-- ===== src/Pending.antt =====
-- apps/api/src/auth/pending.ts: what a signed-in user has to deal with first, and the request hook that lets
-- through nothing else until then.
mod Query
pub mod Named
pub mod Gate
mod Tests
use opennas.Base.{
  ℕ, zero, suc, ◌+◌, ◌-◌, ◌*◌, ◌/◌, ◌%◌, ◌^◌, ◌≤◌, ◌<◌, min, max, String, ◌≡◌, refl, sym, ap, ◌∙◌,
  ◌≢◌, ◌↔◌, ◌⊎◌, inl, inr, Bool, true, false, ◌&&◌, ◌||◌, not, Option, none, some, List, [], ◌∷◌,
  ◌++◌, map, arith, ltb, leb, if◌then◌else◌, ltb→lt, lt→ltb, leb→le, nat_beq_iff, Bool-cases,
  Option-cases, Equality, ◌==◌, nat_eq, string_eq, list_eq, ==_self, list_beq, list_beq_iff, length,
  length-append, keep, find, any, All, All-append, All-keep, Text, codes, is_empty, split, join,
  has_unit, starts_with, non_empty, drop, take, count_up, Any, All-keep_iff, All-map, All-find,
  Any-keep, Any-map, find-holds, find-Any, find-none, find_unique, keep_short, any-false, Free,
  split_single, split-append, split-join, split-Free, join-append, All-reverse, starts_with-append,
  starts_with_rest, starts_with_comparable, starts_with_self, starts_with-append_both,
}
use opennas.Files.Paths.{slash}

pub data PendingAction : Type 0 where
  password passkey : PendingAction

-- What the code reads of the stores for the user of a request.
pub record PendingState : Type 0 where
  pub must_change_password : Bool
  pub require_passkey_setting : Option Text
  pub credentials : ℕ

unfoldable pub require_passkey_enabled : PendingState → Bool
require_passkey_enabled s = elim s.require_passkey_setting [
  | none ↦ false
  | some v ↦ v == codes "true"
]

unfoldable pub pending_actions : PendingState → List PendingAction
pending_actions s =
    (if s.must_change_password then password ∷ [] else [])
    ++ (if require_passkey_enabled s && s.credentials == 0 then passkey ∷ [] else [])

-- The tests of `ALLOWED`, one for each regular expression.
unfoldable pub is_allowed : Text → Bool
is_allowed path =
    path == codes "/auth/me"
    || path == codes "/auth/bootstrap"
    || path == codes "/auth/logout"
    || path == codes "/auth/me/password"
    || starts_with path (codes "/auth/avatars/")
    || path == codes "/auth/passkeys"
    || starts_with path (codes "/auth/passkeys/")

abbrev pub question_mark : ℕ
question_mark = 63

abbrev pub first_or_empty : List Text → Text
first_or_empty [] = []
first_or_empty (t ∷ ts) = t

unfoldable pub without_prefix : Text → Text
without_prefix url = if starts_with url (codes "/api") then drop 4 url else url

unfoldable pub path_of : Text → Text
path_of url = first_or_empty (split question_mark (without_prefix url))

pub data GateReply : Type 0 where
  passes : GateReply
  setup_required : String → List PendingAction → GateReply

abbrev pub includes_password : List PendingAction → Bool
includes_password [] = false
includes_password (password ∷ rest) = true
includes_password (passkey ∷ rest) = includes_password rest

abbrev pub message_for : List PendingAction → String
message_for pending =
    if includes_password pending
    then "You need to choose a new password before continuing."
    else "You need to register a passkey before continuing."

abbrev pub reply_to : List PendingAction → GateReply
reply_to [] = passes
reply_to (a ∷ rest) = setup_required (message_for (a ∷ rest)) (a ∷ rest)

-- `none`: the request has no session.
unfoldable pub pending_gate : Option PendingState → Text → GateReply
pending_gate none url = passes
pending_gate (some s) url =
    if is_allowed (path_of url) then passes else reply_to (pending_actions s)
