-- ===== src/Autologin.antt =====
-- apps/api/src/auth/autologin.ts: signing in without a credential from a configured network. The table of
-- users is the list of its rows, each with what db/users.ts and db/totp.ts read of it.
pub mod Eligible
mod Tests
use opennas.Base.{
  ℕ, zero, suc, ◌+◌, ◌-◌, ◌*◌, ◌/◌, ◌%◌, ◌^◌, ◌≤◌, ◌<◌, min, max, String, ◌≡◌, refl, sym, ap, ◌∙◌,
  ◌≢◌, ◌↔◌, ◌⊎◌, inl, inr, Bool, true, false, ◌&&◌, ◌||◌, not, Option, none, some, List, [], ◌∷◌,
  ◌++◌, map, arith, ltb, leb, if◌then◌else◌, ltb→lt, lt→ltb, leb→le, nat_beq_iff, Bool-cases,
  Option-cases, Equality, ◌==◌, nat_eq, string_eq, list_eq, ==_self, list_beq, list_beq_iff, length,
  length-append, keep, find, any, All, All-append, All-keep, Text, codes, is_empty, split, join,
  has_unit, starts_with, non_empty, drop, take, count_up, Any, All-keep_iff, All-map, All-find,
  Any-keep, Any-map, find-holds, find-Any, find-none, find_unique, keep_short, any-false, Free,
  split_single, split-append, split-join, split-Free, join-append, All-reverse, starts_with-append,
  starts_with_rest, starts_with_comparable, starts_with_self, starts_with-append_both,
}
use opennas.Files.Access.{Role, admin, user, is_admin}

pub record Account : Type 0 where
  pub id : String
  pub role : Role
  pub is_disabled : Bool
  pub must_change_password : Bool
  pub totp_enabled : Bool

pub record Config : Type 0 where
  pub enabled : Bool
  pub user_id : Option String
  pub networks : List Text

abbrev pub default_config : Config
default_config = record { enabled = false; user_id = none; networks = [] }

-- What `JSON.parse` returns, as far as the code looks: whether `enabled` is `true`, and for the other
-- fields the texts among them, `none` for a value of another type.
pub record Parsed : Type 0 where
  pub enabled : Bool
  pub user_id : Option String
  pub networks : Option (List (Option Text))

abbrev pub texts_of : List (Option Text) → List Text
texts_of [] = []
texts_of (none ∷ ns) = texts_of ns
texts_of (some n ∷ ns) = n ∷ texts_of ns

abbrev pub networks_of : Option (List (Option Text)) → List Text
networks_of none = []
networks_of (some ns) = texts_of ns

abbrev pub user_of : Option String → Option String
user_of none = none
user_of (some id) = if id == "" then none else some id

abbrev pub config_of : Option Parsed → Config
config_of none = default_config
config_of (some p) = record {
  enabled = p.enabled;
  user_id = user_of p.user_id;
  networks = networks_of p.networks;
}

unfoldable pub get_user_by_id : List Account → String → Option Account
get_user_by_id users id = find (λ u. u.id == id) users

-- The tests on the account itself.
abbrev pub admit : Account → Option Account
admit u =
    if is_admin u.role
    then none
    else if u.is_disabled
    then none
    else if u.must_change_password
    then none
    else some u

abbrev pub admit_found : Option Account → Option Account
admit_found none = none
admit_found (some u) = admit u

-- `JSON.parse` is an argument, `none` where it throws.
unfoldable pub autologin_config : (Text → Option Parsed) → Option Text → Config
autologin_config parse none = default_config
autologin_config parse (some raw) = if is_empty raw then default_config else config_of (parse raw)

-- `addressInCidr` of db/ip-bans.ts is an argument.
abbrev pub address_matches : (Text → Text → Bool) → Text → List Text → Bool
address_matches address_in_cidr address networks =
    any (λ cidr. address_in_cidr address cidr) networks

-- From the test of the setting's user on.
abbrev pub choose_user :
    (Text → Text → Bool) → List Text → Option String → List Account → Text → Option Account
choose_user address_in_cidr networks none users ip = none
choose_user address_in_cidr networks (some id) users ip =
    if address_matches address_in_cidr ip networks
    then admit_found (get_user_by_id users id)
    else none

unfoldable pub autologin_user_for :
    (Text → Option Parsed)
    → (Text → Text → Bool)
    → Option Text
    → List Account
    → Text
    → Option Account
autologin_user_for parse address_in_cidr setting users ip =
    let config = autologin_config parse setting in
    if not config.enabled || is_empty config.networks
    then none
    else choose_user address_in_cidr config.networks config.user_id users ip
