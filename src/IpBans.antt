-- ===== src/IpBans.antt =====
-- apps/api/src/db/ip-bans.ts: failed sign-ins by address, and bans. `toLowerCase` is an argument. `Number` is
-- that of a text of digits with a sign or none; the other numerals that JavaScript reads are left out.
use opennas.Base.{
  ℕ, zero, suc, ◌+◌, ◌-◌, ◌*◌, ◌%◌, ◌^◌, min, String, Bool, true, false, ◌&&◌, ◌||◌, not, Option,
  none, some, List, [], ◌∷◌, ◌++◌, map, if◌then◌else◌, leb, ltb, ◌==◌, nat_eq, list_eq, find, keep,
  any, count, Text, codes, is_empty, split, starts_with, has_unit, length,
}
use opennas.Files.Resolve.{trim}
pub mod Addresses
pub mod Counted
pub mod Banned
mod Tests

abbrev pub ban_threshold : ℕ
ban_threshold = 20

abbrev pub ban_window_ms : ℕ
ban_window_ms = 900000

abbrev pub ban_seconds : ℕ
ban_seconds = 3600

pub record IpAttemptRow : Type 0 where
  pub address : Text
  pub failures : ℕ
  pub first_fail_at : Option ℕ
  pub last_fail_at : Option ℕ

pub record BanRow : Type 0 where
  pub address : Text
  pub reason : String
  pub failures : ℕ
  pub banned_at : ℕ
  pub expires_at : ℕ

pub record IpBan : Type 0 where
  pub address : Text
  pub reason : String
  pub failures : ℕ
  pub banned_at : ℕ
  pub expires_at : ℕ
  pub active : Bool

abbrev pub clean : (Text → Text) → Text → Text
clean lower address = lower (trim address)

abbrev pub of_address : Text → IpAttemptRow → Bool
of_address a r = r.address == a

abbrev pub bans_address : Text → BanRow → Bool
bans_address a r = r.address == a

abbrev pub is_stale : ℕ → Option ℕ → Bool
is_stale now none = true
is_stale now (some first) = ltb ban_window_ms (now - first)

-- The row that is stored.
abbrev pub next_ip_row : ℕ → Text → Option IpAttemptRow → IpAttemptRow
next_ip_row now a none = record {
  address = a;
  failures = 1;
  first_fail_at = some now;
  last_fail_at = some now;
}
next_ip_row now a (some r) =
    if is_stale now r.first_fail_at
    then record { address = a; failures = 1; first_fail_at = some now; last_fail_at = some now }
    else record {
      address = a;
      failures = r.failures + 1;
      first_fail_at = r.first_fail_at;
      last_fail_at = some now;
    }

-- INSERT … ON CONFLICT(address) DO UPDATE.
unfoldable pub upsert_ip_attempt : IpAttemptRow → List IpAttemptRow → List IpAttemptRow
upsert_ip_attempt row [] = row ∷ []
upsert_ip_attempt row (r ∷ table) =
    if of_address row.address r then row ∷ table else r ∷ upsert_ip_attempt row table

unfoldable pub record_ip_failure :
    (Text → Text) → ℕ → List IpAttemptRow → Text → List IpAttemptRow × ℕ × Bool
unfolding upsert_ip_attempt
record_ip_failure lower now table address =
    let a = clean lower address in
    let row = next_ip_row now a (find (of_address a) table) in
    if is_empty a
    then (table, 0, false)
    else (upsert_ip_attempt row table, row.failures, leb ban_threshold row.failures)

unfoldable pub clear_ip_failures : (Text → Text) → List IpAttemptRow → Text → List IpAttemptRow
clear_ip_failures lower table address = keep (λ r. not (of_address (clean lower address) r)) table

abbrev pub to_ban : BanRow → IpBan
to_ban r = record {
  address = r.address;
  reason = r.reason;
  failures = r.failures;
  banned_at = r.banned_at;
  expires_at = r.expires_at;
  active = true;
}

unfoldable pub upsert_ban : BanRow → List BanRow → List BanRow
upsert_ban row [] = row ∷ []
upsert_ban row (r ∷ table) =
    if bans_address row.address r then row ∷ table else r ∷ upsert_ban row table

unfoldable pub record_ban :
    (Text → Text)
    → ℕ
    → List IpAttemptRow
    → List BanRow
    → Text
    → String
    → ℕ
    → ℕ
    → List IpAttemptRow × List BanRow × IpBan
unfolding upsert_ban clear_ip_failures
record_ban lower now attempts bans address reason failures seconds =
    let row : BanRow = record {
      address = clean lower address;
      reason = reason;
      failures = failures;
      banned_at = now;
      expires_at = now + seconds * 1000;
    } in
    (clear_ip_failures lower attempts address, upsert_ban row bans, to_ban row)

-- ORDER BY banned_at DESC.
abbrev pub insert_ban : BanRow → List BanRow → List BanRow
insert_ban row [] = row ∷ []
insert_ban row (r ∷ table) =
    let rest = insert_ban row table in
    if ltb r.banned_at row.banned_at then row ∷ r ∷ table else r ∷ rest

abbrev pub sort_bans : List BanRow → List BanRow
sort_bans [] = []
sort_bans (r ∷ table) = insert_ban r (sort_bans table)

unfoldable pub list_recorded_bans : ℕ → List BanRow → List BanRow × List IpBan
list_recorded_bans now bans =
    let left = keep (λ r. not (leb r.expires_at now)) bans in (left, map to_ban (sort_bans left))

unfoldable pub remove_ban : (Text → Text) → List BanRow → Text → List BanRow × Bool
remove_ban lower bans address =
    let a = clean lower address in
    (keep (λ r. not (bans_address a r)) bans, ltb 0 (count (bans_address a) bans))
