-- ===== src/SignIn/Bans.antt =====
-- apps/api/src/system/auto-ban.ts: noteFailedAttempt, currentBans and liftBan. The trusted networks of the firewall
-- and what the kernel drops are arguments. The call to the firewall only decides what is logged, and the ban is
-- recorded when it has answered; here that is at once.
use opennas.Base.{
  ℕ, ◌+◌, ◌*◌, String, Bool, true, not, List, [], ◌∷◌, ◌++◌, map, if◌then◌else◌, ◌==◌, nat_eq,
  list_eq, any, Text, ltb, ◌||◌, length,
}
use opennas.IpBans.{
  IpAttemptRow, BanRow, IpBan, ban_seconds, record_ip_failure, record_ban, list_recorded_bans,
  remove_ban,
}
use opennas.IpBans.Addresses.{is_bannable}

unfoldable pub note_failed_attempt :
    (Text → Text)
    → List Text
    → ℕ
    → List IpAttemptRow
    → List BanRow
    → Text
    → String
    → List IpAttemptRow × List BanRow
note_failed_attempt lower trusted now attempts bans address reason =
    let (counted, failures, should_ban) = record_ip_failure lower now attempts address in
    let (cleared, recorded, ban) =
      record_ban lower now counted bans address reason failures ban_seconds in
    if not (is_bannable lower address trusted)
    then (attempts, bans)
    else if not should_ban
    then (counted, bans)
    else (cleared, recorded)

-- An address that the kernel drops, with the seconds that are left.
pub record LiveBan : Type 0 where
  pub address : Text
  pub seconds_left : ℕ

abbrev pub is_live : List LiveBan → Text → Bool
is_live live a = any (λ l. l.address == a) live

abbrev pub is_shown : List IpBan → Text → Bool
is_shown bans a = any (λ b. b.address == a) bans

-- The loop over the kernel's set; `reason` is the fixed text for a ban that is not on record.
abbrev pub add_unrecorded : ℕ → String → List LiveBan → List IpBan → List IpBan
add_unrecorded now reason [] bans = bans
add_unrecorded now reason (l ∷ live) bans = add_unrecorded now reason live (
    if is_shown bans l.address
    then bans
    else bans
      ++ record {
        address = l.address;
        reason = reason;
        failures = 0;
        banned_at = now;
        expires_at = now + l.seconds_left * 1000;
        active = true;
      }
        ∷ [])

pub record IpBansResponse : Type 0 where
  pub bans : List IpBan
  pub enforced : Bool

unfoldable pub current_bans :
    ℕ → String → Bool → List LiveBan → List BanRow → List BanRow × IpBansResponse
current_bans now reason firewall_enabled live bans =
    let (left, recorded) = list_recorded_bans now bans in
    (
      left,
      record {
        bans =
            add_unrecorded now reason live
              (map (λ (b : IpBan). record b { active = is_live live b.address }) recorded);
        enforced = ltb 0 (length live) || firewall_enabled;
      },
    )

unfoldable pub lift_ban : (Text → Text) → List BanRow → Text → List BanRow
lift_ban lower bans address = (remove_ban lower bans address).0
