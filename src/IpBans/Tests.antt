-- ===== src/IpBans/Tests.antt =====
-- Runs of the bans at concrete inputs.
use opennas.Base.{
  ◌+◌, ◌*◌, ◌≤◌, ◌≡◌, refl, sym, ◌∙◌, ◌≢◌, true, false, not, none, [], ◌∷◌, arith, leb, ◌==◌,
  nat_eq, string_eq, list_eq, list_beq, list_beq_iff, find, any, Text, codes, is_empty, split,
  has_unit, starts_with, count,
}
use opennas.Files.Resolve.{trim, trim_start, trim_end}
use opennas.IpBans.{
  BanRow, clean, of_address, bans_address, upsert_ip_attempt, record_ip_failure, clear_ip_failures,
  upsert_ban, record_ban, list_recorded_bans, remove_ban,
}
use opennas.IpBans.Addresses.{address_in_cidr, is_bannable}
use opennas.IpBans.Counted.{fail_at, record_ip_failure-fail_at}
use opennas.IpBans.Banned.{is_ban_of, list_recorded_bans-record_ban}

abbrev same : Text → Text
same t = t

abbrev host : Text
host = codes " 10.1.2.3 "

abbrev bare : Text
bare = codes "10.1.2.3"

abbrev other : Text
other = codes "10.1.2.4"

ban_code : Unit {0}
unfolding trim trim_start trim_end upsert_ip_attempt record_ip_failure clear_ip_failures upsert_ban
    record_ban list_recorded_bans remove_ban address_in_cidr is_bannable split starts_with has_unit
    list_beq
ban_code = tt

address_tests :
    (address_in_cidr bare (codes "10.0.0.0/8") ≡ true)
    × (address_in_cidr bare (codes "10.1.2.0/30") ≡ true)
    × (address_in_cidr other (codes "10.1.2.0/30") ≡ false)
    × (address_in_cidr bare (codes "10.1.2.3") ≡ true)
    × (address_in_cidr other (codes "10.1.2.3/x") ≡ false)
    × (address_in_cidr other (codes "192.168.0.0/0") ≡ true)
    × (address_in_cidr (codes "fe80::1") (codes "fe80::/10") ≡ true)
    × (is_bannable same host (codes "10.1.0.0/16" ∷ []) ≡ false)
    × (is_bannable same host (codes "192.168.0.0/16" ∷ []) ≡ true)
    × (is_bannable same (codes "127.0.0.2") [] ≡ false)
unfolding ban_code
address_tests = (refl, refl, refl, refl, refl, refl, refl, refl, refl, refl)

-- The network fd00::/8 has this address, but its text begins another way.
prefix_narrows : is_bannable same (codes "fd12::1") (codes "fd00::/8" ∷ []) ≡ true
unfolding ban_code
prefix_narrows = refl

ban_tests :
    (let after = record_ban same 5 [] [] host "x" 20 1 in
      ((list_recorded_bans 1004 after.1).1 ≡ after.2 ∷ [])
      × ((list_recorded_bans 1005 after.1) ≡ ([], []))
      × ((remove_ban same after.1 bare).1 ≡ true))
unfolding ban_code
ban_tests = (refl, refl, refl)

named : is_empty (clean same host) ≡ false
unfolding ban_code
named = refl

unequal : (other == clean same host) ≡ false
unfolding ban_code
unequal = refl

differs : other ≢ clean same host
differs e =
    let equal = (list_beq_iff other (clean same host)).1 e in
    absurd (let clashing = sym unequal ∙ equal in cc)

record_ip_failure-fail_at_example :
    (let before = fail_at same host (10 ∷ 20 ∷ 30 ∷ []) [] in
      let after = record_ip_failure same 40 before host in
      (after.1 ≡ 4) × (after.2 ≡ leb 20 4) × (find (of_address other) after.0 ≡ none))
record_ip_failure-fail_at_example =
    record_ip_failure-fail_at same host other 10 40 (20 ∷ 30 ∷ []) [] named refl
      (omega arith, (omega arith, tt)) (omega arith) differs

abbrev older : BanRow
older = record { address = bare; reason = "y"; failures = 30; banned_at = 0; expires_at = 9 }

single : count (bans_address (clean same host)) (older ∷ []) ≤ 1
unfolding ban_code
single = omega arith

list_recorded_bans-record_ban_example :
    (let after = record_ban same 5 [] (older ∷ []) host "x" 20 1 in
      let a = clean same host in
      (any (is_ban_of a) (list_recorded_bans 600 after.1).1 ≡ not (leb (5 + 1 * 1000) 600))
      × (find (of_address a) after.0 ≡ none)
      × (any (is_ban_of a) (list_recorded_bans 600 (remove_ban same after.1 host).0).1 ≡ false))
list_recorded_bans-record_ban_example =
    list_recorded_bans-record_ban same 5 600 [] (older ∷ []) host "x" 20 1 single
