-- ===== src/IpBans/Banned.antt =====
-- What becomes of a ban.
use opennas.Base.{
  ℕ, ◌+◌, ◌*◌, ◌≤◌, String, ◌≡◌, refl, ap, ◌∙◌, inl, inr, Bool, true, false, ◌||◌, not, none, List,
  [], ◌∷◌, map, arith, ltb, leb, Bool-cases, ◌==◌, nat_eq, string_eq, list_eq, list_beq_iff, keep,
  find, any, All, Text, keep_short, count,
}
use opennas.IpBans.{
  IpAttemptRow, BanRow, IpBan, clean, of_address, bans_address, to_ban, clear_ip_failures,
  upsert_ban, record_ban, insert_ban, sort_bans, list_recorded_bans, remove_ban,
}

abbrev pub is_ban_of : Text → IpBan → Bool
is_ban_of a b = b.address == a

abbrev pub is_alive : ℕ → BanRow → Bool
is_alive now r = not (leb r.expires_at now)

any-insert_ban :
    (a : Text) (row : BanRow) (table : List BanRow)
    → any (bans_address a) (insert_ban row table)
      ≡ (bans_address a row || any (bans_address a) table)
any-insert_ban a row [] = refl
any-insert_ban a row (r ∷ table) = elim (Bool-cases (ltb r.banned_at row.banned_at)) [
  | inl newer ↦ rw newer
  | inr older ↦ rw older (
      ap (λ b. bans_address a r || b) (any-insert_ban a row table)
      ∙ swap (bans_address a r) (bans_address a row) (any (bans_address a) table))
]
  where
    swap : (x y z : Bool) → (x || (y || z)) ≡ (y || (x || z))
    swap true true z = refl
    swap true false z = refl
    swap false y z = refl

any-sort_bans :
    (a : Text) (table : List BanRow)
    → any (bans_address a) (sort_bans table) ≡ any (bans_address a) table
any-sort_bans a [] = refl
any-sort_bans a (r ∷ table) =
    any-insert_ban a r (sort_bans table) ∙ ap (λ b. bans_address a r || b) (any-sort_bans a table)

any-to_ban :
    (a : Text) (table : List BanRow)
    → any (is_ban_of a) (map to_ban table) ≡ any (bans_address a) table
any-to_ban a [] = refl
any-to_ban a (r ∷ table) = ap (λ b. bans_address a r || b) (any-to_ban a table)

any-list_recorded_bans :
    (a : Text) (now : ℕ) (bans : List BanRow)
    → any (is_ban_of a) (list_recorded_bans now bans).1
      ≡ any (bans_address a) (keep (is_alive now) bans)
unfolding list_recorded_bans
any-list_recorded_bans a now bans = any-to_ban a _ ∙ any-sort_bans a (keep (is_alive now) bans)

any-keep_none :
    (p q : BanRow → Bool) (table : List BanRow)
    → All (λ r. p r ≡ false) table
    → any p (keep q table) ≡ false
any-keep_none p q [] h = refl
any-keep_none p q (r ∷ table) (h, hs) = elim (Bool-cases (q r)) [
  | inl stays ↦ rw (stays, h) (any-keep_none p q table hs)
  | inr goes ↦ rw goes (any-keep_none p q table hs)
]

any-upsert_ban :
    (now : ℕ) (row : BanRow) (bans : List BanRow)
    → count (bans_address row.address) bans ≤ 1
    → any (bans_address row.address) (keep (is_alive now) (upsert_ban row bans)) ≡ is_alive now row
unfolding upsert_ban
any-upsert_ban now row [] h = elim (Bool-cases (leb row.expires_at now)) [
  | inl over ↦ rw over
  | inr on ↦ let me = (list_beq_iff row.address row.address).1 refl in rw on (rw me)
]
any-upsert_ban now row (r ∷ bans) h = elim (Bool-cases (bans_address row.address r)) [
  | inl hit ↦
      let rest =
        any-keep_none (bans_address row.address) (is_alive now) bans
          (keep_short (bans_address row.address) bans (ground arith)) in
      elim (Bool-cases (leb row.expires_at now)) [
        | inl over ↦ rw (hit, over) rest
        | inr on ↦ let me = (list_beq_iff row.address row.address).1 refl in rw (hit, on) (rw me)
      ]
  | inr miss ↦
      let rest = any-upsert_ban now row bans (ground arith) in
      elim (Bool-cases (leb r.expires_at now)) [
        | inl over ↦ rw (miss, over) rest
        | inr on ↦ rw (miss, on, miss) rest
      ]
]

find-clear_ip_failures :
    (a : Text) (table : List IpAttemptRow)
    → find (of_address a) (keep (λ r. not (of_address a r)) table) ≡ none
find-clear_ip_failures a [] = refl
find-clear_ip_failures a (r ∷ table) = elim (Bool-cases (of_address a r)) [
  | inl hit ↦ rw hit (find-clear_ip_failures a table)
  | inr miss ↦ rw (miss, miss) (find-clear_ip_failures a table)
]

removed_none :
    (a : Text) (bans : List BanRow)
    → All (λ r. bans_address a r ≡ false) (keep (λ r. not (bans_address a r)) bans)
removed_none a [] = tt
removed_none a (r ∷ bans) = elim (Bool-cases (bans_address a r)) [
  | inl hit ↦ rw hit (removed_none a bans)
  | inr miss ↦ rw miss (miss, removed_none a bans)
]

-- Where the table of bans has one row for an address at most, a ban that is recorded is listed until its
-- seconds are over and not from then on, whatever ban the address had before; the failures of the address are
-- forgotten; and once the ban is removed it is not listed.
pub list_recorded_bans-record_ban :
    (lower : Text → Text) (now later : ℕ) (attempts : List IpAttemptRow) (bans : List BanRow)
    (address : Text) (reason : String) (failures seconds : ℕ)
    → count (bans_address (clean lower address)) bans ≤ 1
    → let after = record_ban lower now attempts bans address reason failures seconds in
      let a = clean lower address in
      (any (is_ban_of a) (list_recorded_bans later after.1).1
        ≡ not (leb (now + seconds * 1000) later))
      × (find (of_address a) after.0 ≡ none)
      × (any (is_ban_of a) (list_recorded_bans later (remove_ban lower after.1 address).0).1
          ≡ false)
unfolding record_ban clear_ip_failures remove_ban
list_recorded_bans-record_ban lower now later attempts bans address reason failures seconds h =
    let a = clean lower address in
    (
      any-list_recorded_bans a later _ ∙ any-upsert_ban later _ bans h,
      find-clear_ip_failures a attempts,
      any-list_recorded_bans a later _
          ∙ any-keep_none (bans_address a) (is_alive later) _ (removed_none a _),
    )
