-- ===== src/IpBans/Counted.antt =====
-- How many failures an address is let have.
use opennas.Base.{
  ℕ, ◌+◌, ◌≤◌, ◌≡◌, refl, sym, ap, ◌∙◌, ◌≢◌, inl, inr, false, Option, none, some, List, [], ◌∷◌,
  arith, leb, Bool-cases, ◌==◌, nat_eq, string_eq, list_eq, list_beq_iff, length, find, All, Text,
  is_empty,
}
use opennas.IpBans.{
  IpAttemptRow, ban_threshold, ban_window_ms, clean, of_address, is_stale, next_ip_row,
  upsert_ip_attempt, record_ip_failure,
}

-- An address that fails again and again, at the times of a list.
abbrev pub fail_at : (Text → Text) → Text → List ℕ → List IpAttemptRow → List IpAttemptRow
fail_at lower address [] table = table
fail_at lower address (t ∷ times) table =
    fail_at lower address times (record_ip_failure lower t table address).0

abbrev row_of : Text → ℕ → ℕ → ℕ → IpAttemptRow
row_of a k start last = record {
  address = a;
  failures = k;
  first_fail_at = some start;
  last_fail_at = some last;
}

differ : (a b : Text) → a ≢ b → (a == b) ≡ false
differ a b h = elim (Bool-cases (a == b)) [
  | inl same ↦ absurd (h ((list_beq_iff a b).0 same))
  | inr other ↦ other
]

find-upsert_ip_attempt :
    (row : IpAttemptRow) (table : List IpAttemptRow)
    → find (of_address row.address) (upsert_ip_attempt row table) ≡ some row
unfolding upsert_ip_attempt
find-upsert_ip_attempt row [] = let me = list_beq_iff row.address row.address in rw (me.1 refl)
find-upsert_ip_attempt row (r ∷ table) = elim (Bool-cases (of_address row.address r)) [
  | inl hit ↦ let me = list_beq_iff row.address row.address in rw hit (rw (me.1 refl))
  | inr miss ↦ rw (miss, miss) (find-upsert_ip_attempt row table)
]

find-upsert_ip_attempt_other :
    (b : Text) (row : IpAttemptRow) (table : List IpAttemptRow)
    → b ≢ row.address
    → find (of_address b) (upsert_ip_attempt row table) ≡ find (of_address b) table
unfolding upsert_ip_attempt
find-upsert_ip_attempt_other b row [] h = elim (Bool-cases (of_address b row)) [
  | inl hit ↦ absurd (h (sym ((list_beq_iff row.address b).0 hit)))
  | inr miss ↦ rw miss
]
find-upsert_ip_attempt_other b row (r ∷ table) h = elim (Bool-cases (of_address row.address r)) [
  | inr miss ↦ elim (Bool-cases (of_address b r)) [
    | inl same ↦ rw (miss, same)
    | inr other ↦ rw (miss, other) (find-upsert_ip_attempt_other b row table h)
  ]
  | inl hit ↦
      let mine : of_address b row ≡ false = differ row.address b (λ e. h (sym e)) in
      let old : of_address b r ≡ false =
        differ r.address b (λ e. h (sym e ∙ (list_beq_iff r.address row.address).0 hit)) in
      rw hit (rw (mine, old))
]

address-next_ip_row :
    (now : ℕ) (a : Text) (row : Option IpAttemptRow) → (next_ip_row now a row).address ≡ a
address-next_ip_row now a none = refl
address-next_ip_row now a (some r) = elim (Bool-cases (is_stale now r.first_fail_at)) [
  | inl stale ↦ rw (stale, next_ip_row)
  | inr recent ↦ rw (recent, next_ip_row)
]

module _ (lower : Text → Text) (address : Text)
    (named : is_empty (clean lower address) ≡ false) where
  abbrev mine : Text
  mine = clean lower address

  record_ip_failure-first :
      (now : ℕ) (table : List IpAttemptRow)
      → find (of_address mine) table ≡ none
      → find (of_address mine) (record_ip_failure lower now table address).0
        ≡ some (row_of mine 1 now now)
  unfolding record_ip_failure
  record_ip_failure-first now table h =
      rw (named, h) (find-upsert_ip_attempt (row_of mine 1 now now) table)

  record_ip_failure-next :
      (now start last k : ℕ) (table : List IpAttemptRow)
      → find (of_address mine) table ≡ some (row_of mine k start last)
      → now ≤ start + ban_window_ms
      → (find (of_address mine) (record_ip_failure lower now table address).0
          ≡ some (row_of mine (k + 1) start now))
        × ((record_ip_failure lower now table address).1 ≡ k + 1)
        × ((record_ip_failure lower now table address).2 ≡ leb ban_threshold (k + 1))
  unfolding record_ip_failure
  record_ip_failure-next now start last k table h soon =
      let recent : is_stale now (some start) ≡ false = ground arith in
      rw (named, h)
        (rw (recent, next_ip_row)
          (find-upsert_ip_attempt (row_of mine (k + 1) start now) table, refl, refl))

  record_ip_failure-other :
      (b : Text) (now : ℕ) (table : List IpAttemptRow)
      → b ≢ mine
      → find (of_address b) (record_ip_failure lower now table address).0
        ≡ find (of_address b) table
  unfolding record_ip_failure
  record_ip_failure-other b now table h = rw named (
      find-upsert_ip_attempt_other b _ table
        (λ e. h (e ∙ address-next_ip_row now mine (find (of_address mine) table))))

  fail_at-counted :
      (start last k : ℕ) (times : List ℕ) (table : List IpAttemptRow)
      → find (of_address mine) table ≡ some (row_of mine k start last)
      → All (λ t. t ≤ start + ban_window_ms) times
      → (end_of : ℕ) × (find (of_address mine) (fail_at lower address times table)
          ≡ some (row_of mine (length times + k) start end_of))
  fail_at-counted start last k [] table h hs =
      (last, h ∙ ap (λ n. some (row_of mine n start last)) (omega arith))
  fail_at-counted start last k (t ∷ times) table h (soon, hs) =
      let next = record_ip_failure-next t start last k table h soon in
      let (end_of, found) = fail_at-counted start t (k + 1) times _ next.0 hs in
      (end_of, found ∙ ap (λ n. some (row_of mine n start end_of)) (omega arith))

  fail_at-other :
      (b : Text) (times : List ℕ) (table : List IpAttemptRow)
      → b ≢ mine
      → find (of_address b) (fail_at lower address times table) ≡ find (of_address b) table
  fail_at-other b [] table h = refl
  fail_at-other b (t ∷ times) table h =
      fail_at-other b times _ h ∙ record_ip_failure-other b t table h

count_on : (n : ℕ) → n + 1 + 1 ≡ n + 2
count_on n = omega arith

-- An address without a row that fails at a time and again within fifteen minutes of it has each failure
-- counted, and the ban is asked for from the twentieth on. The rows of other addresses stay as they are.
pub record_ip_failure-fail_at :
    (lower : Text → Text) (address b : Text) (start now : ℕ) (times : List ℕ)
    (table : List IpAttemptRow)
    → is_empty (clean lower address) ≡ false
    → find (of_address (clean lower address)) table ≡ none
    → All (λ t. t ≤ start + ban_window_ms) times
    → now ≤ start + ban_window_ms
    → b ≢ clean lower address
    → let before = fail_at lower address (start ∷ times) table in
      let failures = length times + 2 in
      let after = record_ip_failure lower now before address in
      (after.1 ≡ failures)
      × (after.2 ≡ leb 20 failures)
      × (find (of_address b) after.0 ≡ find (of_address b) table)
record_ip_failure-fail_at lower address b start now times table named new within soon other =
    let first = record_ip_failure-first lower address named start table new in
    let (last, counted) = fail_at-counted lower address named start start 1 times _ first within in
    let (_, number, asked) =
      record_ip_failure-next lower address named now start last (length times + 1) _ counted soon in
    let same : length times + 1 + 1 ≡ length times + 2 = count_on (length times) in
    (
      number ∙ same,
      asked ∙ ap (leb 20) same,
      record_ip_failure-other lower address named b now _ other
          ∙ fail_at-other lower address named b (start ∷ times) table other,
    )
