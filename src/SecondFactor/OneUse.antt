-- ===== src/SecondFactor/OneUse.antt =====
-- How often a one-time code, a recovery code and a ticket serve.
use mathlib.Core.Path.{subst}
use text.Mathlib.TextEquality.{eq_iff}
use opennas.Base.{
  ℕ, ◌+◌, ◌<◌, String, ◌≡◌, refl, sym, ap, ◌∙◌, inl, inr, true, false, ◌&&◌, Option, none, some,
  List, [], ◌∷◌, arith, nat_beq_iff, Bool-cases, Option-cases, ◌==◌, nat_eq, string_eq, list_eq,
  Text, is_empty, find-holds, count,
}
use opennas.SecondFactor.Codes.{verify_totp, normalize_recovery_code, hash_recovery_code}
use opennas.SecondFactor.Store.{
  TotpRow, TotpRecord, RecoveryRow, has_user, get_totp, update_totp, note_totp_step,
  consume_recovery_code, count_unused_recovery_codes, is_code, is_unused, spend_codes,
}
use opennas.SecondFactor.Login.{
  Member, Device, LoginState, Environment, signed_in, has_member_id, is_used_step, login_totp,
}
use opennas.SecondFactor.Proven.{Factor, by_code, by_recovery, login_totp_lem}

abbrev last_of : Option TotpRecord → Option ℕ
last_of none = none
last_of (some r) = r.last_used_step

last-note_totp_step :
    (decrypt : Text → Option Text) (user : String) (step : ℕ) (table : List TotpRow)
    (r : TotpRecord)
    → get_totp decrypt (note_totp_step table user step) user ≡ some r
    → r.last_used_step ≡ some step
unfolding get_totp note_totp_step update_totp
last-note_totp_step decrypt user step [] r h = absurd cc
last-note_totp_step decrypt user step (x ∷ table) r h = elim (Bool-cases (has_user user x)) [
  | inr miss ↦ last-note_totp_step decrypt user step table r (rw (miss, miss) at h)
  | inl hit ↦
      let found = rw (hit, hit) at h in
      elim (Option-cases (decrypt x.secret)) [
        | inl sealed ↦ let refused = rw sealed at found in absurd cc
        | inr (secret, e) ↦ let same = rw e at found in sym (ap last_of same)
      ]
]

count-spend_codes :
    (user hash : String) (now : ℕ) (table : List RecoveryRow)
    → count
        (λ r. is_code user hash r && is_unused r)
        (spend_codes (λ r. is_code user hash r && is_unused r) now table)
      ≡ 0
unfolding spend_codes
count-spend_codes user hash now [] = refl
count-spend_codes user hash now (r ∷ table) =
    elim (Bool-cases (is_code user hash r && is_unused r)) [
      | inl hit ↦
          let rest = count-spend_codes user hash now table in
          rw hit (elim (Bool-cases (is_code user hash r)) [ inl c ↦ rw c rest | inr n ↦ rw n rest ])
      | inr miss ↦ rw (miss, miss) (count-spend_codes user hash now table)
    ]

consume_recovery_code_twice :
    (upper : Text → Text) (hash : Text → String) (now later : ℕ) (table : List RecoveryRow)
    (user : String) (code : Text)
    → (consume_recovery_code upper hash later
        (consume_recovery_code upper hash now table user code).0
        user
        code).1
      ≡ false
unfolding consume_recovery_code
consume_recovery_code_twice upper hash now later table user code =
    elim (Bool-cases (is_empty (normalize_recovery_code upper code))) [
      | inl blank ↦ rw blank
      | inr full ↦
          let spent = count-spend_codes user (hash_recovery_code upper hash code) now table in
          rw full (ap (λ n. n == 1) spent)
    ]

count_unused-spend_codes :
    (user hash : String) (now : ℕ) (table : List RecoveryRow)
    → count_unused_recovery_codes
          (spend_codes (λ r. is_code user hash r && is_unused r) now table)
          user
        + count (λ r. is_code user hash r && is_unused r) table
      ≡ count_unused_recovery_codes table user
unfolding count_unused_recovery_codes spend_codes
count_unused-spend_codes user hash now [] = refl
count_unused-spend_codes user hash now (r ∷ table) =
    let rest = count_unused-spend_codes user hash now table in
    elim (Bool-cases (r.user_id == user)) [
      | inr other ↦ rw (other, other) rest
      | inl own ↦ elim (Bool-cases (r.code_hash == hash)) [
        | inr other ↦
            rw (own, other, own)
              (elim (Bool-cases (is_unused r)) [
                | inl unused ↦ rw unused (omega (arith, rest))
                | inr used ↦ rw used rest
              ])
        | inl same ↦ elim (Bool-cases (is_unused r)) [
          | inl unused ↦ rw (own, same, unused, own) (omega (arith, rest))
          | inr used ↦ rw (own, same, used, own, used) rest
        ]
      ]
    ]

-- A recovery code that was just given, accepted or not, is refused when it is given again, and an accepted
-- one leaves the user one unused code less.
pub consume_recovery_code_lem :
    (upper : Text → Text) (hash : Text → String) (now later : ℕ) (table : List RecoveryRow)
    (user : String) (code : Text)
    → let (left, spent) = consume_recovery_code upper hash now table user code in
      ((consume_recovery_code upper hash later left user code).1 ≡ false)
      × (spent ≡ true
          → count_unused_recovery_codes left user + 1 ≡ count_unused_recovery_codes table user)
unfolding consume_recovery_code
consume_recovery_code_lem upper hash now later table user code = (
  consume_recovery_code_twice upper hash now later table user code,
  elim (Bool-cases (is_empty (normalize_recovery_code upper code))) [
    | inl blank ↦ rw blank (λ h. absurd cc)
    | inr full ↦ rw full (λ one.
        let all = count_unused-spend_codes user (hash_recovery_code upper hash code) now table in
        let single = (nat_beq_iff _ 1).0 one in omega (arith, all, single))
  ],
)

code_step :
    {env : Environment} {now : ℕ} {u : Member} {r : TotpRecord} {code : Text} {totp : List TotpRow}
    {recovery : List RecoveryRow} {t : LoginState} {m : String}
    → Factor env now u r code totp recovery t m
    → m ≡ "totp"
    → (step : ℕ) × (verify_totp env.hmac_sha1 env.upper r.secret code now ≡ some step)
      × (is_used_step r.last_used_step step ≡ false)
      × (t.totp ≡ note_totp_step totp u.id step)
code_step (by_code step e matched fresh after same) h = (step, matched, fresh, after)
code_step (by_recovery e spent after same) h = absurd (let both = sym e ∙ h in cc)

later_step : (last : Option ℕ) (m n : ℕ) → last ≡ some m → is_used_step last n ≡ false → m < n
later_step none m n e h = absurd cc
later_step (some x) m n e h = let same : x ≡ m = cc in ground (arith, same)

-- Where a user signs in twice by a one-time code, and nothing in between writes the enrolments, the second
-- code verifies at a later step than the first. So no code serves twice, also within its window.
pub login_totp_twice :
    (env : Environment) (now later : ℕ) (device other : Device) (x y : String) (code again : Text)
    (s t v w : LoginState) (id : String)
    → login_totp env now device (some (x, code)) s ≡ (t, signed_in id "totp")
    → v.totp ≡ t.totp
    → login_totp env later other (some (y, again)) v ≡ (w, signed_in id "totp")
    → (first second : TotpRecord) × (m n : ℕ) × (get_totp env.decrypt s.totp id ≡ some first)
      × (verify_totp env.hmac_sha1 env.upper first.secret code now ≡ some m)
      × (get_totp env.decrypt v.totp id ≡ some second)
      × (verify_totp env.hmac_sha1 env.upper second.secret again later ≡ some n)
      × (m < n)
login_totp_twice env now later device other x y code again s t v w id h kept k =
    let (u, r, _, found, _, enrolled, _, factor, _) =
      login_totp_lem env now device x code s t id "totp" h in
    let (u', r', _, _, _, enrolled', _, factor', _) =
      login_totp_lem env later other y again v w id "totp" k in
    let (m, matched, _, after) = code_step factor refl in
    let (n, matched', fresh, _) = code_step factor' refl in
    let own : u.id ≡ id = (eq_iff u.id id).0 (find-holds (has_member_id id) s.users found) in
    let table : v.totp ≡ note_totp_step s.totp id m =
      kept ∙ after ∙ ap (λ i. note_totp_step s.totp i m) own in
    let last =
      last-note_totp_step env.decrypt id m s.totp r'
        (subst (λ z. get_totp env.decrypt z id ≡ some r') table enrolled') in
    (
      r,
      r',
      m,
      n,
      enrolled,
      matched,
      enrolled',
      matched',
      later_step r'.last_used_step m n last fresh,
    )
