-- ===== src/SecondFactor/Proven.antt =====
-- What a sign-in by `/login/totp` proves.
use mathlib.Core.Path.{subst}
use text.Mathlib.TextEquality.{eq_iff}
use opennas.Base.{
  ℕ, zero, suc, ◌+◌, ◌≤◌, String, ◌≡◌, refl, sym, ap, ◌∙◌, ◌≢◌, inl, inr, true, false, ◌||◌, not,
  Option, none, some, List, [], ◌∷◌, arith, ltb, Bool-cases, Option-cases, ◌==◌, nat_eq, string_eq,
  list_eq, list_beq_iff, length, keep, find, Text, is_empty, Any, find-holds,
}
use opennas.SecondFactor.Codes.{
  digit_count, is_digit, base32_decode, hotp, current_step, window_steps, first_match, verify_totp,
}
use opennas.SecondFactor.Store.{
  TotpRow, TotpRecord, RecoveryRow, TicketRow, has_id, get_totp, note_totp_step,
  consume_recovery_code, peek_mfa_ticket, consume_mfa_ticket, delete_ticket,
}
use opennas.SecondFactor.Login.{
  Member, Device, LoginState, Environment, signed_in, sign_in, is_used_step, with_step,
  with_recovery, with_code, with_user, has_member_id, login_totp,
}

first_match_lem :
    (expected : ℕ → Text) (submitted : Text) (steps : List ℕ) (step : ℕ)
    → first_match expected submitted steps ≡ some step
    → (expected step ≡ submitted) × Any (λ x. x ≡ step) steps
unfolding first_match
first_match_lem expected submitted [] step h = absurd cc
first_match_lem expected submitted (x ∷ steps) step h =
    elim (Bool-cases (expected x == submitted)) [
      | inl hit ↦
          let same : x ≡ step = let first = rw hit at h in cc in
          (ap expected (sym same) ∙ (list_beq_iff (expected x) submitted).0 hit, inl same)
      | inr miss ↦
          let (e, later) = first_match_lem expected submitted steps step (rw miss at h) in
          (e, inr later)
    ]

near_now :
    (now step : ℕ) → Any (λ x. x ≡ step) (window_steps now) → (step ≤ now + 1) × (now ≤ step + 1)
near_now zero step (inl e) = (omega arith, omega arith)
near_now zero step (inr (inl e)) = (omega arith, omega arith)
near_now zero step (inr (inr e)) = absurd e
near_now (suc now) step (inl e) = (omega arith, omega arith)
near_now (suc now) step (inr (inl e)) = (omega arith, omega arith)
near_now (suc now) step (inr (inr (inl e))) = (omega arith, omega arith)
near_now (suc now) step (inr (inr (inr e))) = absurd e

-- The digits of a text are the one-time code of a step, which is the present one or a neighbour.
abbrev pub IsCodeOf : Environment → Text → Text → ℕ → ℕ → Type 0
IsCodeOf env secret_b32 code at_ms step =
    (secret : List ℕ) × (base32_decode env.upper secret_b32 ≡ some secret)
    × (hotp env.hmac_sha1 secret step digit_count ≡ keep is_digit code)
    × (step ≤ current_step at_ms + 1)
    × (current_step at_ms ≤ step + 1)

-- A code that verifies consists, its digits alone, of the one-time code of the step that is answered, for the
-- decoded secret, and that step is the present one or one of its neighbours.
pub verify_totp-IsCodeOf :
    (env : Environment) (secret_b32 code : Text) (at_ms step : ℕ)
    → verify_totp env.hmac_sha1 env.upper secret_b32 code at_ms ≡ some step
    → IsCodeOf env secret_b32 code at_ms step
unfolding verify_totp
verify_totp-IsCodeOf env secret_b32 code at_ms step h =
    elim (Bool-cases (not (length (keep is_digit code) == digit_count))) [
      | inl short ↦ let refused = rw short at h in absurd cc
      | inr full ↦
          let decoded = rw full at h in
          elim (Option-cases (base32_decode env.upper secret_b32)) [
            | inl foreign ↦ let refused = rw foreign at decoded in absurd cc
            | inr (secret, e) ↦
                let matched = rw e at decoded in
                let (same, near) =
                  first_match_lem (λ x. hotp env.hmac_sha1 secret x digit_count)
                    (keep is_digit code) (window_steps (current_step at_ms)) step matched in
                let (low, high) = near_now (current_step at_ms) step near in
                (secret, e, same, low, high)
          ]
    ]

-- The second factor that let a user in, and what it leaves: the step of a one-time code that is later than
-- the last one used, and is the last one used from now on, or a recovery code that was spent.
pub data Factor (env : Environment) (now : ℕ) (u : Member) (r : TotpRecord) (code : Text)
    (totp : List TotpRow) (recovery : List RecoveryRow) (t : LoginState) : String → Type 0 where
  by_code :
      {method : String} (step : ℕ)
      → method ≡ "totp"
      → verify_totp env.hmac_sha1 env.upper r.secret code now ≡ some step
      → is_used_step r.last_used_step step ≡ false
      → t.totp ≡ note_totp_step totp u.id step
      → t.recovery ≡ recovery
      → Factor env now u r code totp recovery t method
  by_recovery :
      {method : String}
      → method ≡ "recovery-code"
      → (consume_recovery_code env.upper env.hash_code now recovery u.id code).1 ≡ true
      → t.recovery ≡ (consume_recovery_code env.upper env.hash_code now recovery u.id code).0
      → t.totp ≡ totp
      → Factor env now u r code totp recovery t method

module _ (env : Environment) (now : ℕ) (x : String) (device : Device) where
  sign_in_lem :
      (u : Member) (method : String) (s t : LoginState) (id m : String)
      → sign_in env now x device u method s ≡ (t, signed_in id m)
      → (id ≡ u.id)
        × (m ≡ method)
        × (t.totp ≡ s.totp)
        × (t.recovery ≡ s.recovery)
        × (t.tickets ≡ consume_mfa_ticket env.hash_token s.tickets x)
  sign_in_lem u method s t id m h =
      let state = ap (λ p. p.0) h in
      let reply = ap (λ p. p.1) h in
      (
        cc,
        cc,
        ap (λ (q : LoginState). q.totp) (sym state),
        ap (λ (q : LoginState). q.recovery) (sym state),
        ap (λ (q : LoginState). q.tickets) (sym state),
      )

  abbrev SignedIn : Member → TotpRecord → Text → LoginState → LoginState → String → String → Type 0
  SignedIn u r code s t id m =
      (id ≡ u.id)
      × Factor env now u r code s.totp s.recovery t m
      × (t.tickets ≡ consume_mfa_ticket env.hash_token s.tickets x)

  with_recovery_lem :
      (u : Member) (r : TotpRecord) (code : Text) (s t : LoginState) (id m : String)
      → with_recovery env now x device u code s ≡ (t, signed_in id m)
      → SignedIn u r code s t id m
  with_recovery_lem u r code s t id m h =
      elim (Bool-cases
        ((consume_recovery_code env.upper env.hash_code now s.recovery u.id code).1)) [
          | inl spent ↦
              let (e, f, totp, recovery, tickets) =
                sign_in_lem u "recovery-code" _ t id m (rw (spent, with_recovery) at h) in
              (e, by_recovery f spent recovery totp, tickets)
          | inr wrong ↦ let refused = ap (λ p. p.1) (rw (wrong, with_recovery) at h) in absurd cc
        ]

  with_code_lem :
      (u : Member) (r : TotpRecord) (code : Text) (s t : LoginState) (id m : String)
      → with_code env now x device u r code s ≡ (t, signed_in id m)
      → SignedIn u r code s t id m
  with_code_lem u r code s t id m h =
      elim (Option-cases (verify_totp env.hmac_sha1 env.upper r.secret code now)) [
        | inr (step, matched) ↦
            let stepped = rw (matched, with_code) at h in
            elim (Bool-cases (is_used_step r.last_used_step step)) [
              | inl used ↦
                  let refused = ap (λ p. p.1) (rw (used, with_step) at stepped) in absurd cc
              | inr fresh ↦
                  let (e, f, totp, recovery, tickets) =
                    sign_in_lem u "totp" _ t id m (rw (fresh, with_step) at stepped) in
                  (e, by_code step f matched fresh totp recovery, tickets)
            ]
        | inl none_matched ↦ with_recovery_lem u r code s t id m (rw (none_matched, with_code) at h)
      ]

  with_user_lem :
      (code : Text) (u : Option Member) (r : Option TotpRecord) (s t : LoginState) (id m : String)
      → with_user env now x device code u r s ≡ (t, signed_in id m)
      → (v : Member) × (c : TotpRecord) × (u ≡ some v)
        × (r ≡ some c)
        × (c.confirmed_at ≢ none)
        × (v.is_disabled ≡ false)
        × SignedIn v c code s t id m
  with_user_lem code none r s t id m h = let refused = ap (λ p. p.1) h in absurd cc
  with_user_lem code (some v) none s t id m h = let refused = ap (λ p. p.1) h in absurd cc
  with_user_lem code (some v) (some c) s t id m h = elim (Option-cases c.confirmed_at) [
    | inl missing ↦ let refused = ap (λ p. p.1) (rw (missing, with_user) at h) in absurd cc
    | inr (at, e) ↦
        let enabled = rw (e, with_user) at h in
        elim (Bool-cases v.is_disabled) [
          | inl off ↦ let refused = ap (λ p. p.1) (rw off at enabled) in absurd cc
          | inr on ↦ (
            v,
            c,
            refl,
            refl,
            (λ n. let clash = sym e ∙ n in absurd cc),
            on,
            with_code_lem v c code s t id m (rw on at enabled),
          )
        ]
  ]

-- What a sign-in by `/login/totp` has shown.
abbrev pub Proven :
    Environment → ℕ → String → Text → LoginState → LoginState → String → String → Type 0
Proven env now x code s t id m =
    (u : Member) × (r : TotpRecord) × ((peek_mfa_ticket env.hash_token now s.tickets x).1 ≡ some id)
    × (find (has_member_id id) s.users ≡ some u)
    × (u.is_disabled ≡ false)
    × (get_totp env.decrypt s.totp id ≡ some r)
    × (r.confirmed_at ≢ none)
    × Factor env now u r code s.totp s.recovery t m
    × (find (has_id (env.hash_token x)) t.tickets ≡ none)

find-delete_ticket :
    (id : String) (table : List TicketRow) → find (has_id id) (delete_ticket id table) ≡ none
unfolding delete_ticket
find-delete_ticket id [] = refl
find-delete_ticket id (r ∷ table) = elim (Bool-cases (has_id id r)) [
  | inl hit ↦ rw hit (find-delete_ticket id table)
  | inr miss ↦ rw (miss, miss) (find-delete_ticket id table)
]

-- A request that `/login/totp` answers with a session came with a ticket that is neither too old nor tried too
-- often and that names the user; the user is not disabled and has a confirmed enrolment; the code is one that
-- verifies at a step later than the last one used, which it becomes, or it is an unused recovery code, which
-- is spent; and the ticket is gone.
pub login_totp_lem :
    (env : Environment) (now : ℕ) (device : Device) (x : String) (code : Text) (s t : LoginState)
    (id m : String)
    → login_totp env now device (some (x, code)) s ≡ (t, signed_in id m)
    → Proven env now x code s t id m
unfolding login_totp consume_mfa_ticket
login_totp_lem env now device x code s t id m h =
    elim (Bool-cases (x == "" || is_empty code || ltb 32 (length code))) [
      | inl malformed ↦ let refused = ap (λ p. p.1) (rw malformed at h) in absurd cc
      | inr formed ↦
          let known = rw formed at h in
          elim (Option-cases ((peek_mfa_ticket env.hash_token now s.tickets x).1)) [
            | inl none_found ↦ let refused = ap (λ p. p.1) (rw none_found at known) in absurd cc
            | inr (owner, e) ↦
                let (u, r, found, enrolled, confirmed, on, (same, factor, tickets)) =
                  with_user_lem env now x device code (find (has_member_id owner) s.users)
                    (get_totp env.decrypt s.totp owner) _ t id m (rw e at known) in
                let own : u.id ≡ owner =
                  (eq_iff u.id owner).0 (find-holds (has_member_id owner) s.users found) in
                let named : owner ≡ id = sym (same ∙ own) in
                (
                  u,
                  r,
                  e ∙ ap some named,
                  subst (λ o. find (has_member_id o) s.users ≡ some u) named found,
                  on,
                  subst (λ o. get_totp env.decrypt s.totp o ≡ some r) named enrolled,
                  confirmed,
                  factor,
                  ap (find (has_id (env.hash_token x))) tickets
                      ∙ find-delete_ticket (env.hash_token x) _,
                )
          ]
    ]
