-- ===== src/Pending/Gate.antt =====
-- When the hook refuses a request.
use opennas.Base.{
  ◌≡◌, refl, ap, ◌∙◌, ◌≢◌, ◌↔◌, ◌⊎◌, inl, inr, true, false, ◌&&◌, some, arith, Bool-cases,
  Option-cases, ◌==◌, nat_eq, string_eq, list_eq, list_beq_iff, Text, codes, clash,
}
use opennas.Pending.{
  PendingState, require_passkey_enabled, pending_actions, is_allowed, path_of, passes, reply_to,
  pending_gate,
}
use opennas.Pending.Named.{IsUnprefixed, IsBeforeQuery, IsClearing, path_of-names, is_allowed_iff}

-- What lets a request of a signed-in user through, wherever it goes.
abbrev pub IsSettled : PendingState → Type 0
IsSettled s =
    (s.must_change_password ≡ false)
    × ((s.require_passkey_setting ≢ some (codes "true")) ⊎ (s.credentials ≢ 0))

-- The setting counts as on exactly where it is stored as the text "true".
setting_on :
    (s : PendingState)
    → (require_passkey_enabled s ≡ true)
    → s.require_passkey_setting ≡ some (codes "true")
unfolding require_passkey_enabled
setting_on s h = elim (Option-cases s.require_passkey_setting) [
  | inl unset ↦ absurd (let never = rw (unset, require_passkey_enabled) at h in cc)
  | inr (v, set) ↦
      set ∙ ap some ((list_beq_iff v (codes "true")).0 (rw (set, require_passkey_enabled) at h))
]

setting_off :
    (s : PendingState)
    → (require_passkey_enabled s ≡ false)
    → s.require_passkey_setting ≢ some (codes "true")
unfolding require_passkey_enabled
setting_off s h e =
    clash (rw (e, require_passkey_enabled) at h)
      ((list_beq_iff (codes "true") (codes "true")).1 refl)

passkey_cases :
    (s : PendingState)
    → (((require_passkey_enabled s && s.credentials == 0) ≡ true)
        × (((s.require_passkey_setting ≢ some (codes "true")) ⊎ (s.credentials ≢ 0)) → ⊥))
      ⊎ (((require_passkey_enabled s && s.credentials == 0) ≡ false)
          × ((s.require_passkey_setting ≢ some (codes "true")) ⊎ (s.credentials ≢ 0)))
passkey_cases s = elim (Bool-cases (require_passkey_enabled s)) [
  | inr off ↦ inr (ground arith, inl (setting_off s off))
  | inl on ↦ elim (Bool-cases (s.credentials == 0)) [
    | inl empty ↦ inl (
      ground arith,
      λ either. elim either [
        | inl off ↦ off (setting_on s on)
        | inr some_key ↦ some_key (ground arith)
      ],
    )
    | inr full ↦ inr (ground arith, inr (λ e. ground arith))
  ]
]

settled : (s : PendingState) → (reply_to (pending_actions s) ≡ passes) ↔ IsSettled s
unfolding pending_actions require_passkey_enabled
settled s = elim (Bool-cases s.must_change_password) [
  | inl must ↦ (
    (λ h. let refused = rw (must, pending_actions) at h in absurd cc),
    (λ (no_must, rest). absurd (clash no_must must)),
  )
  | inr free ↦ elim (passkey_cases s) [
    | inl (lacks, never) ↦ (
      (λ h. let refused = rw (free, lacks, pending_actions) at h in absurd cc),
      (λ (no_must, rest). absurd (never rest)),
    )
    | inr (has, either) ↦ ((λ h. (free, either)), (λ h. rw (free, has, pending_actions)))
  ]
]

-- Every URL names one path: what stands before the first question mark, without an "/api" at the front. The hook lets
-- a request with a session through exactly if that path is one of those that clear the gate (the four of the user
-- and of signing out, the list of passkeys, and whatever lies below the profile pictures or the passkeys), or if
-- the user need not change the password and either has a passkey or the setting that requires one is not "true".
pub pending_gate_iff :
    (state : PendingState) (url : Text)
    → (tail : Text) × (path : Text) × IsUnprefixed url tail
      × IsBeforeQuery tail path
      × ((pending_gate (some state) url ≡ passes) ↔ (IsClearing path ⊎ IsSettled state))
unfolding pending_gate
pending_gate_iff state url =
    let (tail, bare, before) = path_of-names url in
    (
      tail,
      path_of url,
      bare,
      before,
      elim (Bool-cases (is_allowed (path_of url))) [
        | inl free ↦ ((λ h. inl ((is_allowed_iff (path_of url)).0 free)), (λ h. rw free))
        | inr shut ↦ (
          (λ h. inr ((settled state).0 (rw shut at h))),
          (λ either. elim either [
            | inl clears ↦ absurd (clash shut ((is_allowed_iff (path_of url)).1 clears))
            | inr done ↦ rw shut ((settled state).1 done)
          ]),
        )
      ],
    )
