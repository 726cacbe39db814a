-- ===== src/Pending/Tests.antt =====
-- Runs of the hook, and the theorems there.
use opennas.Base.{
  ◌≡◌, refl, ◌↔◌, ◌⊎◌, true, false, none, some, [], ◌∷◌, nat_eq, string_eq, list_eq, list_beq, Text,
  codes, split, has_unit, starts_with, Free,
}
use opennas.Pending.{
  password, passkey, PendingState, require_passkey_enabled, pending_actions, is_allowed,
  question_mark, without_prefix, path_of, passes, setup_required, pending_gate,
}
use opennas.Pending.Named.{IsUnprefixed, IsBeforeQuery, IsClearing}
use opennas.Pending.Gate.{IsSettled, pending_gate_iff}

-- A temporary password, and no passkey where one is required.
abbrev fresh_user : PendingState
fresh_user = record {
  must_change_password = true;
  require_passkey_setting = some (codes "true");
  credentials = 0;
}

gate_code : Unit {0}
unfolding split starts_with list_beq has_unit require_passkey_enabled pending_actions is_allowed
    without_prefix path_of pending_gate
gate_code = tt

gate_tests :
    (pending_gate (some fresh_user) (codes "/api/auth/me?x=1") ≡ passes)
    × (pending_gate (some fresh_user) (codes "/api/auth/me/sessions")
        ≡ setup_required "You need to choose a new password before continuing."
            (password ∷ passkey ∷ []))
    × (pending_gate (some (record fresh_user { must_change_password = false })) (codes "/api/files")
        ≡ setup_required "You need to register a passkey before continuing." (passkey ∷ []))
    × (pending_gate none (codes "/api/files") ≡ passes)
unfolding gate_code
gate_tests = (refl, refl, refl, refl)

files-Free : Free question_mark (codes "/api/files")
unfolding gate_code
files-Free = refl

pending_gate_iff_example :
    (tail : Text) × (path : Text) × IsUnprefixed (codes "/api/files?x=1") tail
    × IsBeforeQuery tail path
    × ((pending_gate (some fresh_user) (codes "/api/files?x=1") ≡ passes)
        ↔ (IsClearing path ⊎ IsSettled fresh_user))
pending_gate_iff_example = pending_gate_iff fresh_user (codes "/api/files?x=1")
