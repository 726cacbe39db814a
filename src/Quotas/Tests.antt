-- ===== src/Quotas/Tests.antt =====
-- Runs of the functions on quotas, and the theorems there.
use mathlib.Core.Path.{subst}
use text.Mathlib.TextEquality.{eq_iff}
use opennas.Base.{
  count, ℕ, ◌≤◌, ◌<◌, String, ◌≡◌, refl, inl, inr, true, false, Option, none, some, List, [], ◌∷◌,
  arith, Bool-cases, ◌==◌, nat_eq, string_eq, list_eq, find, codes,
}
use opennas.Shares.{ShareRow}
use opennas.Files.Access.{Tables}
use opennas.Quotas.{
  max_project, next_project, set_project, project_of, ensure_quota_project_id, delete_share,
}
use opennas.Quotas.Unique.{has_id, IsTracked, ensure_quota_project_id-IsTracked}

abbrev share_row : String → Option ℕ → ShareRow
share_row id project = record {
  id = id;
  name = codes id;
  comment = "";
  guest_access = "none";
  smb_enabled = true;
  nfs_enabled = false;
  browseable = true;
  volume = [];
  recycle_enabled = false;
  time_machine = false;
  quota_bytes = 0;
  quota_project_id = project;
  created_at = 0;
}

abbrev rows : List ShareRow
rows = share_row "media" none ∷ share_row "backup" none ∷ share_row "home" (some 1007) ∷ []

abbrev tables : Tables
tables = record {
  shares = record { shares = rows; permissions = []; group_permissions = []; members = [] };
  acls = [];
}

quota_code : Unit {0}
unfolding max_project next_project set_project ensure_quota_project_id delete_share
quota_code = tt

quota_tests :
    ((ensure_quota_project_id rows "media").1 ≡ 1008)
    × ((ensure_quota_project_id rows "home") ≡ (rows, 1007))
    × ((ensure_quota_project_id (share_row "media" none ∷ []) "media").1 ≡ 1001)
unfolding quota_code
quota_tests = (refl, refl, refl)

rows-IsTracked : IsTracked rows
rows-IsTracked = record {
  one_row = λ id. elim (Bool-cases ("media" == id)) [
    | inl media ↦ subst (λ x. count (has_id x) rows ≤ 1) ((eq_iff "media" id).0 media) (omega arith)
    | inr other ↦ elim (Bool-cases ("backup" == id)) [
      | inl backup ↦
          subst (λ x. count (has_id x) rows ≤ 1) ((eq_iff "backup" id).0 backup) (omega arith)
      | inr rest ↦ ground arith
    ]
  ];
  one_share = λ n positive. ground arith;
}

ensure_quota_project_id-IsTracked_example :
    (after : List ShareRow) × (n : ℕ) × (ensure_quota_project_id rows "media" ≡ (after, n))
    × IsTracked after
    × (0 < n)
    × (project_of (find (has_id "media") after) ≡ some n)
    × (ensure_quota_project_id after "media" ≡ (after, n))
ensure_quota_project_id-IsTracked_example =
    ensure_quota_project_id-IsTracked rows "media" (share_row "media" none) rows-IsTracked refl
