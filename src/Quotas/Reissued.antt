-- ===== src/Quotas/Reissued.antt =====
-- What becomes of a quota number after its share is deleted.
use text.Mathlib.TextEquality.{eq_iff}
use opennas.Base.{
  clash, count, ℕ, ◌+◌, ◌≤◌, max, String, ◌≡◌, refl, sym, ap, ◌∙◌, inl, inr, true, false, not, none,
  some, List, [], ◌∷◌, Bool-cases, ◌==◌, nat_eq, string_eq, list_eq, keep, find, All, All-map,
  find_unique,
}
use opennas.Shares.{ShareRow}
use opennas.Files.Access.{Tables}
use opennas.Quotas.{
  larger, max_project, or_else, next_project, set_project, project_of, ensure_quota_project_id,
  delete_share,
}
use opennas.Quotas.Unique.{has_id, allocates, IsTracked}

max_project-keep :
    (id : String) (n : ℕ) (table : List ShareRow)
    → All (λ r. has_id id r ≡ true → r.quota_project_id ≡ none) table
    → max_project (keep (λ r. not (r.id == id)) (set_project id n table)) ≡ max_project table
unfolding max_project set_project
max_project-keep id n [] h = refl
max_project-keep id n (r ∷ table) h =
    let rest = max_project-keep id n table h.1 in
    elim (Bool-cases (r.id == id)) [
      | inl here ↦ let null = h.0 here in rw (here, here, null) rest
      | inr miss ↦
          let same : keep (λ x. not (x.id == id)) (set_project id n (r ∷ table))
              ≡ r ∷ keep (λ x. not (x.id == id)) (set_project id n table) =
            rw (miss, miss) in
          ap max_project same ∙ ap (larger r.quota_project_id) rest
    ]

only_row :
    (id : String) (table : List ShareRow) {row : ShareRow}
    → count (has_id id) table ≤ 1
    → find (has_id id) table ≡ some row
    → row.quota_project_id ≡ none
    → All (λ r. has_id id r ≡ true → r.quota_project_id ≡ none) table
only_row id table one found null =
    All-map _ _ (λ r same t. ap (λ x. x.quota_project_id) (same t) ∙ null) table
      (find_unique (has_id id) table found one)

find_kept :
    (id other : String) (n : ℕ) (table : List ShareRow)
    → (other == id) ≡ false
    → find (has_id other) (keep (λ r. not (r.id == id)) (set_project id n table))
      ≡ find (has_id other) table
unfolding set_project
find_kept id other n [] apart = refl
find_kept id other n (r ∷ table) apart =
    let rest = find_kept id other n table apart in
    elim (Bool-cases (r.id == id)) [
      | inl here ↦
          let same : r.id ≡ id = (eq_iff r.id id).0 here in
          let away : (r.id == other) ≡ false = elim (Bool-cases (r.id == other)) [
            | inl hit ↦
                let clash_id : other ≡ id = sym ((eq_iff r.id other).0 hit) ∙ same in
                absurd (clash apart ((eq_iff other id).1 clash_id))
            | inr miss ↦ miss
          ] in
          rw (here, here, away) rest
      | inr miss ↦ rw (miss, miss, rest)
    ]

-- A quota number is given out again: if a share gets its first number and is deleted, the next share that
-- asks for its first number gets the same one. The ids of the shares differ.
pub ensure_quota_project_id-delete_share :
    (db : Tables) (id other : String) (row next : ShareRow)
    → IsTracked db.shares.shares
    → (other == id) ≡ false
    → find (has_id id) db.shares.shares ≡ some row
    → row.quota_project_id ≡ none
    → find (has_id other) db.shares.shares ≡ some next
    → next.quota_project_id ≡ none
    → (let (after, n) = ensure_quota_project_id db.shares.shares id in
        let left = delete_share (record db { shares = record db.shares { shares = after } }) id in
        (ensure_quota_project_id left.shares.shares other).1 ≡ n)
unfolding delete_share
ensure_quota_project_id-delete_share db id other row next h apart found null found_next null_next =
    let table = db.shares.shares in
    let n = next_project table in
    let left = keep (λ r. not (r.id == id)) (set_project id n table) in
    let first = allocates table id (inl (ap project_of found ∙ null)) in
    let second =
      allocates left other
        (inl (ap project_of (find_kept id other n table apart ∙ found_next) ∙ null_next)) in
    let same = max_project-keep id n table (only_row id table (h.one_row id) found null) in
    rw first
      (ap (λ p. p.1) second ∙ (unfold next_project in ap (λ m. max 1000 (or_else 1000 m) + 1) same))
