-- ===== src/ScheduledTasks/Due.antt =====
-- Which tasks a tick runs.
use mathlib.Core.Path.{subst}
use opennas.Base.{
  ℕ, zero, suc, ◌≤◌, ◌≡◌, refl, sym, ap, ◌⊎◌, inl, inr, true, List, [], ◌∷◌, map, arith, leb,
  Bool-cases, nat_eq, string_eq, list_eq, length, keep, All, take, Any,
}
use opennas.ScheduledTasks.{TaskRow, to_task, is_due, insert_due, sort_due, due_tasks}

IsSorted : List TaskRow → Type 0
IsSorted [] = Unit
IsSorted (r ∷ rows) = All (λ s. r.next_run_at ≤ s.next_run_at) rows × IsSorted rows

All-insert_due :
    (n : ℕ) (row : TaskRow) (rows : List TaskRow)
    → n ≤ row.next_run_at
    → All (λ s. n ≤ s.next_run_at) rows
    → All (λ s. n ≤ s.next_run_at) (insert_due row rows)
All-insert_due n row [] h hs = (h, tt)
All-insert_due n row (r ∷ rows) h (p, ps) = elim (Bool-cases (leb row.next_run_at r.next_run_at)) [
  | inl before ↦ rw before (h, (p, ps))
  | inr later ↦ rw later (p, All-insert_due n row rows h ps)
]

further :
    (row r : TaskRow) (rows : List TaskRow)
    → row.next_run_at ≤ r.next_run_at
    → All (λ s. r.next_run_at ≤ s.next_run_at) rows
    → All (λ s. row.next_run_at ≤ s.next_run_at) rows
further row r [] h hs = tt
further row r (s ∷ rows) h (p, ps) = (omega arith, further row r rows h ps)

insert_due-IsSorted :
    (row : TaskRow) (rows : List TaskRow) → IsSorted rows → IsSorted (insert_due row rows)
unfolding IsSorted
insert_due-IsSorted row [] h = (tt, tt)
insert_due-IsSorted row (r ∷ rows) (p, ps) = elim (Bool-cases (leb row.next_run_at r.next_run_at)) [
  | inl before ↦
      let first : row.next_run_at ≤ r.next_run_at = ground arith in
      rw before ((first, further row r rows first p), (p, ps))
  | inr later ↦
      let first : r.next_run_at ≤ row.next_run_at = ground arith in
      rw later (All-insert_due r.next_run_at row rows first p, insert_due-IsSorted row rows ps)
]

sort_due-IsSorted : (rows : List TaskRow) → IsSorted (sort_due rows)
unfolding IsSorted
sort_due-IsSorted [] = tt
sort_due-IsSorted (r ∷ rows) = insert_due-IsSorted r (sort_due rows) (sort_due-IsSorted rows)

module _ (x : TaskRow) where
  Any-insert_due :
      (row : TaskRow) (rows : List TaskRow)
      → (row ≡ x) ⊎ Any (λ s. s ≡ x) rows
      → Any (λ s. s ≡ x) (insert_due row rows)
  Any-insert_due row [] h = h
  Any-insert_due row (r ∷ rows) h = elim (Bool-cases (leb row.next_run_at r.next_run_at)) [
    | inl before ↦ rw before h
    | inr later ↦ rw later (elim h [
      | inl e ↦ inr (Any-insert_due row rows (inl e))
      | inr (inl e) ↦ inl e
      | inr (inr rest) ↦ inr (Any-insert_due row rows (inr rest))
    ])
  ]

  Any-sort_due : (rows : List TaskRow) → Any (λ s. s ≡ x) rows → Any (λ s. s ≡ x) (sort_due rows)
  Any-sort_due [] h = h
  Any-sort_due (r ∷ rows) (inl e) = Any-insert_due r (sort_due rows) (inl e)
  Any-sort_due (r ∷ rows) (inr h) = Any-insert_due r (sort_due rows) (inr (Any-sort_due rows h))

  Any-is_due :
      (now : ℕ) (rows : List TaskRow)
      → is_due now x ≡ true
      → Any (λ s. s ≡ x) rows
      → Any (λ s. s ≡ x) (keep (is_due now) rows)
  Any-is_due now [] due h = h
  Any-is_due now (r ∷ rows) due (inl e) =
      let mine : is_due now r ≡ true = subst (λ z. is_due now z ≡ true) (sym e) due in
      rw mine (inl e)
  Any-is_due now (r ∷ rows) due (inr h) = elim (Bool-cases (is_due now r)) [
    | inl same ↦ rw same (inr (Any-is_due now rows due h))
    | inr other ↦ rw other (Any-is_due now rows due h)
  ]

  at_most :
      (n : ℕ) (rows : List TaskRow)
      → All (λ s. n ≤ s.next_run_at) rows
      → Any (λ s. s ≡ x) rows
      → n ≤ x.next_run_at
  at_most n [] hs h = absurd h
  at_most n (r ∷ rows) (p, ps) (inl e) = subst (λ (z : TaskRow). n ≤ z.next_run_at) e p
  at_most n (r ∷ rows) (p, ps) (inr h) = at_most n rows ps h

  taken_or_full :
      (k : ℕ) (rows : List TaskRow)
      → IsSorted rows
      → Any (λ s. s ≡ x) rows
      → Any (λ t. t ≡ to_task x) (map to_task (take k rows))
        ⊎ ((length (map to_task (take k rows)) ≡ k)
            × All (λ t. t.task.next_run_at ≤ x.next_run_at) (map to_task (take k rows)))
  unfolding IsSorted
  taken_or_full zero rows sorted h = inr (refl, tt)
  taken_or_full (suc k) [] sorted h = absurd h
  taken_or_full (suc k) (r ∷ rows) (p, ps) (inl e) = inl (inl (ap to_task e))
  taken_or_full (suc k) (r ∷ rows) (p, ps) (inr h) = elim (taken_or_full k rows ps h) [
    | inl taken ↦ inl (inr taken)
    | inr (full, early) ↦ inr (ap suc full, (at_most r.next_run_at rows p h, early))
  ]

-- No task starves: one that is enabled and whose time has come is in the batch, or the batch is full of tasks
-- that are due no later.
pub due_tasks-is_due :
    (now limit : ℕ) (table : List TaskRow) (x : TaskRow)
    → Any (λ s. s ≡ x) table
    → is_due now x ≡ true
    → let batch = due_tasks now table limit in
      (Any (λ t. t ≡ to_task x) batch
        ⊎ ((length batch ≡ limit) × All (λ t. t.task.next_run_at ≤ x.next_run_at) batch))
unfolding due_tasks
due_tasks-is_due now limit table x h due =
    taken_or_full x limit (sort_due (keep (is_due now) table))
      (sort_due-IsSorted (keep (is_due now) table))
      (Any-sort_due x (keep (is_due now) table) (Any-is_due x now table due h))
