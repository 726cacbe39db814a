-- ===== src/ScheduledTasks/Armed.antt =====
-- When a task is run again.
use opennas.Base.{
  ℕ, String, ◌≡◌, refl, ap, ◌∙◌, inl, inr, Bool, true, Option, none, some, List, [], ◌∷◌,
  nat_beq_iff, Bool-cases, nat_eq, string_eq, list_eq, ==_self, find,
}
use opennas.ScheduledTasks.{
  TaskRow, UpsertTask, has_key, requested, enabled_of, get_task, rearm, insert_task, upsert_task,
}

abbrev merged : TaskRow → Option TaskRow → TaskRow
merged row none = row
merged row (some r) = rearm row r

abbrev same_key : TaskRow → TaskRow → Bool
same_key row r = has_key row.app_id row.user_id row.name r

own_key : (row : TaskRow) → same_key row row ≡ true
own_key row =
    let app = ==_self row.app_id in
    let user = ==_self row.user_id in rw (app, user) (==_self row.name)

find-insert_task :
    (row : TaskRow) (table : List TaskRow)
    → find (same_key row) (insert_task row table) ≡ some (merged row (find (same_key row) table))
unfolding insert_task
find-insert_task row [] = let own = own_key row in rw own
find-insert_task row (r ∷ table) = elim (Bool-cases (same_key row r)) [
  | inl hit ↦ rw (hit, hit)
  | inr miss ↦ rw (miss, miss) (find-insert_task row table)
]

-- The same request again and again, with the ids and the times of a list.
abbrev pub register : UpsertTask → List (String × ℕ) → List TaskRow → List TaskRow
register input [] table = table
register input ((fresh, now) ∷ calls) table =
    register input calls (upsert_task fresh now table input).0

abbrev pub key_of : UpsertTask → TaskRow → Bool
key_of input r = has_key input.app_id input.user_id input.name r

find-upsert_task :
    (fresh : String) (now : ℕ) (input : UpsertTask) (table : List TaskRow) (r : TaskRow)
    → find (key_of input) table ≡ some r
    → r.interval_sec ≡ input.interval_seconds
    → (s : TaskRow) × (find (key_of input) (upsert_task fresh now table input).0 ≡ some s)
      × (s.interval_sec ≡ input.interval_seconds)
      × (s.id ≡ r.id)
      × (s.next_run_at ≡ r.next_run_at)
      × (s.enabled ≡ enabled_of input.enabled)
unfolding upsert_task
find-upsert_task fresh now input table r h e =
    let same = (nat_beq_iff r.interval_sec input.interval_seconds).1 e in
    let row = requested fresh now input (get_task table input.app_id input.user_id input.name) in
    (
      rearm row r,
      find-insert_task row table ∙ ap (λ o. some (merged row o)) h,
      refl,
      refl,
      rw same,
      refl,
    )

-- An app that registers a task again and again with the interval that the task has, say at every launch,
-- leaves it one row with its id, and never puts off its next run; what it asks last is whether it is enabled.
find-register :
    (input : UpsertTask) (call : String × ℕ) (calls : List (String × ℕ)) (table : List TaskRow)
    (r : TaskRow)
    → find (key_of input) table ≡ some r
    → r.interval_sec ≡ input.interval_seconds
    → (s : TaskRow) × (find (key_of input) (register input (call ∷ calls) table) ≡ some s)
      × (s.interval_sec ≡ input.interval_seconds)
      × (s.id ≡ r.id)
      × (s.next_run_at ≡ r.next_run_at)
      × (s.enabled ≡ enabled_of input.enabled)
find-register input (fresh, now) [] table r h e = find-upsert_task fresh now input table r h e
find-register input (fresh, now) (next ∷ calls) table r h e =
    let (s, found, interval, id, time, _) = find-upsert_task fresh now input table r h e in
    let (t, found', interval', id', time', on) =
      find-register input next calls _ s found interval in
    (t, found', interval', id' ∙ id, time' ∙ time, on)
