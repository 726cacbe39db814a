-- ===== src/ScheduledTasks/Tests.antt =====
-- Runs of the timers at concrete inputs.
use opennas.Base.{
  ℕ, ◌≤◌, String, ◌≡◌, refl, ◌⊎◌, inl, Bool, true, false, none, List, [], ◌∷◌, map, nat_eq,
  string_eq, list_eq, length, All, Any,
}
use opennas.ScheduledTasks.{
  TaskRow, DueTask, UpsertTask, went_wrong, to_task, get_task, count_tasks, insert_task,
  upsert_task, delete_task, delete_tasks_for_app, due_tasks, complete_run,
}
use opennas.ScheduledTasks.Due.{due_tasks-is_due}

abbrev row : String → String → ℕ → Bool → TaskRow
row id name next enabled = record {
  id = id;
  app_id = "feeds";
  user_id = "ann";
  name = name;
  interval_sec = 60;
  action = "fetch";
  enabled = enabled;
  next_run_at = next;
  last_run_at = none;
  last_status = none;
  last_error = none;
  created_at = 0;
}

abbrev table : List TaskRow
table = row "1" "a" 30 true ∷ row "2" "b" 10 true ∷ row "3" "c" 20 false ∷ row "4" "d" 99 true ∷ []

abbrev input : UpsertTask
input = record {
  app_id = "feeds";
  user_id = "ann";
  name = "a";
  interval_seconds = 60;
  action = "fetch";
  enabled = none;
}

task_code : Unit {0}
unfolding get_task count_tasks insert_task upsert_task delete_task delete_tasks_for_app due_tasks
    complete_run
task_code = tt

task_tests :
    (map (λ (t : DueTask). t.task.id) (due_tasks 50 table 25) ≡ "2" ∷ "1" ∷ [])
    × (map (λ (t : DueTask). t.task.id) (due_tasks 50 table 1) ≡ "2" ∷ [])
    × (map
          (λ (t : DueTask). t.task.id)
          (due_tasks 50 (complete_run 50 table "2" 60 went_wrong none) 25)
        ≡ "1" ∷ [])
    × (count_tasks table "feeds" "ann" ≡ 4)
    × (map (λ (r : TaskRow). r.next_run_at) (upsert_task "5" 50 table input).0
        ≡ 30 ∷ 10 ∷ 20 ∷ 99 ∷ [])
    × (map
          (λ (r : TaskRow). r.next_run_at)
          (upsert_task "5" 50 table (record input { interval_seconds = 1 })).0
        ≡ 1050 ∷ 10 ∷ 20 ∷ 99 ∷ [])
    × ((delete_task table "feeds" "ann" "z").1 ≡ false)
    × ((delete_tasks_for_app table "feeds") ≡ ([], 4))
unfolding task_code
task_tests = (refl, refl, refl, refl, refl, refl, refl, refl)

due_tasks-is_due_example :
    (let batch = due_tasks 50 table 1 in
      (Any (λ t. t ≡ to_task (row "1" "a" 30 true)) batch
        ⊎ ((length batch ≡ 1) × All (λ t. t.task.next_run_at ≤ 30) batch)))
due_tasks-is_due_example = due_tasks-is_due 50 1 table (row "1" "a" 30 true) (inl refl) refl
