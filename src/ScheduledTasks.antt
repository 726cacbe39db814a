-- ===== src/ScheduledTasks.antt =====
-- apps/api/src/db/scheduled-tasks.ts: work that apps asked for on a timer. An action is its JSON text. The id of a
-- new row (`nanoid`) is an argument.
use opennas.Base.{
  ℕ, zero, suc, ◌+◌, ◌*◌, String, Bool, true, false, ◌&&◌, ◌||◌, not, Option, none, some, List, [],
  ◌∷◌, ◌++◌, map, if◌then◌else◌, leb, ltb, ◌==◌, nat_eq, string_eq, find, keep, take, count, Text,
}
pub mod Due
pub mod Armed
mod Tests

pub data RunStatus : Type 0 where
  went_well went_wrong : RunStatus

pub record TaskRow : Type 0 where
  pub id : String
  pub app_id : String
  pub user_id : String
  pub name : String
  pub interval_sec : ℕ
  pub action : String
  pub enabled : Bool
  pub next_run_at : ℕ
  pub last_run_at : Option ℕ
  pub last_status : Option RunStatus
  pub last_error : Option Text
  pub created_at : ℕ

pub record ScheduledTask : Type 0 where
  pub id : String
  pub name : String
  pub interval_seconds : ℕ
  pub action : String
  pub enabled : Bool
  pub next_run_at : ℕ
  pub last_run_at : Option ℕ
  pub last_status : Option RunStatus
  pub last_error : Option Text
  pub created_at : ℕ

pub record DueTask : Type 0 where
  pub task : ScheduledTask
  pub app_id : String
  pub user_id : String

abbrev pub to_task : TaskRow → DueTask
to_task r = record {
  task = record {
    id = r.id;
    name = r.name;
    interval_seconds = r.interval_sec;
    action = r.action;
    enabled = r.enabled;
    next_run_at = r.next_run_at;
    last_run_at = r.last_run_at;
    last_status = r.last_status;
    last_error = r.last_error;
    created_at = r.created_at;
  };
  app_id = r.app_id;
  user_id = r.user_id;
}

abbrev pub to_public : DueTask → ScheduledTask
to_public t = t.task

abbrev pub is_owned_by : String → String → TaskRow → Bool
is_owned_by app user r = r.app_id == app && r.user_id == user

abbrev pub has_key : String → String → String → TaskRow → Bool
has_key app user name r = is_owned_by app user r && r.name == name

unfoldable pub count_tasks : List TaskRow → String → String → ℕ
count_tasks table app user = count (is_owned_by app user) table

abbrev pub public_row : Option TaskRow → Option ScheduledTask
public_row none = none
public_row (some r) = some (to_public (to_task r))

unfoldable pub get_task : List TaskRow → String → String → String → Option ScheduledTask
get_task table app user name = public_row (find (has_key app user name) table)

pub record UpsertTask : Type 0 where
  pub app_id : String
  pub user_id : String
  pub name : String
  pub interval_seconds : ℕ
  pub action : String
  pub enabled : Option Bool

abbrev pub enabled_of : Option Bool → Bool
enabled_of none = true
enabled_of (some b) = b

abbrev pub id_of : String → Option ScheduledTask → String
id_of fresh none = fresh
id_of fresh (some t) = t.id

-- ON CONFLICT(app_id, user_id, name) DO UPDATE.
abbrev pub rearm : TaskRow → TaskRow → TaskRow
rearm excluded r = record r {
  interval_sec = excluded.interval_sec;
  action = excluded.action;
  enabled = excluded.enabled;
  next_run_at =
      if not (r.interval_sec == excluded.interval_sec) then excluded.next_run_at else r.next_run_at;
}

unfoldable pub insert_task : TaskRow → List TaskRow → List TaskRow
insert_task row [] = row ∷ []
insert_task row (r ∷ table) =
    if has_key row.app_id row.user_id row.name r
    then rearm row r ∷ table
    else r ∷ insert_task row table

-- The row of the INSERT.
abbrev pub requested : String → ℕ → UpsertTask → Option ScheduledTask → TaskRow
requested fresh now input existing = record {
  id = id_of fresh existing;
  app_id = input.app_id;
  user_id = input.user_id;
  name = input.name;
  interval_sec = input.interval_seconds;
  action = input.action;
  enabled = enabled_of input.enabled;
  next_run_at = now + input.interval_seconds * 1000;
  last_run_at = none;
  last_status = none;
  last_error = none;
  created_at = now;
}

unfoldable pub upsert_task :
    String → ℕ → List TaskRow → UpsertTask → List TaskRow × Option ScheduledTask
unfolding insert_task get_task
upsert_task fresh now table input =
    let existing = get_task table input.app_id input.user_id input.name in
    let after = insert_task (requested fresh now input existing) table in
    (after, get_task after input.app_id input.user_id input.name)

unfoldable pub delete_task : List TaskRow → String → String → String → List TaskRow × Bool
delete_task table app user name =
    (keep (λ r. not (has_key app user name r)) table, ltb 0 (count (has_key app user name) table))

abbrev pub is_of_app : String → TaskRow → Bool
is_of_app app r = r.app_id == app

unfoldable pub delete_tasks_for_app : List TaskRow → String → List TaskRow × ℕ
delete_tasks_for_app table app =
    (keep (λ r. not (is_of_app app r)) table, count (is_of_app app) table)

abbrev pub is_due : ℕ → TaskRow → Bool
is_due now r = r.enabled && leb r.next_run_at now

-- ORDER BY next_run_at.
abbrev pub insert_due : TaskRow → List TaskRow → List TaskRow
insert_due row [] = row ∷ []
insert_due row (r ∷ table) =
    let rest = insert_due row table in
    if leb row.next_run_at r.next_run_at then row ∷ r ∷ table else r ∷ rest

abbrev pub sort_due : List TaskRow → List TaskRow
sort_due [] = []
sort_due (r ∷ table) = insert_due r (sort_due table)

unfoldable pub due_tasks : ℕ → List TaskRow → ℕ → List DueTask
due_tasks now table limit = map to_task (take limit (sort_due (keep (is_due now) table)))

abbrev pub cut : Option Text → Option Text
cut none = none
cut (some message) = some (take 500 message)

abbrev pub complete : ℕ → ℕ → RunStatus → Option Text → TaskRow → TaskRow
complete now interval status message r = record r {
  last_run_at = some now;
  last_status = some status;
  last_error = cut message;
  next_run_at = now + interval * 1000;
}

unfoldable pub complete_run : ℕ → List TaskRow → String → ℕ → RunStatus → Option Text → List TaskRow
complete_run now table id interval status message =
    map (λ r. if r.id == id then complete now interval status message r else r) table
