-- ===== src/TaskPlan/Tests.antt =====
-- A plan of two tasks, of which the second needs the first and was dispatched before it.
use mathlib.Core.List.{Memᴰ}
use bastet_agent_os.Prelude.{String, ◌≡◌, refl, true, false, List, [], ◌∷◌, map, some, ok, err}
use bastet_agent_os.TaskPlan.{Plan, Db, no_source, stored, find_plan, task_plan, clear_undispatched}
use bastet_agent_os.TaskPlan.Ids.{task_id, is_task_id}
use bastet_agent_os.TaskPlan.Normalize.{
  RawTask, Task, needs, name, object, Item, names_of, unknown_dependencies, cycle,
  normalize_task_graph,
}
use bastet_agent_os.TaskPlan.WellFormed.{IsTaskGraph, normalize_task_graph-IsTaskGraph}
use bastet_agent_os.TaskPlan.RoundTrip.{normalize_task_graph-stored}
use bastet_agent_os.TaskPlan.Total.{is_exhausted, normalize_task_graph-ends}
use bastet_agent_os.TaskPlan.Removal.{IsRead, clear_undispatched-dangling}

abbrev raw : String → String → List String → String → RawTask
raw id title ds job = record {
  id = id;
  title = title;
  spec = "";
  role = "";
  needs = needs (map name ds);
  job_id = job;
  origin = "";
}

abbrev task : String → String → List String → String → Task
task id title ds job = record {
  id = id;
  title = title;
  spec = "";
  role = "";
  needs = ds;
  job_id = job;
  origin = "";
}

abbrev items : List Item
items =
    object (raw "" "Build it" [] "")
    ∷ object (raw "ship" "Ship" (" build-it " ∷ "build-it" ∷ []) "j")
    ∷ []

abbrev build : Task
build = task "build-it" "Build it" [] ""

abbrev ship : Task
ship = task "ship" "Ship" ("build-it" ∷ []) "j"

abbrev tasks : List Task
tasks = build ∷ ship ∷ []

tasks_found : normalize_task_graph items ≡ ok tasks
unfolding normalize_task_graph
tasks_found = refl

tasks-IsTaskGraph : IsTaskGraph tasks
tasks-IsTaskGraph = normalize_task_graph-IsTaskGraph items tasks tasks_found

normalize_task_graph-IsTaskGraph_example : IsTaskGraph tasks
normalize_task_graph-IsTaskGraph_example = normalize_task_graph-IsTaskGraph items tasks tasks_found

normalize_task_graph-stored_example :
    normalize_task_graph (map object (map stored tasks)) ≡ ok tasks
unfolding is_task_id
normalize_task_graph-stored_example =
    normalize_task_graph-stored items tasks tasks_found (refl, (refl, tt))

-- The second title is that of the first.
second_slug : task_id "Build  it!" 1 ("build-it" ∷ "build-it-2" ∷ []) ≡ some "build-it-3"
unfolding task_id
second_slug = refl

abbrev looped : List Item
looped = object (raw "a" "" ("b" ∷ []) "") ∷ object (raw "b" "" ("a" ∷ []) "") ∷ []

looped_raises : normalize_task_graph looped ≡ err (cycle "a")
unfolding normalize_task_graph
looped_raises = refl

normalize_task_graph-ends_example : is_exhausted (cycle "a") ≡ false
normalize_task_graph-ends_example = normalize_task_graph-ends looped (cycle "a") looped_raises

abbrev plan : Plan
plan = record { tasks = map stored tasks; at = ""; by = "pm"; confirmed = true; source = no_source }

abbrev db : Db
db = record {
  projects = record { id = "p"; plan = plan } ∷ [];
  receipts = [];
  jobs = [];
  cleared = [];
}

db-IsRead : IsRead "p" db plan tasks
unfolding find_plan task_plan is_task_id names_of
db-IsRead = record {
  previous = plan;
  found = refl;
  read = refl;
  same = refl;
  graph = tasks-IsTaskGraph;
  normal = (
    record { id_form = refl; texts = refl; distinct = refl },
    (record { id_form = refl; texts = refl; distinct = refl }, tt),
  );
}

clear_undispatched-dangling_example :
    (id : String) × (clear_undispatched "now" "p" db ≡ err (unknown_dependencies id))
clear_undispatched-dangling_example =
    clear_undispatched-dangling "now" "p" db plan tasks ship "build-it" db-IsRead
      (Memᴰ.tail (Memᴰ.head refl)) refl refl refl
