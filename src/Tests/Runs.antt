-- ===== src/Tests/Runs.antt =====
-- tools/task_automation/controller.py on a small task.
use night_recon.Prelude.{
  String, [], any, bool_Eq, false, get, insort, list_Eq, nat_Eq, none, ok, option_Eq, pair_Eq, refl,
  select, some, sorted, string_Eq, ◌*◌, ◌+◌, ◌==◌, ◌∷◌, ◌≡◌, ◌≤◌,
}
use night_recon.Automation.Checks.{
  Check, check_counts, check_exit, integer, is_check_name, is_executed, is_sha, validate,
}
use night_recon.Automation.Runs.{
  Candidate, Run, Step, TaskPolicy, admitted, advance, check_completion, check_frozen,
  check_observations, completed, enter, has_counts, has_edge, has_no_checks, is_bound, running,
  transition, validating,
}
use night_recon.Automation.Paths.{
  casefold, covered, covers, ends_with, is_path_name, split, starts_with,
}
use night_recon.Automation.Candidates.{
  Digests, Files, Task, all_paths, compare_paths, entry_Eq, flag, inspect_candidate, mode_allowed,
  operation_of, path_violations, paths_of, same_mode, snapshot, total_violations,
}
use night_recon.Automation.Scope.{IsAllowed, inspect_candidate-IsAllowed}
use night_recon.Automation.Evidence.{IsProven, transition-IsProven}
use night_recon.Automation.Length.{advance-length-le}
use night_recon.Tests.Policies.{policy_code}

abbrev policy : TaskPolicy
policy = record {
  digest = "policy-digest";
  base_sha = "base";
  branch_prefix = "codex/task-";
  allowed_submitters = "owner" ∷ [];
  allowed_roles = "admin" ∷ [];
  permitted_paths = "src/" ∷ [];
  protected_paths = "src/core/" ∷ [];
  permitted_operations = "add" ∷ "modify" ∷ [];
  allowed_modes = "100644" ∷ [];
  max_task_bytes = 4096;
  max_changed_files = 5;
  max_changed_bytes = 1000;
  max_repair_attempts = 1;
  max_runtime_minutes = 30;
  required_checks = "python-suite" ∷ [];
  allowed_skip_ids = [];
}

abbrev task : Task
task = record {
  task_id = "issue-1:r1:d";
  branch = "codex/task-1-r1-d";
  base_sha = "base";
  permitted_paths = "src/app.py" ∷ [];
  permitted_operations = "modify" ∷ [];
  policy_digest = "policy-digest";
}

abbrev before_files : Files
before_files = ("src/app.py", record { mode = "100644"; content = 1 ∷ [] }) ∷ []

abbrev after_files : Files
after_files = ("src/app.py", record { mode = "100644"; content = 2 ∷ [] }) ∷ []

abbrev digest : String
digest = "0123456789abcdef0123456789abcdef0123456789abcdef0123456789abcdef"

abbrev digests : Digests
digests = record { of_content = λ bytes. digest; of_binding = λ a b c x y. digest }

abbrev change : Candidate
change = record {
  task_id = "issue-1:r1:d";
  branch = "codex/task-1-r1-d";
  base_sha = "base";
  policy_digest = "policy-digest";
  digest = digest;
  changes =
      record {
        path = "src/app.py";
        operation = "modify";
        old_mode = some "100644";
        new_mode = some "100644";
      }
      ∷ [];
  violations = [];
}

run_code : Unit {0}
unfolding policy_code inspect_candidate snapshot compare_paths all_paths path_violations covered
    covers casefold starts_with ends_with split is_path_name sorted insort any select transition
    enter advance has_edge validate check_counts check_exit integer is_executed is_sha is_check_name
    check_observations check_frozen check_completion has_counts total_violations flag operation_of
    mode_allowed same_mode paths_of is_bound has_no_checks
run_code = tt

inspected : inspect_candidate digests task policy before_files after_files ≡ ok change
unfolding run_code
inspected = refl

app_differs : (get "src/app.py" before_files == get "src/app.py" after_files) ≡ false
unfolding run_code
app_differs = refl

inspect_candidate-IsAllowed_example :
    IsAllowed task policy "src/app.py"
      (get "src/app.py" before_files)
      (get "src/app.py" after_files)
inspect_candidate-IsAllowed_example =
    inspect_candidate-IsAllowed digests task policy before_files after_files change "src/app.py"
      inspected refl app_differs

abbrev admitted_run : Run
admitted_run = record {
  task_id = "issue-1:r1:d";
  branch = "codex/task-1-r1-d";
  base_sha = "base";
  policy_digest = "policy-digest";
  state = admitted;
  repair_attempts = 0;
  candidate = none;
  checks = [];
  reason = none;
}

abbrev suite : Check
suite = record {
  name = "python-suite";
  status = "passed";
  exit_code = some 0;
  candidate_digest = digest;
  tests_run = some 3;
  passed = some 3;
  failed = some 0;
  errors = some 0;
  skipped = some 0;
  skip_ids = [];
}

abbrev begins : Step
begins = record { target = running; candidate = none; checks = []; reason = none }

abbrev submits : Step
submits = record { target = validating; candidate = some change; checks = []; reason = none }

abbrev completes : Step
completes = record { target = completed; candidate = none; checks = suite ∷ []; reason = none }

abbrev validating_run : Run
validating_run = record admitted_run { state = validating; candidate = some change }

abbrev completed_run : Run
completed_run = record validating_run { state = completed; checks = suite ∷ [] }

advanced : advance policy admitted_run (begins ∷ submits ∷ completes ∷ []) ≡ ok completed_run
unfolding run_code
advanced = refl

completing : transition policy validating_run completes ≡ ok completed_run
unfolding run_code
completing = refl

transition-IsProven_example : IsProven policy completed_run
transition-IsProven_example =
    transition-IsProven policy validating_run completed_run completes completing refl

advance-length-le_example : 3 ≤ 2 * 1 + 4
advance-length-le_example =
    advance-length-le policy admitted_run completed_run (begins ∷ submits ∷ completes ∷ []) advanced
