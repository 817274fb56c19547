-- ===== src/Automation/Runs.antt =====
-- tools/task_automation/controller.py: the states of a run and `transition`.
use night_recon.Prelude.{
  Bool, List, Option, Result, String, [], all, any, bool_Eq, contains, false, leb, list_Eq, ltb,
  map, nat_Eq, none, not, ok, option_Eq, or_raise, pair_Eq, require, some, string_Eq, subset, true,
  ℕ, ◌&&◌, ◌+◌, ◌==◌, ◌>>=◌, ◌>>◌, ◌||◌, ◌∷◌,
}
use night_recon.Automation.Checks.{
  Check, Rejected, binding_mismatch, candidate_required, check_text, counts_required,
  duplicate_check, evidence_replaced, frozen_candidate, illegal_transition, invalid_integer,
  missing_checks, needs_admission, nothing_to_repair, policy_mismatch, repair_limit, scope_failed,
  stale_check, unexpected_evidence, unexpected_reason, unexpected_skip, unresolved, validate,
}

pub record TaskPolicy : Type 0 where
  pub digest : String
  pub base_sha : String
  pub branch_prefix : String
  pub allowed_submitters : List String
  pub allowed_roles : List String
  pub permitted_paths : List String
  pub protected_paths : List String
  pub permitted_operations : List String
  pub allowed_modes : List String
  pub max_task_bytes : ℕ
  pub max_changed_files : ℕ
  pub max_changed_bytes : ℕ
  pub max_repair_attempts : ℕ
  pub max_runtime_minutes : ℕ
  pub required_checks : List String
  pub allowed_skip_ids : List String

pub record FileChange : Type 0 where
  pub path : String
  pub operation : String
  pub old_mode : Option String
  pub new_mode : Option String

pub record Candidate : Type 0 where
  pub task_id : String
  pub branch : String
  pub base_sha : String
  pub policy_digest : String
  pub digest : String
  pub changes : List FileChange
  pub violations : List String

pub data State : Type 0 where
  pending admitted running validating repairing blocked failed_state completed : State

pub record Run : Type 0 where
  pub task_id : String
  pub branch : String
  pub base_sha : String
  pub policy_digest : String
  pub state : State
  pub repair_attempts : ℕ
  pub candidate : Option Candidate
  pub checks : List Check
  pub reason : Option String

-- `_EDGES`
unfoldable pub has_edge : State → State → Bool
has_edge pending admitted = true
has_edge pending blocked = true
has_edge pending failed_state = true
has_edge admitted running = true
has_edge admitted blocked = true
has_edge admitted failed_state = true
has_edge running validating = true
has_edge running blocked = true
has_edge running failed_state = true
has_edge validating repairing = true
has_edge validating completed = true
has_edge validating blocked = true
has_edge validating failed_state = true
has_edge repairing validating = true
has_edge repairing blocked = true
has_edge repairing failed_state = true
has_edge s t = false

-- `scope_valid`
abbrev pub scope_valid : Candidate → Bool
scope_valid candidate = candidate.violations == []

-- what a caller hands to `transition` beside the run and the policy
pub record Step : Type 0 where
  pub target : State
  pub candidate : Option Candidate
  pub checks : List Check
  pub reason : Option String

abbrev pub is_none : {A : Type 0} → Option A → Bool
is_none none = true
is_none (some a) = false

unfoldable pub has_no_checks : List Check → Bool
has_no_checks [] = true
has_no_checks (c ∷ cs) = false

-- `candidate is None and not checks`
abbrev pub no_evidence : Step → Bool
no_evidence step = is_none step.candidate && has_no_checks step.checks

unfoldable pub is_bound : Run → Candidate → Bool
is_bound run candidate =
    candidate.task_id == run.task_id
    && candidate.branch == run.branch
    && candidate.base_sha == run.base_sha
    && candidate.policy_digest == run.policy_digest

-- the loop over the observations; `names` has those seen so far
unfoldable pub check_observations :
    TaskPolicy → Candidate → List String → List Check → Result Rejected (Unit {0})
check_observations policy candidate names [] = ok tt
check_observations policy candidate names (check ∷ checks) = do
  validate check
  require (not (contains check.name names)) duplicate_check
  require (check.candidate_digest == candidate.digest) stale_check
  require (subset check.skip_ids policy.allowed_skip_ids) unexpected_skip
  check_observations policy candidate (check.name ∷ names) checks

abbrev pub counted_checks : List String
counted_checks = "python-suite" ∷ "controller-tests" ∷ "red-package-boundary" ∷ []

-- a check that must give its counts does
unfoldable pub has_counts : Check → Bool
has_counts check = not (contains check.name counted_checks) || not (is_none check.tests_run)

abbrev pub check_names : List Check → List String
check_names checks = map (λ (c : Check). c.name) checks

unfoldable pub check_completion : TaskPolicy → Candidate → List Check → Result Rejected (Unit {0})
check_completion policy candidate checks = do
  require (scope_valid candidate) scope_failed
  require (subset policy.required_checks (check_names checks)) missing_checks
  require (all (λ (c : Check). c.status == "passed") checks) unresolved
  require (all has_counts checks) counts_required

unfoldable pub check_repair : TaskPolicy → Run → Candidate → List Check → Result Rejected (Unit {0})
check_repair policy run candidate checks = do
  require (not (scope_valid candidate) || any (λ (c : Check). c.status == "failed") checks)
      nothing_to_repair
  require (ltb run.repair_attempts policy.max_repair_attempts) repair_limit

-- what the transitions to `completed` and `repairing` share; gives the frozen candidate
unfoldable pub check_frozen : TaskPolicy → Run → Step → Result Rejected Candidate
check_frozen policy run step = do
  require (is_none step.candidate) frozen_candidate
  candidate ← or_raise run.candidate frozen_candidate
  check_observations policy candidate [] step.checks
  ok candidate

-- the branches of `transition` on the target
unfoldable pub enter : State → TaskPolicy → Run → Step → Result Rejected Run
enter blocked policy run step = do
  check_text step.reason 1024
  require (no_evidence step) evidence_replaced
  ok (record run { state = blocked; reason = step.reason })
enter failed_state policy run step = do
  check_text step.reason 1024
  require (no_evidence step) evidence_replaced
  ok (record run { state = failed_state; reason = step.reason })
enter validating policy run step = do
  require (is_none step.reason) unexpected_reason
  candidate ← or_raise step.candidate candidate_required
  require (has_no_checks step.checks) candidate_required
  require (is_bound run candidate) binding_mismatch
  ok (record run { state = validating; candidate = some candidate; checks = [] })
enter completed policy run step = do
  require (is_none step.reason) unexpected_reason
  candidate ← check_frozen policy run step
  check_completion policy candidate step.checks
  ok (record run { state = completed; checks = step.checks })
enter repairing policy run step = do
  require (is_none step.reason) unexpected_reason
  candidate ← check_frozen policy run step
  check_repair policy run candidate step.checks
  ok (record run {
    state = repairing;
    checks = step.checks;
    repair_attempts = run.repair_attempts + 1;
  })
enter target policy run step = do
  require (is_none step.reason) unexpected_reason
  require (no_evidence step) unexpected_evidence
  ok (record run { state = target })

is_admitted : State → Bool
is_admitted admitted = true
is_admitted s = false

unfoldable pub transition : TaskPolicy → Run → Step → Result Rejected Run
unfolding is_admitted
transition policy run step = do
  require (run.policy_digest == policy.digest && run.base_sha == policy.base_sha) policy_mismatch
  require (has_edge run.state step.target) illegal_transition
  require (not (is_admitted step.target)) needs_admission
  require (leb run.repair_attempts policy.max_repair_attempts) invalid_integer
  enter step.target policy run step

-- a caller's transitions, up to the first that is rejected
unfoldable pub advance : TaskPolicy → Run → List Step → Result Rejected Run
advance policy run [] = ok run
advance policy run (step ∷ steps) = do next ← transition policy run step; advance policy next steps
