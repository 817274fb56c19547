-- ===== src/Automation/Queue/Objectives.antt =====
-- tools/task_automation/queue.py and objectives.py: the record of an objective, and the tests of
-- `update` on the changes that a worker asks for.
use night_recon.Prelude.{
  Bool, List, Option, Result, String, false, if◌then◌else◌, leb, none, ok, raise, require, some,
  true, ℕ, ◌&&◌, ◌>>◌,
}
use night_recon.Automation.Checks.{Rejected, check_text}
use night_recon.Automation.Runs.{
  State, admitted, blocked, completed, failed_state, repairing, running, validating,
}

pub record Limits : Type 0 where
  pub max_batches : ℕ
  pub max_repairs_per_batch : ℕ
  pub max_attempts : ℕ
  pub max_wall_seconds : ℕ
  pub max_tokens : ℕ
  pub max_cost_microusd : ℕ

-- A verified approval, with its task's branch, base and paths.
pub record Approval : Type 0 where
  pub objective_id : String
  pub owner : String
  pub digest : String
  pub branch : String
  pub base_sha : String
  pub permitted_paths : List String
  pub acceptance_criteria : List String
  pub approved_at : ℕ
  pub expires_at : ℕ
  pub limits : Limits
  pub release_authorized : Bool
  pub release_tag : Option String
  pub artifact_names : List String
  pub signing_key_ids : List String

-- The record of an objective; what it copies from the approval is kept as the approval.
pub record Objective : Type 0 where
  pub approval : Approval
  pub parent_sha : String
  pub state : State
  pub version : ℕ
  pub batch : ℕ
  pub repairs : ℕ
  pub attempts : ℕ
  pub reserved_tokens : ℕ
  pub reserved_cost_microusd : ℕ
  pub started_at : ℕ
  pub deadline : ℕ
  pub lease_owner : Option String
  pub lease_generation : ℕ
  pub lease_until : ℕ
  pub intent : Option String
  pub commits : List String
  pub reason : Option String
  pub plan : Option String
  pub merge_sha : Option String
  pub release_result : Option String

-- The `changes` of `update`: the fields that it may change, each given or not.
pub record Changes : Type 0 where
  pub state : Option State
  pub parent_sha : Option String
  pub batch : Option ℕ
  pub repairs : Option ℕ
  pub attempts : Option ℕ
  pub reserved_tokens : Option ℕ
  pub reserved_cost_microusd : Option ℕ
  pub intent : Option (Option String)
  pub commits : Option (List String)
  pub reason : Option (Option String)
  pub lease_until : Option ℕ
  pub plan : Option (Option String)
  pub merge_sha : Option (Option String)
  pub release_result : Option (Option String)

pub data QueueError : Type 0 where
  unknown_objective bad_history duplicate_event approval_conflict approval_refused : QueueError
  terminal_objective deadline_exceeded lease_held stale counter_decreased limit_exceeded :
      QueueError
  illegal_edge lease_beyond_deadline budget_exhausted : QueueError
  rejected : Rejected → QueueError

-- the states that `claim`, `update` and `expire` leave alone
unfoldable pub is_final : State → Bool
is_final completed = true
is_final failed_state = true
is_final blocked = true
is_final s = false

-- `edges` of `update`
unfoldable pub has_queue_edge : State → State → Bool
has_queue_edge admitted running = true
has_queue_edge admitted blocked = true
has_queue_edge admitted failed_state = true
has_queue_edge running running = true
has_queue_edge running validating = true
has_queue_edge running blocked = true
has_queue_edge running failed_state = true
has_queue_edge validating validating = true
has_queue_edge validating running = true
has_queue_edge validating repairing = true
has_queue_edge validating blocked = true
has_queue_edge validating failed_state = true
has_queue_edge validating completed = true
has_queue_edge repairing repairing = true
has_queue_edge repairing validating = true
has_queue_edge repairing blocked = true
has_queue_edge repairing failed_state = true
has_queue_edge s t = false

or_else : {A : Type 0} → Option A → A → A
or_else none a = a
or_else (some b) a = b

-- `record | changes`
unfoldable pub apply_changes : Objective → Changes → Objective
unfolding or_else
apply_changes r c = record r {
  state = or_else c.state r.state;
  parent_sha = or_else c.parent_sha r.parent_sha;
  batch = or_else c.batch r.batch;
  repairs = or_else c.repairs r.repairs;
  attempts = or_else c.attempts r.attempts;
  reserved_tokens = or_else c.reserved_tokens r.reserved_tokens;
  reserved_cost_microusd = or_else c.reserved_cost_microusd r.reserved_cost_microusd;
  intent = or_else c.intent r.intent;
  commits = or_else c.commits r.commits;
  reason = or_else c.reason r.reason;
  lease_until = or_else c.lease_until r.lease_until;
  plan = or_else c.plan r.plan;
  merge_sha = or_else c.merge_sha r.merge_sha;
  release_result = or_else c.release_result r.release_result;
}

stops : State → Bool
stops blocked = true
stops failed_state = true
stops s = false

-- the tests of `update` that compare the old record with the new one
unfoldable pub check_changes : Objective → Objective → Result QueueError (Unit {0})
unfolding stops
check_changes r new = do
  let limits = r.approval.limits
  require
      (leb r.attempts new.attempts
        && leb r.reserved_tokens new.reserved_tokens
        && leb r.reserved_cost_microusd new.reserved_cost_microusd)
      counter_decreased
  require
      (leb new.attempts limits.max_attempts
        && leb new.reserved_tokens limits.max_tokens
        && leb new.reserved_cost_microusd limits.max_cost_microusd)
      limit_exceeded
  require
      (leb r.batch new.batch
        && leb new.batch limits.max_batches
        && leb new.repairs limits.max_repairs_per_batch)
      limit_exceeded
  require (has_queue_edge r.state new.state) illegal_edge
  if stops new.state
      then (elim (check_text new.reason 1024) [ ok u ↦ ok tt | raise e ↦ raise (rejected e) ])
      else ok tt
  require (leb new.lease_until r.deadline) lease_beyond_deadline
