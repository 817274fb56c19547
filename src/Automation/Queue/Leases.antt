-- ===== src/Automation/Queue/Leases.antt =====
-- tools/task_automation/queue.py: the records that `enqueue`, `claim` and `reserve_attempt` make, and
-- the tests on a lease.
use night_recon.Prelude.{
  Bool, String, [], bool_Eq, false, leb, list_Eq, ltb, min, nat_Eq, none, option_Eq, pair_Eq, some,
  string_Eq, true, ℕ, ◌&&◌, ◌+◌, ◌==◌, ◌||◌,
}
use night_recon.Automation.Runs.{State, admitted, blocked, pending}
use night_recon.Automation.Queue.Objectives.{Approval, Changes, Objective}

unfoldable pub admit_pending : State → State
admit_pending pending = admitted
admit_pending s = s

unfoldable pub is_blocked : State → Bool
is_blocked blocked = true
is_blocked s = false

has_intent : Objective → Bool
has_intent r = elim r.intent [ none ↦ false | some intent ↦ true ]

unfoldable pub is_overdue : ℕ → Objective → Bool
unfolding has_intent
is_overdue now r =
    leb r.deadline now || has_intent r && ltb 0 r.lease_until && leb r.lease_until now

-- what a new objective starts from
unfoldable pub opening : Approval → ℕ → Objective
opening approval now = record {
  approval = approval;
  parent_sha = approval.base_sha;
  state = pending;
  version = 0;
  batch = 0;
  repairs = 0;
  attempts = 0;
  reserved_tokens = 0;
  reserved_cost_microusd = 0;
  started_at = now;
  deadline = min approval.expires_at (now + approval.limits.max_wall_seconds);
  lease_owner = none;
  lease_generation = 0;
  lease_until = 0;
  intent = none;
  commits = [];
  reason = none;
  plan = none;
  merge_sha = none;
  release_result = none;
}

-- the record after a successful `claim`
unfoldable pub claimed : String → ℕ → ℕ → Objective → Objective
unfolding admit_pending
claimed worker now lease_seconds r = elim r.intent [
  | some intent ↦ record r {
    state = blocked;
    reason = some "unresolved publication intent; reconcile remote state";
    version = r.version + 1;
  }
  | none ↦ record r {
    lease_owner = some worker;
    lease_generation = r.lease_generation + 1;
    lease_until = min (now + lease_seconds) r.deadline;
    state = admit_pending r.state;
    version = r.version + 1;
  }
]

-- `2**53 - 1`
abbrev pub largest : ℕ
largest = 9007199254740991

-- the holder of a lease, as `update` is told
pub record Holder : Type 0 where
  pub worker : String
  pub generation : ℕ
  pub version : ℕ

unfoldable pub holds : Holder → ℕ → Objective → Bool
holds h now r =
    r.lease_owner == some h.worker
    && r.lease_generation == h.generation
    && r.version == h.version
    && ltb now r.lease_until
    && ltb now r.deadline

-- the charge for one attempt, before it is made
unfoldable pub charge : Objective → ℕ → ℕ → Changes
charge r tokens cost_microusd = record {
  state = none;
  parent_sha = none;
  batch = none;
  repairs = none;
  attempts = some (r.attempts + 1);
  reserved_tokens = some (r.reserved_tokens + tokens);
  reserved_cost_microusd = some (r.reserved_cost_microusd + cost_microusd);
  intent = none;
  commits = none;
  reason = none;
  lease_until = none;
  plan = none;
  merge_sha = none;
  release_result = none;
}

-- the tests of `reserve_attempt` on the record as read
unfoldable pub affords : Approval → Objective → ℕ → ℕ → Bool
affords approval r tokens cost_microusd =
    r.approval.digest == approval.digest
    && leb (r.attempts + 1) approval.limits.max_attempts
    && leb (r.reserved_tokens + tokens) approval.limits.max_tokens
    && leb (r.reserved_cost_microusd + cost_microusd) approval.limits.max_cost_microusd
