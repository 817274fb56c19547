-- ===== src/Automation/Queue/Calls.antt =====
-- tools/task_automation/queue.py: the methods of ObjectiveQueue, each in one transaction.
use night_recon.Prelude.{
  List, Result, String, [], bool_Eq, get, if◌then◌else◌, leb, list_Eq, ltb, nat_Eq, none, not, ok,
  option_Eq, or_raise, pair_Eq, put, raise, require, some, string_Eq, ℕ, ◌&&◌, ◌+◌, ◌==◌, ◌>>=◌,
  ◌>>◌, ◌∷◌,
}
use night_recon.Automation.Checks.{check_text}
use night_recon.Automation.Runs.{blocked}
use night_recon.Automation.Queue.Objectives.{
  Approval, Changes, Objective, QueueError, apply_changes, approval_conflict, approval_refused,
  budget_exhausted, check_changes, deadline_exceeded, is_final, lease_held, limit_exceeded, stale,
  terminal_objective,
}
use night_recon.Automation.Queue.Leases.{
  Holder, affords, charge, claimed, holds, is_blocked, is_overdue, largest, opening,
}
use night_recon.Automation.Queue.Tables.{Queue, Trust, from_rejected, read, transaction, write}

module _ (t : Trust) where
  unfoldable pub enqueue : String → ℕ → Queue → Result QueueError Objective × Queue
  unfolding opening
  enqueue raw now s = transaction s do
    approval ← or_raise (t.verify raw now) approval_refused
    elim (get approval.objective_id s.approvals) [
      | some (digest, envelope) ↦ do
        require (digest == approval.digest) approval_conflict
        stored ← or_raise (t.verify envelope now) approval_refused
        require (stored.digest == approval.digest) approval_conflict
        r ← read t approval.objective_id s
        ok (r, s)
      | none ↦ do
        let r = opening approval now
        next ←
            write t r "approved" (record s {
              approvals = put approval.objective_id (approval.digest, raw) s.approvals;
            })
        ok (r, next)
    ]

  unfoldable pub claim : String → String → ℕ → ℕ → Queue → Result QueueError Objective × Queue
  unfolding is_blocked
  claim id worker now lease_seconds s = transaction s do
    from_rejected (check_text (some worker) 128)
    require (leb now largest && leb 1 lease_seconds && leb lease_seconds 300) limit_exceeded
    r ← read t id s
    require (not (is_final r.state)) terminal_objective
    require (ltb now r.deadline) deadline_exceeded
    require (leb r.lease_until now) lease_held
    let new = claimed worker now lease_seconds r
    next ← write t new (if is_blocked new.state then "reconciliation_required" else "claimed") s
    ok (new, next)

  unfoldable pub update :
      String → Holder → ℕ → String → Changes → Queue → Result QueueError Objective × Queue
  update id h now event changes s = transaction s do
    from_rejected (check_text (some event) 128)
    r ← read t id s
    require (not (is_final r.state)) terminal_objective
    require (holds h now r) stale
    let new = apply_changes r changes
    check_changes r new
    let versioned = record new { version = r.version + 1 }
    next ← write t versioned event s
    ok (versioned, next)

  -- `expire`, which writes only where the time is over or a lease ended with an intent open
  unfoldable pub expire : String → ℕ → Queue → Result QueueError Objective × Queue
  unfolding is_overdue
  expire id now s = transaction s do
    r ← read t id s
    if not (is_final r.state) && is_overdue now r
        then (do
          let new = record r {
            state = blocked;
            reason = some "objective deadline/lease exceeded; reconcile any pending intent";
            version = r.version + 1;
          }
          next ← write t new "objective_timed_out" s
          ok (new, next))
        else ok (r, s)

  unfoldable pub check_charge : Approval → ℕ → ℕ → Queue → Result QueueError Objective
  check_charge approval tokens cost_microusd s = do
    require (leb 1 tokens && leb tokens approval.limits.max_tokens) limit_exceeded
    require (leb 1 cost_microusd && leb cost_microusd approval.limits.max_cost_microusd)
        limit_exceeded
    r ← read t approval.objective_id s
    require (affords approval r tokens cost_microusd) budget_exhausted
    ok r

  unfoldable pub reserve_attempt :
      Approval → Holder → ℕ → ℕ → ℕ → Queue → Result QueueError Objective × Queue
  reserve_attempt approval h now tokens cost_microusd s =
      elim (check_charge approval tokens cost_microusd s) [
        | raise e ↦ (raise e, s)
        | ok r ↦
            update approval.objective_id h now "attempt_budget_reserved"
              (charge r tokens cost_microusd) s
      ]

pub data Call : Type 0 where
  enqueues : String → ℕ → Call
  claims : String → String → ℕ → ℕ → Call
  updates : String → Holder → ℕ → String → Changes → Call
  reserves : Approval → Holder → ℕ → ℕ → ℕ → Call
  expires : String → ℕ → Call

unfoldable pub step : Trust → Queue → Call → Queue
step t s (enqueues raw now) = (enqueue t raw now s).1
step t s (claims id worker now lease_seconds) = (claim t id worker now lease_seconds s).1
step t s (updates id h now event changes) = (update t id h now event changes s).1
step t s (reserves approval h now tokens cost) = (reserve_attempt t approval h now tokens cost s).1
step t s (expires id now) = (expire t id now s).1

unfoldable pub run : Trust → Queue → List Call → Queue
run t s [] = s
run t s (c ∷ cs) = run t (step t s c) cs
