-- ===== src/Approvals/Status.antt =====
-- approval_engine.py: the events of a workflow that count at a time, and its status then.
use night_recon.Prelude.{
  Bool, List, Option, Result, String, any, bool_Eq, contains, false, find, if◌then◌else◌, leb,
  length, list_Eq, nat_Eq, none, not, option_Eq, pair_Eq, require, select, some, sorted, str_leb,
  string_Eq, true, ℕ, ◌&&◌,
}
use night_recon.Approvals.Records.{
  ApprovalError, ApprovalEvent, ApprovalPrincipal, ApprovalRequest, Moment, not_pending,
}
use night_recon.Approvals.History.{
  Status, Workflow, approved_state, due_at, expired, is_approved, is_escalated, is_pending,
  is_rejected, is_revoked, pending, rejected_state, revoked_state,
}

-- the events that count at a time, which is optional
unfoldable pub by_cutoff : Option ℕ → ApprovalEvent → Bool
by_cutoff none event = true
by_cutoff (some cutoff) event = leb event.occurred_at.instant cutoff

abbrev pub approval_by : Option ℕ → ApprovalEvent → Bool
approval_by cutoff event = is_approved event.event_type && by_cutoff cutoff event

-- `approval_events`
abbrev pub approval_events : Option ℕ → Workflow → List ApprovalEvent
approval_events cutoff w = select (approval_by cutoff) w.events

abbrev pub rejection_event : Option ℕ → Workflow → Option ApprovalEvent
rejection_event cutoff w =
    find (λ (e : ApprovalEvent). is_rejected e.event_type && by_cutoff cutoff e) w.events

abbrev pub revocation_event : Option ℕ → Workflow → Option ApprovalEvent
revocation_event cutoff w =
    find (λ (e : ApprovalEvent). is_revoked e.event_type && by_cutoff cutoff e) w.events

-- `ApprovalWorkflow.escalated`
abbrev pub was_escalated_by : Option ℕ → Workflow → Bool
was_escalated_by cutoff w =
    any (λ (e : ApprovalEvent). is_escalated e.event_type && by_cutoff cutoff e) w.events

abbrev pub is_some : {A : Type 0} → Option A → Bool
is_some none = false
is_some (some a) = true

unfoldable pub status : Moment → Workflow → Status
status at w =
    if is_some (revocation_event (some at.instant) w)
    then revoked_state
    else if is_some (rejection_event (some at.instant) w)
    then rejected_state
    else if leb w.request.expires_at.instant at.instant
    then expired
    else if leb w.request.policy.required_approvals (length (approval_events (some at.instant) w))
    then approved_state
    else pending

-- the roles of a principal that the policy accepts, in order
unfoldable pub eligible_roles_of : ApprovalRequest → ApprovalPrincipal → List String
eligible_roles_of request principal =
    sorted str_leb (select (λ r. contains r request.policy.eligible_roles) principal.roles)

unfoldable pub ensure_pending : Moment → Workflow → Result ApprovalError (Unit {0})
ensure_pending at w = require (is_pending (status at w)) not_pending

unfoldable pub escalation_due : Moment → Workflow → Bool
escalation_due at w = elim w.request.policy.escalation_after_seconds [
  | none ↦ false
  | some seconds ↦
      is_pending (status at w)
      && not (was_escalated_by (some at.instant) w)
      && leb (due_at w.request seconds) at.instant
]
