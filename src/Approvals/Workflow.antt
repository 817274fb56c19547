-- ===== src/Approvals/Workflow.antt =====
-- approval_engine.py: the operations that append an event to a workflow. Each gives a new workflow,
-- built and checked from the old events and the new one.
use night_recon.Prelude.{
  Bool, List, Option, Result, String, [], any, bool_Eq, contains, if◌then◌else◌, leb, length,
  list_Eq, ltb, nat_Eq, none, not, ok, option_Eq, pair_Eq, raise, require, reverse, some, string_Eq,
  ℕ, ◌&&◌, ◌++◌, ◌==◌, ◌>>=◌, ◌>>◌, ◌||◌, ◌∷◌,
}
use night_recon.Approvals.Records.{
  ApprovalError, ApprovalEvent, ApprovalRequest, EventType, Moment, approval_schema_version,
  approved, approved_twice, bad_validity, delegated, delegation_disabled, escalated,
  escalation_early, find_principal, identifier, no_authority, no_direct_authority, not_approved,
  rejected, requested, requester_decides, requester_delegates, revoked, same_delegate, source_twice,
}
use night_recon.Approvals.Checks.{check_event}
use night_recon.Approvals.Payload.{Services, request_fingerprint}
use night_recon.Approvals.History.{
  Workflow, detail, in_force, is_approved_state, is_delegated, iso8601,
}
use night_recon.Approvals.Replay.{build, expected_previous}
use night_recon.Approvals.Status.{
  approval_events, eligible_roles_of, ensure_pending, escalation_due, status,
}

last_event : ApprovalEvent → List ApprovalEvent → ApprovalEvent
last_event e [] = e
last_event e (x ∷ xs) = last_event x xs

-- the type, the author, the role, the reason and the details of a new event
pub record Entry : Type 0 where
  pub event_id : String
  pub event_type : EventType
  pub actor_id : String
  pub actor_role : Option String
  pub reason : String
  pub details : List (String × String)

unfoldable pub separated : ApprovalRequest → String → Bool
separated request actor_id =
    request.policy.requester_may_approve || not (actor_id == request.requested_by)

-- the arguments of `delegate` beside the identifier, the time and the reason
pub record Delegation : Type 0 where
  pub delegator_id : String
  pub delegate_id : String
  pub delegated_role : String
  pub valid_until : String

module _ (services : Services) where
  unfoldable pub new_event : Workflow → Moment → Entry → Option ApprovalEvent → ApprovalEvent
  unfolding expected_previous
  new_event w at entry last = record {
    event_id = entry.event_id;
    request_id = w.request.request_id;
    sequence = length w.events;
    event_type = entry.event_type;
    occurred_at = at;
    actor_id = entry.actor_id;
    actor_role = entry.actor_role;
    reason = entry.reason;
    details = entry.details;
    previous_event_fingerprint = expected_previous services last;
    schema_version = approval_schema_version;
  }

  pub last_of : List ApprovalEvent → Option ApprovalEvent
  unfolding last_event
  last_of [] = none
  last_of (e ∷ es) = some (last_event e es)

  -- `_append`
  unfoldable pub append : Workflow → Moment → Entry → Result ApprovalError Workflow
  unfolding new_event last_of
  append w at entry = do
    event ← check_event (new_event w at entry (last_of w.events))
    build services w.request (w.events ++ event ∷ [])

  -- `ApprovalWorkflow.create`, with the author written out
  unfoldable pub create : ApprovalRequest → String → String → String → Result ApprovalError Workflow
  create request event_id actor_id reason = do
    actor ← find_principal actor_id request.principals
    event ← check_event (record {
      event_id = event_id;
      request_id = request.request_id;
      sequence = 0;
      event_type = requested;
      occurred_at = request.requested_at;
      actor_id = actor_id;
      actor_role = none;
      reason = reason;
      details = ("request_fingerprint", request_fingerprint services request) ∷ [];
      previous_event_fingerprint = none;
      schema_version = approval_schema_version;
    })
    build services request (event ∷ [])

  -- the loop of `_eligible_authority`, the latest event first
  unfoldable pub find_delegation :
      ApprovalRequest → String → ℕ → List ApprovalEvent → Result ApprovalError (String × String)
  find_delegation request actor_id at [] = raise no_authority
  find_delegation request actor_id at (event ∷ rest) =
      let next = find_delegation request actor_id at rest in
      elim (detail "delegated_role" event) [
        | none ↦ next
        | some role ↦
            if is_delegated event.event_type
              && (detail "delegate_id" event == some actor_id)
              && contains role request.policy.eligible_roles
            then (do
              valid ← in_force services.platform event at
              if valid then ok (role, event.actor_id) else next)
            else next
      ]

  -- `_eligible_authority`: the role, and whose authority it is
  unfoldable pub eligible_authority : Workflow → String → ℕ → Result ApprovalError (String × String)
  eligible_authority w actor_id at = do
    principal ← find_principal actor_id w.request.principals
    elim (eligible_roles_of w.request principal) [
      | [] ↦ find_delegation w.request actor_id at (reverse w.events)
      | role ∷ roles ↦ ok (role, actor_id)
    ]

  unfoldable pub approve :
      String → String → String → String → Workflow → Result ApprovalError Workflow
  unfolding separated
  approve event_id actor_id occurred_at reason w = do
    at ← iso8601 services.platform occurred_at
    ensure_pending at w
    require (separated w.request actor_id) requester_decides
    require (not (any (λ (e : ApprovalEvent). e.actor_id == actor_id) (approval_events none w)))
        approved_twice
    (role, source) ← eligible_authority w actor_id at.instant
    require
        (not (
          any (λ (e : ApprovalEvent). detail "authority_source" e == some source)
            (approval_events (some at.instant) w)))
        source_twice
    append w at (record {
      event_id = event_id;
      event_type = approved;
      actor_id = actor_id;
      actor_role = some role;
      reason = reason;
      details = ("authority_source", source) ∷ [];
    })

  unfoldable pub reject :
      String → String → String → String → Workflow → Result ApprovalError Workflow
  unfolding separated
  reject event_id actor_id occurred_at reason w = do
    at ← iso8601 services.platform occurred_at
    ensure_pending at w
    require (separated w.request actor_id) requester_decides
    (role, source) ← eligible_authority w actor_id at.instant
    append w at (record {
      event_id = event_id;
      event_type = rejected;
      actor_id = actor_id;
      actor_role = some role;
      reason = reason;
      details = ("authority_source", source) ∷ [];
    })

  -- the tests of `delegate` after those on the times
  unfoldable pub check_delegate : Delegation → Workflow → Result ApprovalError (Unit {0})
  unfolding separated
  check_delegate d w = do
    require w.request.policy.allow_delegation delegation_disabled
    require (not (d.delegator_id == d.delegate_id)) same_delegate
    require (separated w.request d.delegator_id && separated w.request d.delegate_id)
        requester_delegates
    delegator ← find_principal d.delegator_id w.request.principals
    delegate ← find_principal d.delegate_id w.request.principals
    identifier d.delegated_role
    require (contains d.delegated_role w.request.policy.eligible_roles) no_authority
    require (contains d.delegated_role delegator.roles) no_authority

  unfoldable pub delegate :
      String → Delegation → String → String → Workflow → Result ApprovalError Workflow
  delegate event_id d occurred_at reason w = do
    at ← iso8601 services.platform occurred_at
    until ← iso8601 services.platform d.valid_until
    ensure_pending at w
    check_delegate d w
    require (ltb at.instant until.instant && leb until.instant w.request.expires_at.instant)
        bad_validity
    append w at (record {
      event_id = event_id;
      event_type = delegated;
      actor_id = d.delegator_id;
      actor_role = some d.delegated_role;
      reason = reason;
      details =
          ("delegate_id", d.delegate_id)
          ∷ ("delegated_role", d.delegated_role)
          ∷ ("valid_until", d.valid_until)
          ∷ [];
    })

  unfoldable pub escalate :
      String → String → String → String → Workflow → Result ApprovalError Workflow
  escalate event_id actor_id occurred_at reason w = do
    at ← iso8601 services.platform occurred_at
    principal ← find_principal actor_id w.request.principals
    require (escalation_due at w) escalation_early
    append w at (record {
      event_id = event_id;
      event_type = escalated;
      actor_id = actor_id;
      actor_role = none;
      reason = reason;
      details = ("escalation_roles", services.dumps_roles w.request.policy.escalation_roles) ∷ [];
    })

  unfoldable pub revoke :
      String → String → String → String → Workflow → Result ApprovalError Workflow
  revoke event_id actor_id occurred_at reason w = do
    at ← iso8601 services.platform occurred_at
    require (is_approved_state (status at w)) not_approved
    principal ← find_principal actor_id w.request.principals
    elim (eligible_roles_of w.request principal) [
      | [] ↦ raise no_direct_authority
      | role ∷ roles ↦ append w at (record {
        event_id = event_id;
        event_type = revoked;
        actor_id = actor_id;
        actor_role = some role;
        reason = reason;
        details = [];
      })
    ]
