-- ===== src/Approvals/Replay.antt =====
-- approval_engine.py: the loops of `ApprovalWorkflow.__post_init__`, over the chain of the events
-- and over the states that they lead to.
use night_recon.Prelude.{
  Bool, List, Option, Result, String, [], bool_Eq, contains, false, if◌then◌else◌, leb, length,
  list_Eq, ltb, nat_Eq, none, not, ok, option_Eq, pair_Eq, raise, require, some, string_Eq, true, ℕ,
  ◌&&◌, ◌++◌, ◌+◌, ◌==◌, ◌>>=◌, ◌>>◌, ◌||◌, ◌∷◌,
}
use night_recon.Approvals.Records.{
  ApprovalError, ApprovalEvent, ApprovalRequest, EventType, after_expiry, after_terminal, approved,
  approved_twice, broken_chain, delegated, duplicate_event, duplicate_requested, escalated,
  no_direct_authority, no_events, no_requested_event, not_approved, only_revocable, other_request,
  out_of_order, rejected, requested, revoked, sequence_gap, source_twice, too_early,
  unbound_request, wrong_origin,
}
use night_recon.Approvals.Payload.{Services, event_fingerprint, request_fingerprint}
use night_recon.Approvals.History.{
  Replay, Workflow, approved_state, check_decision, check_delegation, check_escalation, detail,
  direct_role, is_approved_state, is_requested, is_revoked, is_terminal, pending, rejected_state,
  revoked_state,
}

-- the variables before the loop of `_validate_history`
abbrev pub start_replay : ApprovalEvent → Replay
start_replay first = record {
  state = pending;
  approving_actors = [];
  authority_sources = [];
  was_escalated = false;
  prior_events = first ∷ [];
}

module _ (services : Services) where
  -- the branches of `_validate_history` on the type of the event
  unfoldable pub apply_event :
      EventType → ApprovalRequest → Replay → ApprovalEvent → Result ApprovalError Replay
  apply_event requested request r event = raise duplicate_requested
  apply_event approved request r event = do
    source ← check_decision services.platform request r event
    require (not (contains event.actor_id r.approving_actors)) approved_twice
    require (not (contains source r.authority_sources)) source_twice
    ok (record r {
      state =
          if leb request.policy.required_approvals (length (r.authority_sources ++ source ∷ []))
          then approved_state
          else r.state;
      approving_actors = r.approving_actors ++ event.actor_id ∷ [];
      authority_sources = r.authority_sources ++ source ∷ [];
    })
  apply_event rejected request r event = do
    source ← check_decision services.platform request r event
    ok (record r { state = rejected_state })
  apply_event delegated request r event = do
    check_delegation services.platform request r event
    ok r
  apply_event escalated request r event = do
    check_escalation services.platform services.loads_roles request r event
    ok (record r { was_escalated = true })
  apply_event revoked request r event = do
    require (is_approved_state r.state) not_approved
    direct ← direct_role services.platform request event.actor_id event.actor_role
    require direct no_direct_authority
    ok (record r { state = revoked_state })

  unfoldable pub replay_event :
      ApprovalRequest → Replay → ApprovalEvent → Result ApprovalError Replay
  replay_event request r event = do
    require (ltb event.occurred_at.instant request.expires_at.instant) after_expiry
    require (not (is_terminal r.state)) after_terminal
    require (not (is_approved_state r.state) || is_revoked event.event_type) only_revocable
    next ← apply_event event.event_type request r event
    ok (record next { prior_events = r.prior_events ++ event ∷ [] })

  -- `_validate_history`
  unfoldable pub replay :
      ApprovalRequest → Replay → List ApprovalEvent → Result ApprovalError Replay
  replay request r [] = ok r
  replay request r (event ∷ events) = do
    next ← replay_event request r event
    replay request next events

  follows : Option ApprovalEvent → ApprovalEvent → Bool
  follows none event = true
  follows (some previous) event = leb previous.occurred_at.instant event.occurred_at.instant

  unfoldable pub expected_previous : Option ApprovalEvent → Option String
  expected_previous none = none
  expected_previous (some previous) = some (event_fingerprint services previous)

  -- the loop of `__post_init__`
  unfoldable pub check_chain :
      ApprovalRequest
      → ℕ
      → List String
      → Option ApprovalEvent
      → List ApprovalEvent
      → Result ApprovalError (Unit {0})
  unfolding follows expected_previous
  check_chain request index seen_ids previous [] = ok tt
  check_chain request index seen_ids previous (event ∷ events) = do
    require (not (contains event.event_id seen_ids)) duplicate_event
    require (event.request_id == request.request_id) other_request
    require (event.sequence == index) sequence_gap
    require (event.previous_event_fingerprint == expected_previous previous) broken_chain
    require (leb request.requested_at.instant event.occurred_at.instant) too_early
    require (follows previous event) out_of_order
    check_chain request (index + 1) (event.event_id ∷ seen_ids) (some event) events

  -- the tests on the first event
  unfoldable pub check_first : ApprovalRequest → ApprovalEvent → Result ApprovalError (Unit {0})
  check_first request first = do
    require (is_requested first.event_type) no_requested_event
    require (detail "request_fingerprint" first == some (request_fingerprint services request))
        unbound_request
    require
        ((first.occurred_at.text == request.requested_at.text)
          && (first.actor_id == request.requested_by))
        wrong_origin

  -- `ApprovalWorkflow(request=…, events=…)`
  unfoldable pub build : ApprovalRequest → List ApprovalEvent → Result ApprovalError Workflow
  build request [] = raise no_events
  build request (first ∷ rest) = do
    check_chain request 0 [] none (first ∷ rest)
    check_first request first
    final ← replay request (start_replay first) rest
    ok (record { request = request; events = first ∷ rest })
