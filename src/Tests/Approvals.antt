-- ===== src/Tests/Approvals.antt =====
-- approval_engine.py on a request that two principals must approve.
use night_recon.Prelude.{
  String, [], any, arith, false, find, insort, none, ok, raise, refl, select, some, sorted, true,
  ◌||◌, ◌∷◌, ◌≡◌,
}
use night_recon.Approvals.Records.{
  ApprovalError, ApprovalEvent, ApprovalGrant, ApprovalPolicy, ApprovalRequest, Moment, approved,
  approved_twice, check_each, check_sha256, dual, find_principal, from_target, identifier,
  is_identifier, rejected, requested, required_text, sorted_unique,
}
use night_recon.Approvals.Checks.{check_event, check_grant, check_optional}
use night_recon.Approvals.Payload.{
  Services, event_fingerprint, request_fingerprint, workflow_fingerprint,
}
use night_recon.Approvals.History.{
  Replay, Workflow, approved_state, authority_of, check_decision, direct_role, is_approved,
  is_approved_state, is_pending, is_rejected, is_requested, is_revoked, is_terminal, iso8601,
  parse_time,
}
use night_recon.Approvals.Replay.{
  apply_event, build, check_chain, check_first, replay, replay_event, start_replay,
}
use night_recon.Approvals.Status.{by_cutoff, eligible_roles_of, ensure_pending, status}
use night_recon.Approvals.Workflow.{append, approve, create, eligible_authority, reject}
use night_recon.Approvals.Grant.{Binding, bound_to, draft_grant, grant, grant_matches, same_grant}
use night_recon.Approvals.Invariant.{has_rejection, has_revocation}
use night_recon.Approvals.Standing.{HasQuorum, status-HasQuorum, status-replay}
use night_recon.Approvals.Grants.{Covers, grant_matches-HasQuorum}
use night_recon.Approvals.Operations.{approves, perform}
use night_recon.Approvals.Recording.{IsRecorded}
use night_recon.Approvals.Recorded.{perform-IsRecorded}
use night_recon.Approvals.Terminal.{perform-closed}
use night_recon.Policy.{replace_z}
use night_recon.Tests.Platforms.{known}
use night_recon.Tests.Policies.{policy_code}

-- sixty-four hexadecimal digits
abbrev digest : String
digest = "0123456789abcdef0123456789abcdef0123456789abcdef0123456789abcdef"

abbrev lab_services : Services
lab_services = record {
  platform = known;
  fingerprint = λ payload. digest;
  dumps_roles = λ roles. "[]";
  loads_roles = λ text. some [];
}

abbrev january : Moment
january = record { text = "2026-01-01T00:00:00Z"; instant = 1000 }

abbrev february : Moment
february = record { text = "2026-02-01T00:00:00Z"; instant = 2000 }

abbrev march : Moment
march = record { text = "2026-03-01T00:00:00Z"; instant = 3000 }

abbrev december : Moment
december = record { text = "2026-12-31T00:00:00Z"; instant = 9000 }

abbrev two_of_them : ApprovalPolicy
two_of_them = record {
  mode = dual;
  required_approvals = 2;
  eligible_roles = "approver" ∷ [];
  requester_may_approve = false;
  allow_delegation = true;
  escalation_after_seconds = none;
  escalation_roles = [];
}

abbrev lab_request : ApprovalRequest
lab_request = record {
  request_id = "req-1";
  engagement_id = "eng-1";
  policy_bundle_fingerprint = digest;
  requested_at = january;
  expires_at = december;
  requested_by = "alice";
  principals =
      record { principal_id = "alice"; roles = "operator" ∷ [] }
      ∷ record { principal_id = "bob"; roles = "approver" ∷ [] }
      ∷ record { principal_id = "carol"; roles = "approver" ∷ [] }
      ∷ [];
  capability = "scan.tcp";
  target = "10.1.0.7";
  impact = "high";
  reason = "quarterly scan";
  policy = two_of_them;
  operation_id = none;
  schema_version = 1;
}

abbrev opening : ApprovalEvent
opening = record {
  event_id = "ev-0";
  request_id = "req-1";
  sequence = 0;
  event_type = requested;
  occurred_at = january;
  actor_id = "alice";
  actor_role = none;
  reason = "approval requested";
  details = ("request_fingerprint", digest) ∷ [];
  previous_event_fingerprint = none;
  schema_version = 1;
}

abbrev approval_by_bob : ApprovalEvent
approval_by_bob = record {
  event_id = "ev-1";
  request_id = "req-1";
  sequence = 1;
  event_type = approved;
  occurred_at = february;
  actor_id = "bob";
  actor_role = some "approver";
  reason = "reviewed";
  details = ("authority_source", "bob") ∷ [];
  previous_event_fingerprint = some digest;
  schema_version = 1;
}

abbrev approval_by_carol : ApprovalEvent
approval_by_carol = record approval_by_bob {
  event_id = "ev-2";
  sequence = 2;
  occurred_at = march;
  actor_id = "carol";
  details = ("authority_source", "carol") ∷ [];
}

abbrev rejection_by_carol : ApprovalEvent
rejection_by_carol = record approval_by_carol { event_type = rejected }

abbrev half_approved : Workflow
half_approved = record { request = lab_request; events = opening ∷ approval_by_bob ∷ [] }

abbrev full_approved : Workflow
full_approved = record {
  request = lab_request;
  events = opening ∷ approval_by_bob ∷ approval_by_carol ∷ [];
}

abbrev turned_down : Workflow
turned_down = record {
  request = lab_request;
  events = opening ∷ approval_by_bob ∷ rejection_by_carol ∷ [];
}

workflow_code : Unit {0}
unfolding policy_code find any select sorted insort build check_chain check_first replay
    replay_event apply_event approve eligible_authority eligible_roles_of append check_event
    ensure_pending status create check_decision authority_of direct_role find_principal iso8601
    parse_time replace_z required_text by_cutoff grant draft_grant check_grant sorted_unique
    grant_matches same_grant bound_to perform reject
workflow_code = tt

request_opened :
    create lab_services lab_request "ev-0" "alice" "approval requested"
    ≡ ok (record { request = lab_request; events = opening ∷ [] })
unfolding workflow_code identifier required_text is_identifier check_optional request_fingerprint
    is_requested
request_opened = refl

full_approved_built : build lab_services lab_request full_approved.events ≡ ok full_approved
unfolding workflow_code event_fingerprint is_requested request_fingerprint is_terminal
    is_approved_state is_pending
full_approved_built = refl

turned_down_built : build lab_services lab_request turned_down.events ≡ ok turned_down
unfolding workflow_code event_fingerprint is_requested request_fingerprint is_terminal
    is_approved_state is_pending
turned_down_built = refl

carol_approves :
    approve lab_services "ev-2" "carol" "2026-03-01T00:00:00Z" "reviewed" half_approved
    ≡ ok full_approved
unfolding workflow_code is_pending is_revoked is_rejected is_approved identifier is_identifier
    check_optional check_sha256 event_fingerprint is_requested request_fingerprint is_terminal
    is_approved_state
carol_approves = refl

bob_again :
    approve lab_services "ev-2" "bob" "2026-03-01T00:00:00Z" "reviewed" half_approved
    ≡ raise approved_twice
unfolding workflow_code is_pending is_revoked is_rejected is_approved
bob_again = refl

march_approved : status march full_approved ≡ approved_state
unfolding workflow_code is_revoked is_rejected is_approved by_cutoff
march_approved = refl

status-HasQuorum_example : HasQuorum lab_services march full_approved
status-HasQuorum_example =
    status-HasQuorum lab_services lab_request full_approved.events full_approved march (omega arith)
      full_approved_built march_approved

abbrev full_replay : Replay
full_replay = record {
  state = approved_state;
  approving_actors = "bob" ∷ "carol" ∷ [];
  authority_sources = "bob" ∷ "carol" ∷ [];
  was_escalated = false;
  prior_events = full_approved.events;
}

full_approved_replayed :
    replay lab_services lab_request
      (start_replay opening)
      (approval_by_bob ∷ approval_by_carol ∷ [])
    ≡ ok full_replay
unfolding workflow_code is_terminal is_approved_state is_pending
full_approved_replayed = refl

carol_performs :
    perform lab_services (approves "ev-2" "carol" "2026-03-01T00:00:00Z" "reviewed") half_approved
    ≡ ok full_approved
unfolding perform
carol_performs = carol_approves

turned_down_shut : (has_rejection turned_down.events || has_revocation turned_down.events) ≡ true
unfolding workflow_code is_rejected
turned_down_shut = refl

status-replay_example : status march full_approved ≡ full_replay.state
status-replay_example =
    status-replay lab_services lab_request opening (approval_by_bob ∷ approval_by_carol ∷ [])
      full_replay full_approved march (omega arith) full_approved_built full_approved_replayed
      (omega arith, (omega arith, (omega arith, tt))) (omega arith)

abbrev lab_grant : ApprovalGrant
lab_grant = record {
  request_id = "req-1";
  engagement_id = "eng-1";
  policy_bundle_fingerprint = digest;
  capability = "scan.tcp";
  target = "10.1.0.7";
  impact = "high";
  approved_at = march;
  expires_at = december;
  approver_ids = "bob" ∷ "carol" ∷ [];
  workflow_fingerprint = digest;
  schema_version = 1;
}

march_granted : grant lab_services "2026-03-01T00:00:00Z" full_approved ≡ ok lab_grant
unfolding workflow_code is_approved_state is_revoked is_rejected is_approved identifier
    is_identifier check_sha256 from_target check_each workflow_fingerprint
march_granted = refl

abbrev lab_scan : Binding
lab_scan = record {
  engagement_id = "eng-1";
  policy_bundle_fingerprint = digest;
  capability = "scan.tcp";
  target = "10.1.0.7";
  impact = "high";
}

march_matches :
    grant_matches lab_services lab_grant lab_scan "2026-03-01T00:00:00Z" full_approved ≡ ok true
unfolding workflow_code is_approved_state is_revoked is_rejected is_approved identifier
    is_identifier check_sha256 from_target check_each workflow_fingerprint
march_matches = refl

grant_matches-HasQuorum_example :
    (at : Moment) × (iso8601 known "2026-03-01T00:00:00Z" ≡ ok at)
    × (status at full_approved ≡ approved_state)
    × HasQuorum lab_services at full_approved
    × Covers lab_services lab_scan full_approved
grant_matches-HasQuorum_example =
    grant_matches-HasQuorum lab_services lab_request full_approved.events full_approved lab_grant
      lab_scan "2026-03-01T00:00:00Z" (omega arith) full_approved_built march_matches

perform-IsRecorded_example :
    IsRecorded lab_services
      (approves "ev-2" "carol" "2026-03-01T00:00:00Z" "reviewed")
      half_approved
      full_approved
perform-IsRecorded_example =
    perform-IsRecorded lab_services (approves "ev-2" "carol" "2026-03-01T00:00:00Z" "reviewed")
      half_approved full_approved carol_performs

perform-closed_example :
    (e : ApprovalError) × (perform lab_services
        (approves "ev-3" "carol" "2026-03-01T00:00:00Z" "reviewed")
        turned_down
      ≡ raise e)
perform-closed_example =
    perform-closed lab_services (approves "ev-3" "carol" "2026-03-01T00:00:00Z" "reviewed")
      turned_down (omega arith) turned_down_built turned_down_shut
