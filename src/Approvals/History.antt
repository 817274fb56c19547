-- ===== src/Approvals/History.antt =====
-- approval_engine.py: `ApprovalWorkflow.__post_init__`, which checks the chain of events, and
-- `_validate_history`, which replays them from the request on.
use night_recon.Prelude.{
  Bool, List, Option, Result, String, [], bool_Eq, contains, false, get, if◌then◌else◌, leb,
  list_Eq, ltb, map, nat_Eq, none, not, ok, option_Eq, or_raise, pair_Eq, require, reverse, some,
  sorted, str_leb, string_Eq, subset, true, ℕ, ◌&&◌, ◌*◌, ◌+◌, ◌==◌, ◌>>=◌, ◌>>◌, ◌||◌, ◌∷◌,
}
use night_recon.Approvals.Records.{
  ApprovalError, ApprovalEvent, ApprovalRequest, EventType, Moment, approved, bad_roles,
  bad_validity, delegated, delegation_disabled, escalated, escalated_twice, escalation_early,
  find_principal, incomplete_evidence, no_authority, no_timezone, not_escalatable, not_iso8601,
  not_pending, rejected, requested, requester_decides, requester_delegates, required_text, revoked,
  same_delegate, wrong_source,
}
use night_recon.Policy.{Platform, replace_z}

pub data Status : Type 0 where
  pending approved_state rejected_state revoked_state expired : Status

-- The local variables of the replay; `prior_events` includes the first event.
pub record Replay : Type 0 where
  pub state : Status
  pub approving_actors : List String
  pub authority_sources : List String
  pub was_escalated : Bool
  pub prior_events : List ApprovalEvent

pub record Workflow : Type 0 where
  pub request : ApprovalRequest
  pub events : List ApprovalEvent

unfoldable pub is_pending : Status → Bool
is_pending pending = true
is_pending s = false

unfoldable pub is_approved_state : Status → Bool
is_approved_state approved_state = true
is_approved_state s = false

unfoldable pub is_terminal : Status → Bool
is_terminal rejected_state = true
is_terminal revoked_state = true
is_terminal s = false

unfoldable pub is_approved : EventType → Bool
is_approved approved = true
is_approved t = false

unfoldable pub is_rejected : EventType → Bool
is_rejected rejected = true
is_rejected t = false

unfoldable pub is_revoked : EventType → Bool
is_revoked revoked = true
is_revoked t = false

unfoldable pub is_delegated : EventType → Bool
is_delegated delegated = true
is_delegated t = false

unfoldable pub is_escalated : EventType → Bool
is_escalated escalated = true
is_escalated t = false

unfoldable pub is_requested : EventType → Bool
is_requested requested = true
is_requested t = false

-- `event.detail(key)`
abbrev pub detail : String → ApprovalEvent → Option String
detail key event = get key event.details

-- the time at which an escalation is due
abbrev pub due_at : ApprovalRequest → ℕ → ℕ
due_at request seconds = request.requested_at.instant + seconds * 1000000

module _ (p : Platform) where
  -- `_parse_time`; comparing a naive time with an aware one raises as well
  unfoldable pub parse_time : String → Result ApprovalError Moment
  parse_time value = do
    d ← or_raise (p.fromisoformat (replace_z value)) not_iso8601
    require d.aware no_timezone
    ok (record { text = value; instant = d.instant })

  -- `_iso8601`
  unfoldable pub iso8601 : String → Result ApprovalError Moment
  iso8601 value = do required_text value; parse_time value

  -- a delegation is in force at an instant: made before, and its end not reached
  unfoldable pub in_force : ApprovalEvent → ℕ → Result ApprovalError Bool
  in_force event at = elim (detail "valid_until" event) [
    | none ↦ ok false
    | some valid_until ↦
        if leb event.occurred_at.instant at
        then (do until ← parse_time valid_until; ok (ltb at until.instant))
        else ok false
  ]

  -- `delegated_source` on the prior events, the latest first
  unfoldable pub delegated_source :
      String → String → ℕ → List ApprovalEvent → Result ApprovalError (Option String)
  delegated_source actor_id actor_role at [] = ok none
  delegated_source actor_id actor_role at (prior ∷ rest) =
      let next = delegated_source actor_id actor_role at rest in
      if is_delegated prior.event_type
        && (detail "delegate_id" prior == some actor_id)
        && (detail "delegated_role" prior == some actor_role)
      then (do valid ← in_force prior at; if valid then ok (some prior.actor_id) else next)
      else next

  unfoldable pub direct_role : ApprovalRequest → String → Option String → Result ApprovalError Bool
  direct_role request actor_id none = ok false
  direct_role request actor_id (some role) = do
    principal ← find_principal actor_id request.principals
    ok (contains role principal.roles && contains role request.policy.eligible_roles)

  delegated_for :
      ApprovalEvent → List ApprovalEvent → Option String → Result ApprovalError (Option String)
  delegated_for event prior_events none = ok none
  delegated_for event prior_events (some role) =
      delegated_source event.actor_id role event.occurred_at.instant (reverse prior_events)

  -- `expected_source`
  unfoldable pub authority_of :
      ApprovalRequest → Replay → ApprovalEvent → Result ApprovalError (Option String)
  unfolding delegated_for
  authority_of request r event = do
    direct ← direct_role request event.actor_id event.actor_role
    if direct then ok (some event.actor_id) else delegated_for event r.prior_events event.actor_role

  -- what approvals and rejections share; gives the source of the authority
  unfoldable pub check_decision :
      ApprovalRequest → Replay → ApprovalEvent → Result ApprovalError String
  check_decision request r event = do
    require (is_pending r.state) not_pending
    principal ← find_principal event.actor_id request.principals
    require (request.policy.requester_may_approve || not (event.actor_id == request.requested_by))
        requester_decides
    expected ← authority_of request r event
    source ← or_raise expected no_authority
    require (detail "authority_source" event == some source) wrong_source
    ok source

  -- the test on the keys, `set(key for key, _ in event.details) == …`
  has_keys : List String → ApprovalEvent → Bool
  has_keys keys event =
      let found = map (λ (x : String × String). x.0) event.details in
      subset found keys && subset keys found

  check_validity : ApprovalRequest → ApprovalEvent → String → Result ApprovalError (Unit {0})
  check_validity request event valid_until = do
    until ← parse_time valid_until
    require
        (ltb event.occurred_at.instant until.instant
          && leb until.instant request.expires_at.instant)
        bad_validity

  unfoldable pub check_delegation :
      ApprovalRequest → Replay → ApprovalEvent → Result ApprovalError (Unit {0})
  unfolding has_keys check_validity
  check_delegation request r event = do
    require (is_pending r.state) not_pending
    require request.policy.allow_delegation delegation_disabled
    delegate_id ← or_raise (detail "delegate_id" event) incomplete_evidence
    delegated_role ← or_raise (detail "delegated_role" event) incomplete_evidence
    valid_until ← or_raise (detail "valid_until" event) incomplete_evidence
    require (has_keys ("delegate_id" ∷ "delegated_role" ∷ "valid_until" ∷ []) event)
        incomplete_evidence
    delegate ← find_principal delegate_id request.principals
    require (not (event.actor_id == delegate_id)) same_delegate
    require
        (request.policy.requester_may_approve
          || not (event.actor_id == request.requested_by || delegate_id == request.requested_by))
        requester_delegates
    require
        ((event.actor_role == some delegated_role)
          && contains delegated_role request.policy.eligible_roles)
        no_authority
    direct ← direct_role request event.actor_id (some delegated_role)
    require direct no_authority
    check_validity request event valid_until

  unfoldable pub check_escalation :
      (String → Option (List String))
      → ApprovalRequest
      → Replay
      → ApprovalEvent
      → Result ApprovalError (Unit {0})
  unfolding has_keys
  check_escalation loads_roles request r event = do
    require (is_pending r.state) not_pending
    principal ← find_principal event.actor_id request.principals
    seconds ← or_raise request.policy.escalation_after_seconds not_escalatable
    require (leb (due_at request seconds) event.occurred_at.instant) escalation_early
    require (not r.was_escalated) escalated_twice
    encoded_roles ← or_raise (detail "escalation_roles" event) incomplete_evidence
    require (has_keys ("escalation_roles" ∷ []) event) incomplete_evidence
    decoded_roles ← or_raise (loads_roles encoded_roles) bad_roles
    require (sorted str_leb decoded_roles == request.policy.escalation_roles) bad_roles
