-- ===== src/Approvals/Checks.antt =====
-- approval_engine.py: what the `__post_init__` methods of the records check and normalize.
use night_recon.Prelude.{
  Bool, List, Option, Result, String, [], any, bool_Eq, contains, if◌then◌else◌, leb, length,
  list_Eq, ltb, map, nat_Eq, none, not, ok, option_Eq, or_raise, pair_Eq, require, select, some,
  sorted, str_leb, string_Eq, true, unique, ℕ, ◌&&◌, ◌==◌, ◌>>=◌, ◌>>◌, ◌||◌, ◌∷◌,
}
use night_recon.Approvals.Records.{
  ApprovalError, ApprovalEvent, ApprovalGrant, ApprovalPolicy, ApprovalPrincipal, ApprovalRequest,
  Mode, approval_schema_version, check_sha256, dual, duplicate_details, duplicate_principals,
  expires_too_early, from_target, identifier, invalid_capability, invalid_impact,
  no_escalation_time, no_principals, not_enough_principals, quorum, required_text, single,
  sorted_unique, unknown_principal, unsupported_schema, wrong_mode_count,
}
use night_recon.Authorization.{address_Eq, parse_target}
use night_recon.Policy.{Platform, impact_rank, is_capability}

unfoldable pub check_principal : ApprovalPrincipal → Result ApprovalError ApprovalPrincipal
check_principal principal = do
  identifier principal.principal_id
  roles ← sorted_unique identifier 1 principal.roles
  ok (record principal { roles = roles })

unfoldable pub mode_allows : Mode → ℕ → Bool
mode_allows single n = n == 1
mode_allows dual n = n == 2
mode_allows quorum n = leb 2 n

escalation_is_set : Option ℕ → Bool
escalation_is_set none = true
escalation_is_set (some seconds) = leb 1 seconds

unfoldable pub check_policy : ApprovalPolicy → Result ApprovalError ApprovalPolicy
unfolding escalation_is_set
check_policy policy = do
  require (leb 1 policy.required_approvals && mode_allows policy.mode policy.required_approvals)
      wrong_mode_count
  eligible ← sorted_unique identifier 1 policy.eligible_roles
  escalations ← sorted_unique identifier 0 policy.escalation_roles
  require (escalation_is_set policy.escalation_after_seconds) no_escalation_time
  ok (record policy { eligible_roles = eligible; escalation_roles = escalations })

-- the principals that may approve
unfoldable pub is_eligible : ApprovalPolicy → String → ApprovalPrincipal → Bool
is_eligible policy requested_by principal =
    any (λ r. contains r policy.eligible_roles) principal.roles
    && (policy.requester_may_approve || not (principal.principal_id == requested_by))

unfoldable pub check_optional : Option String → Result ApprovalError (Unit {0})
check_optional none = ok tt
check_optional (some value) = identifier value

abbrev pub principal_ids : List ApprovalPrincipal → List String
principal_ids principals = map (λ (q : ApprovalPrincipal). q.principal_id) principals

-- the tests on the principals of a request
unfoldable pub check_principals : ApprovalRequest → Result ApprovalError (Unit {0})
check_principals request = do
  require (leb 1 (length request.principals)) no_principals
  require (unique (principal_ids request.principals)) duplicate_principals
  require (contains request.requested_by (principal_ids request.principals)) unknown_principal

module _ (p : Platform) where
  unfoldable pub check_request : ApprovalRequest → Result ApprovalError ApprovalRequest
  check_request request = do
    require (request.schema_version == approval_schema_version) unsupported_schema
    identifier request.request_id
    identifier request.engagement_id
    check_sha256 request.policy_bundle_fingerprint
    require (ltb request.requested_at.instant request.expires_at.instant) expires_too_early
    identifier request.requested_by
    check_optional request.operation_id
    check_principals request
    require (is_capability request.capability) invalid_capability
    target ← from_target (parse_target p.ip request.target)
    impact ← or_raise (impact_rank request.impact) invalid_impact
    required_text request.reason
    let principals =
        sorted (λ (q r : ApprovalPrincipal). str_leb q.principal_id r.principal_id)
          request.principals
    require
        (leb request.policy.required_approvals
          (length (select (is_eligible request.policy request.requested_by) principals)))
        not_enough_principals
    ok (record request { principals = principals; target = target.value })

-- the order of Python's pairs
unfoldable pub pair_leb : String × String → String × String → Bool
pair_leb (a, b) (c, d) = if a == c then str_leb b d else str_leb a c

check_pairs : List (String × String) → Result ApprovalError (Unit {0})
check_pairs [] = ok tt
check_pairs ((k, v) ∷ rest) = do required_text k; required_text v; check_pairs rest

check_previous : Option String → Result ApprovalError (Unit {0})
check_previous none = ok tt
check_previous (some value) = check_sha256 value

unfoldable pub check_event : ApprovalEvent → Result ApprovalError ApprovalEvent
unfolding pair_leb check_pairs check_previous
check_event event = do
  require (event.schema_version == approval_schema_version) unsupported_schema
  identifier event.event_id
  identifier event.request_id
  identifier event.actor_id
  check_optional event.actor_role
  required_text event.reason
  check_previous event.previous_event_fingerprint
  let details = sorted pair_leb event.details
  require (unique details && unique (map (λ (x : String × String). x.0) details)) duplicate_details
  check_pairs details
  ok (record event { details = details })

unfoldable pub check_grant : Platform → ApprovalGrant → Result ApprovalError ApprovalGrant
check_grant p grant = do
  require (grant.schema_version == approval_schema_version) unsupported_schema
  identifier grant.request_id
  identifier grant.engagement_id
  check_sha256 grant.policy_bundle_fingerprint
  require (is_capability grant.capability) invalid_capability
  target ← from_target (parse_target p.ip grant.target)
  impact ← or_raise (impact_rank grant.impact) invalid_impact
  approvers ← sorted_unique required_text 1 grant.approver_ids
  check_sha256 grant.workflow_fingerprint
  ok (record grant { target = target.value; approver_ids = approvers })
