-- ===== src/Approvals/Grant.antt =====
-- approval_engine.py: the grant of an approved workflow, and its match with an action.
use night_recon.Prelude.{
  Bool, List, Result, String, bool_Eq, false, get_elem?, if◌then◌else◌, list_Eq, ltb, map, nat_Eq,
  not, ok, option_Eq, or_raise, pair_Eq, raise, require, some, string_Eq, take, ℕ, ◌&&◌, ◌-◌, ◌==◌,
  ◌>>=◌, ◌>>◌,
}
use night_recon.Approvals.Records.{
  ApprovalError, ApprovalEvent, ApprovalGrant, Moment, approval_schema_version, not_approved,
}
use night_recon.Approvals.Checks.{check_grant}
use night_recon.Approvals.Payload.{Services, workflow_fingerprint}
use night_recon.Approvals.History.{Workflow, is_approved_state, iso8601}
use night_recon.Approvals.Status.{approval_events, status}
use night_recon.Authorization.{address_Eq, parse_target}

-- the arguments of `grant_matches` beside the grant and the time
pub record Binding : Type 0 where
  pub engagement_id : String
  pub policy_bundle_fingerprint : String
  pub capability : String
  pub target : String
  pub impact : String

module _ (services : Services) where
  approver_ids_of : List ApprovalEvent → List String
  approver_ids_of events = map (λ (e : ApprovalEvent). e.actor_id) events

  -- the grant before its own checks
  unfoldable pub draft_grant : Moment → Workflow → Moment → ApprovalGrant
  unfolding approver_ids_of
  draft_grant at w approved_at = record {
    request_id = w.request.request_id;
    engagement_id = w.request.engagement_id;
    policy_bundle_fingerprint = w.request.policy_bundle_fingerprint;
    capability = w.request.capability;
    target = w.request.target;
    impact = w.request.impact;
    approved_at = approved_at;
    expires_at = w.request.expires_at;
    approver_ids =
        approver_ids_of
          (take w.request.policy.required_approvals (approval_events (some at.instant) w));
    workflow_fingerprint = workflow_fingerprint services w.request w.events;
    schema_version = approval_schema_version;
  }

  -- `grant`; the index is in range once the request is approved
  unfoldable pub grant : String → Workflow → Result ApprovalError ApprovalGrant
  grant moment w = do
    at ← iso8601 services.platform moment
    require (is_approved_state (status at w)) not_approved
    last ←
        or_raise
          (get_elem? (approval_events (some at.instant) w)
            (w.request.policy.required_approvals - 1))
          not_approved
    check_grant services.platform (draft_grant at w last.occurred_at)

  -- `grant != expected_grant`: the dataclass compares its fields
  unfoldable pub same_grant : ApprovalGrant → ApprovalGrant → Bool
  same_grant g h =
      g.request_id == h.request_id
      && g.engagement_id == h.engagement_id
      && g.policy_bundle_fingerprint == h.policy_bundle_fingerprint
      && g.capability == h.capability
      && g.target == h.target
      && g.impact == h.impact
      && g.approved_at.text == h.approved_at.text
      && g.expires_at.text == h.expires_at.text
      && g.approver_ids == h.approver_ids
      && g.workflow_fingerprint == h.workflow_fingerprint
      && g.schema_version == h.schema_version

  -- the conjunction at the end of `grant_matches`
  unfoldable pub bound_to : Workflow → ApprovalGrant → Binding → String → ℕ → Bool
  bound_to w g b target_value at =
      g.request_id == w.request.request_id
      && (g.engagement_id == b.engagement_id && b.engagement_id == w.request.engagement_id)
      && (g.policy_bundle_fingerprint == b.policy_bundle_fingerprint
          && b.policy_bundle_fingerprint == w.request.policy_bundle_fingerprint)
      && (g.capability == b.capability && b.capability == w.request.capability)
      && (g.target == target_value && target_value == w.request.target)
      && (g.impact == b.impact && b.impact == w.request.impact)
      && ltb at g.expires_at.instant

  unfoldable pub grant_matches :
      ApprovalGrant → Binding → String → Workflow → Result ApprovalError Bool
  grant_matches g b moment w = do
    at ← iso8601 services.platform moment
    elim (parse_target services.platform.ip b.target) [
      | raise e ↦ ok false
      | ok target ↦
          if not (is_approved_state (status at w)) then ok false else elim (grant moment w) [
            | raise e ↦ ok false
            | ok expected ↦
                if not (same_grant g expected)
                then ok false
                else ok (bound_to w g b target.value at.instant)
          ]
    ]
