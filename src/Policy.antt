-- ===== src/Policy.antt =====
-- packages/shared-core/nightrecon_shared_core/engagement_policy.py: the decision on one action.
mod Types
pub mod Codes
pub mod Decisions
pub mod Store
pub use Types.{
  Datetime, Platform, PolicyError, Policy, unsupported_schema, not_trimmed, no_scope, not_iso8601,
  no_timezone, window_reversed, bad_max_actions, bad_actions_used, no_capabilities,
  duplicate_capabilities, invalid_capability, bad_impact, duplicate_approvals,
  approval_not_permitted, bad_target, policy_exists, policy_missing, budget_exhausted,
  not_persisted, policy_schema_version,
}
unfoldable pub use Types.{
  required_text, is_capability, check_capabilities, impact_rank, from_target, parse_time, iso8601,
  check_window, check_permissions, post_init, replace_z,
}
use night_recon.Prelude.{
  Bool, Option, Result, String, contains, false, if◌then◌else◌, leb, ltb, nat_Eq, not, ok,
  option_Eq, or_raise, pair_Eq, require, some, string_Eq, true, ℕ, ◌&&◌, ◌-◌, ◌==◌, ◌>>=◌, ◌>>◌,
  ◌||◌,
}
use night_recon.Authorization.{Target, address_Eq, is_authorized, parse_target, scope_from_values}

-- The `reason_code` of a decision.
pub data ReasonCode : Type 0 where
  authorized authorized_reserved_action engagement_not_active authorization_revoked : ReasonCode
  authorization_not_started authorization_expired capability_not_permitted : ReasonCode
  impact_exceeds_policy target_out_of_scope action_budget_exhausted approval_required : ReasonCode

-- The arguments of `evaluate_action` beside the policy and the time.
pub record ActionRequest : Type 0 where
  pub engagement_status : Option String
  pub capability : String
  pub target : String
  pub impact : String
  pub approval_present : Bool

pub record AuthorizationDecision : Type 0 where
  pub engagement_id : String
  pub allowed : Bool
  pub reason_code : ReasonCode
  pub capability : String
  pub target : String
  pub impact : String
  pub approval_present : Bool
  pub actions_used : ℕ
  pub max_actions : ℕ
  pub remaining_actions : ℕ

unfoldable pub is_allowed : ReasonCode → Bool
is_allowed authorized = true
is_allowed authorized_reserved_action = true
is_allowed _ = false

-- `max(0, max_actions - used)` is the truncated subtraction.
unfoldable pub decide_as : Policy → ActionRequest → Target → ReasonCode → AuthorizationDecision
unfolding is_allowed
decide_as policy request target code = record {
  engagement_id = policy.engagement_id;
  allowed = is_allowed code;
  reason_code = code;
  capability = request.capability;
  target = target.value;
  impact = request.impact;
  approval_present = request.approval_present;
  actions_used = policy.actions_used;
  max_actions = policy.max_actions;
  remaining_actions = policy.max_actions - policy.actions_used;
}

-- The tests on the request that come before the policy's.
unfoldable pub check_request : Platform → ActionRequest → Datetime → Result PolicyError Target
check_request p request now = do
  required_text request.capability
  require (is_capability request.capability) invalid_capability
  target ← from_target (parse_target p.ip request.target)
  rank ← or_raise (impact_rank request.impact) bad_impact
  require now.aware no_timezone
  ok target

unfoldable pub needs_approval : Policy → ActionRequest → Bool
needs_approval policy request =
    request.impact == "high" || contains request.capability policy.approval_required_capabilities

-- the last test of both chains
unfoldable pub approval_code : Policy → ActionRequest → ReasonCode → ReasonCode
unfolding needs_approval
approval_code policy request code =
    if needs_approval policy request && not request.approval_present
    then approval_required
    else code

unfoldable pub budget_code : Policy → ActionRequest → ReasonCode
unfolding approval_code
budget_code policy request =
    if leb policy.max_actions policy.actions_used
    then action_budget_exhausted
    else approval_code policy request authorized

module _ (p : Platform) where
  -- the scope test, and `next` where it passes
  unfoldable pub scope_code : Policy → Target → ReasonCode → Result PolicyError ReasonCode
  scope_code policy target next = do
    rules ← from_target (scope_from_values p.ip policy.scope)
    inside ← from_target (is_authorized p.ip rules target)
    ok (if inside then next else target_out_of_scope)

  unfoldable pub impact_code :
      Policy → ActionRequest → Result PolicyError ReasonCode → Result PolicyError ReasonCode
  impact_code policy request next = do
    asked ← or_raise (impact_rank request.impact) bad_impact
    ceiling ← or_raise (impact_rank policy.max_impact) bad_impact
    if ltb ceiling asked then ok impact_exceeds_policy else next

  -- the tests on status, revocation, window and capability, which both chains begin with
  unfoldable pub standing_code :
      Policy → ActionRequest → ℕ → Result PolicyError ReasonCode → Result PolicyError ReasonCode
  standing_code policy request now next =
      if not (request.engagement_status == some "active")
      then ok engagement_not_active
      else if policy.revoked
      then ok authorization_revoked
      else do
        start ← parse_time p policy.valid_from
        if ltb now start then ok authorization_not_started else do
          end ← parse_time p policy.valid_until
          if ltb end now
              then ok authorization_expired
              else if not (contains request.capability policy.permitted_capabilities)
              then ok capability_not_permitted
              else next

  unfoldable pub evaluate_action :
      Policy → ActionRequest → Datetime → Result PolicyError AuthorizationDecision
  evaluate_action policy request now = do
    target ← check_request p request now
    code ←
        standing_code policy request now.instant
          (impact_code policy request (scope_code policy target (budget_code policy request)))
    ok (decide_as policy request target code)

  unfoldable pub evaluate_reserved_action :
      Policy → ActionRequest → Datetime → Result PolicyError AuthorizationDecision
  evaluate_reserved_action policy request now = do
    target ← check_request p request now
    code ←
        standing_code policy request now.instant
          (scope_code policy target (approval_code policy request authorized_reserved_action))
    ok (decide_as policy request target code)
