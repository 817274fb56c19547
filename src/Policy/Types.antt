-- ===== src/Policy/Types.antt =====
-- engagement_policy.py: the policy, its checks, and what it takes from the standard library.
use Prim.Native.String.{◌++◌ as append}
use Prim.Native.Char.{code}
use night_recon.Prelude.{
  Bool, List, Option, Result, String, [], all, if◌then◌else◌, is_digit, is_lower, leb, ltb, matches,
  nat_Eq, none, ok, option_Eq, or_raise, pair_Eq, raise, require, some, string_Eq, subset, trimmed,
  unique, ℕ, ◌==◌, ◌>>=◌, ◌>>◌, ◌||◌, ◌∷◌,
}
use night_recon.Authorization.{Ip, TargetError, address_Eq, scope_from_values}

-- An instant, counted from a moment before every representable date. Naive ones have no zone.
pub record Datetime : Type 0 where
  pub instant : ℕ
  pub aware : Bool

-- The parsers of the standard library.
pub record Platform : Type 0 where
  pub ip : Ip
  pub fromisoformat : String → Option Datetime

pub data PolicyError : Type 0 where
  unsupported_schema not_trimmed no_scope not_iso8601 no_timezone window_reversed : PolicyError
  bad_max_actions bad_actions_used no_capabilities duplicate_capabilities : PolicyError
  invalid_capability bad_impact duplicate_approvals approval_not_permitted : PolicyError
  bad_target : TargetError → PolicyError
  policy_exists policy_missing budget_exhausted not_persisted : PolicyError

pub record Policy : Type 0 where
  pub engagement_id : String
  pub scope : List String
  pub valid_from : String
  pub valid_until : String
  pub max_actions : ℕ
  pub permitted_capabilities : List String
  pub max_impact : String
  pub approval_required_capabilities : List String
  pub revoked : Bool
  pub actions_used : ℕ
  pub schema_version : ℕ

abbrev pub policy_schema_version : ℕ
policy_schema_version = 1

unfoldable pub required_text : String → Result PolicyError (Unit {0})
required_text value = require (trimmed value) not_trimmed

-- `value.replace("Z", "+00:00")`
unfoldable pub replace_z : String → String
replace_z String.[] = ""
replace_z (String.◌∷◌ c s) =
    append (if code c == b'Z' then "+00:00" else String.◌∷◌ c "") (replace_z s)

is_capability_character : ℕ → Bool
is_capability_character c = is_lower c || is_digit c || c == b'_' || c == b'.' || c == b'-'

-- `_CAPABILITY_PATTERN`
unfoldable pub is_capability : String → Bool
unfolding is_capability_character
is_capability = matches is_lower is_capability_character 63

-- `_capabilities`
unfoldable pub check_capabilities : List String → Result PolicyError (Unit {0})
check_capabilities [] = raise no_capabilities
check_capabilities (v ∷ vs) = do
  require (unique (v ∷ vs)) duplicate_capabilities
  require (all is_capability (v ∷ vs)) invalid_capability

-- `_IMPACT_RANK`; its keys are `_VALID_IMPACTS`
unfoldable pub impact_rank : String → Option ℕ
impact_rank impact =
    if impact == "low"
    then some 0
    else if impact == "standard"
    then some 1
    else if impact == "high"
    then some 2
    else none

unfoldable pub from_target : {A : Type 0} → Result TargetError A → Result PolicyError A
from_target (ok a) = ok a
from_target (raise e) = raise (bad_target e)

module _ (p : Platform) where
  -- `_parse_time`; comparing a naive time with an aware one raises as well
  unfoldable pub parse_time : String → Result PolicyError ℕ
  unfolding replace_z
  parse_time value = do
    d ← or_raise (p.fromisoformat (replace_z value)) not_iso8601
    require d.aware no_timezone
    ok d.instant

  -- `_iso8601`
  unfoldable pub iso8601 : String → Result PolicyError ℕ
  iso8601 value = do required_text value; parse_time value

  -- `EngagementExecutionPolicy.__post_init__`
  unfoldable pub check_window : Policy → Result PolicyError (Unit {0})
  check_window policy = do
    start ← iso8601 policy.valid_from
    end ← iso8601 policy.valid_until
    require (ltb start end) window_reversed

  unfoldable pub check_permissions : Policy → Result PolicyError (Unit {0})
  check_permissions policy = do
    check_capabilities policy.permitted_capabilities
    rank ← or_raise (impact_rank policy.max_impact) bad_impact
    require (unique policy.approval_required_capabilities) duplicate_approvals
    require (subset policy.approval_required_capabilities policy.permitted_capabilities)
        approval_not_permitted

  unfoldable pub post_init : Policy → Result PolicyError Policy
  post_init policy = do
    require (policy.schema_version == policy_schema_version) unsupported_schema
    required_text policy.engagement_id
    rules ← from_target (scope_from_values p.ip policy.scope)
    check_window policy
    require (leb 1 policy.max_actions) bad_max_actions
    require (leb policy.actions_used policy.max_actions) bad_actions_used
    check_permissions policy
    ok policy
