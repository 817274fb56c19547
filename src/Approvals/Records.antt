-- ===== src/Approvals/Records.antt =====
-- approval_engine.py: principals, policies, requests, events and grants, and the tests on single
-- values. A time is kept with the instant that the parser gives for its text.
use night_recon.Prelude.{
  Bool, List, Option, Result, String, [], all, bool_Eq, codes, find, is_alnum, is_digit, leb,
  length, list_Eq, matches, nat_Eq, ok, option_Eq, or_raise, pair_Eq, raise, require, sorted,
  str_leb, string_Eq, trimmed, unique, ℕ, ◌&&◌, ◌==◌, ◌>>◌, ◌||◌, ◌∷◌,
}
use night_recon.Authorization.{TargetError, address_Eq}

-- The instants count microseconds.
pub record Moment : Type 0 where
  pub text : String
  pub instant : ℕ

pub data ApprovalError : Type 0 where
  not_trimmed unsupported_characters not_sha256 not_iso8601 no_timezone : ApprovalError
  too_few_values duplicate_values wrong_mode_count no_escalation_time : ApprovalError
  unsupported_schema expires_too_early no_principals duplicate_principals unknown_principal :
      ApprovalError
  invalid_capability invalid_impact not_enough_principals duplicate_details : ApprovalError
  no_events duplicate_event other_request sequence_gap broken_chain too_early out_of_order :
      ApprovalError
  no_requested_event unbound_request wrong_origin : ApprovalError
  after_expiry after_terminal only_revocable duplicate_requested not_pending : ApprovalError
  requester_decides no_authority wrong_source approved_twice source_twice : ApprovalError
  delegation_disabled incomplete_evidence same_delegate requester_delegates bad_validity :
      ApprovalError
  not_escalatable escalation_early escalated_twice bad_roles : ApprovalError
  not_approved no_direct_authority : ApprovalError
  bad_target : TargetError → ApprovalError

abbrev pub approval_schema_version : ℕ
approval_schema_version = 1

-- `_required_text`
unfoldable pub required_text : String → Result ApprovalError (Unit {0})
required_text value = require (trimmed value) not_trimmed

is_id_character : ℕ → Bool
is_id_character c = is_alnum c || c == b'.' || c == b'_' || c == b':' || c == b'-'

-- `_ID_PATTERN` and `_ROLE_PATTERN`
unfoldable pub is_identifier : String → Bool
unfolding is_id_character
is_identifier = matches is_alnum is_id_character 127

-- `_identifier` and `_role`
unfoldable pub identifier : String → Result ApprovalError (Unit {0})
identifier value = do required_text value; require (is_identifier value) unsupported_characters

is_hex : ℕ → Bool
is_hex c = is_digit c || leb b'a' c && leb c b'f'

-- `_sha256`
unfoldable pub check_sha256 : String → Result ApprovalError (Unit {0})
unfolding is_hex
check_sha256 value = do
  required_text value
  require (length (codes value) == 64 && all is_hex (codes value)) not_sha256

-- the loops over a tuple's values
unfoldable pub check_each :
    (String → Result ApprovalError (Unit {0})) → List String → Result ApprovalError (Unit {0})
check_each check [] = ok tt
check_each check (v ∷ vs) = do check v; check_each check vs

-- `_sorted_unique`
unfoldable pub sorted_unique :
    (String → Result ApprovalError (Unit {0}))
    → ℕ
    → List String
    → Result ApprovalError (List String)
sorted_unique check minimum values = do
  require (leb minimum (length values)) too_few_values
  require (unique values) duplicate_values
  check_each check values
  ok (sorted str_leb values)

unfoldable pub from_target : {A : Type 0} → Result TargetError A → Result ApprovalError A
from_target (ok a) = ok a
from_target (raise e) = raise (bad_target e)

pub record ApprovalPrincipal : Type 0 where
  pub principal_id : String
  pub roles : List String

pub data Mode : Type 0 where
  single dual quorum : Mode

pub record ApprovalPolicy : Type 0 where
  pub mode : Mode
  pub required_approvals : ℕ
  pub eligible_roles : List String
  pub requester_may_approve : Bool
  pub allow_delegation : Bool
  pub escalation_after_seconds : Option ℕ
  pub escalation_roles : List String

pub record ApprovalRequest : Type 0 where
  pub request_id : String
  pub engagement_id : String
  pub policy_bundle_fingerprint : String
  pub requested_at : Moment
  pub expires_at : Moment
  pub requested_by : String
  pub principals : List ApprovalPrincipal
  pub capability : String
  pub target : String
  pub impact : String
  pub reason : String
  pub policy : ApprovalPolicy
  pub operation_id : Option String
  pub schema_version : ℕ

pub data EventType : Type 0 where
  requested approved rejected delegated escalated revoked : EventType

pub record ApprovalEvent : Type 0 where
  pub event_id : String
  pub request_id : String
  pub sequence : ℕ
  pub event_type : EventType
  pub occurred_at : Moment
  pub actor_id : String
  pub actor_role : Option String
  pub reason : String
  pub details : List (String × String)
  pub previous_event_fingerprint : Option String
  pub schema_version : ℕ

pub record ApprovalGrant : Type 0 where
  pub request_id : String
  pub engagement_id : String
  pub policy_bundle_fingerprint : String
  pub capability : String
  pub target : String
  pub impact : String
  pub approved_at : Moment
  pub expires_at : Moment
  pub approver_ids : List String
  pub workflow_fingerprint : String
  pub schema_version : ℕ

-- `self.principal(…)`
unfoldable pub find_principal :
    String → List ApprovalPrincipal → Result ApprovalError ApprovalPrincipal
find_principal id principals =
    or_raise (find (λ (q : ApprovalPrincipal). q.principal_id == id) principals) unknown_principal
