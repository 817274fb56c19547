-- ===== src/Evidence/Authorizing.antt =====
-- workspace.py, `authorize_action`: the decision of the policy on an engagement of the workspace, the
-- action taken from its budget, and the line of the authorization audit. A line is added whole or the
-- call raises.
use night_recon.Prelude.{
  Bool, List, Option, Result, String, [], if◌then◌else◌, none, not, ok, or_raise, raise, require,
  some, true, ℕ, ◌&&◌, ◌++◌, ◌-◌, ◌>>=◌, ◌>>◌, ◌∷◌,
}
use night_recon.Evidence.Contracts.{EngagementMetadata, EvidenceError, engagement_missing}
use night_recon.Evidence.Store.{has_engagement}
use night_recon.Evidence.Files.{FileStore}
use night_recon.Evidence.Workspace.{envelope_of}
use night_recon.Policy.{
  ActionRequest, AuthorizationDecision, Datetime, Platform, Policy, PolicyError, ReasonCode,
  evaluate_action, no_timezone, policy_missing,
}
use night_recon.Policy.Store.{PolicyStore, consume_action, find_policy, revoke, set_policy}

pub data WorkspaceError : Type 0 where
  of_store : EvidenceError → WorkspaceError
  of_policy : PolicyError → WorkspaceError
  not_logged : WorkspaceError

pub record AuthorizationAuditRecord : Type 0 where
  pub occurred_at : ℕ
  pub engagement_id : String
  pub allowed : Bool
  pub reason_code : ReasonCode
  pub capability : String
  pub target : String
  pub impact : String
  pub approval_present : Bool
  pub actions_used : ℕ
  pub max_actions : ℕ

-- a workspace's two stores and its audit file
pub record LocalWorkspace : Type 0 where
  pub store : FileStore
  pub policy_store : PolicyStore
  pub audit : List AuthorizationAuditRecord

-- What a method returns or raises, and the workspace that it leaves.
abbrev pub Answer : Type 0
Answer = Result WorkspaceError AuthorizationDecision × LocalWorkspace

unfoldable pub raised_by :
    {E A : Type 0} → (E → WorkspaceError) → Result E A → Result WorkspaceError A
raised_by f (ok a) = ok a
raised_by f (raise e) = raise (f e)

unfoldable pub execution_policy : String → LocalWorkspace → Result WorkspaceError Policy
execution_policy engagement_id w = do
  require (has_engagement engagement_id w.store.memory) (of_store engagement_missing)
  found ← raised_by of_policy (find_policy engagement_id w.policy_store)
  or_raise found (of_policy policy_missing)

unfoldable pub set_execution_policy :
    Bool → Policy → LocalWorkspace → Result WorkspaceError Policy × LocalWorkspace
set_execution_policy written policy w =
    if has_engagement policy.engagement_id w.store.memory
    then (let (r, t) = set_policy written policy w.policy_store in
        (do raised_by of_policy r; ok policy, record w { policy_store = t }))
    else (raise (of_store engagement_missing), w)

unfoldable pub revoke_execution :
    Platform → Bool → String → LocalWorkspace → Result WorkspaceError Policy × LocalWorkspace
revoke_execution p written engagement_id w =
    if has_engagement engagement_id w.store.memory
    then (let (r, t) = revoke p written engagement_id w.policy_store in
        (raised_by of_policy r, record w { policy_store = t }))
    else (raise (of_store engagement_missing), w)

abbrev pub status_of : Option EngagementMetadata → Option String
status_of none = none
status_of (some metadata) = some metadata.status

-- the request with the status that the workspace knows
unfoldable pub decide :
    Platform
    → String
    → ActionRequest
    → Datetime
    → LocalWorkspace
    → Result WorkspaceError AuthorizationDecision
decide p engagement_id request now w = do
  policy ← execution_policy engagement_id w
  envelope ← raised_by of_store (envelope_of engagement_id w.store.memory)
  raised_by of_policy (
      evaluate_action p policy (record request { engagement_status = status_of envelope.metadata })
        now)

-- the numbers of the policy after the action was taken
unfoldable pub after_action : AuthorizationDecision → Policy → AuthorizationDecision
after_action decision updated = record decision {
  allowed = true;
  actions_used = updated.actions_used;
  max_actions = updated.max_actions;
  remaining_actions = updated.max_actions - updated.actions_used;
}

unfoldable pub spend :
    Platform → Bool → Bool → String → AuthorizationDecision → LocalWorkspace → Answer
spend p written consume engagement_id decision w =
    if decision.allowed && consume
    then (let (r, t) = consume_action p written engagement_id w.policy_store in
        (
          do updated ← raised_by of_policy r; ok (after_action decision updated),
          record w { policy_store = t },
        ))
    else (ok decision, w)

unfoldable pub audit_record : Datetime → AuthorizationDecision → AuthorizationAuditRecord
audit_record now decision = record {
  occurred_at = now.instant;
  engagement_id = decision.engagement_id;
  allowed = decision.allowed;
  reason_code = decision.reason_code;
  capability = decision.capability;
  target = decision.target;
  impact = decision.impact;
  approval_present = decision.approval_present;
  actions_used = decision.actions_used;
  max_actions = decision.max_actions;
}

-- `append_authorization_audit`
unfoldable pub append_authorization_audit : Bool → Datetime → Answer → Answer
append_authorization_audit logged now (raise e, w) = (raise e, w)
append_authorization_audit logged now (ok decision, w) =
    if not now.aware
    then (raise (of_policy no_timezone), w)
    else if logged
    then (ok decision, record w { audit = w.audit ++ audit_record now decision ∷ [] })
    else (raise not_logged, w)

-- `written` and `logged` say how the writes of the policies and of the audit went.
unfoldable pub authorize_action :
    Platform → Bool → Bool → String → ActionRequest → Bool → Datetime → LocalWorkspace → Answer
authorize_action p written logged engagement_id request consume now w =
    elim (decide p engagement_id request now w) [
      | raise e ↦ (raise e, w)
      | ok decision ↦
          append_authorization_audit logged now (spend p written consume engagement_id decision w)
    ]
