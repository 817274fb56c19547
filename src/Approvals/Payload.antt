-- ===== src/Approvals/Payload.antt =====
-- approval_engine.py: what the fingerprints are taken of. SHA-256 over the canonical JSON of a
-- payload is a parameter, and so are `json.dumps` and `json.loads` on a list of roles.
use night_recon.Prelude.{List, Option, String, [], map, ◌∷◌}
use night_recon.Policy.{Platform}
use night_recon.Json.{
  Items, Json, array, boolean, detail_items, done, fields, item, number, object, optional_number,
  optional_text, text, texts,
}
use night_recon.Approvals.Records.{
  ApprovalEvent, ApprovalPolicy, ApprovalPrincipal, ApprovalRequest, EventType, Mode, approved,
  delegated, dual, escalated, quorum, rejected, requested, revoked, single,
}

-- `_fingerprint`, and the codec of the roles; `loads_roles` gives nothing for a text that is not
-- the JSON of a list of strings.
pub record Services : Type 0 where
  pub platform : Platform
  pub fingerprint : Json → String
  pub dumps_roles : List String → String
  pub loads_roles : String → Option (List String)

unfoldable pub principal_payload : ApprovalPrincipal → Json
principal_payload principal = object (
    fields (
      ("principal_id", text principal.principal_id)
      ∷ ("roles", array (texts principal.roles))
      ∷ []))

mode_text : Mode → String
mode_text single = "single"
mode_text dual = "dual"
mode_text quorum = "quorum"

unfoldable pub policy_payload : ApprovalPolicy → Json
unfolding mode_text optional_number
policy_payload policy = object (
    fields (
      ("mode", text (mode_text policy.mode))
      ∷ ("required_approvals", number policy.required_approvals)
      ∷ ("eligible_roles", array (texts policy.eligible_roles))
      ∷ ("requester_may_approve", boolean policy.requester_may_approve)
      ∷ ("allow_delegation", boolean policy.allow_delegation)
      ∷ ("escalation_after_seconds", optional_number policy.escalation_after_seconds)
      ∷ ("escalation_roles", array (texts policy.escalation_roles))
      ∷ []))

principal_items : List ApprovalPrincipal → Items
principal_items [] = done
principal_items (q ∷ qs) = item (principal_payload q) (principal_items qs)

unfoldable pub request_payload : ApprovalRequest → Json
unfolding principal_items optional_text
request_payload request = object (
    fields (
      ("schema_version", number request.schema_version)
      ∷ ("request_id", text request.request_id)
      ∷ ("engagement_id", text request.engagement_id)
      ∷ ("policy_bundle_fingerprint", text request.policy_bundle_fingerprint)
      ∷ ("requested_at", text request.requested_at.text)
      ∷ ("expires_at", text request.expires_at.text)
      ∷ ("requested_by", text request.requested_by)
      ∷ ("principals", array (principal_items request.principals))
      ∷ ("capability", text request.capability)
      ∷ ("target", text request.target)
      ∷ ("impact", text request.impact)
      ∷ ("reason", text request.reason)
      ∷ ("policy", policy_payload request.policy)
      ∷ ("operation_id", optional_text request.operation_id)
      ∷ []))

event_type_text : EventType → String
event_type_text requested = "requested"
event_type_text approved = "approved"
event_type_text rejected = "rejected"
event_type_text delegated = "delegated"
event_type_text escalated = "escalated"
event_type_text revoked = "revoked"

unfoldable pub event_payload : ApprovalEvent → Json
unfolding event_type_text optional_text detail_items
event_payload event = object (
    fields (
      ("schema_version", number event.schema_version)
      ∷ ("event_id", text event.event_id)
      ∷ ("request_id", text event.request_id)
      ∷ ("sequence", number event.sequence)
      ∷ ("event_type", text (event_type_text event.event_type))
      ∷ ("occurred_at", text event.occurred_at.text)
      ∷ ("actor_id", text event.actor_id)
      ∷ ("actor_role", optional_text event.actor_role)
      ∷ ("reason", text event.reason)
      ∷ ("details", array (detail_items event.details))
      ∷ ("previous_event_fingerprint", optional_text event.previous_event_fingerprint)
      ∷ []))

unfoldable pub request_fingerprint : Services → ApprovalRequest → String
request_fingerprint services request = services.fingerprint (request_payload request)

unfoldable pub event_fingerprint : Services → ApprovalEvent → String
event_fingerprint services event = services.fingerprint (event_payload event)

-- `ApprovalWorkflow.fingerprint`
unfoldable pub workflow_fingerprint : Services → ApprovalRequest → List ApprovalEvent → String
unfolding texts
workflow_fingerprint services request events = services.fingerprint (
    object (
      fields (
        ("request_fingerprint", text (request_fingerprint services request))
        ∷ ("event_fingerprints", array (texts (map (event_fingerprint services) events)))
        ∷ [])))
