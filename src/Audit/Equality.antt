-- ===== src/Audit/Equality.antt =====
-- audit_log.py: `==` on events and trails, which the dataclasses compare field by field.
use night_recon.Prelude.{
  Bool, Eq, arith, bool_Eq, list_Eq, list_eq, list_eq_iff, nat_Eq, option_Eq, option_eq,
  option_eq_iff, pair_Eq, string_Eq, true, ◌&&◌, ◌==◌, ◌↔◌, ◌≡◌,
}
use night_recon.Audit.Events.{AuditEvent}
use night_recon.Audit.Trails.{AuditTrail}

abbrev event_eq : AuditEvent → AuditEvent → Bool
event_eq a b =
    a.event_id == b.event_id
    && a.trail_id == b.trail_id
    && a.engagement_id == b.engagement_id
    && a.sequence == b.sequence
    && a.event_type == b.event_type
    && a.occurred_at == b.occurred_at
    && a.actor_id == b.actor_id
    && a.subject_type == b.subject_type
    && a.subject_id == b.subject_id
    && a.outcome == b.outcome
    && a.reason_code == b.reason_code
    && a.summary == b.summary
    && list_eq a.details b.details
    && option_eq a.previous_event_fingerprint b.previous_event_fingerprint
    && a.schema_version == b.schema_version

pub event_eq_iff : (a b : AuditEvent) → (event_eq a b ≡ true) ↔ (a ≡ b)
event_eq_iff a b = ground (
  arith,
  string_Eq.equal_iff a.event_id b.event_id,
  string_Eq.equal_iff a.trail_id b.trail_id,
  string_Eq.equal_iff a.engagement_id b.engagement_id,
  string_Eq.equal_iff a.event_type b.event_type,
  string_Eq.equal_iff a.occurred_at b.occurred_at,
  string_Eq.equal_iff a.actor_id b.actor_id,
  string_Eq.equal_iff a.subject_type b.subject_type,
  string_Eq.equal_iff a.subject_id b.subject_id,
  string_Eq.equal_iff a.outcome b.outcome,
  string_Eq.equal_iff a.reason_code b.reason_code,
  string_Eq.equal_iff a.summary b.summary,
  list_eq_iff a.details b.details,
  option_eq_iff a.previous_event_fingerprint b.previous_event_fingerprint,
)

instance abbrev pub event_Eq : Eq AuditEvent
event_Eq = record { equal = event_eq; equal_iff = event_eq_iff }

abbrev trail_eq : AuditTrail → AuditTrail → Bool
trail_eq a b =
    a.trail_id == b.trail_id
    && a.engagement_id == b.engagement_id
    && a.events == b.events
    && a.schema_version == b.schema_version

pub trail_eq_iff : (a b : AuditTrail) → (trail_eq a b ≡ true) ↔ (a ≡ b)
trail_eq_iff a b = ground (
  arith,
  string_Eq.equal_iff a.trail_id b.trail_id,
  string_Eq.equal_iff a.engagement_id b.engagement_id,
  list_eq_iff a.events b.events,
)

instance abbrev pub trail_Eq : Eq AuditTrail
trail_Eq = record { equal = trail_eq; equal_iff = trail_eq_iff }
