-- ===== src/Audit/Trails.antt =====
-- audit_log.py: a trail, and the checks of its constructor on the chain of its events.
use night_recon.Prelude.{
  Bool, List, Option, Result, String, [], bool_Eq, contains, leb, length, list_Eq, ltb, map, nat_Eq,
  none, not, ok, option_Eq, pair_Eq, require, some, string_Eq, true, ℕ, ◌++◌, ◌+◌, ◌==◌, ◌>>=◌,
  ◌>>◌, ◌∷◌,
}
use night_recon.Json.{Json, array, fields, number, object, text, texts}
use night_recon.Audit.Events.{
  AuditError, AuditEvent, audit_event_schema_version, broken_chain, check_event, duplicate_event,
  event_payload, identifier, no_events, other_engagement, other_trail, out_of_order, parse_time,
  sequence_gap, unsupported_trail_schema,
}
use night_recon.Policy.{Platform}

-- `_fingerprint`, the SHA-256 of the canonical JSON, and the parser of times.
pub record Services : Type 0 where
  pub platform : Platform
  pub fingerprint : Json → String

pub record AuditTrail : Type 0 where
  pub trail_id : String
  pub engagement_id : String
  pub events : List AuditEvent
  pub schema_version : ℕ

abbrev pub audit_schema_version : ℕ
audit_schema_version = 1

-- the variables of the loop over the events
pub record Progress : Type 0 where
  pub index : ℕ
  pub seen : List String
  pub previous : Option AuditEvent
  pub previous_time : Option ℕ

abbrev pub no_progress : Progress
no_progress = record { index = 0; seen = []; previous = none; previous_time = none }

-- `previous_time is not None and occurred < previous_time` fails
unfoldable pub in_order : Option ℕ → ℕ → Bool
in_order none occurred = true
in_order (some before) occurred = leb before occurred

-- the arguments of `create` and `append` that describe an event
pub record EventArguments : Type 0 where
  pub event_id : String
  pub event_type : String
  pub occurred_at : String
  pub actor_id : String
  pub subject_type : String
  pub subject_id : String
  pub outcome : String
  pub reason_code : String
  pub summary : String
  pub details : List (String × String)

unfoldable pub trail_event : String → String → ℕ → Option String → EventArguments → AuditEvent
trail_event trail_id engagement_id sequence previous a = record {
  event_id = a.event_id;
  trail_id = trail_id;
  engagement_id = engagement_id;
  sequence = sequence;
  event_type = a.event_type;
  occurred_at = a.occurred_at;
  actor_id = a.actor_id;
  subject_type = a.subject_type;
  subject_id = a.subject_id;
  outcome = a.outcome;
  reason_code = a.reason_code;
  summary = a.summary;
  details = a.details;
  previous_event_fingerprint = previous;
  schema_version = audit_event_schema_version;
}

-- `events[-1]`
unfoldable pub last_event : List AuditEvent → Option AuditEvent
last_event [] = none
last_event (e ∷ []) = some e
last_event (e ∷ f ∷ es) = last_event (f ∷ es)

module _ (v : Services) where
  -- `AuditEvent.fingerprint`
  unfoldable pub event_fingerprint : AuditEvent → String
  event_fingerprint event = v.fingerprint (event_payload event)

  unfoldable pub fingerprint_of : Option AuditEvent → Option String
  fingerprint_of none = none
  fingerprint_of (some event) = some (event_fingerprint event)

  -- one round of the loop
  unfoldable pub check_next : String → String → Progress → AuditEvent → Result AuditError Progress
  check_next trail_id engagement_id s event = do
    require (not (contains event.event_id s.seen)) duplicate_event
    require (event.trail_id == trail_id) other_trail
    require (event.engagement_id == engagement_id) other_engagement
    require (event.sequence == s.index) sequence_gap
    require (event.previous_event_fingerprint == fingerprint_of s.previous) broken_chain
    occurred ← parse_time v.platform event.occurred_at
    require (in_order s.previous_time occurred) out_of_order
    ok (record {
      index = s.index + 1;
      seen = event.event_id ∷ s.seen;
      previous = some event;
      previous_time = some occurred;
    })

  unfoldable pub check_events :
      String → String → Progress → List AuditEvent → Result AuditError Progress
  check_events trail_id engagement_id s [] = ok s
  check_events trail_id engagement_id s (event ∷ rest) = do
    next ← check_next trail_id engagement_id s event
    check_events trail_id engagement_id next rest

  -- `AuditTrail.__post_init__`
  unfoldable pub check_trail : AuditTrail → Result AuditError AuditTrail
  check_trail trail = do
    require (trail.schema_version == audit_schema_version) unsupported_trail_schema
    identifier trail.trail_id
    identifier trail.engagement_id
    require (ltb 0 (length trail.events)) no_events
    s ← check_events trail.trail_id trail.engagement_id no_progress trail.events
    ok trail

  unfoldable pub create : String → String → EventArguments → Result AuditError AuditTrail
  unfolding trail_event
  create trail_id engagement_id a = do
    event ← check_event v.platform (trail_event trail_id engagement_id 0 none a)
    check_trail (record {
      trail_id = trail_id;
      engagement_id = engagement_id;
      events = event ∷ [];
      schema_version = audit_schema_version;
    })

  unfoldable pub append : AuditTrail → EventArguments → Result AuditError AuditTrail
  unfolding trail_event
  append trail a = do
    event ← check_event v.platform (
        trail_event trail.trail_id trail.engagement_id (length trail.events)
          (fingerprint_of (last_event trail.events)) a)
    check_trail (record {
      trail_id = trail.trail_id;
      engagement_id = trail.engagement_id;
      events = trail.events ++ event ∷ [];
      schema_version = audit_schema_version;
    })

  -- `AuditTrail.fingerprint`
  unfoldable pub trail_payload : AuditTrail → Json
  trail_payload trail = object (
      fields (
        ("schema_version", number trail.schema_version)
        ∷ ("trail_id", text trail.trail_id)
        ∷ ("engagement_id", text trail.engagement_id)
        ∷ ("event_fingerprints", array (texts (map event_fingerprint trail.events)))
        ∷ []))

  unfoldable pub trail_fingerprint : AuditTrail → String
  trail_fingerprint trail = v.fingerprint (trail_payload trail)
