-- ===== src/Audit/Codec.antt =====
-- audit_log.py: `to_dict` and `from_dict` of events and trails.
use night_recon.Prelude.{
  List, Option, Result, String, [], bool_Eq, list_Eq, nat_Eq, none, ok, option_Eq, or_raise,
  pair_Eq, raise, require, some, string_Eq, ◌++◌, ◌==◌, ◌>>=◌, ◌>>◌, ◌∷◌,
}
use night_recon.Json.{
  Fields, Items, Json, array, as_array, as_number, as_optional_text, as_text, detail_items, done,
  fields, has_keys, item, lookup, number, object, optional_text, text,
}
use night_recon.Audit.Events.{
  AuditError, AuditEvent, bad_event_fingerprint, bad_json, bad_trail_fingerprint, check_event,
  event_fields,
}
use night_recon.Audit.Trails.{
  AuditTrail, Services, check_trail, event_fingerprint, trail_fingerprint,
}

-- the keys of an event
unfoldable pub event_keys : List String
event_keys =
    "schema_version" ∷ "event_id" ∷ "trail_id" ∷ "engagement_id" ∷ "sequence" ∷ "event_type"
    ∷ "occurred_at" ∷ "actor_id" ∷ "subject_type" ∷ "subject_id" ∷ "outcome" ∷ "reason_code"
    ∷ "summary" ∷ "details" ∷ "previous_event_fingerprint" ∷ "fingerprint" ∷ []

-- the loop over the details
unfoldable pub read_details : Items → Result AuditError (List (String × String))
read_details done = ok []
read_details (item (array (item (text k) (item (text w) done))) rest) = do
  pairs ← read_details rest
  ok ((k, w) ∷ pairs)
read_details (item j rest) = raise bad_json

-- a value of an object, in the form in which it is needed
unfoldable pub read : {A : Type 0} → (Json → Option A) → String → Fields → Result AuditError A
read form key fs = elim (lookup key fs) [
  | none ↦ raise bad_json
  | some j ↦ or_raise (form j) bad_json
]

module _ (v : Services) where
  unfoldable pub event_to_dict : AuditEvent → Json
  unfolding event_fields optional_text detail_items fields
  event_to_dict event =
      object (fields (event_fields event ++ ("fingerprint", text (event_fingerprint v event)) ∷ []))

  unfoldable pub event_from_dict : Json → Result AuditError AuditEvent
  unfolding read
  event_from_dict payload = do
    fs ← or_raise (has_keys event_keys payload) bad_json
    items ← read as_array "details" fs
    details ← read_details items
    schema_version ← read as_number "schema_version" fs
    event_id ← read as_text "event_id" fs
    trail_id ← read as_text "trail_id" fs
    engagement_id ← read as_text "engagement_id" fs
    sequence ← read as_number "sequence" fs
    event_type ← read as_text "event_type" fs
    occurred_at ← read as_text "occurred_at" fs
    actor_id ← read as_text "actor_id" fs
    subject_type ← read as_text "subject_type" fs
    subject_id ← read as_text "subject_id" fs
    outcome ← read as_text "outcome" fs
    reason_code ← read as_text "reason_code" fs
    summary ← read as_text "summary" fs
    previous ← read as_optional_text "previous_event_fingerprint" fs
    event ← check_event v.platform (record {
      event_id = event_id;
      trail_id = trail_id;
      engagement_id = engagement_id;
      sequence = sequence;
      event_type = event_type;
      occurred_at = occurred_at;
      actor_id = actor_id;
      subject_type = subject_type;
      subject_id = subject_id;
      outcome = outcome;
      reason_code = reason_code;
      summary = summary;
      details = details;
      previous_event_fingerprint = previous;
      schema_version = schema_version;
    })
    print ← read as_text "fingerprint" fs
    require (print == event_fingerprint v event) bad_event_fingerprint
    ok event

  unfoldable pub event_items : List AuditEvent → Items
  event_items [] = done
  event_items (e ∷ es) = item (event_to_dict e) (event_items es)

  unfoldable pub trail_to_dict : AuditTrail → Json
  unfolding event_items fields
  trail_to_dict trail = object (
      fields (
        ("schema_version", number trail.schema_version)
        ∷ ("trail_id", text trail.trail_id)
        ∷ ("engagement_id", text trail.engagement_id)
        ∷ ("events", array (event_items trail.events))
        ∷ ("trail_fingerprint", text (trail_fingerprint v trail))
        ∷ []))

  unfoldable pub read_events : Items → Result AuditError (List AuditEvent)
  read_events done = ok []
  read_events (item j rest) = do
    event ← event_from_dict j
    events ← read_events rest
    ok (event ∷ events)

  unfoldable pub trail_from_dict : Json → Result AuditError AuditTrail
  unfolding read
  trail_from_dict payload = do
    fs ←
        or_raise
          (has_keys
            ("schema_version" ∷ "trail_id" ∷ "engagement_id" ∷ "events" ∷ "trail_fingerprint" ∷ [])
            payload)
          bad_json
    items ← read as_array "events" fs
    schema_version ← read as_number "schema_version" fs
    trail_id ← read as_text "trail_id" fs
    engagement_id ← read as_text "engagement_id" fs
    events ← read_events items
    trail ← check_trail v (record {
      trail_id = trail_id;
      engagement_id = engagement_id;
      events = events;
      schema_version = schema_version;
    })
    print ← read as_text "trail_fingerprint" fs
    require (print == trail_fingerprint v trail) bad_trail_fingerprint
    ok trail
