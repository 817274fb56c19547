-- ===== src/Audit/Events.antt =====
-- audit_log.py: an audit event, what its constructor checks, and the payload of its fingerprint.
use night_recon.Prelude.{
  Bool, List, Option, Result, String, [], all, any, bool_Eq, codes, contains, if◌then◌else◌,
  is_digit, is_lower, has_part, leb, length, list_Eq, lower, map, matches, nat_Eq, none, not, ok,
  option_Eq, or_raise, pair_Eq, require, some, sorted, str_leb, string_Eq, trimmed, unique, ℕ, ◌&&◌,
  ◌==◌, ◌>>=◌, ◌>>◌, ◌||◌, ◌∷◌,
}
use night_recon.Json.{Json, array, detail_items, fields, number, object, optional_text, text}
use night_recon.Policy.{Platform, replace_z}
use night_recon.Approvals.Records.{is_identifier}

pub data AuditError : Type 0 where
  not_trimmed unsupported_characters not_iso8601 no_timezone not_sha256 : AuditError
  unsupported_event_schema bad_event_type bad_subject_type bad_outcome bad_reason_code : AuditError
  duplicate_details secret_like bad_json bad_event_fingerprint : AuditError
  unsupported_trail_schema no_events duplicate_event other_trail other_engagement : AuditError
  sequence_gap broken_chain out_of_order bad_trail_fingerprint : AuditError
  trail_exists trail_missing engagement_changed not_an_extension : AuditError
  bad_store duplicate_trail not_persisted : AuditError

pub record AuditEvent : Type 0 where
  pub event_id : String
  pub trail_id : String
  pub engagement_id : String
  pub sequence : ℕ
  pub event_type : String
  pub occurred_at : String
  pub actor_id : String
  pub subject_type : String
  pub subject_id : String
  pub outcome : String
  pub reason_code : String
  pub summary : String
  pub details : List (String × String)
  pub previous_event_fingerprint : Option String
  pub schema_version : ℕ

abbrev pub audit_event_schema_version : ℕ
audit_event_schema_version = 1

-- `_required_text`
unfoldable pub required_text : String → Result AuditError (Unit {0})
required_text value = require (trimmed value) not_trimmed

-- `_identifier`
unfoldable pub identifier : String → Result AuditError (Unit {0})
identifier value = do required_text value; require (is_identifier value) unsupported_characters

is_type_character : ℕ → Bool
is_type_character c = is_lower c || is_digit c || c == b'_' || c == b'.' || c == b'-'

-- a text that `_EVENT_TYPE_PATTERN` or `_REASON_CODE_PATTERN`, which are the same, matches
unfoldable pub check_name : String → AuditError → Result AuditError (Unit {0})
unfolding is_type_character
check_name value e = do
  required_text value
  require (matches is_lower is_type_character 127 value) e

is_hex : ℕ → Bool
is_hex c = is_digit c || leb b'a' c && leb c b'f'

-- `_sha256`
unfoldable pub check_sha256 : String → Result AuditError (Unit {0})
unfolding is_hex
check_sha256 value = do
  required_text value
  require (length (codes value) == 64 && all is_hex (codes value)) not_sha256

unfoldable pub check_previous : Option String → Result AuditError (Unit {0})
check_previous none = ok tt
check_previous (some value) = check_sha256 value

-- `_VALID_OUTCOMES`
abbrev pub outcomes : List String
outcomes = "info" ∷ "success" ∷ "denied" ∷ "error" ∷ []

-- `_FORBIDDEN_FIELD_FRAGMENTS`
abbrev pub forbidden_fragments : List String
forbidden_fragments =
    "password" ∷ "passwd" ∷ "secret" ∷ "token" ∷ "credential" ∷ "cookie" ∷ "authorization"
    ∷ "api_key" ∷ "apikey" ∷ "private_key" ∷ "session" ∷ []

-- `_reject_secret_keys` on one key whose value is a text
unfoldable pub is_secret_key : String → Bool
is_secret_key key = any (λ fragment. has_part fragment (lower key)) forbidden_fragments

-- the order of Python's pairs
unfoldable pub pair_leb : String × String → String × String → Bool
pair_leb (a, b) (c, d) = if a == c then str_leb b d else str_leb a c

unfoldable pub check_details : List (String × String) → Result AuditError (Unit {0})
check_details [] = ok tt
check_details ((key, value) ∷ rest) = do
  required_text key
  required_text value
  require (not (is_secret_key key)) secret_like
  check_details rest

abbrev pub detail_keys : List (String × String) → List String
detail_keys details = map (λ (x : String × String). x.0) details

module _ (p : Platform) where
  -- `_parse_time`
  unfoldable pub parse_time : String → Result AuditError ℕ
  parse_time value = do
    d ← or_raise (p.fromisoformat (replace_z value)) not_iso8601
    require d.aware no_timezone
    ok d.instant

  -- `_iso8601`
  unfoldable pub iso8601 : String → Result AuditError ℕ
  iso8601 value = do required_text value; parse_time value

  -- `AuditEvent.__post_init__`
  unfoldable pub check_event : AuditEvent → Result AuditError AuditEvent
  check_event event = do
    require (event.schema_version == audit_event_schema_version) unsupported_event_schema
    identifier event.event_id
    identifier event.trail_id
    identifier event.engagement_id
    check_name event.event_type bad_event_type
    occurred ← iso8601 event.occurred_at
    identifier event.actor_id
    check_name event.subject_type bad_subject_type
    identifier event.subject_id
    require (contains event.outcome outcomes) bad_outcome
    check_name event.reason_code bad_reason_code
    required_text event.summary
    check_previous event.previous_event_fingerprint
    let details = sorted pair_leb event.details
    require (unique (detail_keys details)) duplicate_details
    check_details details
    ok (record event { details = details })

-- `AuditEvent._payload`, and what `to_dict` adds to it
unfoldable pub event_fields : AuditEvent → List (String × Json)
event_fields event =
    ("schema_version", number event.schema_version)
    ∷ ("event_id", text event.event_id)
    ∷ ("trail_id", text event.trail_id)
    ∷ ("engagement_id", text event.engagement_id)
    ∷ ("sequence", number event.sequence)
    ∷ ("event_type", text event.event_type)
    ∷ ("occurred_at", text event.occurred_at)
    ∷ ("actor_id", text event.actor_id)
    ∷ ("subject_type", text event.subject_type)
    ∷ ("subject_id", text event.subject_id)
    ∷ ("outcome", text event.outcome)
    ∷ ("reason_code", text event.reason_code)
    ∷ ("summary", text event.summary)
    ∷ ("details", array (detail_items event.details))
    ∷ ("previous_event_fingerprint", optional_text event.previous_event_fingerprint)
    ∷ []

unfoldable pub event_payload : AuditEvent → Json
unfolding event_fields optional_text detail_items fields
event_payload event = object (fields (event_fields event))
