-- ===== src/Evidence/Contracts.antt =====
-- contracts.py: engagement metadata, evidence records and envelopes, with their constructors' checks.
use night_recon.Prelude.{
  Bool, Eq, List, Option, Result, String, [], all, any, arith, bool_Eq, contains, false, has_part,
  list_Eq, list_eq, list_eq_iff, lower, map, nat_Eq, none, not, ok, option_Eq, option_eq,
  option_eq_iff, or_raise, pair_Eq, require, some, string_Eq, trimmed, true, unique, ℕ, ◌&&◌, ◌==◌,
  ◌>>=◌, ◌>>◌, ◌||◌, ◌↔◌, ◌∷◌, ◌≡◌,
}
use night_recon.Json.{
  Fields, Items, Json, array, boolean, closed, done, field, item, null, number, object, text,
}
use night_recon.Evidence.Equality.{json_Eq, json_eq, json_eq_iff}
use night_recon.Policy.{Platform, replace_z}

pub data EvidenceError : Type 0 where
  unsupported_metadata_schema unsupported_evidence_schema unsupported_engagement_schema :
      EvidenceError
  not_trimmed not_iso8601 bad_status bad_night secret_like : EvidenceError
  other_engagement other_metadata duplicate_evidence : EvidenceError
  metadata_conflict metadata_missing not_persisted : EvidenceError
  evidence_conflict : String → EvidenceError
  engagement_missing engagement_exists bad_transition : EvidenceError

pub record EngagementMetadata : Type 0 where
  pub engagement_id : String
  pub name : String
  pub created_at : String
  pub authorization_reference : String
  pub status : String
  pub description : Option String
  pub schema_version : ℕ

pub record EvidenceRecord : Type 0 where
  pub engagement_id : String
  pub evidence_id : String
  pub source_night : String
  pub evidence_type : String
  pub observed_at : String
  pub provenance : String
  pub payload : Fields
  pub limitations : List String
  pub schema_version : ℕ

pub record EngagementEnvelope : Type 0 where
  pub engagement_id : String
  pub records : List EvidenceRecord
  pub metadata : Option EngagementMetadata
  pub schema_version : ℕ

abbrev pub schema_version : ℕ
schema_version = 1

-- `_VALID_NIGHTS`
abbrev pub valid_nights : List String
valid_nights = "white" ∷ "blue" ∷ "red" ∷ "purple" ∷ "black" ∷ []

-- `_VALID_ENGAGEMENT_STATUS`
abbrev pub valid_status : List String
valid_status = "planned" ∷ "active" ∷ "paused" ∷ "completed" ∷ "archived" ∷ []

-- `_FORBIDDEN_FIELD_FRAGMENTS`
abbrev pub forbidden_fragments : List String
forbidden_fragments =
    "password" ∷ "passwd" ∷ "secret" ∷ "token" ∷ "credential" ∷ "cookie" ∷ "authorization"
    ∷ "api_key" ∷ "apikey" ∷ "private_key" ∷ "session" ∷ []

-- `_required_text`
unfoldable pub required_text : String → Result EvidenceError (Unit {0})
required_text value = require (trimmed value) not_trimmed

-- `_optional_text`
unfoldable pub optional_text : Option String → Result EvidenceError (Unit {0})
optional_text none = ok tt
optional_text (some value) = required_text value

unfoldable pub each_text : List String → Result EvidenceError (Unit {0})
each_text [] = ok tt
each_text (value ∷ rest) = do required_text value; each_text rest

-- `any(fragment in lowered for ...)`
unfoldable pub is_secret_key : String → Bool
is_secret_key key = any (λ fragment. has_part fragment (lower key)) forbidden_fragments

-- `_reject_secret_keys`: a key like a secret, at any depth
unfoldable mutual
  pub has_secret : Json → Bool
  has_secret (array xs) = any_secret xs
  has_secret (object fs) = secret_field fs
  has_secret null = false
  has_secret (text s) = false
  has_secret (number n) = false
  has_secret (boolean b) = false

  pub any_secret : Items → Bool
  any_secret done = false
  any_secret (item x xs) = has_secret x || any_secret xs

  pub secret_field : Fields → Bool
  secret_field closed = false
  secret_field (field key v fs) = is_secret_key key || has_secret v || secret_field fs

-- a mapping's `evidence_id` and `engagement_id`
abbrev pub evidence_ids : List EvidenceRecord → List String
evidence_ids rs = map (λ (r : EvidenceRecord). r.evidence_id) rs

abbrev pub belongs : String → EvidenceRecord → Bool
belongs engagement_id r = r.engagement_id == engagement_id

unfoldable pub metadata_belongs : String → Option EngagementMetadata → Bool
metadata_belongs engagement_id none = true
metadata_belongs engagement_id (some metadata) = metadata.engagement_id == engagement_id

module _ (p : Platform) where
  -- `_iso8601`, which takes times without a zone as well
  unfoldable pub iso8601 : String → Result EvidenceError (Unit {0})
  iso8601 value = do
    required_text value
    d ← or_raise (p.fromisoformat (replace_z value)) not_iso8601
    ok tt

  -- `EngagementMetadata.__post_init__`
  unfoldable pub check_metadata : EngagementMetadata → Result EvidenceError EngagementMetadata
  check_metadata metadata = do
    require (metadata.schema_version == schema_version) unsupported_metadata_schema
    required_text metadata.engagement_id
    required_text metadata.name
    iso8601 metadata.created_at
    required_text metadata.authorization_reference
    require (contains metadata.status valid_status) bad_status
    optional_text metadata.description
    ok metadata

  -- `EvidenceRecord.__post_init__`
  unfoldable pub check_record : EvidenceRecord → Result EvidenceError EvidenceRecord
  check_record r = do
    require (r.schema_version == schema_version) unsupported_evidence_schema
    required_text r.engagement_id
    required_text r.evidence_id
    required_text r.evidence_type
    required_text r.provenance
    require (contains r.source_night valid_nights) bad_night
    iso8601 r.observed_at
    require (not (secret_field r.payload)) secret_like
    each_text r.limitations
    ok r

-- `EngagementEnvelope.__post_init__`
unfoldable pub check_envelope : EngagementEnvelope → Result EvidenceError EngagementEnvelope
check_envelope envelope = do
  require (envelope.schema_version == schema_version) unsupported_engagement_schema
  required_text envelope.engagement_id
  require (all (belongs envelope.engagement_id) envelope.records) other_engagement
  require (metadata_belongs envelope.engagement_id envelope.metadata) other_metadata
  require (unique (evidence_ids envelope.records)) duplicate_evidence
  ok envelope

-- `==` on metadata and on records, field by field
abbrev metadata_eq : EngagementMetadata → EngagementMetadata → Bool
metadata_eq a b =
    a.engagement_id == b.engagement_id
    && a.name == b.name
    && a.created_at == b.created_at
    && a.authorization_reference == b.authorization_reference
    && a.status == b.status
    && option_eq a.description b.description
    && a.schema_version == b.schema_version

pub metadata_eq_iff : (a b : EngagementMetadata) → (metadata_eq a b ≡ true) ↔ (a ≡ b)
metadata_eq_iff a b = ground (
  arith,
  string_Eq.equal_iff a.engagement_id b.engagement_id,
  string_Eq.equal_iff a.name b.name,
  string_Eq.equal_iff a.created_at b.created_at,
  string_Eq.equal_iff a.authorization_reference b.authorization_reference,
  string_Eq.equal_iff a.status b.status,
  option_eq_iff a.description b.description,
)

instance abbrev pub metadata_Eq : Eq EngagementMetadata
metadata_Eq = record { equal = metadata_eq; equal_iff = metadata_eq_iff }

abbrev record_eq : EvidenceRecord → EvidenceRecord → Bool
record_eq a b =
    a.engagement_id == b.engagement_id
    && a.evidence_id == b.evidence_id
    && a.source_night == b.source_night
    && a.evidence_type == b.evidence_type
    && a.observed_at == b.observed_at
    && a.provenance == b.provenance
    && json_eq (object a.payload) (object b.payload)
    && list_eq a.limitations b.limitations
    && a.schema_version == b.schema_version

pub record_eq_iff : (a b : EvidenceRecord) → (record_eq a b ≡ true) ↔ (a ≡ b)
record_eq_iff a b = ground (
  arith,
  string_Eq.equal_iff a.engagement_id b.engagement_id,
  string_Eq.equal_iff a.evidence_id b.evidence_id,
  string_Eq.equal_iff a.source_night b.source_night,
  string_Eq.equal_iff a.evidence_type b.evidence_type,
  string_Eq.equal_iff a.observed_at b.observed_at,
  string_Eq.equal_iff a.provenance b.provenance,
  json_eq_iff (object a.payload) (object b.payload),
  list_eq_iff a.limitations b.limitations,
)

instance abbrev pub record_Eq : Eq EvidenceRecord
record_Eq = record { equal = record_eq; equal_iff = record_eq_iff }
