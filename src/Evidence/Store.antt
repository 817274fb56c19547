-- ===== src/Evidence/Store.antt =====
-- store.py, InMemoryEngagementStore, and file_store.py, FileEngagementStore. Each call that may write
-- takes how its write went: `true` when the file was replaced, `false` when an exception came before.
use night_recon.Prelude.{
  Bool, Dict, List, Option, Result, String, [], any, bool_Eq, contains, false, get, if◌then◌else◌,
  list_Eq, map, nat_Eq, none, not, ok, option_Eq, or_raise, pair_Eq, put, raise, require, select,
  some, sorted, str_leb, string_Eq, strip, ◌!=◌, ◌==◌, ◌>>=◌, ◌>>◌, ◌||◌, ◌∷◌,
}
use night_recon.Evidence.Equality.{json_Eq}
use night_recon.Evidence.Contracts.{
  EngagementEnvelope, EngagementMetadata, EvidenceError, EvidenceRecord, check_envelope,
  evidence_conflict, metadata_Eq, metadata_conflict, metadata_missing, not_trimmed, record_Eq,
  schema_version,
}

pub record EngagementStore : Type 0 where
  pub stored : Dict (String × String) EvidenceRecord
  pub metadata : Dict String EngagementMetadata

abbrev pub key_of : EvidenceRecord → String × String
key_of r = (r.engagement_id, r.evidence_id)

-- `existing is not None and existing != record`
unfoldable pub conflicts : EngagementStore → EvidenceRecord → Bool
conflicts s r = elim (get (key_of r) s.stored) [ none ↦ false | some existing ↦ existing != r ]

unfoldable pub set_metadata :
    EngagementMetadata → EngagementStore → Result EvidenceError EngagementStore
set_metadata metadata s = elim (get metadata.engagement_id s.metadata) [
  | none ↦ ok (record s { metadata = put metadata.engagement_id metadata s.metadata })
  | some existing ↦ if existing == metadata then ok s else raise metadata_conflict
]

unfoldable pub replace_metadata :
    EngagementMetadata → EngagementStore → Result EvidenceError EngagementStore
replace_metadata metadata s = do
  existing ← or_raise (get metadata.engagement_id s.metadata) metadata_missing
  ok (record s { metadata = put metadata.engagement_id metadata s.metadata })

unfoldable pub append : EvidenceRecord → EngagementStore → Result EvidenceError EngagementStore
append r s = elim (get (key_of r) s.stored) [
  | none ↦ ok (record s { stored = put (key_of r) r s.stored })
  | some existing ↦ if existing == r then ok s else raise (evidence_conflict r.evidence_id)
]

-- the tests of `append_envelope` on its records
unfoldable pub check_records :
    List EvidenceRecord → EngagementStore → Result EvidenceError (Unit {0})
check_records [] s = ok tt
check_records (r ∷ rs) s = do
  require (not (conflicts s r)) (evidence_conflict r.evidence_id)
  check_records rs s

unfoldable pub metadata_differs : EngagementEnvelope → Option EngagementMetadata → Bool
metadata_differs envelope none = false
metadata_differs envelope (some existing) = elim envelope.metadata [
  | none ↦ false
  | some metadata ↦ existing != metadata
]

unfoldable pub put_metadata :
    EngagementEnvelope → Dict String EngagementMetadata → Dict String EngagementMetadata
put_metadata envelope d = elim envelope.metadata [
  | none ↦ d
  | some metadata ↦ put envelope.engagement_id metadata d
]

unfoldable pub put_records :
    List EvidenceRecord
    → Dict (String × String) EvidenceRecord
    → Dict (String × String) EvidenceRecord
put_records [] d = d
put_records (r ∷ rs) d = put_records rs (put (key_of r) r d)

unfoldable pub append_envelope :
    EngagementEnvelope → EngagementStore → Result EvidenceError EngagementStore
append_envelope envelope s = do
  require (not (metadata_differs envelope (get envelope.engagement_id s.metadata)))
      metadata_conflict
  check_records envelope.records s
  ok (record {
    stored = put_records envelope.records s.stored;
    metadata = put_metadata envelope s.metadata;
  })

-- the order of the evidence of one engagement
unfoldable pub by_evidence_id : EvidenceRecord → EvidenceRecord → Bool
by_evidence_id a b = str_leb a.evidence_id b.evidence_id

abbrev pub under : String → (String × String) × EvidenceRecord → Bool
under engagement_id entry = entry.0.0 == engagement_id

-- `records`, without a filter
unfoldable pub records : String → EngagementStore → List EvidenceRecord
records engagement_id s = sorted by_evidence_id (
    map (λ (entry : (String × String) × EvidenceRecord). entry.1)
      (select (under engagement_id) s.stored))

unfoldable pub export_envelope : String → EngagementStore → Result EvidenceError EngagementEnvelope
export_envelope engagement_id s = do
  require (not (strip engagement_id == "")) not_trimmed
  check_envelope (record {
    engagement_id = engagement_id;
    records = records engagement_id s;
    metadata = get engagement_id s.metadata;
    schema_version = schema_version;
  })

-- `engagement_id in engagements()`
unfoldable pub has_engagement : String → EngagementStore → Bool
has_engagement id s =
    contains id (map (λ (x : String × EngagementMetadata). x.0) s.metadata)
    || any (under id) s.stored
