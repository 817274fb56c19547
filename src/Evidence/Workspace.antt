-- ===== src/Evidence/Workspace.antt =====
-- workspace.py, LocalWorkspace: engagements, their status, and the merging of envelopes.
use night_recon.Prelude.{
  Bool, Dict, List, Option, Result, String, [], bool_Eq, contains, false, get, if◌then◌else◌,
  length, list_Eq, ltb, map, nat_Eq, none, ok, option_Eq, pair_Eq, put, raise, require, some,
  sorted, str_leb, string_Eq, true, ℕ, ◌++◌, ◌+◌, ◌==◌, ◌>>=◌, ◌>>◌, ◌||◌, ◌∷◌,
}
use night_recon.Evidence.Contracts.{
  EngagementEnvelope, EngagementMetadata, EvidenceError, EvidenceRecord, bad_transition,
  check_envelope, check_metadata, check_record, engagement_exists, engagement_missing, metadata_Eq,
  metadata_missing, record_Eq, schema_version,
}
use night_recon.Evidence.Store.{EngagementStore, export_envelope, has_engagement, metadata_differs}
use night_recon.Evidence.Files.{
  FileStore, Outcome, append_envelope_file, append_file, replace_metadata_file, set_metadata_file,
}
use night_recon.Policy.{Platform}

pub record WorkspaceSummary : Type 0 where
  pub engagement_id : String
  pub name : Option String
  pub status : Option String
  pub source_nights : List String
  pub record_count : ℕ
  pub evidence_types : List String

pub record MergeReport : Type 0 where
  pub engagement_id : String
  pub applied : Bool
  pub added_records : ℕ
  pub identical_records : ℕ
  pub evidence_conflicts : List String
  pub metadata_conflict : Bool
  pub source_nights : List String

-- `sorted({...})`
unfoldable pub distinct : List String → List String
distinct [] = []
distinct (x ∷ xs) = let rest = distinct xs in if contains x rest then rest else x ∷ rest

unfoldable pub nights_of : List EvidenceRecord → List String
unfolding distinct
nights_of rs = sorted str_leb (distinct (map (λ (r : EvidenceRecord). r.source_night) rs))

unfoldable pub types_of : List EvidenceRecord → List String
unfolding distinct
types_of rs = sorted str_leb (distinct (map (λ (r : EvidenceRecord). r.evidence_type) rs))

-- `_STATUS_TRANSITIONS`
unfoldable pub transitions : String → List String
transitions status =
    if status == "planned"
    then "active" ∷ "archived" ∷ []
    else if status == "active"
    then "paused" ∷ "completed" ∷ []
    else if status == "paused"
    then "active" ∷ "completed" ∷ []
    else if status == "completed"
    then "archived" ∷ []
    else []

-- `envelope`
unfoldable pub envelope_of : String → EngagementStore → Result EvidenceError EngagementEnvelope
envelope_of engagement_id s = do
  require (has_engagement engagement_id s) engagement_missing
  export_envelope engagement_id s

unfoldable pub summary : String → EngagementStore → Result EvidenceError WorkspaceSummary
summary engagement_id s = do
  envelope ← envelope_of engagement_id s
  ok (record {
    engagement_id = engagement_id;
    name = elim envelope.metadata [ none ↦ none | some metadata ↦ some metadata.name ];
    status = elim envelope.metadata [ none ↦ none | some metadata ↦ some metadata.status ];
    source_nights = nights_of envelope.records;
    record_count = length envelope.records;
    evidence_types = types_of envelope.records;
  })

-- a call on the store, and then the summary of what it left
unfoldable pub summarized : String → Outcome (Unit {0}) → Outcome WorkspaceSummary
summarized engagement_id (raise e, s) = (raise e, s)
summarized engagement_id (ok u, s) = (summary engagement_id s.memory, s)

unfoldable pub create_engagement : Bool → EngagementMetadata → FileStore → Outcome WorkspaceSummary
create_engagement written metadata s =
    if has_engagement metadata.engagement_id s.memory
    then (raise engagement_exists, s)
    else summarized metadata.engagement_id (set_metadata_file written metadata s)

unfoldable pub move_status :
    Platform → Bool → EngagementMetadata → String → FileStore → Outcome WorkspaceSummary
move_status p written metadata status s =
    if contains status (transitions metadata.status)
    then (elim (check_metadata p (record metadata { status = status })) [
      | raise e ↦ (raise e, s)
      | ok moved ↦ summarized metadata.engagement_id (replace_metadata_file written moved s)
    ])
    else (raise bad_transition, s)

unfoldable pub update_status :
    Platform → Bool → String → String → FileStore → Outcome WorkspaceSummary
update_status p written engagement_id status s = elim (envelope_of engagement_id s.memory) [
  | raise e ↦ (raise e, s)
  | ok envelope ↦ elim envelope.metadata [
    | none ↦ (raise metadata_missing, s)
    | some metadata ↦
        if status == metadata.status
        then (summary engagement_id s.memory, s)
        else move_status p written metadata status s
  ]
]

-- `{record.evidence_id: record for record in current.records}`
unfoldable pub by_id : List EvidenceRecord → Dict String EvidenceRecord → Dict String EvidenceRecord
by_id [] d = d
by_id (r ∷ rs) d = by_id rs (put r.evidence_id r d)

-- the counters of the loop over the records
pub record Tally : Type 0 where
  pub added : ℕ
  pub identical : ℕ
  pub conflicting : List String

unfoldable pub count_record : Dict String EvidenceRecord → EvidenceRecord → Tally → Tally
count_record existing r t = elim (get r.evidence_id existing) [
  | none ↦ record t { added = t.added + 1 }
  | some previous ↦
      if previous == r
      then record t { identical = t.identical + 1 }
      else record t { conflicting = t.conflicting ++ r.evidence_id ∷ [] }
]

unfoldable pub tally : Dict String EvidenceRecord → List EvidenceRecord → Tally → Tally
tally existing [] t = t
tally existing (r ∷ rs) t = tally existing rs (count_record existing r t)

abbrev pub no_tally : Tally
no_tally = record { added = 0; identical = 0; conflicting = [] }

-- the envelope of the engagement as it is, or an empty one
unfoldable pub current_envelope : String → EngagementStore → Result EvidenceError EngagementEnvelope
current_envelope engagement_id s =
    if has_engagement engagement_id s
    then export_envelope engagement_id s
    else check_envelope (record {
      engagement_id = engagement_id;
      records = [];
      metadata = none;
      schema_version = schema_version;
    })

unfoldable pub refused_report : EngagementEnvelope → EngagementEnvelope → Tally → Bool → MergeReport
refused_report current envelope t differs = record {
  engagement_id = envelope.engagement_id;
  applied = false;
  added_records = 0;
  identical_records = t.identical;
  evidence_conflicts = sorted str_leb t.conflicting;
  metadata_conflict = differs;
  source_nights = nights_of (current.records ++ envelope.records);
}

unfoldable pub applied_report : EngagementEnvelope → Tally → EngagementEnvelope → MergeReport
applied_report envelope t merged = record {
  engagement_id = envelope.engagement_id;
  applied = true;
  added_records = t.added;
  identical_records = t.identical;
  evidence_conflicts = [];
  metadata_conflict = false;
  source_nights = nights_of merged.records;
}

unfoldable pub apply_merge : Bool → EngagementEnvelope → Tally → FileStore → Outcome MergeReport
apply_merge written envelope t s =
    let (r, next) = append_envelope_file written envelope s in
    (
      do
        r
        merged ← export_envelope envelope.engagement_id next.memory
        ok (applied_report envelope t merged),
      next,
    )

-- `metadata_conflict or conflicts`
unfoldable pub is_refused : Bool → Tally → Bool
is_refused differs t = differs || ltb 0 (length t.conflicting)

unfoldable pub merge_envelope : Bool → EngagementEnvelope → FileStore → Outcome MergeReport
merge_envelope written envelope s = elim (current_envelope envelope.engagement_id s.memory) [
  | raise e ↦ (raise e, s)
  | ok current ↦
      let differs = metadata_differs envelope current.metadata in
      let t = tally (by_id current.records []) envelope.records no_tally in
      if is_refused differs t
      then (ok (refused_report current envelope t differs), s)
      else apply_merge written envelope t s
]

-- What a client may ask of the workspace, and of its store: `append`, `append_envelope`,
-- `set_metadata` and `replace_metadata` of the FileEngagementStore.
pub data Command : Type 0 where
  creates : EngagementMetadata → Command
  moves : String → String → Command
  merges : EngagementEnvelope → Command
  appends : EvidenceRecord → Command
  takes : EngagementEnvelope → Command
  sets replaces : EngagementMetadata → Command

module _ (p : Platform) where
  unfoldable pub step : Bool → Command → FileStore → FileStore
  step written (creates metadata) s = elim (check_metadata p metadata) [
    | raise e ↦ s
    | ok built ↦ (create_engagement written built s).1
  ]
  step written (moves engagement_id status) s = (update_status p written engagement_id status s).1
  step written (merges envelope) s = elim (check_envelope envelope) [
    | raise e ↦ s
    | ok built ↦ (merge_envelope written built s).1
  ]
  step written (appends r) s = elim (check_record p r) [
    | raise e ↦ s
    | ok built ↦ (append_file written built s).1
  ]
  step written (takes envelope) s = elim (check_envelope envelope) [
    | raise e ↦ s
    | ok built ↦ (append_envelope_file written built s).1
  ]
  step written (sets metadata) s = elim (check_metadata p metadata) [
    | raise e ↦ s
    | ok built ↦ (set_metadata_file written built s).1
  ]
  step written (replaces metadata) s = elim (check_metadata p metadata) [
    | raise e ↦ s
    | ok built ↦ (replace_metadata_file written built s).1
  ]

  unfoldable pub run : FileStore → List (Bool × Command) → FileStore
  run s [] = s
  run s ((written, c) ∷ cs) = run (step written c s) cs
