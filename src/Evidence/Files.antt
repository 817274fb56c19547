-- ===== src/Evidence/Files.antt =====
-- file_store.py, FileEngagementStore: the store in memory, and what its file was last written with.
-- `true` stands for a write that replaced the file, `false` for one that raised before that.
use night_recon.Prelude.{
  Bool, Result, String, bool_Eq, get, if◌then◌else◌, list_Eq, nat_Eq, ok, option_Eq, pair_Eq, raise,
  some, string_Eq, ◌&&◌, ◌==◌,
}
use night_recon.Evidence.Equality.{json_Eq}
use night_recon.Evidence.Contracts.{
  EngagementEnvelope, EngagementMetadata, EvidenceError, EvidenceRecord, metadata_Eq, not_persisted,
  record_Eq,
}
use night_recon.Evidence.Store.{
  EngagementStore, append, append_envelope, export_envelope, records, replace_metadata,
  set_metadata,
}

pub record FileStore : Type 0 where
  pub memory : EngagementStore
  pub saved : EngagementStore

-- What a method returns or raises, and the store that it leaves.
abbrev pub Outcome : Type 0 → Type 0
Outcome A = Result EvidenceError A × FileStore

-- `_persist`
unfoldable pub persist : Bool → FileStore → Outcome (Unit {0})
persist written s =
    if written then (ok tt, record s { saved = s.memory }) else (raise not_persisted, s)

-- The change in memory, and the write if something changed.
unfoldable pub write_through :
    Bool → Bool → Result EvidenceError EngagementStore → FileStore → Outcome (Unit {0})
unfolding persist
write_through written unchanged (raise e) s = (raise e, s)
write_through written unchanged (ok next) s =
    let t : FileStore = record s { memory = next } in
    if unchanged then (ok tt, t) else persist written t

unfoldable pub set_metadata_file : Bool → EngagementMetadata → FileStore → Outcome (Unit {0})
set_metadata_file written metadata s =
    write_through written (get metadata.engagement_id s.memory.metadata == some metadata)
      (set_metadata metadata s.memory) s

unfoldable pub replace_metadata_file : Bool → EngagementMetadata → FileStore → Outcome (Unit {0})
replace_metadata_file written metadata s =
    write_through written (get metadata.engagement_id s.memory.metadata == some metadata)
      (replace_metadata metadata s.memory) s

unfoldable pub envelope_eq : EngagementEnvelope → EngagementEnvelope → Bool
envelope_eq a b =
    a.engagement_id == b.engagement_id
    && a.records == b.records
    && a.metadata == b.metadata
    && a.schema_version == b.schema_version

-- whether `after != before` fails, or the exception of the export
unfoldable pub after_append :
    Bool → EngagementEnvelope → String → EngagementStore → FileStore → Outcome (Unit {0})
after_append written before engagement_id next s = elim (export_envelope engagement_id next) [
  | raise e ↦ (raise e, record s { memory = next })
  | ok after ↦ write_through written (envelope_eq after before) (ok next) s
]

unfoldable pub append_envelope_file : Bool → EngagementEnvelope → FileStore → Outcome (Unit {0})
append_envelope_file written envelope s = elim (export_envelope envelope.engagement_id s.memory) [
  | raise e ↦ (raise e, s)
  | ok before ↦ elim (append_envelope envelope s.memory) [
    | raise e ↦ (raise e, s)
    | ok next ↦ after_append written before envelope.engagement_id next s
  ]
]

-- `append`: written if the records of the engagement are others than before
unfoldable pub append_file : Bool → EvidenceRecord → FileStore → Outcome (Unit {0})
append_file written r s = elim (append r s.memory) [
  | raise e ↦ (raise e, s)
  | ok next ↦
      write_through written (records r.engagement_id next == records r.engagement_id s.memory)
        (ok next) s
]
