-- ===== src/Evidence/Steps.antt =====
-- workspace.py and file_store.py: what each kind of call does to the memory.
use mathlib.Core.Path.{subst}
use night_recon.Prelude.{
  Bool, Bool-cases, List, Option-cases, Result-cases, [], arith, bool_Eq, contains, eq_refl, get,
  inl, inr, list_Eq, nat_Eq, none, ok, option_Eq, pair_Eq, put-same, refl, some, string_Eq, true,
  ◌==◌, ◌∷◌, ◌≡◌,
}
use night_recon.Evidence.Contracts.{
  EngagementEnvelope, EngagementMetadata, EvidenceRecord, check_envelope, check_metadata,
  check_record, metadata_Eq, metadata_belongs, record_Eq, record_eq_iff, schema_version,
}
use night_recon.Evidence.Store.{
  EngagementStore, append, append_envelope, check_records, conflicts, export_envelope, key_of,
  metadata_differs, put_metadata, put_records, replace_metadata, set_metadata,
}
use night_recon.Evidence.Files.{
  FileStore, after_append, append_envelope_file, append_file, replace_metadata_file,
  set_metadata_file, write_through,
}
use night_recon.Evidence.Workspace.{
  Command, appends, apply_merge, by_id, create_engagement, creates, current_envelope, is_refused,
  merge_envelope, merges, moves, no_tally, replaces, sets, step, takes, tally,
}
use night_recon.Policy.{Platform}
use night_recon.Evidence.Moves.{
  Change, Change-same, added, check_metadata_same, create_engagement-Change, created, replaced,
  update_status-Change, write_through-memory,
}

append_envelope_file-Change :
    {given : List EngagementMetadata} (written : Bool) (envelope : EngagementEnvelope)
    (s : FileStore)
    → metadata_belongs envelope.engagement_id envelope.metadata ≡ true
    → Change given s.memory (append_envelope_file written envelope s).1.memory
unfolding append_envelope_file after_append write_through
append_envelope_file-Change {given} written envelope s own =
    elim (Result-cases (export_envelope envelope.engagement_id s.memory)) [
      | inr (x, a) ↦ Change-same (ground (arith, a))
      | inl (before, a) ↦ elim (Result-cases (append_envelope envelope s.memory)) [
        | inr (x, b) ↦ Change-same (ground (arith, a, b))
        | inl (next, b) ↦ elim (Result-cases (export_envelope envelope.engagement_id next)) [
          | inr (x, c) ↦
              subst (Change given s.memory) {x = next} (ground (arith, a, b, c))
                (added envelope own b)
          | inl (after, c) ↦
              subst (Change given s.memory) {x = next} (ground (arith, a, b, c))
                (added envelope own b)
        ]
      ]
    ]

merge_envelope-Change :
    {given : List EngagementMetadata} (written : Bool) (envelope : EngagementEnvelope)
    (s : FileStore)
    → metadata_belongs envelope.engagement_id envelope.metadata ≡ true
    → Change given s.memory (merge_envelope written envelope s).1.memory
unfolding merge_envelope apply_merge
merge_envelope-Change {given} written envelope s own =
    elim (Result-cases (current_envelope envelope.engagement_id s.memory)) [
      | inr (x, a) ↦ Change-same (ground (arith, a))
      | inl (current, a) ↦
          elim (Bool-cases (
            is_refused (metadata_differs envelope current.metadata)
              (tally (by_id current.records []) envelope.records no_tally))) [
                | inl b ↦ Change-same (ground (arith, a, b))
                | inr b ↦
                    subst (Change given s.memory)
                      {x = (append_envelope_file written envelope s).1.memory}
                      (ground (arith, a, b)) (append_envelope_file-Change written envelope s own)
              ]
    ]

-- The envelope of one record.
abbrev alone : EvidenceRecord → EngagementEnvelope
alone r = record {
  engagement_id = r.engagement_id;
  records = r ∷ [];
  metadata = none;
  schema_version = schema_version;
}

-- To append a record is to append an envelope of it alone.
append-alone :
    (r : EvidenceRecord) (s t : EngagementStore)
    → append r s ≡ ok t
    → append_envelope (alone r) s ≡ ok t
unfolding append append_envelope check_records conflicts put_records put_metadata metadata_differs
append-alone r s t h = elim (Option-cases (get (key_of r) s.stored)) [
  | inl n ↦ ground (arith, h, n)
  | inr (x, n) ↦ ground (arith, h, n, record_eq_iff x r, put-same (key_of r) r s.stored)
]

append_file-Change :
    {given : List EngagementMetadata} (written : Bool) (r : EvidenceRecord) (s : FileStore)
    → Change given s.memory (append_file written r s).1.memory
unfolding append_file write_through metadata_belongs
append_file-Change {given} written r s = elim (Result-cases (append r s.memory)) [
  | inr (x, a) ↦ Change-same (ground (arith, a))
  | inl (next, a) ↦
      subst (Change given s.memory) {x = next} (ground (arith, a))
        (added (alone r) refl (append-alone r s.memory next a))
]

check_envelope-metadata :
    (envelope built : EngagementEnvelope)
    → check_envelope envelope ≡ ok built
    → metadata_belongs built.engagement_id built.metadata ≡ true
unfolding check_envelope
check_envelope-metadata envelope built h = ground (arith, h)

set_metadata_file-Change :
    {given : List EngagementMetadata} (written : Bool) (m : EngagementMetadata) (s : FileStore)
    → Change given s.memory (set_metadata_file written m s).1.memory
unfolding set_metadata_file set_metadata
set_metadata_file-Change written m s =
    write_through-memory written (get m.engagement_id s.memory.metadata == some m)
      (set_metadata m s.memory) s
      (λ t e. elim (Option-cases (get m.engagement_id s.memory.metadata)) [
        | inl n ↦ created m n (ground (arith, e, n))
        | inr (x, n) ↦ Change-same (ground (arith, e, n))
      ])

replace_metadata_file-Change :
    (written : Bool) (m : EngagementMetadata) (s : FileStore)
    → Change (m ∷ []) s.memory (replace_metadata_file written m s).1.memory
unfolding replace_metadata_file replace_metadata contains
replace_metadata_file-Change written m s =
    write_through-memory written (get m.engagement_id s.memory.metadata == some m)
      (replace_metadata m s.memory) s
      (λ t e. elim (Option-cases (get m.engagement_id s.memory.metadata)) [
        | inl n ↦ absurd (ground (arith, e, n))
        | inr (x, n) ↦ replaced m x n (ground (arith, eq_refl m)) (ground (arith, e, n))
      ])

-- The metadata that a call gives in place of what is there.
abbrev pub replacement : Command → List EngagementMetadata
replacement (replaces m) = m ∷ []
replacement c = []

pub step-Change :
    (p : Platform) (written : Bool) (c : Command) (s : FileStore)
    → Change (replacement c) s.memory (step p written c s).memory
unfolding step
step-Change p written (creates m) s = elim (Result-cases (check_metadata p m)) [
  | inr (e, h) ↦ Change-same (ground (arith, h))
  | inl (built, h) ↦
      subst (Change [] s.memory) {x = (create_engagement written built s).1.memory}
        (ground (arith, h)) (create_engagement-Change written built s)
]
step-Change p written (moves id status) s = update_status-Change p written id status s
step-Change p written (merges envelope) s = elim (Result-cases (check_envelope envelope)) [
  | inr (e, h) ↦ Change-same (ground (arith, h))
  | inl (built, h) ↦
      subst (Change [] s.memory) {x = (merge_envelope written built s).1.memory} (ground (arith, h))
        (merge_envelope-Change written built s (check_envelope-metadata envelope built h))
]
step-Change p written (appends r) s = elim (Result-cases (check_record p r)) [
  | inr (e, h) ↦ Change-same (ground (arith, h))
  | inl (built, h) ↦
      subst (Change [] s.memory) {x = (append_file written built s).1.memory} (ground (arith, h))
        (append_file-Change written built s)
]
step-Change p written (takes envelope) s = elim (Result-cases (check_envelope envelope)) [
  | inr (e, h) ↦ Change-same (ground (arith, h))
  | inl (built, h) ↦
      subst (Change [] s.memory) {x = (append_envelope_file written built s).1.memory}
        (ground (arith, h))
        (append_envelope_file-Change written built s (check_envelope-metadata envelope built h))
]
step-Change p written (sets m) s = elim (Result-cases (check_metadata p m)) [
  | inr (e, h) ↦ Change-same (ground (arith, h))
  | inl (built, h) ↦
      subst (Change [] s.memory) {x = (set_metadata_file written built s).1.memory}
        (ground (arith, h)) (set_metadata_file-Change written built s)
]
step-Change p written (replaces m) s = elim (Result-cases (check_metadata p m)) [
  | inr (e, h) ↦ Change-same (ground (arith, h))
  | inl (built, h) ↦
      subst (Change (m ∷ []) s.memory) {x = (replace_metadata_file written m s).1.memory}
        (ground (arith, h, check_metadata_same p m built h))
        (replace_metadata_file-Change written m s)
]
