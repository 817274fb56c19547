-- ===== src/Evidence/Moves.antt =====
-- workspace.py: what each call does to the engagements and the evidence in memory.
use mathlib.Core.Path.{subst}
use night_recon.Prelude.{
  Bool, Bool-cases, List, Option-cases, Result, Result-cases, String, arith, bool_Eq, contains, get,
  get-not_key, inl, inr, list_Eq, nat_Eq, none, ok, option_Eq, pair_Eq, put, raise, refl, some,
  string_Eq, sym, true, ◌==◌, ◌∙◌, ◌≡◌,
}
use night_recon.Evidence.Contracts.{
  EngagementEnvelope, EngagementMetadata, EvidenceError, check_envelope, check_metadata, iso8601,
  metadata_Eq, metadata_belongs, record_Eq,
}
use night_recon.Evidence.Store.{
  EngagementStore, append_envelope, export_envelope, has_engagement, replace_metadata, set_metadata,
}
use night_recon.Evidence.Files.{
  FileStore, Outcome, replace_metadata_file, set_metadata_file, write_through,
}
use night_recon.Evidence.Workspace.{
  create_engagement, envelope_of, move_status, summarized, transitions, update_status,
}
use night_recon.Policy.{Platform}

-- The memory is as it was, or took an envelope, or learned of an engagement, or moved the status of
-- one along an edge of the table, or set the metadata of one to what the caller gave.
pub data Change (given : List EngagementMetadata) (s : EngagementStore)
    : EngagementStore → Type 0 where
  same : Change given s s
  added :
      (envelope : EngagementEnvelope) {t : EngagementStore}
      → metadata_belongs envelope.engagement_id envelope.metadata ≡ true
      → append_envelope envelope s ≡ ok t
      → Change given s t
  created :
      (m : EngagementMetadata) {t : EngagementStore}
      → get m.engagement_id s.metadata ≡ none
      → t ≡ record s { metadata = put m.engagement_id m s.metadata }
      → Change given s t
  moved :
      (m : EngagementMetadata) (id status : String) {t : EngagementStore}
      → get id s.metadata ≡ some m
      → contains status (transitions m.status) ≡ true
      → t ≡ record s { metadata = put m.engagement_id (record m { status = status }) s.metadata }
      → Change given s t
  replaced :
      (m old : EngagementMetadata) {t : EngagementStore}
      → get m.engagement_id s.metadata ≡ some old
      → contains m given ≡ true
      → t ≡ record s { metadata = put m.engagement_id m s.metadata }
      → Change given s t

pub Change-same :
    {given : List EngagementMetadata} {s t : EngagementStore} → s ≡ t → Change given s t
Change-same {given} {s} e = subst (Change given s) e same

pub write_through-memory :
    {given : List EngagementMetadata} (written unchanged : Bool)
    (r : Result EvidenceError EngagementStore) (s : FileStore)
    → ((next : EngagementStore) → r ≡ ok next → Change given s.memory next)
    → Change given s.memory (write_through written unchanged r s).1.memory
unfolding write_through
write_through-memory {given} written unchanged (raise e) s c = same
write_through-memory {given} written unchanged (ok next) s c =
    subst (Change given s.memory) {x = next} (ground arith) (c next refl)

summarized-memory : (id : String) (r : Outcome (Unit {0})) → (summarized id r).1.memory ≡ r.1.memory
unfolding summarized
summarized-memory id (raise e, s) = refl
summarized-memory id (ok u, s) = refl

pub create_engagement-Change :
    {given : List EngagementMetadata} (written : Bool) (m : EngagementMetadata) (s : FileStore)
    → Change given s.memory (create_engagement written m s).1.memory
unfolding create_engagement set_metadata_file set_metadata has_engagement
create_engagement-Change {given} written m s =
    elim (Bool-cases (has_engagement m.engagement_id s.memory)) [
      | inl b ↦ Change-same (ground (arith, b))
      | inr b ↦
          let missing : get m.engagement_id s.memory.metadata ≡ none =
            get-not_key m.engagement_id s.memory.metadata (ground (arith, b)) in
          let next : EngagementStore = record s.memory {
            metadata = put m.engagement_id m s.memory.metadata;
          } in
          subst (Change given s.memory) {x = (set_metadata_file written m s).1.memory}
            (ground (arith, b, summarized-memory m.engagement_id (set_metadata_file written m s)))
            (write_through-memory written (get m.engagement_id s.memory.metadata == some m)
              (set_metadata m s.memory) s (λ t e. created m missing (ground (arith, e, missing))))
    ]

pub check_metadata_same :
    (p : Platform) (m n : EngagementMetadata) → check_metadata p m ≡ ok n → n ≡ m
unfolding check_metadata
check_metadata_same p m n h = elim (Result-cases (iso8601 p m.created_at)) [
  | inr (x, e) ↦ absurd (ground (arith, h, e))
  | inl (u, e) ↦ ground (arith, h, e)
]

move_status-Change :
    {given : List EngagementMetadata} (p : Platform) (written : Bool) (m : EngagementMetadata)
    (id status : String) (s : FileStore)
    → get id s.memory.metadata ≡ some m
    → Change given s.memory (move_status p written m status s).1.memory
unfolding move_status replace_metadata_file replace_metadata
move_status-Change {given} p written m id status s f =
    elim (Bool-cases (contains status (transitions m.status))) [
      | inr b ↦ Change-same (ground (arith, b))
      | inl b ↦ elim (Result-cases (check_metadata p (record m { status = status }))) [
        | inr (e, c) ↦ Change-same (ground (arith, b, c))
        | inl (n, c) ↦
            let eq : n ≡ record m { status = status } =
              check_metadata_same p (record m { status = status }) n c in
            subst (Change given s.memory) {x = (replace_metadata_file written n s).1.memory}
              (ground (
                arith,
                b,
                c,
                summarized-memory m.engagement_id (replace_metadata_file written n s),
              ))
              (write_through-memory written (get n.engagement_id s.memory.metadata == some n)
                (replace_metadata n s.memory) s
                (λ t e. elim (Option-cases (get n.engagement_id s.memory.metadata)) [
                  | inl k ↦ absurd (ground (arith, e, k))
                  | inr (x, k) ↦ moved m id status f b (ground (arith, e, k, eq))
                ]))
      ]
    ]

pub envelope_of-metadata :
    (id : String) (s : EngagementStore) (envelope : EngagementEnvelope)
    → envelope_of id s ≡ ok envelope
    → envelope.metadata ≡ get id s.metadata
unfolding envelope_of export_envelope check_envelope
envelope_of-metadata id s envelope h = ground (arith, h)

pub update_status-Change :
    {given : List EngagementMetadata} (p : Platform) (written : Bool) (id status : String)
    (s : FileStore)
    → Change given s.memory (update_status p written id status s).1.memory
unfolding update_status
update_status-Change {given} p written id status s = elim (Result-cases (envelope_of id s.memory)) [
  | inr (e, a) ↦ Change-same (ground (arith, a))
  | inl (envelope, a) ↦ elim (Option-cases envelope.metadata) [
    | inl n ↦ Change-same (ground (arith, a, n))
    | inr (m, n) ↦ elim (Bool-cases (status == m.status)) [
      | inl b ↦ Change-same (ground (arith, a, n, b))
      | inr b ↦
          subst (Change given s.memory) {x = (move_status p written m status s).1.memory}
            (ground (arith, a, n, b))
            (move_status-Change p written m id status s
              (sym (envelope_of-metadata id s.memory envelope a) ∙ n))
    ]
  ]
]
