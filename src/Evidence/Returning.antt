-- ===== src/Evidence/Returning.antt =====
-- workspace.py, `merge_envelope`: it answers with a report, unless the file cannot be written.
use night_recon.Prelude.{
  Bool-cases, String, [], all, arith, bool_Eq, inl, inr, list_Eq, nat_Eq, none, ok, option_Eq,
  pair_Eq, string_Eq, true, unique, ◌≡◌,
}
use night_recon.Evidence.Contracts.{
  EngagementEnvelope, belongs, check_envelope, metadata_Eq, metadata_belongs, record_Eq,
  required_text, schema_version,
}
use night_recon.Evidence.Store.{EngagementStore, has_engagement, metadata_differs}
use night_recon.Evidence.Views.{Compatible, append_envelope-returns, view_of}
use night_recon.Evidence.Files.{
  FileStore, after_append, append_envelope_file, persist, write_through,
}
use night_recon.Evidence.Workspace.{
  MergeReport, Tally, applied_report, apply_merge, by_id, current_envelope, is_refused,
  merge_envelope, no_tally, refused_report, tally,
}
use night_recon.Evidence.Lookups.{IsSound, current_envelope-lookups}
use night_recon.Evidence.Soundness.{append_envelope-IsSound}
use night_recon.Evidence.Exports.{export_envelope-returns}
use night_recon.Evidence.Tallies.{accepted-Compatible}

current_envelope-returns :
    (id : String) (s : EngagementStore)
    → IsSound s
    → required_text id ≡ ok tt
    → (current : EngagementEnvelope) × (current_envelope id s ≡ ok current)
unfolding current_envelope check_envelope metadata_belongs all unique
current_envelope-returns id s i h = elim (Bool-cases (has_engagement id s)) [
  | inl b ↦ let (e, x) = export_envelope-returns id s i h in (e, ground (arith, b, x))
  | inr b ↦ (
    record { engagement_id = id; records = []; metadata = none; schema_version = schema_version },
    ground (arith, b, h),
  )
]

module _ (envelope : EngagementEnvelope) (s : FileStore) (i : IsSound s.memory)
    (name : required_text envelope.engagement_id ≡ ok tt)
    (own : metadata_belongs envelope.engagement_id envelope.metadata ≡ true) where
  apply_merge-returns :
      (t : Tally)
      → Compatible (view_of s.memory) envelope
      → (report : MergeReport) × ((apply_merge true envelope t s).0 ≡ ok report)
  unfolding apply_merge append_envelope_file after_append write_through persist
  apply_merge-returns t c =
      let (before, a) = export_envelope-returns envelope.engagement_id s.memory i name in
      let (next, b) = append_envelope-returns envelope s.memory c in
      let (after, x) =
        export_envelope-returns envelope.engagement_id next
          (append_envelope-IsSound envelope s.memory next own b i) name in
      (applied_report envelope t after, ground (arith, a, b, x))

-- In a sound store whose file can be written, a merge of an envelope that passes its constructor
-- always answers with a report.
pub merge_envelope-returns :
    (envelope : EngagementEnvelope) (s : FileStore)
    → IsSound s.memory
    → check_envelope envelope ≡ ok envelope
    → (report : MergeReport) × ((merge_envelope true envelope s).0 ≡ ok report)
unfolding merge_envelope check_envelope
merge_envelope-returns envelope s i k =
    let name : required_text envelope.engagement_id ≡ ok tt = ground (arith, k) in
    let members : all (belongs envelope.engagement_id) envelope.records ≡ true =
      ground (arith, k) in
    let (current, a) = current_envelope-returns envelope.engagement_id s.memory i name in
    let (found, about) = current_envelope-lookups envelope.engagement_id s.memory current i a in
    let differs = metadata_differs envelope current.metadata in
    let t = tally (by_id current.records []) envelope.records no_tally in
    elim (Bool-cases (is_refused differs t)) [
      | inl b ↦ (refused_report current envelope t differs, ground (arith, a, b))
      | inr b ↦
          let (report, r) =
            apply_merge-returns envelope s i name (ground (arith, k)) t
              (accepted-Compatible envelope s.memory current found about members b) in
          (report, ground (arith, a, b, r))
    ]
