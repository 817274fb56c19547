-- ===== src/Evidence/Merging.antt =====
-- workspace.py, `merge_envelope`: when an envelope is applied, and what the report says.
use mathlib.Core.Path.{subst}
use night_recon.Prelude.{
  Bool, Bool-cases, Result-cases, [], all, ap, arith, false, inl, inr, length, ok, sym, true, ◌+◌,
  ◌∙◌, ◌≡◌, ◌⊎◌,
}
use night_recon.Evidence.Contracts.{EngagementEnvelope, belongs, check_envelope}
use night_recon.Evidence.Store.{append_envelope, export_envelope, metadata_differs}
use night_recon.Evidence.Views.{Agree, Compatible, append_envelope-ok, union, view_of}
use night_recon.Evidence.Files.{
  FileStore, Outcome, after_append, append_envelope_file, write_through,
}
use night_recon.Evidence.Workspace.{
  MergeReport, Tally, applied_report, apply_merge, by_id, current_envelope, is_refused,
  merge_envelope, no_tally, refused_report, tally,
}
use night_recon.Evidence.Tallies.{is_refused-contradicts, tally-total, total}
use night_recon.Evidence.Lookups.{IsSound, current_envelope-lookups}

append_envelope_file-ok :
    (written : Bool) (envelope : EngagementEnvelope) (s : FileStore)
    → (append_envelope_file written envelope s).0 ≡ ok tt
    → append_envelope envelope s.memory ≡ ok (append_envelope_file written envelope s).1.memory
unfolding append_envelope_file after_append write_through
append_envelope_file-ok written envelope s h =
    elim (Result-cases (export_envelope envelope.engagement_id s.memory)) [
      | inr (x, a) ↦ absurd (ground (arith, a, h))
      | inl (before, a) ↦ elim (Result-cases (append_envelope envelope s.memory)) [
        | inr (x, b) ↦ absurd (ground (arith, a, b, h))
        | inl (next, b) ↦ elim (Result-cases (export_envelope envelope.engagement_id next)) [
          | inr (x, c) ↦ absurd (ground (arith, a, b, c, h))
          | inl (after, c) ↦ ground (arith, a, b, c, h)
        ]
      ]
    ]

-- The envelope contradicted the store, which is as it was.
pub record IsRefused (envelope : EngagementEnvelope) (s t : FileStore) (report : MergeReport)
    : Type 0 where
  pub not_applied : report.applied ≡ false
  pub nothing_added : report.added_records ≡ 0
  pub contradicts : ¬ Compatible (view_of s.memory) envelope
  pub unchanged : t ≡ s

-- The envelope was added to what is known, and each of its records was counted.
pub record IsApplied (envelope : EngagementEnvelope) (s t : FileStore) (report : MergeReport)
    : Type 0 where
  pub was_applied : report.applied ≡ true
  pub compatible : Compatible (view_of s.memory) envelope
  pub counted : report.added_records + report.identical_records ≡ length envelope.records
  pub known : Agree (view_of t.memory) (union (view_of s.memory) envelope)

module _ (written : Bool) (envelope : EngagementEnvelope) (s : FileStore)
    (report : MergeReport) where
  apply_merge-IsApplied :
      (t : Tally)
      → length t.conflicting ≡ 0
      → total t ≡ length envelope.records
      → (apply_merge written envelope t s).0 ≡ ok report
      → IsApplied envelope s (apply_merge written envelope t s).1 report
  unfolding apply_merge applied_report
  apply_merge-IsApplied t c n h = elim (Result-cases (append_envelope_file written envelope s).0) [
    | inr (x, a) ↦ absurd (ground (arith, a, h))
    | inl (u, a) ↦
        let next = (append_envelope_file written envelope s).1 in
        elim (Result-cases (export_envelope envelope.engagement_id next.memory)) [
          | inr (x, b) ↦ absurd (ground (arith, a, b, h))
          | inl (merged, b) ↦
              let (fits, g) =
                append_envelope-ok envelope s.memory next.memory
                  (append_envelope_file-ok written envelope s a) in
              record {
                was_applied = ground (arith, a, b, h);
                compatible = fits;
                counted = ground (arith, a, b, h, c, n);
                known = g;
              }
        ]
  ]

  -- In a sound store, a merge of an envelope that passes its constructor is either refused, which
  -- happens exactly if the envelope contradicts what the store knows, and then leaves the store as it
  -- is, or applied: then the store knows what it knew and the envelope, and nothing else, and the
  -- report counts each record of the envelope once, as added or as identical.
  pub merge_envelope-IsApplied :
      IsSound s.memory
      → check_envelope envelope ≡ ok envelope
      → (merge_envelope written envelope s).0 ≡ ok report
      → IsApplied envelope s (merge_envelope written envelope s).1 report
        ⊎ IsRefused envelope s (merge_envelope written envelope s).1 report
  unfolding merge_envelope check_envelope is_refused metadata_differs refused_report
  merge_envelope-IsApplied i k h =
      elim (Result-cases (current_envelope envelope.engagement_id s.memory)) [
        | inr (x, a) ↦ absurd (ground (arith, a, h))
        | inl (current, a) ↦
            let (found, about) =
              current_envelope-lookups envelope.engagement_id s.memory current i a in
            let existing = by_id current.records [] in
            let t : Tally = tally existing envelope.records no_tally in
            let members : all (belongs envelope.engagement_id) envelope.records ≡ true =
              ground (arith, k) in
            elim (Bool-cases (is_refused (metadata_differs envelope current.metadata) t)) [
              | inl b ↦ inr (record {
                not_applied = ground (arith, a, b, h);
                nothing_added = ground (arith, a, b, h);
                contradicts =
                    is_refused-contradicts envelope s.memory current found about members b;
                unchanged = ground (arith, a, b, h);
              })
              | inr b ↦
                  let whole : merge_envelope written envelope s ≡ apply_merge written envelope t s =
                    ground (arith, a, b) in
                  inl (
                    subst (λ r. IsApplied envelope s r.1 report) (sym whole)
                      (apply_merge-IsApplied t (ground (arith, b))
                        (omega (arith, tally-total existing envelope.records no_tally))
                        (ap (λ (r : Outcome MergeReport). r.0) (sym whole) ∙ h)))
            ]
      ]
