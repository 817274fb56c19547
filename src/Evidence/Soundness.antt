-- ===== src/Evidence/Soundness.antt =====
-- workspace.py: every store that the workspace builds files records and metadata under their keys.
use mathlib.Core.Path.{subst}
use night_recon.Prelude.{
  All, All-put, Bool, Bool-cases, Dict, List, Option-cases, String, [], arith, bool_Eq, eq_of_beq,
  get-put, inl, inr, keys_of, list_Eq, nat_Eq, ok, option_Eq, pair_Eq, put, refl, string_Eq, sym,
  true, unique, unique-put, ◌==◌, ◌∷◌, ◌≡◌,
}
use night_recon.Evidence.Contracts.{
  EngagementEnvelope, EngagementMetadata, EvidenceRecord, metadata_Eq, metadata_belongs, record_Eq,
}
use night_recon.Evidence.Store.{EngagementStore, append_envelope, key_of, put_records}
use night_recon.Evidence.Views.{append_envelope-ok}
use night_recon.Evidence.Files.{FileStore}
use night_recon.Evidence.Workspace.{Command, run, step}
use night_recon.Evidence.Lookups.{IsFiled, IsSound}
use night_recon.Evidence.Steps.{step-Change}
use night_recon.Evidence.Moves.{Change, added, created, moved, replaced, same}
use night_recon.Policy.{Platform}

put_records-IsFiled :
    (rs : List EvidenceRecord) (d : Dict (String × String) EvidenceRecord)
    → All IsFiled d
    → All IsFiled (put_records rs d)
unfolding put_records
put_records-IsFiled [] d a = a
put_records-IsFiled (r ∷ rs) d a =
    put_records-IsFiled rs (put (key_of r) r d) (All-put IsFiled (key_of r) r d a refl)

unique-put_records :
    (rs : List EvidenceRecord) (d : Dict (String × String) EvidenceRecord)
    → unique (keys_of d) ≡ true
    → unique (keys_of (put_records rs d)) ≡ true
unfolding put_records
unique-put_records [] d u = u
unique-put_records (r ∷ rs) d u =
    unique-put_records rs (put (key_of r) r d) (unique-put (key_of r) r d u)

put_metadata-IsSound :
    (n : EngagementMetadata) (s : EngagementStore)
    → IsSound s
    → IsSound (record s { metadata = put n.engagement_id n s.metadata })
put_metadata-IsSound n s i = record {
  filed = i.filed;
  once = i.once;
  own = λ id m f. elim (Bool-cases (n.engagement_id == id)) [
    | inl b ↦
        ground
          (arith, f, b, get-put n.engagement_id id n s.metadata, eq_of_beq n.engagement_id id b)
    | inr b ↦ i.own id m (ground (arith, f, b, get-put n.engagement_id id n s.metadata))
  ];
}

pub append_envelope-IsSound :
    (envelope : EngagementEnvelope) (s t : EngagementStore)
    → metadata_belongs envelope.engagement_id envelope.metadata ≡ true
    → append_envelope envelope s ≡ ok t
    → IsSound s
    → IsSound t
unfolding append_envelope metadata_belongs
append_envelope-IsSound envelope s t own h i =
    let (c, g) = append_envelope-ok envelope s t h in
    let stored : t.stored ≡ put_records envelope.records s.stored = ground (arith, h) in
    record {
      filed =
          subst (All IsFiled) (sym stored) (put_records-IsFiled envelope.records s.stored i.filed);
      once =
          subst (λ d. unique (keys_of d) ≡ true) (sym stored)
            (unique-put_records envelope.records s.stored i.once);
      own = λ id m f. elim (Option-cases envelope.metadata) [
        | inl n ↦ i.own id m (ground (arith, g.about id, f, n))
        | inr (x, n) ↦ elim (Bool-cases (envelope.engagement_id == id)) [
          | inl b ↦ ground (
            arith,
            g.about id,
            f,
            n,
            own,
            b,
            eq_of_beq envelope.engagement_id id b,
            string_Eq.equal_iff x.engagement_id envelope.engagement_id,
          )
          | inr b ↦ i.own id m (ground (arith, g.about id, f, n, b))
        ]
      ];
    }

-- A call keeps a store sound.
pub Change-IsSound :
    {given : List EngagementMetadata} (s t : EngagementStore)
    → Change given s t
    → IsSound s
    → IsSound t
Change-IsSound s t same i = i
Change-IsSound s t (added envelope own h) i = append_envelope-IsSound envelope s t own h i
Change-IsSound s t (created m missing eq) i = subst IsSound (sym eq) (put_metadata-IsSound m s i)
Change-IsSound s t (replaced m old found given_it eq) i =
    subst IsSound (sym eq) (put_metadata-IsSound m s i)
Change-IsSound s t (moved m id status found edge eq) i =
    subst IsSound (sym eq) (put_metadata-IsSound (record m { status = status }) s i)

-- Every store that a history of calls reaches from a sound one is sound, whatever the writes of the
-- file do.
pub run-IsSound :
    (p : Platform) (s : FileStore) (cs : List (Bool × Command))
    → IsSound s.memory
    → IsSound (run p s cs).memory
unfolding run
run-IsSound p s [] i = i
run-IsSound p s ((written, c) ∷ cs) i =
    run-IsSound p (step p written c s) cs
      (Change-IsSound s.memory (step p written c s).memory (step-Change p written c s) i)
