-- ===== src/Evidence/Exports.antt =====
-- store.py, `export_envelope`: a store that files its records under their keys exports any engagement.
use mathlib.Core.Path.{subst}
use night_recon.Prelude.{
  All, All-sorted, Bool-cases, Dict, List, Option-cases, String, [], all, ap, arith, bool_Eq,
  contains, eq_refl, false, get, inl, inr, insort, keys_of, list_Eq, map, nat_Eq, ok, option_Eq,
  pair_Eq, refl, select, sorted, string_Eq, strip, trimmed, true, unique, ◌==◌, ◌∙◌, ◌∷◌, ◌≡◌,
}
use night_recon.Evidence.Contracts.{
  EngagementEnvelope, EvidenceRecord, belongs, check_envelope, evidence_ids, metadata_Eq,
  metadata_belongs, record_Eq, required_text, schema_version,
}
use night_recon.Evidence.Store.{EngagementStore, by_evidence_id, export_envelope, records, under}
use night_recon.Evidence.Lookups.{IsFiled, IsSound}

abbrev listed : String → Dict (String × String) EvidenceRecord → List EvidenceRecord
listed e d = map (λ (entry : (String × String) × EvidenceRecord). entry.1) (select (under e) d)

contains-insort_ids :
    (id : String) (r : EvidenceRecord) (rs : List EvidenceRecord)
    → contains id (evidence_ids (insort by_evidence_id r rs)) ≡ contains id (evidence_ids (r ∷ rs))
unfolding insort contains
contains-insort_ids id r [] = refl
contains-insort_ids id r (x ∷ rs) = ground (arith, contains-insort_ids id r rs)

unique-insort_ids :
    (r : EvidenceRecord) (rs : List EvidenceRecord)
    → unique (evidence_ids (insort by_evidence_id r rs)) ≡ unique (evidence_ids (r ∷ rs))
unfolding insort unique contains
unique-insort_ids r [] = refl
unique-insort_ids r (x ∷ rs) = ground (
  arith,
  unique-insort_ids r rs,
  contains-insort_ids x.evidence_id r rs,
  string_Eq.equal_iff x.evidence_id r.evidence_id,
  string_Eq.equal_iff r.evidence_id x.evidence_id,
)

contains-sorted_ids :
    (id : String) (rs : List EvidenceRecord)
    → contains id (evidence_ids (sorted by_evidence_id rs)) ≡ contains id (evidence_ids rs)
unfolding sorted contains
contains-sorted_ids id [] = refl
contains-sorted_ids id (r ∷ rs) =
    ground (arith, contains-insort_ids id r (sorted by_evidence_id rs), contains-sorted_ids id rs)

unique-sorted_ids :
    (rs : List EvidenceRecord)
    → unique (evidence_ids (sorted by_evidence_id rs)) ≡ unique (evidence_ids rs)
unfolding sorted unique
unique-sorted_ids [] = refl
unique-sorted_ids (r ∷ rs) = ground (
  arith,
  unique-insort_ids r (sorted by_evidence_id rs),
  contains-sorted_ids r.evidence_id rs,
  unique-sorted_ids rs,
)

trimmed-strip : (s : String) → trimmed s ≡ true → (strip s == "") ≡ false
unfolding trimmed
trimmed-strip s h = ground (
  arith,
  h,
  string_Eq.equal_iff s (strip s),
  string_Eq.equal_iff s "",
  string_Eq.equal_iff (strip s) "",
)

module _ (e : String) where
  contains-listed :
      (id : String) (d : Dict (String × String) EvidenceRecord)
      → All IsFiled d
      → contains (e, id) (keys_of d) ≡ false
      → contains id (evidence_ids (listed e d)) ≡ false
  unfolding select contains
  contains-listed id [] a h = refl
  contains-listed id (((k, i), r) ∷ d) (own, a) h =
      let same : i ≡ r.evidence_id = ap (λ (x : String × String). x.1) own in
      ground (arith, h, same, contains-listed id d a)

  unique-listed :
      (d : Dict (String × String) EvidenceRecord)
      → All IsFiled d
      → unique (keys_of d) ≡ true
      → unique (evidence_ids (listed e d)) ≡ true
  unfolding select unique
  unique-listed [] a u = refl
  unique-listed (((k, i), r) ∷ d) (own, a) u =
      let same : i ≡ r.evidence_id = ap (λ (x : String × String). x.1) own in
      ground (arith, u, same, string_Eq.equal_iff k e, unique-listed d a, contains-listed i d a)

  listed-belongs :
      (d : Dict (String × String) EvidenceRecord)
      → All IsFiled d
      → All (λ r. belongs e r ≡ true) (listed e d)
  unfolding select
  listed-belongs [] a = tt
  listed-belongs (((k, i), r) ∷ d) (own, a) = elim (Bool-cases (k == e)) [
    | inl b ↦
        subst (All (λ q. belongs e q ≡ true)) {x = r ∷ listed e d} (ground (arith, b))
          (ground (arith, b, ap (λ (x : String × String). x.0) own), listed-belongs d a)
    | inr b ↦
        subst (All (λ q. belongs e q ≡ true)) {x = listed e d} (ground (arith, b))
          (listed-belongs d a)
  ]

  all_belong :
      (rs : List EvidenceRecord) → All (λ r. belongs e r ≡ true) rs → all (belongs e) rs ≡ true
  unfolding all
  all_belong [] a = refl
  all_belong (r ∷ rs) (h, a) = ground (arith, h, all_belong rs a)

  -- A sound store exports an engagement whose identifier is trimmed.
  pub export_envelope-returns :
      (s : EngagementStore)
      → IsSound s
      → required_text e ≡ ok tt
      → (envelope : EngagementEnvelope) × (export_envelope e s ≡ ok envelope)
  unfolding export_envelope check_envelope required_text records metadata_belongs
  export_envelope-returns s i h =
      let members : all (belongs e) (records e s) ≡ true = all_belong (records e s) (
        All-sorted by_evidence_id (λ r. belongs e r ≡ true) (listed e s.stored)
          (listed-belongs s.stored i.filed)) in
      let once : unique (evidence_ids (records e s)) ≡ true =
        unique-sorted_ids (listed e s.stored) ∙ unique-listed s.stored i.filed i.once in
      let about : metadata_belongs e (get e s.metadata) ≡ true =
        elim (Option-cases (get e s.metadata)) [
          | inl n ↦ ground (arith, n)
          | inr (m, n) ↦ ground (arith, n, i.own e m n, eq_refl e)
        ] in
      (
        record {
          engagement_id = e;
          records = records e s;
          metadata = get e s.metadata;
          schema_version = schema_version;
        },
        ground (arith, members, once, about, h, trimmed-strip e),
      )
