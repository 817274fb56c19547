-- ===== src/Evidence/Views.antt =====
-- store.py: what a store promises, without its representation, and `append_envelope` against it.
use night_recon.Prelude.{
  All, Dict, List, Option, Option-cases, Result-cases, String, [], ap, arith, bool_Eq, get, get-put,
  if◌then◌else◌, inl, inr, list_Eq, nat_Eq, none, ok, option_Eq, pair_Eq, put, refl, some,
  string_Eq, ◌==◌, ◌↔◌, ◌∙◌, ◌∷◌, ◌≡◌,
}
use night_recon.Evidence.Equality.{json_Eq}
use night_recon.Evidence.Contracts.{
  EngagementEnvelope, EngagementMetadata, EvidenceRecord, metadata_Eq, metadata_eq_iff, record_Eq,
  record_eq_iff,
}
use night_recon.Evidence.Store.{
  EngagementStore, append_envelope, check_records, conflicts, key_of, metadata_differs,
  put_metadata, put_records,
}

-- What a client can look up.
pub record View : Type 0 where
  pub evidence : String × String → Option EvidenceRecord
  pub about : String → Option EngagementMetadata

abbrev pub view_of : EngagementStore → View
view_of s = record { evidence = λ k. get k s.stored; about = λ id. get id s.metadata }

-- The record of an envelope under a key.
abbrev pub latest : String × String → List EvidenceRecord → Option EvidenceRecord
latest k [] = none
latest k (r ∷ rs) = elim (latest k rs) [
  | some x ↦ some x
  | none ↦ if key_of r == k then some r else none
]

abbrev pub or_else {ℓ} : {A : Type ℓ} → Option A → Option A → Option A
or_else none b = b
or_else (some a) b = some a

-- Nothing of the envelope contradicts what is known.
pub record Compatible (w : View) (envelope : EngagementEnvelope) : Type 0 where
  pub records_agree :
      All (λ r. (x : EvidenceRecord) → w.evidence (key_of r) ≡ some x → x ≡ r) envelope.records
  pub metadata_agrees :
      (x y : EngagementMetadata)
      → w.about envelope.engagement_id ≡ some x
      → envelope.metadata ≡ some y
      → x ≡ y

-- What is known, and the envelope.
abbrev pub union : View → EngagementEnvelope → View
union w envelope = record {
  evidence = λ k. or_else (latest k envelope.records) (w.evidence k);
  about =
      λ id. or_else (if envelope.engagement_id == id then envelope.metadata else none) (w.about id);
}

-- Two views with the same answers.
pub record Agree (v w : View) : Type 0 where
  pub evidence : (k : String × String) → v.evidence k ≡ w.evidence k
  pub about : (id : String) → v.about id ≡ w.about id

get-put_records :
    (rs : List EvidenceRecord) (d : Dict (String × String) EvidenceRecord) (k : String × String)
    → get k (put_records rs d) ≡ or_else (latest k rs) (get k d)
unfolding put_records
get-put_records [] d k = refl
get-put_records (r ∷ rs) d k =
    ground (arith, get-put_records rs (put (key_of r) r d) k, get-put (key_of r) k r d)

get-put_metadata :
    (envelope : EngagementEnvelope) (d : Dict String EngagementMetadata) (id : String)
    → get id (put_metadata envelope d)
      ≡ or_else (if envelope.engagement_id == id then envelope.metadata else none) (get id d)
unfolding put_metadata
get-put_metadata envelope d id = elim (Option-cases envelope.metadata) [
  | inl n ↦ ground (arith, n)
  | inr (m, n) ↦ ground (arith, n, get-put envelope.engagement_id id m d)
]

check_records-agree :
    (rs : List EvidenceRecord) (s : EngagementStore)
    → check_records rs s ≡ ok tt
    → All (λ r. (x : EvidenceRecord) → get (key_of r) s.stored ≡ some x → x ≡ r) rs
unfolding check_records conflicts
check_records-agree [] s h = tt
check_records-agree (r ∷ rs) s h =
    (λ x f. ground (arith, h, f, record_eq_iff x r), check_records-agree rs s (ground (arith, h)))

agree-check_records :
    (rs : List EvidenceRecord) (s : EngagementStore)
    → All (λ r. (x : EvidenceRecord) → get (key_of r) s.stored ≡ some x → x ≡ r) rs
    → check_records rs s ≡ ok tt
unfolding check_records conflicts
agree-check_records [] s h = refl
agree-check_records (r ∷ rs) s (h, hs) = elim (Option-cases (get (key_of r) s.stored)) [
  | inl n ↦ ground (arith, n, agree-check_records rs s hs)
  | inr (x, n) ↦ ground (arith, n, h x n, record_eq_iff x r, agree-check_records rs s hs)
]

pub append_envelope-ok :
    (envelope : EngagementEnvelope) (s t : EngagementStore)
    → append_envelope envelope s ≡ ok t
    → Compatible (view_of s) envelope × Agree (view_of t) (union (view_of s) envelope)
unfolding append_envelope metadata_differs
append_envelope-ok envelope s t h = elim (Result-cases (check_records envelope.records s)) [
  | inr (x, c) ↦ absurd (ground (arith, h, c))
  | inl (u, c) ↦
      let stored : t.stored ≡ put_records envelope.records s.stored = ground (arith, h, c) in
      let about : t.metadata ≡ put_metadata envelope s.metadata = ground (arith, h, c) in
      (
        record {
          records_agree = check_records-agree envelope.records s c;
          metadata_agrees = λ x y f g. ground (arith, h, c, f, g, metadata_eq_iff x y);
        },
        record {
          evidence = λ k. ap (get k) stored ∙ get-put_records envelope.records s.stored k;
          about = λ id. ap (get id) about ∙ get-put_metadata envelope s.metadata id;
        },
      )
]

pub append_envelope-returns :
    (envelope : EngagementEnvelope) (s : EngagementStore)
    → Compatible (view_of s) envelope
    → (t : EngagementStore) × (append_envelope envelope s ≡ ok t)
unfolding append_envelope metadata_differs
append_envelope-returns envelope s c =
    let checked = agree-check_records envelope.records s c.records_agree in
    (
      record {
        stored = put_records envelope.records s.stored;
        metadata = put_metadata envelope s.metadata;
      },
      elim (Option-cases (get envelope.engagement_id s.metadata)) [
        | inl n ↦ ground (arith, checked, n)
        | inr (x, n) ↦ elim (Option-cases envelope.metadata) [
          | inl m ↦ ground (arith, checked, n, m)
          | inr (y, m) ↦
              ground (arith, checked, n, m, c.metadata_agrees x y n m, metadata_eq_iff x y)
        ]
      ],
    )

-- `append_envelope` is union of views: it succeeds exactly if nothing of the envelope contradicts
-- the view of the store, and then the view of the new store has the envelope added and all else kept.
pub append_envelope_refines :
    (envelope : EngagementEnvelope) (s : EngagementStore)
    → (((t : EngagementStore) × (append_envelope envelope s ≡ ok t))
        ↔ Compatible (view_of s) envelope)
      × ((t : EngagementStore)
          → append_envelope envelope s ≡ ok t
          → Agree (view_of t) (union (view_of s) envelope))
append_envelope_refines envelope s = (
  ((λ (t, h). (append_envelope-ok envelope s t h).0), append_envelope-returns envelope s),
  λ t h. (append_envelope-ok envelope s t h).1,
)
