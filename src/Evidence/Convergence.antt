-- ===== src/Evidence/Convergence.antt =====
-- store.py: envelopes may arrive in any order.
use mathlib.Core.Path.{subst}
use night_recon.Prelude.{
  All, Bool-cases, List, Option-cases, String, [], ap, arith, bool_Eq, eq_of_beq, eq_refl, get, inl,
  inr, list_Eq, nat_Eq, ok, option_Eq, pair_Eq, some, string_Eq, ◌==◌, ◌∙◌, ◌∷◌, ◌≡◌,
}
use night_recon.Evidence.Equality.{json_Eq}
use night_recon.Evidence.Contracts.{
  EngagementEnvelope, EngagementMetadata, EvidenceRecord, metadata_Eq, record_Eq,
}
use night_recon.Evidence.Store.{EngagementStore, append_envelope, key_of}
use night_recon.Evidence.Views.{Agree, Compatible, append_envelope-ok, latest, union, view_of}

pub latest-found :
    (P : EvidenceRecord → Type 0) (k : String × String) (rs : List EvidenceRecord)
    (r : EvidenceRecord)
    → All P rs
    → latest k rs ≡ some r
    → P r × (key_of r ≡ k)
latest-found P k [] r a h = absurd (ground (arith, h))
latest-found P k (q ∷ rs) r a h = elim (Option-cases (latest k rs)) [
  | inr (x, n) ↦ latest-found P k rs r a.1 (ground (arith, h, n))
  | inl n ↦ elim (Bool-cases (key_of q == k)) [
    | inl b ↦
        (subst P (ground (arith, h, n, b)) a.0, ground (arith, h, n, b, eq_of_beq (key_of q) k b))
    | inr b ↦ absurd (ground (arith, h, n, b))
  ]
]

module _ (a b : EngagementEnvelope) (s t : EngagementStore) where
  -- What two envelopes that were both taken say under one key is the same.
  both_agree :
      Agree (view_of t) (union (view_of s) a)
      → Compatible (view_of t) b
      → (k : String × String) (x y : EvidenceRecord) → latest k a.records ≡ some x
      → latest k b.records ≡ some y
      → x ≡ y
  both_agree g c k x y f h =
      let (agree, own) =
        latest-found (λ r. (z : EvidenceRecord) → get (key_of r) t.stored ≡ some z → z ≡ r) k
          b.records y c.records_agree h in
      agree x (ap (λ j. get j t.stored) own ∙ g.evidence k ∙ ground (arith, f))

  both_metadata_agree :
      Agree (view_of t) (union (view_of s) a)
      → Compatible (view_of t) b
      → (x y : EngagementMetadata) → a.engagement_id ≡ b.engagement_id
      → a.metadata ≡ some x
      → b.metadata ≡ some y
      → x ≡ y
  both_metadata_agree g c x y i f h =
      c.metadata_agrees x y
        (g.about b.engagement_id ∙ ground (arith, f, i, eq_refl b.engagement_id)) h

-- Two envelopes that a store takes one after the other, in either order, leave stores with the same
-- view.
pub append_envelope_comm :
    (a b : EngagementEnvelope) (s t t' u u' : EngagementStore)
    → append_envelope a s ≡ ok t
    → append_envelope b t ≡ ok t'
    → append_envelope b s ≡ ok u
    → append_envelope a u ≡ ok u'
    → Agree (view_of t') (view_of u')
append_envelope_comm a b s t t' u u' h h' k k' =
    let (c, g) = append_envelope-ok a s t h in
    let (c', g') = append_envelope-ok b t t' h' in
    let (d, f) = append_envelope-ok b s u k in
    let (d', f') = append_envelope-ok a u u' k' in
    record {
      evidence = λ j. elim (Option-cases (latest j a.records)) [
        | inl m ↦ ground (arith, g.evidence j, g'.evidence j, f.evidence j, f'.evidence j, m)
        | inr (x, m) ↦ elim (Option-cases (latest j b.records)) [
          | inl n ↦ ground (arith, g.evidence j, g'.evidence j, f.evidence j, f'.evidence j, m, n)
          | inr (y, n) ↦
              ground (arith, g'.evidence j, f'.evidence j, m, n, both_agree a b s t g c' j x y m n)
        ]
      ];
      about = λ id. elim (Option-cases a.metadata) [
        | inl m ↦ ground (arith, g.about id, g'.about id, f.about id, f'.about id, m)
        | inr (x, m) ↦ elim (Option-cases b.metadata) [
          | inl n ↦ ground (arith, g.about id, g'.about id, f.about id, f'.about id, m, n)
          | inr (y, n) ↦ ground (
            arith,
            g.about id,
            g'.about id,
            f.about id,
            f'.about id,
            m,
            n,
            string_Eq.equal_iff a.engagement_id id,
            string_Eq.equal_iff b.engagement_id id,
            both_metadata_agree a b s t g c' x y,
          )
        ]
      ];
    }
