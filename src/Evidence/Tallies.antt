-- ===== src/Evidence/Tallies.antt =====
-- workspace.py, `merge_envelope`: what it counts, and that its tests are those of the store.
use night_recon.Prelude.{
  All, Dict, List, Option-cases, String, [], all, ap, arith, bool_Eq, eq_of_beq, false, get, inl,
  inr, length, length-append, list_Eq, nat_Eq, option_Eq, pair_Eq, refl, some, string_Eq, sym, true,
  ℕ, ◌+◌, ◌∙◌, ◌∷◌, ◌≡◌, ◌≤◌,
}
use night_recon.Evidence.Contracts.{
  EngagementEnvelope, EvidenceRecord, belongs, metadata_Eq, metadata_eq_iff, record_Eq,
  record_eq_iff,
}
use night_recon.Evidence.Store.{EngagementStore, key_of, metadata_differs}
use night_recon.Evidence.Views.{Compatible, view_of}
use night_recon.Evidence.Workspace.{Tally, by_id, count_record, is_refused, no_tally, tally}

-- the number of records that a tally has counted
abbrev pub total : Tally → ℕ
total t = t.added + t.identical + length t.conflicting

-- What a record is to the records at hand: unknown or the same.
abbrev Agrees : Dict String EvidenceRecord → EvidenceRecord → Type 0
Agrees existing r = (x : EvidenceRecord) → get r.evidence_id existing ≡ some x → x ≡ r

module _ (existing : Dict String EvidenceRecord) where
  count_record-total :
      (r : EvidenceRecord) (t : Tally) → total (count_record existing r t) ≡ total t + 1
  unfolding count_record
  count_record-total r t = elim (Option-cases (get r.evidence_id existing)) [
    | inl n ↦ ground (arith, n)
    | inr (x, n) ↦ ground (arith, n, length-append t.conflicting (r.evidence_id ∷ []))
  ]

  pub tally-total :
      (rs : List EvidenceRecord) (t : Tally) → total (tally existing rs t) ≡ total t + length rs
  unfolding tally
  tally-total [] t = omega arith
  tally-total (r ∷ rs) t =
      omega (arith, tally-total rs (count_record existing r t), count_record-total r t)

  -- No conflict is counted if every record agrees with what is at hand.
  Agrees-tally :
      (rs : List EvidenceRecord) (t : Tally)
      → All (Agrees existing) rs
      → length (tally existing rs t).conflicting ≡ length t.conflicting
  unfolding tally count_record
  Agrees-tally [] t a = refl
  Agrees-tally (r ∷ rs) t (a, as') = elim (Option-cases (get r.evidence_id existing)) [
    | inl n ↦ ground (arith, n, Agrees-tally rs (record t { added = t.added + 1 }) as')
    | inr (x, n) ↦ ground (
      arith,
      n,
      a x n,
      record_eq_iff x r,
      Agrees-tally rs (record t { identical = t.identical + 1 }) as',
    )
  ]

  count_record-le :
      (r : EvidenceRecord) (t : Tally)
      → length t.conflicting ≤ length (count_record existing r t).conflicting
  unfolding count_record
  count_record-le r t = elim (Option-cases (get r.evidence_id existing)) [
    | inl n ↦ ground (arith, n)
    | inr (x, n) ↦ ground (arith, n, length-append t.conflicting (r.evidence_id ∷ []))
  ]

  tally-le :
      (rs : List EvidenceRecord) (t : Tally)
      → length t.conflicting ≤ length (tally existing rs t).conflicting
  unfolding tally
  tally-le [] t = omega arith
  tally-le (r ∷ rs) t = omega (arith, tally-le rs (count_record existing r t), count_record-le r t)

  -- Every record agrees with what is at hand if no conflict is counted.
  tally-Agrees :
      (rs : List EvidenceRecord) (t : Tally)
      → length (tally existing rs t).conflicting ≡ 0
      → All (Agrees existing) rs
  unfolding tally count_record
  tally-Agrees [] t h = tt
  tally-Agrees (r ∷ rs) t h = (
    λ x f. ground (
      arith,
      f,
      h,
      record_eq_iff x r,
      tally-le rs (count_record existing r t),
      length-append t.conflicting (r.evidence_id ∷ []),
    ),
    tally-Agrees rs (count_record existing r t) h,
  )

-- The tests of `merge_envelope` on the records are those of the store.
module _ (engagement : String) (s : EngagementStore) (existing : Dict String EvidenceRecord)
    (found : (id : String) → get id existing ≡ get (engagement, id) s.stored) where
  own_key :
      (r : EvidenceRecord)
      → belongs engagement r ≡ true
      → get r.evidence_id existing ≡ get (key_of r) s.stored
  own_key r b =
      found r.evidence_id
      ∙ ap (λ e. get (e, r.evidence_id) s.stored) (sym (eq_of_beq r.engagement_id engagement b))

  agree_at_hand :
      (rs : List EvidenceRecord)
      → all (belongs engagement) rs ≡ true
      → All (λ r. (x : EvidenceRecord) → get (key_of r) s.stored ≡ some x → x ≡ r) rs
      → All (Agrees existing) rs
  unfolding all
  agree_at_hand [] b a = tt
  agree_at_hand (r ∷ rs) b (a, more) = (
    λ x f. a x (sym (own_key r (ground (arith, b))) ∙ f),
    agree_at_hand rs (ground (arith, b)) more,
  )

  agree_in_store :
      (rs : List EvidenceRecord)
      → all (belongs engagement) rs ≡ true
      → All (Agrees existing) rs
      → All (λ r. (x : EvidenceRecord) → get (key_of r) s.stored ≡ some x → x ≡ r) rs
  unfolding all
  agree_in_store [] b a = tt
  agree_in_store (r ∷ rs) b (a, more) =
      (λ x f. a x (own_key r (ground (arith, b)) ∙ f), agree_in_store rs (ground (arith, b)) more)

-- The test of `merge_envelope` on the whole envelope, where it looked up what is at hand.
module _ (envelope : EngagementEnvelope) (s : EngagementStore) (current : EngagementEnvelope)
    (found : (id : String)
      → get id (by_id current.records []) ≡ get (envelope.engagement_id, id) s.stored)
    (about : current.metadata ≡ get envelope.engagement_id s.metadata)
    (members : all (belongs envelope.engagement_id) envelope.records ≡ true) where
  pub is_refused-contradicts :
      is_refused
          (metadata_differs envelope current.metadata)
          (tally (by_id current.records []) envelope.records no_tally)
        ≡ true
      → ¬ Compatible (view_of s) envelope
  unfolding is_refused metadata_differs
  is_refused-contradicts b c =
      let existing = by_id current.records [] in
      let none_conflict = Agrees-tally existing envelope.records no_tally (
        agree_at_hand envelope.engagement_id s existing found envelope.records members
          c.records_agree) in
      elim (Option-cases current.metadata) [
        | inl m ↦ ground (arith, b, none_conflict, m)
        | inr (x, m) ↦ elim (Option-cases envelope.metadata) [
          | inl n ↦ ground (arith, b, none_conflict, m, n)
          | inr (y, n) ↦ ground (
            arith,
            b,
            none_conflict,
            m,
            n,
            metadata_eq_iff x y,
            c.metadata_agrees x y (sym about ∙ m) n,
          )
        ]
      ]

  pub accepted-Compatible :
      is_refused
          (metadata_differs envelope current.metadata)
          (tally (by_id current.records []) envelope.records no_tally)
        ≡ false
      → Compatible (view_of s) envelope
  unfolding is_refused metadata_differs
  accepted-Compatible b =
      let existing = by_id current.records [] in
      record {
        records_agree =
            agree_in_store envelope.engagement_id s existing found envelope.records members
              (tally-Agrees existing envelope.records no_tally (ground (arith, b)));
        metadata_agrees = λ x y f n. ground (arith, b, n, about, f, metadata_eq_iff x y);
      }
