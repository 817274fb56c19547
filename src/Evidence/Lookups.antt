-- ===== src/Evidence/Lookups.antt =====
-- store.py and workspace.py: the records that an export lists are those that the store holds.
use night_recon.Prelude.{
  All, Bool-cases, Dict, List, Option, String, [], any, ap, arith, bool_Eq, false, get, get-not_key,
  get-put, if◌then◌else◌, inl, inr, insort, keys_of, list_Eq, map, nat_Eq, none, ok, option_Eq,
  pair_Eq, put, refl, select, some, sorted, str_leb, str_leb_total, string_Eq, true, unique, ◌==◌,
  ◌∙◌, ◌∷◌, ◌≡◌,
}
use night_recon.Evidence.Contracts.{
  EngagementEnvelope, EngagementMetadata, EvidenceRecord, check_envelope, metadata_Eq, record_Eq,
}
use night_recon.Evidence.Store.{
  EngagementStore, by_evidence_id, export_envelope, has_engagement, key_of, records, under,
}
use night_recon.Evidence.Views.{or_else}
use night_recon.Evidence.Workspace.{by_id, current_envelope}

abbrev pub IsFiled : (String × String) × EvidenceRecord → Type 0
IsFiled entry = entry.0 ≡ key_of entry.1

-- Records and metadata are filed under their own keys, and no key of a record twice.
pub record IsSound (s : EngagementStore) : Type 0 where
  pub filed : All IsFiled s.stored
  pub once : unique (keys_of s.stored) ≡ true
  pub own :
      (id : String) (m : EngagementMetadata) → get id s.metadata ≡ some m → m.engagement_id ≡ id

-- The last record of a list with an identifier.
abbrev pub last_with : String → List EvidenceRecord → Option EvidenceRecord
last_with id [] = none
last_with id (r ∷ rs) = elim (last_with id rs) [
  | some x ↦ some x
  | none ↦ if r.evidence_id == id then some r else none
]

get-by_id :
    (id : String) (rs : List EvidenceRecord) (d : Dict String EvidenceRecord)
    → get id (by_id rs d) ≡ or_else (last_with id rs) (get id d)
unfolding by_id
get-by_id id [] d = refl
get-by_id id (r ∷ rs) d =
    ground (arith, get-by_id id rs (put r.evidence_id r d), get-put r.evidence_id id r d)

str_leb_refl : (s : String) → str_leb s s ≡ true
str_leb_refl s = elim (Bool-cases (str_leb s s)) [ inl b ↦ b | inr b ↦ str_leb_total s s b ]

last_with-insort :
    (id : String) (r : EvidenceRecord) (rs : List EvidenceRecord)
    → last_with id (insort by_evidence_id r rs) ≡ last_with id (r ∷ rs)
unfolding insort by_evidence_id
last_with-insort id r [] = refl
last_with-insort id r (x ∷ rs) = ground (
  arith,
  last_with-insort id r rs,
  string_Eq.equal_iff r.evidence_id id,
  string_Eq.equal_iff x.evidence_id id,
  str_leb_refl id,
)

last_with-sorted :
    (id : String) (rs : List EvidenceRecord)
    → last_with id (sorted by_evidence_id rs) ≡ last_with id rs
unfolding sorted
last_with-sorted id [] = refl
last_with-sorted id (r ∷ rs) =
    ground (arith, last_with-insort id r (sorted by_evidence_id rs), last_with-sorted id rs)

last_with-stored :
    (engagement id : String) (d : Dict (String × String) EvidenceRecord)
    → All IsFiled d
    → unique (keys_of d) ≡ true
    → last_with id (
        map (λ (entry : (String × String) × EvidenceRecord). entry.1) (select (under engagement) d))
      ≡ get (engagement, id) d
unfolding select get unique
last_with-stored engagement id [] f u = refl
last_with-stored engagement id (((e, i), r) ∷ d) (f, fs) u =
    let own : i ≡ r.evidence_id = ap (λ (k : String × String). k.1) f in
    let rest = last_with-stored engagement id d fs (ground (arith, u)) in
    ground (
      arith,
      own,
      rest,
      u,
      string_Eq.equal_iff e engagement,
      string_Eq.equal_iff i id,
      get-not_key (engagement, id) d,
    )

-- The records of an engagement, looked up by identifier.
pub last_with-records :
    (engagement id : String) (s : EngagementStore)
    → IsSound s
    → last_with id (records engagement s) ≡ get (engagement, id) s.stored
unfolding records
last_with-records engagement id s i =
    last_with-sorted id (
      map (λ (entry : (String × String) × EvidenceRecord). entry.1)
        (select (under engagement) s.stored))
    ∙ last_with-stored engagement id s.stored i.filed i.once

nothing_under :
    (engagement id : String) (d : Dict (String × String) EvidenceRecord)
    → any (under engagement) d ≡ false
    → get (engagement, id) d ≡ none
unfolding any get
nothing_under engagement id [] h = refl
nothing_under engagement id (((e, i), r) ∷ d) h = ground (arith, h, nothing_under engagement id d)

-- What `merge_envelope` finds in the store, as it looks it up.
pub current_envelope-lookups :
    (engagement : String) (s : EngagementStore) (current : EngagementEnvelope)
    → IsSound s
    → current_envelope engagement s ≡ ok current
    → ((id : String) → get id (by_id current.records []) ≡ get (engagement, id) s.stored)
      × (current.metadata ≡ get engagement s.metadata)
unfolding current_envelope has_engagement export_envelope check_envelope get
current_envelope-lookups engagement s current i h =
    elim (Bool-cases (has_engagement engagement s)) [
      | inl b ↦
          let listed : current.records ≡ records engagement s = ground (arith, b, h) in
          (
            λ id.
                get-by_id id current.records []
                ∙ ground (arith, listed, last_with-records engagement id s i),
            ground (arith, b, h),
          )
      | inr b ↦ (
        λ id.
            get-by_id id current.records []
            ∙ ground (arith, b, h, nothing_under engagement id s.stored),
        ground (arith, b, h, get-not_key engagement s.metadata),
      )
    ]
