-- ===== src/Evidence/Histories.antt =====
-- workspace.py: what any history of calls keeps, whatever the writes of the file do.
use mathlib.Core.Path.{subst}
use night_recon.Prelude.{
  Bool, Bool-cases, List, Option-cases, String, [], ap, arith, bool_Eq, contains, contains-append,
  eq_of_beq, get, get-put, inl, inr, list_Eq, nat_Eq, none, ok, option_Eq, pair_Eq, put, refl, some,
  string_Eq, sym, true, ◌++◌, ◌==◌, ◌∙◌, ◌∷◌, ◌≡◌,
}
use night_recon.Evidence.Contracts.{
  EngagementEnvelope, EngagementMetadata, EvidenceRecord, metadata_Eq, record_Eq,
}
use night_recon.Evidence.Store.{EngagementStore, append_envelope, key_of}
use night_recon.Evidence.Views.{append_envelope-ok, latest}
use night_recon.Evidence.Files.{FileStore}
use night_recon.Evidence.Workspace.{Command, run, step, transitions}
use night_recon.Evidence.Lookups.{IsSound}
use night_recon.Evidence.Steps.{replacement, step-Change}
use night_recon.Evidence.Moves.{Change, added, created, moved, replaced, same}
use night_recon.Evidence.Soundness.{Change-IsSound}
use night_recon.Evidence.Convergence.{latest-found}
use night_recon.Policy.{Platform}

-- What can become of the metadata of an engagement: its status moves along the table of transitions,
-- and nothing else of it changes, or it is set to metadata of the same engagement that was given.
pub data Course (given : List EngagementMetadata) (m : EngagementMetadata)
    : EngagementMetadata → Type 0 where
  stays : Course given m m
  goes :
      {n : EngagementMetadata} (status : String)
      → Course given m n
      → contains status (transitions n.status) ≡ true
      → Course given m (record n { status = status })
  is_set :
      {n : EngagementMetadata} (q : EngagementMetadata)
      → Course given m n
      → q.engagement_id ≡ n.engagement_id
      → contains q given ≡ true
      → Course given m q

-- All that was known of evidence is still known, and each engagement with what became of it.
pub record Keeps (given : List EngagementMetadata) (s t : EngagementStore) : Type 0 where
  pub evidence :
      (k : String × String) (r : EvidenceRecord) → get k s.stored ≡ some r → get k t.stored ≡ some r
  pub engagements :
      (id : String) (m : EngagementMetadata)
      → get id s.metadata ≡ some m
      → (n : EngagementMetadata) × ((get id t.metadata ≡ some n) × Course given m n)

-- The metadata that a history gives to `replace_metadata`.
abbrev pub replacements : List (Bool × Command) → List EngagementMetadata
replacements [] = []
replacements ((written, c) ∷ cs) = replacement c ++ replacements cs

module _ (given : List EngagementMetadata) where
  Course-trans :
      {a b c : EngagementMetadata} → Course given a b → Course given b c → Course given a c
  Course-trans f stays = f
  Course-trans f (goes status g edge) = goes status (Course-trans f g) edge
  Course-trans f (is_set q g same_id among) = is_set q (Course-trans f g) same_id among

  Keeps-refl : (s : EngagementStore) → Keeps given s s
  Keeps-refl s = record { evidence = λ k r h. h; engagements = λ id m h. (m, (h, stays)) }

  Keeps-trans : (a b c : EngagementStore) → Keeps given a b → Keeps given b c → Keeps given a c
  Keeps-trans a b c f g = record {
    evidence = λ k r h. g.evidence k r (f.evidence k r h);
    engagements = λ id m h.
        let (n, (found, first)) = f.engagements id m h in
        let (o, (found', then_on)) = g.engagements id n found in
        (o, (found', Course-trans first then_on));
  }

  module _ (more : List EngagementMetadata)
      (within : (q : EngagementMetadata) → contains q given ≡ true → contains q more ≡ true) where
    Course-more : {m n : EngagementMetadata} → Course given m n → Course more m n
    Course-more stays = stays
    Course-more (goes status f edge) = goes status (Course-more f) edge
    Course-more (is_set q f same_id among) = is_set q (Course-more f) same_id (within q among)

    Keeps-more : (s t : EngagementStore) → Keeps given s t → Keeps more s t
    Keeps-more s t f = record {
      evidence = f.evidence;
      engagements = λ id m h.
          let (n, (found, course)) = f.engagements id m h in (n, (found, Course-more course));
    }

append_envelope-Keeps :
    {given : List EngagementMetadata} (envelope : EngagementEnvelope) (s t : EngagementStore)
    → append_envelope envelope s ≡ ok t
    → Keeps given s t
append_envelope-Keeps envelope s t h =
    let (c, g) = append_envelope-ok envelope s t h in
    record {
      evidence = λ k r f. elim (Option-cases (latest k envelope.records)) [
        | inl n ↦ ground (arith, g.evidence k, f, n)
        | inr (x, n) ↦
            let (agree, own) =
              latest-found (λ q. (z : EvidenceRecord) → get (key_of q) s.stored ≡ some z → z ≡ q) k
                envelope.records x c.records_agree n in
            ground (arith, g.evidence k, n, agree r (ap (λ j. get j s.stored) own ∙ f))
      ];
      engagements = λ id m f. (
        m,
        (
          elim (Bool-cases (envelope.engagement_id == id)) [
            | inr b ↦ ground (arith, g.about id, f, b)
            | inl b ↦ elim (Option-cases envelope.metadata) [
              | inl n ↦ ground (arith, g.about id, f, b, n)
              | inr (y, n) ↦
                  let same_id : envelope.engagement_id ≡ id =
                    eq_of_beq envelope.engagement_id id b in
                  ground (
                    arith,
                    g.about id,
                    f,
                    b,
                    n,
                    c.metadata_agrees m y (ap (λ j. get j s.metadata) same_id ∙ f) n,
                  )
            ]
          ],
          stays,
        ),
      );
    }

created-Keeps :
    {given : List EngagementMetadata} (m : EngagementMetadata) (s : EngagementStore)
    → get m.engagement_id s.metadata ≡ none
    → Keeps given s (record s { metadata = put m.engagement_id m s.metadata })
created-Keeps m s missing = record {
  evidence = λ k r h. h;
  engagements = λ id n h. (
    n,
    (
      ground (
        arith,
        h,
        missing,
        get-put m.engagement_id id m s.metadata,
        string_Eq.equal_iff m.engagement_id id,
      ),
      stays,
    ),
  );
}

moved-Keeps :
    {given : List EngagementMetadata} (m : EngagementMetadata) (id status : String)
    (s : EngagementStore)
    → m.engagement_id ≡ id
    → get id s.metadata ≡ some m
    → contains status (transitions m.status) ≡ true
    → Keeps given s
        (record s { metadata = put m.engagement_id (record m { status = status }) s.metadata })
moved-Keeps {given} m id status s own found edge = record {
  evidence = λ k r h. h;
  engagements = λ j n h. elim (Bool-cases (m.engagement_id == j)) [
    | inr b ↦ (
      n,
      (
        ground (arith, h, b, get-put m.engagement_id j (record m { status = status }) s.metadata),
        stays,
      ),
    )
    | inl b ↦
        let same_metadata : m ≡ n = ground (arith, h, found, own, eq_of_beq m.engagement_id j b) in
        (
          record m { status = status },
          (
            ground (arith, b, get-put m.engagement_id j (record m { status = status }) s.metadata),
            subst (λ x. Course given x (record m { status = status })) same_metadata
                (goes status stays edge),
          ),
        )
  ];
}

replaced-Keeps :
    {given : List EngagementMetadata} (m : EngagementMetadata) (s : EngagementStore)
    → IsSound s
    → contains m given ≡ true
    → Keeps given s (record s { metadata = put m.engagement_id m s.metadata })
replaced-Keeps m s i among = record {
  evidence = λ k r h. h;
  engagements = λ id n h. elim (Bool-cases (m.engagement_id == id)) [
    | inr b ↦ (n, (ground (arith, h, b, get-put m.engagement_id id m s.metadata), stays))
    | inl b ↦ (
      m,
      (
        ground (arith, b, get-put m.engagement_id id m s.metadata),
        is_set m stays (eq_of_beq m.engagement_id id b ∙ sym (i.own id n h)) among,
      ),
    )
  ];
}

Change-Keeps :
    (given : List EngagementMetadata) (s t : EngagementStore)
    → IsSound s
    → Change given s t
    → Keeps given s t
Change-Keeps given s t i same = Keeps-refl given s
Change-Keeps given s t i (added envelope own h) = append_envelope-Keeps envelope s t h
Change-Keeps given s t i (created m missing eq) =
    subst (Keeps given s) (sym eq) (created-Keeps m s missing)
Change-Keeps given s t i (moved m id status found edge eq) =
    subst (Keeps given s) (sym eq) (moved-Keeps m id status s (i.own id m found) found edge)
Change-Keeps given s t i (replaced m old found among eq) =
    subst (Keeps given s) (sym eq) (replaced-Keeps m s i among)

-- From a sound store, no history of calls on the workspace and its store changes or loses a record of
-- evidence or loses an engagement, whatever the writes of the file do: each record is found as it
-- was, and each engagement with metadata that came from the earlier by moves of the status along the
-- table of transitions, and by `replace_metadata` where the history calls it for that engagement.
pub run-Keeps_evidence :
    (p : Platform) (s : FileStore) (cs : List (Bool × Command))
    → IsSound s.memory
    → Keeps (replacements cs) s.memory (run p s cs).memory
unfolding run
run-Keeps_evidence p s [] i = Keeps-refl [] s.memory
run-Keeps_evidence p s ((written, c) ∷ cs) i =
    let next = step p written c s in
    let change = step-Change p written c s in
    let all_given = replacement c ++ replacements cs in
    Keeps-trans all_given s.memory next.memory (run p next cs).memory
      (Keeps-more (replacement c) all_given
        (λ q h. ground (arith, h, contains-append q (replacement c) (replacements cs))) s.memory
        next.memory (Change-Keeps (replacement c) s.memory next.memory i change))
      (Keeps-more (replacements cs) all_given
        (λ q h. ground (arith, h, contains-append q (replacement c) (replacements cs))) next.memory
        (run p next cs).memory
        (run-Keeps_evidence p next cs (Change-IsSound s.memory next.memory change i)))

-- Without replacements, an archived engagement has no way on.
archived_stays :
    {given : List EngagementMetadata} {m n : EngagementMetadata}
    → given ≡ []
    → Course given m n
    → m.status ≡ "archived"
    → n ≡ m
unfolding contains transitions
archived_stays none_given stays h = refl
archived_stays {given} {m} none_given (goes {n} status f edge) h =
    let same_yet = archived_stays none_given f h in
    absurd (
      ground (
        arith,
        subst (λ q. contains status (transitions q) ≡ true)
            (ap (λ (x : EngagementMetadata). x.status) same_yet ∙ h) edge,
      ))
archived_stays none_given (is_set q f same_id among) h = absurd (ground (arith, among, none_given))

-- From a sound store, an engagement that is archived has the same metadata after any history of
-- calls that has no `replace_metadata`.
pub archived_for_good :
    (p : Platform) (s : FileStore) (cs : List (Bool × Command)) (m : EngagementMetadata)
    (id : String)
    → IsSound s.memory
    → replacements cs ≡ []
    → get id s.memory.metadata ≡ some m
    → m.status ≡ "archived"
    → get id (run p s cs).memory.metadata ≡ some m
archived_for_good p s cs m id i none_given found archived =
    let (n, (found', later)) = (run-Keeps_evidence p s cs i).engagements id m found in
    found' ∙ ap some (archived_stays none_given later archived)
