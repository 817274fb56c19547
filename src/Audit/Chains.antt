-- ===== src/Audit/Chains.antt =====
-- audit_log.py: the chain of fingerprints commits each event to all that came before it.
use night_recon.Prelude.{
  >>=-eq-ok, Bool-cases, List, List-cases, Option, Result-cases, String, [], ap, arith, bool_Eq,
  eq_of_beq, inl, inr, length, list_Eq, nat_Eq, none, ok, option_Eq, option_eq_iff, pair_Eq, refl,
  rev_onto, rev_onto_injective, some, string_Eq, sym, ◌<◌, ◌==◌, ◌∙◌, ◌∷◌, ◌≡◌, ◌≢◌, ◌⊎◌,
}
use night_recon.Json.{Json, detail_items, optional_text}
use night_recon.Audit.Events.{AuditEvent, event_payload, parse_time}
use night_recon.Audit.Trails.{
  AuditTrail, Progress, Services, check_events, check_next, check_trail, event_fingerprint,
  fingerprint_of, last_event, no_progress,
}
use night_recon.Audit.Built.{Passed, check_trail-Passed}
use night_recon.Audit.Equality.{event_Eq, event_eq_iff, trail_Eq}

-- Two different payloads with one fingerprint.
pub record Collision (v : Services) : Type 0 where
  pub first : Json
  pub second : Json
  pub differ : first ≢ second
  pub same_print : v.fingerprint first ≡ v.fingerprint second

detail_items_injective :
    (xs ys : List (String × String)) → detail_items xs ≡ detail_items ys → xs ≡ ys
unfolding detail_items
detail_items_injective [] [] h = refl
detail_items_injective [] ((k, w) ∷ ys) h = absurd (ground (arith, h))
detail_items_injective ((k, w) ∷ xs) [] h = absurd (ground (arith, h))
detail_items_injective ((k, w) ∷ xs) ((j, u) ∷ ys) h =
    ground (arith, h, detail_items_injective xs ys)

optional_text_injective : (a b : Option String) → optional_text a ≡ optional_text b → a ≡ b
unfolding optional_text
optional_text_injective none none h = refl
optional_text_injective none (some b) h = absurd (ground (arith, h))
optional_text_injective (some a) none h = absurd (ground (arith, h))
optional_text_injective (some a) (some b) h = ground (arith, h)

event_payload_injective : (a b : AuditEvent) → event_payload a ≡ event_payload b → a ≡ b
unfolding event_payload
event_payload_injective a b h = ground (
  arith,
  h,
  detail_items_injective a.details b.details,
  optional_text_injective a.previous_event_fingerprint b.previous_event_fingerprint,
)

module _ (v : Services) where
  -- Events with one fingerprint are one event, or their payloads collide.
  pub event_of_fingerprint :
      (a b : AuditEvent) → event_fingerprint v a ≡ event_fingerprint v b → (a ≡ b) ⊎ Collision v
  unfolding event_fingerprint
  event_of_fingerprint a b h = elim (Bool-cases (a == b)) [
    | inl same ↦ inl (eq_of_beq a b same)
    | inr other ↦ inr (record {
      first = event_payload a;
      second = event_payload b;
      differ = λ e. absurd (ground (arith, other, event_eq_iff a b, event_payload_injective a b e));
      same_print = h;
    })
  ]

  abbrev head_event : List AuditEvent → Option AuditEvent
  head_event [] = none
  head_event (e ∷ es) = some e

  -- The events, the newest first, each with the fingerprint of the one before it.
  abbrev Chained : List AuditEvent → Type 0
  Chained [] = Unit
  Chained (e ∷ es) = (e.previous_event_fingerprint ≡ fingerprint_of v (head_event es)) × Chained es

  check_next-eq-ok :
      (id engagement : String) (s n : Progress) (e : AuditEvent)
      → check_next v id engagement s e ≡ ok n
      → (e.previous_event_fingerprint ≡ fingerprint_of v s.previous) × (n.previous ≡ some e)
  unfolding check_next
  check_next-eq-ok id engagement s n e h =
      elim (Result-cases (parse_time v.platform e.occurred_at)) [
        | inr (x, t) ↦ absurd (ground (arith, h, t))
        | inl (o, t) ↦ (
          ground (
            arith,
            h,
            t,
            option_eq_iff e.previous_event_fingerprint (fingerprint_of v s.previous),
          ),
          ground (arith, h, t),
        )
      ]

  check_events-Chained :
      (id engagement : String) (s n : Progress) (es acc : List AuditEvent)
      → s.previous ≡ head_event acc
      → Chained acc
      → check_events v id engagement s es ≡ ok n
      → Chained (rev_onto es acc)
  unfolding check_events
  check_events-Chained id engagement s n [] acc p c h = c
  check_events-Chained id engagement s n (e ∷ es) acc p c h =
      let (m, one, rest) =
        >>=-eq-ok (check_next v id engagement s e) (λ next. check_events v id engagement next es)
          h in
      let (previous, now) = check_next-eq-ok id engagement s m e one in
      check_events-Chained id engagement m n es (e ∷ acc) now
        (previous ∙ ap (fingerprint_of v) p, c) rest

  Chained-commits :
      (xs ys : List AuditEvent)
      → Chained xs
      → Chained ys
      → fingerprint_of v (head_event xs) ≡ fingerprint_of v (head_event ys)
      → (xs ≡ ys) ⊎ Collision v
  unfolding fingerprint_of
  Chained-commits [] [] c d h = inl refl
  Chained-commits [] (y ∷ ys) c d h = absurd (ground (arith, h))
  Chained-commits (x ∷ xs) [] c d h = absurd (ground (arith, h))
  Chained-commits (x ∷ xs) (y ∷ ys) c d h = elim (event_of_fingerprint x y (ground (arith, h))) [
    | inr clash ↦ inr clash
    | inl same ↦
        elim (Chained-commits xs ys c.1 d.1
          (sym c.0 ∙ ap (λ (e : AuditEvent). e.previous_event_fingerprint) same ∙ d.0)) [
            | inr clash ↦ inr clash
            | inl rest ↦ inl (ground (arith, same, rest))
          ]
  ]

  head-rev_onto :
      (es acc : List AuditEvent) (e : AuditEvent)
      → last_event es ≡ some e
      → head_event (rev_onto es acc) ≡ some e
  unfolding last_event
  head-rev_onto [] acc e h = absurd (ground (arith, h))
  head-rev_onto (f ∷ []) acc e h = h
  head-rev_onto (f ∷ g ∷ es) acc e h = head-rev_onto (g ∷ es) (f ∷ acc) e h

  check_next-ids :
      (id engagement : String) (s n : Progress) (e : AuditEvent)
      → check_next v id engagement s e ≡ ok n
      → (e.trail_id ≡ id) × (e.engagement_id ≡ engagement)
  unfolding check_next
  check_next-ids id engagement s n e h =
      ground (
        arith,
        h,
        string_Eq.equal_iff e.trail_id id,
        string_Eq.equal_iff e.engagement_id engagement,
      )

  -- the identifiers of a trail, as its first event has them
  ids_of_events :
      (id engagement : String) (s n : Progress) (e : AuditEvent) (es : List AuditEvent)
      → check_events v id engagement s (e ∷ es) ≡ ok n
      → (e.trail_id ≡ id) × (e.engagement_id ≡ engagement)
  unfolding check_events
  ids_of_events id engagement s n e es h =
      let (m, one, rest) =
        >>=-eq-ok (check_next v id engagement s e) (λ next. check_events v id engagement next es)
          h in
      check_next-ids id engagement s m e one

  Passed-determined : (s t : AuditTrail) → Passed v s → Passed v t → s.events ≡ t.events → s ≡ t
  Passed-determined s t p q h = elim (List-cases s.events) [
    | inl none_left ↦ absurd (ground (arith, none_left, p.some_events))
    | inr (e, es, some_left) ↦
        let walk = λ (u : AuditTrail) (r : Passed v u) (k : u.events ≡ e ∷ es).
          ids_of_events u.trail_id u.engagement_id no_progress r.last e es (rw k at r.walked) in
        let (a, b) = walk s p some_left in
        let (c, d) = walk t q (sym h ∙ some_left) in
        ground (arith, h, a, b, c, d, p.current, q.current)
  ]

  Passed-Chained : (s : AuditTrail) → Passed v s → Chained (rev_onto s.events [])
  Passed-Chained s p =
      check_events-Chained s.trail_id s.engagement_id no_progress p.last s.events [] refl tt
        p.walked

  last-returns :
      (es : List AuditEvent) → 0 < length es → (e : AuditEvent) × (last_event es ≡ some e)
  unfolding last_event
  last-returns [] h = absurd (omega (arith, h))
  last-returns (e ∷ []) h = (e, refl)
  last-returns (e ∷ f ∷ es) h = last-returns (f ∷ es) (omega arith)

  -- Two trails that pass their constructor, and whose last events have the same fingerprint, are the
  -- same trail with the same events, or the fingerprint maps two different payloads to one value.
  pub last_fingerprint-commits :
      (s t : AuditTrail)
      → check_trail v s ≡ ok s
      → check_trail v t ≡ ok t
      → fingerprint_of v (last_event s.events) ≡ fingerprint_of v (last_event t.events)
      → (s ≡ t) ⊎ Collision v
  last_fingerprint-commits s t h k same =
      let p = check_trail-Passed v s s h in
      let q = check_trail-Passed v t t k in
      let (e, a) = last-returns s.events p.some_events in
      let (f, b) = last-returns t.events q.some_events in
      let heads : fingerprint_of v (head_event (rev_onto s.events []))
          ≡ fingerprint_of v (head_event (rev_onto t.events [])) =
        ap (fingerprint_of v) (head-rev_onto s.events [] e a ∙ sym a)
        ∙ same
        ∙ ap (fingerprint_of v) (b ∙ sym (head-rev_onto t.events [] f b)) in
      elim (Chained-commits (rev_onto s.events []) (rev_onto t.events []) (Passed-Chained s p)
        (Passed-Chained t q) heads) [
          | inl eq ↦ inl (Passed-determined s t p q (rev_onto_injective s.events t.events eq))
          | inr clash ↦ inr clash
        ]
