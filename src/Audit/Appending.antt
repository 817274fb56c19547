-- ===== src/Audit/Appending.antt =====
-- audit_log.py, `AuditTrail.append`: when it succeeds, and with what.
use night_recon.Prelude.{
  >>=-eq-ok, List, List-cases, Result-cases, String, [], arith, bool_Eq, contains, false, inl, inr,
  length, length-append, list_Eq, map, nat_Eq, ok, option_Eq, option_eq_iff, pair_Eq, refl, some,
  string_Eq, sym, ℕ, ◌++◌, ◌+◌, ◌>>=◌, ◌||◌, ◌↔◌, ◌∙◌, ◌∷◌, ◌≡◌, ◌≤◌,
}
use night_recon.Audit.Events.{AuditEvent, check_event, parse_time}
use night_recon.Audit.Built.{check_event-details, check_trail-Passed}
use night_recon.Audit.Trails.{
  AuditTrail, EventArguments, Progress, Services, append, check_events, check_next, check_trail,
  fingerprint_of, in_order, last_event, trail_event, no_progress,
}

abbrev pub event_ids : List AuditEvent → List String
event_ids es = map (λ (e : AuditEvent). e.event_id) es

module _ (v : Services) (id engagement : String) where
  check_events-append :
      (s : Progress) (xs ys : List AuditEvent)
      → check_events v id engagement s (xs ++ ys)
        ≡ (check_events v id engagement s xs >>= λ n. check_events v id engagement n ys)
  unfolding check_events
  check_events-append s [] ys = refl
  check_events-append s (x ∷ xs) ys = elim (Result-cases (check_next v id engagement s x)) [
    | inr (e, h) ↦ rw h refl
    | inl (n, h) ↦ rw h (check_events-append n xs ys)
  ]

  -- How far a walk over some events has come.
  record Walked (s : Progress) (es : List AuditEvent) (n : Progress) : Type 0 where
    index : n.index ≡ s.index + length es
    seen : (i : String) → contains i n.seen ≡ (contains i (event_ids es) || contains i s.seen)
    previous : (e : AuditEvent) → last_event es ≡ some e → n.previous ≡ some e
    time :
        (e : AuditEvent) (o : ℕ)
        → last_event es ≡ some e
        → parse_time v.platform e.occurred_at ≡ ok o
        → n.previous_time ≡ some o

  check_next-Walked :
      (s n : Progress) (e : AuditEvent)
      → check_next v id engagement s e ≡ ok n
      → Walked s (e ∷ []) n
  unfolding check_next contains last_event
  check_next-Walked s n e h = elim (Result-cases (parse_time v.platform e.occurred_at)) [
    | inr (x, t) ↦ absurd (ground (arith, h, t))
    | inl (o, t) ↦ record {
      index = ground (arith, h, t);
      seen = λ i. ground (arith, h, t);
      previous = λ f l. ground (arith, h, t, l);
      time = λ f o' l t'. ground (arith, h, t, l, t');
    }
  ]

  check_events-Walked :
      (s n : Progress) (es : List AuditEvent)
      → check_events v id engagement s es ≡ ok n
      → Walked s es n
  unfolding check_events contains last_event
  check_events-Walked s n [] h = record {
    index = ground (arith, h);
    seen = λ i. ground (arith, h);
    previous = λ e l. absurd (ground (arith, l));
    time = λ e o l t. absurd (ground (arith, l));
  }
  check_events-Walked s n (e ∷ es) h =
      let (m, one, rest) =
        >>=-eq-ok (check_next v id engagement s e) (λ next. check_events v id engagement next es)
          h in
      let a = check_next-Walked s m e one in
      let b = check_events-Walked m n es rest in
      record {
        index = omega (arith, a.index, b.index);
        seen = λ i. ground (arith, a.seen i, b.seen i);
        previous = λ f l. elim (List-cases es) [
          | inl none_left ↦ ground (arith, a.previous f, rest, none_left, l)
          | inr (g, gs, some_left) ↦ b.previous f (ground (arith, l, some_left))
        ];
        time = λ f o l t. elim (List-cases es) [
          | inl none_left ↦ ground (arith, a.time f o, rest, none_left, l, t)
          | inr (g, gs, some_left) ↦ b.time f o (ground (arith, l, some_left)) t
        ];
      }

  -- One more event of the right trail, number and fingerprint: what is left to be checked.
  record Fits (n : Progress) (e : AuditEvent) (before after : ℕ) : Type 0 where
    trail : e.trail_id ≡ id
    same_engagement : e.engagement_id ≡ engagement
    number : e.sequence ≡ n.index
    chain : e.previous_event_fingerprint ≡ fingerprint_of v n.previous
    time_before : n.previous_time ≡ some before
    time_after : parse_time v.platform e.occurred_at ≡ ok after

  check_next-Fits :
      (n m : Progress) (e : AuditEvent) (before after : ℕ)
      → Fits n e before after
      → check_next v id engagement n e ≡ ok m
      → (contains e.event_id n.seen ≡ false) × (before ≤ after)
  unfolding check_next in_order
  check_next-Fits n m e before after f h = ground (arith, h, f.time_before, f.time_after)

  check_next-returns :
      (n : Progress) (e : AuditEvent) (before after : ℕ)
      → Fits n e before after
      → contains e.event_id n.seen ≡ false
      → before ≤ after
      → (m : Progress) × (check_next v id engagement n e ≡ ok m)
  unfolding check_next in_order
  check_next-returns n e before after f new l = (
    record {
      index = n.index + 1;
      seen = e.event_id ∷ n.seen;
      previous = some e;
      previous_time = some after;
    },
    ground (
      arith,
      f.trail,
      f.same_engagement,
      f.number,
      f.chain,
      f.time_before,
      f.time_after,
      new,
      l,
      string_Eq.equal_iff e.trail_id id,
      string_Eq.equal_iff e.engagement_id engagement,
      option_eq_iff e.previous_event_fingerprint (fingerprint_of v n.previous),
    ),
  )

module _ (v : Services) where
  grown : AuditTrail → AuditEvent → AuditTrail
  grown trail e = record trail { events = trail.events ++ e ∷ [] }

  grown-passes :
      (t : AuditTrail) (e : AuditEvent) (n m : Progress)
      → check_trail v t ≡ ok t
      → check_events v t.trail_id t.engagement_id no_progress t.events ≡ ok n
      → check_next v t.trail_id t.engagement_id n e ≡ ok m
      → check_trail v (grown t e) ≡ ok (grown t e)
  unfolding check_trail grown check_events
  grown-passes t e n m h walk one = ground (
    arith,
    h,
    walk,
    one,
    length-append t.events (e ∷ []),
    check_events-append v t.trail_id t.engagement_id no_progress t.events (e ∷ []),
  )

  grown-inverse :
      (t u : AuditTrail) (e : AuditEvent) (n : Progress)
      → check_events v t.trail_id t.engagement_id no_progress t.events ≡ ok n
      → check_trail v (grown t e) ≡ ok u
      → (m : Progress) × (check_next v t.trail_id t.engagement_id n e ≡ ok m)
  unfolding check_trail grown check_events
  grown-inverse t u e n walk h = elim (Result-cases (check_next v t.trail_id t.engagement_id n e)) [
    | inl r ↦ r
    | inr (x, k) ↦ absurd (
        ground (
          arith,
          h,
          walk,
          k,
          check_events-append v t.trail_id t.engagement_id no_progress t.events (e ∷ []),
        ))
  ]

  -- Appending to a trail that passes its constructor an event that passes its own gives the trail
  -- with that event at its end exactly when the identifier of the event is new to the trail and the
  -- event is not earlier than the last one; the rest of the chain holds by construction.
  pub append_iff :
      (t : AuditTrail) (a : EventArguments) (e last : AuditEvent) (before after : ℕ)
      → check_trail v t ≡ ok t
      → check_event v.platform (
          trail_event t.trail_id t.engagement_id
            (length t.events)
            (fingerprint_of v (last_event t.events))
            a)
        ≡ ok e
      → last_event t.events ≡ some last
      → parse_time v.platform last.occurred_at ≡ ok before
      → parse_time v.platform a.occurred_at ≡ ok after
      → (append v t a ≡ ok (record t { events = t.events ++ e ∷ [] }))
        ↔ ((contains a.event_id (event_ids t.events) ≡ false) × (before ≤ after))
  unfolding append trail_event grown contains
  append_iff t a e last before after h k l tb ta =
      let p = check_trail-Passed v t t h in
      let w =
        check_events-Walked v t.trail_id t.engagement_id no_progress p.last t.events p.walked in
      let shape =
        check_event-details v.platform
          (trail_event t.trail_id t.engagement_id (length t.events)
            (fingerprint_of v (last_event t.events)) a)
          e k in
      let fits : Fits v t.trail_id t.engagement_id p.last e before after = record {
        trail = ground (arith, shape);
        same_engagement = ground (arith, shape);
        number = ground (arith, shape, w.index);
        chain = ground (arith, shape, l, w.previous last l);
        time_before = w.time last before l tb;
        time_after = ground (arith, shape, ta);
      } in
      let ids : e.event_id ≡ a.event_id = ground (arith, shape) in
      let seen = w.seen a.event_id in
      let whole : append v t a ≡ check_trail v (grown t e) = ground (arith, k, p.current) in
      (
        (λ r.
            let (m, one) = grown-inverse t (grown t e) e p.last p.walked (sym whole ∙ r) in
            let (new, order) =
              check_next-Fits v t.trail_id t.engagement_id p.last m e before after fits one in
            (ground (arith, new, ids, seen), order)),
        (λ (new, order).
            let (m, one) =
              check_next-returns v t.trail_id t.engagement_id p.last e before after fits
                (ground (arith, new, ids, seen)) order in
            whole ∙ grown-passes t e p.last m h p.walked one),
      )
