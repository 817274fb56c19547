-- ===== src/Audit/Built.antt =====
-- audit_log.py: what holds of an event and of a trail that a constructor has let through.
use mathlib.Core.Path.{subst}
use night_recon.Prelude.{
  >>=-eq-ok, All, List, Result-cases, String, [], all, arith, false, inl, inr, length, ok,
  ok-injective, sorted, sorted_twice, str_leb_total, string_Eq, sym, true, ◌<◌, ◌>>=◌, ◌∷◌, ◌≡◌,
}
use night_recon.Audit.Events.{AuditEvent, check_event, pair_leb}
use night_recon.Audit.Trails.{
  AuditTrail, Progress, Services, check_events, check_trail, no_progress,
}
use night_recon.Audit.Stores.{build, check_all}
use night_recon.Policy.{Platform}

pair_leb_total : (a b : String × String) → pair_leb a b ≡ false → pair_leb b a ≡ true
unfolding pair_leb
pair_leb_total (a, b) (c, d) h =
    ground (
      arith,
      string_Eq.equal_iff a c,
      string_Eq.equal_iff c a,
      str_leb_total a c,
      str_leb_total b d,
    )

pub check_event-details :
    (p : Platform) (e f : AuditEvent)
    → check_event p e ≡ ok f
    → f ≡ record e { details = sorted pair_leb e.details }
unfolding check_event
check_event-details p e f h = ground (arith, h)

-- An event that its constructor returned passes the constructor again, unchanged.
pub check_event_twice :
    (p : Platform) (e f : AuditEvent) → check_event p e ≡ ok f → check_event p f ≡ ok f
unfolding check_event
check_event_twice p e f h =
    ground (arith, h, check_event-details p e f h, sorted_twice pair_leb pair_leb_total e.details)

-- A trail that its constructor returned, of events that theirs returned.
pub record IsBuilt (v : Services) (trail : AuditTrail) : Type 0 where
  pub checked : All (λ e. check_event v.platform e ≡ ok e) trail.events
  pub passes : check_trail v trail ≡ ok trail

check_all-checked :
    (v : Services) (es fs : List AuditEvent)
    → check_all v es ≡ ok fs
    → All (λ e. check_event v.platform e ≡ ok e) fs
unfolding check_all
check_all-checked v [] fs h = subst (All (λ e. check_event v.platform e ≡ ok e)) (ok-injective h) tt
check_all-checked v (e ∷ es) fs h =
    let (f, one, k) =
      >>=-eq-ok (check_event v.platform e)
        (λ event. check_all v es >>= λ events. ok (event ∷ events)) h in
    let (rest, all, last) = >>=-eq-ok (check_all v es) (λ events. ok (f ∷ events)) k in
    subst (All (λ e. check_event v.platform e ≡ ok e)) (ok-injective last)
      (check_event_twice v.platform e f one, check_all-checked v es rest all)

pub check_trail_same : (v : Services) (s t : AuditTrail) → check_trail v s ≡ ok t → t ≡ s
unfolding check_trail
check_trail_same v s t h =
    elim (Result-cases (check_events v s.trail_id s.engagement_id no_progress s.events)) [
      | inl (q, e) ↦ ground (arith, h, e)
      | inr (x, e) ↦ absurd (ground (arith, h, e))
    ]

-- Whatever trail a caller builds is built, in this sense.
pub build-IsBuilt : (v : Services) (s t : AuditTrail) → build v s ≡ ok t → IsBuilt v t
unfolding build
build-IsBuilt v s t h =
    let (es, e, k) =
      >>=-eq-ok (check_all v s.events) (λ events. check_trail v (record s { events = events })) h in
    let same : t ≡ record s { events = es } = check_trail_same v (record s { events = es }) t k in
    record {
      checked =
          subst (λ u. All (λ x. check_event v.platform x ≡ ok x) u.events) (sym same)
            (check_all-checked v s.events es e);
      passes = subst (λ u. check_trail v u ≡ ok t) (sym same) k;
    }

-- What a trail that passes its constructor has been found to have.
pub record Passed (v : Services) (trail : AuditTrail) : Type 0 where
  pub current : trail.schema_version ≡ 1
  pub some_events : 0 < length trail.events
  pub last : Progress
  pub walked : check_events v trail.trail_id trail.engagement_id no_progress trail.events ≡ ok last

pub check_trail-Passed : (v : Services) (t u : AuditTrail) → check_trail v t ≡ ok u → Passed v t
unfolding check_trail
check_trail-Passed v t u h =
    elim (Result-cases (check_events v t.trail_id t.engagement_id no_progress t.events)) [
      | inr (x, e) ↦ absurd (ground (arith, h, e))
      | inl (n, e) ↦ record {
        current = ground (arith, h);
        some_events = ground (arith, h);
        last = n;
        walked = e;
      }
    ]
