-- ===== src/Audit/Histories.antt =====
-- audit_log.py: what holds of a store over any history of calls, whatever their writes do.
use mathlib.Core.Path.{subst}
use night_recon.Prelude.{
  Bool, Bool-cases, Dict, List, Option-cases, Result, Result-cases, String, [], ap, arith, bool_Eq,
  get, inl, inr, length, list_Eq, list_eq_iff, map, nat_Eq, none, ok, option_Eq, pair_Eq, put,
  raise, refl, some, string_Eq, sym, take, ◌++◌, ◌==◌, ◌∙◌, ◌∷◌, ◌≡◌, ◌⊎◌,
}
use night_recon.Audit.Events.{AuditError, AuditEvent}
use night_recon.Audit.Trails.{AuditTrail, Services, event_fingerprint}
use night_recon.Audit.Equality.{event_Eq, trail_Eq}
use night_recon.Audit.Stores.{
  AuditStore, Command, advance_in, advance_trail, advances, build, create_in, create_trail, creates,
  event_fingerprints, persist, step, write_through,
}
use night_recon.Audit.Built.{IsBuilt, build-IsBuilt}
use night_recon.Audit.Chains.{Collision, event_of_fingerprint}

-- A trail of the same engagement that begins with all events of an older one.
pub record Extends (old new : AuditTrail) : Type 0 where
  pub same_engagement : new.engagement_id ≡ old.engagement_id
  pub added : List AuditEvent
  pub events : new.events ≡ old.events ++ added

append_nil_right : (es : List AuditEvent) → es ≡ es ++ []
append_nil_right [] = refl
append_nil_right (e ∷ es) = ap (λ l. e ∷ l) (append_nil_right es)

append_three : (xs ys zs : List AuditEvent) → (xs ++ ys) ++ zs ≡ xs ++ (ys ++ zs)
append_three [] ys zs = refl
append_three (x ∷ xs) ys zs = ap (λ l. x ∷ l) (append_three xs ys zs)

pub Extends-refl : (t : AuditTrail) → Extends t t
Extends-refl t = record { same_engagement = refl; added = []; events = append_nil_right t.events }

pub Extends-trans : (a b c : AuditTrail) → Extends a b → Extends b c → Extends a c
Extends-trans a b c f g = record {
  same_engagement = g.same_engagement ∙ f.same_engagement;
  added = f.added ++ g.added;
  events = g.events ∙ ap (λ l. l ++ g.added) f.events ∙ append_three a.events f.added g.added;
}

module _ (v : Services) where
  -- The test of `advance` on the fingerprints is one on the events, unless payloads collide.
  pub prefix_of_fingerprints :
      (xs ys : List AuditEvent)
      → take (length (map (event_fingerprint v) xs)) (map (event_fingerprint v) ys)
        ≡ map (event_fingerprint v) xs
      → ((rest : List AuditEvent) × (ys ≡ xs ++ rest)) ⊎ Collision v
  prefix_of_fingerprints [] ys h = inl (ys, refl)
  prefix_of_fingerprints (x ∷ xs) [] h = absurd (ground (arith, h))
  prefix_of_fingerprints (x ∷ xs) (y ∷ ys) h =
      elim (event_of_fingerprint v y x (ground (arith, h))) [
        | inr clash ↦ inr clash
        | inl same ↦ elim (prefix_of_fingerprints xs ys (ground (arith, h))) [
          | inr clash ↦ inr clash
          | inl (rest, eq) ↦ inl (rest, ground (arith, same, eq))
        ]
      ]

  -- What a call does to the trails in memory.
  pub data Change (d : Dict String AuditTrail) : Dict String AuditTrail → Type 0 where
    same : Change d d
    opened :
        (t : AuditTrail) → IsBuilt v t → get t.trail_id d ≡ none → Change d (put t.trail_id t d)
    advanced :
        (old t : AuditTrail)
        → IsBuilt v t
        → get t.trail_id d ≡ some old
        → old.engagement_id ≡ t.engagement_id
        → take (length (event_fingerprints v old)) (event_fingerprints v t)
          ≡ event_fingerprints v old
        → Change d (put t.trail_id t d)

  create_in-Change :
      (t : AuditTrail) (d r : Dict String AuditTrail)
      → IsBuilt v t
      → create_in t d ≡ ok r
      → Change d r
  unfolding create_in
  create_in-Change t d r b h = elim (Option-cases (get t.trail_id d)) [
    | inl n ↦ subst (Change d) (ground (arith, n, h)) (opened t b n)
    | inr (old, n) ↦ elim (Bool-cases (old == t)) [
      | inl eq ↦ subst (Change d) (ground (arith, n, eq, h)) same
      | inr eq ↦ absurd (ground (arith, n, eq, h))
    ]
  ]

  advance_in-Change :
      (t : AuditTrail) (d r : Dict String AuditTrail)
      → IsBuilt v t
      → advance_in v t d ≡ ok r
      → Change d r
  unfolding advance_in
  advance_in-Change t d r b h = elim (Option-cases (get t.trail_id d)) [
    | inl n ↦ absurd (ground (arith, n, h))
    | inr (old, n) ↦
        let prints : List String = event_fingerprints v old in
        subst (Change d) (ground (arith, n, h)) (
          advanced old t b n
            (ground (arith, n, h, string_Eq.equal_iff old.engagement_id t.engagement_id))
            (ground
              (arith, n, h, list_eq_iff (take (length prints) (event_fingerprints v t)) prints)))
  ]

  write_through-trails :
      (written : Bool) (t : AuditTrail) (r : Result AuditError (Dict String AuditTrail))
      (s : AuditStore)
      → (d : Dict String AuditTrail) × ((write_through v written t r s).1.trails ≡ d)
        × (((r ≡ ok d)) ⊎ (d ≡ s.trails))
  unfolding write_through persist
  write_through-trails written t (raise e) s = (s.trails, refl, inr refl)
  write_through-trails written t (ok d) s = (d, ground arith, inl refl)

  pub step-Change :
      (written : Bool) (c : Command) (s : AuditStore)
      → Change s.trails (step v written c s).1.trails
  unfolding step create_trail advance_trail
  step-Change written (creates trail) s = elim (Result-cases (build v trail)) [
    | inr (e, h) ↦ subst (Change s.trails) (ground (arith, h)) same
    | inl (t, h) ↦
        let (d, e, o) = write_through-trails written t (create_in t s.trails) s in
        let whole : d ≡ (step v written (creates trail) s).1.trails = ground (arith, h, e) in
        subst (Change s.trails) whole (elim o [
          | inl r ↦ create_in-Change t s.trails d (build-IsBuilt v trail t h) r
          | inr r ↦ subst (Change s.trails) (sym r) same
        ])
  ]
  step-Change written (advances trail) s = elim (Result-cases (build v trail)) [
    | inr (e, h) ↦ subst (Change s.trails) (ground (arith, h)) same
    | inl (t, h) ↦
        let (d, e, o) = write_through-trails written t (advance_in v t s.trails) s in
        let whole : d ≡ (step v written (advances trail) s).1.trails = ground (arith, h, e) in
        subst (Change s.trails) whole (elim o [
          | inl r ↦ advance_in-Change t s.trails d (build-IsBuilt v trail t h) r
          | inr r ↦ subst (Change s.trails) (sym r) same
        ])
  ]
