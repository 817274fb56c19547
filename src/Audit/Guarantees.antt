-- ===== src/Audit/Guarantees.antt =====
-- audit_log.py: what FileAuditStore guarantees over any history of calls.
use mathlib.Core.Path.{subst}
use mathlib.Core.Path.{subst}
use night_recon.Prelude.{
  All-put, Bool, Bool-cases, Dict, List, Option-cases, Result, Result-cases, String, [], ap, arith,
  bool_Eq, eq_of_beq, eq_refl, false, get, get-put, get-put_self, inl, inr, list_Eq, map, nat_Eq,
  none, ok, option_Eq, pair_Eq, put, put-same, raise, refl, some, string_Eq, sym, true, unique-put,
  ◌==◌, ◌∙◌, ◌∷◌, ◌≡◌, ◌⊎◌,
}
use night_recon.Audit.Events.{AuditError, not_persisted}
use night_recon.Audit.Trails.{AuditTrail, Services}
use night_recon.Audit.Stores.{
  AuditStore, Command, advance_in, advance_trail, advances, build, create_in, create_trail, creates,
  load, persist, run, step, store_payload, write_through,
}
use night_recon.Audit.Equality.{event_Eq, trail_Eq, trail_eq_iff}
use night_recon.Audit.Built.{IsBuilt}
use night_recon.Audit.Chains.{Collision}
use night_recon.Audit.Reloading.{IsFiled, IsSound, load_json-store_payload}
use night_recon.Audit.Histories.{
  Change, Extends, Extends-refl, Extends-trans, advanced, opened, prefix_of_fingerprints, same,
  step-Change,
}

-- What a store still has of a trail.
abbrev pub Keeps : String → AuditTrail → Dict String AuditTrail → Type 0
Keeps id old d = (new : AuditTrail) × (get id d ≡ some new) × Extends old new

module _ (v : Services) where
  put-IsSound :
      (t : AuditTrail) (d : Dict String AuditTrail)
      → IsBuilt v t
      → IsSound v d
      → IsSound v (put t.trail_id t d)
  put-IsSound t d b s = record {
    filed = All-put (IsFiled v) t.trail_id t d s.filed (refl, b);
    once = unique-put t.trail_id t d s.once;
  }

  Change-IsSound : {d r : Dict String AuditTrail} → Change v d r → IsSound v d → IsSound v r
  Change-IsSound same s = s
  Change-IsSound {d} (opened t b n) s = put-IsSound t d b s
  Change-IsSound {d} (advanced old t b f e p) s = put-IsSound t d b s

  Change-Keeps :
      {d r : Dict String AuditTrail} (id : String) (old : AuditTrail)
      → Change v d r
      → get id d ≡ some old
      → Keeps id old r ⊎ Collision v
  Change-Keeps id old same h = inl (old, h, Extends-refl old)
  Change-Keeps {d} id old (opened t b n) h = inl (
    old,
    ground (arith, h, n, get-put t.trail_id id t d, string_Eq.equal_iff t.trail_id id),
    Extends-refl old,
  )
  Change-Keeps {d} id old (advanced mid t b f e p) h = elim (Bool-cases (t.trail_id == id)) [
    | inr miss ↦ inl (old, ground (arith, h, miss, get-put t.trail_id id t d), Extends-refl old)
    | inl hit ↦
        let same_trail : mid ≡ old = ground (arith, f, h, eq_of_beq t.trail_id id hit) in
        elim (prefix_of_fingerprints v mid.events t.events p) [
          | inr clash ↦ inr clash
          | inl (rest, eq) ↦ inl (
            t,
            ground (arith, hit, get-put t.trail_id id t d),
            subst (λ u. Extends u t) same_trail
                (record { same_engagement = sym e; added = rest; events = eq }),
          )
        ]
  ]

  -- A trail that a store holds is still there after any history of calls, whatever their writes do,
  -- for the same engagement and with all its events in front, or the fingerprint maps two different
  -- payloads to one value.
  pub run-Keeps_trail :
      (s : AuditStore) (cs : List (Bool × Command)) (id : String) (old : AuditTrail)
      → get id s.trails ≡ some old
      → Keeps id old (run v s cs).trails ⊎ Collision v
  unfolding run
  run-Keeps_trail s [] id old h = inl (old, h, Extends-refl old)
  run-Keeps_trail s ((written, c) ∷ cs) id old h =
      elim (Change-Keeps id old (step-Change v written c s) h) [
        | inr clash ↦ inr clash
        | inl (mid, found, f) ↦ elim (run-Keeps_trail (step v written c s).1 cs id mid found) [
          | inr clash ↦ inr clash
          | inl (new, found', g) ↦ inl (new, found', Extends-trans old mid new f g)
        ]
      ]

  run-IsSound_trails :
      (s : AuditStore) (cs : List (Bool × Command))
      → IsSound v s.trails
      → IsSound v (run v s cs).trails
  unfolding run
  run-IsSound_trails s [] i = i
  run-IsSound_trails s ((written, c) ∷ cs) i =
      run-IsSound_trails (step v written c s).1 cs (Change-IsSound (step-Change v written c s) i)

  -- The file holds what the memory holds; no file is an empty memory.
  abbrev pub IsSaved : AuditStore → Type 0
  IsSaved s = (s.file ≡ some (store_payload v s.trails)) ⊎ ((s.file ≡ none) × (s.trails ≡ []))

  create_in-put :
      (t : AuditTrail) (d r : Dict String AuditTrail)
      → create_in t d ≡ ok r
      → r ≡ put t.trail_id t d
  unfolding create_in
  create_in-put t d r h = elim (Option-cases (get t.trail_id d)) [
    | inl n ↦ ground (arith, n, h)
    | inr (old, n) ↦ ground (arith, n, h, trail_eq_iff old t, put-same t.trail_id t d)
  ]

  advance_in-put :
      (t : AuditTrail) (d r : Dict String AuditTrail)
      → advance_in v t d ≡ ok r
      → r ≡ put t.trail_id t d
  unfolding advance_in
  advance_in-put t d r h = elim (Option-cases (get t.trail_id d)) [
    | inl n ↦ absurd (ground (arith, n, h))
    | inr (old, n) ↦ ground (arith, n, h)
  ]

  write_through-IsSaved :
      (t : AuditTrail) (r : Result AuditError (Dict String AuditTrail)) (s : AuditStore)
      → ((d : Dict String AuditTrail) → r ≡ ok d → d ≡ put t.trail_id t s.trails)
      → IsSaved s
      → IsSaved (write_through v true t r s).1
  unfolding write_through persist
  write_through-IsSaved t (raise e) s p i = i
  write_through-IsSaved t (ok d) s p i = elim (Bool-cases (get t.trail_id s.trails == some t)) [
    | inr b ↦ rw b (inl refl)
    | inl b ↦
        let here : get t.trail_id s.trails ≡ some t =
          eq_of_beq (get t.trail_id s.trails) (some t) b in
        let same : s.trails ≡ d = sym (p d refl ∙ put-same t.trail_id t s.trails here) in
        rw b (subst (λ e. IsSaved (record s { trails = e })) same i)
  ]

  step-IsSaved : (c : Command) (s : AuditStore) → IsSaved s → IsSaved (step v true c s).1
  unfolding step create_trail advance_trail
  step-IsSaved (creates trail) s i = elim (Result-cases (build v trail)) [
    | inr (e, h) ↦ subst IsSaved {x = s} (ground (arith, h)) i
    | inl (t, h) ↦
        subst IsSaved {x = (write_through v true t (create_in t s.trails) s).1} (ground (arith, h))
          (write_through-IsSaved t (create_in t s.trails) s (create_in-put t s.trails) i)
  ]
  step-IsSaved (advances trail) s i = elim (Result-cases (build v trail)) [
    | inr (e, h) ↦ subst IsSaved {x = s} (ground (arith, h)) i
    | inl (t, h) ↦
        subst IsSaved {x = (write_through v true t (advance_in v t s.trails) s).1}
          (ground (arith, h))
          (write_through-IsSaved t (advance_in v t s.trails) s (advance_in-put t s.trails) i)
  ]

  run-IsSaved :
      (s : AuditStore) (cs : List Command) → IsSaved s → IsSaved (run v s (map (λ c. (true, c)) cs))
  unfolding run
  run-IsSaved s [] i = i
  run-IsSaved s (c ∷ cs) i = run-IsSaved (step v true c s).1 cs (step-IsSaved c s i)

  -- From a sound store that agrees with its file, after any history of calls whose writes succeed, a
  -- store that is opened on the file has every trail of the memory, as it is there, and no other.
  pub load-run :
      (s : AuditStore) (cs : List Command)
      → IsSound v s.trails
      → IsSaved s
      → (t : AuditStore) × (load v (run v s (map (λ c. (true, c)) cs)).file ≡ ok t)
        × ((id : String) → get id t.trails ≡ get id (run v s (map (λ c. (true, c)) cs)).trails)
  unfolding load
  load-run s cs i f =
      let end_state : AuditStore = run v s (map (λ c. (true, c)) cs) in
      elim (run-IsSaved s cs f) [
        | inr (no_file, empty) ↦ (
          record { trails = []; file = none },
          ground (arith, no_file),
          λ id. ap (get id) (sym empty),
        )
        | inl saved ↦
            let (r, e, g) =
              load_json-store_payload v end_state.trails
                (run-IsSound_trails s (map (λ c. (true, c)) cs) i) in
            (
              record { trails = r; file = some (store_payload v end_state.trails) },
              ground (arith, saved, e),
              g,
            )
      ]

  -- After a `create` of a new trail whose write failed, the trail is in memory only, and the same
  -- `create` again reports success without writing the file.
  pub create_trail_again :
      (t : AuditTrail) (s : AuditStore)
      → get t.trail_id s.trails ≡ none
      → ((create_trail v false t s).0 ≡ raise not_persisted)
        × (create_trail v true t (create_trail v false t s).1
            ≡ (ok tt, (create_trail v false t s).1))
        × ((create_trail v false t s).1.file ≡ s.file)
  unfolding create_trail create_in write_through persist
  create_trail_again t s h =
      let found = get-put_self t.trail_id t s.trails in
      (
        ground (arith, h),
        ground (arith, h, found, eq_refl t, eq_refl t.trail_id),
        ground (arith, h),
      )
