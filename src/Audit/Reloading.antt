-- ===== src/Audit/Reloading.antt =====
-- audit_log.py, FileAuditStore: what a store that is opened on the file finds.
use night_recon.Prelude.{
  All, All-get, All-sorted, Bool-cases, Dict, List, String, [], all, arith, bool_Eq, contains,
  contains-sorted, eq_refl, false, get, get-not_key, get-put, if◌then◌else◌, inl, inr, keys_of,
  list_Eq, nat_Eq, none, ok, option_Eq, pair_Eq, put, refl, some, sorted, str_leb, string_Eq,
  subset, true, unique, unique-sorted, ◌==◌, ◌∙◌, ◌∷◌, ◌≡◌,
}
use night_recon.Json.{fields, has_keys, keys, lookup}
use night_recon.Audit.Trails.{AuditTrail, Services}
use night_recon.Audit.Stores.{
  create_in, load_json, load_trails, store_payload, trail_ids, trail_items,
}
use night_recon.Audit.Equality.{event_Eq, trail_Eq}
use night_recon.Audit.Built.{IsBuilt}
use night_recon.Audit.Reading.{trail_from_dict-trail_to_dict}

-- Each trail is built and filed under its own identifier.
abbrev pub IsFiled : Services → String × AuditTrail → Type 0
IsFiled v (id, trail) = (trail.trail_id ≡ id) × IsBuilt v trail

-- The memory of a store: trails that are filed so, each identifier once.
pub record IsSound (v : Services) (d : Dict String AuditTrail) : Type 0 where
  pub filed : All (IsFiled v) d
  pub once : unique (keys_of d) ≡ true

contains-keys_of :
    (id : String) (d : Dict String AuditTrail)
    → contains id (keys_of d) ≡ true
    → (t : AuditTrail) × (get id d ≡ some t)
unfolding contains get
contains-keys_of id [] h = absurd (ground (arith, h))
contains-keys_of id ((k, t) ∷ d) h = elim (Bool-cases (k == id)) [
  | inl b ↦ (t, ground (arith, b))
  | inr b ↦ let (u, e) = contains-keys_of id d (ground (arith, b, h)) in (u, ground (arith, b, e))
]

stays_apart :
    (k : String) (t : AuditTrail) (seen ids : List String) (acc : Dict String AuditTrail)
    → contains k ids ≡ false
    → All (λ id. (contains id seen ≡ false) × (get id acc ≡ none)) ids
    → All (λ id. (contains id (k ∷ seen) ≡ false) × (get id (put k t acc) ≡ none)) ids
unfolding contains
stays_apart k t seen [] acc n c = tt
stays_apart k t seen (id ∷ ids) acc n (c, cs) = (
  (
    ground (arith, n, c.0, string_Eq.equal_iff k id, string_Eq.equal_iff id k),
    ground (arith, n, c.1, string_Eq.equal_iff k id, string_Eq.equal_iff id k, get-put k id t acc),
  ),
  stays_apart k t seen ids acc (ground (arith, n)) cs,
)

contained_in_more :
    (x : String) (xs ys : List String)
    → All (λ id. contains id ys ≡ true) xs
    → All (λ id. contains id (x ∷ ys) ≡ true) xs
unfolding contains
contained_in_more x [] ys h = tt
contained_in_more x (y ∷ xs) ys (h, hs) = (ground (arith, h), contained_in_more x xs ys hs)

contained_in : (xs : List String) → All (λ id. contains id xs ≡ true) xs
unfolding contains
contained_in [] = tt
contained_in (x ∷ xs) = (ground (arith, eq_refl x), contained_in_more x xs xs (contained_in xs))

nothing_yet :
    (ids : List String)
    → All (λ id. (contains id [] ≡ false) × (get {V = AuditTrail} id [] ≡ none)) ids
unfolding contains get
nothing_yet [] = tt
nothing_yet (id ∷ ids) = ((refl, refl), nothing_yet ids)

module _ (v : Services) where
  -- Reading the items back puts each trail under its identifier.
  load_trails-trail_items :
      (seen ids : List String) (d acc : Dict String AuditTrail)
      → All (IsFiled v) d
      → unique ids ≡ true
      → All (λ id. contains id (keys_of d) ≡ true) ids
      → All (λ id. (contains id seen ≡ false) × (get id acc ≡ none)) ids
      → (r : Dict String AuditTrail) × (load_trails v seen (trail_items v ids d) acc ≡ ok r)
        × ((id : String) → get id r ≡ (if contains id ids then get id d else get id acc))
  unfolding load_trails trail_items unique contains create_in
  load_trails-trail_items seen [] d acc f u n c = (acc, refl, λ id. refl)
  load_trails-trail_items seen (id ∷ ids) d acc f u (n, ns) (c, cs) =
      let (t, found) = contains-keys_of id d n in
      let (own, built) = All-get (IsFiled v) id t d f found in
      let (r, e, g) =
        load_trails-trail_items (t.trail_id ∷ seen) ids d (put t.trail_id t acc) f
          (ground (arith, u)) ns
          (stays_apart t.trail_id t seen ids acc (ground (arith, u, own)) cs) in
      (
        r,
        ground (arith, e, found, c.0, c.1, own, trail_from_dict-trail_to_dict v t built),
        λ j. ground (
          arith,
          g j,
          found,
          own,
          c.1,
          string_Eq.equal_iff t.trail_id j,
          string_Eq.equal_iff id j,
          get-put t.trail_id j t acc,
        ),
      )

  -- What `_persist` writes for a sound memory is loaded again, with each trail as it was.
  pub load_json-store_payload :
      (d : Dict String AuditTrail)
      → IsSound v d
      → (r : Dict String AuditTrail) × (load_json v (store_payload v d) ≡ ok r)
        × ((id : String) → get id r ≡ get id d)
  unfolding load_json store_payload trail_ids has_keys keys fields lookup subset contains all get
  load_json-store_payload d s =
      let ids : List String = sorted str_leb (keys_of d) in
      let (r, e, g) =
        load_trails-trail_items [] ids d [] s.filed (unique-sorted str_leb (keys_of d) ∙ s.once)
          (All-sorted str_leb (λ id. contains id (keys_of d) ≡ true) (keys_of d)
            (contained_in (keys_of d)))
          (nothing_yet ids) in
      (
        r,
        ground (arith, e),
        λ id. ground (arith, g id, contains-sorted str_leb id (keys_of d), get-not_key id d),
      )
