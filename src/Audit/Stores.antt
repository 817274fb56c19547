-- ===== src/Audit/Stores.antt =====
-- audit_log.py: InMemoryAuditStore and FileAuditStore. Each call takes how its write went: `true`
-- when the file was replaced, `false` when an exception came before that.
use night_recon.Prelude.{
  Bool, Dict, List, Option, Result, String, [], bool_Eq, contains, get, if◌then◌else◌, length,
  list_Eq, map, nat_Eq, none, not, ok, option_Eq, or_raise, pair_Eq, put, raise, require, some,
  sorted, str_leb, string_Eq, take, ◌==◌, ◌>>=◌, ◌>>◌, ◌∷◌,
}
use night_recon.Json.{
  Items, Json, array, as_array, as_number, done, fields, has_keys, item, number, object,
}
use night_recon.Audit.Events.{
  AuditError, AuditEvent, bad_store, check_event, duplicate_trail, engagement_changed,
  not_an_extension, not_persisted, trail_exists, trail_missing,
}
use night_recon.Audit.Trails.{AuditTrail, Services, check_trail, event_fingerprint}
use night_recon.Audit.Codec.{read, trail_from_dict, trail_to_dict}
use night_recon.Audit.Equality.{event_Eq, trail_Eq}

-- The trails in memory, and the content of the file, if there is one.
pub record AuditStore : Type 0 where
  pub trails : Dict String AuditTrail
  pub file : Option Json

abbrev pub event_fingerprints : Services → AuditTrail → List String
event_fingerprints v trail = map (event_fingerprint v) trail.events

-- `InMemoryAuditStore.create`
unfoldable pub create_in :
    AuditTrail → Dict String AuditTrail → Result AuditError (Dict String AuditTrail)
create_in trail d = elim (get trail.trail_id d) [
  | none ↦ ok (put trail.trail_id trail d)
  | some existing ↦ if existing == trail then ok d else raise trail_exists
]

-- `InMemoryAuditStore.trails`
unfoldable pub trail_ids : Dict String AuditTrail → List String
trail_ids d = sorted str_leb (map (λ (x : String × AuditTrail). x.0) d)

module _ (v : Services) where
  -- `InMemoryAuditStore.advance`
  unfoldable pub advance_in :
      AuditTrail → Dict String AuditTrail → Result AuditError (Dict String AuditTrail)
  advance_in trail d = do
    previous ← or_raise (get trail.trail_id d) trail_missing
    require (previous.engagement_id == trail.engagement_id) engagement_changed
    let old = event_fingerprints v previous
    require (take (length old) (event_fingerprints v trail) == old) not_an_extension
    ok (put trail.trail_id trail d)

  unfoldable pub trail_items : List String → Dict String AuditTrail → Items
  trail_items [] d = done
  trail_items (id ∷ ids) d = elim (get id d) [
    | none ↦ trail_items ids d
    | some trail ↦ item (trail_to_dict v trail) (trail_items ids d)
  ]

  -- what `FileAuditStore._persist` writes
  unfoldable pub store_payload : Dict String AuditTrail → Json
  store_payload d =
      object (
        fields
          (("schema_version", number 1) ∷ ("trails", array (trail_items (trail_ids d) d)) ∷ []))

  -- the loop of `_load`
  unfoldable pub load_trails :
      List String → Items → Dict String AuditTrail → Result AuditError (Dict String AuditTrail)
  load_trails seen done d = ok d
  load_trails seen (item j rest) d = do
    trail ← trail_from_dict v j
    require (not (contains trail.trail_id seen)) duplicate_trail
    next ← create_in trail d
    load_trails (trail.trail_id ∷ seen) rest next

  unfoldable pub load_json : Json → Result AuditError (Dict String AuditTrail)
  unfolding read
  load_json payload = do
    fs ← or_raise (has_keys ("schema_version" ∷ "trails" ∷ []) payload) bad_store
    version ← read as_number "schema_version" fs
    require (version == 1) bad_store
    items ← read as_array "trails" fs
    load_trails [] items []

  -- `FileAuditStore._load`
  unfoldable pub load : Option Json → Result AuditError AuditStore
  load none = ok (record { trails = []; file = none })
  load (some payload) = do d ← load_json payload; ok (record { trails = d; file = some payload })

  -- `_persist`
  unfoldable pub persist : Bool → AuditStore → Result AuditError (Unit {0}) × AuditStore
  persist written s =
      if written
      then (ok tt, record s { file = some (store_payload s.trails) })
      else (raise not_persisted, s)

  -- After a change in memory, the file is written if the trail is not what it was.
  unfoldable pub write_through :
      Bool
      → AuditTrail
      → Result AuditError (Dict String AuditTrail)
      → AuditStore
      → Result AuditError (Unit {0}) × AuditStore
  write_through written trail (raise e) s = (raise e, s)
  write_through written trail (ok d) s =
      let t : AuditStore = record s { trails = d } in
      if get trail.trail_id s.trails == some trail then (ok tt, t) else persist written t

  unfoldable pub create_trail :
      Bool → AuditTrail → AuditStore → Result AuditError (Unit {0}) × AuditStore
  create_trail written trail s = write_through written trail (create_in trail s.trails) s

  unfoldable pub advance_trail :
      Bool → AuditTrail → AuditStore → Result AuditError (Unit {0}) × AuditStore
  advance_trail written trail s = write_through written trail (advance_in trail s.trails) s

  -- The trail that a caller builds, its events first.
  unfoldable pub check_all : List AuditEvent → Result AuditError (List AuditEvent)
  check_all [] = ok []
  check_all (e ∷ es) = do
    event ← check_event v.platform e
    events ← check_all es
    ok (event ∷ events)

  unfoldable pub build : AuditTrail → Result AuditError AuditTrail
  build trail = do events ← check_all trail.events; check_trail v (record trail { events = events })

-- What a caller may ask of the store.
pub data Command : Type 0 where
  creates advances : AuditTrail → Command

module _ (v : Services) where
  unfoldable pub step : Bool → Command → AuditStore → Result AuditError (Unit {0}) × AuditStore
  step written (creates trail) s = elim (build v trail) [
    | raise e ↦ (raise e, s)
    | ok built ↦ create_trail v written built s
  ]
  step written (advances trail) s = elim (build v trail) [
    | raise e ↦ (raise e, s)
    | ok built ↦ advance_trail v written built s
  ]

  unfoldable pub run : AuditStore → List (Bool × Command) → AuditStore
  run s [] = s
  run s ((written, c) ∷ cs) = run (step written c s).1 cs
