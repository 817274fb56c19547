-- ===== src/Audit/Reading.antt =====
-- audit_log.py: `from_dict` undoes `to_dict`.
use night_recon.Prelude.{
  All, List, Option, String, [], all, arith, bool_Eq, contains, eq_refl, list_Eq, nat_Eq, none, ok,
  option_Eq, pair_Eq, refl, some, string_Eq, subset, ◌++◌, ◌∷◌, ◌≡◌,
}
use night_recon.Json.{
  as_optional_text, detail_items, fields, has_keys, keys, lookup, optional_text, text,
}
use night_recon.Audit.Events.{AuditEvent, check_event, event_fields}
use night_recon.Audit.Trails.{AuditTrail, Services, event_fingerprint, trail_fingerprint}
use night_recon.Audit.Built.{IsBuilt}
use night_recon.Audit.Codec.{
  event_from_dict, event_items, event_keys, event_to_dict, read_details, read_events,
  trail_from_dict, trail_to_dict,
}

read_details-detail_items : (xs : List (String × String)) → read_details (detail_items xs) ≡ ok xs
unfolding read_details detail_items
read_details-detail_items [] = refl
read_details-detail_items ((k, w) ∷ xs) = ground (arith, read_details-detail_items xs)

as_optional_text-optional_text : (o : Option String) → as_optional_text (optional_text o) ≡ some o
unfolding optional_text
as_optional_text-optional_text none = refl
as_optional_text-optional_text (some s) = refl

module _ (v : Services) where
  event_fields_found :
      (e : AuditEvent)
      → has_keys event_keys (event_to_dict v e)
        ≡ some (fields (event_fields e ++ ("fingerprint", text (event_fingerprint v e)) ∷ []))
  unfolding has_keys event_keys event_to_dict event_fields fields keys subset contains all
  event_fields_found e = refl

  -- An event that its constructor returned is read back from what `to_dict` makes of it.
  event_from_dict-event_to_dict :
      (e : AuditEvent)
      → check_event v.platform e ≡ ok e
      → event_from_dict v (event_to_dict v e) ≡ ok e
  unfolding event_from_dict event_to_dict lookup
  event_from_dict-event_to_dict e h = ground (
    arith,
    h,
    read_details-detail_items e.details,
    as_optional_text-optional_text e.previous_event_fingerprint,
    event_fields_found e,
    string_Eq.equal_iff (event_fingerprint v e) (event_fingerprint v e),
  )

  read_events-event_items :
      (es : List AuditEvent)
      → All (λ e. check_event v.platform e ≡ ok e) es
      → read_events v (event_items v es) ≡ ok es
  unfolding read_events event_items
  read_events-event_items [] h = refl
  read_events-event_items (e ∷ es) (h, hs) =
      ground (arith, event_from_dict-event_to_dict e h, read_events-event_items es hs)

  -- A trail that a caller could build is read back from what `to_dict` makes of it.
  pub trail_from_dict-trail_to_dict :
      (t : AuditTrail) → IsBuilt v t → trail_from_dict v (trail_to_dict v t) ≡ ok t
  unfolding trail_from_dict trail_to_dict has_keys keys fields lookup subset contains all
  trail_from_dict-trail_to_dict t b =
      ground (
        arith,
        b.passes,
        read_events-event_items t.events b.checked,
        eq_refl (trail_fingerprint v t),
      )
