-- ===== src/Tests/Audits.antt =====
-- audit_log.py on a trail of two events.
use night_recon.Prelude.{
  String, [], all, any, bool_Eq, contains, false, get, if◌then◌else◌, inl, insort, has_part, length,
  list_Eq, lower, map, matches, nat_Eq, none, ok, option_Eq, pair_Eq, raise, refl, some, sorted,
  string_Eq, strip, trimmed, true, unique, ◌++◌, ◌==◌, ◌↔◌, ◌∷◌, ◌≡◌, ◌≤◌, ◌⊎◌,
}
use night_recon.Json.{Json, lookup, object, text}
use night_recon.Audit.Events.{
  AuditEvent, check_details, check_event, check_name, check_previous, check_sha256, event_payload,
  identifier, is_secret_key, iso8601, not_persisted, pair_leb, parse_time, required_text,
  secret_like,
}
use night_recon.Audit.Trails.{
  AuditTrail, EventArguments, Services, append, check_events, check_next, check_trail, create,
  event_fingerprint, fingerprint_of, in_order, last_event, trail_event,
}
use night_recon.Audit.Stores.{AuditStore, advances, create_trail, creates, load, run, store_payload}
use night_recon.Audit.Built.{IsBuilt}
use night_recon.Audit.Chains.{Collision, last_fingerprint-commits}
use night_recon.Audit.Appending.{append_iff, event_ids}
use night_recon.Audit.Reloading.{IsSound}
use night_recon.Audit.Guarantees.{Keeps, create_trail_again, load-run, run-Keeps_trail}
use night_recon.Approvals.Records.{is_identifier}
use night_recon.Policy.{replace_z}
use night_recon.Tests.Platforms.{known}

abbrev low_digest : String
low_digest = "0000000000000000000000000000000000000000000000000000000000000000"

abbrev high_digest : String
high_digest = "ffffffffffffffffffffffffffffffffffffffffffffffffffffffffffffffff"

-- a fingerprint that tells the payloads of the two events apart
known_fingerprint : Json → String
known_fingerprint (object fs) = elim (lookup "event_id" fs) [
  | some (text id) ↦ if id == "e-1" then low_digest else high_digest
  | _ ↦ low_digest
]
known_fingerprint j = low_digest

abbrev services : Services
services = record { platform = known; fingerprint = known_fingerprint }

abbrev opening : EventArguments
opening = record {
  event_id = "e-1";
  event_type = "trail.opened";
  occurred_at = "2026-01-01T00:00:00Z";
  actor_id = "lead";
  subject_type = "engagement";
  subject_id = "eng-1";
  outcome = "info";
  reason_code = "opened";
  summary = "The trail begins";
  details = ("scope", "10.0.0.0/8") ∷ ("phase", "one") ∷ [];
}

abbrev denial : EventArguments
denial = record opening {
  event_id = "e-2";
  event_type = "action.denied";
  occurred_at = "2026-02-01T00:00:00Z";
  outcome = "denied";
  details = [];
}

audit_code : Unit {0}
unfolding create append check_event check_trail check_events check_next trail_event last_event
    fingerprint_of in_order event_fingerprint event_payload known_fingerprint identifier
    required_text check_name check_sha256 check_previous check_details is_secret_key has_part
    pair_leb parse_time iso8601 is_identifier trimmed strip lower matches replace_z sorted insort
    any all contains unique lookup
audit_code = tt

abbrev first_event : AuditEvent
first_event = record (trail_event "trail-1" "eng-1" 0 none opening) {
  details = ("phase", "one") ∷ ("scope", "10.0.0.0/8") ∷ [];
}

abbrev second_event : AuditEvent
second_event = trail_event "trail-1" "eng-1" 1 (some low_digest) denial

abbrev trail : AuditTrail
trail = record {
  trail_id = "trail-1";
  engagement_id = "eng-1";
  events = first_event ∷ [];
  schema_version = 1;
}

abbrev longer : AuditTrail
longer = record trail { events = first_event ∷ second_event ∷ [] }

created : create services "trail-1" "eng-1" opening ≡ ok trail
unfolding audit_code
created = refl

appended : append services trail denial ≡ ok longer
unfolding audit_code
appended = refl

secret_refused :
    append services trail (record denial { details = ("api_key_id", "7") ∷ [] }) ≡ raise secret_like
unfolding audit_code
secret_refused = refl

trail_passes : check_trail services trail ≡ ok trail
unfolding audit_code
trail_passes = refl

longer_passes : check_trail services longer ≡ ok longer
unfolding audit_code
longer_passes = refl

first_checked : check_event known first_event ≡ ok first_event
unfolding audit_code
first_checked = refl

second_checked :
    check_event known (
      trail_event "trail-1" "eng-1"
        (length trail.events)
        (fingerprint_of services (last_event trail.events))
        denial)
    ≡ ok second_event
unfolding audit_code
second_checked = refl

first_is_last : last_event trail.events ≡ some first_event
unfolding last_event
first_is_last = refl

january_read : parse_time known first_event.occurred_at ≡ ok 1000
unfolding audit_code
january_read = refl

february_read : parse_time known denial.occurred_at ≡ ok 2000
unfolding audit_code
february_read = refl

append_iff_example :
    (append services trail denial
      ≡ ok (record trail { events = trail.events ++ second_event ∷ [] }))
    ↔ ((contains denial.event_id (event_ids trail.events) ≡ false) × (1000 ≤ 2000))
append_iff_example =
    append_iff services trail denial second_event first_event 1000 2000 trail_passes second_checked
      first_is_last january_read february_read

last_fingerprint-commits_example : (longer ≡ longer) ⊎ Collision services
last_fingerprint-commits_example =
    last_fingerprint-commits services longer longer longer_passes longer_passes refl

trail-IsBuilt : IsBuilt services trail
trail-IsBuilt = record { checked = (first_checked, tt); passes = trail_passes }

abbrev store : AuditStore
store = record {
  trails = ("trail-1", trail) ∷ [];
  file = some (store_payload services (("trail-1", trail) ∷ []));
}

trail_stored : get "trail-1" store.trails ≡ some trail
unfolding get
trail_stored = refl

run-Keeps_trail_example :
    Keeps "trail-1" trail
      (run services store ((false, advances longer) ∷ (true, creates trail) ∷ [])).trails
    ⊎ Collision services
run-Keeps_trail_example =
    run-Keeps_trail services store ((false, advances longer) ∷ (true, creates trail) ∷ []) "trail-1"
      trail trail_stored

store-IsSound : IsSound services store.trails
unfolding unique contains
store-IsSound = record { filed = ((refl, trail-IsBuilt), tt); once = refl }

load-run_example :
    (t : AuditStore) × (load services
        (run services store (map (λ c. (true, c)) (advances longer ∷ []))).file
      ≡ ok t)
    × ((id : String)
        → get id t.trails
          ≡ get id (run services store (map (λ c. (true, c)) (advances longer ∷ []))).trails)
load-run_example = load-run services store (advances longer ∷ []) store-IsSound (inl refl)

abbrev empty_store : AuditStore
empty_store = record { trails = []; file = none }

none_stored : get "trail-1" empty_store.trails ≡ none
unfolding get
none_stored = refl

create_trail_again_example :
    ((create_trail services false trail empty_store).0 ≡ raise not_persisted)
    × (create_trail services true trail (create_trail services false trail empty_store).1
        ≡ (ok tt, (create_trail services false trail empty_store).1))
    × ((create_trail services false trail empty_store).1.file ≡ empty_store.file)
create_trail_again_example = create_trail_again services trail empty_store none_stored
