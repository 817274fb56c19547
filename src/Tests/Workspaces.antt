-- ===== src/Tests/Workspaces.antt =====
-- store.py and workspace.py on one engagement and its evidence.
use night_recon.Prelude.{
  Bool, List, [], all, any, ap, arith, bool_Eq, contains, false, get, has_part, insort, is_space,
  list_Eq, lower, nat_Eq, none, ok, option_Eq, pair_Eq, put, raise, refl, select, some, sorted,
  string_Eq, strip, trimmed, true, unique, ◌↔◌, ◌∷◌, ◌≡◌, ◌⊎◌,
}
use night_recon.Evidence.Equality.{json_Eq, json_eq}
use night_recon.Evidence.Contracts.{
  EngagementEnvelope, EngagementMetadata, EvidenceRecord, check_envelope, check_metadata,
  check_record, each_text, evidence_conflict, has_secret, is_secret_key, iso8601, metadata_Eq,
  metadata_belongs, not_persisted, optional_text, record_Eq, required_text, secret_like,
}
use night_recon.Evidence.Store.{
  EngagementStore, append_envelope, by_evidence_id, check_records, conflicts, export_envelope,
  has_engagement, metadata_differs, put_metadata, put_records, records, replace_metadata,
  set_metadata,
}
use night_recon.Evidence.Views.{Agree, Compatible, append_envelope_refines, union, view_of}
use night_recon.Evidence.Convergence.{append_envelope_comm}
use night_recon.Evidence.Files.{
  FileStore, Outcome, after_append, append_envelope_file, envelope_eq, persist,
  replace_metadata_file, set_metadata_file, write_through,
}
use night_recon.Evidence.Workspace.{
  Command, MergeReport, applied_report, apply_merge, by_id, count_record, create_engagement,
  creates, current_envelope, distinct, envelope_of, is_refused, merge_envelope, merges, move_status,
  moves, nights_of, refused_report, replaces, run, step, summarized, summary, takes, tally,
  transitions, types_of, update_status,
}
use night_recon.Evidence.Lookups.{IsSound}
use night_recon.Evidence.Merging.{IsApplied, IsRefused, merge_envelope-IsApplied}
use night_recon.Evidence.Histories.{Keeps, replacements, run-Keeps_evidence}
use night_recon.Json.{closed, field, number, object, text}
use night_recon.Policy.{replace_z}
use night_recon.Evidence.Returning.{merge_envelope-returns}
use night_recon.Tests.Platforms.{known}

abbrev about : EngagementMetadata
about = record {
  engagement_id = "eng-1";
  name = "Assessment";
  created_at = "2026-01-01T00:00:00Z";
  authorization_reference = "contract-7";
  status = "planned";
  description = none;
  schema_version = 1;
}

abbrev open_port : EvidenceRecord
open_port = record {
  engagement_id = "eng-1";
  evidence_id = "ev-1";
  source_night = "red";
  evidence_type = "open-port";
  observed_at = "2026-02-01T00:00:00Z";
  provenance = "scan";
  payload = field "port" (number 443) closed;
  limitations = "one probe" ∷ [];
  schema_version = 1;
}

abbrev banner : EvidenceRecord
banner = record open_port { evidence_id = "ev-2"; evidence_type = "banner"; payload = closed }

abbrev from_red : EngagementEnvelope
from_red = record {
  engagement_id = "eng-1";
  records = banner ∷ open_port ∷ [];
  metadata = some about;
  schema_version = 1;
}

abbrev from_blue : EngagementEnvelope
from_blue = record from_red { records = open_port ∷ []; metadata = none }

-- another port under the identifier of `open_port`
abbrev contradiction : EngagementEnvelope
contradiction = record from_blue {
  records = record open_port { payload = field "port" (number 80) closed } ∷ [];
}

abbrev empty : EngagementStore
empty = record { stored = []; metadata = [] }

abbrev fresh : FileStore
fresh = record { memory = empty; saved = empty }

unfoldable pub workspace_code : Unit {0}
unfolding append_envelope check_records conflicts put_records put_metadata metadata_differs
    merge_envelope current_envelope has_engagement export_envelope check_envelope metadata_belongs
    check_metadata check_record optional_text each_text has_secret is_secret_key has_part
    required_text iso8601 replace_z is_refused tally count_record by_id apply_merge
    append_envelope_file after_append envelope_eq persist write_through applied_report
    refused_report distinct nights_of types_of json_eq by_evidence_id records select sorted insort
    is_space strip trimmed lower any all contains unique get put run step create_engagement
    update_status move_status envelope_of summarized summary set_metadata set_metadata_file
    replace_metadata replace_metadata_file transitions
workspace_code = tt

abbrev pub filled : EngagementStore
filled = record {
  stored = (("eng-1", "ev-2"), banner) ∷ (("eng-1", "ev-1"), open_port) ∷ [];
  metadata = ("eng-1", about) ∷ [];
}

abbrev only_port : EngagementStore
only_port = record { stored = (("eng-1", "ev-1"), open_port) ∷ []; metadata = [] }

abbrev port_first : EngagementStore
port_first = record {
  stored = (("eng-1", "ev-1"), open_port) ∷ (("eng-1", "ev-2"), banner) ∷ [];
  metadata = ("eng-1", about) ∷ [];
}

red_first : append_envelope from_red empty ≡ ok filled
unfolding workspace_code
red_first = refl

then_blue : append_envelope from_blue filled ≡ ok filled
unfolding workspace_code
then_blue = refl

blue_first : append_envelope from_blue empty ≡ ok only_port
unfolding workspace_code
blue_first = refl

then_red : append_envelope from_red only_port ≡ ok port_first
unfolding workspace_code
then_red = refl

contradiction_refused : append_envelope contradiction filled ≡ raise (evidence_conflict "ev-1")
unfolding workspace_code
contradiction_refused = refl

red_passes : check_envelope from_red ≡ ok from_red
unfolding workspace_code
red_passes = refl

about_passes : check_metadata known about ≡ ok about
unfolding workspace_code
about_passes = refl

port_passes : check_record known open_port ≡ ok open_port
unfolding workspace_code
port_passes = refl

secret_refused :
    check_record known (record open_port {
      payload = field "login" (object (field "User_Password" (text "x") closed)) closed;
    })
    ≡ raise secret_like
unfolding workspace_code
secret_refused = refl

abbrev merged : MergeReport
merged = record {
  engagement_id = "eng-1";
  applied = true;
  added_records = 2;
  identical_records = 0;
  evidence_conflicts = [];
  metadata_conflict = false;
  source_nights = "red" ∷ [];
}

red_merged :
    merge_envelope true from_red fresh ≡ (ok merged, record { memory = filled; saved = filled })
unfolding workspace_code
red_merged = refl

red_reported : (merge_envelope true from_red fresh).0 ≡ ok merged
red_reported = ap (λ (r : Outcome MergeReport). r.0) red_merged

contradiction_reported :
    merge_envelope true contradiction (record { memory = filled; saved = filled }) ≡ (
      ok (record merged { applied = false; added_records = 0; evidence_conflicts = "ev-1" ∷ [] }),
      record { memory = filled; saved = filled },
    )
unfolding workspace_code
contradiction_reported = refl

-- the failed write leaves the memory ahead of the file
red_not_saved :
    merge_envelope false from_red fresh
    ≡ (raise not_persisted, record { memory = filled; saved = empty })
unfolding workspace_code
red_not_saved = refl

-- the same merge again finds nothing new, and writes nothing
red_still_not_saved : merge_envelope true from_red (record { memory = filled; saved = empty }) ≡ (
  ok (record merged { added_records = 0; identical_records = 2 }),
  record { memory = filled; saved = empty },
)
unfolding workspace_code
red_still_not_saved = refl

abbrev pub active_about : EngagementMetadata
active_about = record about { status = "active" }

activated :
    (run known fresh (
      (true, creates about)
      ∷ (true, moves "eng-1" "completed")
      ∷ (true, moves "eng-1" "active")
      ∷ [])).memory.metadata
    ≡ ("eng-1", active_about) ∷ []
unfolding workspace_code
activated = refl

append_envelope_refines_example :
    (((t : EngagementStore) × (append_envelope contradiction filled ≡ ok t))
      ↔ Compatible (view_of filled) contradiction)
    × ((t : EngagementStore)
        → append_envelope contradiction filled ≡ ok t
        → Agree (view_of t) (union (view_of filled) contradiction))
append_envelope_refines_example = append_envelope_refines contradiction filled

append_envelope_comm_example : Agree (view_of filled) (view_of port_first)
append_envelope_comm_example =
    append_envelope_comm from_red from_blue empty filled filled only_port port_first red_first
      then_blue blue_first then_red

empty-IsSound : IsSound empty
unfolding get unique
empty-IsSound = record { filed = tt; once = refl; own = λ id m h. absurd (ground (arith, h)) }

merge_envelope-IsApplied_example :
    IsApplied from_red fresh (merge_envelope true from_red fresh).1 merged
    ⊎ IsRefused from_red fresh (merge_envelope true from_red fresh).1 merged
merge_envelope-IsApplied_example =
    merge_envelope-IsApplied true from_red fresh merged empty-IsSound red_passes red_reported

filled-IsSound : IsSound filled
unfolding get unique contains
filled-IsSound = record {
  filed = (refl, (refl, tt));
  once = refl;
  own = λ id m h. ground (arith, h, string_Eq.equal_iff "eng-1" id);
}

abbrev renamed : EngagementMetadata
renamed = record about { name = "Second assessment"; status = "archived" }

abbrev history : List (Bool × Command)
history =
    (false, merges contradiction)
    ∷ (true, moves "eng-1" "active")
    ∷ (true, takes from_blue)
    ∷ (true, replaces renamed)
    ∷ (true, moves "eng-1" "active")
    ∷ []

abbrev half_saved : FileStore
half_saved = record { memory = filled; saved = empty }

replaced_by_caller : (run known half_saved history).memory.metadata ≡ ("eng-1", renamed) ∷ []
unfolding workspace_code
replaced_by_caller = refl

run-Keeps_evidence_example :
    Keeps (replacements history) filled (run known half_saved history).memory
run-Keeps_evidence_example = run-Keeps_evidence known half_saved history filled-IsSound

merge_envelope-returns_example :
    (report : MergeReport) × ((merge_envelope true from_red fresh).0 ≡ ok report)
merge_envelope-returns_example = merge_envelope-returns from_red fresh empty-IsSound red_passes
