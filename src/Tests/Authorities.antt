-- ===== src/Tests/Authorities.antt =====
-- transactional_policy_authority.py on a concrete table.
use night_recon.Prelude.{List, [], false, ok, refl, select, true, ◌∷◌, ◌≡◌}
use night_recon.Policy.{Datetime, decide_as}
use night_recon.Ledger.Budget.{reserved_for}
use night_recon.Authority.{
  Action, Authority, Call, ReservedDecision, Row, reserve, reserves, revoke, revokes, run,
  set_status, sets_status, step, validate_reserved,
}
use night_recon.Authority.Accounting.{Account, run-Account}
use night_recon.Authority.Leases.{Reserves, reserve-Reserves, validate_reserved-reserve}
use night_recon.Tests.Platforms.{known}
use night_recon.Tests.Policies.{lab_policy, policy_code}

abbrev lab_row : Row
lab_row = record {
  policy = lab_policy;
  engagement_status = "active";
  actions_used = 1;
  revision = 1;
}

abbrev lab : Authority
lab = record { rows = ("eng-1", lab_row) ∷ []; reservations = []; migrations = [] }

abbrev scan_action : Action
scan_action = record {
  engagement_id = "eng-1";
  action_id = "scan-1";
  capability = "scan.tcp";
  target = "10.1.0.7";
  impact = "low";
  approval_present = false;
}

abbrev morning : Datetime
morning = record { instant = 4000; aware = true }

abbrev history : List Call
history =
    reserves scan_action morning
    ∷ sets_status "eng-1" "paused"
    ∷ reserves (record scan_action { action_id = "scan-2" }) morning
    ∷ revokes "eng-1"
    ∷ []

authority_code : Unit {0}
unfolding policy_code run step reserve validate_reserved revoke set_status
authority_code = tt

abbrev taken_place : ReservedDecision
taken_place = record { engagement_id = "eng-1"; action_id = "scan-1"; used = 2; remaining = 0 }

scan_taken : (reserve known scan_action morning lab).0 ≡ ok taken_place
unfolding authority_code decide_as
scan_taken = refl

run-Account_example : Account "eng-1" lab_row 0 (run known lab history)
unfolding policy_code reserved_for select
run-Account_example = run-Account known "eng-1" lab_row lab history refl

reserve-Reserves_example : Reserves known scan_action morning lab taken_place
reserve-Reserves_example = reserve-Reserves known scan_action morning lab taken_place scan_taken

validate_reserved-reserve_example :
    validate_reserved known scan_action morning (reserve known scan_action morning lab).1 ≡ ok tt
validate_reserved-reserve_example =
    validate_reserved-reserve known scan_action morning lab taken_place scan_taken
