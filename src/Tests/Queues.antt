-- ===== src/Tests/Queues.antt =====
-- tools/task_automation/queue.py on one objective.
use night_recon.Prelude.{
  Bool-cases, List, String, [], any, arith, bool_Eq, eq_of_beq, false, get, if◌then◌else◌, inl, inr,
  insort, length, list_Eq, nat_Eq, none, ok, option_Eq, pair_Eq, raise, refl, some, string_Eq, sym,
  true, ◌+◌, ◌<◌, ◌==◌, ◌∷◌, ◌≡◌,
}
use night_recon.Automation.Checks.{check_text}
use night_recon.Automation.Runs.{admitted, pending, running}
use night_recon.Automation.Queue.Objectives.{
  Approval, Changes, Limits, Objective, QueueError, apply_changes, check_changes, has_queue_edge,
  is_final,
}
use night_recon.Automation.Queue.Leases.{Holder, admit_pending, claimed, holds, is_blocked, opening}
use night_recon.Automation.Queue.Tables.{
  Queue, Trust, check_entries, entries_of, entry_for, read, write,
}
use night_recon.Automation.Queue.Calls.{
  Call, claim, claims, enqueue, expire, expires, run, step, update,
}
use night_recon.Automation.Queue.Moves.{WellFiled}
use night_recon.Automation.Queue.Fencing.{Became, run-Became, update-fenced}
use night_recon.Automation.Queue.Reading.{Claims, claim-Claims, update-read}
use night_recon.Tests.Policies.{policy_code}

abbrev limits : Limits
limits = record {
  max_batches = 2;
  max_repairs_per_batch = 1;
  max_attempts = 3;
  max_wall_seconds = 600;
  max_tokens = 1000;
  max_cost_microusd = 1000;
}

abbrev approval : Approval
approval = record {
  objective_id = "issue-1-r1";
  owner = "owner";
  digest = "d";
  branch = "codex/task-1-r1-d";
  base_sha = "base";
  permitted_paths = "src/" ∷ [];
  acceptance_criteria = "tests pass" ∷ [];
  approved_at = 0;
  expires_at = 5000;
  limits = limits;
  release_authorized = false;
  release_tag = none;
  artifact_names = [];
  signing_key_ids = [];
}

abbrev trust : Trust
trust = record {
  verify = λ raw now. if raw == "signed" then some approval else none;
  canonical = λ r. "record";
  mac = λ id version event body previous. "mac";
}

queue_code : Unit {0}
unfolding policy_code enqueue claim update expire read write check_entries opening claimed insort
    any entry_for admit_pending is_blocked is_final holds run step check_text
queue_code = tt

abbrev empty_queue : Queue
empty_queue = record { approvals = []; objectives = []; events = [] }

abbrev first_record : Objective
first_record = record {
  approval = approval;
  parent_sha = "base";
  state = pending;
  version = 0;
  batch = 0;
  repairs = 0;
  attempts = 0;
  reserved_tokens = 0;
  reserved_cost_microusd = 0;
  started_at = 10;
  deadline = 610;
  lease_owner = none;
  lease_generation = 0;
  lease_until = 0;
  intent = none;
  commits = [];
  reason = none;
  plan = none;
  merge_sha = none;
  release_result = none;
}

abbrev second_record : Objective
second_record = record first_record {
  state = admitted;
  version = 1;
  lease_owner = some "worker-a";
  lease_generation = 1;
  lease_until = 80;
}

abbrev queued : Queue
queued = (claim trust "issue-1-r1" "worker-a" 20 60 (enqueue trust "signed" 10 empty_queue).1).1

claim_taken : get "issue-1-r1" queued.objectives ≡ some (second_record, "mac")
unfolding queue_code
claim_taken = refl

objectives_listed : queued.objectives ≡ ("issue-1-r1", (second_record, "mac")) ∷ []
unfolding queue_code
objectives_listed = refl

approvals_listed : queued.approvals ≡ ("issue-1-r1", ("d", "signed")) ∷ []
unfolding queue_code
approvals_listed = refl

listed-WellFiled :
    (id : String) (r : Objective) (m : String)
    → get {V = Objective × String} id (("issue-1-r1", (second_record, "mac")) ∷ []) ≡ some (r, m)
    → (r.approval.objective_id ≡ id)
      × ((a : String × String) × (get {V = String × String} id
              (("issue-1-r1", ("d", "signed")) ∷ [])
            ≡ some a))
unfolding get
listed-WellFiled id r m f = elim (Bool-cases ("issue-1-r1" == id)) [
  | inl hit ↦ (
    ground (arith, f, hit, eq_of_beq "issue-1-r1" id hit),
    (("d", "signed"), ground (arith, hit)),
  )
  | inr miss ↦ absurd (ground (arith, f, miss))
]

queued-WellFiled : WellFiled queued
unfolding WellFiled
queued-WellFiled id r m f =
    rw approvals_listed (listed-WellFiled id r m (rw (sym objectives_listed) f))

abbrev calls : List Call
calls = expires "issue-1-r1" 100 ∷ claims "issue-1-r1" "worker-b" 100 60 ∷ []

abbrev old_holder : Holder
old_holder = record { worker = "worker-a"; generation = 0; version = 1 }

abbrev nothing : Changes
nothing = record {
  state = none;
  parent_sha = none;
  batch = none;
  repairs = none;
  attempts = none;
  reserved_tokens = none;
  reserved_cost_microusd = none;
  intent = none;
  commits = none;
  reason = none;
  lease_until = none;
  plan = none;
  merge_sha = none;
  release_result = none;
}

run-Became_example : Became "issue-1-r1" second_record (run trust queued calls)
run-Became_example =
    run-Became trust "issue-1-r1" second_record "mac" queued calls queued-WellFiled claim_taken

update-fenced_example :
    (e : QueueError) × ((update trust "issue-1-r1" old_holder 120 "note" nothing
        (run trust queued calls)).0
      ≡ raise e)
update-fenced_example =
    update-fenced trust "issue-1-r1" old_holder 120 "note" nothing second_record "mac" queued calls
      queued-WellFiled claim_taken (inl (omega arith))

abbrev third_record : Objective
third_record = claimed "worker-b" 100 60 second_record

claim_by_second : (claim trust "issue-1-r1" "worker-b" 100 60 queued).0 ≡ ok third_record
unfolding queue_code
claim_by_second = refl

room_for_one : length (entries_of "issue-1-r1" queued) < 2000
unfolding queue_code entries_of length
room_for_one = ground arith

claim-Claims_example : Claims trust "issue-1-r1" "worker-b" 100 60 queued third_record
claim-Claims_example =
    claim-Claims trust "issue-1-r1" "worker-b" 100 60 queued third_record queued-WellFiled
      room_for_one claim_by_second

abbrev holder : Holder
holder = record { worker = "worker-a"; generation = 1; version = 1 }

abbrev starting : Changes
starting = record nothing { state = some running; intent = some (some "validate") }

abbrev running_record : Objective
running_record = record second_record { state = running; intent = some "validate"; version = 2 }

update_by_holder :
    (update trust "issue-1-r1" holder 30 "started" starting queued).0 ≡ ok running_record
unfolding queue_code check_changes apply_changes has_queue_edge
update_by_holder = refl

update-read_example :
    (r : Objective) × (read trust "issue-1-r1" queued ≡ ok r)
    × (holds holder 30 r ≡ true)
    × (running_record.version ≡ r.version + 1)
    × (read trust "issue-1-r1" (update trust "issue-1-r1" holder 30 "started" starting queued).1
        ≡ ok running_record)
update-read_example =
    update-read trust "issue-1-r1" holder 30 "started" starting queued running_record
      queued-WellFiled room_for_one update_by_holder
