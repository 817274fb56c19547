-- ===== src/Automation/Queue/Tables.antt =====
-- tools/task_automation/queue.py: the tables of ObjectiveQueue, `_read` and `_write`. What verifies a
-- signed approval and what authenticates an event are parameters.
use night_recon.Prelude.{
  Bool, Dict, List, Option, Result, String, [], any, bool_Eq, get, insort, leb, length, list_Eq,
  nat_Eq, none, not, ok, option_Eq, or_raise, pair_Eq, put, raise, require, some, string_Eq, ℕ,
  ◌&&◌, ◌+◌, ◌==◌, ◌>>=◌, ◌>>◌, ◌∷◌,
}
use night_recon.Automation.Checks.{Rejected}
use night_recon.Automation.Queue.Objectives.{
  Approval, Objective, QueueError, bad_history, duplicate_event, rejected, unknown_objective,
}

-- A row of `events`, whose key is the objective with the version.
pub record Entry : Type 0 where
  pub version : ℕ
  pub event : String
  pub after : Objective
  pub previous_mac : String
  pub mac : String

-- The rows of an objective in `events` stand in the order of their versions.
pub record Queue : Type 0 where
  pub approvals : Dict String (String × String)
  pub objectives : Dict String (Objective × String)
  pub events : Dict String (List Entry)

-- `verify_approval` under the policy and the owners' keys, `_canonical` on a record, and the keyed
-- `_mac` of an event.
pub record Trust : Type 0 where
  pub verify : String → ℕ → Option Approval
  pub canonical : Objective → String
  pub mac : String → ℕ → String → String → String → String

abbrev pub transaction :
    {A : Type 0} → Queue → Result QueueError (A × Queue) → Result QueueError A × Queue
transaction s (ok (a, t)) = (ok a, t)
transaction s (raise e) = (raise e, s)

abbrev pub from_rejected : {A : Type 0} → Result Rejected A → Result QueueError A
from_rejected (ok a) = ok a
from_rejected (raise e) = raise (rejected e)

abbrev pub first_mac : String
first_mac = "0000000000000000000000000000000000000000000000000000000000000000"

abbrev pub entries_of : String → Queue → List Entry
entries_of id s = elim (get id s.events) [ none ↦ [] | some entries ↦ entries ]

abbrev pub newer : Entry → Entry → Bool
newer e f = leb e.version f.version

abbrev pub mac_or_first : Option (Objective × String) → String
mac_or_first none = first_mac
mac_or_first (some x) = x.1

abbrev pub mac_of : String → Queue → String
mac_of id s = mac_or_first (get id s.objectives)

module _ (t : Trust) where
  -- the loop of `_read`: gives the last row, if there is one
  unfoldable pub check_entries :
      String → ℕ → String → Option Entry → List Entry → Result QueueError (Option Entry)
  check_entries id index previous last [] = ok last
  check_entries id index previous last (e ∷ es) = do
    require
        (e.version == index
          && e.previous_mac == previous
          && t.mac id e.version e.event (t.canonical e.after) previous == e.mac)
        bad_history
    check_entries id (index + 1) e.mac (some e) es

  unfoldable pub read : String → Queue → Result QueueError Objective
  read id s = do
    (row, mac) ← or_raise (get id s.objectives) unknown_objective
    let entries = entries_of id s
    require (leb 1 (length entries) && leb (length entries) 2000) bad_history
    last ← check_entries id 0 first_mac none entries
    e ← or_raise last bad_history
    require (t.canonical row == t.canonical e.after && mac == e.mac) bad_history
    require (row.version + 1 == length entries) bad_history
    ok row

  unfoldable pub entry_for : Objective → String → String → Entry
  entry_for r event previous = record {
    version = r.version;
    event = event;
    after = r;
    previous_mac = previous;
    mac = t.mac r.approval.objective_id r.version event (t.canonical r) previous;
  }

  -- `_write`; the key of `events` is unique
  unfoldable pub write : Objective → String → Queue → Result QueueError Queue
  unfolding entry_for
  write r event s = do
    let id = r.approval.objective_id
    let entry = entry_for r event (mac_of id s)
    require (not (any (λ (e : Entry). e.version == r.version) (entries_of id s))) duplicate_event
    ok (record s {
      events = put id (insort newer entry (entries_of id s)) s.events;
      objectives = put id (r, entry.mac) s.objectives;
    })
