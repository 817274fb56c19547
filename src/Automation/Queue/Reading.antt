-- ===== src/Automation/Queue/Reading.antt =====
-- tools/task_automation/queue.py: what a call returns is what `_read` finds after it.
use night_recon.Prelude.{
  Result-cases, String, ap, arith, false, if◌then◌else◌, inl, inr, length, ok, refl, true, ℕ, ◌+◌,
  ◌<◌, ◌∙◌, ◌≡◌, ◌≤◌,
}
use night_recon.Automation.Queue.Objectives.{
  Approval, Changes, Objective, apply_changes, check_changes, is_final,
}
use night_recon.Automation.Queue.Leases.{Holder, claimed, holds, is_blocked}
use night_recon.Automation.Queue.Tables.{Queue, Trust, entries_of, read, write}
use night_recon.Automation.Queue.Calls.{claim, update}
use night_recon.Automation.Queue.Progress.{claimed-Later, update-Later}
use night_recon.Automation.Queue.Moves.{WellFiled, read-found}
use night_recon.Automation.Queue.Integrity.{read-Intact, write-read}

claimed-version :
    (worker : String) (now lease_seconds : ℕ) (r : Objective)
    → (claimed worker now lease_seconds r).version ≡ r.version + 1
unfolding claimed
claimed-version worker now lease_seconds r = ground arith

-- What a successful `claim` found and left.
pub record Claims (t : Trust) (id worker : String) (now lease_seconds : ℕ) (s : Queue)
    (q : Objective) : Type 0 where
  pub before : Objective
  pub read_before : read t id s ≡ ok before
  pub open_state : is_final before.state ≡ false
  pub in_time : now < before.deadline
  pub free : before.lease_until ≤ now
  pub result : q ≡ claimed worker now lease_seconds before
  pub read_after : read t id (claim t id worker now lease_seconds s).1 ≡ ok q

module _ (t : Trust) where
  objective_id-read :
      (id : String) (s : Queue) (r : Objective)
      → WellFiled s
      → read t id s ≡ ok r
      → r.approval.objective_id ≡ id
  unfolding WellFiled
  objective_id-read id s r w h = let (m, f) = read-found t id s r h in (w id r m f).0

  -- From tables that are filed well, a successful `claim` found the objective open, before its
  -- deadline and with no lease running, and `_read` accepts the longer history afterwards and gives
  -- the record that `claim` returned, as long as there is room for one more event.
  pub claim-Claims :
      (id worker : String) (now lease_seconds : ℕ) (s : Queue) (q : Objective)
      → WellFiled s
      → length (entries_of id s) < 2000
      → (claim t id worker now lease_seconds s).0 ≡ ok q
      → Claims t id worker now lease_seconds s q
  unfolding claim
  claim-Claims id worker now lease_seconds s q w room h = elim (Result-cases (read t id s)) [
    | inr (x, b) ↦ absurd (ground (arith, b, h))
    | inl (r, b) ↦
        let f : is_final r.state ≡ false = ground (arith, b, h) in
        let new : Objective = claimed worker now lease_seconds r in
        let event : String =
          if is_blocked new.state then "reconciliation_required" else "claimed" in
        elim (Result-cases (write t new event s)) [
          | inr (x, c) ↦ absurd (ground (arith, b, f, c, h))
          | inl (next, c) ↦
              let eq : q ≡ new = ground (arith, b, c, h) in
              let after : (claim t id worker now lease_seconds s).1 ≡ next =
                ground (arith, b, c, h) in
              let own =
                ap (λ (a : Approval). a.objective_id)
                  (claimed-Later worker now lease_seconds r f).approval
                ∙ objective_id-read id s r w b in
              record {
                before = r;
                read_before = b;
                open_state = f;
                in_time = ground (arith, b, h);
                free = ground (arith, b, h);
                result = eq;
                read_after = ground (
                  arith,
                  after,
                  eq,
                  write-read t id s next r new event (read-Intact t id s r b) own
                      (claimed-version worker now lease_seconds r) room c,
                );
              }
        ]
  ]

  -- From tables that are filed well, a successful `update` was made by the holder of the running
  -- lease on the current version, and `_read` accepts the longer history afterwards and gives the
  -- record that `update` returned, one version on, as long as there is room for one more event.
  pub update-read :
      (id : String) (holder : Holder) (now : ℕ) (event : String) (changes : Changes) (s : Queue)
      (q : Objective)
      → WellFiled s
      → length (entries_of id s) < 2000
      → (update t id holder now event changes s).0 ≡ ok q
      → (r : Objective) × (read t id s ≡ ok r)
        × (holds holder now r ≡ true)
        × (q.version ≡ r.version + 1)
        × (read t id (update t id holder now event changes s).1 ≡ ok q)
  unfolding update
  update-read id holder now event changes s q w room h = elim (Result-cases (read t id s)) [
    | inr (x, b) ↦ absurd (ground (arith, b, h))
    | inl (r, b) ↦
        let f : is_final r.state ≡ false = ground (arith, b, h) in
        let held : holds holder now r ≡ true = ground (arith, b, h) in
        let new : Objective = record (apply_changes r changes) { version = r.version + 1 } in
        elim (Result-cases (check_changes r (apply_changes r changes))) [
          | inr (x, k) ↦ absurd (ground (arith, b, f, k, h))
          | inl (u, k) ↦ elim (Result-cases (write t new event s)) [
            | inr (x, c) ↦ absurd (ground (arith, b, f, k, c, h))
            | inl (next, c) ↦
                let eq : q ≡ new = ground (arith, b, k, c, h) in
                let after : (update t id holder now event changes s).1 ≡ next =
                  ground (arith, b, k, c, h) in
                let own =
                  ap (λ (a : Approval). a.objective_id) (update-Later r changes f k).approval
                  ∙ objective_id-read id s r w b in
                (
                  r,
                  b,
                  held,
                  ground (arith, eq),
                  ground (
                    arith,
                    after,
                    eq,
                    write-read t id s next r new event (read-Intact t id s r b) own refl room c,
                  ),
                )
          ]
        ]
  ]
