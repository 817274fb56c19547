-- ===== src/Automation/Queue/Moves.antt =====
-- tools/task_automation/queue.py: what one call can do to the tables.
use mathlib.Core.Path.{subst}
use night_recon.Prelude.{
  Bool-cases, Option, Option-cases, Result-cases, String, ap, arith, bool_Eq, get, if◌then◌else◌,
  inl, inr, list_Eq, nat_Eq, none, ok, option_Eq, pair_Eq, put, some, string_Eq, sym, ℕ, ◌+◌, ◌≡◌,
  ◌⊎◌,
}
use night_recon.Automation.Runs.{blocked}
use night_recon.Automation.Queue.Objectives.{
  Approval, Changes, Objective, apply_changes, check_changes, is_final,
}
use night_recon.Automation.Queue.Leases.{Holder, charge, claimed, is_blocked, opening}
use night_recon.Automation.Queue.Tables.{Queue, Trust, entry_for, mac_of, read, write}
use night_recon.Automation.Queue.Calls.{
  Call, check_charge, claim, claims, enqueue, enqueues, expire, expires, reserve_attempt, reserves,
  step, update, updates,
}
use night_recon.Automation.Queue.Progress.{Later, claimed-Later, expired-Later, update-Later}

pub data Move (s s' : Queue) : Type 0 where
  same : s'.objectives ≡ s.objectives → s'.approvals ≡ s.approvals → Move s s'
  opened :
      (q : Objective) (m : String) (a : String × String)
      → get q.approval.objective_id s.approvals ≡ none
      → s'.objectives ≡ put q.approval.objective_id (q, m) s.objectives
      → s'.approvals ≡ put q.approval.objective_id a s.approvals
      → Move s s'
  rewritten :
      (r q : Objective) (m n : String)
      → get r.approval.objective_id s.objectives ≡ some (r, m)
      → Later r q
      → s'.objectives ≡ put r.approval.objective_id (q, n) s.objectives
      → s'.approvals ≡ s.approvals
      → Move s s'

-- each objective stands under its own identifier, and has an approval
unfoldable pub WellFiled : Queue → Type 0
WellFiled s =
    (id : String) (r : Objective) (m : String)
    → get id s.objectives ≡ some (r, m)
    → (r.approval.objective_id ≡ id) × ((a : String × String) × (get id s.approvals ≡ some a))

-- a call ends in the tables that were written, or in those it began with
settled :
    (s next end_state : Queue)
    → Move s next
    → (end_state ≡ next) ⊎ (end_state ≡ s)
    → Move s end_state
settled s next end_state m (inl e) = subst (Move s) (sym e) m
settled s next end_state m (inr e) =
    same (ap (λ (q : Queue). q.objectives) e) (ap (λ (q : Queue). q.approvals) e)

module _ (t : Trust) where
  pub read-found :
      (id : String) (s : Queue) (r : Objective)
      → read t id s ≡ ok r
      → (m : String) × (get id s.objectives ≡ some (r, m))
  unfolding read
  read-found id s r h = elim (Option-cases (get id s.objectives)) [
    | inl n ↦ absurd (ground (arith, n, h))
    | inr ((q, m), f) ↦ (m, ground (arith, f, h))
  ]

  write-puts :
      (r : Objective) (event : String) (s s' : Queue)
      → write t r event s ≡ ok s'
      → (n : String) × (s'.objectives ≡ put r.approval.objective_id (r, n) s.objectives)
        × (s'.approvals ≡ s.approvals)
  unfolding write
  write-puts r event s s' h =
      ((entry_for t r event (mac_of r.approval.objective_id s)).mac, ground arith, ground arith)

  write-Move :
      (r q : Objective) (m event : String) (s s' : Queue)
      → get r.approval.objective_id s.objectives ≡ some (r, m)
      → Later r q
      → write t q event s ≡ ok s'
      → Move s s'
  write-Move r q m event s s' f l h =
      let (n, o, a) = write-puts q event s s' h in
      rewritten r q m n f l (ground (arith, o, l.approval)) a

  read-filed :
      (id : String) (s : Queue) (r : Objective)
      → WellFiled s
      → read t id s ≡ ok r
      → (m : String) × (get r.approval.objective_id s.objectives ≡ some (r, m))
  unfolding WellFiled
  read-filed id s r w h = let (m, f) = read-found id s r h in (m, ground (arith, f, (w id r m f).0))

  claim-Move :
      (id worker : String) (now lease_seconds : ℕ) (s : Queue)
      → WellFiled s
      → Move s (claim t id worker now lease_seconds s).1
  unfolding claim
  claim-Move id worker now lease_seconds s w = elim (Result-cases (read t id s)) [
    | inr (x, b) ↦ same (ground (arith, b)) (ground (arith, b))
    | inl (r, b) ↦ elim (Bool-cases (is_final r.state)) [
      | inl f ↦ same (ground (arith, b, f)) (ground (arith, b, f))
      | inr f ↦
          let new : Objective = claimed worker now lease_seconds r in
          let event : String =
            if is_blocked new.state then "reconciliation_required" else "claimed" in
          elim (Result-cases (write t new event s)) [
            | inr (x, c) ↦ same (ground (arith, b, f, c)) (ground (arith, b, f, c))
            | inl (next, c) ↦
                let (m, found) = read-filed id s r w b in
                settled s next (claim t id worker now lease_seconds s).1
                  (write-Move r new m event s next found
                    (claimed-Later worker now lease_seconds r f) c)
                  (ground (arith, b, f, c))
          ]
    ]
  ]

  update-Move :
      (id : String) (h : Holder) (now : ℕ) (event : String) (changes : Changes) (s : Queue)
      → WellFiled s
      → Move s (update t id h now event changes s).1
  unfolding update
  update-Move id h now event changes s w = elim (Result-cases (read t id s)) [
    | inr (x, b) ↦ same (ground (arith, b)) (ground (arith, b))
    | inl (r, b) ↦ elim (Bool-cases (is_final r.state)) [
      | inl f ↦ same (ground (arith, b, f)) (ground (arith, b, f))
      | inr f ↦ elim (Result-cases (check_changes r (apply_changes r changes))) [
        | inr (x, k) ↦ same (ground (arith, b, f, k)) (ground (arith, b, f, k))
        | inl (u, k) ↦
            let new : Objective = record (apply_changes r changes) { version = r.version + 1 } in
            elim (Result-cases (write t new event s)) [
              | inr (x, c) ↦ same (ground (arith, b, f, k, c)) (ground (arith, b, f, k, c))
              | inl (next, c) ↦
                  let (m, found) = read-filed id s r w b in
                  settled s next (update t id h now event changes s).1
                    (write-Move r new m event s next found (update-Later r changes f k) c)
                    (ground (arith, b, f, k, c))
            ]
      ]
    ]
  ]

  expire-Move : (id : String) (now : ℕ) (s : Queue) → WellFiled s → Move s (expire t id now s).1
  unfolding expire
  expire-Move id now s w = elim (Result-cases (read t id s)) [
    | inr (x, b) ↦ same (ground (arith, b)) (ground (arith, b))
    | inl (r, b) ↦ elim (Bool-cases (is_final r.state)) [
      | inl f ↦ same (ground (arith, b, f)) (ground (arith, b, f))
      | inr f ↦
          let why : Option String =
            some "objective deadline/lease exceeded; reconcile any pending intent" in
          let new : Objective = record r {
            state = blocked;
            reason = why;
            version = r.version + 1;
          } in
          elim (Result-cases (write t new "objective_timed_out" s)) [
            | inr (x, c) ↦ same (ground (arith, b, f, c)) (ground (arith, b, f, c))
            | inl (next, c) ↦
                let (m, found) = read-filed id s r w b in
                settled s next (expire t id now s).1
                  (write-Move r new m "objective_timed_out" s next found (expired-Later r why f) c)
                  (ground (arith, b, f, c))
          ]
    ]
  ]

  reserve_attempt-Move :
      (approval : Approval) (h : Holder) (now tokens cost : ℕ) (s : Queue)
      → WellFiled s
      → Move s (reserve_attempt t approval h now tokens cost s).1
  unfolding reserve_attempt
  reserve_attempt-Move approval h now tokens cost s w =
      elim (Result-cases (check_charge t approval tokens cost s)) [
        | inr (x, b) ↦ same (ground (arith, b)) (ground (arith, b))
        | inl (r, b) ↦ subst (Move s) (ground (arith, b)) (
            update-Move approval.objective_id h now "attempt_budget_reserved" (charge r tokens cost)
              s w)
      ]

  enqueue-Move : (raw : String) (now : ℕ) (s : Queue) → Move s (enqueue t raw now s).1
  unfolding enqueue
  enqueue-Move raw now s = elim (Option-cases (t.verify raw now)) [
    | inl n ↦ same (ground (arith, n)) (ground (arith, n))
    | inr (approval, v) ↦ elim (Option-cases (get approval.objective_id s.approvals)) [
      | inr ((digest, envelope), f) ↦
          let e : (enqueue t raw now s).1 ≡ s = ground (arith, v, f) in
          same (ap (λ (q : Queue). q.objectives) e) (ap (λ (q : Queue). q.approvals) e)
      | inl f ↦
          let q = opening approval now in
          let filed : Queue = record s {
            approvals = put approval.objective_id (approval.digest, raw) s.approvals;
          } in
          elim (Result-cases (write t q "approved" filed)) [
            | inr (x, c) ↦ same (ground (arith, v, f, c)) (ground (arith, v, f, c))
            | inl (next, c) ↦
                let (n, o, a) = write-puts q "approved" filed next c in
                opened q n (approval.digest, raw) f (ground (arith, v, f, c, o))
                  (ground (arith, v, f, c, a))
          ]
    ]
  ]

  pub step-Move : (s : Queue) (c : Call) → WellFiled s → Move s (step t s c)
  unfolding step
  step-Move s (enqueues raw now) w = enqueue-Move raw now s
  step-Move s (claims id worker now lease_seconds) w = claim-Move id worker now lease_seconds s w
  step-Move s (updates id h now event changes) w = update-Move id h now event changes s w
  step-Move s (reserves approval h now tokens cost) w =
      reserve_attempt-Move approval h now tokens cost s w
  step-Move s (expires id now) w = expire-Move id now s w
