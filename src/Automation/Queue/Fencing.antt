-- ===== src/Automation/Queue/Fencing.antt =====
-- tools/task_automation/queue.py: what holds of an objective over any history of calls.
use mathlib.Core.Path.{subst}
use night_recon.Prelude.{
  Bool-cases, List, Result-cases, String, [], arith, bool_Eq, eq_of_beq, get, get-put, inl, inr,
  list_Eq, nat_Eq, option_Eq, pair_Eq, raise, some, string_Eq, true, ℕ, ◌<◌, ◌==◌, ◌∷◌, ◌≡◌, ◌⊎◌,
}
use night_recon.Automation.Queue.Objectives.{Changes, Objective, QueueError}
use night_recon.Automation.Queue.Leases.{Holder, holds}
use night_recon.Automation.Queue.Tables.{Queue, Trust, read}
use night_recon.Automation.Queue.Calls.{Call, run, step, update}
use night_recon.Automation.Queue.Progress.{Later, Later-refl, Later-trans}
use night_recon.Automation.Queue.Moves.{
  Move, WellFiled, opened, read-found, rewritten, same, step-Move,
}

-- What became of an objective.
pub record Became (id : String) (r : Objective) (s : Queue) : Type 0 where
  pub now : Objective
  pub mac : String
  pub found : get id s.objectives ≡ some (now, mac)
  pub later : Later r now

Move-WellFiled : {s s' : Queue} → Move s s' → WellFiled s → WellFiled s'
unfolding WellFiled
Move-WellFiled (same o a) w id r m f =
    let (e, (x, g)) = w id r m (ground (arith, o, f)) in (e, (x, ground (arith, a, g)))
Move-WellFiled {s} (opened q n x none_yet o a) w id r m f =
    let i = q.approval.objective_id in
    elim (Bool-cases (i == id)) [
      | inl hit ↦ (
        ground (arith, hit, f, o, get-put i id (q, n) s.objectives, eq_of_beq i id hit),
        (x, ground (arith, hit, a, get-put i id x s.approvals)),
      )
      | inr miss ↦
          let (e, (y, g)) =
            w id r m (ground (arith, miss, f, o, get-put i id (q, n) s.objectives)) in
          (e, (y, ground (arith, miss, g, a, get-put i id x s.approvals)))
    ]
Move-WellFiled {s} (rewritten old q m' n found l o a) w id r m f =
    let i = old.approval.objective_id in
    elim (Bool-cases (i == id)) [
      | inl hit ↦
          let (e, (y, g)) = w i old m' found in
          (
            ground (
              arith,
              hit,
              f,
              o,
              get-put i id (q, n) s.objectives,
              eq_of_beq i id hit,
              l.approval,
            ),
            (y, ground (arith, a, g, eq_of_beq i id hit)),
          )
      | inr miss ↦
          let (e, (y, g)) =
            w id r m (ground (arith, miss, f, o, get-put i id (q, n) s.objectives)) in
          (e, (y, ground (arith, a, g)))
    ]

Move-Became :
    {s s' : Queue} (id : String) (r : Objective)
    → Move s s'
    → WellFiled s
    → Became id r s
    → Became id r s'
unfolding WellFiled
Move-Became id r (same o a) w b = record {
  now = b.now;
  mac = b.mac;
  found = ground (arith, o, b.found);
  later = b.later;
}
Move-Became {s} id r (opened q n x none_yet o a) w b =
    let i = q.approval.objective_id in
    elim (Bool-cases (i == id)) [
      | inl hit ↦
          let (e, (y, g)) = w id b.now b.mac b.found in
          absurd (ground (arith, none_yet, g, eq_of_beq i id hit))
      | inr miss ↦ record {
        now = b.now;
        mac = b.mac;
        found = ground (arith, miss, b.found, o, get-put i id (q, n) s.objectives);
        later = b.later;
      }
    ]
Move-Became {s} id r (rewritten old q m n found l o a) w b =
    let i = old.approval.objective_id in
    elim (Bool-cases (i == id)) [
      | inl hit ↦
          let eq : old ≡ b.now = ground (arith, found, b.found, eq_of_beq i id hit) in
          record {
            now = q;
            mac = n;
            found = ground (arith, hit, o, get-put i id (q, n) s.objectives);
            later = Later-trans r b.now q b.later (subst (λ (z : Objective). Later z q) eq l);
          }
      | inr miss ↦ record {
        now = b.now;
        mac = b.mac;
        found = ground (arith, miss, b.found, o, get-put i id (q, n) s.objectives);
        later = b.later;
      }
    ]

Became-start :
    (id : String) (r : Objective) (m : String) (s : Queue)
    → get id s.objectives ≡ some (r, m)
    → Became id r s
Became-start id r m s f = record { now = r; mac = m; found = f; later = Later-refl r }

run-Became-from :
    (t : Trust) (id : String) (r : Objective) (s : Queue) (cs : List Call)
    → WellFiled s
    → Became id r s
    → Became id r (run t s cs)
unfolding run
run-Became-from t id r s [] w b = b
run-Became-from t id r s (c ∷ cs) w b =
    let move = step-Move t s c w in
    run-Became-from t id r (step t s c) cs (Move-WellFiled move w) (Move-Became id r move w b)

-- From tables in which each objective stands under its own identifier and has its approval, over
-- any history of calls an objective is never lost, keeps its approval and deadline, never gets a
-- smaller version, lease generation, or charge of attempts, tokens or cost, stays within the signed
-- limits if it was within, is as it was while its version is, and stays for ever as it is once it
-- is blocked, failed or completed.
pub run-Became :
    (t : Trust) (id : String) (r : Objective) (m : String) (s : Queue) (cs : List Call)
    → WellFiled s
    → get id s.objectives ≡ some (r, m)
    → Became id r (run t s cs)
run-Became t id r m s cs w f = run-Became-from t id r s cs w (Became-start id r m s f)

still_outdated :
    (h : Holder) (r q : Objective)
    → Later r q
    → (h.generation < r.lease_generation) ⊎ (h.version < r.version)
    → (h.generation < q.lease_generation) ⊎ (h.version < q.version)
still_outdated h r q l (inl g) = inl (omega (arith, g, l.generation))
still_outdated h r q l (inr v) = inr (omega (arith, v, l.version))

holds-current :
    (h : Holder) (now : ℕ) (r : Objective)
    → holds h now r ≡ true
    → (r.lease_generation ≡ h.generation) × (r.version ≡ h.version)
unfolding holds
holds-current h now r e = (ground arith, ground arith)

outdated :
    (t : Trust) (id : String) (h : Holder) (now : ℕ) (event : String) (changes : Changes)
    (s : Queue) (r : Objective) (m : String)
    → get id s.objectives ≡ some (r, m)
    → (h.generation < r.lease_generation) ⊎ (h.version < r.version)
    → (e : QueueError) × ((update t id h now event changes s).0 ≡ raise e)
unfolding update holds
outdated t id h now event changes s r m f o =
    elim (Result-cases (update t id h now event changes s).0) [
      | inr (e, b) ↦ (e, b)
      | inl (q, b) ↦ elim (Result-cases (read t id s)) [
        | inr (e, c) ↦ absurd (ground (arith, c, b))
        | inl (r', c) ↦
            let eq : r' ≡ r = ground (arith, read-found t id s r' c, f) in
            let held : holds h now r' ≡ true = ground (arith, c, b) in
            absurd (ground (arith, holds-current h now r' held, eq, o))
      ]
    ]

-- Once an objective has a newer lease or a newer version than the one that a worker holds, no
-- update by that worker succeeds, whatever calls come between.
pub update-fenced :
    (t : Trust) (id : String) (h : Holder) (now : ℕ) (event : String) (changes : Changes)
    (r : Objective) (m : String) (s : Queue) (cs : List Call)
    → WellFiled s
    → get id s.objectives ≡ some (r, m)
    → (h.generation < r.lease_generation) ⊎ (h.version < r.version)
    → (e : QueueError) × ((update t id h now event changes (run t s cs)).0 ≡ raise e)
update-fenced t id h now event changes r m s cs w f o =
    let b = run-Became t id r m s cs w f in
    outdated t id h now event changes (run t s cs) b.now b.mac b.found
      (still_outdated h r b.now b.later o)
